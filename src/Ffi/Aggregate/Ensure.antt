-- ===== src/Ffi/Aggregate/Ensure.antt =====
-- What initialize_aggregate leaves of an element before it is placed.
use native.Mathlib.Decide.{ℕ_discrete, dec_lt}
use particle_python_wheels.Prelude.{
  ℕ, ◌≤◌, ◌<◌, ◌≡◌, ◌≢◌, ◌⊎◌, inl, inr, refl, arith, Bool-cases, ◌==◌,
}
use particle_python_wheels.Ffi.Store.{FfiStatus, Ptr, Store, Run}
use particle_python_wheels.Ffi.Returns
use particle_python_wheels.Ffi.Returns.{Returns, returns}
use particle_python_wheels.Ffi.Aggregate.Layout.{IsReady}
use particle_python_wheels.Ffi.Aggregate.Effect.{Kept, SameMakeup, BelowReady, Initialised}
use particle_python_wheels.Ffi.Aggregate.{Outcome, ensure_size}

module _ (rank : Ptr → ℕ) (arg : Ptr) where
  -- An element that has a size is left alone; another is initialised.
  pub record Ensured (ptr : Ptr) (s : Store) (r : Outcome) : Type 0 where
    pub kept : (q : Ptr) → (rank arg ≤ rank q) ⊎ ((s q).size ≢ 0) → r.store q ≡ s q
    pub same : SameMakeup s r.store
    pub ready :
        r.status ≡ FfiStatus.ok
        → BelowReady rank (rank arg) s
        → BelowReady rank (rank arg) r.store × IsReady (r.store ptr)

  -- After the call each lower type is the new one, one below it, or an old one.
  ready_at :
      (ptr : Ptr) (s : Store) (r : Outcome)
      → Kept rank ptr s r.store
      → BelowReady rank (rank ptr) r.store
      → IsReady (r.store ptr)
      → (q : Ptr) → ((s q).size ≢ 0 → IsReady (s q))
      → (r.store q).size ≢ 0
      → IsReady (r.store q)
  ready_at ptr s r kept rest self q old filled = elim (ℕ_discrete q ptr) [
    | yes e ↦ rw e self
    | no ne ↦ elim (dec_lt (rank q) (rank ptr)) [
      | yes l ↦ rest q l filled
      | no g ↦
          let same : r.store q ≡ s q = kept q ne (inl (omega arith)) in
          rw same (old (rw same at filled))
    ]
  ]

  Initialised-Ensured :
      (ptr : Ptr) (s : Store) (r : Outcome)
      → rank ptr < rank arg
      → (s ptr).size ≡ 0
      → Initialised rank ptr s r
      → Ensured ptr s r
  Initialised-Ensured ptr s r lower empty i = record {
    kept = λ q h. i.kept q (ground arith) (ground arith);
    same = i.same;
    ready = λ fine below.
        let (rest, self) = i.ready fine (λ q l. below q (omega arith)) in
        (λ q l f. ready_at ptr s r i.kept rest self q (below q l) f, self);
  }

  pub ensure_size-Ensured :
      (init : Ptr → Store → Run Outcome) (ptr : Ptr) (s : Store)
      → rank ptr < rank arg
      → Returns (Initialised rank ptr s) (init ptr s)
      → Returns (Ensured ptr s) (ensure_size init ptr s)
  unfolding ensure_size
  ensure_size-Ensured init ptr s lower i = elim (Bool-cases ((s ptr).size == 0)) [
    | inl e ↦
        rw (e, ensure_size) (Returns.mono i (λ r. Initialised-Ensured ptr s r lower (ground arith)))
    | inr e ↦
        rw (e, ensure_size)
          (returns (record {
            kept = λ q h. refl;
            same = λ q. (refl, refl);
            ready = λ o b. (b, b ptr lower (ground arith));
          }))
  ]
