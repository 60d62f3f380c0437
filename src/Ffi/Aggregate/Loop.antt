-- ===== src/Ffi/Aggregate/Loop.antt =====
-- The loop of initialize_aggregate, given that the recursive call does its work.
use native.Mathlib.Nat.{le_refl}
use particle_python_wheels.Prelude.{
  ℕ, ◌+◌, ◌^◌, ◌≤◌, ◌<◌, ◌≡◌, ◌≢◌, ◌⊎◌, inl, inr, refl, sym, ap, ◌∙◌, Bool, true, List, [], ◌∷◌,
  arith,
}
use particle_python_wheels.Ffi.Store.{FfiStatus, FfiType, Ptr, Store, Run}
use particle_python_wheels.Ffi.Returns
use particle_python_wheels.Ffi.Returns.{Returns, returns}
use particle_python_wheels.Ffi.Aggregate.Layout.{
  All, IsReady, max-IsAlignment, Packed, strictest, footprint,
}
use particle_python_wheels.Ffi.Aggregate.Place.{
  place_element-ne, place_element-same, place_element-alignment, place_element-Placed,
}
use particle_python_wheels.Ffi.Aggregate.Ensure.{Ensured, ensure_size-Ensured}
use particle_python_wheels.Ffi.Aggregate.Effect.{
  Kept, Ranked, Ranked-same, SameMakeup, BelowReady, Initialised, Building, Looped,
}
use particle_python_wheels.Ffi.Aggregate.{
  Outcome, continue_loop, elements_loop, place_element, element_offset, note_offset,
}

module _ (rank : Ptr → ℕ) (init : Ptr → Store → Run Outcome) (arg : Ptr) where
  place_element-Kept : (ptr : Ptr) (s : Store) → Kept rank arg s (place_element arg ptr s)
  place_element-Kept ptr s q ne h = place_element-ne s arg ptr q ne

  -- What is known between the step on `ptr` and the rest of the loop.
  record Between (ptr : Ptr) (s : Store) (t r : Outcome) : Type 0 where
    ne : ptr ≢ arg
    self : IsReady (t.store ptr)
    below : BelowReady rank (rank arg) (place_element arg ptr t.store)
    final : r.store ptr ≡ t.store ptr
    start : t.store arg ≡ s arg

  module _ (wanted : Bool) (ptr : Ptr) (rest : List Ptr) (s : Store) (t r : Outcome)
      (lower : rank ptr < rank arg) (e : Ensured rank arg ptr s t) (fine : t.status ≡ FfiStatus.ok)
      (l : Looped rank arg (place_element arg ptr t.store) wanted rest r) where
    lower-ne : (q : Ptr) → rank q < rank arg → q ≢ arg
    lower-ne q h same = absurd (omega (arith, ap rank same))

    placed : (q : Ptr) → q ≢ arg → place_element arg ptr t.store q ≡ t.store q
    placed q ne = place_element-ne t.store arg ptr q ne

    between : BelowReady rank (rank arg) s → Between ptr s t r
    between below =
        let (older, self) = e.ready fine below in
        let ne = lower-ne ptr lower in
        record {
          ne = ne;
          self = self;
          below = λ q h filled.
              let same = placed q (lower-ne q h) in rw same (older q h (rw same at filled));
          final = l.kept ptr ne (inr (rw (placed ptr ne) self.filled)) ∙ placed ptr ne;
          start = e.kept arg (inl (le_refl _));
        }

    step-Kept : Kept rank arg s r.store
    step-Kept q ne h = l.kept q ne still ∙ (placed q ne ∙ e.kept q h)
      where
        still : (rank arg ≤ rank q) ⊎ ((place_element arg ptr t.store q).size ≢ 0)
        still = rw (placed q ne, e.kept q h) h

    step-same : SameMakeup s r.store
    step-same q =
        let (es, c) = l.same q in
        let (es', c') = place_element-same t.store arg ptr q in
        let (es'', c'') = e.same q in (es ∙ (es' ∙ es''), c ∙ (c' ∙ c''))

    Building-place :
        Between ptr s t r → Building arg s → Building arg (place_element arg ptr t.store)
    Building-place m b = inr (
        rw (place_element-alignment t.store arg ptr m.ne)
          (max-IsAlignment m.self.aligned (rw (sym m.start) at b)))

    step-ready :
        r.status ≡ FfiStatus.ok
        → BelowReady rank (rank arg) s
        → Building arg s
        → BelowReady rank (rank arg) r.store
          × Building arg r.store
          × All (λ p. IsReady (r.store p)) (ptr ∷ rest)
    step-ready done below b =
        let m = between below in
        let (low, built, each) = l.ready done m.below (Building-place m b) in
        (low, built, (rw m.final m.self, each))

    step-Packed :
        r.status ≡ FfiStatus.ok
        → BelowReady rank (rank arg) s
        → (s arg).size + footprint r.store (ptr ∷ rest) < 2 ^ 32
        → wanted ≡ true
        → Packed r.store
            (s arg).size
            (ptr ∷ rest)
            (element_offset arg ptr t.store ∷ r.offsets)
            (r.store arg).size
          × ((r.store arg).alignment ≡ strictest r.store (s arg).alignment (ptr ∷ rest))
    step-Packed done below room w =
        let m = between below in
        let start : (t.store arg).size ≡ (s arg).size = ap (λ (x : FfiType). x.size) m.start in
        let lowest : (t.store arg).alignment ≡ (s arg).alignment =
          ap (λ (x : FfiType). x.alignment) m.start in
        let size : (r.store ptr).size ≡ (t.store ptr).size = ap (λ (x : FfiType). x.size) m.final in
        let align : (r.store ptr).alignment ≡ (t.store ptr).alignment =
          ap (λ (x : FfiType). x.alignment) m.final in
        let p = place_element-Placed t.store arg ptr m.ne m.self.aligned (omega arith) in
        let (packed, strict) = l.packed done m.below w (omega (arith, p.size, p.near)) in
        (
          (
            element_offset arg ptr t.store,
            r.offsets,
            refl,
            omega (arith, p.from),
            omega (arith, p.near),
            rw align p.aligned,
            rw (size, sym p.size) packed,
          ),
          rw (align, ← lowest, ← place_element-alignment t.store arg ptr m.ne) strict,
        )

    step-Looped :
        Returns
          (Looped rank arg s wanted (ptr ∷ rest))
          (note_offset wanted (element_offset arg ptr t.store) r)
    unfolding note_offset
    step-Looped = returns (record {
      kept = step-Kept;
      same = step-same;
      ready = step-ready;
      packed = λ done below w room.
          let (packed, strict) = step-Packed done below room w in (rw w packed, strict);
    })

  fail-Looped :
      (wanted : Bool) (ptr : Ptr) (rest : List Ptr) (s : Store) (t : Outcome)
      → Ensured rank arg ptr s t
      → Looped rank arg s wanted
          (ptr ∷ rest)
          (record t { status = FfiStatus.bad_typedef; offsets = [] })
  fail-Looped wanted ptr rest s t e = record {
    kept = λ q ne h. e.kept q h;
    same = e.same;
    ready = λ done. absurd (cc);
    packed = λ done. absurd (cc);
  }

  module _ (wanted : Bool) (ptr : Ptr) (ps : List Ptr) (s : Store) (lower : rank ptr < rank arg)
      (next : Store → Run Outcome)
      (ih : (u : Store) → Ranked rank u → Returns (Looped rank arg u wanted ps) (next u)) where
    continue_loop-Looped :
        (t : Outcome) (st : FfiStatus)
        → t.status ≡ st
        → Ranked rank t.store
        → Ensured rank arg ptr s t
        → Returns (Looped rank arg s wanted (ptr ∷ ps)) (continue_loop next wanted arg ptr t)
    unfolding continue_loop
    continue_loop-Looped t FfiStatus.ok fine ranked e =
        rw (fine, continue_loop)
          (Returns.bind _
            (ih (place_element arg ptr t.store) (
              Ranked-same t.store (place_element arg ptr t.store)
                (place_element-same t.store arg ptr) ranked))
            (λ r l. step-Looped wanted ptr ps s t r lower e fine l))
    continue_loop-Looped t FfiStatus.bad_typedef bad ranked e =
        rw (bad, continue_loop) (returns (fail-Looped wanted ptr ps s t e))
    continue_loop-Looped t FfiStatus.bad_abi bad ranked e =
        rw (bad, continue_loop) (returns (fail-Looped wanted ptr ps s t e))
    continue_loop-Looped t FfiStatus.bad_argtype bad ranked e =
        rw (bad, continue_loop) (returns (fail-Looped wanted ptr ps s t e))

  pub elements_loop-Looped :
      (wanted : Bool) (ps : List Ptr) (s : Store)
      → All (λ p. rank p < rank arg) ps
      → Ranked rank s
      → ((p : Ptr) (s : Store)
          → rank p < rank arg
          → Ranked rank s
          → Returns (Initialised rank p s) (init p s))
      → Returns (Looped rank arg s wanted ps) (elements_loop init wanted arg ps s)
  unfolding elements_loop
  elements_loop-Looped wanted [] s lower ranked inits = returns (record {
    kept = λ q ne h. refl;
    same = λ q. (refl, refl);
    ready = λ done below b. (below, b, tt);
    packed = λ done below w room. ((refl, refl), refl);
  })
  elements_loop-Looped wanted (p ∷ ps) s (lower, lowers) ranked inits =
      Returns.bind _ (ensure_size-Ensured rank arg init p s lower (inits p s lower ranked)) λ t e.
        continue_loop-Looped wanted p ps s lower _
          (λ u still. elements_loop-Looped wanted ps u lowers still inits) t t.status refl
          (Ranked-same s t.store e.same ranked) e
