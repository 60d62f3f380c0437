-- ===== src/Ffi/Aggregate/Effect.antt =====
-- What a call of initialize_aggregate, or a part of its loop, may do to the types in memory.
use particle_python_wheels.Prelude.{
  ℕ, ◌+◌, ◌^◌, ◌≤◌, ◌<◌, ◌≡◌, sym, ◌∙◌, ◌≢◌, ◌⊎◌, Bool, true, some, List,
}
use particle_python_wheels.Ffi.Store.{FfiStatus, Ptr, Store}
use particle_python_wheels.Ffi.Aggregate.Layout.{
  All, IsAlignment, IsReady, Packed, strictest, footprint,
}
use particle_python_wheels.Ffi.Aggregate.{Outcome}

-- The types contain one another without a cycle: an element ranks below its structure.
abbrev pub Ranked : (Ptr → ℕ) → Store → Type 0
Ranked rank s = (p : Ptr) (ps : List Ptr) → (s p).elements ≡ some ps → All (λ q. rank q < rank p) ps

-- Nothing changes but `arg` and types of a lower rank whose size was 0.
abbrev pub Kept : (Ptr → ℕ) → Ptr → Store → Store → Type 0
Kept rank arg s s' = (q : Ptr) → q ≢ arg → (rank arg ≤ rank q) ⊎ ((s q).size ≢ 0) → s' q ≡ s q

-- The code and the elements of a type never change.
abbrev pub SameMakeup : Store → Store → Type 0
SameMakeup s s' = (q : Ptr) → ((s' q).elements ≡ (s q).elements) × ((s' q).code ≡ (s q).code)

-- Each type of a rank below `n` that has a size is ready.
abbrev pub BelowReady : (Ptr → ℕ) → ℕ → Store → Type 0
BelowReady rank n s = (q : Ptr) → rank q < n → (s q).size ≢ 0 → IsReady (s q)

-- The alignment of a structure that is being laid out.
abbrev pub Building : Ptr → Store → Type 0
Building arg s = ((s arg).alignment ≡ 0) ⊎ IsAlignment (s arg).alignment

module _ (rank : Ptr → ℕ) (arg : Ptr) (s : Store) where
  pub record Initialised (r : Outcome) : Type 0 where
    pub kept : Kept rank arg s r.store
    pub same : SameMakeup s r.store
    pub ready :
        r.status ≡ FfiStatus.ok
        → BelowReady rank (rank arg) s
        → BelowReady rank (rank arg) r.store × IsReady (r.store arg)

  pub record Looped (wanted : Bool) (ps : List Ptr) (r : Outcome) : Type 0 where
    pub kept : Kept rank arg s r.store
    pub same : SameMakeup s r.store
    pub ready :
        r.status ≡ FfiStatus.ok
        → BelowReady rank (rank arg) s
        → Building arg s
        → BelowReady rank (rank arg) r.store
          × Building arg r.store
          × All (λ p. IsReady (r.store p)) ps
    pub packed :
        r.status ≡ FfiStatus.ok
        → BelowReady rank (rank arg) s
        → wanted ≡ true
        → (s arg).size + footprint r.store ps < 2 ^ 32
        → Packed r.store (s arg).size ps r.offsets (r.store arg).size
          × ((r.store arg).alignment ≡ strictest r.store (s arg).alignment ps)

pub Ranked-same : {rank : Ptr → ℕ} (s s' : Store) → SameMakeup s s' → Ranked rank s → Ranked rank s'
Ranked-same s s' same ranked p ps e = ranked p ps (sym (same p).0 ∙ e)
