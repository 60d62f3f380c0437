-- ===== src/Ffi/Aggregate/Correct.antt =====
-- initialize_aggregate and ffi_get_struct_offsets, for types that contain one another without a cycle.
use native.Mathlib.Nat.{pow-le-pow_right}
use particle_python_wheels.Prelude.{
  ℕ, ◌+◌, ◌^◌, ◌≤◌, ◌<◌, ◌≡◌, ◌≢◌, ◌⊎◌, inl, inr, ap, ◌∙◌, Bool, true, some, List, [], ◌∷◌, arith,
}
use particle_python_wheels.Ffi.Align.{
  ffi_align, ffi_align-eq-round_up, le-round_up, round_up-lt, ffi_align-zero, ffi_align-mod,
}
use particle_python_wheels.Ffi.Store.{FfiStatus, FfiType, Ptr, Store}
use particle_python_wheels.Ffi.Aggregate.Layout.{
  All, Agree, footprint-Agree, strictest-Agree, Packed-Agree, Packed-footprint, IsAlignment,
  IsReady, Packed, footprint, IsLayout,
}
use particle_python_wheels.Ffi.Aggregate.Effect.{
  Kept, SameMakeup, BelowReady, Initialised, Building, Looped,
}
use particle_python_wheels.Ffi.Aggregate.{Outcome, clear_size, pad_size}

-- What a whole call does: the loop's effect, and the layout of the structure.
pub record Laid (rank : Ptr → ℕ) (arg : Ptr) (s : Store) (wanted : Bool) (r : Outcome)
    : Type 0 where
  pub initialised : Initialised rank arg s r
  pub layout :
      r.status ≡ FfiStatus.ok
      → BelowReady rank (rank arg) s
      → wanted ≡ true
      → (ps : List Ptr) → (s arg).elements ≡ some ps
      → footprint r.store ps + 2 ^ 15 < 2 ^ 32
      → IsLayout r.store ps r.offsets (r.store arg)

-- Tail padding leaves a multiple of the alignment; an alignment of 0 leaves nothing.
padded_IsReady :
    (t : FfiType)
    → (t.alignment ≡ 0) ⊎ IsAlignment t.alignment
    → ffi_align t.size t.alignment ≢ 0
    → IsReady (record t { size = ffi_align t.size t.alignment })
padded_IsReady t (inl z) filled = absurd (filled (rw z (ffi_align-zero t.size)))
padded_IsReady t (inr (k, h, e)) filled = record {
  aligned = (k, h, e);
  filled = filled;
  padded = rw e (ffi_align-mod t.size k h);
}

-- Tail padding is less than the alignment.
pub tail_padding :
    (t : FfiType)
    → IsAlignment t.alignment
    → t.size + 2 ^ 15 ≤ 2 ^ 32
    → (t.size ≤ ffi_align t.size t.alignment)
      × (ffi_align t.size t.alignment < t.size + t.alignment)
tail_padding t (k, h, e) room =
    let small : 2 ^ k ≤ 2 ^ 15 = pow-le-pow_right {n = 2} (omega arith) h in
    rw (e, ffi_align-eq-round_up t.size k h (omega (arith, small)))
      (le-round_up t.size k, round_up-lt t.size k)

module _ (rank : Ptr → ℕ) (arg : Ptr) (s : Store) where
  pub lower-ne : (q : Ptr) → rank q < rank arg → q ≢ arg
  lower-ne q h same = absurd (omega (arith, ap rank same))

  pub cleared : (q : Ptr) → q ≢ arg → clear_size arg s q ≡ s q
  unfolding clear_size
  cleared q ne = ground arith

  pub cleared_zero : ((clear_size arg s arg).size ≡ 0) × ((clear_size arg s arg).alignment ≡ 0)
  unfolding clear_size
  cleared_zero = ground arith

  pub cleared_below : BelowReady rank (rank arg) s → BelowReady rank (rank arg) (clear_size arg s)
  cleared_below b q h = rw (cleared q (lower-ne q h)) (b q h)

  pub cleared_same : SameMakeup s (clear_size arg s)
  unfolding clear_size
  cleared_same q = ground arith

  module _ (wanted : Bool) (ps : List Ptr) (r : Outcome) (e : (s arg).elements ≡ some ps)
      (l : Looped rank arg (clear_size arg s) wanted ps r) where
    pub loop-Kept : Kept rank arg s r.store
    loop-Kept q ne h = l.kept q ne (rw (cleared q ne) h) ∙ cleared q ne

    pub loop_same : SameMakeup s r.store
    loop_same q = let (a, b) = l.same q in let (a', b') = cleared_same q in (a ∙ a', b ∙ b')

    abbrev pub padded : Store
    padded = pad_size arg r.store

    pub padded_ne : (q : Ptr) → q ≢ arg → padded q ≡ r.store q
    unfolding pad_size
    padded_ne q ne = ground arith

    pub padded_same :
        (q : Ptr)
        → ((padded q).elements ≡ (r.store q).elements) × ((padded q).code ≡ (r.store q).code)
    unfolding pad_size
    padded_same q = ground arith

    pub padded_self :
        padded arg
        ≡ record (r.store arg) { size = ffi_align (r.store arg).size (r.store arg).alignment }
    unfolding pad_size
    padded_self = ground arith

    agree : (qs : List Ptr) → All (λ p. rank p < rank arg) qs → Agree r.store padded qs
    agree [] h = tt
    agree (q ∷ qs) (h, hs) = (padded_ne q (lower-ne q h), agree qs hs)

    module _ (done : r.status ≡ FfiStatus.ok) (below : BelowReady rank (rank arg) s) where
      looped_ready :
          BelowReady rank (rank arg) r.store
          × Building arg r.store
          × All (λ p. IsReady (r.store p)) ps
      looped_ready = l.ready done (cleared_below below) (inl cleared_zero.1)

      pub final_ready :
          ffi_align (r.store arg).size (r.store arg).alignment ≢ 0
          → BelowReady rank (rank arg) padded × IsReady (padded arg)
      final_ready filled =
          let (low, built, each) = looped_ready in
          (
            λ q h. rw (padded_ne q (lower-ne q h)) (low q h),
            rw padded_self (padded_IsReady (r.store arg) built filled),
          )

      pub final_layout :
          ffi_align (r.store arg).size (r.store arg).alignment ≢ 0
          → All (λ p. rank p < rank arg) ps
          → wanted ≡ true
          → footprint padded ps + 2 ^ 15 < 2 ^ 32
          → IsLayout padded ps r.offsets (padded arg)
      final_layout filled lower w room =
          let same = agree ps lower in
          let room' : footprint r.store ps + 2 ^ 15 < 2 ^ 32 =
            rw (footprint-Agree r.store padded ps same) at room in
          let (packed, strict) =
            l.packed done (cleared_below below) w (omega (arith, cleared_zero.0, room')) in
          let packed' : Packed r.store 0 ps r.offsets (r.store arg).size =
            rw cleared_zero.0 at packed in
          let ready = final_ready filled in
          let (covered, tight) = tail_padding (r.store arg) (rw padded_self at ready.1.aligned) (
            omega
              (arith, room', Packed-footprint r.store 0 ps r.offsets (r.store arg).size packed')) in
          record {
            end = (r.store arg).size;
            packed = Packed-Agree r.store padded 0 ps r.offsets (r.store arg).size same packed';
            strict =
                rw (padded_self, strictest-Agree r.store padded 0 ps same)
                  (rw cleared_zero.1 at strict);
            covered = rw padded_self covered;
            tight = rw padded_self tight;
            padded = ready.1.padded;
          }
