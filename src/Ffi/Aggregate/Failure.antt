-- ===== src/Ffi/Aggregate/Failure.antt =====
-- initialize_aggregate on types that contain themselves, and on types that it cannot finish.
use particle_python_wheels.Prelude.{
  ℕ, zero, suc, ◌^◌, ◌<◌, ◌≡◌, ◌≢◌, refl, Bool, false, none, some, List, ap, [], ◌∷◌, arith, ◌==◌,
  Bool-cases, inl, inr, ◌∙◌, if◌then◌else◌, eqb_false, eqb_true,
}
use particle_python_wheels.Ffi.Store.{
  FfiStatus, Ptr, null, Store, Run, returned, out_of_fuel, ◌>>=◌,
}
use particle_python_wheels.Ffi.Align.{ffi_align, zero-ffi_align}
use particle_python_wheels.Ffi.Aggregate.Place.{place_element-ne}
use particle_python_wheels.Ffi.Aggregate.Layout.{IsReady}
use particle_python_wheels.Ffi.Aggregate.{
  Outcome, outcome, element_offset, elements_loop, ensure_size, place_element, note_offset,
  clear_size, finish, initialize_aggregate,
}
use particle_python_wheels.Ffi.Aggregate.Rounds.{unfolded, skipped, round_ok, round_bad}

-- A structure, not at NULL, whose first element is the structure itself exhausts every fuel: the
-- recursion of initialize_aggregate does not end.
pub initialize_aggregate_self :
    (fuel : ℕ) (wanted : Bool) (arg : Ptr) (rest : List Ptr) (s : Store)
    → arg ≢ null
    → (s arg).elements ≡ some (arg ∷ rest)
    → initialize_aggregate fuel wanted arg s ≡ out_of_fuel
unfolding initialize_aggregate
initialize_aggregate_self zero wanted arg rest s ne e = refl
initialize_aggregate_self (suc fuel) wanted arg rest s ne e =
    rw
      (
        eqb_false arg null ne,
        e,
        elements_loop,
        ensure_size,
        eqb_true (clear_size arg s arg).size 0 (ground arith),
        initialize_aggregate_self fuel false arg rest (clear_size arg s) ne (ground arith),
      )
      refl

module _ (arg p q : Ptr) (rest : List Ptr) (s : Store) (ne : arg ≢ null)
    (e : (s arg).elements ≡ some (p ∷ q ∷ rest)) (first : p ≢ arg) (whole : IsReady (s p))
    (small : (s p).size < 2 ^ 32) (second : q ≢ arg) (empty : (s q).size ≡ 0)
    (broken : (s q).elements ≡ none) where
  half : Store
  half = place_element arg p (clear_size arg s)

  half_other : (r : Ptr) → r ≢ arg → half r ≡ s r
  unfolding half clear_size
  half_other r h = place_element-ne (clear_size arg s) arg p r h ∙ ground arith

  zero_offset : ffi_align 0 (s p).alignment ≡ 0
  zero_offset = let (k, h, a) = whole.aligned in rw a (zero-ffi_align k h)

  half_size : (half arg).size ≡ (s p).size
  unfolding half place_element clear_size
  half_size = ground (arith, zero_offset)

  bad_second :
      (fuel : ℕ)
      → initialize_aggregate (suc fuel) false q half ≡ outcome FfiStatus.bad_typedef half []
  unfolding initialize_aggregate
  bad_second fuel = elim (Bool-cases (q == null)) [
    | inl z ↦ rw z
    | inr z ↦ rw (z, half_other q second, broken)
  ]

  half_offsets : Bool → List ℕ
  half_offsets wanted = if wanted then element_offset arg p (clear_size arg s) ∷ [] else []

  cleared_whole : (clear_size arg s p).size ≢ 0
  unfolding clear_size
  cleared_whole = ground (arith, whole.filled)

  half_empty : (half q).size ≡ 0
  half_empty = rw (half_other q second) empty

  loop_half :
      (wanted : Bool) (init : Ptr → Store → Run Outcome)
      → init q half ≡ outcome FfiStatus.bad_typedef half []
      → elements_loop init wanted arg (p ∷ q ∷ rest) (clear_size arg s)
        ≡ outcome FfiStatus.bad_typedef half (half_offsets wanted)
  unfolding half half_offsets note_offset
  loop_half wanted init bad =
      round_ok init wanted arg p (q ∷ rest) (clear_size arg s) cleared_whole
      ∙ ap (λ (m : Run Outcome). m >>= note_offset wanted (element_offset arg p (clear_size arg s)))
          (round_bad init wanted arg q rest half half_empty bad)

  -- Let a structure `arg`, not at NULL, have a first element `p` that is ready and smaller than 2 ^ 32,
  -- and a second element `q` of size 0 without an elements array, neither of them `arg` itself. With
  -- enough fuel for one level below it, it is refused with FFI_BAD_TYPEDEF. But its size is no longer
  -- 0, so the test by which every caller decides to initialise a type then takes it for initialised,
  -- and reports FFI_OK.
  pub initialize_aggregate-half :
      (fuel : ℕ) (wanted : Bool) (init : Ptr → Store → Run Outcome)
      → (r : Outcome) × (initialize_aggregate (suc (suc fuel)) wanted arg s ≡ returned r)
        × (r.status ≡ FfiStatus.bad_typedef)
        × (ensure_size init arg r.store ≡ outcome FfiStatus.ok r.store [])
  unfolding ensure_size finish
  initialize_aggregate-half fuel wanted init = (
    record { status = FfiStatus.bad_typedef; store = half; offsets = half_offsets wanted },
    unfolded (suc fuel) wanted arg (p ∷ q ∷ rest) s ne e
        ∙ rw (loop_half wanted (initialize_aggregate (suc fuel) false) (bad_second fuel)),
    refl,
    skipped init wanted arg arg [] half (rw half_size whole.filled),
  )
