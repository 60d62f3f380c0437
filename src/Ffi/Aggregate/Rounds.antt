-- ===== src/Ffi/Aggregate/Rounds.antt =====
-- The levels of the recursion of initialize_aggregate and the rounds of its loop, one at a time.
use particle_python_wheels.Prelude.{
  ℕ, suc, ◌≡◌, ◌≢◌, Bool, false, Option, none, some, List, ap, [], ◌∷◌, ◌∙◌, eqb_false, eqb_true,
}
use particle_python_wheels.Ffi.Store.{FfiStatus, Ptr, null, Store, Run, ◌>>=◌}
use particle_python_wheels.Ffi.Aggregate.{
  Outcome, outcome, element_offset, elements_loop, ensure_size, continue_loop, place_element,
  note_offset, clear_size, finish, initialize_aggregate,
}

-- One level of the recursion, with the recursive call shut.
pub unfolded :
    (fuel : ℕ) (wanted : Bool) (arg : Ptr) (ps : List Ptr) (s : Store)
    → arg ≢ null
    → (s arg).elements ≡ some ps
    → initialize_aggregate (suc fuel) wanted arg s ≡ (
        elements_loop (initialize_aggregate fuel false) wanted arg ps (clear_size arg s)
        >>= finish arg)
unfolding initialize_aggregate
unfolded fuel wanted arg ps s ne e = rw (eqb_false arg null ne) (
    ap
      (λ (o : Option (List Ptr)). elim o as (λ _. Run Outcome) [
        | none ↦ outcome FfiStatus.bad_typedef s []
        | some es ↦
            elements_loop (initialize_aggregate fuel false) wanted arg es (clear_size arg s)
            >>= finish arg
      ])
      e)

-- One round of the loop, by what became of the element's initialisation.
module _ (init : Ptr → Store → Run Outcome) (wanted : Bool) (arg r : Ptr) (rest : List Ptr)
    (u : Store) where
  pub skipped : (u r).size ≢ 0 → ensure_size init r u ≡ outcome FfiStatus.ok u []
  unfolding ensure_size
  skipped h = rw (eqb_false (u r).size 0 h, ensure_size)

  tried : (u r).size ≡ 0 → ensure_size init r u ≡ init r u
  unfolding ensure_size
  tried h = rw (eqb_true (u r).size 0 h, ensure_size)

  round :
      (m : Run Outcome)
      → ensure_size init r u ≡ m
      → elements_loop init wanted arg (r ∷ rest) u
        ≡ (m >>= continue_loop (elements_loop init wanted arg rest) wanted arg r)
  unfolding elements_loop
  round m e =
      ap
        (λ (m : Run Outcome). m >>= continue_loop (elements_loop init wanted arg rest) wanted arg r)
        e

  pub round_ok :
      (u r).size ≢ 0
      → elements_loop init wanted arg (r ∷ rest) u ≡ (
          elements_loop init wanted arg rest (place_element arg r u)
          >>= note_offset wanted (element_offset arg r u))
  unfolding continue_loop
  round_ok h = round (outcome FfiStatus.ok u []) (skipped h)

  pub round_bad :
      (u r).size ≡ 0
      → init r u ≡ outcome FfiStatus.bad_typedef u []
      → elements_loop init wanted arg (r ∷ rest) u ≡ outcome FfiStatus.bad_typedef u []
  unfolding continue_loop
  round_bad h bad = round (outcome FfiStatus.bad_typedef u []) (tried h ∙ bad)
