-- ===== src/Ffi/Aggregate/Total.antt =====
-- initialize_aggregate on types that contain one another without a cycle: it returns, and lays out.
use particle_python_wheels.Prelude.{
  ℕ, zero, suc, ◌<◌, ◌≡◌, ◌≢◌, inl, inr, refl, ◌∙◌, Bool, false, Option, none, some, List, arith,
  Bool-cases, ◌==◌,
}
use particle_python_wheels.Ffi.Store.{FfiStatus, Ptr, null, Store, ◌>>=◌}
use particle_python_wheels.Ffi.Returns
use particle_python_wheels.Ffi.Returns.{Returns, returns}
use particle_python_wheels.Ffi.Align.{ffi_align}
use particle_python_wheels.Ffi.Aggregate.Layout.{All}
use particle_python_wheels.Ffi.Aggregate.Effect.{Ranked, Ranked-same, Initialised, Looped}
use particle_python_wheels.Ffi.Aggregate.Loop.{elements_loop-Looped}
use particle_python_wheels.Ffi.Aggregate.Correct.{
  Laid, loop-Kept, loop_same, cleared_same, padded_ne, padded_self, padded_same, final_ready,
  final_layout,
}
use particle_python_wheels.Ffi.Aggregate.{
  Outcome, elements_loop, clear_size, pad_size, finish, initialize_aggregate,
}

module _ (rank : Ptr → ℕ) (arg : Ptr) (s : Store) (wanted : Bool) where
  -- A call that refuses its argument leaves everything alone.
  refused :
      (st : FfiStatus) (r : Outcome)
      → r.status ≡ st
      → st ≢ FfiStatus.ok
      → r.store ≡ s
      → Laid rank arg s wanted r
  refused st r e bad same = record {
    initialised = record {
      kept = λ q ne h. rw same refl;
      same = λ q. rw same (refl, refl);
      ready = λ fine. absurd (bad (cc));
    };
    layout = λ fine. absurd (bad (cc));
  }

  module _ (ps : List Ptr) (r : Outcome) (e : (s arg).elements ≡ some ps)
      (lower : All (λ p. rank p < rank arg) ps)
      (l : Looped rank arg (clear_size arg s) wanted ps r) where
    failed : (st : FfiStatus) → r.status ≡ st → st ≢ FfiStatus.ok → Laid rank arg s wanted r
    failed st bad ne = record {
      initialised = record {
        kept = loop-Kept rank arg s wanted ps r e l;
        same = loop_same rank arg s wanted ps r e l;
        ready = λ fine. absurd (ne (cc));
      };
      layout = λ fine. absurd (ne (cc));
    }

    nonzero :
        (pad_size arg r.store arg).size ≢ 0
        → ffi_align (r.store arg).size (r.store arg).alignment ≢ 0
    nonzero h z = h (rw (padded_self rank arg s wanted ps r e l) z)

    full :
        (st : FfiStatus)
        → r.status ≡ FfiStatus.ok
        → (st ≡ FfiStatus.ok → (pad_size arg r.store arg).size ≢ 0)
        → Laid rank arg s wanted
            (record { status = st; store = pad_size arg r.store; offsets = r.offsets })
    full st done checked = record {
      initialised = record {
        kept = λ q ne h.
            padded_ne rank arg s wanted ps r e l q ne ∙ loop-Kept rank arg s wanted ps r e l q ne h;
        same = λ q.
            let (a, b) = padded_same rank arg s wanted ps r e l q in
            let (a', b') = loop_same rank arg s wanted ps r e l q in (a ∙ a', b ∙ b');
        ready = λ fine below.
            final_ready rank arg s wanted ps r e l done below (nonzero (checked fine));
      };
      layout = λ fine below w qs e' room.
          let same : ps ≡ qs = cc in
          rw (← same) (
            final_layout rank arg s wanted ps r e l done below (nonzero (checked fine)) lower w
              (rw (← same) at room));
    }

    finish-Laid : (st : FfiStatus) → r.status ≡ st → Returns (Laid rank arg s wanted) (finish arg r)
    unfolding finish
    finish-Laid FfiStatus.ok done = rw (done, finish) (returns (full _ done (ground arith)))
    finish-Laid FfiStatus.bad_typedef bad = rw (bad, finish) (returns (failed _ bad (cc)))
    finish-Laid FfiStatus.bad_abi bad = rw (bad, finish) (returns (failed _ bad (cc)))
    finish-Laid FfiStatus.bad_argtype bad = rw (bad, finish) (returns (failed _ bad (cc)))

  with_elements :
      (fuel : ℕ) (ps : List Ptr)
      → (s arg).elements ≡ some ps
      → Ranked rank s
      → ((p : Ptr) (s : Store)
          → rank p < rank arg
          → Ranked rank s
          → Returns (Initialised rank p s) (initialize_aggregate fuel false p s))
      → Returns (Laid rank arg s wanted) (
          elements_loop (initialize_aggregate fuel false) wanted arg ps (clear_size arg s)
          >>= finish arg)
  with_elements fuel ps e ranked ih =
      Returns.bind (finish arg)
        (elements_loop-Looped rank _ arg wanted ps (clear_size arg s) (ranked arg ps e)
          (Ranked-same s (clear_size arg s) (cleared_same rank arg s) ranked) ih)
        (λ r l. finish-Laid ps r e (ranked arg ps e) l r.status refl)

  one_level :
      (fuel : ℕ) (o : Option (List Ptr))
      → (s arg).elements ≡ o
      → Ranked rank s
      → ((p : Ptr) (s : Store)
          → rank p < rank arg
          → Ranked rank s
          → Returns (Initialised rank p s) (initialize_aggregate fuel false p s))
      → Returns (Laid rank arg s wanted) (initialize_aggregate (suc fuel) wanted arg s)
  unfolding initialize_aggregate
  one_level fuel none e ranked ih = elim (Bool-cases (arg == null)) [
    | inl z ↦ rw z (returns (refused _ _ refl (cc) refl))
    | inr z ↦ rw (z, e) (returns (refused _ _ refl (cc) refl))
  ]
  one_level fuel (some ps) e ranked ih = elim (Bool-cases (arg == null)) [
    | inl z ↦ rw z (returns (refused _ _ refl (cc) refl))
    | inr z ↦ rw (z, e) (with_elements fuel ps e ranked ih)
  ]

pub initialize_aggregate-Laid :
    (rank : Ptr → ℕ) (fuel : ℕ) (wanted : Bool) (arg : Ptr) (s : Store)
    → Ranked rank s
    → rank arg < fuel
    → Returns (Laid rank arg s wanted) (initialize_aggregate fuel wanted arg s)
initialize_aggregate-Laid rank zero wanted arg s ranked h = absurd (omega arith)
initialize_aggregate-Laid rank (suc fuel) wanted arg s ranked h =
    one_level rank arg s wanted fuel (s arg).elements refl ranked λ p u lower still.
      Returns.mono (initialize_aggregate-Laid rank fuel false p u still (omega arith))
        (λ r l. l.initialised)
