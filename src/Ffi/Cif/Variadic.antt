-- ===== src/Ffi/Cif/Variadic.antt =====
-- ffi_prep_cif_var on types that need no initialisation.
use particle_python_wheels.Prelude.{
  ℕ, zero, suc, ◌+◌, ◌-◌, ◌^◌, ◌≤◌, ◌<◌, ◌≡◌, ◌≢◌, ◌⊎◌, refl, sym, ap, ◌∙◌, Bool, true, false, ◌||◌,
  ◌&&◌, not, ◌==◌, ltb, if◌then◌else◌, arith, Bool-cases, inl, inr,
}
use mathlib.Core.Logic.{◌↔◌}
use particle_python_wheels.Ffi.Store.{FfiStatus, Ptr, Store, Run, ◌>>=◌}
use particle_python_wheels.Ffi.Aggregate.{wasm32}
use particle_python_wheels.Ffi.Cif.Area.{area_room, AllArgs, IsPlain}
use particle_python_wheels.Ffi.Cif.Prepare.{started, core-ready, counted, fixed_cif}
use particle_python_wheels.Ffi.Cif.{
  Cif, Counted, Prepared, prepared, is_complex, is_struct, max_args, finish_cif, any_bad,
  bad_argtype, check_variadic, ffi_prep_cif_core, ffi_prep_cif_var,
}

-- What C's default argument promotions leave alone: no `float`, and no scalar narrower than `int`.
abbrev pub IsPromoted : Ptr → ℕ → Store → Ptr → Type 0
IsPromoted float_type int_size s p =
    (p ≢ float_type)
    × ((is_struct (s p).code ≡ true) ⊎ (is_complex (s p).code ≡ true) ⊎ (int_size ≤ (s p).size))

-- The code's test, over the parts that it reads.
abbrev refuses : Ptr → Ptr → Bool → Bool → ℕ → ℕ → Bool
refuses p float_type struct complex size int_size =
    p == float_type || ((not struct && not complex) && ltb size int_size)

refuses_iff :
    (p float_type : Ptr) (struct complex : Bool) (size int_size : ℕ)
    → (refuses p float_type struct complex size int_size ≡ false)
      ↔ ((p ≢ float_type) × ((struct ≡ true) ⊎ (complex ≡ true) ⊎ (int_size ≤ size)))
refuses_iff p float_type true complex size int_size =
    (λ e. (ground arith, inl refl), λ h. ground arith)
refuses_iff p float_type false true size int_size =
    (λ e. (ground arith, inr (inl refl)), λ h. ground arith)
refuses_iff p float_type false false size int_size =
    (λ e. (ground arith, inr (inr (ground arith))), λ h. ground arith)

bad_argtype-IsPromoted :
    (float_type : Ptr) (int_size : ℕ) (p : Ptr) (s : Store)
    → (bad_argtype float_type int_size p s ≡ false) ↔ IsPromoted float_type int_size s p
unfolding bad_argtype
bad_argtype-IsPromoted float_type int_size p s =
    refuses_iff p float_type (is_struct (s p).code) (is_complex (s p).code) (s p).size int_size

or_false : (a b : Bool) → (a || b) ≡ false → (a ≡ false) × (b ≡ false)
or_false true b e = cc
or_false false b e = (refl, e)

any_bad-IsPromoted :
    (float_type : Ptr) (int_size : ℕ) (atypes : ℕ → Ptr) (s : Store) (i at : ℕ)
    → (any_bad float_type int_size atypes i at s ≡ false)
      ↔ AllArgs (IsPromoted float_type int_size s) atypes i at
unfolding any_bad
any_bad-IsPromoted float_type int_size atypes s zero at = (λ e. tt, λ h. refl)
any_bad-IsPromoted float_type int_size atypes s (suc i) at =
    let (to, from) = any_bad-IsPromoted float_type int_size atypes s i (at + 1) in
    let (good, promoted) = bad_argtype-IsPromoted float_type int_size (atypes at) s in
    (λ e. let (a, b) = or_false _ _ e in (good a, to b), λ h. rw (promoted h.0) (from h.1))

module _ (float_type sint_type : Ptr) (fuel : ℕ) (cif : Cif) (nfixed ntotal : ℕ) (rtype : Ptr)
    (atypes : ℕ → Ptr) (s : Store) (plain : IsPlain s rtype)
    (args : AllArgs (IsPlain s) atypes ntotal 0) (room : 4 + area_room s atypes ntotal 0 ≤ 2 ^ 32)
    (few : nfixed < max_args) where
  abbrev pub variadic_cif : Cif
  variadic_cif = record (fixed_cif ntotal rtype atypes s) { flags = 1; nfixedargs = nfixed }

  core_variadic :
      ffi_prep_cif_core fuel cif wasm32 true nfixed ntotal rtype atypes s
      ≡ prepared FfiStatus.ok variadic_cif s
  unfolding finish_cif
  core_variadic =
      core-ready fuel cif ntotal rtype atypes s true nfixed plain
      ∙ (ap
            (λ (m : Run Counted).
              m >>= finish_cif (started cif wasm32 ntotal rtype atypes) true nfixed)
            (counted fuel cif ntotal rtype atypes s args room)
          ∙ last)
    where
      last :
          finish_cif
            (started cif wasm32 ntotal rtype atypes)
            true
            nfixed
            (record { status = FfiStatus.ok; bytes = variadic_cif.bytes; store = s })
          ≡ prepared FfiStatus.ok variadic_cif s
      last = ground arith

  run_variadic :
      ffi_prep_cif_var float_type sint_type fuel cif wasm32 nfixed ntotal rtype atypes s
      ≡ prepared
          (if any_bad float_type (s sint_type).size atypes (ntotal - nfixed) nfixed s
            then FfiStatus.bad_argtype
            else FfiStatus.ok)
          variadic_cif
          s
  unfolding ffi_prep_cif_var
  run_variadic =
      ap
        (λ (m : Run Prepared).
          m >>= check_variadic float_type (s sint_type).size atypes nfixed ntotal)
        core_variadic
      ∙ ground arith

  status_ok :
      (b : Bool)
      → prepared (if b then FfiStatus.bad_argtype else FfiStatus.ok) variadic_cif s
        ≡ prepared FfiStatus.ok variadic_cif s
      → b ≡ false
  status_ok true e = cc
  status_ok false e = refl

  -- For types that are ready and not complex, fewer than 1024 fixed arguments and room for the argument
  -- area, ffi_prep_cif_var reports FFI_OK, with the flag for variadic calls and the count of fixed
  -- arguments, exactly when every variadic argument is promoted: not at the address of ffi_type_float,
  -- and a structure, a complex or no smaller than an int.
  pub ffi_prep_cif_var-ok :
      (ffi_prep_cif_var float_type sint_type fuel cif wasm32 nfixed ntotal rtype atypes s
        ≡ prepared FfiStatus.ok variadic_cif s)
      ↔ AllArgs (IsPromoted float_type (s sint_type).size s) atypes (ntotal - nfixed) nfixed
  ffi_prep_cif_var-ok =
      let (to, from) =
        any_bad-IsPromoted float_type (s sint_type).size atypes s (ntotal - nfixed) nfixed in
      (λ e. to (status_ok _ (sym run_variadic ∙ e)), λ h. run_variadic ∙ rw (from h))

  -- For types that are ready and not complex, fewer than 1024 fixed arguments and room for the argument
  -- area, if not every variadic argument is promoted, ffi_prep_cif_var reports FFI_BAD_ARGTYPE, and
  -- the call interface is filled in all the same.
  pub ffi_prep_cif_var-bad_argtype :
      ¬ AllArgs (IsPromoted float_type (s sint_type).size s) atypes (ntotal - nfixed) nfixed
      → ffi_prep_cif_var float_type sint_type fuel cif wasm32 nfixed ntotal rtype atypes s
        ≡ prepared FfiStatus.bad_argtype variadic_cif s
  ffi_prep_cif_var-bad_argtype other =
      let (to, from) =
        any_bad-IsPromoted float_type (s sint_type).size atypes s (ntotal - nfixed) nfixed in
      run_variadic
      ∙ elim (Bool-cases
          (any_bad float_type (s sint_type).size atypes (ntotal - nfixed) nfixed s)) [
            | inl bad ↦ rw bad
            | inr good ↦ absurd (other (to good))
          ]
