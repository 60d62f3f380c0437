-- ===== src/Ffi/Cif/Prepare.antt =====
-- ffi_prep_cif on types that need no initialisation.
use particle_python_wheels.Prelude.{
  ℕ, zero, suc, ◌+◌, ◌^◌, ◌≤◌, ◌≡◌, refl, ap, ◌∙◌, Bool, true, false, ◌||◌, [], ltb, if◌then◌else◌,
  arith, Bool-cases, inl, inr,
}
use particle_python_wheels.Ffi.Align.{ffi_align}
use particle_python_wheels.Ffi.Store.{FfiStatus, Ptr, Store, Run, returned, aborted, ◌>>=◌}
use particle_python_wheels.Ffi.Aggregate.Layout.{IsReady}
use particle_python_wheels.Ffi.Aggregate.{Outcome, wasm32}
use particle_python_wheels.Ffi.Cif.Area.{
  area, area_room, AllArgs, IsPlain, ensured, round, args_loop-area,
}
use particle_python_wheels.Ffi.Cif.{
  Cif, Counted, Prepared, prepared, is_complex, is_struct, max_args, count_args, finish_cif,
  any_complex, args_loop, stack_arg_size, sizeof_pointer, ffi_prep_cif_core, ffi_prep_cif,
  ffi_prep_cif_machdep,
}

-- The call interface of a function of fixed arguments.
abbrev pub fixed_cif : ℕ → Ptr → (ℕ → Ptr) → Store → Cif
fixed_cif nargs rtype atypes s = record {
  abi = wasm32;
  nargs = nargs;
  arg_types = atypes;
  rtype = rtype;
  bytes = area s atypes nargs 0 (if is_struct (s rtype).code then 4 else 0);
  flags = 0;
  nfixedargs = nargs;
}

abbrev pub started : Cif → ℕ → ℕ → Ptr → (ℕ → Ptr) → Cif
started cif abi nargs rtype atypes = record cif {
  abi = abi;
  arg_types = atypes;
  nargs = nargs;
  rtype = rtype;
  flags = 0;
}

module _ (fuel : ℕ) (cif : Cif) (nargs : ℕ) (rtype : Ptr) (atypes : ℕ → Ptr) (s : Store) where
  -- The core, on a return type that is ready and not complex.
  pub core-ready :
      (isvariadic : Bool) (nfixed : ℕ)
      → IsPlain s rtype
      → ffi_prep_cif_core fuel cif wasm32 isvariadic nfixed nargs rtype atypes s ≡ (
          args_loop fuel atypes nargs 0
            (if is_struct (s rtype).code then stack_arg_size sizeof_pointer else 0)
            s
          >>= finish_cif (started cif wasm32 nargs rtype atypes) isvariadic nfixed)
  unfolding ffi_prep_cif_core
  core-ready isvariadic nfixed plain =
      ap
        (λ (m : Run Outcome).
          m >>= count_args fuel (started cif wasm32 nargs rtype atypes) isvariadic nfixed)
        (ensured fuel atypes s rtype plain.ready)
      ∙ ap
          (λ (b : Bool). elim b as (λ _. Run Prepared) [
            | true ↦ aborted
            | false ↦
                args_loop fuel atypes nargs 0
                  (if is_struct (s rtype).code then stack_arg_size sizeof_pointer else 0) s
                >>= finish_cif (started cif wasm32 nargs rtype atypes) isvariadic nfixed
          ])
          plain.simple

  not_complex : (i at : ℕ) → AllArgs (IsPlain s) atypes i at → any_complex atypes i at s ≡ false
  unfolding any_complex
  not_complex zero at h = refl
  not_complex (suc i) at (plain, h) = rw plain.simple (not_complex i (at + 1) h)

  pub first_bytes :
      (b : Bool) → (if b then stack_arg_size sizeof_pointer else 0) ≡ (if b then 4 else 0)
  unfolding stack_arg_size ffi_align
  first_bytes true = refl
  first_bytes false = refl

  pub start : ℕ
  start = if is_struct (s rtype).code then 4 else 0

  start_le : start ≤ 4
  unfolding start
  start_le = ground arith

  pub counted :
      AllArgs (IsPlain s) atypes nargs 0
      → 4 + area_room s atypes nargs 0 ≤ 2 ^ 32
      → args_loop fuel atypes nargs 0
          (if is_struct (s rtype).code then stack_arg_size sizeof_pointer else 0)
          s
        ≡ returned (record {
          status = FfiStatus.ok;
          bytes = area s atypes nargs 0 (if is_struct (s rtype).code then 4 else 0);
          store = s;
        })
  unfolding start
  counted h room =
      ap (λ (b : ℕ). args_loop fuel atypes nargs 0 b s) (first_bytes (is_struct (s rtype).code))
      ∙ args_loop-area fuel atypes s nargs 0 start h (omega (arith, start_le))

  machdep :
      IsPlain s rtype
      → AllArgs (IsPlain s) atypes nargs 0
      → ffi_prep_cif_machdep
          (record (fixed_cif nargs rtype atypes s) { nfixedargs = cif.nfixedargs })
          s
        ≡ prepared
            (if ltb max_args nargs then FfiStatus.bad_typedef else FfiStatus.ok)
            (fixed_cif nargs rtype atypes s)
            s
  unfolding ffi_prep_cif_machdep
  machdep plain h = rw (plain.simple, not_complex nargs 0 h) (ground arith)

  -- For a return type and `nargs` argument types that are ready and not complex, with room for the
  -- argument area below 2 ^ 32, ffi_prep_cif fills in the whole call interface: `bytes` is the area of
  -- the arguments, each at a multiple of its alignment and in whole slots of four bytes, behind a slot
  -- for the result if that is a structure; flags are 0 and all arguments are fixed. It reports
  -- FFI_BAD_TYPEDEF if there are more than 1024 arguments, else FFI_OK, and changes no type.
  pub ffi_prep_cif-ready :
      IsPlain s rtype
      → AllArgs (IsPlain s) atypes nargs 0
      → 4 + area_room s atypes nargs 0 ≤ 2 ^ 32
      → ffi_prep_cif fuel cif wasm32 nargs rtype atypes s
        ≡ prepared
            (if ltb max_args nargs then FfiStatus.bad_typedef else FfiStatus.ok)
            (fixed_cif nargs rtype atypes s)
            s
  unfolding ffi_prep_cif
  ffi_prep_cif-ready plain h room =
      core-ready false nargs plain
      ∙ (ap
            (λ (m : Run Counted).
              m >>= finish_cif (started cif wasm32 nargs rtype atypes) false nargs)
            (counted h room)
          ∙ machdep plain h)

args_loop-complex :
    (fuel : ℕ) (atypes : ℕ → Ptr) (s : Store) (i at bytes : ℕ)
    → AllArgs (λ p. IsReady (s p)) atypes i at
    → any_complex atypes i at s ≡ true
    → args_loop fuel atypes i at bytes s ≡ aborted
unfolding any_complex
args_loop-complex fuel atypes s zero at bytes h c = cc
args_loop-complex fuel atypes s (suc i) at bytes (r, h) c =
    round fuel atypes s i at bytes r ∙ elim (Bool-cases (is_complex (s (atypes at)).code)) [
      | inl e ↦ rw e
      | inr e ↦ rw e (args_loop-complex fuel atypes s i (at + 1) _ h (rw e at c))
    ]

-- If the return type or an argument type is complex, and all of them are ready, ffi_prep_cif does
-- not return: it aborts, before the checks of ffi_prep_cif_machdep that would refuse the type.
pub ffi_prep_cif-complex :
    (fuel : ℕ) (cif : Cif) (nargs : ℕ) (rtype : Ptr) (atypes : ℕ → Ptr) (s : Store)
    → IsReady (s rtype)
    → AllArgs (λ p. IsReady (s p)) atypes nargs 0
    → (is_complex (s rtype).code || any_complex atypes nargs 0 s) ≡ true
    → ffi_prep_cif fuel cif wasm32 nargs rtype atypes s ≡ aborted
unfolding ffi_prep_cif
ffi_prep_cif-complex fuel cif nargs rtype atypes s r h c =
    ap
      (λ (m : Run Outcome).
        m >>= count_args fuel (started cif wasm32 nargs rtype atypes) false nargs)
      (ensured fuel atypes s rtype r)
    ∙ branch (is_complex (s rtype).code) refl
  where
    branch :
        (b : Bool)
        → is_complex (s rtype).code ≡ b
        → count_args fuel
            (started cif wasm32 nargs rtype atypes)
            false
            nargs
            (record { status = FfiStatus.ok; store = s; offsets = [] })
          ≡ aborted
    branch true e = rw (e, count_args)
    branch false e =
        rw (e, count_args)
          (ap
            (λ (m : Run Counted).
              m >>= finish_cif (started cif wasm32 nargs rtype atypes) false nargs)
            (args_loop-complex fuel atypes s nargs 0
              (if is_struct (s rtype).code then stack_arg_size sizeof_pointer else 0) h
              (rw e at c)))
