-- ===== src/Ffi/Cif/Tests.antt =====
-- Runs of ffi_prep_cif and ffi_prep_cif_var of libffi-wasi/src/prep_cif.c on small types.
use particle_python_wheels.Prelude.{ℕ, ◌≡◌, ◌≢◌, refl, false, none, ◌==◌, if◌then◌else◌, arith}
use particle_python_wheels.Ffi.Store.{FfiStatus, TypeCode, Ptr, Store, aborted}
use particle_python_wheels.Ffi.Types.{CType, ffi_typedef-IsReady, ffi_type_uint8}
use particle_python_wheels.Ffi.Aggregate.{wasm32}
use mathlib.Core.Logic.{◌↔◌}
use particle_python_wheels.Ffi.Cif.{
  Cif, prepared, is_complex, any_complex, ffi_prep_cif, ffi_prep_cif_var,
}
use particle_python_wheels.Ffi.Cif.Area.{AllArgs, IsPlain}
use particle_python_wheels.Ffi.Cif.Prepare.{ffi_prep_cif-ready, ffi_prep_cif-complex}
use particle_python_wheels.Ffi.Cif.Variadic.{
  IsPromoted, ffi_prep_cif_var-ok, ffi_prep_cif_var-bad_argtype,
}
use particle_python_wheels.Ffi.Tests.{types, types-ready}

-- double f(uint8, double)
abbrev args : ℕ → Ptr
args i = if i == 0 then 1 else 3

abbrev blank : Cif
blank = record {
  abi = 0;
  nargs = 0;
  arg_types = λ i. 0;
  rtype = 0;
  bytes = 0;
  flags = 0;
  nfixedargs = 0;
}

plain : (p : Ptr) → (types p).size ≢ 0 → is_complex (types p).code ≡ false → IsPlain types p
plain p h c = record { ready = types-ready p h; simple = c }

plain_args : AllArgs (IsPlain types) args 2 0
unfolding types
plain_args = (plain 1 (omega arith) refl, (plain 3 (omega arith) refl, tt))

ffi_prep_cif-ready_example :
    ffi_prep_cif 9 blank wasm32 2 3 args types
    ≡ prepared FfiStatus.ok
        (record {
          abi = wasm32;
          nargs = 2;
          arg_types = args;
          rtype = 3;
          bytes = 16;
          flags = 0;
          nfixedargs = 2;
        })
        types
unfolding types
ffi_prep_cif-ready_example =
    ffi_prep_cif-ready 9 blank 2 3 args types (plain 3 (omega arith) refl) plain_args (omega arith)

-- 9 is a complex type.
complex_types : Store
complex_types p =
    if p == 9
    then record { size = 8; alignment = 4; code = TypeCode.complex; elements = none }
    else ffi_type_uint8

ffi_prep_cif-complex_example : ffi_prep_cif 9 blank wasm32 1 1 (λ i. 9) complex_types ≡ aborted
unfolding complex_types any_complex
ffi_prep_cif-complex_example =
    ffi_prep_cif-complex 9 blank 1 1 (λ i. 9) complex_types (ffi_typedef-IsReady CType.uint8 _)
      (
        record {
          aligned = (2, omega arith, omega arith);
          filled = omega arith;
          padded = omega arith;
        },
        tt,
      )
      refl

ffi_prep_cif_var-ok_example :
    (ffi_prep_cif_var 20 2 9 blank wasm32 1 2 3 args types
      ≡ prepared FfiStatus.ok
          (record {
            abi = wasm32;
            nargs = 2;
            arg_types = args;
            rtype = 3;
            bytes = 16;
            flags = 1;
            nfixedargs = 1;
          })
          types)
    ↔ AllArgs (IsPromoted 20 4 types) args 1 1
unfolding types
ffi_prep_cif_var-ok_example =
    ffi_prep_cif_var-ok 20 2 9 blank 1 2 3 args types (plain 3 (omega arith) refl) plain_args
      (omega arith) (omega arith)

ffi_prep_cif_var-bad_argtype_example :
    ffi_prep_cif_var 3 2 9 blank wasm32 1 2 3 args types
    ≡ prepared FfiStatus.bad_argtype
        (record {
          abi = wasm32;
          nargs = 2;
          arg_types = args;
          rtype = 3;
          bytes = 16;
          flags = 1;
          nfixedargs = 1;
        })
        types
unfolding types
ffi_prep_cif_var-bad_argtype_example =
    ffi_prep_cif_var-bad_argtype 3 2 9 blank 1 2 3 args types (plain 3 (omega arith) refl)
      plain_args (omega arith) (omega arith) (λ h. h.0.0 refl)
