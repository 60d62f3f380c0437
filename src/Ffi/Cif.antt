-- ===== src/Ffi/Cif.antt =====
-- ffi_prep_cif, ffi_prep_cif_var and ffi_prep_cif_core of libffi-wasi/src/prep_cif.c, and the two
-- functions of libffi-wasi/src/ffi.c that finish their work for wasm32.
pub mod Area
pub mod Prepare
pub mod Variadic
mod Tests
use Prim.Native.Nat.{bit_and}
use particle_python_wheels.Prelude.{
  ℕ, zero, suc, ◌+◌, ◌-◌, ◌%◌, ◌^◌, ◌≡◌, Bool, true, false, ◌&&◌, ◌||◌, not, List, [], ◌∷◌, bit_or,
  ◌==◌, ltb, if◌then◌else◌,
}
use particle_python_wheels.Ffi.Align.{size_t, ffi_align}
use particle_python_wheels.Ffi.Store.{
  FfiStatus, TypeCode, Ptr, Store, Run, returned, aborted, ◌>>=◌,
}
use particle_python_wheels.Ffi.Aggregate.{
  Outcome, ensure_size, initialize_aggregate, valid_abi, wasm32,
}

-- `arg_types` is the array that the caller passes, of at least `nargs` addresses.
pub record Cif : Type 0 where
  pub abi : ℕ
  pub nargs : ℕ
  pub arg_types : ℕ → Ptr
  pub rtype : Ptr
  pub bytes : ℕ
  pub flags : ℕ
  pub nfixedargs : ℕ

pub record Prepared : Type 0 where
  pub status : FfiStatus
  pub cif : Cif
  pub store : Store

abbrev pub prepared : FfiStatus → Cif → Store → Run Prepared
prepared st c s = returned (record { status = st; cif = c; store = s })

abbrev pub is_complex : TypeCode → Bool
is_complex TypeCode.complex = true
is_complex _ = false

abbrev pub is_struct : TypeCode → Bool
is_struct TypeCode.struct = true
is_struct _ = false

abbrev pub max_args : ℕ
max_args = 1024

abbrev pub varargs_flag : ℕ
varargs_flag = 1

abbrev pub sizeof_arg : ℕ
sizeof_arg = 4

abbrev pub sizeof_pointer : ℕ
sizeof_pointer = 4

-- STACK_ARG_SIZE.
unfoldable pub stack_arg_size : ℕ → ℕ
stack_arg_size n = ffi_align n sizeof_arg

-- Padding before an argument, if `((*ptr)->alignment - 1) & bytes`, and room for it.
unfoldable pub pad_bytes : ℕ → ℕ → ℕ
pad_bytes bytes alignment =
    if bit_and (size_t (alignment + (2 ^ 32 - 1))) bytes == 0
    then bytes
    else ffi_align bytes alignment

unfoldable pub add_bytes : ℕ → Ptr → Store → ℕ
unfolding pad_bytes stack_arg_size
add_bytes bytes ptr s = size_t (pad_bytes bytes (s ptr).alignment + stack_arg_size (s ptr).size)

-- What the loop over the arguments leaves.
pub record Counted : Type 0 where
  pub status : FfiStatus
  pub bytes : ℕ
  pub store : Store

-- The rest of the loop's body behind the initialisation of `ptr`.
unfoldable pub count_arg : (ℕ → Store → Run Counted) → ℕ → Ptr → Outcome → Run Counted
unfolding add_bytes
count_arg rest bytes ptr tried = elim tried.status [
  | FfiStatus.ok ↦ elim (is_complex (tried.store ptr).code) [
    | true ↦ aborted
    | false ↦ rest (add_bytes bytes ptr tried.store) tried.store
  ]
  | _ ↦ returned (record { status = FfiStatus.bad_typedef; bytes = bytes; store = tried.store })
]

-- `i` arguments are left, from index `at`.
unfoldable pub args_loop : ℕ → (ℕ → Ptr) → ℕ → ℕ → ℕ → Store → Run Counted
unfolding ensure_size count_arg
args_loop fuel atypes zero at bytes s =
    returned (record { status = FfiStatus.ok; bytes = bytes; store = s })
args_loop fuel atypes (suc i) at bytes s =
    ensure_size (initialize_aggregate fuel false) (atypes at) s
    >>= count_arg (args_loop fuel atypes i (at + 1)) bytes (atypes at)

-- The loop of ffi_prep_cif_machdep over `i` arguments from index `at`.
unfoldable pub any_complex : (ℕ → Ptr) → ℕ → ℕ → Store → Bool
any_complex atypes zero at s = false
any_complex atypes (suc i) at s = is_complex (s (atypes at)).code || any_complex atypes i (at + 1) s

unfoldable pub ffi_prep_cif_machdep : Cif → Store → Run Prepared
unfolding any_complex
ffi_prep_cif_machdep cif s =
    if not (cif.abi == wasm32) && not (cif.abi == wasm32)
    then prepared FfiStatus.bad_abi cif s
    else let c =
        if bit_and cif.flags varargs_flag == 0
        then record cif { nfixedargs = cif.nargs }
        else cif in
      if ltb max_args c.nargs || is_complex (s c.rtype).code || any_complex c.arg_types c.nargs 0 s
      then prepared FfiStatus.bad_typedef c s
      else prepared FfiStatus.ok c s

unfoldable pub ffi_prep_cif_machdep_var : Cif → ℕ → ℕ → Store → Run Prepared
ffi_prep_cif_machdep_var cif nfixedargs ntotalargs s =
    let c = record cif { flags = bit_or cif.flags varargs_flag; nfixedargs = nfixedargs } in
    if ltb max_args (size_t (nfixedargs + 1))
    then prepared FfiStatus.bad_typedef c s
    else prepared FfiStatus.ok c s

-- The end of ffi_prep_cif_core, behind the loop.
unfoldable pub finish_cif : Cif → Bool → ℕ → Counted → Run Prepared
unfolding ffi_prep_cif_machdep ffi_prep_cif_machdep_var
finish_cif cif isvariadic nfixedargs r = elim r.status [
  | FfiStatus.ok ↦
      let c = record cif { bytes = r.bytes } in
      if isvariadic
      then ffi_prep_cif_machdep_var c nfixedargs cif.nargs r.store
      else ffi_prep_cif_machdep c r.store
  | _ ↦ prepared FfiStatus.bad_typedef cif r.store
]

-- The middle of ffi_prep_cif_core, behind the initialisation of the return type.
unfoldable pub count_args : ℕ → Cif → Bool → ℕ → Outcome → Run Prepared
unfolding args_loop finish_cif stack_arg_size
count_args fuel cif isvariadic nfixedargs tried = elim tried.status [
  | FfiStatus.ok ↦ elim (is_complex (tried.store cif.rtype).code) [
    | true ↦ aborted
    | false ↦
        args_loop fuel cif.arg_types cif.nargs 0
          (if is_struct (tried.store cif.rtype).code then stack_arg_size sizeof_pointer else 0)
          tried.store
        >>= finish_cif cif isvariadic nfixedargs
  ]
  | _ ↦ prepared FfiStatus.bad_typedef cif tried.store
]

-- FFI_ASSERT is empty without FFI_DEBUG.
unfoldable pub ffi_prep_cif_core :
    ℕ → Cif → ℕ → Bool → ℕ → ℕ → Ptr → (ℕ → Ptr) → Store → Run Prepared
unfolding valid_abi ensure_size count_args
ffi_prep_cif_core fuel cif abi isvariadic nfixedargs ntotalargs rtype atypes s =
    let c = record cif {
      abi = abi;
      arg_types = atypes;
      nargs = ntotalargs;
      rtype = rtype;
      flags = 0;
    } in
    let run =
      ensure_size (initialize_aggregate fuel false) rtype s
      >>= count_args fuel c isvariadic nfixedargs in
    if valid_abi abi then run else prepared FfiStatus.bad_abi cif s

unfoldable pub ffi_prep_cif : ℕ → Cif → ℕ → ℕ → Ptr → (ℕ → Ptr) → Store → Run Prepared
unfolding ffi_prep_cif_core
ffi_prep_cif fuel cif abi nargs rtype atypes s =
    ffi_prep_cif_core fuel cif abi false nargs nargs rtype atypes s

-- The test of ffi_prep_cif_var on a variadic argument, which C's default promotions would change.
-- `float_type` is the address of ffi_type_float, and `int_size` the size of ffi_type_sint.
unfoldable pub bad_argtype : Ptr → ℕ → Ptr → Store → Bool
bad_argtype float_type int_size arg s =
    arg == float_type
    || ((not (is_struct (s arg).code) && not (is_complex (s arg).code))
        && ltb (s arg).size int_size)

-- `i` variadic arguments are left, from index `at`.
unfoldable pub any_bad : Ptr → ℕ → (ℕ → Ptr) → ℕ → ℕ → Store → Bool
unfolding bad_argtype
any_bad float_type int_size atypes zero at s = false
any_bad float_type int_size atypes (suc i) at s =
    bad_argtype float_type int_size (atypes at) s || any_bad float_type int_size atypes i (at + 1) s

unfoldable pub check_variadic : Ptr → ℕ → (ℕ → Ptr) → ℕ → ℕ → Prepared → Run Prepared
unfolding any_bad
check_variadic float_type int_size atypes nfixedargs ntotalargs r = elim r.status [
  | FfiStatus.ok ↦
      if any_bad float_type int_size atypes (ntotalargs - nfixedargs) nfixedargs r.store
      then prepared FfiStatus.bad_argtype r.cif r.store
      else returned r
  | _ ↦ returned r
]

unfoldable pub ffi_prep_cif_var :
    Ptr → Ptr → ℕ → Cif → ℕ → ℕ → ℕ → Ptr → (ℕ → Ptr) → Store → Run Prepared
unfolding ffi_prep_cif_core check_variadic
ffi_prep_cif_var float_type sint_type fuel cif abi nfixedargs ntotalargs rtype atypes s =
    ffi_prep_cif_core fuel cif abi true nfixedargs ntotalargs rtype atypes s
    >>= check_variadic float_type (s sint_type).size atypes nfixedargs ntotalargs
