-- ===== src/Ffi/Store.antt =====
-- `ffi_type` and `ffi_status` of libffi-wasi/include/ffi.h.in, the memory that holds the types, and
-- the ways a C function of libffi ends.
use particle_python_wheels.Prelude.{ℕ, Option, List, ◌==◌, if◌then◌else◌}

pub data FfiStatus : Type 0 where
  ok bad_typedef bad_abi bad_argtype : FfiStatus

-- The codes FFI_TYPE_*.
pub data TypeCode : Type 0 where
  void int float double longdouble uint8 sint8 uint16 sint16 uint32 sint32 uint64 sint64 struct
        pointer complex :
      TypeCode

-- The address of an `ffi_type`; `null` is NULL.
abbrev pub Ptr : Type 0
Ptr = ℕ

abbrev pub null : Ptr
null = 0

-- `elements` is NULL, or an array of addresses whose NULL at the end is left out here.
pub record FfiType : Type 0 where
  pub size : ℕ
  pub alignment : ℕ
  pub code : TypeCode
  pub elements : Option (List Ptr)

abbrev pub Store : Type 0
Store = Ptr → FfiType

abbrev pub write : Store → Ptr → FfiType → Store
write s p t q = if q == p then t else s q

-- A call returns, or calls abort(); `out_of_fuel` is a recursion deeper than the fuel.
pub data Run {ℓ} (A : Type ℓ) : Type ℓ where
  returned : A → Run A
  aborted : Run A
  out_of_fuel : Run A

infixl 5 ◌>>=◌
abbrev pub ◌>>=◌ {ℓ κ} : {A : Type ℓ} {B : Type κ} → Run A → (A → Run B) → Run B
returned a >>= k = k a
aborted >>= k = aborted
out_of_fuel >>= k = out_of_fuel
