-- ===== src/Ffi/Types.antt =====
-- The predefined types of libffi-wasi/src/types.c.
use particle_python_wheels.Prelude.{ℕ, none, arith, round_up}
use particle_python_wheels.Ffi.Store.{TypeCode, FfiType}
use particle_python_wheels.Ffi.Aggregate.Layout.{IsReady}

-- The C types that the file names, and their sizes and alignments in the C ABI of wasm32.
pub data CType : Type 0 where
  uint8 sint8 uint16 sint16 uint32 sint32 uint64 sint64 void_pointer float double long_double :
      CType

abbrev pub sizeof : CType → ℕ
sizeof CType.uint8 = 1
sizeof CType.sint8 = 1
sizeof CType.uint16 = 2
sizeof CType.sint16 = 2
sizeof CType.uint32 = 4
sizeof CType.sint32 = 4
sizeof CType.uint64 = 8
sizeof CType.sint64 = 8
sizeof CType.void_pointer = 4
sizeof CType.float = 4
sizeof CType.double = 8
sizeof CType.long_double = 16

-- In this ABI the alignment of each of them is its size.
abbrev pub alignof : CType → ℕ
alignof type = sizeof type

-- offsetof(struct { char c; type x; }, x)
abbrev pub offset_behind_char : CType → ℕ
offset_behind_char type = round_up (sizeof CType.uint8) (alignof type)

-- FFI_TYPEDEF
abbrev pub ffi_typedef : CType → TypeCode → FfiType
ffi_typedef type id = record {
  size = sizeof type;
  alignment = offset_behind_char type;
  code = id;
  elements = none;
}

-- Size and alignment of `void` are made up; they must not be 0.
abbrev pub ffi_type_void : FfiType
ffi_type_void = record { size = 1; alignment = 1; code = TypeCode.void; elements = none }

abbrev pub ffi_type_uint8 : FfiType
ffi_type_uint8 = ffi_typedef CType.uint8 TypeCode.uint8

abbrev pub ffi_type_sint8 : FfiType
ffi_type_sint8 = ffi_typedef CType.sint8 TypeCode.sint8

abbrev pub ffi_type_uint16 : FfiType
ffi_type_uint16 = ffi_typedef CType.uint16 TypeCode.uint16

abbrev pub ffi_type_sint16 : FfiType
ffi_type_sint16 = ffi_typedef CType.sint16 TypeCode.sint16

abbrev pub ffi_type_uint32 : FfiType
ffi_type_uint32 = ffi_typedef CType.uint32 TypeCode.uint32

abbrev pub ffi_type_sint32 : FfiType
ffi_type_sint32 = ffi_typedef CType.sint32 TypeCode.sint32

abbrev pub ffi_type_uint64 : FfiType
ffi_type_uint64 = ffi_typedef CType.uint64 TypeCode.uint64

abbrev pub ffi_type_sint64 : FfiType
ffi_type_sint64 = ffi_typedef CType.sint64 TypeCode.sint64

abbrev pub ffi_type_pointer : FfiType
ffi_type_pointer = ffi_typedef CType.void_pointer TypeCode.pointer

abbrev pub ffi_type_float : FfiType
ffi_type_float = ffi_typedef CType.float TypeCode.float

abbrev pub ffi_type_double : FfiType
ffi_type_double = ffi_typedef CType.double TypeCode.double

abbrev pub ffi_type_longdouble : FfiType
ffi_type_longdouble = ffi_typedef CType.long_double TypeCode.longdouble

-- Each of them needs no initialisation.
pub ffi_typedef-IsReady : (type : CType) (id : TypeCode) → IsReady (ffi_typedef type id)
ffi_typedef-IsReady CType.uint8 id = record {
  aligned = (0, omega arith, omega arith);
  filled = omega arith;
  padded = omega arith;
}
ffi_typedef-IsReady CType.sint8 id = record {
  aligned = (0, omega arith, omega arith);
  filled = omega arith;
  padded = omega arith;
}
ffi_typedef-IsReady CType.uint16 id = record {
  aligned = (1, omega arith, omega arith);
  filled = omega arith;
  padded = omega arith;
}
ffi_typedef-IsReady CType.sint16 id = record {
  aligned = (1, omega arith, omega arith);
  filled = omega arith;
  padded = omega arith;
}
ffi_typedef-IsReady CType.uint32 id = record {
  aligned = (2, omega arith, omega arith);
  filled = omega arith;
  padded = omega arith;
}
ffi_typedef-IsReady CType.sint32 id = record {
  aligned = (2, omega arith, omega arith);
  filled = omega arith;
  padded = omega arith;
}
ffi_typedef-IsReady CType.uint64 id = record {
  aligned = (3, omega arith, omega arith);
  filled = omega arith;
  padded = omega arith;
}
ffi_typedef-IsReady CType.sint64 id = record {
  aligned = (3, omega arith, omega arith);
  filled = omega arith;
  padded = omega arith;
}
ffi_typedef-IsReady CType.void_pointer id = record {
  aligned = (2, omega arith, omega arith);
  filled = omega arith;
  padded = omega arith;
}
ffi_typedef-IsReady CType.float id = record {
  aligned = (2, omega arith, omega arith);
  filled = omega arith;
  padded = omega arith;
}
ffi_typedef-IsReady CType.double id = record {
  aligned = (3, omega arith, omega arith);
  filled = omega arith;
  padded = omega arith;
}
ffi_typedef-IsReady CType.long_double id = record {
  aligned = (4, omega arith, omega arith);
  filled = omega arith;
  padded = omega arith;
}
