-- ===== src/Ffi/Tests.antt =====
-- Runs of libffi's code on small types, and the theorems at these types.
use particle_python_wheels.Prelude.{
  ℕ, ◌+◌, ◌^◌, ◌<◌, ◌≡◌, ◌≢◌, refl, true, false, none, some, List, [], ◌∷◌, ◌==◌, if◌then◌else◌,
  Bool-cases, inl, inr, arith,
}
use particle_python_wheels.Ffi.Store.{
  FfiStatus, TypeCode, FfiType, Ptr, Store, Run, returned, aborted, out_of_fuel,
}
use particle_python_wheels.Ffi.Returns.{Returns}
use particle_python_wheels.Ffi.Align.{ffi_align, ffi_align-eq-round_up}
use particle_python_wheels.Ffi.Types.{
  CType, ffi_typedef-IsReady, ffi_type_uint8, ffi_type_uint32, ffi_type_double,
}
use particle_python_wheels.Ffi.Aggregate.{
  Outcome, initialize_aggregate, ffi_get_struct_offsets, wasm32, outcome,
}
use particle_python_wheels.Ffi.Aggregate.Effect.{Ranked, Kept, SameMakeup, BelowReady}
use particle_python_wheels.Ffi.Aggregate.Failure.{
  initialize_aggregate_self, initialize_aggregate-half,
}
use particle_python_wheels.Ffi.Aggregate.{ensure_size}
use particle_python_wheels.Ffi.Aggregate.Offsets.{
  IsSound, ffi_get_struct_offsets-ok, ffi_get_struct_offsets-IsLayout, initialize_aggregate-IsReady,
}
use particle_python_wheels.Ffi.Aggregate.Layout.{IsReady, IsLayout, Agree, footprint}

abbrev struct_type : List Ptr → FfiType
struct_type ps = record { size = 0; alignment = 0; code = TypeCode.struct; elements = some ps }

-- 1 is uint8, 2 is uint32, 3 is double, 4 is `struct { uint8; uint32; uint8 }` and 5 is
-- `struct { struct 4; double }`.
unfoldable pub types : Store
types p =
    if p == 1
    then ffi_type_uint8
    else if p == 2
    then ffi_type_uint32
    else if p == 3
    then ffi_type_double
    else if p == 4
    then struct_type (1 ∷ 2 ∷ 1 ∷ [])
    else if p == 5
    then struct_type (4 ∷ 3 ∷ [])
    else record { size = 0; alignment = 0; code = TypeCode.struct; elements = none }

offsets_of : Run Outcome → List ℕ
offsets_of (returned r) = r.offsets
offsets_of aborted = []
offsets_of out_of_fuel = []

nested_offsets : offsets_of (ffi_get_struct_offsets 9 wasm32 true 5 types) ≡ 0 ∷ 16 ∷ []
unfolding offsets_of ffi_get_struct_offsets types ffi_align initialize_aggregate
nested_offsets = refl

flat_offsets : offsets_of (ffi_get_struct_offsets 9 wasm32 true 4 types) ≡ 0 ∷ 4 ∷ 8 ∷ []
unfolding offsets_of ffi_get_struct_offsets types ffi_align initialize_aggregate
flat_offsets = refl

rank : Ptr → ℕ
rank p = if p == 4 then 1 else if p == 5 then 2 else 0

types-Ranked : Ranked rank types
unfolding types rank
types-Ranked p ps e = elim (Bool-cases (p == 4)) [
  | inl h ↦
      let same : 1 ∷ 2 ∷ 1 ∷ [] ≡ ps = ground arith in
      rw (← same, h) (omega arith, (omega arith, (omega arith, tt)))
  | inr h ↦ elim (Bool-cases (p == 5)) [
    | inl k ↦
        let same : 4 ∷ 3 ∷ [] ≡ ps = ground arith in
        rw (← same, h, k) (omega arith, (omega arith, tt))
    | inr k ↦ absurd (ground arith)
  ]
]

pub types-ready : (q : Ptr) → (types q).size ≢ 0 → IsReady (types q)
unfolding types
types-ready q filled = elim (Bool-cases (q == 1)) [
  | inl a ↦ rw a (ffi_typedef-IsReady CType.uint8 TypeCode.uint8)
  | inr a ↦ elim (Bool-cases (q == 2)) [
    | inl b ↦ rw (a, b) (ffi_typedef-IsReady CType.uint32 TypeCode.uint32)
    | inr b ↦ elim (Bool-cases (q == 3)) [
      | inl c ↦ rw (a, b, c) (ffi_typedef-IsReady CType.double TypeCode.double)
      | inr c ↦ absurd (filled (ground arith))
    ]
  ]
]

sound : (arg : Ptr) → IsSound rank arg types
sound arg = record { ranked = types-Ranked; below = λ q h. types-ready q }

ffi_get_struct_offsets-ok_example :
    Returns
      (λ r.
        (r.status ≡ FfiStatus.ok)
        × IsLayout r.store (1 ∷ 2 ∷ 1 ∷ []) r.offsets (r.store 4)
        × Agree types r.store (1 ∷ 2 ∷ 1 ∷ []))
      (ffi_get_struct_offsets 9 wasm32 true 4 types)
unfolding types rank
ffi_get_struct_offsets-ok_example =
    ffi_get_struct_offsets-ok rank 9 4 1 (2 ∷ 1 ∷ []) types (sound 4) (omega arith) (omega arith)
      refl refl
      (
        (omega arith, ffi_typedef-IsReady CType.uint8 _),
        (
          (omega arith, ffi_typedef-IsReady CType.uint32 _),
          ((omega arith, ffi_typedef-IsReady CType.uint8 _), tt),
        ),
      )
      (omega arith)

ffi_get_struct_offsets-IsLayout_example :
    Returns
      (λ r.
        r.status ≡ FfiStatus.ok
        → footprint r.store (4 ∷ 3 ∷ []) + 2 ^ 15 < 2 ^ 32
        → IsLayout r.store (4 ∷ 3 ∷ []) r.offsets (r.store 5))
      (ffi_get_struct_offsets 9 wasm32 true 5 types)
unfolding types rank
ffi_get_struct_offsets-IsLayout_example =
    ffi_get_struct_offsets-IsLayout rank 9 5 (4 ∷ 3 ∷ []) types (sound 5) (omega arith) refl refl

initialize_aggregate-IsReady_example :
    Returns
      (λ r.
        Kept rank 5 types r.store
        × SameMakeup types r.store
        × (r.status ≡ FfiStatus.ok → BelowReady rank (rank 5) r.store × IsReady (r.store 5)))
      (initialize_aggregate 9 false 5 types)
unfolding types rank
initialize_aggregate-IsReady_example =
    initialize_aggregate-IsReady rank 9 false 5 types (sound 5) (omega arith)

-- 6 holds itself.
cyclic : Store
cyclic p = struct_type (6 ∷ [])

initialize_aggregate_self_example : initialize_aggregate 9 true 6 cyclic ≡ out_of_fuel
unfolding cyclic
initialize_aggregate_self_example = initialize_aggregate_self 9 true 6 [] cyclic (omega arith) refl

-- 7 holds uint32 and 8, a structure whose elements are missing.
half_made : Store
half_made p =
    if p == 7
    then struct_type (2 ∷ 8 ∷ [])
    else if p == 2
    then ffi_type_uint32
    else record { size = 0; alignment = 0; code = TypeCode.struct; elements = none }

initialize_aggregate-half_example :
    (r : Outcome) × (initialize_aggregate 9 true 7 half_made ≡ returned r)
    × (r.status ≡ FfiStatus.bad_typedef)
    × (ensure_size (initialize_aggregate 9 false) 7 r.store ≡ outcome FfiStatus.ok r.store [])
unfolding half_made
initialize_aggregate-half_example =
    initialize_aggregate-half 7 2 8 [] half_made (omega arith) refl (omega arith)
      (ffi_typedef-IsReady CType.uint32 _) (omega arith) (omega arith) refl refl 7 true
      (initialize_aggregate 9 false)

ffi_align-eq-round_up_example : ffi_align 5 (2 ^ 3) ≡ 8
ffi_align-eq-round_up_example = ffi_align-eq-round_up 5 3 (omega arith) (omega arith)
