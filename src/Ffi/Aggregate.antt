-- ===== src/Ffi/Aggregate.antt =====
-- initialize_aggregate and ffi_get_struct_offsets of libffi-wasi/src/prep_cif.c.
pub mod Layout
mod Place
pub mod Effect
mod Ensure
mod Loop
mod Correct
pub mod Total
pub mod Rounds
mod Flat
pub mod Failure
pub mod Offsets
use particle_python_wheels.Prelude.{
  ℕ, zero, suc, ◌+◌, Bool, true, false, none, some, List, [], ◌∷◌, ◌==◌, ◌&&◌, ltb, if◌then◌else◌,
}
use particle_python_wheels.Ffi.Align.{size_t, ffi_align}
use particle_python_wheels.Ffi.Store.{
  FfiStatus, TypeCode, Ptr, null, Store, write, Run, returned, out_of_fuel, ◌>>=◌,
}

-- What a call leaves: its status, the types, and what it wrote through `offsets`.
pub record Outcome : Type 0 where
  pub status : FfiStatus
  pub store : Store
  pub offsets : List ℕ

abbrev pub outcome : FfiStatus → Store → List ℕ → Run Outcome
outcome st s os = returned (record { status = st; store = s; offsets = os })

-- `arg->size = FFI_ALIGN(arg->size, (*ptr)->alignment)`.
pub align_size : Ptr → Ptr → Store → Store
align_size arg ptr s =
    write s arg (record (s arg) { size = ffi_align (s arg).size (s ptr).alignment })

-- `arg->size += (*ptr)->size`.
pub add_size : Ptr → Ptr → Store → Store
add_size arg ptr s = write s arg (record (s arg) { size = size_t ((s arg).size + (s ptr).size) })

-- `arg->alignment` becomes the larger of the two alignments.
pub raise_alignment : Ptr → Ptr → Store → Store
raise_alignment arg ptr s = write s arg (record (s arg) {
  alignment =
      if ltb (s ptr).alignment (s arg).alignment then (s arg).alignment else (s ptr).alignment;
})

-- `(*ptr)->size == 0 && initialize_aggregate((*ptr), NULL) != FFI_OK`, as the status.
unfoldable pub ensure_size : (Ptr → Store → Run Outcome) → Ptr → Store → Run Outcome
ensure_size init ptr s = elim ((s ptr).size == 0) [
  | true ↦ init ptr s
  | false ↦ outcome FfiStatus.ok s []
]

-- The rest of the loop's body, on an element of known size; the offset is `arg->size` between.
pub place_element : Ptr → Ptr → Store → Store
unfolding align_size add_size raise_alignment
place_element arg ptr s = raise_alignment arg ptr (add_size arg ptr (align_size arg ptr s))

pub element_offset : Ptr → Ptr → Store → ℕ
unfolding align_size
element_offset arg ptr s = (align_size arg ptr s arg).size

pub note_offset : Bool → ℕ → Outcome → Run Outcome
note_offset wanted o r = outcome r.status r.store (if wanted then o ∷ r.offsets else r.offsets)

-- The rest of the loop behind an element's initialisation; `rest` runs the later rounds.
pub continue_loop : (Store → Run Outcome) → Bool → Ptr → Ptr → Outcome → Run Outcome
unfolding place_element element_offset note_offset
continue_loop rest wanted arg ptr tried = elim tried.status [
  | FfiStatus.ok ↦
      rest (place_element arg ptr tried.store)
      >>= note_offset wanted (element_offset arg ptr tried.store)
  | _ ↦ outcome FfiStatus.bad_typedef tried.store []
]

-- The loop over the elements. `init` is the recursive call, with NULL for `offsets`.
pub elements_loop : (Ptr → Store → Run Outcome) → Bool → Ptr → List Ptr → Store → Run Outcome
unfolding ensure_size continue_loop
elements_loop init wanted arg [] s = outcome FfiStatus.ok s []
elements_loop init wanted arg (ptr ∷ rest) s =
    ensure_size init ptr s >>= continue_loop (elements_loop init wanted arg rest) wanted arg ptr

pub clear_size : Ptr → Store → Store
clear_size arg s = write s arg (record (s arg) { size = 0; alignment = 0 })

-- `arg->size = FFI_ALIGN(arg->size, arg->alignment)`.
pub pad_size : Ptr → Store → Store
pad_size arg s = write s arg (record (s arg) { size = ffi_align (s arg).size (s arg).alignment })

-- Tail padding, and the check that the structure is not empty.
pub finish : Ptr → Outcome → Run Outcome
unfolding pad_size
finish arg r = elim r.status [
  | FfiStatus.ok ↦
      let padded = pad_size arg r.store in
      outcome (if (padded arg).size == 0 then FfiStatus.bad_typedef else FfiStatus.ok) padded
        r.offsets
  | _ ↦ returned r
]

-- `wanted` tells whether `offsets` is not NULL. The second test of the code, that
-- `&(arg->elements[0])` is not NULL, cannot fail after the first.
unfoldable pub initialize_aggregate : ℕ → Bool → Ptr → Store → Run Outcome
unfolding elements_loop clear_size finish
initialize_aggregate zero wanted arg s = out_of_fuel
initialize_aggregate (suc fuel) wanted arg s =
    if arg == null then outcome FfiStatus.bad_typedef s [] else elim (s arg).elements [
      | none ↦ outcome FfiStatus.bad_typedef s []
      | some elements ↦
          elements_loop (initialize_aggregate fuel false) wanted arg elements (clear_size arg s)
          >>= finish arg
    ]

-- The ABIs of a 32-bit target: FFI_FIRST_ABI, FFI_WASM32 and FFI_LAST_ABI.
abbrev pub first_abi : ℕ
first_abi = 0

abbrev pub wasm32 : ℕ
wasm32 = 1

abbrev pub last_abi : ℕ
last_abi = 2

unfoldable pub valid_abi : ℕ → Bool
valid_abi abi = ltb first_abi abi && ltb abi last_abi

unfoldable pub ffi_get_struct_offsets : ℕ → ℕ → Bool → Ptr → Store → Run Outcome
unfolding valid_abi
ffi_get_struct_offsets fuel abi wanted struct_type s =
    if valid_abi abi
    then elim (s struct_type).code [
      | TypeCode.struct ↦ initialize_aggregate fuel wanted struct_type s
      | _ ↦ outcome FfiStatus.bad_typedef s []
    ]
    else outcome FfiStatus.bad_abi s []
