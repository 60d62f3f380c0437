-- ===== src/Ffi/Aggregate/Offsets.antt =====
-- initialize_aggregate and ffi_get_struct_offsets of libffi-wasi/src/prep_cif.c, for their callers.
use particle_python_wheels.Prelude.{
  ℕ, zero, suc, ◌+◌, ◌^◌, ◌<◌, ◌≡◌, ◌≢◌, refl, Bool, true, some, List, ◌∷◌, arith,
}
use particle_python_wheels.Ffi.Store.{FfiStatus, TypeCode, Ptr, null, Store}
use particle_python_wheels.Ffi.Returns
use particle_python_wheels.Ffi.Returns.{Returns}
use particle_python_wheels.Ffi.Aggregate.Layout.{
  All, Agree, footprint-Agree, IsReady, footprint, IsLayout,
}
use particle_python_wheels.Ffi.Aggregate.Effect.{Ranked, BelowReady, Kept, SameMakeup}
use particle_python_wheels.Ffi.Aggregate.Flat.{flat_ok, Kept-Agree}
use particle_python_wheels.Ffi.Aggregate.Total.{initialize_aggregate-Laid}
use particle_python_wheels.Ffi.Aggregate.{initialize_aggregate, ffi_get_struct_offsets, wasm32}

-- Types that are prepared for a call on `arg`: no cycle, and what has a size has a sound one.
pub record IsSound (rank : Ptr → ℕ) (arg : Ptr) (s : Store) : Type 0 where
  pub ranked : Ranked rank s
  pub below : BelowReady rank (rank arg) s

-- Take types that contain one another without a cycle (`rank` falls from a structure to its
-- elements), where each type that ranks below `arg` and has a size is ready. With more fuel than the
-- rank of `arg`, initialize_aggregate returns. It changes no type but `arg` and types of a lower rank
-- whose size was 0, and no code or elements of any. If it reports FFI_OK, `arg` is ready (a size that
-- is not 0 and a multiple of an alignment that is a power of two), and so is each type below it that
-- has a size.
pub initialize_aggregate-IsReady :
    (rank : Ptr → ℕ) (fuel : ℕ) (wanted : Bool) (arg : Ptr) (s : Store)
    → IsSound rank arg s
    → rank arg < fuel
    → Returns
        (λ r.
          Kept rank arg s r.store
          × SameMakeup s r.store
          × (r.status ≡ FfiStatus.ok → BelowReady rank (rank arg) r.store × IsReady (r.store arg)))
        (initialize_aggregate fuel wanted arg s)
initialize_aggregate-IsReady rank fuel wanted arg s sound h =
    Returns.mono (initialize_aggregate-Laid rank fuel wanted arg s sound.ranked h)
      λ r l. (l.initialised.kept, l.initialised.same, λ fine. l.initialised.ready fine sound.below)

-- Take types that contain one another without a cycle, where each type that ranks below `arg` and has a
-- size is ready, and more fuel than the rank of `arg`. On a structure `arg` with the elements `ps` and
-- the ABI FFI_WASM32, ffi_get_struct_offsets returns. If it reports FFI_OK and the elements, their
-- alignments and 2 ^ 15 then add up to less than 2 ^ 32, the offsets that it wrote, the size and the
-- alignment are the natural layout of the elements: each stands at the first multiple of its alignment
-- behind the one before, the alignment is the largest of theirs, and the size adds the least tail
-- padding.
pub ffi_get_struct_offsets-IsLayout :
    (rank : Ptr → ℕ) (fuel : ℕ) (arg : Ptr) (ps : List Ptr) (s : Store)
    → IsSound rank arg s
    → rank arg < fuel
    → (s arg).code ≡ TypeCode.struct
    → (s arg).elements ≡ some ps
    → Returns
        (λ r.
          r.status ≡ FfiStatus.ok
          → footprint r.store ps + 2 ^ 15 < 2 ^ 32
          → IsLayout r.store ps r.offsets (r.store arg))
        (ffi_get_struct_offsets fuel wasm32 true arg s)
unfolding ffi_get_struct_offsets
ffi_get_struct_offsets-IsLayout rank fuel arg ps s sound h c e = rw c (
    Returns.mono (initialize_aggregate-Laid rank fuel true arg s sound.ranked h)
      (λ r l fine room. l.layout fine sound.below refl ps e room))

-- Take types that contain one another without a cycle, where each type that ranks below `arg` and has a
-- size is ready, and more fuel than the rank of `arg`. Let `arg` be a structure, not at NULL, with at
-- least one element, whose elements rank below it, are ready, and add up, with their alignments and
-- 2 ^ 15, to less than 2 ^ 32. Then ffi_get_struct_offsets with the ABI FFI_WASM32 returns and reports
-- FFI_OK, the offsets that it wrote, the size and the alignment are the natural layout of the elements,
-- and the elements are as they were.
pub ffi_get_struct_offsets-ok :
    (rank : Ptr → ℕ) (fuel : ℕ) (arg p : Ptr) (ps : List Ptr) (s : Store)
    → IsSound rank arg s
    → rank arg < fuel
    → arg ≢ null
    → (s arg).code ≡ TypeCode.struct
    → (s arg).elements ≡ some (p ∷ ps)
    → All (λ q. (rank q < rank arg) × IsReady (s q)) (p ∷ ps)
    → footprint s (p ∷ ps) + 2 ^ 15 < 2 ^ 32
    → Returns
        (λ r.
          (r.status ≡ FfiStatus.ok)
          × IsLayout r.store (p ∷ ps) r.offsets (r.store arg)
          × Agree s r.store (p ∷ ps))
        (ffi_get_struct_offsets fuel wasm32 true arg s)
unfolding ffi_get_struct_offsets
ffi_get_struct_offsets-ok rank (suc fuel) arg p ps s sound h ne c e ready room = rw c (
    Returns.mono
      (Returns.both (initialize_aggregate-Laid rank (suc fuel) true arg s sound.ranked h)
        (flat_ok rank fuel arg s p ps sound.below room ready e ne sound.ranked (omega (arith, h))))
      (λ r (l, fine).
        let same =
          Kept-Agree rank fuel arg s p ps sound.below room ready (p ∷ ps) r.store l.initialised.kept
            ready in
        (
          fine,
          l.layout fine sound.below refl (p ∷ ps) e
              (rw (footprint-Agree s r.store (p ∷ ps) same) room),
          same,
        )))
ffi_get_struct_offsets-ok rank zero arg p ps s sound h ne c e ready room = absurd (omega (arith, h))
