-- ===== src/Ffi/Aggregate/Place.antt =====
-- One element's step of the loop in initialize_aggregate.
use Prim.Native.Nat.{max}
use particle_python_wheels.Prelude.{◌+◌, ◌%◌, ◌^◌, ◌≤◌, ◌<◌, ◌≡◌, ◌≢◌, ap, ◌∙◌, arith}
use particle_python_wheels.Ffi.Align.{
  ffi_align, round_up, ffi_align-eq-round_up, le-round_up, round_up-lt, round_up-mod,
}
use particle_python_wheels.Ffi.Store.{Ptr, Store}
use particle_python_wheels.Ffi.Aggregate.Layout.{IsAlignment}
use particle_python_wheels.Ffi.Aggregate.{place_element, element_offset}

-- What the step does, where nothing wraps.
pub record Placed (s : Store) (arg ptr : Ptr) : Type 0 where
  pub from : (s arg).size ≤ element_offset arg ptr s
  pub near : element_offset arg ptr s < (s arg).size + (s ptr).alignment
  pub aligned : element_offset arg ptr s % (s ptr).alignment ≡ 0
  pub size : (place_element arg ptr s arg).size ≡ element_offset arg ptr s + (s ptr).size

module _ (s : Store) (arg ptr : Ptr) where
  pub place_element-ne : (q : Ptr) → q ≢ arg → place_element arg ptr s q ≡ s q
  unfolding place_element
  place_element-ne q ne = ground arith

  pub place_element-same :
      (q : Ptr)
      → ((place_element arg ptr s q).elements ≡ (s q).elements)
        × ((place_element arg ptr s q).code ≡ (s q).code)
  unfolding place_element
  place_element-same q = ground arith

  pub place_element-alignment :
      ptr ≢ arg → (place_element arg ptr s arg).alignment ≡ max (s ptr).alignment (s arg).alignment
  unfolding place_element
  place_element-alignment ne = ground arith

  offset-eq : element_offset arg ptr s ≡ ffi_align (s arg).size (s ptr).alignment
  unfolding element_offset
  offset-eq = ground arith

  size-eq :
      ptr ≢ arg
      → (place_element arg ptr s arg).size
        ≡ (ffi_align (s arg).size (s ptr).alignment + (s ptr).size) % 2 ^ 32
  unfolding place_element
  size-eq ne = ground arith

  pub place_element-Placed :
      ptr ≢ arg
      → IsAlignment (s ptr).alignment
      → (s arg).size + (s ptr).size + (s ptr).alignment < 2 ^ 32
      → Placed s arg ptr
  place_element-Placed ne (k, small, e) room =
      let offset : element_offset arg ptr s ≡ round_up (s arg).size (2 ^ k) =
        offset-eq
        ∙ ap (ffi_align (s arg).size) e
        ∙ ffi_align-eq-round_up (s arg).size k small (omega arith) in
      record {
        from = omega (arith, le-round_up (s arg).size k);
        near = omega (arith, round_up-lt (s arg).size k);
        aligned = rw (offset, e) (round_up-mod (s arg).size k);
        size = omega (arith, size-eq ne, offset-eq, round_up-lt (s arg).size k);
      }
