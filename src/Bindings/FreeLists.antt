-- ===== src/Bindings/FreeLists.antt =====
-- The free functions of duckdb-httpfs-wasi/http_client.c for lists. The elements of a list are given by
-- their index; a function gives the elements as it leaves them, and the addresses that it passes to
-- free(), in their order.
pub mod Blocks
mod Tests
use particle_python_wheels.Prelude.{
  ℕ, zero, suc, ◌+◌, List, [], ◌∷◌, ◌++◌, Option, none, some, ltb, ◌==◌, if◌then◌else◌,
}
use particle_python_wheels.Bindings.Memory.{Slice}
use particle_python_wheels.Bindings.Free.{Freed, both, string_free, list_u8_free}

-- http_client_tuple2_field_key_field_value_t.
pub record Entry : Type 0 where
  pub f0 : Slice
  pub f1 : Slice

unfoldable pub field_key_free : Slice → Freed Slice
field_key_free = string_free

unfoldable pub field_value_free : Slice → Freed Slice
field_value_free s = some (s, if ltb 0 s.len then s.ptr ∷ [] else [])

unfoldable pub tuple2_field_key_field_value_free : Entry → Freed Entry
unfolding field_key_free field_value_free
tuple2_field_key_field_value_free e =
    both (λ x y. record { f0 = x; f1 = y }) (field_key_free e.f0) (field_value_free e.f1)

module _ {A : Type 0} (free : A → Freed A) where
  abbrev pub set_element : ℕ → A → (ℕ → A) → ℕ → A
  set_element i x items j = if i == j then x else items j

  -- What follows the freeing of an element.
  abbrev pub then_rest : ((ℕ → A) → Freed (ℕ → A)) → ℕ → (ℕ → A) → Freed A → Freed (ℕ → A)
  then_rest rest i items none = none
  then_rest rest i items (some (x, freed)) =
      both (λ (_ : A) (xs : ℕ → A). xs) (some (x, freed)) (rest (set_element i x items))

  -- `for (size_t i = 0; i < list_len; i++)`, from `i` on; so many elements are left.
  pub elements_free : ℕ → ℕ → (ℕ → A) → Freed (ℕ → A)
  elements_free zero i items = some (items, [])
  elements_free (suc left) i items = then_rest (elements_free left (suc i)) i items (free (items i))

  abbrev and_block : ℕ → Freed (ℕ → A) → Freed (ℕ → A)
  and_block ptr none = none
  and_block ptr (some (items, freed)) = some (items, freed ++ (ptr ∷ []))

  pub list_free : Slice → (ℕ → A) → Freed (ℕ → A)
  unfolding elements_free
  list_free list items =
      if ltb 0 list.len
      then and_block list.ptr (elements_free list.len 0 items)
      else some (items, [])

pub list_tuple2_field_key_field_value_free : Slice → (ℕ → Entry) → Freed (ℕ → Entry)
unfolding list_free tuple2_field_key_field_value_free
list_tuple2_field_key_field_value_free = list_free tuple2_field_key_field_value_free

pub list_field_value_free : Slice → (ℕ → Slice) → Freed (ℕ → Slice)
unfolding list_free field_value_free
list_field_value_free = list_free field_value_free
