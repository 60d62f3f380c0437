-- ===== src/Bindings/FreeLists/Blocks.antt =====
-- What the free functions of lists free.
use particle_python_wheels.Prelude.{
  ℕ, zero, suc, ◌+◌, ◌≤◌, ◌<◌, ◌≡◌, refl, ap, ◌∙◌, List, [], ◌∷◌, ◌++◌, some, ltb, ◌==◌, eqb_false,
  if◌then◌else◌, arith, Bool-cases, inl, inr,
}
use particle_python_wheels.Bindings.Memory.{Slice}
use particle_python_wheels.Bindings.Free.{Freed, string_free}
use particle_python_wheels.Bindings.FreeLists.{
  Entry, field_key_free, field_value_free, tuple2_field_key_field_value_free, list_field_value_free,
  list_tuple2_field_key_field_value_free, set_element, elements_free, list_free,
}

-- The blocks of the elements `i`, `suc i` and so on.
abbrev pub blocks_from : {A : Type 0} → (A → List ℕ) → (ℕ → A) → ℕ → ℕ → List ℕ
blocks_from block items i zero = []
blocks_from block items i (suc left) = block (items i) ++ blocks_from block items (suc i) left

-- A list's elements as it is left, and what is freed of it: the elements' blocks, then its own.
abbrev pub ListFreed :
    {A : Type 0} → (A → List ℕ) → (A → A) → Slice → (ℕ → A) → Freed (ℕ → A) → Type 0
ListFreed {A} block freed list items r =
    (after : ℕ → A) × (r
      ≡ some (
        after,
        if ltb 0 list.len then blocks_from block items 0 list.len ++ (list.ptr ∷ []) else [],
      ))
    × ((j : ℕ) → j < list.len → after j ≡ freed (items j))
    × ((j : ℕ) → list.len ≤ j → after j ≡ items j)

module _ {A : Type 0} (free : A → Freed A) (block : A → List ℕ) (freed : A → A)
    (law : (x : A) → free x ≡ some (freed x, block x)) where
  -- The elements from `i` on to the end, freed.
  abbrev pub all_freed : ℕ → ℕ → (ℕ → A) → ℕ → A
  all_freed i zero items = items
  all_freed i (suc left) items = all_freed (suc i) left (set_element free i (freed (items i)) items)

  -- A change in front does not matter.
  blocks_from-set_element :
      (i j left : ℕ) (x : A) (items : ℕ → A)
      → i < j
      → blocks_from block (set_element free i x items) j left ≡ blocks_from block items j left
  blocks_from-set_element i j zero x items h = refl
  blocks_from-set_element i j (suc left) x items h =
      rw
        (
          eqb_false i j (omega (arith, h)),
          blocks_from-set_element i (suc j) left x items (omega (arith, h)),
        )
        refl

  elements_free-blocks :
      (left i : ℕ) (items : ℕ → A)
      → elements_free free left i items
        ≡ some (all_freed i left items, blocks_from block items i left)
  unfolding elements_free
  elements_free-blocks zero i items = refl
  elements_free-blocks (suc left) i items =
      rw
        (
          elements_free,
          law (items i),
          elements_free-blocks left (suc i) (set_element free i (freed (items i)) items),
          blocks_from-set_element i (suc i) left (freed (items i)) items (omega arith),
        )
        refl

  all_freed_outside :
      (left i : ℕ) (items : ℕ → A) (j : ℕ) → j < i → all_freed i left items j ≡ items j
  all_freed_outside zero i items j h = refl
  all_freed_outside (suc left) i items j h =
      all_freed_outside left (suc i) (set_element free i (freed (items i)) items) j
        (omega (arith, h))
      ∙ rw (eqb_false i j (omega (arith, h))) refl

  all_freed_behind :
      (left i : ℕ) (items : ℕ → A) (j : ℕ) → i + left ≤ j → all_freed i left items j ≡ items j
  all_freed_behind zero i items j h = refl
  all_freed_behind (suc left) i items j h =
      all_freed_behind left (suc i) (set_element free i (freed (items i)) items) j
        (omega (arith, h))
      ∙ rw (eqb_false i j (omega (arith, h))) refl

  all_freed_within :
      (left i : ℕ) (items : ℕ → A) (j : ℕ)
      → i ≤ j
      → j < i + left
      → all_freed i left items j ≡ freed (items j)
  all_freed_within zero i items j h k = absurd (omega (arith, h, k))
  all_freed_within (suc left) i items j h k = elim (Bool-cases (i == j)) [
    | inl e ↦
        let same : i ≡ j = ground (arith, e) in
        all_freed_outside left (suc i) (set_element free i (freed (items i)) items) j
          (omega (arith, same))
        ∙ rw e (ap (λ (n : ℕ). freed (items n)) same)
    | inr e ↦
        all_freed_within left (suc i) (set_element free i (freed (items i)) items) j
          (ground (arith, e, h)) (omega (arith, k))
        ∙ rw e refl
  ]

  pub list_free-ListFreed :
      (list : Slice) (items : ℕ → A) → ListFreed block freed list items (list_free free list items)
  unfolding list_free
  list_free-ListFreed list items = elim (Bool-cases (ltb 0 list.len)) [
    | inl e ↦
        rw (list_free, e, elements_free-blocks list.len 0 items)
          (
            all_freed 0 list.len items,
            refl,
            (λ j h. all_freed_within list.len 0 items j (omega arith) (omega (arith, h))),
            (λ j h. all_freed_behind list.len 0 items j (omega (arith, h))),
          )
    | inr e ↦ rw (list_free, e) (items, refl, (λ j h. absurd (ground (arith, e, h))), (λ j h. refl))
  ]

abbrev pub block : Slice → List ℕ
block s = if ltb 0 s.len then s.ptr ∷ [] else []

abbrev pub entry_blocks : Entry → List ℕ
entry_blocks e = block e.f0 ++ block e.f1

abbrev pub emptied_key : Entry → Entry
emptied_key e = record { f0 = record { ptr = 0; len = 0 }; f1 = e.f1 }

entry_lem : (e : Entry) → tuple2_field_key_field_value_free e ≡ some (emptied_key e, entry_blocks e)
unfolding tuple2_field_key_field_value_free field_key_free field_value_free string_free
entry_lem e = refl

value_lem : (s : Slice) → field_value_free s ≡ some (s, block s)
unfolding field_value_free
value_lem s = refl

-- The free functions of a list of header fields and of a list of values pass to free() the addresses of
-- all strings and values in the list that are not empty, in the order of the list, each key before its
-- value, and then the list's own address, unless the list is empty: then nothing. They empty the keys
-- of the list's entries and change nothing else, in the list or behind it.
pub list_free-blocks :
    (list : Slice) (entries : ℕ → Entry) (values : ℕ → Slice)
    → ListFreed entry_blocks emptied_key list entries
        (list_tuple2_field_key_field_value_free list entries)
      × ListFreed block (λ s. s) list values (list_field_value_free list values)
unfolding list_tuple2_field_key_field_value_free list_field_value_free
list_free-blocks list entries values = (
  list_free-ListFreed tuple2_field_key_field_value_free entry_blocks emptied_key entry_lem list
      entries,
  list_free-ListFreed field_value_free block (λ s. s) value_lem list values,
)
