-- ===== src/Bindings/Flat.antt =====
-- The numbers as which the canonical ABI of the WebAssembly component model passes a value outside of
-- memory, and those of a case among those of its variant.
use particle_python_wheels.Prelude.{ℕ, ◌%◌, ◌^◌, List, [], ◌∷◌, Option, none, some}
use particle_python_wheels.Bindings.Memory.{Slice}

-- The types of the numbers that a value is passed as, outside of memory.
pub data Core : Type 0 where
  i32 i64 : Core

-- The first number, of which the lowest bits count.
abbrev pub low_bits : ℕ → List ℕ → Option ℕ
low_bits bits [] = none
low_bits bits (n ∷ ns) = some (n % 2 ^ bits)

abbrev pub two_numbers : List ℕ → Option Slice
two_numbers (p ∷ l ∷ ns) = some (record { ptr = p; len = l })
two_numbers _ = none

-- The numbers behind those of a type.
abbrev pub skip : List Core → List ℕ → List ℕ
skip [] ns = ns
skip (t ∷ ts) [] = []
skip (t ∷ ts) (n ∷ ns) = skip ts ns

-- A number that is i32 in one case and i64 in another is passed as an i64.
abbrev pub join_core : Core → Core → Core
join_core Core.i32 Core.i32 = Core.i32
join_core Core.i32 Core.i64 = Core.i64
join_core Core.i64 c = Core.i64

abbrev pub join : List Core → List Core → List Core
join [] us = us
join (t ∷ ts) [] = t ∷ ts
join (t ∷ ts) (u ∷ us) = join_core t u ∷ join ts us

abbrev pub narrow_core : Core → Core → ℕ → ℕ
narrow_core Core.i32 Core.i64 n = n % 2 ^ 32
narrow_core Core.i32 Core.i32 n = n
narrow_core Core.i64 u n = n

-- The numbers of a case, of those of the variant.
abbrev pub narrow : List Core → List Core → List ℕ → List ℕ
narrow (t ∷ ts) (u ∷ us) (n ∷ ns) = narrow_core t u n ∷ narrow ts us ns
narrow _ _ _ = []
