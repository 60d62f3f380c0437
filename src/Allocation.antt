-- ===== src/Allocation.antt =====
-- The strong operators new and delete of duckdb-python/wasi-operator-new.cpp, over malloc, aligned_alloc
-- and free of the C library, which are parameters. An address is a number, and 0 is no address.
pub mod Align
mod Tests
use particle_python_wheels.Prelude.{
  ℕ, ◌+◌, ◌-◌, ◌%◌, ◌^◌, Option, none, some, ltb, ◌==◌, if◌then◌else◌,
}
use Prim.Native.Nat.{bit_and}

pub record Libc (World : Type 0) : Type 0 where
  pub malloc : ℕ → World → ℕ × World
  pub aligned_alloc : ℕ → ℕ → World → ℕ × World
  pub free : ℕ → World → World

-- A value cast to `size_t`.
abbrev pub size_t : ℕ → ℕ
size_t n = n % 2 ^ 32

-- `(size + align - 1) & ~(align - 1)`.
unfoldable pub rounded_size : ℕ → ℕ → ℕ
rounded_size size align = bit_and (size_t (size + (align - 1))) (2 ^ 32 - 1 - (align - 1))

-- `align < sizeof(void *)`, and `size == 0`.
abbrev pub at_least_pointer : ℕ → ℕ
at_least_pointer align = if ltb align 4 then 4 else align

abbrev pub at_least_one : ℕ → ℕ
at_least_one size = if size == 0 then 1 else size

module _ {World : Type 0} (libc : Libc World) where
  unfoldable pub do_alloc : ℕ → World → ℕ × World
  do_alloc size w = libc.malloc (at_least_one size) w

  unfoldable pub do_alloc_aligned : ℕ → ℕ → World → ℕ × World
  unfolding rounded_size
  do_alloc_aligned size align w =
      libc.aligned_alloc (at_least_pointer align)
        (rounded_size (at_least_one size) (at_least_pointer align)) w

  -- The throwing operators: no address where std::bad_alloc is thrown.
  abbrev pub or_throw : ℕ × World → Option ℕ × World
  or_throw (p, w) = (if p == 0 then none else some p, w)

  unfoldable pub new : ℕ → World → Option ℕ × World
  unfolding do_alloc
  new size w = or_throw (do_alloc size w)

  pub new_array : ℕ → World → Option ℕ × World
  unfolding new
  new_array = new

  unfoldable pub new_aligned : ℕ → ℕ → World → Option ℕ × World
  unfolding do_alloc_aligned
  new_aligned size align w = or_throw (do_alloc_aligned size align w)

  pub new_array_aligned : ℕ → ℕ → World → Option ℕ × World
  unfolding new_aligned
  new_array_aligned = new_aligned

  -- The nothrow operators.
  pub new_nothrow : ℕ → World → ℕ × World
  unfolding do_alloc
  new_nothrow = do_alloc

  pub new_array_nothrow : ℕ → World → ℕ × World
  unfolding do_alloc
  new_array_nothrow = do_alloc

  pub new_aligned_nothrow : ℕ → ℕ → World → ℕ × World
  unfolding do_alloc_aligned
  new_aligned_nothrow = do_alloc_aligned

  pub new_array_aligned_nothrow : ℕ → ℕ → World → ℕ × World
  unfolding do_alloc_aligned
  new_array_aligned_nothrow = do_alloc_aligned

  -- All of the operators delete, whose other arguments are not used.
  pub delete : ℕ → World → World
  delete p w = libc.free p w
