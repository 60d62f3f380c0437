-- ===== src/Allocation/Tests.antt =====
-- The operators of duckdb-python/wasi-operator-new.cpp over a small allocator.
use native.Mathlib.Nat.{mul-mod_left}
use particle_python_wheels.Prelude.{ℕ, ◌*◌, ◌%◌, ◌^◌, ◌≡◌, ◌≢◌, refl, arith, some, ◌-◌}
use particle_python_wheels.Allocation.{Libc, rounded_size, new_aligned}
use particle_python_wheels.Allocation.Align.{IsAligning, Holds, new_aligned-Holds}

-- Its blocks lie far up, at a multiple of the alignment.
abbrev small_libc : Libc ℕ
small_libc = record {
  malloc = λ n w. (8, n);
  aligned_alloc = λ a n w. (2 ^ 20 * a, n);
  free = λ p w. 0;
}

-- The world is the size of the last block.
abbrev Last : ℕ → ℕ → ℕ → Type 0
Last w p n = w ≡ n

small_libc-IsAligning : IsAligning small_libc Last
small_libc-IsAligning = record {
  aligned = λ k n w h m found. (mul-mod_left (2 ^ 20) (2 ^ k), refl);
}

-- Close to 2 ^ 32 the rounded size wraps to 0, and C may give a block of no bytes for it.
rounded_size_wraps : rounded_size (2 ^ 32 - 1) 16 ≡ 0
unfolding rounded_size
rounded_size_wraps = refl

sixteen : (new_aligned small_libc 5 (2 ^ 4) 0).0 ≡ some 16777216
unfolding new_aligned
sixteen = refl

new_aligned-Holds_example :
    (◌≢◌ {A = ℕ} 16777216 0)
    × (◌≡◌ {A = ℕ} (16777216 % 2 ^ 4) 0)
    × Holds small_libc Last 5 (new_aligned small_libc 5 (2 ^ 4) 0).1 16777216
new_aligned-Holds_example =
    new_aligned-Holds small_libc Last small_libc-IsAligning 4 5 0 16777216 (omega arith)
      (omega arith) sixteen
