-- ===== src/Bindings/Outparam/Casts.antt =====
-- The numbers of duckdb-httpfs-wasi/http_client.c, cut to their width.
use particle_python_wheels.Prelude.{ℕ, ◌<◌, ◌%◌, ◌^◌, ◌≡◌, arith}
use particle_python_wheels.Bindings.ErrorCode.Parts.{extend}

pub u32_lem : (n : ℕ) → n < 2 ^ 32 → n % 2 ^ 32 ≡ n
u32_lem n h = omega (arith, h)

pub u16_lem : (n : ℕ) → n < 2 ^ 16 → n % 2 ^ 16 ≡ n
u16_lem n h = omega (arith, h)

pub u64_lem : (n : ℕ) → n < 2 ^ 64 → n % 2 ^ 64 ≡ n
u64_lem n h = omega (arith, h)

pub extend_u8_lem : (n : ℕ) → n < 2 ^ 8 → extend n % 2 ^ 32 % 2 ^ 8 ≡ n
unfolding extend
extend_u8_lem n h = ground (arith, h)

pub extend_u32_lem : (n : ℕ) → n < 2 ^ 32 → extend n % 2 ^ 32 % 2 ^ 32 ≡ n
unfolding extend
extend_u32_lem n h = ground (arith, h)

pub extend_in_range : (n : ℕ) → n < 2 ^ 32 → extend n < 2 ^ 64
unfolding extend
extend_in_range n h = ground (arith, h)
