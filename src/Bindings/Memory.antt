-- ===== src/Bindings/Memory.antt =====
-- Linear memory as the adapters of duckdb-httpfs-wasi/http_client.c read it, and the C structures
-- for strings, lists, options and results.
use particle_python_wheels.Prelude.{ℕ, ◌+◌, ◌*◌, ◌^◌, List, [], ◌∷◌, ◌==◌, if◌then◌else◌}

-- The bytes of the return area, from `ptr` on.
abbrev pub Memory : Type 0
Memory = ℕ → ℕ

-- The memory from `n` bytes further on.
abbrev pub shift : ℕ → Memory → Memory
shift n m = λ i. m (n + i)

-- Reads through a pointer to uint8_t, uint16_t, uint32_t (also size_t, pointers and handles) and
-- uint64_t; wasm is little-endian.
abbrev pub load_u8 : Memory → ℕ → ℕ
load_u8 m p = m p

abbrev pub load_u16 : Memory → ℕ → ℕ
load_u16 m p = m p + 2 ^ 8 * m (p + 1)

abbrev pub load_u32 : Memory → ℕ → ℕ
load_u32 m p = load_u16 m p + 2 ^ 16 * load_u16 m (p + 2)

abbrev pub load_u64 : Memory → ℕ → ℕ
load_u64 m p = load_u32 m p + 2 ^ 32 * load_u32 m (p + 4)

-- The number of a resource, in an own<T> or a borrow<T>.
abbrev pub Handle : Type 0
Handle = ℕ

-- http_client_string_t and the list types: an address and a length.
pub record Slice : Type 0 where
  pub ptr : ℕ
  pub len : ℕ

-- (T) { *((uint8_t**) (ptr + 0)), *((size_t*) (ptr + 4)) }
abbrev pub load_slice : Memory → ℕ → Slice
load_slice m p = record { ptr = load_u32 m p; len = load_u32 m (p + 4) }

-- A C variable `{ bool is_some; T val; }`. It is `unset` where a switch took no case.
pub data Optional (A : Type 0) : Type 0 where
  unset absent : Optional A
  present : A → Optional A

-- A C variable `{ bool is_err; union { T ok; E err; } val; }`, and what an adapter passes on of it
-- through its result and its out-parameters.
pub data Outcome (A E : Type 0) : Type 0 where
  undefined : Outcome A E
  ok : A → Outcome A E
  err : E → Outcome A E

-- switch (d) { case 0: is_some = false; case 1: is_some = true; val = x; }
abbrev pub lift_option : {A : Type 0} → ℕ → A → Optional A
lift_option d x = if d == 0 then absent else if d == 1 then present x else unset

-- switch (d) { case 0: is_err = false; ok = x; case 1: is_err = true; err = y; }
abbrev pub lift_result : {A E : Type 0} → ℕ → A → E → Outcome A E
lift_result d x y = if d == 0 then ok x else if d == 1 then err y else undefined

-- A switch without a default, over a variable that starts as `before`.
abbrev pub switch {ℓ} : {A : Type ℓ} → ℕ → A → List (ℕ × A) → A
switch d before [] = before
switch d before ((k, x) ∷ cases) = if d == k then x else switch d before cases
