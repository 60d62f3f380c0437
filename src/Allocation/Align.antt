-- ===== src/Allocation/Align.antt =====
-- What the operators new ask of the C library and give to the program.
use mathlib.Core.Path.{subst}
use native.Mathlib.Nat.{pow-suc}
use particle_python_wheels.Prelude.{
  ℕ, zero, suc, ◌+◌, ◌-◌, ◌%◌, ◌^◌, ◌≤◌, ◌<◌, ◌≡◌, refl, sym, ap, ◌∙◌, ◌≢◌, some, arith, ltb,
  round_up, if◌then◌else◌,
}
use particle_python_wheels.Prelude.Bits.{bit_and-high, two_pow_pos}
use particle_python_wheels.Ffi.Align.{le-round_up, round_up-mod}
use particle_python_wheels.Allocation.{
  Libc, size_t, rounded_size, at_least_pointer, at_least_one, or_throw, do_alloc_aligned,
  new_aligned,
}
use Prim.Native.Nat.{bit_and}

-- Where the sum does not wrap, the size is rounded up to a multiple of the alignment.
pub rounded_size-eq-round_up :
    (size k : ℕ)
    → k ≤ 32
    → size + 2 ^ k ≤ 2 ^ 32
    → rounded_size size (2 ^ k) ≡ round_up size (2 ^ k)
unfolding rounded_size
rounded_size-eq-round_up size k h room =
    let positive = two_pow_pos k in
    let sum : size_t (size + (2 ^ k - 1)) ≡ size + (2 ^ k - 1) = omega (arith, room, positive) in
    let mask : 2 ^ 32 - 1 - (2 ^ k - 1) ≡ 2 ^ 32 - 2 ^ k = omega (arith, room, positive) in
    ap (λ (s : ℕ). bit_and s (2 ^ 32 - 1 - (2 ^ k - 1))) sum
    ∙ ap (λ (m : ℕ). bit_and (size + (2 ^ k - 1)) m) mask
    ∙ bit_and-high k 32 (size + (2 ^ k - 1)) h (omega (arith, room, positive))

-- The exponent of the alignment that is asked for.
abbrev exponent : ℕ → ℕ
exponent k = if ltb k 2 then 2 else k

two_pow-ge_four : (k : ℕ) → 4 ≤ 2 ^ suc (suc k)
two_pow-ge_four k = omega (arith, pow-suc 2 k, pow-suc 2 (suc k), two_pow_pos k)

at_least_pointer-two_pow : (k : ℕ) → at_least_pointer (2 ^ k) ≡ 2 ^ exponent k
at_least_pointer-two_pow zero = refl
at_least_pointer-two_pow (suc zero) = refl
at_least_pointer-two_pow (suc (suc k)) = ground (arith, two_pow-ge_four k)

exponent-mod : (k p : ℕ) → p % 2 ^ exponent k ≡ 0 → p % 2 ^ k ≡ 0
exponent-mod zero p h = omega arith
exponent-mod (suc zero) p h = omega (arith, h)
exponent-mod (suc (suc k)) p h = ground (arith, h)

exponent-ge_two : (k : ℕ) → 2 ≤ exponent k
exponent-ge_two k = ground arith

le-at_least_one : (size : ℕ) → size ≤ at_least_one size
le-at_least_one size = ground arith

at_least_one_pos : (size : ℕ) → 0 < at_least_one size
at_least_one_pos size = ground arith

exponent_room :
    (k size : ℕ) → size + 2 ^ k + 4 ≤ 2 ^ 32 → at_least_one size + 2 ^ exponent k ≤ 2 ^ 32
exponent_room zero size h = ground (arith, h)
exponent_room (suc zero) size h = ground (arith, h)
exponent_room (suc (suc k)) size h = ground (arith, h)

module _ {World : Type 0} (libc : Libc World) (Has : World → ℕ → ℕ → Type 0) where
  -- What C says of aligned_alloc, for a power of two that is at least the size of a pointer and a size
  -- that is a multiple of it: an address that it returns has the alignment and a block of the size.
  pub record IsAligning : Type 0 where
    pub aligned :
        (k n : ℕ) (w : World)
        → 2 ≤ k
        → n % 2 ^ k ≡ 0
        → (libc.aligned_alloc (2 ^ k) n w).0 ≢ 0
        → ((libc.aligned_alloc (2 ^ k) n w).0 % 2 ^ k ≡ 0)
          × Has (libc.aligned_alloc (2 ^ k) n w).1 (libc.aligned_alloc (2 ^ k) n w).0 n

  -- A block for an object of the size, and not empty.
  abbrev pub Holds : ℕ → World → ℕ → Type 0
  Holds size w p = (n : ℕ) × (size ≤ n) × (0 < n) × Has w p n

  do_alloc_aligned_lem :
      (k size : ℕ) (w : World)
      → k ≤ 31
      → size + 2 ^ k + 4 ≤ 2 ^ 32
      → do_alloc_aligned libc size (2 ^ k) w
        ≡ libc.aligned_alloc (2 ^ exponent k) (round_up (at_least_one size) (2 ^ exponent k)) w
  unfolding do_alloc_aligned
  do_alloc_aligned_lem k size w h room =
      rw (do_alloc_aligned, at_least_pointer-two_pow k)
        (ap (λ (n : ℕ). libc.aligned_alloc (2 ^ exponent k) n w)
          (rounded_size-eq-round_up (at_least_one size) (exponent k) (ground (arith, h))
            (exponent_room k size room)))

  do_alloc_aligned-Holds :
      (law : IsAligning) (k size : ℕ) (w : World)
      → k ≤ 31
      → size + 2 ^ k + 4 ≤ 2 ^ 32
      → (do_alloc_aligned libc size (2 ^ k) w).0 ≢ 0
      → ((do_alloc_aligned libc size (2 ^ k) w).0 % 2 ^ k ≡ 0)
        × Holds size
            (do_alloc_aligned libc size (2 ^ k) w).1
            (do_alloc_aligned libc size (2 ^ k) w).0
  do_alloc_aligned-Holds law k size w h room =
      let s = at_least_one size in
      let j = exponent k in
      let n = round_up s (2 ^ j) in
      subst (λ (r : ℕ × World). r.0 ≢ 0 → (r.0 % 2 ^ k ≡ 0) × Holds size r.1 r.0)
        {x = libc.aligned_alloc (2 ^ j) n w} (sym (do_alloc_aligned_lem k size w h room))
        (λ found.
          let (aligned, has) = law.aligned j n w (exponent-ge_two k) (round_up-mod s j) found in
          (
            exponent-mod k (libc.aligned_alloc (2 ^ j) n w).0 aligned,
            (
              n,
              omega (arith, le-round_up s j, le-at_least_one size),
              omega (arith, le-round_up s j, at_least_one_pos size),
              has,
            ),
          ))

  or_throw-some : (r : ℕ × World) (p : ℕ) → (or_throw libc r).0 ≡ some p → (p ≢ 0) × (r.0 ≡ p)
  or_throw-some (q, w) p e = ground (arith, e)

  -- If aligned_alloc does what C says of it: for an alignment that is a power of two and a size that
  -- leaves room for one more alignment and a pointer below 2 ^ 32, an address that operator new returns
  -- is not null and has the alignment, also where that is less than a pointer's, and has a block that
  -- is not empty and no smaller than the size, 0 included.
  pub new_aligned-Holds :
      (law : IsAligning) (k size : ℕ) (w : World) (p : ℕ)
      → k ≤ 31
      → size + 2 ^ k + 4 ≤ 2 ^ 32
      → (new_aligned libc size (2 ^ k) w).0 ≡ some p
      → (p ≢ 0) × (p % 2 ^ k ≡ 0) × Holds size (new_aligned libc size (2 ^ k) w).1 p
  unfolding new_aligned
  new_aligned-Holds law k size w p h room e =
      let r = do_alloc_aligned libc size (2 ^ k) w in
      let (not_null, same) = or_throw-some r p e in
      let (aligned, holds) =
        do_alloc_aligned-Holds law k size w h room (λ null. not_null (sym same ∙ null)) in
      (
        not_null,
        subst (λ (q : ℕ). q % 2 ^ k ≡ 0) same aligned,
        subst (λ (q : ℕ). Holds size r.1 q) same holds,
      )
