-- ===== src/Prelude/Bits.antt =====
-- `|` with a mask of low ones, as arithmetic, at every width.
use Prim.Native.Nat.{
  ℕ, zero, suc, ◌+◌, ◌-◌, ◌*◌, ◌/◌, ◌%◌, ◌^◌, ◌≤◌, ◌<◌, max, min, digits, bit_and, bit_or,
  bit_and-bitwise, bit_or-bitwise,
}
use mathlib.Core.Path.{◌≡◌, refl, sym, ap, ◌∙◌}
use native.Mathlib.Nat.{pow-suc, one-le-pow, zero-add, suc-add, div-div-eq-div-mul}
use native.Mathlib.Omega.{arith}

-- One more unit of fuel does not matter to the digit recursion once it has as much as the number.
more_fuel :
    (z : ℕ → ℕ) (f : ℕ → ℕ → ℕ) (b n a : ℕ) → a ≤ n → digits z f (suc n) a b ≡ digits z f n a b
more_fuel z f b zero zero enough = refl
more_fuel z f b (suc n) zero enough = refl
more_fuel z f b zero (suc a) enough = absurd (omega arith)
more_fuel z f b (suc n) (suc a) enough = rw (more_fuel z f (b / 2) n (suc a / 2) (omega arith))

spare_fuel : (z : ℕ → ℕ) (f : ℕ → ℕ → ℕ) (b a k : ℕ) → digits z f (k + a) a b ≡ digits z f a a b
spare_fuel z f b a zero = rw (zero-add a) refl
spare_fuel z f b a (suc k) =
    rw (suc-add k a) (more_fuel z f b (k + a) a (omega arith) ∙ spare_fuel z f b a k)

enough_fuel : (z : ℕ → ℕ) (f : ℕ → ℕ → ℕ) (b n a : ℕ) → a ≤ n → digits z f n a b ≡ digits z f a a b
enough_fuel z f b n a h =
    ap (λ (fuel : ℕ). digits z f fuel a b) {y = n - a + a} (omega arith)
    ∙ spare_fuel z f b a (n - a)

bit_or-suc : (m n : ℕ) → bit_or (suc m) n ≡ max (suc m % 2) (n % 2) + 2 * bit_or (suc m / 2) (n / 2)
bit_or-suc m n =
    simp bit_or-bitwise
      (omega (arith, enough_fuel (λ y. y) max (n / 2) m (suc m / 2) (omega arith)))

-- The lowest digit of `|`, with no fuel in sight.
bit_or_digit : (m n : ℕ) → bit_or m n ≡ max (m % 2) (n % 2) + 2 * bit_or (m / 2) (n / 2)
bit_or_digit (suc m) n = bit_or-suc m n
bit_or_digit zero n = simp bit_or-bitwise (omega arith)

bit_or-zero_below : (bound a : ℕ) → a < bound → bit_or a 0 ≡ a
bit_or-zero_below zero a below = absurd (omega arith)
bit_or-zero_below (suc bound) zero below = refl
bit_or-zero_below (suc bound) (suc a) below =
    omega (arith, bit_or_digit (suc a) 0, bit_or-zero_below bound (suc a / 2) (omega arith))

mul-two_pow-suc : (q k : ℕ) → q * 2 ^ suc k ≡ 2 * (q * 2 ^ k)
mul-two_pow-suc q k = omega (arith, ap (λ (t : ℕ). q * t) (pow-suc 2 k))

bit_or-fields :
    (k q r : ℕ) → r < 2 ^ k → bit_or (q * 2 ^ k + r) (2 ^ k - 1) ≡ q * 2 ^ k + (2 ^ k - 1)
bit_or-fields zero q r h = ground (arith, bit_or-zero_below (suc q) q)
bit_or-fields (suc k) q r h = ground (
  arith,
  bit_or_digit (q * 2 ^ suc k + r) (2 ^ suc k - 1),
  mul-two_pow-suc q k,
  pow-suc 2 k,
  one-le-pow k 2,
  bit_or-fields k q (r / 2) (omega (arith, pow-suc 2 k)),
)

-- Setting the `k` low bits moves a number to the end of its block of `2 ^ k`.
pub bit_or-mask : (k a : ℕ) → bit_or a (2 ^ k - 1) ≡ a / 2 ^ k * 2 ^ k + (2 ^ k - 1)
bit_or-mask k a = ground (arith, one-le-pow k 2, bit_or-fields k (a / 2 ^ k) (a % 2 ^ k))

bit_and-suc :
    (m n : ℕ) → bit_and (suc m) n ≡ min (suc m % 2) (n % 2) + 2 * bit_and (suc m / 2) (n / 2)
bit_and-suc m n =
    simp bit_and-bitwise
      (omega (arith, enough_fuel (λ y. 0) min (n / 2) m (suc m / 2) (omega arith)))

-- The lowest digit of `&`, with no fuel in sight.
bit_and_digit : (m n : ℕ) → bit_and m n ≡ min (m % 2) (n % 2) + 2 * bit_and (m / 2) (n / 2)
bit_and_digit (suc m) n = bit_and-suc m n
bit_and_digit zero n = simp bit_and-bitwise (omega arith)

zero-bit_and : (b : ℕ) → bit_and 0 b ≡ 0
zero-bit_and b = bit_and-bitwise 0 b

mask-bit_and_fields : (k q r : ℕ) → r < 2 ^ k → bit_and (2 ^ k - 1) (q * 2 ^ k + r) ≡ r
mask-bit_and_fields zero q r h = ground (arith, zero-bit_and (q * 2 ^ 0 + r))
mask-bit_and_fields (suc k) q r h = ground (
  arith,
  bit_and_digit (2 ^ suc k - 1) (q * 2 ^ suc k + r),
  mul-two_pow-suc q k,
  pow-suc 2 k,
  one-le-pow k 2,
  mask-bit_and_fields k q (r / 2) (omega (arith, pow-suc 2 k)),
)

-- `(2 ^ k - 1) & a` is what `a` leaves modulo `2 ^ k`.
pub mask-bit_and : (k a : ℕ) → bit_and (2 ^ k - 1) a ≡ a % 2 ^ k
mask-bit_and k a = ground (arith, one-le-pow k 2, mask-bit_and_fields k (a / 2 ^ k) (a % 2 ^ k))

pub two_pow-add : (j k : ℕ) → 2 ^ (j + k) ≡ 2 ^ j * 2 ^ k
two_pow-add zero k = rw zero-add (omega arith)
two_pow-add (suc j) k = omega (
  arith,
  ap (λ (n : ℕ). 2 ^ n) (suc-add j k),
  pow-suc 2 (j + k),
  pow-suc 2 j,
  ap (λ (t : ℕ). t * 2) (two_pow-add j k),
  ap (λ (t : ℕ). t * 2 ^ k) (pow-suc 2 j),
)

pub two_pow_pos : (k : ℕ) → 0 < 2 ^ k
two_pow_pos k = one-le-pow k 2 (omega arith)

-- All low bits of a number.
bit_and-low : (n a : ℕ) → a < 2 ^ n → bit_and a (2 ^ n - 1) ≡ a
bit_and-low zero a h = ground (arith, h, zero-bit_and 0)
bit_and-low (suc n) a h =
    let half : (2 ^ suc n - 1) / 2 ≡ 2 ^ n - 1 = omega (arith, pow-suc 2 n, one-le-pow n 2) in
    let odd : (2 ^ suc n - 1) % 2 ≡ 1 = omega (arith, pow-suc 2 n, one-le-pow n 2) in
    ground (
      arith,
      bit_and_digit a (2 ^ suc n - 1),
      half,
      odd,
      ap (λ (m : ℕ). bit_and (a / 2) m) half,
      bit_and-low n (a / 2) (omega (arith, h, pow-suc 2 n)),
    )

-- Clearing the `k` low bits of a number of `n` bits moves it to the start of its block of `2 ^ k`.
pub bit_and-high : (k n a : ℕ) → k ≤ n → a < 2 ^ n → bit_and a (2 ^ n - 2 ^ k) ≡ a / 2 ^ k * 2 ^ k
bit_and-high zero n a h b = bit_and-low n a b ∙ omega arith
bit_and-high (suc k) zero a h b = absurd (omega (arith, h))
bit_and-high (suc k) (suc n) a h b =
    let half : (2 ^ suc n - 2 ^ suc k) / 2 ≡ 2 ^ n - 2 ^ k =
      omega (arith, pow-suc 2 n, pow-suc 2 k) in
    let even : (2 ^ suc n - 2 ^ suc k) % 2 ≡ 0 = omega (arith, pow-suc 2 n, pow-suc 2 k) in
    let quotient : a / 2 ^ suc k ≡ a / 2 / 2 ^ k =
      ap (λ (m : ℕ). a / m) {y = 2 * 2 ^ k} (omega (arith, pow-suc 2 k))
      ∙ sym (div-div-eq-div-mul a 2 (2 ^ k)) in
    rw quotient (
      ground (
        arith,
        bit_and_digit a (2 ^ suc n - 2 ^ suc k),
        even,
        ap (λ (m : ℕ). bit_and (a / 2) m) half,
        mul-two_pow-suc (a / 2 / 2 ^ k) k,
        bit_and-high k n (a / 2) (omega (arith, h)) (omega (arith, b, pow-suc 2 n)),
      ))
