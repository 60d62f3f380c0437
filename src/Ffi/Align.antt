-- ===== src/Ffi/Align.antt =====
-- The macro FFI_ALIGN of libffi-wasi/include/ffi_common.h, over the 32-bit `size_t` of wasm32.
use native.Mathlib.Nat.{
  lt-div-mul-add, mul-mod_left, div-add-mod', pow-le-pow_right, mod-mod_of_dvd, dvd-mul_left,
  div-mul-le_self, div-eq_of_lt, div-eq_of_lt-le,
}
use native.Mathlib.Numerals.{sub-one}
pub use particle_python_wheels.Prelude.{round_up}
use particle_python_wheels.Prelude.{
  ℕ, zero, suc, ◌+◌, ◌-◌, ◌*◌, ◌/◌, ◌%◌, ◌^◌, ◌≤◌, ◌<◌, ◌≡◌, bit_or, arith, sym, ap, ◌∙◌,
}
use particle_python_wheels.Prelude.Bits.{bit_or-mask, two_pow-add, two_pow_pos}

-- A value cast to `size_t`.
abbrev pub size_t : ℕ → ℕ
size_t n = n % 2 ^ 32

-- `((((size_t) v) - 1) | (a - 1)) + 1`: each subtraction wraps at 0.
unfoldable pub ffi_align : ℕ → ℕ → ℕ
ffi_align v a = size_t (bit_or (size_t (v + (2 ^ 32 - 1))) (size_t (a + (2 ^ 32 - 1))) + 1)

-- A block of `2 ^ k` bytes divides the address space.
two_pow-32 : (k : ℕ) → k ≤ 32 → 2 ^ (32 - k) * 2 ^ k ≡ 2 ^ 32
two_pow-32 k h = sym (two_pow-add (32 - k) k) ∙ ap (λ (n : ℕ). 2 ^ n) {y = 32} (omega arith)

pred_block : (a m : ℕ) → m * a ≡ 2 ^ 32 → (m - 1) * a + a ≡ 2 ^ 32
pred_block a zero e = absurd (omega arith)
pred_block a (suc m) e = rw (sub-one (suc m)) (omega arith)

-- The largest `size_t` ends the last block.
last_block : (a m : ℕ) → 0 < a → m * a ≡ 2 ^ 32 → (2 ^ 32 - 1) / a * a + a ≡ 2 ^ 32
last_block a m h e =
    let low : (m - 1) * a + a ≡ 2 ^ 32 = pred_block a m e in
    let q : (2 ^ 32 - 1) / a ≡ m - 1 =
      div-eq_of_lt-le a (omega (arith, low)) (omega (arith, low)) in
    rw q (grind arith)

pub a-mask : (a : ℕ) → 0 < a → a < 2 ^ 32 → size_t (a + (2 ^ 32 - 1)) ≡ a - 1
a-mask a h k = omega arith

round_up-suc : (w a : ℕ) → 0 < a → round_up (suc w) a ≡ w / a * a + a
round_up-suc w a h =
    let q : (suc w + (a - 1)) / a ≡ w / a + 1 =
      div-eq_of_lt-le a (omega (arith, div-mul-le_self w a))
        (omega (arith, lt-div-mul-add {a = w} h)) in
    rw q (grind arith)

zero-round_up : (a : ℕ) → 0 < a → round_up 0 a ≡ 0
zero-round_up a h = ap (λ (q : ℕ). q * a) {y = 0} (div-eq_of_lt (omega arith)) ∙ omega arith

-- For an alignment of at most 2 ^ 15, a power of two, and a size that has room below 2 ^ 32,
-- FFI_ALIGN gives the least multiple of the alignment that is no less than the size.
pub ffi_align-eq-round_up :
    (v k : ℕ) → k ≤ 15 → v + 2 ^ k ≤ 2 ^ 32 → ffi_align v (2 ^ k) ≡ round_up v (2 ^ k)
unfolding ffi_align
ffi_align-eq-round_up zero k small h =
    let lower = two_pow_pos k in
    ground (
      arith,
      a-mask (2 ^ k),
      bit_or-mask k (2 ^ 32 - 1),
      last_block (2 ^ k) (2 ^ (32 - k)) (omega arith) (two_pow-32 k (omega arith)),
      zero-round_up (2 ^ k),
    )
ffi_align-eq-round_up (suc w) k small h = ground (
  arith,
  two_pow_pos k,
  a-mask (2 ^ k),
  bit_or-mask k w,
  round_up-suc w (2 ^ k),
  div-mul-le_self w (2 ^ k),
)

pub round_up-mod : (v k : ℕ) → round_up v (2 ^ k) % 2 ^ k ≡ 0
round_up-mod v k = mul-mod_left ((v + (2 ^ k - 1)) / 2 ^ k) (2 ^ k)

pub le-round_up : (v k : ℕ) → v ≤ round_up v (2 ^ k)
le-round_up v k = omega (arith, two_pow_pos k, lt-div-mul-add {a = v + (2 ^ k - 1)} (two_pow_pos k))

pub round_up-lt : (v k : ℕ) → round_up v (2 ^ k) < v + 2 ^ k
round_up-lt v k = omega (arith, two_pow_pos k, div-mul-le_self (v + (2 ^ k - 1)) (2 ^ k))

pub two_pow_small : (k : ℕ) → k ≤ 15 → 2 ^ k ≤ 2 ^ 15
two_pow_small k h = pow-le-pow_right {n = 2} (omega arith) h

pub round_up_self : (v a : ℕ) → 0 < a → v % a ≡ 0 → round_up v a ≡ v
round_up_self v a h e =
    let q : (v + (a - 1)) / a ≡ v / a =
      div-eq_of_lt-le a (omega (arith, div-add-mod' v a)) (omega (arith, div-add-mod' v a)) in
    ap (λ (q : ℕ). q * a) q ∙ omega (arith, div-add-mod' v a)

-- An alignment of 0 makes every size 0.
pub ffi_align-zero : (v : ℕ) → ffi_align v 0 ≡ 0
unfolding ffi_align
ffi_align-zero v = omega (arith, bit_or-mask 32 (size_t (v + (2 ^ 32 - 1))))

-- A block's end stays one when the address space wraps.
block-mod : (q k : ℕ) → k ≤ 32 → size_t (q * 2 ^ k + 2 ^ k) % 2 ^ k ≡ 0
block-mod q k h =
    mod-mod_of_dvd (2 ^ k) (q * 2 ^ k + 2 ^ k)
      (rw (← two_pow-32 k h) (dvd-mul_left (2 ^ k) (2 ^ (32 - k))))
    ∙ (ap (λ (n : ℕ). n % 2 ^ k) {y = (q + 1) * 2 ^ k} (omega arith) ∙ mul-mod_left (q + 1) (2 ^ k))

-- Also where it wraps, FFI_ALIGN gives a multiple of the alignment.
pub ffi_align-mod : (v k : ℕ) → k ≤ 15 → ffi_align v (2 ^ k) % 2 ^ k ≡ 0
unfolding ffi_align
ffi_align-mod v k h =
    let w = size_t (v + (2 ^ 32 - 1)) in
    ap (λ (n : ℕ). size_t n % 2 ^ k) {y = w / 2 ^ k * 2 ^ k + 2 ^ k} (block_end w)
    ∙ block-mod (w / 2 ^ k) k (omega arith)
  where
    small : 2 ^ k ≤ 2 ^ 15
    small = two_pow_small k h

    block_end : (w : ℕ) → bit_or w (size_t (2 ^ k + (2 ^ 32 - 1))) + 1 ≡ w / 2 ^ k * 2 ^ k + 2 ^ k
    block_end w =
        rw (a-mask (2 ^ k) (two_pow_pos k) (omega (arith, small)), bit_or-mask k w)
          (omega (arith, two_pow_pos k))

pub zero-ffi_align : (k : ℕ) → k ≤ 15 → ffi_align 0 (2 ^ k) ≡ 0
zero-ffi_align k h =
    let small = two_pow_small k h in
    ffi_align-eq-round_up 0 k h (omega (arith, small)) ∙ zero-round_up (2 ^ k) (two_pow_pos k)
