-- ===== src/Bindings/Outparam/PayloadBounds.antt =====
-- The width of the numbers that wasi_http_types_static_response_outparam_set passes.
use particle_python_wheels.Prelude.{ℕ, ◌<◌, ◌^◌, ◌≡◌, refl, Option, some, none, arith}
use particle_python_wheels.Bindings.Memory.{Slice}
use particle_python_wheels.Bindings.ErrorCode.Structure.{to_optional, size_structure, size_option}
use particle_python_wheels.Bindings.ErrorCode.Fits.{FitsNumber, FitsString, FitsSize, FitsOption}
use particle_python_wheels.Bindings.ErrorCode.Parts.{
  Numbers, plain, lower_dns_error, lower_tls_alert_received, lower_u64, lower_u32, lower_field_size,
  lower_option_field_size, lower_option_string,
}
use particle_python_wheels.Bindings.Outparam.Casts.{extend_in_range}

-- Each number is one of its type.
pub record InRange (n : Numbers) : Type 0 where
  pub variant : n.variant < 2 ^ 32
  pub variant140 : n.variant140 < 2 ^ 32
  pub variant141 : n.variant141 < 2 ^ 64
  pub variant142 : n.variant142 < 2 ^ 32
  pub variant143 : n.variant143 < 2 ^ 32
  pub variant144 : n.variant144 < 2 ^ 32
  pub variant145 : n.variant145 < 2 ^ 32

in_range :
    {n : Numbers}
    → n.variant < 2 ^ 32
    → n.variant140 < 2 ^ 32
    → n.variant141 < 2 ^ 64
    → n.variant142 < 2 ^ 32
    → n.variant143 < 2 ^ 32
    → n.variant144 < 2 ^ 32
    → n.variant145 < 2 ^ 32
    → InRange n
in_range a b c d e f g = record {
  variant = a;
  variant140 = b;
  variant141 = c;
  variant142 = d;
  variant143 = e;
  variant144 = f;
  variant145 = g;
}

abbrev pub Lowers : Option Numbers → Type 0
Lowers lowered = (n : Numbers) × (lowered ≡ some n) × InRange n

pub plain-InRange : (tag : ℕ) → tag < 2 ^ 32 → Lowers (plain tag)
plain-InRange tag t = (
  _,
  refl,
  in_range t (omega arith) (omega arith) (omega arith) (omega arith) (omega arith) (omega arith),
)

pub lower_u64-InRange :
    (tag : ℕ) (x : Option ℕ)
    → tag < 2 ^ 32
    → FitsNumber 64 x
    → Lowers (lower_u64 tag (to_optional x))
unfolding lower_u64
lower_u64-InRange tag none t l = (
  _,
  refl,
  in_range t (omega arith) (omega arith) (omega arith) (omega arith) (omega arith) (omega arith),
)
lower_u64-InRange tag (some m) t l =
    (_, refl, in_range t (omega arith) l (omega arith) (omega arith) (omega arith) (omega arith))

pub lower_u32-InRange :
    (tag : ℕ) (x : Option ℕ)
    → tag < 2 ^ 32
    → FitsNumber 32 x
    → Lowers (lower_u32 tag (to_optional x))
unfolding lower_u32
lower_u32-InRange tag none t l = (
  _,
  refl,
  in_range t (omega arith) (extend_in_range 0 (omega arith)) (omega arith) (omega arith)
      (omega arith) (omega arith),
)
lower_u32-InRange tag (some m) t l = (
  _,
  refl,
  in_range t (omega arith) (extend_in_range m l) (omega arith) (omega arith) (omega arith)
      (omega arith),
)

pub lower_option_string-InRange :
    (tag : ℕ) (x : Option Slice)
    → tag < 2 ^ 32
    → FitsString x
    → Lowers (lower_option_string tag (to_optional x))
unfolding lower_option_string
lower_option_string-InRange tag none t h = (
  _,
  refl,
  in_range t (omega arith) (omega arith) (omega arith) (omega arith) (omega arith) (omega arith),
)
lower_option_string-InRange tag (some s) t (h, k) = (
  _,
  refl,
  in_range t (omega arith) (omega (arith, h)) k (omega arith) (omega arith) (omega arith),
)

pub lower_dns_error-InRange :
    (x : Option Slice) (y : Option ℕ)
    → FitsString x × FitsNumber 16 y
    → Lowers (lower_dns_error (record { rcode = to_optional x; info_code = to_optional y }))
unfolding lower_dns_error
lower_dns_error-InRange none none h = (
  _,
  refl,
  in_range (omega arith) (omega arith) (omega arith) (omega arith) (omega arith) (omega arith)
      (omega arith),
)
lower_dns_error-InRange (some s) none ((h, k), _) = (
  _,
  refl,
  in_range (omega arith) (omega arith) (omega (arith, h)) k (omega arith) (omega arith)
      (omega arith),
)
lower_dns_error-InRange none (some m) (_, l) = (
  _,
  refl,
  in_range (omega arith) (omega arith) (omega arith) (omega arith) (omega arith) (omega (arith, l))
      (omega arith),
)
lower_dns_error-InRange (some s) (some m) ((h, k), l) = (
  _,
  refl,
  in_range (omega arith) (omega arith) (omega (arith, h)) k (omega arith) (omega (arith, l))
      (omega arith),
)

pub lower_field_size-InRange :
    (tag : ℕ) (r : Option Slice × Option ℕ)
    → tag < 2 ^ 32
    → FitsSize r
    → Lowers (lower_field_size tag (size_structure r))
unfolding lower_field_size
lower_field_size-InRange tag (none, none) t h = (
  _,
  refl,
  in_range t (omega arith) (omega arith) (omega arith) (omega arith) (omega arith) (omega arith),
)
lower_field_size-InRange tag (some s, none) t ((h, k), _) = (
  _,
  refl,
  in_range t (omega arith) (omega (arith, h)) k (omega arith) (omega arith) (omega arith),
)
lower_field_size-InRange tag (none, some m) t (_, l) = (
  _,
  refl,
  in_range t (omega arith) (omega arith) (omega arith) (omega arith) (omega (arith, l))
      (omega arith),
)
lower_field_size-InRange tag (some s, some m) t ((h, k), l) = (
  _,
  refl,
  in_range t (omega arith) (omega (arith, h)) k (omega arith) (omega (arith, l)) (omega arith),
)

pub lower_tls_alert_received-InRange :
    (x : Option ℕ) (y : Option Slice)
    → FitsNumber 8 x × FitsString y
    → Lowers (
        lower_tls_alert_received
          (record { alert_id = to_optional x; alert_message = to_optional y }))
unfolding lower_tls_alert_received
lower_tls_alert_received-InRange none none h = (
  _,
  refl,
  in_range (omega arith) (omega arith) (extend_in_range 0 (omega arith)) (omega arith) (omega arith)
      (omega arith) (omega arith),
)
lower_tls_alert_received-InRange none (some s) (_, (h, k)) = (
  _,
  refl,
  in_range (omega arith) (omega arith) (extend_in_range 0 (omega arith)) (omega arith) h k
      (omega arith),
)
lower_tls_alert_received-InRange (some m) none (l, _) = (
  _,
  refl,
  in_range (omega arith) (omega arith) (extend_in_range m (omega (arith, l))) (omega arith)
      (omega arith) (omega arith) (omega arith),
)
lower_tls_alert_received-InRange (some m) (some s) (l, (h, k)) = (
  _,
  refl,
  in_range (omega arith) (omega arith) (extend_in_range m (omega (arith, l))) (omega arith) h k
      (omega arith),
)

pub lower_option_field_size-InRange :
    (r : Option (Option Slice × Option ℕ))
    → FitsOption r
    → Lowers (lower_option_field_size (size_option r))
unfolding lower_option_field_size
lower_option_field_size-InRange none h = (
  _,
  refl,
  in_range (omega arith) (omega arith) (omega arith) (omega arith) (omega arith) (omega arith)
      (omega arith),
)
lower_option_field_size-InRange (some (none, none)) h = (
  _,
  refl,
  in_range (omega arith) (omega arith) (extend_in_range 0 (omega arith)) (omega arith) (omega arith)
      (omega arith) (omega arith),
)
lower_option_field_size-InRange (some (some s, none)) ((h, k), _) = (
  _,
  refl,
  in_range (omega arith) (omega arith) (extend_in_range 1 (omega arith)) h k (omega arith)
      (omega arith),
)
lower_option_field_size-InRange (some (none, some m)) (_, l) = (
  _,
  refl,
  in_range (omega arith) (omega arith) (extend_in_range 0 (omega arith)) (omega arith) (omega arith)
      (omega arith) l,
)
lower_option_field_size-InRange (some (some s, some m)) ((h, k), l) = (
  _,
  refl,
  in_range (omega arith) (omega arith) (extend_in_range 1 (omega arith)) h k (omega arith) l,
)
