-- ===== src/Bindings/Free/Strings.antt =====
-- The strings of an error code, and their freeing.
use mathlib.Core.List.{append-nil}
use particle_python_wheels.Prelude.{
  ℕ, ◌≡◌, refl, List, [], ◌∷◌, Option, some, none, ltb, if◌then◌else◌,
}
use particle_python_wheels.Bindings.Memory.{Slice}
use particle_python_wheels.Bindings.ErrorCode.Value.{ErrorValue}
use particle_python_wheels.Bindings.ErrorCode.Structure.{to_optional, size_structure, size_option}
use particle_python_wheels.Bindings.Free.{
  string_free, option_string_free, option_u8_free, option_u16_free, option_u32_free,
  option_u64_free, field_size_payload_free, option_field_size_payload_free,
}

abbrev no_string : Slice
no_string = record { ptr = 0; len = 0 }

-- The block of a string that is not empty.
abbrev block : Slice → List ℕ
block s = if ltb 0 s.len then s.ptr ∷ [] else []

abbrev pub blocks : Option Slice → List ℕ
blocks none = []
blocks (some s) = block s

abbrev pub size_blocks : Option (Option Slice × Option ℕ) → List ℕ
size_blocks none = []
size_blocks (some r) = blocks r.0

abbrev pub emptied : Option Slice → Option Slice
emptied none = none
emptied (some s) = some no_string

abbrev pub emptied_size : Option Slice × Option ℕ → Option Slice × Option ℕ
emptied_size (name, size) = (emptied name, size)

abbrev pub emptied_option : Option (Option Slice × Option ℕ) → Option (Option Slice × Option ℕ)
emptied_option none = none
emptied_option (some r) = some (emptied_size r)

-- What an error has on the heap.
abbrev pub heap : ErrorValue → List ℕ
heap (ErrorValue.dns_error x y) = blocks x
heap (ErrorValue.tls_alert_received x y) = blocks y
heap (ErrorValue.http_request_header_size r) = size_blocks r
heap (ErrorValue.http_request_trailer_size r) = blocks r.0
heap (ErrorValue.http_response_header_size r) = blocks r.0
heap (ErrorValue.http_response_trailer_size r) = blocks r.0
heap (ErrorValue.http_response_transfer_coding x) = blocks x
heap (ErrorValue.http_response_content_coding x) = blocks x
heap (ErrorValue.internal_error x) = blocks x
heap _ = []

abbrev pub without_strings : ErrorValue → ErrorValue
without_strings (ErrorValue.dns_error x y) = ErrorValue.dns_error (emptied x) y
without_strings (ErrorValue.tls_alert_received x y) = ErrorValue.tls_alert_received x (emptied y)
without_strings (ErrorValue.http_request_header_size r) =
    ErrorValue.http_request_header_size (emptied_option r)
without_strings (ErrorValue.http_request_trailer_size r) =
    ErrorValue.http_request_trailer_size (emptied_size r)
without_strings (ErrorValue.http_response_header_size r) =
    ErrorValue.http_response_header_size (emptied_size r)
without_strings (ErrorValue.http_response_trailer_size r) =
    ErrorValue.http_response_trailer_size (emptied_size r)
without_strings (ErrorValue.http_response_transfer_coding x) =
    ErrorValue.http_response_transfer_coding (emptied x)
without_strings (ErrorValue.http_response_content_coding x) =
    ErrorValue.http_response_content_coding (emptied x)
without_strings (ErrorValue.internal_error x) = ErrorValue.internal_error (emptied x)
without_strings v = v

pub strings_lem :
    (x : Option Slice)
    → option_string_free (to_optional x) ≡ some (to_optional (emptied x), blocks x)
unfolding option_string_free string_free
strings_lem none = refl
strings_lem (some s) = refl

pub u8_lem : (x : Option ℕ) → option_u8_free (to_optional x) ≡ some (to_optional x, [])
unfolding option_u8_free
u8_lem none = refl
u8_lem (some n) = refl

pub u16_lem : (x : Option ℕ) → option_u16_free (to_optional x) ≡ some (to_optional x, [])
unfolding option_u16_free
u16_lem none = refl
u16_lem (some n) = refl

pub u32_lem : (x : Option ℕ) → option_u32_free (to_optional x) ≡ some (to_optional x, [])
unfolding option_u32_free
u32_lem none = refl
u32_lem (some n) = refl

pub u64_lem : (x : Option ℕ) → option_u64_free (to_optional x) ≡ some (to_optional x, [])
unfolding option_u64_free
u64_lem none = refl
u64_lem (some n) = refl

pub sizes_lem :
    (r : Option Slice × Option ℕ)
    → field_size_payload_free (size_structure r)
      ≡ some (size_structure (emptied_size r), blocks r.0)
unfolding field_size_payload_free
sizes_lem (name, size) =
    rw (field_size_payload_free, strings_lem name, u32_lem size, append-nil (blocks name)) refl

pub sizes_option_lem :
    (r : Option (Option Slice × Option ℕ))
    → option_field_size_payload_free (size_option r)
      ≡ some (size_option (emptied_option r), size_blocks r)
unfolding option_field_size_payload_free
sizes_option_lem none = refl
sizes_option_lem (some r) = rw (option_field_size_payload_free, sizes_lem r) refl
