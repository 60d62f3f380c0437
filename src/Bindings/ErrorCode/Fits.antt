-- ===== src/Bindings/ErrorCode/Fits.antt =====
-- The values of the WIT type `error-code` whose numbers have their width.
use particle_python_wheels.Prelude.{ℕ, ◌<◌, ◌^◌, Option, some, none}
use particle_python_wheels.Bindings.Memory.{Slice}
use particle_python_wheels.Bindings.ErrorCode.Value.{ErrorValue}

-- A number of so many bits.
abbrev pub FitsNumber : ℕ → Option ℕ → Type 0
FitsNumber bits none = Unit {0}
FitsNumber bits (some n) = n < 2 ^ bits

abbrev pub FitsString : Option Slice → Type 0
FitsString none = Unit {0}
FitsString (some s) = (s.ptr < 2 ^ 32) × (s.len < 2 ^ 32)

abbrev pub FitsSize : Option Slice × Option ℕ → Type 0
FitsSize (name, size) = FitsString name × FitsNumber 32 size

abbrev pub FitsOption : Option (Option Slice × Option ℕ) → Type 0
FitsOption none = Unit {0}
FitsOption (some r) = FitsSize r

abbrev pub Fits : ErrorValue → Type 0
Fits (ErrorValue.dns_error x y) = FitsString x × FitsNumber 16 y
Fits (ErrorValue.tls_alert_received x y) = FitsNumber 8 x × FitsString y
Fits (ErrorValue.http_request_body_size x) = FitsNumber 64 x
Fits (ErrorValue.http_request_header_section_size x) = FitsNumber 32 x
Fits (ErrorValue.http_request_header_size r) = FitsOption r
Fits (ErrorValue.http_request_trailer_section_size x) = FitsNumber 32 x
Fits (ErrorValue.http_request_trailer_size r) = FitsSize r
Fits (ErrorValue.http_response_header_section_size x) = FitsNumber 32 x
Fits (ErrorValue.http_response_header_size r) = FitsSize r
Fits (ErrorValue.http_response_body_size x) = FitsNumber 64 x
Fits (ErrorValue.http_response_trailer_section_size x) = FitsNumber 32 x
Fits (ErrorValue.http_response_trailer_size r) = FitsSize r
Fits (ErrorValue.http_response_transfer_coding x) = FitsString x
Fits (ErrorValue.http_response_content_coding x) = FitsString x
Fits (ErrorValue.internal_error x) = FitsString x
Fits _ = Unit {0}
