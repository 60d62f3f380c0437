-- ===== src/Bindings/Outparam/Bounds.antt =====
-- The width of the numbers that wasi_http_types_static_response_outparam_set passes, for every error.
use particle_python_wheels.Prelude.{◌<◌, ◌^◌, ◌≡◌, refl, some, arith}
use particle_python_wheels.Bindings.Memory.{Handle}
use particle_python_wheels.Bindings.Abi.{Result, good, bad}
use particle_python_wheels.Bindings.ErrorCode.{Payload}
use particle_python_wheels.Bindings.ErrorCode.Value.{ErrorValue}
use particle_python_wheels.Bindings.ErrorCode.Structure.{structure}
use particle_python_wheels.Bindings.ErrorCode.Fits.{Fits}
use particle_python_wheels.Bindings.ErrorCode.Lower.{lower_error_code}
use particle_python_wheels.Bindings.Outparam.{Results, lower_response}
use particle_python_wheels.Bindings.Outparam.Response.{response_structure, FitsResponse}
use particle_python_wheels.Bindings.Outparam.PayloadBounds.{
  Lowers, plain-InRange, lower_u64-InRange, lower_u32-InRange, lower_option_string-InRange,
  lower_dns_error-InRange, lower_field_size-InRange, lower_tls_alert_received-InRange,
  lower_option_field_size-InRange,
}

lower_error_code-InRange :
    (rest : Payload) (v : ErrorValue) → Fits v → Lowers (lower_error_code (structure rest v))
unfolding lower_error_code structure
lower_error_code-InRange rest ErrorValue.dns_timeout h = plain-InRange 0 (omega arith)
lower_error_code-InRange rest (ErrorValue.dns_error x y) h = lower_dns_error-InRange x y h
lower_error_code-InRange rest ErrorValue.destination_not_found h = plain-InRange 2 (omega arith)
lower_error_code-InRange rest ErrorValue.destination_unavailable h = plain-InRange 3 (omega arith)
lower_error_code-InRange rest ErrorValue.destination_ip_prohibited h = plain-InRange 4 (omega arith)
lower_error_code-InRange rest ErrorValue.destination_ip_unroutable h = plain-InRange 5 (omega arith)
lower_error_code-InRange rest ErrorValue.connection_refused h = plain-InRange 6 (omega arith)
lower_error_code-InRange rest ErrorValue.connection_terminated h = plain-InRange 7 (omega arith)
lower_error_code-InRange rest ErrorValue.connection_timeout h = plain-InRange 8 (omega arith)
lower_error_code-InRange rest ErrorValue.connection_read_timeout h = plain-InRange 9 (omega arith)
lower_error_code-InRange rest ErrorValue.connection_write_timeout h = plain-InRange 10 (omega arith)
lower_error_code-InRange rest ErrorValue.connection_limit_reached h = plain-InRange 11 (omega arith)
lower_error_code-InRange rest ErrorValue.tls_protocol_error h = plain-InRange 12 (omega arith)
lower_error_code-InRange rest ErrorValue.tls_certificate_error h = plain-InRange 13 (omega arith)
lower_error_code-InRange rest (ErrorValue.tls_alert_received x y) h =
    lower_tls_alert_received-InRange x y h
lower_error_code-InRange rest ErrorValue.http_request_denied h = plain-InRange 15 (omega arith)
lower_error_code-InRange rest ErrorValue.http_request_length_required h =
    plain-InRange 16 (omega arith)
lower_error_code-InRange rest (ErrorValue.http_request_body_size x) h =
    lower_u64-InRange 17 x (omega arith) h
lower_error_code-InRange rest ErrorValue.http_request_method_invalid h =
    plain-InRange 18 (omega arith)
lower_error_code-InRange rest ErrorValue.http_request_uri_invalid h = plain-InRange 19 (omega arith)
lower_error_code-InRange rest ErrorValue.http_request_uri_too_long h =
    plain-InRange 20 (omega arith)
lower_error_code-InRange rest (ErrorValue.http_request_header_section_size x) h =
    lower_u32-InRange 21 x (omega arith) h
lower_error_code-InRange rest (ErrorValue.http_request_header_size r) h =
    lower_option_field_size-InRange r h
lower_error_code-InRange rest (ErrorValue.http_request_trailer_section_size x) h =
    lower_u32-InRange 23 x (omega arith) h
lower_error_code-InRange rest (ErrorValue.http_request_trailer_size r) h =
    lower_field_size-InRange 24 r (omega arith) h
lower_error_code-InRange rest ErrorValue.http_response_incomplete h = plain-InRange 25 (omega arith)
lower_error_code-InRange rest (ErrorValue.http_response_header_section_size x) h =
    lower_u32-InRange 26 x (omega arith) h
lower_error_code-InRange rest (ErrorValue.http_response_header_size r) h =
    lower_field_size-InRange 27 r (omega arith) h
lower_error_code-InRange rest (ErrorValue.http_response_body_size x) h =
    lower_u64-InRange 28 x (omega arith) h
lower_error_code-InRange rest (ErrorValue.http_response_trailer_section_size x) h =
    lower_u32-InRange 29 x (omega arith) h
lower_error_code-InRange rest (ErrorValue.http_response_trailer_size r) h =
    lower_field_size-InRange 30 r (omega arith) h
lower_error_code-InRange rest (ErrorValue.http_response_transfer_coding x) h =
    lower_option_string-InRange 31 x (omega arith) h
lower_error_code-InRange rest (ErrorValue.http_response_content_coding x) h =
    lower_option_string-InRange 32 x (omega arith) h
lower_error_code-InRange rest ErrorValue.http_response_timeout h = plain-InRange 33 (omega arith)
lower_error_code-InRange rest ErrorValue.http_upgrade_failed h = plain-InRange 34 (omega arith)
lower_error_code-InRange rest ErrorValue.http_protocol_error h = plain-InRange 35 (omega arith)
lower_error_code-InRange rest ErrorValue.loop_detected h = plain-InRange 36 (omega arith)
lower_error_code-InRange rest ErrorValue.configuration_error h = plain-InRange 37 (omega arith)
lower_error_code-InRange rest (ErrorValue.internal_error x) h =
    lower_option_string-InRange 38 x (omega arith) h

-- The arguments of the import are numbers of its types: result148 is an int64_t.
pub record ResultsInRange (r : Results) : Type 0 where
  pub result : r.result < 2
  pub result146 : r.result146 < 2 ^ 32
  pub result147 : r.result147 < 2 ^ 32
  pub result148 : r.result148 < 2 ^ 64
  pub result149 : r.result149 < 2 ^ 32
  pub result150 : r.result150 < 2 ^ 32
  pub result151 : r.result151 < 2 ^ 32
  pub result152 : r.result152 < 2 ^ 32

-- For every response or error code whose numbers have their width, whatever the union has where the
-- value's case has no member: every argument is assigned before it is passed, the first one is 0 or 1,
-- the fourth one fits into 64 bits and each other one into 32 bits, as the types of the import say; so
-- no cast loses a digit.
pub lower_response-InRange :
    (rest : Payload) (response : Result Handle ErrorValue)
    → FitsResponse response
    → (r : Results) × (lower_response (response_structure rest response) ≡ some r)
      × ResultsInRange r
unfolding lower_response
lower_response-InRange rest (good handle) h = (
  _,
  refl,
  record {
    result = omega arith;
    result146 = h;
    result147 = omega arith;
    result148 = omega arith;
    result149 = omega arith;
    result150 = omega arith;
    result151 = omega arith;
    result152 = omega arith;
  },
)
lower_response-InRange rest (bad v) h =
    let (n, lowered, i) = lower_error_code-InRange rest v h in
    rw (lower_response, lowered)
      (
        _,
        refl,
        record {
          result = omega arith;
          result146 = i.variant;
          result147 = i.variant140;
          result148 = i.variant141;
          result149 = i.variant142;
          result150 = i.variant143;
          result151 = i.variant144;
          result152 = i.variant145;
        },
      )
