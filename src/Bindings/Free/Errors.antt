-- ===== src/Bindings/Free/Errors.antt =====
-- The freeing of an error code: what is freed, and what is left.
use mathlib.Core.List.{append-nil}
use particle_python_wheels.Prelude.{◌≡◌, refl, some, none}
use particle_python_wheels.Bindings.ErrorCode.{Payload}
use particle_python_wheels.Bindings.ErrorCode.Value.{ErrorValue, view_error}
use particle_python_wheels.Bindings.ErrorCode.Structure.{structure}
use particle_python_wheels.Bindings.Free.{
  dns_error_payload_free, tls_alert_received_payload_free, error_code_free,
}
use particle_python_wheels.Bindings.Free.Strings.{
  heap, without_strings, blocks, strings_lem, u8_lem, u16_lem, u32_lem, u64_lem, sizes_lem,
  sizes_option_lem,
}

-- The structure of a value stands for the value.
pub view_lem : (rest : Payload) (v : ErrorValue) → view_error (structure rest v) ≡ some v
unfolding structure
view_lem rest ErrorValue.dns_timeout = refl
view_lem rest (ErrorValue.dns_error none none) = refl
view_lem rest (ErrorValue.dns_error none (some n)) = refl
view_lem rest (ErrorValue.dns_error (some s) none) = refl
view_lem rest (ErrorValue.dns_error (some s) (some n)) = refl
view_lem rest ErrorValue.destination_not_found = refl
view_lem rest ErrorValue.destination_unavailable = refl
view_lem rest ErrorValue.destination_ip_prohibited = refl
view_lem rest ErrorValue.destination_ip_unroutable = refl
view_lem rest ErrorValue.connection_refused = refl
view_lem rest ErrorValue.connection_terminated = refl
view_lem rest ErrorValue.connection_timeout = refl
view_lem rest ErrorValue.connection_read_timeout = refl
view_lem rest ErrorValue.connection_write_timeout = refl
view_lem rest ErrorValue.connection_limit_reached = refl
view_lem rest ErrorValue.tls_protocol_error = refl
view_lem rest ErrorValue.tls_certificate_error = refl
view_lem rest (ErrorValue.tls_alert_received none none) = refl
view_lem rest (ErrorValue.tls_alert_received none (some n)) = refl
view_lem rest (ErrorValue.tls_alert_received (some s) none) = refl
view_lem rest (ErrorValue.tls_alert_received (some s) (some n)) = refl
view_lem rest ErrorValue.http_request_denied = refl
view_lem rest ErrorValue.http_request_length_required = refl
view_lem rest (ErrorValue.http_request_body_size none) = refl
view_lem rest (ErrorValue.http_request_body_size (some n)) = refl
view_lem rest ErrorValue.http_request_method_invalid = refl
view_lem rest ErrorValue.http_request_uri_invalid = refl
view_lem rest ErrorValue.http_request_uri_too_long = refl
view_lem rest (ErrorValue.http_request_header_section_size none) = refl
view_lem rest (ErrorValue.http_request_header_section_size (some n)) = refl
view_lem rest (ErrorValue.http_request_header_size none) = refl
view_lem rest (ErrorValue.http_request_header_size (some (none, none))) = refl
view_lem rest (ErrorValue.http_request_header_size (some (none, some n))) = refl
view_lem rest (ErrorValue.http_request_header_size (some (some s, none))) = refl
view_lem rest (ErrorValue.http_request_header_size (some (some s, some n))) = refl
view_lem rest (ErrorValue.http_request_trailer_section_size none) = refl
view_lem rest (ErrorValue.http_request_trailer_section_size (some n)) = refl
view_lem rest (ErrorValue.http_request_trailer_size (none, none)) = refl
view_lem rest (ErrorValue.http_request_trailer_size (none, some n)) = refl
view_lem rest (ErrorValue.http_request_trailer_size (some s, none)) = refl
view_lem rest (ErrorValue.http_request_trailer_size (some s, some n)) = refl
view_lem rest ErrorValue.http_response_incomplete = refl
view_lem rest (ErrorValue.http_response_header_section_size none) = refl
view_lem rest (ErrorValue.http_response_header_section_size (some n)) = refl
view_lem rest (ErrorValue.http_response_header_size (none, none)) = refl
view_lem rest (ErrorValue.http_response_header_size (none, some n)) = refl
view_lem rest (ErrorValue.http_response_header_size (some s, none)) = refl
view_lem rest (ErrorValue.http_response_header_size (some s, some n)) = refl
view_lem rest (ErrorValue.http_response_body_size none) = refl
view_lem rest (ErrorValue.http_response_body_size (some n)) = refl
view_lem rest (ErrorValue.http_response_trailer_section_size none) = refl
view_lem rest (ErrorValue.http_response_trailer_section_size (some n)) = refl
view_lem rest (ErrorValue.http_response_trailer_size (none, none)) = refl
view_lem rest (ErrorValue.http_response_trailer_size (none, some n)) = refl
view_lem rest (ErrorValue.http_response_trailer_size (some s, none)) = refl
view_lem rest (ErrorValue.http_response_trailer_size (some s, some n)) = refl
view_lem rest (ErrorValue.http_response_transfer_coding none) = refl
view_lem rest (ErrorValue.http_response_transfer_coding (some n)) = refl
view_lem rest (ErrorValue.http_response_content_coding none) = refl
view_lem rest (ErrorValue.http_response_content_coding (some n)) = refl
view_lem rest ErrorValue.http_response_timeout = refl
view_lem rest ErrorValue.http_upgrade_failed = refl
view_lem rest ErrorValue.http_protocol_error = refl
view_lem rest ErrorValue.loop_detected = refl
view_lem rest ErrorValue.configuration_error = refl
view_lem rest (ErrorValue.internal_error none) = refl
view_lem rest (ErrorValue.internal_error (some n)) = refl

pub free_lem :
    (rest : Payload) (v : ErrorValue)
    → error_code_free (structure rest v) ≡ some (structure rest (without_strings v), heap v)
unfolding structure error_code_free
free_lem rest ErrorValue.dns_timeout = refl
free_lem rest (ErrorValue.dns_error x y) =
    rw (error_code_free, dns_error_payload_free, strings_lem x, u16_lem y, append-nil (blocks x))
      refl
free_lem rest ErrorValue.destination_not_found = refl
free_lem rest ErrorValue.destination_unavailable = refl
free_lem rest ErrorValue.destination_ip_prohibited = refl
free_lem rest ErrorValue.destination_ip_unroutable = refl
free_lem rest ErrorValue.connection_refused = refl
free_lem rest ErrorValue.connection_terminated = refl
free_lem rest ErrorValue.connection_timeout = refl
free_lem rest ErrorValue.connection_read_timeout = refl
free_lem rest ErrorValue.connection_write_timeout = refl
free_lem rest ErrorValue.connection_limit_reached = refl
free_lem rest ErrorValue.tls_protocol_error = refl
free_lem rest ErrorValue.tls_certificate_error = refl
free_lem rest (ErrorValue.tls_alert_received x y) =
    rw (error_code_free, tls_alert_received_payload_free, strings_lem y, u8_lem x) refl
free_lem rest ErrorValue.http_request_denied = refl
free_lem rest ErrorValue.http_request_length_required = refl
free_lem rest (ErrorValue.http_request_body_size x) = rw (error_code_free, u64_lem x) refl
free_lem rest ErrorValue.http_request_method_invalid = refl
free_lem rest ErrorValue.http_request_uri_invalid = refl
free_lem rest ErrorValue.http_request_uri_too_long = refl
free_lem rest (ErrorValue.http_request_header_section_size x) = rw (error_code_free, u32_lem x) refl
free_lem rest (ErrorValue.http_request_header_size x) =
    rw (error_code_free, sizes_option_lem x) refl
free_lem rest (ErrorValue.http_request_trailer_section_size x) =
    rw (error_code_free, u32_lem x) refl
free_lem rest (ErrorValue.http_request_trailer_size x) = rw (error_code_free, sizes_lem x) refl
free_lem rest ErrorValue.http_response_incomplete = refl
free_lem rest (ErrorValue.http_response_header_section_size x) =
    rw (error_code_free, u32_lem x) refl
free_lem rest (ErrorValue.http_response_header_size x) = rw (error_code_free, sizes_lem x) refl
free_lem rest (ErrorValue.http_response_body_size x) = rw (error_code_free, u64_lem x) refl
free_lem rest (ErrorValue.http_response_trailer_section_size x) =
    rw (error_code_free, u32_lem x) refl
free_lem rest (ErrorValue.http_response_trailer_size x) = rw (error_code_free, sizes_lem x) refl
free_lem rest (ErrorValue.http_response_transfer_coding x) =
    rw (error_code_free, strings_lem x) refl
free_lem rest (ErrorValue.http_response_content_coding x) = rw (error_code_free, strings_lem x) refl
free_lem rest ErrorValue.http_response_timeout = refl
free_lem rest ErrorValue.http_upgrade_failed = refl
free_lem rest ErrorValue.http_protocol_error = refl
free_lem rest ErrorValue.loop_detected = refl
free_lem rest ErrorValue.configuration_error = refl
free_lem rest (ErrorValue.internal_error x) = rw (error_code_free, strings_lem x) refl
