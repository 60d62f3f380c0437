-- ===== src/Bindings/ErrorCode/Structure.antt =====
-- The wasi_http_types_error_code_t of duckdb-httpfs-wasi/http_client.h that stands for a value of the WIT
-- type `error-code`.
use particle_python_wheels.Prelude.{ℕ, Option, some, none}
use particle_python_wheels.Bindings.Memory.{Slice, Optional}
use particle_python_wheels.Bindings.ErrorCode.{FieldSizePayload, Payload, ErrorCode}
use particle_python_wheels.Bindings.ErrorCode.Value.{ErrorValue}

abbrev pub to_optional : {A : Type 0} → Option A → Optional A
to_optional none = Optional.absent
to_optional (some x) = Optional.present x

abbrev pub size_structure : Option Slice × Option ℕ → FieldSizePayload
size_structure (name, size) = record {
  field_name = to_optional name;
  field_size = to_optional size;
}

abbrev pub size_option : Option (Option Slice × Option ℕ) → Optional FieldSizePayload
size_option none = Optional.absent
size_option (some r) = Optional.present (size_structure r)

abbrev plain : ℕ → Payload → ErrorCode
plain tag rest = record { tag = tag; val = rest }

-- `rest` is what the union happens to have where the case has no member of it.
unfoldable pub structure : Payload → ErrorValue → ErrorCode
structure rest ErrorValue.dns_timeout = plain 0 rest
structure rest (ErrorValue.dns_error x y) =
    plain 1 (Payload.dns_error (record { rcode = to_optional x; info_code = to_optional y }))
structure rest ErrorValue.destination_not_found = plain 2 rest
structure rest ErrorValue.destination_unavailable = plain 3 rest
structure rest ErrorValue.destination_ip_prohibited = plain 4 rest
structure rest ErrorValue.destination_ip_unroutable = plain 5 rest
structure rest ErrorValue.connection_refused = plain 6 rest
structure rest ErrorValue.connection_terminated = plain 7 rest
structure rest ErrorValue.connection_timeout = plain 8 rest
structure rest ErrorValue.connection_read_timeout = plain 9 rest
structure rest ErrorValue.connection_write_timeout = plain 10 rest
structure rest ErrorValue.connection_limit_reached = plain 11 rest
structure rest ErrorValue.tls_protocol_error = plain 12 rest
structure rest ErrorValue.tls_certificate_error = plain 13 rest
structure rest (ErrorValue.tls_alert_received x y) = plain 14 (
    Payload.tls_alert_received (record { alert_id = to_optional x; alert_message = to_optional y }))
structure rest ErrorValue.http_request_denied = plain 15 rest
structure rest ErrorValue.http_request_length_required = plain 16 rest
structure rest (ErrorValue.http_request_body_size x) =
    plain 17 (Payload.http_request_body_size (to_optional x))
structure rest ErrorValue.http_request_method_invalid = plain 18 rest
structure rest ErrorValue.http_request_uri_invalid = plain 19 rest
structure rest ErrorValue.http_request_uri_too_long = plain 20 rest
structure rest (ErrorValue.http_request_header_section_size x) =
    plain 21 (Payload.http_request_header_section_size (to_optional x))
structure rest (ErrorValue.http_request_header_size x) =
    plain 22 (Payload.http_request_header_size (size_option x))
structure rest (ErrorValue.http_request_trailer_section_size x) =
    plain 23 (Payload.http_request_trailer_section_size (to_optional x))
structure rest (ErrorValue.http_request_trailer_size x) =
    plain 24 (Payload.http_request_trailer_size (size_structure x))
structure rest ErrorValue.http_response_incomplete = plain 25 rest
structure rest (ErrorValue.http_response_header_section_size x) =
    plain 26 (Payload.http_response_header_section_size (to_optional x))
structure rest (ErrorValue.http_response_header_size x) =
    plain 27 (Payload.http_response_header_size (size_structure x))
structure rest (ErrorValue.http_response_body_size x) =
    plain 28 (Payload.http_response_body_size (to_optional x))
structure rest (ErrorValue.http_response_trailer_section_size x) =
    plain 29 (Payload.http_response_trailer_section_size (to_optional x))
structure rest (ErrorValue.http_response_trailer_size x) =
    plain 30 (Payload.http_response_trailer_size (size_structure x))
structure rest (ErrorValue.http_response_transfer_coding x) =
    plain 31 (Payload.http_response_transfer_coding (to_optional x))
structure rest (ErrorValue.http_response_content_coding x) =
    plain 32 (Payload.http_response_content_coding (to_optional x))
structure rest ErrorValue.http_response_timeout = plain 33 rest
structure rest ErrorValue.http_upgrade_failed = plain 34 rest
structure rest ErrorValue.http_protocol_error = plain 35 rest
structure rest ErrorValue.loop_detected = plain 36 rest
structure rest ErrorValue.configuration_error = plain 37 rest
structure rest (ErrorValue.internal_error x) = plain 38 (Payload.internal_error (to_optional x))
