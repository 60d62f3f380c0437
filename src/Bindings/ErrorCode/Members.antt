-- ===== src/Bindings/ErrorCode/Members.antt =====
-- The members of the union in wasi_http_types_error_code_t of duckdb-httpfs-wasi/http_client.h, as C code
-- reads them: nothing, if another member was assigned last.
use particle_python_wheels.Prelude.{ℕ, Option, some, none}
use particle_python_wheels.Bindings.Memory.{Slice, Optional}
use particle_python_wheels.Bindings.ErrorCode.{
  DnsErrorPayload, TlsAlertReceivedPayload, FieldSizePayload, Payload,
}

abbrev pub to_dns_error : Payload → Option DnsErrorPayload
to_dns_error (Payload.dns_error x) = some x
to_dns_error _ = none

abbrev pub to_tls_alert_received : Payload → Option TlsAlertReceivedPayload
to_tls_alert_received (Payload.tls_alert_received x) = some x
to_tls_alert_received _ = none

abbrev pub to_http_request_body_size : Payload → Option (Optional ℕ)
to_http_request_body_size (Payload.http_request_body_size x) = some x
to_http_request_body_size _ = none

abbrev pub to_http_request_header_section_size : Payload → Option (Optional ℕ)
to_http_request_header_section_size (Payload.http_request_header_section_size x) = some x
to_http_request_header_section_size _ = none

abbrev pub to_http_request_header_size : Payload → Option (Optional FieldSizePayload)
to_http_request_header_size (Payload.http_request_header_size x) = some x
to_http_request_header_size _ = none

abbrev pub to_http_request_trailer_section_size : Payload → Option (Optional ℕ)
to_http_request_trailer_section_size (Payload.http_request_trailer_section_size x) = some x
to_http_request_trailer_section_size _ = none

abbrev pub to_http_request_trailer_size : Payload → Option FieldSizePayload
to_http_request_trailer_size (Payload.http_request_trailer_size x) = some x
to_http_request_trailer_size _ = none

abbrev pub to_http_response_header_section_size : Payload → Option (Optional ℕ)
to_http_response_header_section_size (Payload.http_response_header_section_size x) = some x
to_http_response_header_section_size _ = none

abbrev pub to_http_response_header_size : Payload → Option FieldSizePayload
to_http_response_header_size (Payload.http_response_header_size x) = some x
to_http_response_header_size _ = none

abbrev pub to_http_response_body_size : Payload → Option (Optional ℕ)
to_http_response_body_size (Payload.http_response_body_size x) = some x
to_http_response_body_size _ = none

abbrev pub to_http_response_trailer_section_size : Payload → Option (Optional ℕ)
to_http_response_trailer_section_size (Payload.http_response_trailer_section_size x) = some x
to_http_response_trailer_section_size _ = none

abbrev pub to_http_response_trailer_size : Payload → Option FieldSizePayload
to_http_response_trailer_size (Payload.http_response_trailer_size x) = some x
to_http_response_trailer_size _ = none

abbrev pub to_http_response_transfer_coding : Payload → Option (Optional Slice)
to_http_response_transfer_coding (Payload.http_response_transfer_coding x) = some x
to_http_response_transfer_coding _ = none

abbrev pub to_http_response_content_coding : Payload → Option (Optional Slice)
to_http_response_content_coding (Payload.http_response_content_coding x) = some x
to_http_response_content_coding _ = none

abbrev pub to_internal_error : Payload → Option (Optional Slice)
to_internal_error (Payload.internal_error x) = some x
to_internal_error _ = none
