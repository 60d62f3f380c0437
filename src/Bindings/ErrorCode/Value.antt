-- ===== src/Bindings/ErrorCode/Value.antt =====
-- The WIT type `error-code` of wasi:http, what each of its cases carries, and what value a
-- wasi_http_types_error_code_t of duckdb-httpfs-wasi/http_client.h stands for.
use particle_python_wheels.Prelude.{ℕ, List, [], ◌∷◌, Option, none, some, get_elem?}
use particle_python_wheels.Bindings.Memory.{Slice, Optional}
use particle_python_wheels.Bindings.Abi.{Wit, bind, as_wit, variant, view_option}
use particle_python_wheels.Bindings.Abi
use particle_python_wheels.Bindings.ErrorCode.{FieldSizePayload, Payload, ErrorCode}

pub data ErrorValue : Type 0 where
  dns_timeout : ErrorValue
  dns_error : Option Slice → Option ℕ → ErrorValue
  destination_not_found destination_unavailable : ErrorValue
  destination_ip_prohibited destination_ip_unroutable : ErrorValue
  connection_refused connection_terminated connection_timeout : ErrorValue
  connection_read_timeout connection_write_timeout connection_limit_reached : ErrorValue
  tls_protocol_error tls_certificate_error : ErrorValue
  tls_alert_received : Option ℕ → Option Slice → ErrorValue
  http_request_denied http_request_length_required : ErrorValue
  http_request_body_size : Option ℕ → ErrorValue
  http_request_method_invalid http_request_uri_invalid http_request_uri_too_long : ErrorValue
  http_request_header_section_size : Option ℕ → ErrorValue
  http_request_header_size : Option (Option Slice × Option ℕ) → ErrorValue
  http_request_trailer_section_size : Option ℕ → ErrorValue
  http_request_trailer_size : Option Slice × Option ℕ → ErrorValue
  http_response_incomplete : ErrorValue
  http_response_header_section_size : Option ℕ → ErrorValue
  http_response_header_size : Option Slice × Option ℕ → ErrorValue
  http_response_body_size http_response_trailer_section_size : Option ℕ → ErrorValue
  http_response_trailer_size : Option Slice × Option ℕ → ErrorValue
  http_response_transfer_coding http_response_content_coding : Option Slice → ErrorValue
  http_response_timeout http_upgrade_failed http_protocol_error : ErrorValue
  loop_detected configuration_error : ErrorValue
  internal_error : Option Slice → ErrorValue

abbrev plain_wit : ErrorValue → Wit ErrorValue
plain_wit v = as_wit (λ _. v) Abi.nothing

abbrev pub field_size : Wit (Option Slice × Option ℕ)
field_size = Abi.pair (λ a b. (a, b)) (Abi.option Abi.slice) (Abi.option Abi.u32)

-- The cases of `error-code`, in the order of its declaration.
abbrev pub error_wits : List (Wit ErrorValue)
error_wits =
    plain_wit ErrorValue.dns_timeout
    ∷ Abi.pair ErrorValue.dns_error (Abi.option Abi.slice) (Abi.option Abi.u16)
    ∷ plain_wit ErrorValue.destination_not_found
    ∷ plain_wit ErrorValue.destination_unavailable
    ∷ plain_wit ErrorValue.destination_ip_prohibited
    ∷ plain_wit ErrorValue.destination_ip_unroutable
    ∷ plain_wit ErrorValue.connection_refused
    ∷ plain_wit ErrorValue.connection_terminated
    ∷ plain_wit ErrorValue.connection_timeout
    ∷ plain_wit ErrorValue.connection_read_timeout
    ∷ plain_wit ErrorValue.connection_write_timeout
    ∷ plain_wit ErrorValue.connection_limit_reached
    ∷ plain_wit ErrorValue.tls_protocol_error
    ∷ plain_wit ErrorValue.tls_certificate_error
    ∷ Abi.pair ErrorValue.tls_alert_received (Abi.option Abi.u8) (Abi.option Abi.slice)
    ∷ plain_wit ErrorValue.http_request_denied
    ∷ plain_wit ErrorValue.http_request_length_required
    ∷ as_wit ErrorValue.http_request_body_size (Abi.option Abi.u64)
    ∷ plain_wit ErrorValue.http_request_method_invalid
    ∷ plain_wit ErrorValue.http_request_uri_invalid
    ∷ plain_wit ErrorValue.http_request_uri_too_long
    ∷ as_wit ErrorValue.http_request_header_section_size (Abi.option Abi.u32)
    ∷ as_wit ErrorValue.http_request_header_size (Abi.option field_size)
    ∷ as_wit ErrorValue.http_request_trailer_section_size (Abi.option Abi.u32)
    ∷ as_wit ErrorValue.http_request_trailer_size field_size
    ∷ plain_wit ErrorValue.http_response_incomplete
    ∷ as_wit ErrorValue.http_response_header_section_size (Abi.option Abi.u32)
    ∷ as_wit ErrorValue.http_response_header_size field_size
    ∷ as_wit ErrorValue.http_response_body_size (Abi.option Abi.u64)
    ∷ as_wit ErrorValue.http_response_trailer_section_size (Abi.option Abi.u32)
    ∷ as_wit ErrorValue.http_response_trailer_size field_size
    ∷ as_wit ErrorValue.http_response_transfer_coding (Abi.option Abi.slice)
    ∷ as_wit ErrorValue.http_response_content_coding (Abi.option Abi.slice)
    ∷ plain_wit ErrorValue.http_response_timeout
    ∷ plain_wit ErrorValue.http_upgrade_failed
    ∷ plain_wit ErrorValue.http_protocol_error
    ∷ plain_wit ErrorValue.loop_detected
    ∷ plain_wit ErrorValue.configuration_error
    ∷ as_wit ErrorValue.internal_error (Abi.option Abi.slice)
    ∷ []

abbrev pub error_code : Wit ErrorValue
error_code = variant error_wits

abbrev pub view_pair :
    {A B C : Type 0} → (Option A → Option B → C) → Optional A → Optional B → Option C
view_pair f x y = bind (view_option some x) (λ a. bind (view_option some y) (λ b. some (f a b)))

abbrev pub view_field_size : FieldSizePayload → Option (Option Slice × Option ℕ)
view_field_size r = view_pair (λ a b. (a, b)) r.field_name r.field_size

-- One optional value under a constructor.
abbrev pub view_one : {A : Type 0} → (Option A → ErrorValue) → Optional A → Option ErrorValue
view_one f x = bind (view_option some x) (λ a. some (f a))

abbrev pub view_size : (Option Slice × Option ℕ → ErrorValue) → FieldSizePayload → Option ErrorValue
view_size f r = bind (view_field_size r) (λ a. some (f a))

-- What the member of the union means that a tag selects; nothing, if another one was assigned.
abbrev pub view_payload : Payload → Option ErrorValue
view_payload Payload.uninit = none
view_payload (Payload.dns_error r) = view_pair ErrorValue.dns_error r.rcode r.info_code
view_payload (Payload.tls_alert_received r) =
    view_pair ErrorValue.tls_alert_received r.alert_id r.alert_message
view_payload (Payload.http_request_body_size x) = view_one ErrorValue.http_request_body_size x
view_payload (Payload.http_request_header_section_size x) =
    view_one ErrorValue.http_request_header_section_size x
view_payload (Payload.http_request_header_size x) =
    bind (view_option view_field_size x) (λ a. some (ErrorValue.http_request_header_size a))
view_payload (Payload.http_request_trailer_section_size x) =
    view_one ErrorValue.http_request_trailer_section_size x
view_payload (Payload.http_request_trailer_size r) =
    view_size ErrorValue.http_request_trailer_size r
view_payload (Payload.http_response_header_section_size x) =
    view_one ErrorValue.http_response_header_section_size x
view_payload (Payload.http_response_header_size r) =
    view_size ErrorValue.http_response_header_size r
view_payload (Payload.http_response_body_size x) = view_one ErrorValue.http_response_body_size x
view_payload (Payload.http_response_trailer_section_size x) =
    view_one ErrorValue.http_response_trailer_section_size x
view_payload (Payload.http_response_trailer_size r) =
    view_size ErrorValue.http_response_trailer_size r
view_payload (Payload.http_response_transfer_coding x) =
    view_one ErrorValue.http_response_transfer_coding x
view_payload (Payload.http_response_content_coding x) =
    view_one ErrorValue.http_response_content_coding x
view_payload (Payload.internal_error x) = view_one ErrorValue.internal_error x

-- A case without a payload reads no member.
abbrev pub plain : ErrorValue → Payload → Option ErrorValue
plain v payload = some v

-- What the union means for each tag.
abbrev pub views : List (Payload → Option ErrorValue)
views =
    plain ErrorValue.dns_timeout
    ∷ view_payload
    ∷ plain ErrorValue.destination_not_found
    ∷ plain ErrorValue.destination_unavailable
    ∷ plain ErrorValue.destination_ip_prohibited
    ∷ plain ErrorValue.destination_ip_unroutable
    ∷ plain ErrorValue.connection_refused
    ∷ plain ErrorValue.connection_terminated
    ∷ plain ErrorValue.connection_timeout
    ∷ plain ErrorValue.connection_read_timeout
    ∷ plain ErrorValue.connection_write_timeout
    ∷ plain ErrorValue.connection_limit_reached
    ∷ plain ErrorValue.tls_protocol_error
    ∷ plain ErrorValue.tls_certificate_error
    ∷ view_payload
    ∷ plain ErrorValue.http_request_denied
    ∷ plain ErrorValue.http_request_length_required
    ∷ view_payload
    ∷ plain ErrorValue.http_request_method_invalid
    ∷ plain ErrorValue.http_request_uri_invalid
    ∷ plain ErrorValue.http_request_uri_too_long
    ∷ view_payload
    ∷ view_payload
    ∷ view_payload
    ∷ view_payload
    ∷ plain ErrorValue.http_response_incomplete
    ∷ view_payload
    ∷ view_payload
    ∷ view_payload
    ∷ view_payload
    ∷ view_payload
    ∷ view_payload
    ∷ view_payload
    ∷ plain ErrorValue.http_response_timeout
    ∷ plain ErrorValue.http_upgrade_failed
    ∷ plain ErrorValue.http_protocol_error
    ∷ plain ErrorValue.loop_detected
    ∷ plain ErrorValue.configuration_error
    ∷ view_payload
    ∷ []

abbrev pub view_error : ErrorCode → Option ErrorValue
view_error e = bind (get_elem? views e.tag) (λ view. view e.val)
