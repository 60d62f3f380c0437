-- ===== src/Bindings/Free/Again.antt =====
-- A second freeing of an error code.
use particle_python_wheels.Prelude.{ℕ, ◌≡◌, refl, ap, ◌∙◌, List, [], some, none}
use particle_python_wheels.Bindings.ErrorCode.{Payload}
use particle_python_wheels.Bindings.ErrorCode.Value.{ErrorValue, view_error}
use particle_python_wheels.Bindings.ErrorCode.Structure.{structure}
use particle_python_wheels.Bindings.Free.{error_code_free}
use particle_python_wheels.Bindings.Free.Strings.{heap, without_strings}
use particle_python_wheels.Bindings.Free.Errors.{view_lem, free_lem}

-- What was emptied has nothing on the heap, and is not changed by emptying it.
emptied_lem :
    (v : ErrorValue)
    → (heap (without_strings v) ≡ []) × (without_strings (without_strings v) ≡ without_strings v)
emptied_lem ErrorValue.dns_timeout = (refl, refl)
emptied_lem (ErrorValue.dns_error none y) = (refl, refl)
emptied_lem (ErrorValue.dns_error (some s) y) = (refl, refl)
emptied_lem ErrorValue.destination_not_found = (refl, refl)
emptied_lem ErrorValue.destination_unavailable = (refl, refl)
emptied_lem ErrorValue.destination_ip_prohibited = (refl, refl)
emptied_lem ErrorValue.destination_ip_unroutable = (refl, refl)
emptied_lem ErrorValue.connection_refused = (refl, refl)
emptied_lem ErrorValue.connection_terminated = (refl, refl)
emptied_lem ErrorValue.connection_timeout = (refl, refl)
emptied_lem ErrorValue.connection_read_timeout = (refl, refl)
emptied_lem ErrorValue.connection_write_timeout = (refl, refl)
emptied_lem ErrorValue.connection_limit_reached = (refl, refl)
emptied_lem ErrorValue.tls_protocol_error = (refl, refl)
emptied_lem ErrorValue.tls_certificate_error = (refl, refl)
emptied_lem (ErrorValue.tls_alert_received x none) = (refl, refl)
emptied_lem (ErrorValue.tls_alert_received x (some s)) = (refl, refl)
emptied_lem ErrorValue.http_request_denied = (refl, refl)
emptied_lem ErrorValue.http_request_length_required = (refl, refl)
emptied_lem (ErrorValue.http_request_body_size x) = (refl, refl)
emptied_lem ErrorValue.http_request_method_invalid = (refl, refl)
emptied_lem ErrorValue.http_request_uri_invalid = (refl, refl)
emptied_lem ErrorValue.http_request_uri_too_long = (refl, refl)
emptied_lem (ErrorValue.http_request_header_section_size x) = (refl, refl)
emptied_lem (ErrorValue.http_request_header_size none) = (refl, refl)
emptied_lem (ErrorValue.http_request_header_size (some (none, y))) = (refl, refl)
emptied_lem (ErrorValue.http_request_header_size (some (some s, y))) = (refl, refl)
emptied_lem (ErrorValue.http_request_trailer_section_size x) = (refl, refl)
emptied_lem (ErrorValue.http_request_trailer_size (none, y)) = (refl, refl)
emptied_lem (ErrorValue.http_request_trailer_size (some s, y)) = (refl, refl)
emptied_lem ErrorValue.http_response_incomplete = (refl, refl)
emptied_lem (ErrorValue.http_response_header_section_size x) = (refl, refl)
emptied_lem (ErrorValue.http_response_header_size (none, y)) = (refl, refl)
emptied_lem (ErrorValue.http_response_header_size (some s, y)) = (refl, refl)
emptied_lem (ErrorValue.http_response_body_size x) = (refl, refl)
emptied_lem (ErrorValue.http_response_trailer_section_size x) = (refl, refl)
emptied_lem (ErrorValue.http_response_trailer_size (none, y)) = (refl, refl)
emptied_lem (ErrorValue.http_response_trailer_size (some s, y)) = (refl, refl)
emptied_lem (ErrorValue.http_response_transfer_coding none) = (refl, refl)
emptied_lem (ErrorValue.http_response_transfer_coding (some n)) = (refl, refl)
emptied_lem (ErrorValue.http_response_content_coding none) = (refl, refl)
emptied_lem (ErrorValue.http_response_content_coding (some n)) = (refl, refl)
emptied_lem ErrorValue.http_response_timeout = (refl, refl)
emptied_lem ErrorValue.http_upgrade_failed = (refl, refl)
emptied_lem ErrorValue.http_protocol_error = (refl, refl)
emptied_lem ErrorValue.loop_detected = (refl, refl)
emptied_lem ErrorValue.configuration_error = (refl, refl)
emptied_lem (ErrorValue.internal_error none) = (refl, refl)
emptied_lem (ErrorValue.internal_error (some n)) = (refl, refl)

-- For every value of the WIT type `error-code`, whatever the union has where the value's case has no
-- member: the C structure with the tag and the member of its case stands for the value;
-- wasi_http_types_error_code_free reads no member but that one and passes to free() the addresses of
-- those of its strings that are not empty, each once and nothing else; it leaves the structure of the
-- same value with its strings empty; and a second call on what it leaves frees nothing.
pub error_code_free-structure :
    (rest : Payload) (v : ErrorValue)
    → (view_error (structure rest v) ≡ some v)
      × (error_code_free (structure rest v) ≡ some (structure rest (without_strings v), heap v))
      × (error_code_free (structure rest (without_strings v))
          ≡ some (structure rest (without_strings v), []))
error_code_free-structure rest v =
    let (no_heap, same) = emptied_lem v in
    (
      view_lem rest v,
      free_lem rest v,
      free_lem rest (without_strings v)
          ∙ ap (λ (u : ErrorValue). some (structure rest u, heap (without_strings v))) same
          ∙ ap (λ (h : List ℕ). some (structure rest (without_strings v), h)) no_heap,
    )
