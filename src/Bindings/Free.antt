-- ===== src/Bindings/Free.antt =====
-- The free functions of duckdb-httpfs-wasi/http_client.c for strings, errors and results. A function gives
-- what the structure is afterwards, and the addresses that it passes to free(), in their order; it
-- gives nothing where it reads a variable or a member of a union that was not assigned.
pub mod Strings
pub mod Errors
pub mod Again
mod Tests
use particle_python_wheels.Prelude.{ℕ, List, [], ◌∷◌, ◌++◌, Option, some, none, ltb, if◌then◌else◌}
use particle_python_wheels.Bindings.Memory.{Handle, Slice, Optional, Outcome, switch}
use particle_python_wheels.Bindings.Memory
use particle_python_wheels.Bindings.Streams.{StreamError}
use particle_python_wheels.Bindings.ErrorCode.{
  DnsErrorPayload, TlsAlertReceivedPayload, FieldSizePayload, Payload, ErrorCode,
}
use particle_python_wheels.Bindings.ErrorCode.Members

abbrev pub Freed : Type 0 → Type 0
Freed A = Option (A × List ℕ)

abbrev pub nothing_freed : {A : Type 0} → A → Freed A
nothing_freed x = some (x, [])

abbrev pub into : {A B : Type 0} → (A → B) → Freed A → Freed B
into f none = none
into f (some (x, freed)) = some (f x, freed)

-- One call behind another.
abbrev pub both : {A B C : Type 0} → (A → B → C) → Freed A → Freed B → Freed C
both f none second = none
both f (some (x, freed)) none = none
both f (some (x, freed)) (some (y, more)) = some (f x y, freed ++ more)

unfoldable pub string_free : Slice → Freed Slice
string_free s = some (record { ptr = 0; len = 0 }, if ltb 0 s.len then s.ptr ∷ [] else [])

pub list_u8_free : Slice → Freed Slice
list_u8_free s = some (s, if ltb 0 s.len then s.ptr ∷ [] else [])

-- `if (ptr->is_some) { … }`.
abbrev pub option_free : {A : Type 0} → (A → Freed A) → Optional A → Freed (Optional A)
option_free free Optional.unset = none
option_free free Optional.absent = some (Optional.absent, [])
option_free free (Optional.present x) = into Optional.present (free x)

pub option_string_free : Optional Slice → Freed (Optional Slice)
unfolding string_free
option_string_free = option_free string_free

pub option_u8_free : Optional ℕ → Freed (Optional ℕ)
option_u8_free = option_free nothing_freed

pub option_u16_free : Optional ℕ → Freed (Optional ℕ)
option_u16_free = option_free nothing_freed

pub option_u32_free : Optional ℕ → Freed (Optional ℕ)
option_u32_free = option_free nothing_freed

pub option_u64_free : Optional ℕ → Freed (Optional ℕ)
option_u64_free = option_free nothing_freed

pub dns_error_payload_free : DnsErrorPayload → Freed DnsErrorPayload
unfolding option_string_free option_u16_free
dns_error_payload_free r =
    both (λ x y. record { rcode = x; info_code = y }) (option_string_free r.rcode)
      (option_u16_free r.info_code)

pub tls_alert_received_payload_free : TlsAlertReceivedPayload → Freed TlsAlertReceivedPayload
unfolding option_string_free option_u8_free
tls_alert_received_payload_free r =
    both (λ x y. record { alert_id = x; alert_message = y }) (option_u8_free r.alert_id)
      (option_string_free r.alert_message)

pub field_size_payload_free : FieldSizePayload → Freed FieldSizePayload
unfolding option_string_free option_u32_free
field_size_payload_free r =
    both (λ x y. record { field_name = x; field_size = y }) (option_string_free r.field_name)
      (option_u32_free r.field_size)

pub option_field_size_payload_free : Optional FieldSizePayload → Freed (Optional FieldSizePayload)
unfolding field_size_payload_free
option_field_size_payload_free = option_free field_size_payload_free

-- A case: the member of the union that it reads, and the function that frees it.
abbrev case :
    {A : Type 0} → (Payload → Option A) → (A → Payload) → (A → Freed A) → Payload → Freed Payload
case member payload free val = elim (member val) [ none ↦ none | some x ↦ into payload (free x) ]

unfoldable pub free_cases : Payload → List (ℕ × Freed Payload)
unfolding dns_error_payload_free tls_alert_received_payload_free option_u64_free option_u32_free
    option_field_size_payload_free field_size_payload_free option_string_free
free_cases val =
    (1, case Members.to_dns_error Payload.dns_error dns_error_payload_free val)
    ∷ (
      14,
      case Members.to_tls_alert_received Payload.tls_alert_received tls_alert_received_payload_free
          val,
    )
    ∷ (
      17,
      case Members.to_http_request_body_size Payload.http_request_body_size option_u64_free val,
    )
    ∷ (
      21,
      case Members.to_http_request_header_section_size Payload.http_request_header_section_size
          option_u32_free val,
    )
    ∷ (
      22,
      case Members.to_http_request_header_size Payload.http_request_header_size
          option_field_size_payload_free val,
    )
    ∷ (
      23,
      case Members.to_http_request_trailer_section_size Payload.http_request_trailer_section_size
          option_u32_free val,
    )
    ∷ (
      24,
      case Members.to_http_request_trailer_size Payload.http_request_trailer_size
          field_size_payload_free val,
    )
    ∷ (
      26,
      case Members.to_http_response_header_section_size Payload.http_response_header_section_size
          option_u32_free val,
    )
    ∷ (
      27,
      case Members.to_http_response_header_size Payload.http_response_header_size
          field_size_payload_free val,
    )
    ∷ (
      28,
      case Members.to_http_response_body_size Payload.http_response_body_size option_u64_free val,
    )
    ∷ (
      29,
      case Members.to_http_response_trailer_section_size Payload.http_response_trailer_section_size
          option_u32_free val,
    )
    ∷ (
      30,
      case Members.to_http_response_trailer_size Payload.http_response_trailer_size
          field_size_payload_free val,
    )
    ∷ (
      31,
      case Members.to_http_response_transfer_coding Payload.http_response_transfer_coding
          option_string_free val,
    )
    ∷ (
      32,
      case Members.to_http_response_content_coding Payload.http_response_content_coding
          option_string_free val,
    )
    ∷ (38, case Members.to_internal_error Payload.internal_error option_string_free val)
    ∷ []

unfoldable pub error_code_free : ErrorCode → Freed ErrorCode
unfolding free_cases
error_code_free e =
    into (λ val. record e { val = val }) (switch e.tag (nothing_freed e.val) (free_cases e.val))
