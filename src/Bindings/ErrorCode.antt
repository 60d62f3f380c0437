-- ===== src/Bindings/ErrorCode.antt =====
-- wasi_http_types_error_code_t of duckdb-httpfs-wasi/http_client.h, and the code by which the
-- adapters of http_client.c read one. That code stands five times in the file, always with the same
-- offsets from the variant: at `ptr + 8` in wasi_http_types_http_error_code,
-- wasi_http_types_static_outgoing_body_finish and wasi_http_outgoing_handler_handle, and at
-- `ptr + 24` in wasi_http_types_method_future_trailers_get and
-- wasi_http_types_method_future_incoming_response_get. Here an offset counts from the variant.
pub mod Value
pub mod Lift
pub mod Members
pub mod Structure
pub mod Parts
pub mod Lower
pub mod Fits
use particle_python_wheels.Prelude.{ℕ, List, [], ◌∷◌, ◌++◌}
use particle_python_wheels.Bindings.Memory.{
  Memory, load_u8, load_u16, load_u32, load_u64, Slice, load_slice, Optional, lift_option, switch,
}

pub record DnsErrorPayload : Type 0 where
  pub rcode : Optional Slice
  pub info_code : Optional ℕ

pub record TlsAlertReceivedPayload : Type 0 where
  pub alert_id : Optional ℕ
  pub alert_message : Optional Slice

pub record FieldSizePayload : Type 0 where
  pub field_name : Optional Slice
  pub field_size : Optional ℕ

-- The union `val`; `uninit` where no member was assigned.
pub data Payload : Type 0 where
  uninit : Payload
  dns_error : DnsErrorPayload → Payload
  tls_alert_received : TlsAlertReceivedPayload → Payload
  http_request_body_size http_request_header_section_size : Optional ℕ → Payload
  http_request_header_size : Optional FieldSizePayload → Payload
  http_request_trailer_section_size : Optional ℕ → Payload
  http_request_trailer_size : FieldSizePayload → Payload
  http_response_header_section_size : Optional ℕ → Payload
  http_response_header_size : FieldSizePayload → Payload
  http_response_body_size http_response_trailer_section_size : Optional ℕ → Payload
  http_response_trailer_size : FieldSizePayload → Payload
  http_response_transfer_coding http_response_content_coding : Optional Slice → Payload
  internal_error : Optional Slice → Payload

pub record ErrorCode : Type 0 where
  pub tag : ℕ
  pub val : Payload

-- An option of each kind, its tag at `p` and its value behind it.
abbrev pub option_string : Memory → ℕ → ℕ → Optional Slice
option_string m p q = lift_option (load_u8 m p) (load_slice m q)

abbrev pub option_u8 : Memory → ℕ → ℕ → Optional ℕ
option_u8 m p q = lift_option (load_u8 m p) (load_u8 m q)

abbrev pub option_u16 : Memory → ℕ → ℕ → Optional ℕ
option_u16 m p q = lift_option (load_u8 m p) (load_u16 m q)

abbrev pub option_u32 : Memory → ℕ → ℕ → Optional ℕ
option_u32 m p q = lift_option (load_u8 m p) (load_u32 m q)

abbrev pub option_u64 : Memory → ℕ → ℕ → Optional ℕ
option_u64 m p q = lift_option (load_u8 m p) (load_u64 m q)

-- Case 1.
pub lift_dns_error : Memory → DnsErrorPayload
lift_dns_error m = record { rcode = option_string m 8 12; info_code = option_u16 m 20 22 }

-- Case 14.
pub lift_tls_alert_received : Memory → TlsAlertReceivedPayload
lift_tls_alert_received m = record {
  alert_id = option_u8 m 8 9;
  alert_message = option_string m 12 16;
}

-- Case 22.
pub lift_option_field_size : Memory → Optional FieldSizePayload
lift_option_field_size m =
    lift_option (load_u8 m 8)
      (record { field_name = option_string m 12 16; field_size = option_u32 m 24 28 })

-- Cases 24, 27 and 30.
pub lift_field_size : Memory → FieldSizePayload
lift_field_size m = record { field_name = option_string m 8 12; field_size = option_u32 m 20 24 }

-- Cases 0 to 13.
pub connection_cases : Memory → List (ℕ × Payload)
unfolding lift_dns_error
connection_cases m =
    (0, Payload.uninit)
    ∷ (1, Payload.dns_error (lift_dns_error m))
    ∷ (2, Payload.uninit)
    ∷ (3, Payload.uninit)
    ∷ (4, Payload.uninit)
    ∷ (5, Payload.uninit)
    ∷ (6, Payload.uninit)
    ∷ (7, Payload.uninit)
    ∷ (8, Payload.uninit)
    ∷ (9, Payload.uninit)
    ∷ (10, Payload.uninit)
    ∷ (11, Payload.uninit)
    ∷ (12, Payload.uninit)
    ∷ (13, Payload.uninit)
    ∷ []

-- Cases 14 to 24.
pub request_cases : Memory → List (ℕ × Payload)
unfolding lift_tls_alert_received lift_option_field_size lift_field_size
request_cases m =
    (14, Payload.tls_alert_received (lift_tls_alert_received m))
    ∷ (15, Payload.uninit)
    ∷ (16, Payload.uninit)
    ∷ (17, Payload.http_request_body_size (option_u64 m 8 16))
    ∷ (18, Payload.uninit)
    ∷ (19, Payload.uninit)
    ∷ (20, Payload.uninit)
    ∷ (21, Payload.http_request_header_section_size (option_u32 m 8 12))
    ∷ (22, Payload.http_request_header_size (lift_option_field_size m))
    ∷ (23, Payload.http_request_trailer_section_size (option_u32 m 8 12))
    ∷ (24, Payload.http_request_trailer_size (lift_field_size m))
    ∷ []

-- Cases 25 to 38.
pub response_cases : Memory → List (ℕ × Payload)
unfolding lift_field_size
response_cases m =
    (25, Payload.uninit)
    ∷ (26, Payload.http_response_header_section_size (option_u32 m 8 12))
    ∷ (27, Payload.http_response_header_size (lift_field_size m))
    ∷ (28, Payload.http_response_body_size (option_u64 m 8 16))
    ∷ (29, Payload.http_response_trailer_section_size (option_u32 m 8 12))
    ∷ (30, Payload.http_response_trailer_size (lift_field_size m))
    ∷ (31, Payload.http_response_transfer_coding (option_string m 8 12))
    ∷ (32, Payload.http_response_content_coding (option_string m 8 12))
    ∷ (33, Payload.uninit)
    ∷ (34, Payload.uninit)
    ∷ (35, Payload.uninit)
    ∷ (36, Payload.uninit)
    ∷ (37, Payload.uninit)
    ∷ (38, Payload.internal_error (option_string m 8 12))
    ∷ []

unfoldable pub lift_error_code : Memory → ErrorCode
unfolding connection_cases request_cases response_cases
lift_error_code m = record {
  tag = load_u8 m 0;
  val =
      switch (load_u8 m 0) Payload.uninit
        (connection_cases m ++ request_cases m ++ response_cases m);
}
