-- ===== src/Bindings/Outparam/Lift.antt =====
-- The numbers of an error code or a response, read as the canonical ABI reads them.
use particle_python_wheels.Prelude.{◌≡◌, refl, [], ◌∷◌, Option, some, none}
use particle_python_wheels.Bindings.ErrorCode.Value.{ErrorValue, error_code}
use particle_python_wheels.Bindings.Outparam.Casts.{
  u32_lem, u16_lem, u64_lem, extend_u8_lem, extend_u32_lem,
}
use particle_python_wheels.Bindings.ErrorCode.{Payload}
use particle_python_wheels.Bindings.ErrorCode.Structure.{structure}
use particle_python_wheels.Bindings.ErrorCode.Fits.{Fits}
use particle_python_wheels.Bindings.ErrorCode.Parts.{Numbers}
use particle_python_wheels.Bindings.ErrorCode.Lower.{lower_error_code}

-- The numbers stand for the value.
abbrev pub StandsFor : Option Numbers → ErrorValue → Type 0
StandsFor lowered v =
    (n : Numbers) × (lowered ≡ some n)
    × (error_code.lift (
          n.variant ∷ n.variant140 ∷ n.variant141 ∷ n.variant142 ∷ n.variant143 ∷ n.variant144
          ∷ n.variant145 ∷ [])
        ≡ some v)

pub lower_error_code-StandsFor :
    (rest : Payload) (v : ErrorValue) → Fits v → StandsFor (lower_error_code (structure rest v)) v
unfolding lower_error_code structure
lower_error_code-StandsFor rest ErrorValue.dns_timeout h = (_, refl, refl)
lower_error_code-StandsFor rest (ErrorValue.dns_error none none) h = (_, refl, refl)
lower_error_code-StandsFor rest (ErrorValue.dns_error (some s) none) ((h, _), _) = (
  _,
  refl,
  λ i. some (ErrorValue.dns_error (some (record { ptr = u32_lem s.ptr h i; len = s.len })) none),
)
lower_error_code-StandsFor rest (ErrorValue.dns_error none (some k)) (_, l) =
    (_, refl, λ i. some (ErrorValue.dns_error none (some (u16_lem k l i))))
lower_error_code-StandsFor rest (ErrorValue.dns_error (some s) (some k)) ((h, _), l) = (
  _,
  refl,
  λ i. some (
      ErrorValue.dns_error (some (record { ptr = u32_lem s.ptr h i; len = s.len }))
        (some (u16_lem k l i))),
)
lower_error_code-StandsFor rest ErrorValue.destination_not_found h = (_, refl, refl)
lower_error_code-StandsFor rest ErrorValue.destination_unavailable h = (_, refl, refl)
lower_error_code-StandsFor rest ErrorValue.destination_ip_prohibited h = (_, refl, refl)
lower_error_code-StandsFor rest ErrorValue.destination_ip_unroutable h = (_, refl, refl)
lower_error_code-StandsFor rest ErrorValue.connection_refused h = (_, refl, refl)
lower_error_code-StandsFor rest ErrorValue.connection_terminated h = (_, refl, refl)
lower_error_code-StandsFor rest ErrorValue.connection_timeout h = (_, refl, refl)
lower_error_code-StandsFor rest ErrorValue.connection_read_timeout h = (_, refl, refl)
lower_error_code-StandsFor rest ErrorValue.connection_write_timeout h = (_, refl, refl)
lower_error_code-StandsFor rest ErrorValue.connection_limit_reached h = (_, refl, refl)
lower_error_code-StandsFor rest ErrorValue.tls_protocol_error h = (_, refl, refl)
lower_error_code-StandsFor rest ErrorValue.tls_certificate_error h = (_, refl, refl)
lower_error_code-StandsFor rest (ErrorValue.tls_alert_received none none) h = (_, refl, refl)
lower_error_code-StandsFor rest (ErrorValue.tls_alert_received none (some s)) h = (_, refl, refl)
lower_error_code-StandsFor rest (ErrorValue.tls_alert_received (some k) none) (l, _) =
    (_, refl, λ i. some (ErrorValue.tls_alert_received (some (extend_u8_lem k l i)) none))
lower_error_code-StandsFor rest (ErrorValue.tls_alert_received (some k) (some s)) (l, _) =
    (_, refl, λ i. some (ErrorValue.tls_alert_received (some (extend_u8_lem k l i)) (some s)))
lower_error_code-StandsFor rest ErrorValue.http_request_denied h = (_, refl, refl)
lower_error_code-StandsFor rest ErrorValue.http_request_length_required h = (_, refl, refl)
lower_error_code-StandsFor rest (ErrorValue.http_request_body_size none) h = (_, refl, refl)
lower_error_code-StandsFor rest (ErrorValue.http_request_body_size (some k)) l =
    (_, refl, λ i. some (ErrorValue.http_request_body_size (some (u64_lem k l i))))
lower_error_code-StandsFor rest ErrorValue.http_request_method_invalid h = (_, refl, refl)
lower_error_code-StandsFor rest ErrorValue.http_request_uri_invalid h = (_, refl, refl)
lower_error_code-StandsFor rest ErrorValue.http_request_uri_too_long h = (_, refl, refl)
lower_error_code-StandsFor rest (ErrorValue.http_request_header_section_size none) h =
    (_, refl, refl)
lower_error_code-StandsFor rest (ErrorValue.http_request_header_section_size (some k)) l =
    (_, refl, λ i. some (ErrorValue.http_request_header_section_size (some (extend_u32_lem k l i))))
lower_error_code-StandsFor rest (ErrorValue.http_request_header_size none) h = (_, refl, refl)
lower_error_code-StandsFor rest (ErrorValue.http_request_header_size (some (none, none))) h =
    (_, refl, refl)
lower_error_code-StandsFor rest (ErrorValue.http_request_header_size (some (some s, none))) h =
    (_, refl, refl)
lower_error_code-StandsFor rest (ErrorValue.http_request_header_size (some (none, some k))) (_, l) =
    (_, refl, λ i. some (ErrorValue.http_request_header_size (some (none, some (u32_lem k l i)))))
lower_error_code-StandsFor rest (ErrorValue.http_request_header_size (some (some s, some k)))
      (_, l) =
    (_, refl, λ i. some (ErrorValue.http_request_header_size (some (some s, some (u32_lem k l i)))))
lower_error_code-StandsFor rest (ErrorValue.http_request_trailer_section_size none) h =
    (_, refl, refl)
lower_error_code-StandsFor rest (ErrorValue.http_request_trailer_section_size (some k)) l = (
  _,
  refl,
  λ i. some (ErrorValue.http_request_trailer_section_size (some (extend_u32_lem k l i))),
)
lower_error_code-StandsFor rest (ErrorValue.http_request_trailer_size (none, none)) h =
    (_, refl, refl)
lower_error_code-StandsFor rest (ErrorValue.http_request_trailer_size (some s, none)) ((h, _), _) =
    (
      _,
      refl,
      λ i. some (
          ErrorValue.http_request_trailer_size
            (some (record { ptr = u32_lem s.ptr h i; len = s.len }), none)),
    )
lower_error_code-StandsFor rest (ErrorValue.http_request_trailer_size (none, some k)) (_, l) =
    (_, refl, λ i. some (ErrorValue.http_request_trailer_size (none, some (u32_lem k l i))))
lower_error_code-StandsFor rest (ErrorValue.http_request_trailer_size (some s, some k))
      ((h, _), l) =
    (
      _,
      refl,
      λ i. some (
          ErrorValue.http_request_trailer_size
            (some (record { ptr = u32_lem s.ptr h i; len = s.len }), some (u32_lem k l i))),
    )
lower_error_code-StandsFor rest ErrorValue.http_response_incomplete h = (_, refl, refl)
lower_error_code-StandsFor rest (ErrorValue.http_response_header_section_size none) h =
    (_, refl, refl)
lower_error_code-StandsFor rest (ErrorValue.http_response_header_section_size (some k)) l = (
  _,
  refl,
  λ i. some (ErrorValue.http_response_header_section_size (some (extend_u32_lem k l i))),
)
lower_error_code-StandsFor rest (ErrorValue.http_response_header_size (none, none)) h =
    (_, refl, refl)
lower_error_code-StandsFor rest (ErrorValue.http_response_header_size (some s, none)) ((h, _), _) =
    (
      _,
      refl,
      λ i. some (
          ErrorValue.http_response_header_size
            (some (record { ptr = u32_lem s.ptr h i; len = s.len }), none)),
    )
lower_error_code-StandsFor rest (ErrorValue.http_response_header_size (none, some k)) (_, l) =
    (_, refl, λ i. some (ErrorValue.http_response_header_size (none, some (u32_lem k l i))))
lower_error_code-StandsFor rest (ErrorValue.http_response_header_size (some s, some k))
      ((h, _), l) =
    (
      _,
      refl,
      λ i. some (
          ErrorValue.http_response_header_size
            (some (record { ptr = u32_lem s.ptr h i; len = s.len }), some (u32_lem k l i))),
    )
lower_error_code-StandsFor rest (ErrorValue.http_response_body_size none) h = (_, refl, refl)
lower_error_code-StandsFor rest (ErrorValue.http_response_body_size (some k)) l =
    (_, refl, λ i. some (ErrorValue.http_response_body_size (some (u64_lem k l i))))
lower_error_code-StandsFor rest (ErrorValue.http_response_trailer_section_size none) h =
    (_, refl, refl)
lower_error_code-StandsFor rest (ErrorValue.http_response_trailer_section_size (some k)) l = (
  _,
  refl,
  λ i. some (ErrorValue.http_response_trailer_section_size (some (extend_u32_lem k l i))),
)
lower_error_code-StandsFor rest (ErrorValue.http_response_trailer_size (none, none)) h =
    (_, refl, refl)
lower_error_code-StandsFor rest (ErrorValue.http_response_trailer_size (some s, none)) ((h, _), _) =
    (
      _,
      refl,
      λ i. some (
          ErrorValue.http_response_trailer_size
            (some (record { ptr = u32_lem s.ptr h i; len = s.len }), none)),
    )
lower_error_code-StandsFor rest (ErrorValue.http_response_trailer_size (none, some k)) (_, l) =
    (_, refl, λ i. some (ErrorValue.http_response_trailer_size (none, some (u32_lem k l i))))
lower_error_code-StandsFor rest (ErrorValue.http_response_trailer_size (some s, some k))
      ((h, _), l) =
    (
      _,
      refl,
      λ i. some (
          ErrorValue.http_response_trailer_size
            (some (record { ptr = u32_lem s.ptr h i; len = s.len }), some (u32_lem k l i))),
    )
lower_error_code-StandsFor rest (ErrorValue.http_response_transfer_coding none) h = (_, refl, refl)
lower_error_code-StandsFor rest (ErrorValue.http_response_transfer_coding (some s)) (h, _) = (
  _,
  refl,
  λ i. some (
      ErrorValue.http_response_transfer_coding
        (some (record { ptr = u32_lem s.ptr h i; len = s.len }))),
)
lower_error_code-StandsFor rest (ErrorValue.http_response_content_coding none) h = (_, refl, refl)
lower_error_code-StandsFor rest (ErrorValue.http_response_content_coding (some s)) (h, _) = (
  _,
  refl,
  λ i. some (
      ErrorValue.http_response_content_coding
        (some (record { ptr = u32_lem s.ptr h i; len = s.len }))),
)
lower_error_code-StandsFor rest ErrorValue.http_response_timeout h = (_, refl, refl)
lower_error_code-StandsFor rest ErrorValue.http_upgrade_failed h = (_, refl, refl)
lower_error_code-StandsFor rest ErrorValue.http_protocol_error h = (_, refl, refl)
lower_error_code-StandsFor rest ErrorValue.loop_detected h = (_, refl, refl)
lower_error_code-StandsFor rest ErrorValue.configuration_error h = (_, refl, refl)
lower_error_code-StandsFor rest (ErrorValue.internal_error none) h = (_, refl, refl)
lower_error_code-StandsFor rest (ErrorValue.internal_error (some s)) (h, _) = (
  _,
  refl,
  λ i. some (ErrorValue.internal_error (some (record { ptr = u32_lem s.ptr h i; len = s.len }))),
)
