-- ===== src/Bindings/ErrorCode/Lower.antt =====
-- The switch of wasi_http_types_static_response_outparam_set of duckdb-httpfs-wasi/http_client.c over the tag
-- of an error code. Nothing stands where it reads a member of the union that was not assigned, or no
-- case has the tag.
use particle_python_wheels.Prelude.{ℕ, List, [], ◌∷◌, ◌++◌, Option, none}
use particle_python_wheels.Bindings.Memory.{switch}
use particle_python_wheels.Bindings.Abi.{bind}
use particle_python_wheels.Bindings.ErrorCode.{Payload, ErrorCode}
use particle_python_wheels.Bindings.ErrorCode.Members
use particle_python_wheels.Bindings.ErrorCode.Parts.{
  Numbers, plain, lower_dns_error, lower_tls_alert_received, lower_u64, lower_u32, lower_field_size,
  lower_option_field_size, lower_option_string,
}

-- Cases 0 to 9.
unfoldable pub cases_from_0 : Payload → List (ℕ × Option Numbers)
unfolding lower_dns_error
cases_from_0 val =
    (0, plain 0)
    ∷ (1, bind (Members.to_dns_error val) lower_dns_error)
    ∷ (2, plain 2)
    ∷ (3, plain 3)
    ∷ (4, plain 4)
    ∷ (5, plain 5)
    ∷ (6, plain 6)
    ∷ (7, plain 7)
    ∷ (8, plain 8)
    ∷ (9, plain 9)
    ∷ []

-- Cases 10 to 16.
unfoldable pub cases_from_10 : Payload → List (ℕ × Option Numbers)
unfolding lower_tls_alert_received
cases_from_10 val =
    (10, plain 10)
    ∷ (11, plain 11)
    ∷ (12, plain 12)
    ∷ (13, plain 13)
    ∷ (14, bind (Members.to_tls_alert_received val) lower_tls_alert_received)
    ∷ (15, plain 15)
    ∷ (16, plain 16)
    ∷ []

-- Cases 17 to 22.
unfoldable pub cases_from_17 : Payload → List (ℕ × Option Numbers)
unfolding lower_option_field_size lower_u32 lower_u64
cases_from_17 val =
    (17, bind (Members.to_http_request_body_size val) (lower_u64 17))
    ∷ (18, plain 18)
    ∷ (19, plain 19)
    ∷ (20, plain 20)
    ∷ (21, bind (Members.to_http_request_header_section_size val) (lower_u32 21))
    ∷ (22, bind (Members.to_http_request_header_size val) lower_option_field_size)
    ∷ []

-- Cases 23 to 26.
unfoldable pub cases_from_23 : Payload → List (ℕ × Option Numbers)
unfolding lower_field_size lower_u32
cases_from_23 val =
    (23, bind (Members.to_http_request_trailer_section_size val) (lower_u32 23))
    ∷ (24, bind (Members.to_http_request_trailer_size val) (lower_field_size 24))
    ∷ (25, plain 25)
    ∷ (26, bind (Members.to_http_response_header_section_size val) (lower_u32 26))
    ∷ []

-- Cases 27 to 30.
unfoldable pub cases_from_27 : Payload → List (ℕ × Option Numbers)
unfolding lower_field_size lower_u32 lower_u64
cases_from_27 val =
    (27, bind (Members.to_http_response_header_size val) (lower_field_size 27))
    ∷ (28, bind (Members.to_http_response_body_size val) (lower_u64 28))
    ∷ (29, bind (Members.to_http_response_trailer_section_size val) (lower_u32 29))
    ∷ (30, bind (Members.to_http_response_trailer_size val) (lower_field_size 30))
    ∷ []

-- Cases 31 to 38.
unfoldable pub cases_from_31 : Payload → List (ℕ × Option Numbers)
unfolding lower_option_string
cases_from_31 val =
    (31, bind (Members.to_http_response_transfer_coding val) (lower_option_string 31))
    ∷ (32, bind (Members.to_http_response_content_coding val) (lower_option_string 32))
    ∷ (33, plain 33)
    ∷ (34, plain 34)
    ∷ (35, plain 35)
    ∷ (36, plain 36)
    ∷ (37, plain 37)
    ∷ (38, bind (Members.to_internal_error val) (lower_option_string 38))
    ∷ []

unfoldable pub lower_error_code : ErrorCode → Option Numbers
unfolding cases_from_0 cases_from_10 cases_from_17 cases_from_23 cases_from_27 cases_from_31
lower_error_code e = switch e.tag none (
    cases_from_0 e.val
    ++ cases_from_10 e.val
    ++ cases_from_17 e.val
    ++ cases_from_23 e.val
    ++ cases_from_27 e.val
    ++ cases_from_31 e.val)
