-- ===== src/Bindings/Request/Tests.antt =====
-- The getters and setters of a request at return areas and imports that are written out.
use particle_python_wheels.Prelude.{ℕ, ◌+◌, ◌≡◌, [], ◌∷◌, Option, none, some}
use particle_python_wheels.Bindings.Memory.{Memory, Handle, Slice, Outcome}
use particle_python_wheels.Bindings.Tests.{area}
use particle_python_wheels.Bindings.Abi.{view_option}
use particle_python_wheels.Bindings.Http.Lift.{meaning}
use particle_python_wheels.Bindings.Request.{
  Other, outgoing_request_method, outgoing_request_set_method, outgoing_request_path_with_query,
  outgoing_request_set_path_with_query, outgoing_request_scheme, outgoing_request_set_scheme,
  outgoing_request_authority, outgoing_request_set_authority, request_options_connect_timeout,
  request_options_set_connect_timeout, request_options_first_byte_timeout,
  request_options_set_first_byte_timeout, request_options_between_bytes_timeout,
  request_options_set_between_bytes_timeout, incoming_request_method,
  incoming_request_path_with_query, incoming_request_scheme, incoming_request_authority,
}
use particle_python_wheels.Bindings.Request.Value.{
  MethodValue, SchemeValue, view_method, view_scheme, method_numbers, scheme_numbers, from_numbers,
  optional_numbers, taking, method_structure, scheme_structure,
}
use particle_python_wheels.Bindings.Request.Lift.{getters-lift}
use particle_python_wheels.Bindings.Request.Lower.{setters-lift, string_import, number_import}

-- An area that reads as HEAD, as a string, as HTTPS and as a duration.
abbrev members : Handle → ℕ → Memory × ℕ
members self w = (area (1 ∷ 0 ∷ 0 ∷ 0 ∷ 1 ∷ 0 ∷ 0 ∷ 0 ∷ 5 ∷ []), w + 1)

abbrev member : Slice
member = record { ptr = 1; len = 5 }

getters-lift_example :
    (meaning view_method (outgoing_request_method members 5 0) ≡ (some MethodValue.head, 1))
    × (meaning (view_option some) (outgoing_request_path_with_query members 5 0)
        ≡ (some (some member), 1))
    × (meaning (view_option view_scheme) (outgoing_request_scheme members 5 0)
        ≡ (some (some SchemeValue.https), 1))
    × (meaning (view_option some) (outgoing_request_authority members 5 0)
        ≡ (some (some member), 1))
    × (meaning (view_option some) (request_options_connect_timeout members 5 0)
        ≡ (some (some 5), 1))
    × (meaning (view_option some) (request_options_first_byte_timeout members 5 0)
        ≡ (some (some 5), 1))
    × (meaning (view_option some) (request_options_between_bytes_timeout members 5 0)
        ≡ (some (some 5), 1))
    × (meaning view_method (incoming_request_method members 5 0) ≡ (some MethodValue.head, 1))
    × (meaning (view_option some) (incoming_request_path_with_query members 5 0)
        ≡ (some (some member), 1))
    × (meaning (view_option view_scheme) (incoming_request_scheme members 5 0)
        ≡ (some (some SchemeValue.https), 1))
    × (meaning (view_option some) (incoming_request_authority members 5 0)
        ≡ (some (some member), 1))
getters-lift_example = getters-lift members 5 0

-- Imports that take every method, refuse every scheme, and take what is there.
abbrev trapping : ℕ → ℕ × ℕ
trapping w = (2, w)

abbrev take_method : Handle → MethodValue → ℕ → ℕ × ℕ
take_method self method w = (0, w + 1)

abbrev refuse_scheme : Handle → Option SchemeValue → ℕ → ℕ × ℕ
refuse_scheme self scheme w = (1, w + 1)

abbrev take_string : Handle → Option Slice → ℕ → ℕ × ℕ
take_string self none w = (1, w)
take_string self (some s) w = (0, w + s.len)

abbrev take_number : Handle → Option ℕ → ℕ → ℕ × ℕ
take_number self none w = (1, w)
take_number self (some n) w = (0, w + n)

setters-lift_example :
    (outgoing_request_set_method
        (λ h tag ptr len. taking trapping (take_method h) (from_numbers method_numbers tag ptr len))
        5
        (method_structure Other.uninit MethodValue.put)
        0
      ≡ (Outcome.ok tt, 1))
    × (outgoing_request_set_scheme
          (λ h some_scheme tag ptr len.
            taking trapping
              (refuse_scheme h)
              (optional_numbers some_scheme (from_numbers scheme_numbers tag ptr len)))
          5
          (some (scheme_structure Other.uninit SchemeValue.https))
          0
        ≡ (Outcome.err tt, 1))
    × (outgoing_request_set_path_with_query (string_import trapping take_string) 5 (some member) 0
        ≡ (Outcome.ok tt, 5))
    × (outgoing_request_set_authority (string_import trapping take_string) 5 (some member) 0
        ≡ (Outcome.ok tt, 5))
    × (request_options_set_connect_timeout (number_import trapping take_number) 5 none 0
        ≡ (Outcome.err tt, 0))
    × (request_options_set_first_byte_timeout (number_import trapping take_number) 5 none 0
        ≡ (Outcome.err tt, 0))
    × (request_options_set_between_bytes_timeout (number_import trapping take_number) 5 none 0
        ≡ (Outcome.err tt, 0))
setters-lift_example =
    setters-lift trapping 5 0 take_method refuse_scheme take_string take_number Other.uninit
      MethodValue.put (some SchemeValue.https) (some member) none
