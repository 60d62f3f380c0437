-- ===== src/Bindings/Request/Lower.antt =====
-- The setters of a request, against imports that take values.
use mathlib.Core.Option
use particle_python_wheels.Prelude.{ℕ, ◌≡◌, refl, Option, none, some}
use particle_python_wheels.Bindings.Memory.{Handle, Slice}
use particle_python_wheels.Bindings.Http.{lower_option}
use particle_python_wheels.Bindings.Request.Value.{
  MethodValue, SchemeValue, method_numbers, scheme_numbers, from_numbers, optional_numbers, taking,
  method_structure, scheme_structure,
}
use particle_python_wheels.Bindings.Request.{
  Other, lower_method, lower_scheme_option, lower_string_option, then_flag,
  outgoing_request_set_method, outgoing_request_set_path_with_query, outgoing_request_set_scheme,
  outgoing_request_set_authority, request_options_set_connect_timeout,
  request_options_set_first_byte_timeout, request_options_set_between_bytes_timeout,
}

-- An import that takes an optional string, or an optional number, behind the numbers that carry it.
module _ {World : Type 0} (trap : World → ℕ × World) where
  abbrev pub string_import :
      (Handle → Option Slice → World → ℕ × World) → Handle → ℕ → ℕ → ℕ → World → ℕ × World
  string_import import h tag ptr len =
      taking trap (import h) (optional_numbers tag (some (record { ptr = ptr; len = len })))

  abbrev pub number_import :
      (Handle → Option ℕ → World → ℕ × World) → Handle → ℕ → ℕ → World → ℕ × World
  number_import import h tag n = taking trap (import h) (optional_numbers tag (some n))

module _ {World : Type 0} (trap : World → ℕ × World) (self : Handle) (w : World) where
  set_method_lem :
      (import : Handle → MethodValue → World → ℕ × World) (rest : Other) (v : MethodValue)
      → outgoing_request_set_method
          (λ h tag ptr len. taking trap (import h) (from_numbers method_numbers tag ptr len))
          self
          (method_structure rest v)
          w
        ≡ then_flag (import self v w)
  unfolding outgoing_request_set_method lower_method
  set_method_lem import rest MethodValue.get = refl
  set_method_lem import rest MethodValue.head = refl
  set_method_lem import rest MethodValue.post = refl
  set_method_lem import rest MethodValue.put = refl
  set_method_lem import rest MethodValue.delete = refl
  set_method_lem import rest MethodValue.connect = refl
  set_method_lem import rest MethodValue.options = refl
  set_method_lem import rest MethodValue.trace = refl
  set_method_lem import rest MethodValue.patch = refl
  set_method_lem import rest (MethodValue.other s) = refl

  set_scheme_lem :
      (import : Handle → Option SchemeValue → World → ℕ × World) (rest : Other)
      (v : Option SchemeValue)
      → outgoing_request_set_scheme
          (λ h some_scheme tag ptr len.
            taking trap
              (import h)
              (optional_numbers some_scheme (from_numbers scheme_numbers tag ptr len)))
          self
          (Option.map (scheme_structure rest) v)
          w
        ≡ then_flag (import self v w)
  unfolding outgoing_request_set_scheme lower_scheme_option
  set_scheme_lem import rest none = refl
  set_scheme_lem import rest (some SchemeValue.http) = refl
  set_scheme_lem import rest (some SchemeValue.https) = refl
  set_scheme_lem import rest (some (SchemeValue.other s)) = refl

  set_string_lem :
      (import : Handle → Option Slice → World → ℕ × World) (v : Option Slice)
      → (outgoing_request_set_path_with_query (string_import trap import) self v w
          ≡ then_flag (import self v w))
        × (outgoing_request_set_authority (string_import trap import) self v w
            ≡ then_flag (import self v w))
  unfolding outgoing_request_set_path_with_query outgoing_request_set_authority lower_string_option
  set_string_lem import none = (refl, refl)
  set_string_lem import (some s) = (refl, refl)

  set_timeout_lem :
      (import : Handle → Option ℕ → World → ℕ × World) (v : Option ℕ)
      → (request_options_set_connect_timeout (number_import trap import) self v w
          ≡ then_flag (import self v w))
        × (request_options_set_first_byte_timeout (number_import trap import) self v w
            ≡ then_flag (import self v w))
        × (request_options_set_between_bytes_timeout (number_import trap import) self v w
            ≡ then_flag (import self v w))
  unfolding request_options_set_connect_timeout request_options_set_first_byte_timeout
      request_options_set_between_bytes_timeout lower_option
  set_timeout_lem import none = (refl, refl, refl)
  set_timeout_lem import (some n) = (refl, refl, refl)

  -- An import that takes a method, an optional scheme, an optional string or an optional number gets
  -- from the setter the very value whose C structure the caller passed, whatever the union holds
  -- where the tag does not select it, and never numbers that trap. The setter gives back what the
  -- import returned: done for 0, refused for 1.
  pub setters-lift :
      (methods : Handle → MethodValue → World → ℕ × World)
      (schemes : Handle → Option SchemeValue → World → ℕ × World)
      (strings : Handle → Option Slice → World → ℕ × World)
      (numbers : Handle → Option ℕ → World → ℕ × World) (rest : Other) (method : MethodValue)
      (scheme : Option SchemeValue) (string : Option Slice) (duration : Option ℕ)
      → (outgoing_request_set_method
            (λ h tag ptr len. taking trap (methods h) (from_numbers method_numbers tag ptr len))
            self
            (method_structure rest method)
            w
          ≡ then_flag (methods self method w))
        × (outgoing_request_set_scheme
              (λ h some_scheme tag ptr len.
                taking trap
                  (schemes h)
                  (optional_numbers some_scheme (from_numbers scheme_numbers tag ptr len)))
              self
              (Option.map (scheme_structure rest) scheme)
              w
            ≡ then_flag (schemes self scheme w))
        × (outgoing_request_set_path_with_query (string_import trap strings) self string w
            ≡ then_flag (strings self string w))
        × (outgoing_request_set_authority (string_import trap strings) self string w
            ≡ then_flag (strings self string w))
        × (request_options_set_connect_timeout (number_import trap numbers) self duration w
            ≡ then_flag (numbers self duration w))
        × (request_options_set_first_byte_timeout (number_import trap numbers) self duration w
            ≡ then_flag (numbers self duration w))
        × (request_options_set_between_bytes_timeout (number_import trap numbers) self duration w
            ≡ then_flag (numbers self duration w))
  setters-lift methods schemes strings numbers rest method scheme string duration =
      let (path, authority) = set_string_lem strings string in
      let (connect, first_byte, between_bytes) = set_timeout_lem numbers duration in
      (
        set_method_lem methods rest method,
        set_scheme_lem schemes rest scheme,
        path,
        authority,
        connect,
        first_byte,
        between_bytes,
      )
