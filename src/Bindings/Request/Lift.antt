-- ===== src/Bindings/Request/Lift.antt =====
-- The getters of a request, against the canonical ABI.
use particle_python_wheels.Prelude.{◌≡◌, refl, sym, ap, arith, some}
use particle_python_wheels.Bindings.Memory.{Memory, shift, Handle, load_u8, load_u64, load_slice}
use particle_python_wheels.Bindings.Abi.{Wit, variant, view_option, option_read}
use particle_python_wheels.Bindings.Abi
use particle_python_wheels.Bindings.Variant.{Lifts, Lifts-switch, ◌▹◌}
use particle_python_wheels.Bindings.Http.Lift.{meaning, read_area}
use particle_python_wheels.Bindings.Request.Value.{
  method_wits, scheme_wits, view_method, view_scheme,
}
use particle_python_wheels.Bindings.Request.{
  Other, lift_method, lift_scheme, lift_scheme_option, lift_string_option, lift_duration_option,
  outgoing_request_method, outgoing_request_path_with_query, outgoing_request_scheme,
  incoming_request_method, incoming_request_path_with_query, incoming_request_scheme,
  incoming_request_authority, request_options_first_byte_timeout,
  request_options_between_bytes_timeout, outgoing_request_authority,
  request_options_connect_timeout,
}

method-read : (m : Memory) → (variant method_wits).read m ≡ view_method (lift_method m)
unfolding lift_method
method-read m =
    Lifts-switch (shift 4 m) Other.uninit 0 (load_u8 m 0) (load_u8 m 0) (omega arith)
      (refl ▹ refl ▹ refl ▹ refl ▹ refl ▹ refl ▹ refl ▹ refl ▹ refl ▹ refl ▹ Lifts.nil)

scheme-read : (m : Memory) → (variant scheme_wits).read m ≡ view_scheme (lift_scheme m)
unfolding lift_scheme
scheme-read m =
    Lifts-switch (shift 4 m) Other.uninit 0 (load_u8 m 0) (load_u8 m 0) (omega arith)
      (refl ▹ refl ▹ refl ▹ Lifts.nil)

scheme_option-read :
    (m : Memory)
    → (Abi.option (variant scheme_wits)).read m ≡ view_option view_scheme (lift_scheme_option m)
unfolding lift_scheme_option
scheme_option-read m =
    option_read view_scheme (load_u8 m 0) (variant scheme_wits) (shift 4 m)
      (lift_scheme (shift 4 m)) (scheme-read (shift 4 m))

string_option-read :
    (m : Memory) → (Abi.option Abi.slice).read m ≡ view_option some (lift_string_option m)
unfolding lift_string_option
string_option-read m = option_read some (load_u8 m 0) Abi.slice (shift 4 m) (load_slice m 4) refl

duration_option-read :
    (m : Memory) → (Abi.option Abi.u64).read m ≡ view_option some (lift_duration_option m)
unfolding lift_duration_option
duration_option-read m = option_read some (load_u8 m 0) Abi.u64 (shift 8 m) (load_u64 m 8) refl

-- What the getters of method, path, scheme and authority return, of an outgoing and of an incoming
-- request, and those of the three timeouts, is what the canonical ABI reads in the area that their
-- import filled, called once.
pub getters-lift :
    {World : Type 0} (import : Handle → World → Memory × World) (self : Handle) (w : World)
    → (meaning view_method (outgoing_request_method import self w)
        ≡ read_area (variant method_wits) (import self w))
      × (meaning (view_option some) (outgoing_request_path_with_query import self w)
          ≡ read_area (Abi.option Abi.slice) (import self w))
      × (meaning (view_option view_scheme) (outgoing_request_scheme import self w)
          ≡ read_area (Abi.option (variant scheme_wits)) (import self w))
      × (meaning (view_option some) (outgoing_request_authority import self w)
          ≡ read_area (Abi.option Abi.slice) (import self w))
      × (meaning (view_option some) (request_options_connect_timeout import self w)
          ≡ read_area (Abi.option Abi.u64) (import self w))
      × (meaning (view_option some) (request_options_first_byte_timeout import self w)
          ≡ read_area (Abi.option Abi.u64) (import self w))
      × (meaning (view_option some) (request_options_between_bytes_timeout import self w)
          ≡ read_area (Abi.option Abi.u64) (import self w))
      × (meaning view_method (incoming_request_method import self w)
          ≡ read_area (variant method_wits) (import self w))
      × (meaning (view_option some) (incoming_request_path_with_query import self w)
          ≡ read_area (Abi.option Abi.slice) (import self w))
      × (meaning (view_option view_scheme) (incoming_request_scheme import self w)
          ≡ read_area (Abi.option (variant scheme_wits)) (import self w))
      × (meaning (view_option some) (incoming_request_authority import self w)
          ≡ read_area (Abi.option Abi.slice) (import self w))
unfolding incoming_request_method incoming_request_path_with_query incoming_request_scheme
    incoming_request_authority request_options_first_byte_timeout
    request_options_between_bytes_timeout outgoing_request_method outgoing_request_path_with_query
    outgoing_request_scheme outgoing_request_authority request_options_connect_timeout
getters-lift import self w =
    let (m, v) = import self w in
    (
      ap (λ o. (o, v)) (sym (method-read m)),
      ap (λ o. (o, v)) (sym (string_option-read m)),
      ap (λ o. (o, v)) (sym (scheme_option-read m)),
      ap (λ o. (o, v)) (sym (string_option-read m)),
      ap (λ o. (o, v)) (sym (duration_option-read m)),
      ap (λ o. (o, v)) (sym (duration_option-read m)),
      ap (λ o. (o, v)) (sym (duration_option-read m)),
      ap (λ o. (o, v)) (sym (method-read m)),
      ap (λ o. (o, v)) (sym (string_option-read m)),
      ap (λ o. (o, v)) (sym (scheme_option-read m)),
      ap (λ o. (o, v)) (sym (string_option-read m)),
    )
