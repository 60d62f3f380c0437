-- ===== src/Bindings/Direct.antt =====
-- The adapters of duckdb-httpfs-wasi/http_client.c that return a number as its import does, in its C type,
-- and those that lift a list alone. An int64_t is given by its bits, as a number below 2 ^ 64.
mod Tests
use particle_python_wheels.Prelude.{ℕ, ◌%◌, ◌^◌, Bool, true, false, not, ◌==◌}
use particle_python_wheels.Bindings.Memory.{Memory, Handle, Slice, Outcome, load_slice}
use particle_python_wheels.Bindings.Streams.{then_lift}
use particle_python_wheels.Bindings.Request.{then_flag}

-- An int32_t returned as a bool.
abbrev pub to_bool : ℕ → Bool
to_bool n = not (n == 0)

abbrev pub returning : {A World : Type 0} → (ℕ → A) → ℕ × World → A × World
returning f (n, w) = (f n, w)

module _ {World : Type 0} where
  pub input_stream_subscribe : (Handle → World → ℕ × World) → Handle → World → Handle × World
  input_stream_subscribe import self w = returning (λ n. n) (import self w)

  pub output_stream_subscribe : (Handle → World → ℕ × World) → Handle → World → Handle × World
  output_stream_subscribe import self w = returning (λ n. n) (import self w)

  pub fields_clone : (Handle → World → ℕ × World) → Handle → World → Handle × World
  fields_clone import self w = returning (λ n. n) (import self w)

  pub incoming_request_headers : (Handle → World → ℕ × World) → Handle → World → Handle × World
  incoming_request_headers import self w = returning (λ n. n) (import self w)

  pub constructor_outgoing_request : (Handle → World → ℕ × World) → Handle → World → Handle × World
  constructor_outgoing_request import self w = returning (λ n. n) (import self w)

  pub outgoing_request_headers : (Handle → World → ℕ × World) → Handle → World → Handle × World
  outgoing_request_headers import self w = returning (λ n. n) (import self w)

  pub incoming_response_headers : (Handle → World → ℕ × World) → Handle → World → Handle × World
  incoming_response_headers import self w = returning (λ n. n) (import self w)

  pub incoming_body_finish : (Handle → World → ℕ × World) → Handle → World → Handle × World
  incoming_body_finish import self w = returning (λ n. n) (import self w)

  pub future_trailers_subscribe : (Handle → World → ℕ × World) → Handle → World → Handle × World
  future_trailers_subscribe import self w = returning (λ n. n) (import self w)

  pub constructor_outgoing_response : (Handle → World → ℕ × World) → Handle → World → Handle × World
  constructor_outgoing_response import self w = returning (λ n. n) (import self w)

  pub outgoing_response_headers : (Handle → World → ℕ × World) → Handle → World → Handle × World
  outgoing_response_headers import self w = returning (λ n. n) (import self w)

  pub future_incoming_response_subscribe :
      (Handle → World → ℕ × World) → Handle → World → Handle × World
  future_incoming_response_subscribe import self w = returning (λ n. n) (import self w)

  pub subscribe_instant : (Handle → World → ℕ × World) → Handle → World → Handle × World
  subscribe_instant import self w = returning (λ n. n) (import self w)

  pub subscribe_duration : (Handle → World → ℕ × World) → Handle → World → Handle × World
  subscribe_duration import self w = returning (λ n. n) (import self w)

  pub incoming_response_status : (Handle → World → ℕ × World) → Handle → World → ℕ × World
  incoming_response_status import self w = returning (λ n. n % 2 ^ 16) (import self w)

  pub outgoing_response_status_code : (Handle → World → ℕ × World) → Handle → World → ℕ × World
  outgoing_response_status_code import self w = returning (λ n. n % 2 ^ 16) (import self w)

  pub pollable_ready : (Handle → World → ℕ × World) → Handle → World → Bool × World
  pollable_ready import self w = returning to_bool (import self w)

  pub constructor_fields : (World → ℕ × World) → World → Handle × World
  constructor_fields import w = returning (λ n. n) (import w)

  pub constructor_request_options : (World → ℕ × World) → World → Handle × World
  constructor_request_options import w = returning (λ n. n) (import w)

  pub monotonic_now : (World → ℕ × World) → World → ℕ × World
  monotonic_now import w = returning (λ n. n) (import w)

  pub monotonic_resolution : (World → ℕ × World) → World → ℕ × World
  monotonic_resolution import w = returning (λ n. n) (import w)

  pub fields_has : (Handle → ℕ → ℕ → World → ℕ × World) → Handle → Slice → World → Bool × World
  fields_has import self name w = returning to_bool (import self name.ptr name.len w)

  pub pollable_block : (Handle → World → World) → Handle → World → World
  pollable_block import self w = import self w

  pub poll : (ℕ → ℕ → World → Memory × World) → Slice → World → Slice × World
  poll import pollables w = then_lift (λ m. load_slice m 0) (import pollables.ptr pollables.len w)

  pub error_to_debug_string : (Handle → World → Memory × World) → Handle → World → Slice × World
  error_to_debug_string import self w = then_lift (λ m. load_slice m 0) (import self w)

  pub outgoing_response_set_status_code :
      (Handle → ℕ → World → ℕ × World) → Handle → ℕ → World → Outcome (Unit {0}) (Unit {0}) × World
  outgoing_response_set_status_code import self status_code w =
      then_flag (import self status_code w)
