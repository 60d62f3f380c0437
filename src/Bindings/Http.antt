-- ===== src/Bindings/Http.antt =====
-- The adapters of wasi:http in duckdb-httpfs-wasi/http_client.c that read an error code. Each one calls
-- its import once and lifts the return area that the import fills; the imports are parameters.
pub mod Lift
use particle_python_wheels.Prelude.{ℕ, Option, none, some}
use particle_python_wheels.Bindings.Memory.{
  Memory, shift, load_u8, load_u32, Handle, Optional, Outcome, lift_option, lift_result,
}
use particle_python_wheels.Bindings.ErrorCode.{ErrorCode, lift_error_code}
use particle_python_wheels.Bindings.Streams.{then_lift}

-- An optional handle, passed to an import as two numbers: `option` and `option1`.
unfoldable pub lower_option : Option Handle → ℕ × ℕ
lower_option none = (0, 0)
lower_option (some handle) = (1, handle)

-- The lifting of each return area.
pub lift_http_error : Memory → Optional ErrorCode
unfolding lift_error_code
lift_http_error m = lift_option (load_u8 m 0) (lift_error_code (shift 8 m))

pub lift_handle : Memory → Outcome Handle ErrorCode
unfolding lift_error_code
lift_handle m = lift_result (load_u8 m 0) (load_u32 m 8) (lift_error_code (shift 8 m))

pub lift_finish : Memory → Outcome (Unit {0}) ErrorCode
unfolding lift_error_code
lift_finish m = lift_result (load_u8 m 0) tt (lift_error_code (shift 8 m))

pub lift_response : Memory → Optional (Outcome (Outcome Handle ErrorCode) (Unit {0}))
unfolding lift_error_code
lift_response m = lift_option (load_u8 m 0) (
    lift_result (load_u8 m 8)
      (lift_result (load_u8 m 16) (load_u32 m 24) (lift_error_code (shift 24 m))) tt)

pub lift_trailers : Memory → Optional (Outcome (Outcome (Optional Handle) ErrorCode) (Unit {0}))
unfolding lift_error_code
lift_trailers m = lift_option (load_u8 m 0) (
    lift_result (load_u8 m 8)
      (lift_result (load_u8 m 16) (lift_option (load_u8 m 24) (load_u32 m 28))
        (lift_error_code (shift 24 m)))
      tt)

module _ {World : Type 0} where
  pub http_error_code :
      (Handle → World → Memory × World) → Handle → World → Optional ErrorCode × World
  unfolding lift_http_error
  http_error_code import err w = then_lift lift_http_error (import err w)

  pub outgoing_handler_handle :
      (Handle → ℕ → ℕ → World → Memory × World)
      → Handle
      → Option Handle
      → World
      → Outcome Handle ErrorCode × World
  unfolding lower_option lift_handle
  outgoing_handler_handle import request maybe_options w =
      let (option, option1) = lower_option maybe_options in
      then_lift lift_handle (import request option option1 w)

  pub outgoing_body_finish :
      (Handle → ℕ → ℕ → World → Memory × World)
      → Handle
      → Option Handle
      → World
      → Outcome (Unit {0}) ErrorCode × World
  unfolding lower_option lift_finish
  outgoing_body_finish import this maybe_trailers w =
      let (option, option1) = lower_option maybe_trailers in
      then_lift lift_finish (import this option option1 w)

  pub future_incoming_response_get :
      (Handle → World → Memory × World)
      → Handle
      → World
      → Optional (Outcome (Outcome Handle ErrorCode) (Unit {0})) × World
  unfolding lift_response
  future_incoming_response_get import self w = then_lift lift_response (import self w)

  pub future_trailers_get :
      (Handle → World → Memory × World)
      → Handle
      → World
      → Optional (Outcome (Outcome (Optional Handle) ErrorCode) (Unit {0})) × World
  unfolding lift_trailers
  future_trailers_get import self w = then_lift lift_trailers (import self w)
