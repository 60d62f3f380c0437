-- ===== src/Bindings/Fields.antt =====
-- The adapters of duckdb-httpfs-wasi/http_client.c for the header fields of a message, and those that
-- open its body and the streams of it.
pub mod Lift
mod Tests
use particle_python_wheels.Prelude.{ℕ}
use particle_python_wheels.Bindings.Memory.{
  Memory, shift, load_u8, load_u32, Handle, Slice, load_slice, Outcome, lift_result,
}
use particle_python_wheels.Bindings.Streams.{then_lift}

-- wasi_http_types_header_error_t. The cases of the switch over its tag do nothing.
pub record HeaderError : Type 0 where
  pub tag : ℕ

pub lift_header_error : Memory → HeaderError
lift_header_error m = record { tag = load_u8 m 0 }

pub lift_fields_result : Memory → Outcome Handle HeaderError
unfolding lift_header_error
lift_fields_result m = lift_result (load_u8 m 0) (load_u32 m 4) (lift_header_error (shift 4 m))

pub lift_void_header_result : Memory → Outcome (Unit {0}) HeaderError
unfolding lift_header_error
lift_void_header_result m = lift_result (load_u8 m 0) tt (lift_header_error (shift 1 m))

-- The result of what opens a body or a stream: a handle, or nothing.
pub lift_own_result : Memory → Outcome Handle (Unit {0})
lift_own_result m = lift_result (load_u8 m 0) (load_u32 m 4) tt

pub lift_list : Memory → Slice
lift_list m = load_slice m 0

module _ {World : Type 0} where
  pub fields_from_list :
      (ℕ → ℕ → World → Memory × World) → Slice → World → Outcome Handle HeaderError × World
  unfolding lift_fields_result
  fields_from_list import entries w =
      then_lift lift_fields_result (import entries.ptr entries.len w)

  pub fields_get :
      (Handle → ℕ → ℕ → World → Memory × World) → Handle → Slice → World → Slice × World
  unfolding lift_list
  fields_get import self name w = then_lift lift_list (import self name.ptr name.len w)

  pub fields_delete :
      (Handle → ℕ → ℕ → World → Memory × World)
      → Handle
      → Slice
      → World
      → Outcome (Unit {0}) HeaderError × World
  unfolding lift_void_header_result
  fields_delete import self name w =
      then_lift lift_void_header_result (import self name.ptr name.len w)

  pub fields_entries : (Handle → World → Memory × World) → Handle → World → Slice × World
  unfolding lift_list
  fields_entries import self w = then_lift lift_list (import self w)

  pub fields_set :
      (Handle → ℕ → ℕ → ℕ → ℕ → World → Memory × World)
      → Handle
      → Slice
      → Slice
      → World
      → Outcome (Unit {0}) HeaderError × World
  unfolding lift_void_header_result
  fields_set import self name value w =
      then_lift lift_void_header_result (import self name.ptr name.len value.ptr value.len w)

  pub fields_append :
      (Handle → ℕ → ℕ → ℕ → ℕ → World → Memory × World)
      → Handle
      → Slice
      → Slice
      → World
      → Outcome (Unit {0}) HeaderError × World
  unfolding lift_void_header_result
  fields_append import self name value w =
      then_lift lift_void_header_result (import self name.ptr name.len value.ptr value.len w)

  pub incoming_request_consume :
      (Handle → World → Memory × World) → Handle → World → Outcome Handle (Unit {0}) × World
  unfolding lift_own_result
  incoming_request_consume import self w = then_lift lift_own_result (import self w)

  pub outgoing_request_body :
      (Handle → World → Memory × World) → Handle → World → Outcome Handle (Unit {0}) × World
  unfolding lift_own_result
  outgoing_request_body import self w = then_lift lift_own_result (import self w)

  pub incoming_response_consume :
      (Handle → World → Memory × World) → Handle → World → Outcome Handle (Unit {0}) × World
  unfolding lift_own_result
  incoming_response_consume import self w = then_lift lift_own_result (import self w)

  pub incoming_body_stream :
      (Handle → World → Memory × World) → Handle → World → Outcome Handle (Unit {0}) × World
  unfolding lift_own_result
  incoming_body_stream import self w = then_lift lift_own_result (import self w)

  pub outgoing_response_body :
      (Handle → World → Memory × World) → Handle → World → Outcome Handle (Unit {0}) × World
  unfolding lift_own_result
  outgoing_response_body import self w = then_lift lift_own_result (import self w)

  pub outgoing_body_write :
      (Handle → World → Memory × World) → Handle → World → Outcome Handle (Unit {0}) × World
  unfolding lift_own_result
  outgoing_body_write import self w = then_lift lift_own_result (import self w)
