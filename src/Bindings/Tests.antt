-- ===== src/Bindings/Tests.antt =====
-- Runs of the adapters of duckdb-httpfs-wasi/http_client.c on return areas written out, and the
-- theorems about them at those areas.
use particle_python_wheels.Prelude.{ℕ, zero, suc, ◌+◌, ◌≡◌, refl, List, [], ◌∷◌, Option, none, some}
use particle_python_wheels.Bindings.Memory.{Memory, Handle, Slice}
use particle_python_wheels.Bindings.Abi.{Result}
use particle_python_wheels.Bindings.ErrorCode.{lift_error_code}
use particle_python_wheels.Bindings.ErrorCode.Value.{ErrorValue, view_error}
use particle_python_wheels.Bindings.ErrorCode.Lift.{lift_error_code-read}
use particle_python_wheels.Bindings.Streams.{
  input_stream_read, input_stream_blocking_read, input_stream_skip, input_stream_blocking_skip,
  output_stream_check_write, output_stream_write, output_stream_blocking_write_and_flush,
  output_stream_flush, output_stream_blocking_flush, output_stream_write_zeroes,
  output_stream_blocking_write_zeroes_and_flush, output_stream_splice,
  output_stream_blocking_splice,
}
use particle_python_wheels.Bindings.Streams.Lift.{
  StreamFailure, view, input_stream-lifts, output_stream-lifts,
}
use particle_python_wheels.Bindings.Http.{
  http_error_code, outgoing_handler_handle, outgoing_body_finish, future_incoming_response_get,
  future_trailers_get,
}
use particle_python_wheels.Bindings.Http.Lift.{
  meaning, view_sent, view_response, view_trailers, flattened, futures-lift, handle_and_finish-lift,
}
use particle_python_wheels.Bindings.Abi.{view_option, view_outcome}

-- A return area that holds the bytes of a list, and zeroes behind it.
abbrev pub area : List ℕ → Memory
area [] i = 0
area (b ∷ bs) zero = b
area (b ∷ bs) (suc i) = area bs i

-- HTTP-response-header-size, of the field whose name is the 3 bytes at 0x0102.
abbrev header_size : Memory
header_size = area (27 ∷ 0 ∷ 0 ∷ 0 ∷ 0 ∷ 0 ∷ 0 ∷ 0 ∷ 1 ∷ 0 ∷ 0 ∷ 0 ∷ 2 ∷ 1 ∷ 0 ∷ 0 ∷ 3 ∷ [])

-- The world counts the calls of imports.
abbrev stream_failed : Handle → ℕ → ℕ → Memory × ℕ
stream_failed self len w = (area (1 ∷ 0 ∷ 0 ∷ 0 ∷ 0 ∷ 0 ∷ 0 ∷ 0 ∷ 9 ∷ []), w + 1)

abbrev check_ready : Handle → ℕ → Memory × ℕ
check_ready self w = (area (0 ∷ 0 ∷ 0 ∷ 0 ∷ 0 ∷ 0 ∷ 0 ∷ 0 ∷ 0 ∷ 16 ∷ []), w + 1)

abbrev send_closed : Handle → ℕ → ℕ → ℕ → Memory × ℕ
send_closed self ptr len w = (area (1 ∷ 0 ∷ 0 ∷ 0 ∷ 1 ∷ []), w + 1)

-- An answer that is all zeroes but for its first byte and the handle 7 where a future keeps one.
abbrev answered : Handle → ℕ → Memory × ℕ
answered self w = (
  area (
      1 ∷ 0 ∷ 0 ∷ 0 ∷ 0 ∷ 0 ∷ 0 ∷ 0 ∷ 0 ∷ 0 ∷ 0 ∷ 0 ∷ 0 ∷ 0 ∷ 0 ∷ 0 ∷ 0 ∷ 0 ∷ 0 ∷ 0 ∷ 0 ∷ 0 ∷ 0 ∷ 0
      ∷ 7 ∷ []),
  w + 1,
)

abbrev trapped : ℕ → Memory × ℕ
trapped w = (area [], w)

-- Refuses a request without options.
abbrev refusing : Handle → Option Handle → ℕ → Memory × ℕ
refusing self none w = (area (1 ∷ 0 ∷ 0 ∷ 0 ∷ 0 ∷ 0 ∷ 0 ∷ 0 ∷ 6 ∷ []), w + 1)
refusing self (some options) w = (area (0 ∷ 0 ∷ 0 ∷ 0 ∷ 0 ∷ 0 ∷ 0 ∷ 0 ∷ options ∷ []), w + 1)

lift_error_code-run :
    view_error (lift_error_code header_size)
    ≡ some (ErrorValue.http_response_header_size (some (record { ptr = 258; len = 3 }), none))
unfolding lift_error_code
lift_error_code-run = refl

lift_error_code-read_example :
    some (ErrorValue.http_response_header_size (some (record { ptr = 258; len = 3 }), none))
    ≡ view_error (lift_error_code header_size)
lift_error_code-read_example = lift_error_code-read header_size

input_stream-lifts_example :
    (view (input_stream_read stream_failed 5 100 0)
      ≡ (some (Result.bad (StreamFailure.last_operation_failed 9)), 1))
    × (view (input_stream_blocking_read stream_failed 5 100 0)
        ≡ (some (Result.bad (StreamFailure.last_operation_failed 9)), 1))
    × (view (input_stream_skip stream_failed 5 100 0) ≡ (none, 1))
    × (view (input_stream_blocking_skip stream_failed 5 100 0) ≡ (none, 1))
input_stream-lifts_example = input_stream-lifts stream_failed 5 100 0

abbrev contents : Slice
contents = record { ptr = 64; len = 16 }

output_stream-lifts_example :
    (view (output_stream_check_write check_ready 5 0) ≡ (some (Result.good 4096), 1))
    × (view (output_stream_write send_closed 5 contents 0)
        ≡ (some (Result.bad StreamFailure.closed), 1))
    × (view (output_stream_blocking_write_and_flush send_closed 5 contents 0)
        ≡ (some (Result.bad StreamFailure.closed), 1))
    × (view (output_stream_flush check_ready 5 0) ≡ (some (Result.good tt), 1))
    × (view (output_stream_blocking_flush check_ready 5 0) ≡ (some (Result.good tt), 1))
    × (view (output_stream_write_zeroes stream_failed 5 8 0)
        ≡ (some (Result.bad (StreamFailure.last_operation_failed 9)), 1))
    × (view (output_stream_blocking_write_zeroes_and_flush stream_failed 5 8 0)
        ≡ (some (Result.bad (StreamFailure.last_operation_failed 9)), 1))
    × (view (output_stream_splice send_closed 5 6 8 0)
        ≡ (some (Result.bad (StreamFailure.last_operation_failed 0)), 1))
    × (view (output_stream_blocking_splice send_closed 5 6 8 0)
        ≡ (some (Result.bad (StreamFailure.last_operation_failed 0)), 1))
output_stream-lifts_example =
    output_stream-lifts check_ready send_closed stream_failed 5 6 contents 8 0

futures-lift_example :
    (meaning (view_option view_error) (http_error_code answered 5 0)
      ≡ (some (some ErrorValue.dns_timeout), 1))
    × (meaning view_response (future_incoming_response_get answered 5 0)
        ≡ (some (some (Result.good (Result.good 7))), 1))
    × (meaning view_trailers (future_trailers_get answered 5 0) ≡ (none, 1))
futures-lift_example = futures-lift answered 5 0

handle_and_finish-lift_example :
    (meaning view_sent (outgoing_handler_handle (flattened trapped refusing) 5 none 0)
      ≡ (some (Result.bad ErrorValue.connection_refused), 1))
    × (meaning
          (view_outcome some view_error)
          (outgoing_body_finish (flattened trapped refusing) 5 none 0)
        ≡ (some (Result.bad ErrorValue.connection_refused), 1))
handle_and_finish-lift_example = handle_and_finish-lift trapped refusing 5 none 0
