-- ===== src/Bindings/Streams.antt =====
-- The adapters of wasi:io/streams in duckdb-httpfs-wasi/http_client.c. Each one calls its import once
-- and lifts the return area that the import fills; the imports are parameters.
pub mod Lift
use particle_python_wheels.Prelude.{ℕ, [], ◌∷◌}
use particle_python_wheels.Bindings.Memory.{
  Memory, shift, load_u8, load_u32, load_u64, load_slice, Handle, Slice, Outcome, lift_result,
  switch,
}

-- The union of wasi_io_streams_stream_error_t; `uninit` where its member was not assigned.
pub data StreamPayload : Type 0 where
  uninit : StreamPayload
  last_operation_failed : Handle → StreamPayload

pub record StreamError : Type 0 where
  pub tag : ℕ
  pub val : StreamPayload

-- The switch over a stream error, from the place of its tag on.
pub lift_stream_error : Memory → StreamError
lift_stream_error m = record {
  tag = load_u8 m 0;
  val =
      switch (load_u8 m 0) StreamPayload.uninit
        ((0, StreamPayload.last_operation_failed (load_u32 m 4)) ∷ (1, StreamPayload.uninit) ∷ []);
}

-- The three shapes of a result: of a list, of a number, and of nothing.
pub lift_list_result : Memory → Outcome Slice StreamError
unfolding lift_stream_error
lift_list_result m = lift_result (load_u8 m 0) (load_slice m 4) (lift_stream_error (shift 4 m))

pub lift_u64_result : Memory → Outcome ℕ StreamError
unfolding lift_stream_error
lift_u64_result m = lift_result (load_u8 m 0) (load_u64 m 8) (lift_stream_error (shift 8 m))

pub lift_void_result : Memory → Outcome (Unit {0}) StreamError
unfolding lift_stream_error
lift_void_result m = lift_result (load_u8 m 0) tt (lift_stream_error (shift 4 m))

-- What is outside of the program, and a call that may change it.
module _ {World : Type 0} where
  abbrev pub then_lift : {A : Type 0} → (Memory → A) → Memory × World → A × World
  then_lift f (m, w) = (f m, w)

  pub input_stream_read :
      (Handle → ℕ → World → Memory × World) → Handle → ℕ → World → Outcome Slice StreamError × World
  unfolding lift_list_result
  input_stream_read import self len w = then_lift lift_list_result (import self len w)

  pub input_stream_blocking_read :
      (Handle → ℕ → World → Memory × World) → Handle → ℕ → World → Outcome Slice StreamError × World
  unfolding lift_list_result
  input_stream_blocking_read import self len w = then_lift lift_list_result (import self len w)

  pub input_stream_skip :
      (Handle → ℕ → World → Memory × World) → Handle → ℕ → World → Outcome ℕ StreamError × World
  unfolding lift_u64_result
  input_stream_skip import self len w = then_lift lift_u64_result (import self len w)

  pub input_stream_blocking_skip :
      (Handle → ℕ → World → Memory × World) → Handle → ℕ → World → Outcome ℕ StreamError × World
  unfolding lift_u64_result
  input_stream_blocking_skip import self len w = then_lift lift_u64_result (import self len w)

  pub output_stream_check_write :
      (Handle → World → Memory × World) → Handle → World → Outcome ℕ StreamError × World
  unfolding lift_u64_result
  output_stream_check_write import self w = then_lift lift_u64_result (import self w)

  pub output_stream_write :
      (Handle → ℕ → ℕ → World → Memory × World)
      → Handle
      → Slice
      → World
      → Outcome (Unit {0}) StreamError × World
  unfolding lift_void_result
  output_stream_write import self contents w =
      then_lift lift_void_result (import self contents.ptr contents.len w)

  pub output_stream_blocking_write_and_flush :
      (Handle → ℕ → ℕ → World → Memory × World)
      → Handle
      → Slice
      → World
      → Outcome (Unit {0}) StreamError × World
  unfolding lift_void_result
  output_stream_blocking_write_and_flush import self contents w =
      then_lift lift_void_result (import self contents.ptr contents.len w)

  pub output_stream_flush :
      (Handle → World → Memory × World) → Handle → World → Outcome (Unit {0}) StreamError × World
  unfolding lift_void_result
  output_stream_flush import self w = then_lift lift_void_result (import self w)

  pub output_stream_blocking_flush :
      (Handle → World → Memory × World) → Handle → World → Outcome (Unit {0}) StreamError × World
  unfolding lift_void_result
  output_stream_blocking_flush import self w = then_lift lift_void_result (import self w)

  pub output_stream_write_zeroes :
      (Handle → ℕ → World → Memory × World)
      → Handle
      → ℕ
      → World
      → Outcome (Unit {0}) StreamError × World
  unfolding lift_void_result
  output_stream_write_zeroes import self len w = then_lift lift_void_result (import self len w)

  pub output_stream_blocking_write_zeroes_and_flush :
      (Handle → ℕ → World → Memory × World)
      → Handle
      → ℕ
      → World
      → Outcome (Unit {0}) StreamError × World
  unfolding lift_void_result
  output_stream_blocking_write_zeroes_and_flush import self len w =
      then_lift lift_void_result (import self len w)

  pub output_stream_splice :
      (Handle → Handle → ℕ → World → Memory × World)
      → Handle
      → Handle
      → ℕ
      → World
      → Outcome ℕ StreamError × World
  unfolding lift_u64_result
  output_stream_splice import self src len w = then_lift lift_u64_result (import self src len w)

  pub output_stream_blocking_splice :
      (Handle → Handle → ℕ → World → Memory × World)
      → Handle
      → Handle
      → ℕ
      → World
      → Outcome ℕ StreamError × World
  unfolding lift_u64_result
  output_stream_blocking_splice import self src len w =
      then_lift lift_u64_result (import self src len w)
