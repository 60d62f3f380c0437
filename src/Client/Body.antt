-- ===== src/Client/Body.antt =====
-- The bodies of a request and of a response in WasiHTTPClient::Request of
-- duckdb-httpfs-wasi/wasi_http_client.cpp. The adapters that the loops call are parameters: a stream
-- error is given as the value that it stands for, and a list of bytes that is read as its bytes.
pub mod Write
pub mod Read
use particle_python_wheels.Prelude.{
  ℕ, zero, suc, ◌+◌, ◌-◌, ◌^◌, Bool, true, false, List, [], ◌∷◌, ◌++◌, Option, none, some, ltb,
  if◌then◌else◌,
}
use particle_python_wheels.Bindings.Memory.{Handle, Slice}
use particle_python_wheels.Bindings.Abi.{Result, good, bad}
use particle_python_wheels.Bindings.Streams.Lift.{StreamFailure}
use particle_python_wheels.Client.Url.{Bytes, colon}

abbrev pub chunk_limit : ℕ
chunk_limit = 4096

abbrev pub read_limit : ℕ
read_limit = 2 ^ 16

-- How the writing of a body ends; a failure has its message.
pub data Written : Type 0 where
  all_written : Written
  write_failed : Bytes → Written

-- The members of DuckDB's HTTPResponse that the client uses.
pub record Response : Type 0 where
  pub status : ℕ
  pub success : Bool
  pub request_error : Bytes
  pub url : Bytes
  pub reason : Bytes
  pub headers : List (Bytes × Bytes)
  pub body : Bytes

-- The size of the next chunk, if `left` bytes are left.
unfoldable pub chunk_size : ℕ → ℕ
chunk_size left = if ltb chunk_limit left then chunk_limit else left

module _ {World : Type 0} (to_debug_string : Handle → World → Bytes × World) where
  -- What a failed write makes of the message.
  unfoldable pub write_failure : Bytes → StreamFailure → World → Written × World
  write_failure msg (StreamFailure.last_operation_failed error) w =
      let (dbg, after) = to_debug_string error w in
      (Written.write_failed (msg ++ (colon ∷ 32 ∷ dbg)), after)
  write_failure msg StreamFailure.closed w = (Written.write_failed msg, w)

  module _ (write : Slice → World → Result (Unit {0}) StreamFailure × World) (msg : Bytes)
      (body_data body_len : ℕ) where
    unfoldable pub after_write :
        (World → Option (Written × World))
        → Result (Unit {0}) StreamFailure × World
        → Option (Written × World)
    unfolding write_failure
    after_write next (good _, w) = next w
    after_write next (bad error, w) = some (write_failure msg error w)

    -- The loop over the offset; `fuel` bounds its rounds.
    unfoldable pub write_loop : ℕ → ℕ → World → Option (Written × World)
    unfolding after_write chunk_size
    write_loop zero off w = none
    write_loop (suc fuel) off w = elim (ltb off body_len) [
      | false ↦ some (Written.all_written, w)
      | true ↦
          let n = chunk_size (body_len - off) in
          after_write (write_loop fuel (off + n))
            (write (record { ptr = body_data + off; len = n }) w)
    ]

  module _ (read : ℕ → World → Result Bytes StreamFailure × World)
      (content_handler : Option (Bytes → World → Bool × World)) where
    -- What becomes of the body and of the world with a chunk. The answer of the handler is dropped.
    unfoldable pub take_chunk : Bytes → Bytes → World → Bytes × World
    take_chunk body [] w = (body, w)
    take_chunk body (c ∷ cs) w = elim content_handler [
      | none ↦ (body ++ (c ∷ cs), w)
      | some handler ↦ (body, (handler (c ∷ cs) w).1)
    ]

    unfoldable pub after_read :
        (Bytes → World → Option (Bytes × Bytes × World))
        → Bytes
        → Result Bytes StreamFailure × World
        → Option (Bytes × Bytes × World)
    unfolding take_chunk
    after_read next body (good chunk, w) =
        let (more, after) = take_chunk body chunk w in next more after
    after_read next body (bad (StreamFailure.last_operation_failed error), w) =
        let (dbg, after) = to_debug_string error w in some (dbg, body, after)
    after_read next body (bad StreamFailure.closed, w) = some ([], body, w)

    -- The loop of the reads: read_error, the body and the world when it ends.
    unfoldable pub read_loop : ℕ → Bytes → World → Option (Bytes × Bytes × World)
    unfolding after_read
    read_loop zero body w = none
    read_loop (suc fuel) body w = after_read (read_loop fuel) body (read read_limit w)

    -- The response behind the loop; `msg` is the text in front of read_error.
    unfoldable pub finish_read : Bytes → Response → Bytes × Bytes × World → Response × World
    finish_read msg resp ([], body, w) = (record resp { body = body }, w)
    finish_read msg resp (c ∷ cs, body, w) =
        (record resp { success = false; request_error = msg ++ (c ∷ cs); body = body }, w)

    unfoldable pub read_body : ℕ → Bytes → Response → World → Option (Response × World)
    unfolding read_loop finish_read
    read_body fuel msg resp w = elim (read_loop fuel resp.body w) [
      | none ↦ none
      | some r ↦ some (finish_read msg resp r)
    ]
