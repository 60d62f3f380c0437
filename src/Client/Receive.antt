-- ===== src/Client/Receive.antt =====
-- WasiHTTPClient::Request of duckdb-httpfs-wasi/wasi_http_client.cpp, its parts 4 to 6, which wait for the
-- response and read it, from the end to the beginning: each function does one part and calls the
-- next. The variables that own handles are a list, the last one first; leaving the function drops
-- them in this order.
pub mod Reading
pub mod Leaving
pub mod BodyEnds
pub mod Ends
pub mod Delivery
mod Tests
use particle_python_wheels.Prelude.{
  ℕ, ◌+◌, Bool, true, false, List, [], ◌∷◌, ◌++◌, Option, none, some, ltb,
}
use particle_python_wheels.Bindings.Memory.{Handle}
use particle_python_wheels.Bindings.Abi.{Result, good, bad}
use particle_python_wheels.Bindings.ErrorCode.Value.{ErrorValue}
use particle_python_wheels.Bindings.Request.Value.{MethodValue}
use particle_python_wheels.Client.Text.{ascii}
use particle_python_wheels.Client.Url.{Bytes}
use particle_python_wheels.Client.Body.{Response, read_body}
use particle_python_wheels.Client.Host.{Kind, Adapters, DuckDb, Owners, Answer, Exit, Run}

-- The texts of the failures, in front of the URL.
abbrev pub about : Bytes → Bytes → Bytes
about text url = text ++ url ++ ascii "'"

abbrev pub is_head : MethodValue → Bool
is_head MethodValue.head = true
is_head _ = false

module _ {World : Type 0} (A : Adapters World) (D : DuckDb) (fuel : ℕ) where
  -- Leaving the function: the variables are destroyed.
  pub leave : Exit → Owners → World → Run World
  leave exit [] w = record { exit = exit; world = w }
  leave exit ((k, h) ∷ owners) w = leave exit owners (A.drop_own k h w)

  -- `return fail(msg)`.
  abbrev pub failed : Bytes → Response
  failed msg = record (D.new_response 500) { success = false; request_error = msg }

  pub fail : Bytes → Owners → World → Run World
  unfolding leave
  fail msg owners w = leave (Exit.returned (failed msg)) owners w

  module _ (url : Bytes) (content_handler : Option (Bytes → World → Bool × World)) where
    -- 6. The body of the response.
    pub after_read_body : Owners → Option (Response × World) → World → Run World
    unfolding leave
    after_read_body owners none w = record { exit = Exit.unfinished; world = w }
    after_read_body owners (some (resp, after)) w = leave (Exit.returned resp) owners after

    pub read_stream : Owners → Response → Option Handle × World → Run World
    unfolding after_read_body fail
    read_stream owners resp (none, w) =
        fail (about (ascii "wasi:http: failed to open response body stream for '") url) owners w
    read_stream owners resp (some s, w) =
        after_read_body ((Kind.stream, s) ∷ owners)
          (read_body A.to_debug_string (A.read s) content_handler fuel
            (about (ascii "wasi:http body read failed for '") url ++ ascii ": ") resp w)
          w

    pub open_body : Owners → Response → Option Handle × World → Run World
    unfolding read_stream fail
    open_body owners resp (none, w) =
        fail (about (ascii "wasi:http: failed to consume response body for '") url) owners w
    open_body owners resp (some b, w) =
        read_stream ((Kind.body, b) ∷ owners) resp (A.open_stream b w)

    pub take_body : MethodValue → Handle → Owners → Response → World → Run World
    unfolding open_body leave
    take_body method incoming owners resp w = elim (is_head method) [
      | true ↦ leave (Exit.returned resp) owners w
      | false ↦ open_body owners resp (A.consume incoming w)
    ]

    -- 5. The status, the headers and the handler of the response.
    pub after_answer : MethodValue → Handle → Owners → Response → Answer × World → Run World
    unfolding take_body leave
    after_answer method incoming owners resp (Answer.goes_on, w) =
        take_body method incoming owners resp w
    after_answer method incoming owners resp (Answer.stops, w) = leave (Exit.returned resp) owners w
    after_answer method incoming owners resp (Answer.throws, w) = elim (ltb resp.status 400) [
      | true ↦ leave Exit.thrown owners w
      | false ↦ leave (Exit.returned (record resp { success = false })) owners w
    ]

    pub insert_all : List (Bytes × Bytes) → List (Bytes × Bytes) → List (Bytes × Bytes)
    insert_all headers [] = headers
    insert_all headers ((key, val) ∷ entries) = insert_all (D.insert headers key val) entries

    -- The response without its body.
    abbrev pub response_head : ℕ → List (Bytes × Bytes) → Response
    response_head status entries = record (D.new_response status) {
      url = url;
      reason = D.status_message (D.new_response status).status;
      headers = insert_all (D.new_response status).headers entries;
    }

    module _ (response_handler : Option (Response → World → Answer × World))
        (method : MethodValue) where
      unfoldable pub answer : Response → World → Answer × World
      answer resp w = elim response_handler [
        | none ↦ (Answer.goes_on, w)
        | some handler ↦ handler resp w
      ]

      pub take_headers : Handle → Owners → ℕ → Handle × World → Run World
      unfolding after_answer answer insert_all
      take_headers incoming owners status (rh, w) =
          let (entries, w) = A.entries rh w in
          let w = A.drop_own Kind.response_fields rh w in
          let resp = response_head status entries in
          after_answer method incoming owners resp (answer resp w)

      pub take_response : Owners → Handle → World → Run World
      unfolding take_headers
      take_response owners incoming w =
          let (status, w) = A.status incoming w in
          take_headers incoming ((Kind.response, incoming) ∷ owners) status (A.headers incoming w)

      -- 4. The future of the response.
      pub after_get :
          Owners → Option (Result (Result Handle ErrorValue) (Unit {0})) × World → Run World
      unfolding take_response fail
      after_get owners (some (good (good incoming)), w) = take_response owners incoming w
      after_get owners (some (good (bad error)), w) =
          fail (about (ascii "wasi:http request failed for '") url) owners w
      after_get owners (some (bad _), w) =
          fail (about (ascii "wasi:http request failed for '") url) owners w
      -- Nothing was written to `got`, which is freed nevertheless.
      after_get owners (none, w) = record { exit = Exit.undefined; world = w }

      pub await : Handle → Owners → World → Run World
      unfolding after_get
      await future owners w =
          let (pollable, w) = A.subscribe future w in
          let w = A.block pollable w in
          after_get ((Kind.pollable, pollable) ∷ owners) (A.get future w)
