-- ===== src/Client/Send.antt =====
-- WasiHTTPClient::Request of duckdb-httpfs-wasi/wasi_http_client.cpp, its parts 1 to 3b, which build the
-- request, dispatch it and write its body, from the end to the beginning. The functions below take
-- the parts 4 to 6 from Client.Receive.
pub mod Ordered
pub mod Drafting
pub mod Writing
pub mod Ends
pub mod Ownership
pub mod Reports
mod Tests
use particle_python_wheels.Prelude.{
  ℕ, suc, Bool, true, false, List, [], ◌∷◌, ◌++◌, Option, none, some, if◌then◌else◌,
}
use particle_python_wheels.Bindings.Memory.{Handle}
use particle_python_wheels.Bindings.Abi.{Result, good, bad}
use particle_python_wheels.Bindings.ErrorCode.Value.{ErrorValue}
use particle_python_wheels.Bindings.Fields.Lift.{HeaderFailure}
use particle_python_wheels.Bindings.Request.Value.{MethodValue, SchemeValue}
use particle_python_wheels.Client.Text.{ascii}
use particle_python_wheels.Client.Url.{Bytes, ParsedUrl, parse_url}
use particle_python_wheels.Client.Body.{Response, Written, write_loop}
use particle_python_wheels.Client.Host.{Kind, Adapters, DuckDb, Owners, Answer, Exit, Run}
use particle_python_wheels.Client.Receive.{about, fail, await}

module _ {World : Type 0} (A : Adapters World) (D : DuckDb) (fuel : ℕ) (url : Bytes)
    (content_handler : Option (Bytes → World → Bool × World))
    (response_handler : Option (Response → World → Answer × World)) (method : MethodValue) where
  -- 3b. The body of the request, given by its address and its length, and its outgoing-body.
  pub after_finish : Handle → Owners → Result (Unit {0}) ErrorValue × World → Run World
  after_finish future owners (good _, w) =
      await A D fuel url content_handler response_handler method future owners w
  after_finish future owners (bad error, w) =
      fail A D fuel (about (ascii "wasi:http: failed to finish request body for '") url) owners w

  -- `owners` are those outside of the block of the stream, without the body's.
  pub after_write_loop : Handle → Handle → Handle → Option (Written × World) → World → Run World
  unfolding after_finish
  after_write_loop out_body out_stream future none w = record { exit = Exit.unfinished; world = w }
  after_write_loop out_body out_stream future (some (Written.write_failed msg, w)) _ =
      fail A D fuel msg
        ((Kind.out_stream, out_stream) ∷ (Kind.future, future) ∷ (Kind.out_body, out_body) ∷ []) w
  after_write_loop out_body out_stream future (some (Written.all_written, w)) _ =
      let w = A.drop_own Kind.out_stream out_stream w in
      after_finish future ((Kind.future, future) ∷ []) (A.finish out_body w)

  pub write_stream : Handle → Handle → ℕ → ℕ → Option Handle × World → Run World
  unfolding after_write_loop
  write_stream out_body future body_data body_len (none, w) =
      fail A D fuel (about (ascii "wasi:http: failed to open request body stream for '") url)
        ((Kind.future, future) ∷ (Kind.out_body, out_body) ∷ []) w
  write_stream out_body future body_data body_len (some os, w) =
      after_write_loop out_body os future
        (write_loop A.to_debug_string (A.write os)
          (about (ascii "wasi:http: failed to write request body for '") url) body_data body_len
          (suc body_len) 0 w)
        w

  -- 3. The dispatch. `body` is `body_data`, with the outgoing-body if it is not null.
  pub owned_body : Option (ℕ × Handle) → Owners
  owned_body none = []
  owned_body (some (body_data, out_body)) = (Kind.out_body, out_body) ∷ []

  pub after_handle : Option (ℕ × Handle) → ℕ → Result Handle ErrorValue × World → Run World
  unfolding write_stream owned_body
  after_handle body body_len (bad error, w) =
      fail A D fuel (about (ascii "wasi:http outgoing-handler.handle failed for '") url)
        (owned_body body) w
  after_handle none body_len (good future, w) =
      await A D fuel url content_handler response_handler method future ((Kind.future, future) ∷ [])
        w
  after_handle (some (body_data, out_body)) body_len (good future, w) =
      write_stream out_body future body_data body_len (A.body_write out_body w)

  pub dispatch : Handle → Option (ℕ × Handle) → ℕ → World → Run World
  unfolding after_handle
  dispatch request body body_len w = after_handle body body_len (A.handle request w)

  -- 2b. The outgoing-body.
  pub after_request_body : Handle → ℕ → ℕ → Option Handle × World → Run World
  unfolding dispatch
  after_request_body request body_data body_len (none, w) =
      fail A D fuel (about (ascii "wasi:http: failed to acquire request body for '") url)
        ((Kind.request, request) ∷ []) w
  after_request_body request body_data body_len (some out_body, w) =
      dispatch request (some (body_data, out_body)) body_len w

  pub take_request_body : Handle → Option ℕ → ℕ → World → Run World
  unfolding after_request_body dispatch
  take_request_body request none body_len w = dispatch request none body_len w
  take_request_body request (some body_data) body_len w =
      after_request_body request body_data body_len (A.request_body request w)

  -- 2. The setters, each called if the ones before did not refuse.
  abbrev pub and_also : Bool × World → (World → Bool × World) → Bool × World
  and_also (false, w) next = (false, w)
  and_also (true, w) next = next w

  pub set_all : Handle → ParsedUrl → World → Bool × World
  set_all request parsed w =
      and_also
        (and_also
          (and_also (A.set_method request method w)
            (A.set_scheme request (if parsed.https then SchemeValue.https else SchemeValue.http)))
          (A.set_authority request parsed.authority))
        (A.set_path request parsed.path)

  pub after_setters : Handle → Option ℕ → ℕ → Bool × World → Run World
  unfolding take_request_body
  after_setters request body_data body_len (false, w) =
      fail A D fuel (about (ascii "wasi:http: failed to build outgoing request for '") url)
        ((Kind.request, request) ∷ []) w
  after_setters request body_data body_len (true, w) =
      take_request_body request body_data body_len w

  pub build_request : Option ℕ → ℕ → Handle × World → Run World
  unfolding set_all after_setters
  build_request body_data body_len (request, w) =
      after_setters request body_data body_len (set_all request (parse_url url) w)

  -- 1. The header fields: the error's text, or [] where there is none.
  abbrev pub why : HeaderFailure → Bytes
  why HeaderFailure.forbidden = ascii "forbidden"
  why HeaderFailure.immutable = ascii "immutable"
  why HeaderFailure.invalid_syntax = ascii "invalid syntax"

  pub appended : Bytes → Result (Unit {0}) HeaderFailure × World → Bytes × World
  appended key (good _, w) = ([], w)
  appended key (bad error, w) =
      (ascii "wasi:http rejected header '" ++ key ++ ascii "' (" ++ why error ++ ascii ")", w)

  -- The loop ends at the first entry that is refused.
  pub append_rest : (World → Bytes × World) → Bytes × World → Bytes × World
  append_rest rest ([], w) = rest w
  append_rest rest (c ∷ cs, w) = (c ∷ cs, w)

  pub append_all : Handle → List (Bytes × Bytes) → World → Bytes × World
  unfolding appended append_rest
  append_all fields [] w = ([], w)
  append_all fields ((key, value) ∷ rest) w =
      append_rest (append_all fields rest) (appended key (A.append fields key value w))

  pub append_token : Handle → List (Bytes × Bytes) → Bytes → Bytes × World → Bytes × World
  unfolding appended
  append_token fields headers bearer_token (c ∷ cs, w) = (c ∷ cs, w)
  append_token fields headers [] ([], w) = ([], w)
  append_token fields headers (t ∷ token) ([], w) =
      if D.has_header headers (ascii "Authorization")
      then ([], w)
      else appended (ascii "Authorization")
          (A.append fields (ascii "Authorization") (ascii "Bearer " ++ (t ∷ token)) w)

  pub after_headers : Handle → Option ℕ → ℕ → Bytes × World → Run World
  unfolding build_request
  after_headers fields body_data body_len (c ∷ cs, w) =
      fail A D fuel (c ∷ cs) ((Kind.fields, fields) ∷ []) w
  after_headers fields body_data body_len ([], w) =
      build_request body_data body_len (A.new_request fields w)

  pub send : List (Bytes × Bytes) → Bytes → Option ℕ → ℕ → World → Run World
  unfolding append_all append_token after_headers
  send headers bearer_token body_data body_len w =
      let (fields, w) = A.new_fields w in
      after_headers fields body_data body_len
        (append_token fields headers bearer_token (append_all fields headers w))
