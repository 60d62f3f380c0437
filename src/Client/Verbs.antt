-- ===== src/Client/Verbs.antt =====
-- The methods Get, Head, Put, Post and Delete of WasiHTTPClient in
-- duckdb-httpfs-wasi/wasi_http_client.cpp. `assign` is operator[] of DuckDB's HTTPHeaders with an
-- assignment.
pub mod Asks
mod Tests
use particle_python_wheels.Prelude.{ℕ, Bool, List, Option, none, some, if◌then◌else◌}
use particle_python_wheels.Bindings.Request.Value.{MethodValue}
use particle_python_wheels.Client.Text.{ascii}
use particle_python_wheels.Client.Url.{Bytes}
use particle_python_wheels.Client.Body.{Response}
use particle_python_wheels.Client.Host.{Adapters, DuckDb, Answer, Exit, Run}
use particle_python_wheels.Client.Send.{send}

abbrev pub Headers : Type 0
Headers = List (Bytes × Bytes)

pub record GetRequestInfo (World : Type 0) : Type 0 where
  pub headers : Headers
  pub url : Bytes
  pub content_handler : Bytes → World → Bool × World
  pub response_handler : Response → World → Answer × World

-- HeadRequestInfo and DeleteRequestInfo.
pub record RequestInfo : Type 0 where
  pub headers : Headers
  pub url : Bytes

-- `buffer_in` is an address, or nothing if it is null.
pub record PutRequestInfo : Type 0 where
  pub headers : Headers
  pub url : Bytes
  pub buffer_in : Option ℕ
  pub buffer_in_len : ℕ
  pub content_type : Bytes

pub record PostRequestInfo : Type 0 where
  pub headers : Headers
  pub url : Bytes
  pub buffer_in : Option ℕ
  pub buffer_in_len : ℕ
  pub send_post_as_get_request : Bool

module _ {World : Type 0} (A : Adapters World) (D : DuckDb) (fuel : ℕ)
    (assign : Headers → Bytes → Bytes → Headers) (bearer_token : Bytes) where
  pub get : GetRequestInfo World → World → Run World
  get info w =
      send A D fuel info.url (some info.content_handler) (some info.response_handler)
        MethodValue.get info.headers bearer_token none 0 w

  pub head : RequestInfo → World → Run World
  head info w = send A D fuel info.url none none MethodValue.head info.headers bearer_token none 0 w

  pub put : PutRequestInfo → World → Run World
  put info w =
      send A D fuel info.url none none MethodValue.put
        (assign info.headers (ascii "Content-Type") info.content_type) bearer_token info.buffer_in
        info.buffer_in_len w

  abbrev pub typed : Headers → Headers
  typed headers =
      if D.has_header headers (ascii "Content-Type")
      then headers
      else assign headers (ascii "Content-Type") (ascii "application/octet-stream")

  -- What becomes of `info.buffer_out`: the body of what Request returns.
  abbrev pub buffer_out : Exit → Option Bytes
  buffer_out (Exit.returned resp) = some resp.body
  buffer_out Exit.thrown = none
  buffer_out Exit.unfinished = none
  buffer_out Exit.undefined = none

  pub post : PostRequestInfo → World → Run World × Option Bytes
  post info w =
      let r =
        send A D fuel info.url none none
          (if info.send_post_as_get_request then MethodValue.get else MethodValue.post)
          (typed info.headers) bearer_token info.buffer_in info.buffer_in_len w in
      (r, buffer_out r.exit)

  pub delete : RequestInfo → World → Run World
  delete info w =
      send A D fuel info.url none none MethodValue.delete info.headers bearer_token none 0 w
