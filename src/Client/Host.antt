-- ===== src/Client/Host.antt =====
-- What WasiHTTPClient::Request of duckdb-httpfs-wasi/wasi_http_client.cpp calls: the adapters of
-- http_client.c, given by the values that their results stand for, and DuckDB, which is not code of
-- this repository.
use particle_python_wheels.Prelude.{ℕ, ◌≡◌, Bool, true, List, [], Option, none, some, ◌==◌}
use particle_python_wheels.Bindings.Memory.{Handle, Slice}
use particle_python_wheels.Bindings.Abi.{Result}
use particle_python_wheels.Bindings.ErrorCode.Value.{ErrorValue}
use particle_python_wheels.Bindings.Streams.Lift.{StreamFailure}
use particle_python_wheels.Bindings.Fields.Lift.{HeaderFailure}
use particle_python_wheels.Bindings.Request.Value.{MethodValue, SchemeValue}
use particle_python_wheels.Client.Url.{Bytes}
use particle_python_wheels.Client.Body.{Response}

-- The variables of Request that own a handle.
pub data Kind : Type 0 where
  fields request out_body out_stream future pollable response response_fields body stream : Kind

abbrev number : Kind → ℕ
number Kind.fields = 0
number Kind.request = 1
number Kind.out_body = 2
number Kind.out_stream = 3
number Kind.future = 4
number Kind.pollable = 5
number Kind.response = 6
number Kind.response_fields = 7
number Kind.body = 8
number Kind.stream = 9

abbrev pub same_kind : Kind → Kind → Bool
same_kind k l = number k == number l

-- A component must not give away a handle while it has one that was made from it: wasi:http's
-- resources are children of one another so.
abbrev pub parent : Kind → Option Kind
parent Kind.out_stream = some Kind.out_body
parent Kind.pollable = some Kind.future
parent Kind.response_fields = some Kind.response
parent Kind.stream = some Kind.body
parent _ = none

pub record Adapters (World : Type 0) : Type 0 where
  pub new_fields : World → Handle × World
  pub append : Handle → Bytes → Bytes → World → Result (Unit {0}) HeaderFailure × World
  pub new_request : Handle → World → Handle × World
  pub set_method : Handle → MethodValue → World → Bool × World
  pub set_scheme : Handle → SchemeValue → World → Bool × World
  pub set_authority : Handle → Bytes → World → Bool × World
  pub set_path : Handle → Bytes → World → Bool × World
  pub request_body : Handle → World → Option Handle × World
  pub handle : Handle → World → Result Handle ErrorValue × World
  pub body_write : Handle → World → Option Handle × World
  pub write : Handle → Slice → World → Result (Unit {0}) StreamFailure × World
  pub finish : Handle → World → Result (Unit {0}) ErrorValue × World
  pub subscribe : Handle → World → Handle × World
  pub block : Handle → World → World
  pub get : Handle → World → Option (Result (Result Handle ErrorValue) (Unit {0})) × World
  pub status : Handle → World → ℕ × World
  pub headers : Handle → World → Handle × World
  pub entries : Handle → World → List (Bytes × Bytes) × World
  pub consume : Handle → World → Option Handle × World
  pub open_stream : Handle → World → Option Handle × World
  pub read : Handle → ℕ → World → Result Bytes StreamFailure × World
  pub to_debug_string : Handle → World → Bytes × World
  pub drop_own : Kind → Handle → World → World

-- DuckDB's constructor of HTTPResponse, HTTPUtil::GetStatusMessage, HTTPHeaders::HasHeader and Insert.
pub record DuckDb : Type 0 where
  pub new_response : ℕ → Response
  pub status_message : ℕ → Bytes
  pub has_header : List (Bytes × Bytes) → Bytes → Bool
  pub insert : List (Bytes × Bytes) → Bytes → Bytes → List (Bytes × Bytes)

-- A new HTTPResponse has the status that it was made with, is a success and has no error's text.
pub record IsFresh (D : DuckDb) : Type 0 where
  pub status : (s : ℕ) → (D.new_response s).status ≡ s
  pub success : (s : ℕ) → (D.new_response s).success ≡ true
  pub request_error : (s : ℕ) → (D.new_response s).request_error ≡ []

abbrev pub Owners : Type 0
Owners = List (Kind × Handle)

-- What a response handler answers, or that it throws.
pub data Answer : Type 0 where
  goes_on stops throws : Answer

-- How a request ends: it returns, it throws what the response handler threw, its loop over the
-- response's body is not at its end when the fuel is, or its behaviour is undefined, since it frees
-- a variable that nothing was written to.
pub data Exit : Type 0 where
  returned : Response → Exit
  thrown unfinished undefined : Exit

pub record Run (World : Type 0) : Type 0 where
  pub exit : Exit
  pub world : World
