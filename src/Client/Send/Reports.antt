-- ===== src/Client/Send/Reports.antt =====
-- What the end of a request of duckdb-httpfs-wasi/wasi_http_client.cpp says of how it went.
use particle_python_wheels.Prelude.{ℕ, Bool, List, [], Option}
use particle_python_wheels.Bindings.Request.Value.{MethodValue}
use particle_python_wheels.Client.Url.{Bytes}
use particle_python_wheels.Client.Body.{Response}
use particle_python_wheels.Client.Host.{Adapters, DuckDb, IsFresh, Answer}
use particle_python_wheels.Client.Recorder.{recorded, recorded_content, recorded_handler}
use particle_python_wheels.Client.Lawful.{Reports}
use particle_python_wheels.Client.Send.{send}
use particle_python_wheels.Client.Send.Ordered.{ordered}
use particle_python_wheels.Client.Send.Ends.{send-Ends}

module _ {World : Type 0} (A : Adapters World) (D : DuckDb) (fuel : ℕ) (url : Bytes)
    (content_handler : Option (Bytes → World → Bool × World))
    (response_handler : Option (Response → World → Answer × World)) (method : MethodValue)
    (fresh : IsFresh D) where
  -- If DuckDB makes its responses as successes with no error's text, the end of a request says how its
  -- calls went, each written down with its answer. If a call was refused, or a read failed with an
  -- error for which the host has a text, the request returns a response that is no success and has an
  -- error's text. If the response handler threw, it throws where the status was below 400, and
  -- otherwise returns a response with that status that is no success. If the future had no response,
  -- the behaviour is undefined, and only then. If none of this happened, the request was dispatched,
  -- its response has come, and it returns a success with no error's text, or else the stream of its
  -- body gave a chunk at as many reads in a row as the fuel.
  pub send-Reports :
      (headers : List (Bytes × Bytes)) (bearer_token : Bytes) (body_data : Option ℕ) (body_len : ℕ)
      (w : World)
      → Reports A fuel content_handler (ordered D method url headers bearer_token) (
          send
            (recorded A)
            D
            fuel
            url
            (recorded_content content_handler)
            (recorded_handler response_handler)
            method
            headers
            bearer_token
            body_data
            body_len
            (w, []))
  send-Reports headers bearer_token body_data body_len w =
      let (owners, v, trace, is_done, tells) =
        send-Ends A D fuel url content_handler response_handler method headers bearer_token
          body_data body_len w in
      (owners, v, trace, tells fresh)
