-- ===== src/Client/Send/Ownership.antt =====
-- The handles that a request of duckdb-httpfs-wasi/wasi_http_client.cpp owns.
use particle_python_wheels.Prelude.{ℕ, Bool, List, [], Option}
use particle_python_wheels.Bindings.Request.Value.{MethodValue}
use particle_python_wheels.Client.Url.{Bytes}
use particle_python_wheels.Client.Body.{Response}
use particle_python_wheels.Client.Host.{Adapters, DuckDb, Answer}
use particle_python_wheels.Client.Recorder.{recorded, recorded_content, recorded_handler}
use particle_python_wheels.Client.Lawful.{IsTidy}
use particle_python_wheels.Client.Send.{send}
use particle_python_wheels.Client.Send.Ordered.{ordered}
use particle_python_wheels.Client.Send.Ends.{send-Ends}

module _ {World : Type 0} (A : Adapters World) (D : DuckDb) (fuel : ℕ) (url : Bytes)
    (content_handler : Option (Bytes → World → Bool × World))
    (response_handler : Option (Response → World → Answer × World)) (method : MethodValue) where
  pub send-IsTidy :
      (headers : List (Bytes × Bytes)) (bearer_token : Bytes) (body_data : Option ℕ) (body_len : ℕ)
      (w : World)
      → IsTidy (ordered D method url headers bearer_token) (
          send
            (recorded A)
            D
            fuel
            url
            (recorded_content content_handler)
            (recorded_handler response_handler)
            method
            headers
            bearer_token
            body_data
            body_len
            (w, []))
  send-IsTidy headers bearer_token body_data body_len w =
      let (owners, v, trace, is_done, tells) =
        send-Ends A D fuel url content_handler response_handler method headers bearer_token
          body_data body_len w in
      (owners, v, trace, is_done)
