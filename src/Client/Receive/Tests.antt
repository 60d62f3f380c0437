-- ===== src/Client/Receive/Tests.antt =====
-- A response of a small host, read by the parts 4 to 6 of WasiHTTPClient::Request in
-- duckdb-httpfs-wasi/wasi_http_client.cpp.
use particle_python_wheels.Prelude.{◌≡◌, refl, true, [], ◌∷◌, none, arith}
use particle_python_wheels.Bindings.Streams.Lift.{StreamFailure}
use particle_python_wheels.Bindings.Request.Value.{MethodValue}
use particle_python_wheels.Client.Text.{ascii}
use particle_python_wheels.Client.Url.{Bytes}
use particle_python_wheels.Client.Body.Read.{Serves}
use particle_python_wheels.Client.Host.{Exit}
use particle_python_wheels.Client.Sample.{small_host, small_duck}
use particle_python_wheels.Client.Receive.{answer, await, insert_all}
use particle_python_wheels.Client.Receive.Delivery.{Delivers, await-Delivers}

abbrev url : Bytes
url = ascii "https://a.b/c"

small_host-Delivers :
    Delivers small_host small_duck 5 url none none MethodValue.get 5 6 200 []
      ((11 ∷ []) ∷ [])
      StreamFailure.closed
      21
unfolding answer
small_host-Delivers = record {
  pollable = 6;
  incoming = 7;
  fields = 8;
  body = 9;
  stream = 10;
  w1 = 7;
  w2 = 8;
  w3 = 8;
  w4 = 9;
  w5 = 9;
  w6 = 9;
  w7 = 10;
  w8 = 11;
  subscribed = refl;
  got = refl;
  has_status = refl;
  has_headers = refl;
  has_entries = refl;
  answered = refl;
  consumed = refl;
  opened = refl;
  served = Serves.more refl (Serves.over refl);
}

await-Delivers_example :
    (await small_host small_duck 5 url none none MethodValue.get 5 [] 6).exit
    ≡ Exit.returned (record {
      status = 200;
      success = true;
      request_error = [];
      url = url;
      reason = [];
      headers = [];
      body = 11 ∷ [];
    })
unfolding insert_all
await-Delivers_example =
    await-Delivers small_host small_duck 5 url none none MethodValue.get 5 [] 6 21 200 []
      ((11 ∷ []) ∷ []) StreamFailure.closed small_host-Delivers refl (omega arith)
