-- ===== src/Client/Send/Tests.antt =====
-- Requests of duckdb-httpfs-wasi/wasi_http_client.cpp to a small host, and the theorems about them.
use particle_python_wheels.Prelude.{ℕ, [], ◌∷◌, none, some}
use particle_python_wheels.Bindings.Request.Value.{MethodValue}
use particle_python_wheels.Client.Text.{ascii}
use particle_python_wheels.Client.Host.{Run}
use particle_python_wheels.Client.Sample.{small_host, small_duck, small_duck-IsFresh}
use particle_python_wheels.Client.Recorder.{Recorded, recorded}
use particle_python_wheels.Client.Lawful.{Order, Reports}
use particle_python_wheels.Client.Send.{send}
use particle_python_wheels.Client.Send.Ordered.{ordered}
use particle_python_wheels.Client.Send.Reports.{send-Reports}

abbrev posted : Run (Recorded ℕ)
posted =
    send (recorded small_host) small_duck 5 (ascii "https://a.b/c") none none MethodValue.post
      ((ascii "k", ascii "v") ∷ []) (ascii "t") (some 1000) 3 (0, [])

abbrev post_order : Order
post_order =
    ordered small_duck MethodValue.post (ascii "https://a.b/c") ((ascii "k", ascii "v") ∷ [])
      (ascii "t")

send-Reports_example : Reports small_host 5 none post_order posted
send-Reports_example =
    send-Reports small_host small_duck 5 (ascii "https://a.b/c") none none MethodValue.post
      small_duck-IsFresh ((ascii "k", ascii "v") ∷ []) (ascii "t") (some 1000) 3 0
