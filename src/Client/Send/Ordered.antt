-- ===== src/Client/Send/Ordered.antt =====
-- The request that a caller of WasiHTTPClient::Request in duckdb-httpfs-wasi/wasi_http_client.cpp
-- orders.
use particle_python_wheels.Prelude.{List, [], ◌∷◌, ◌++◌, if◌then◌else◌}
use particle_python_wheels.Bindings.Request.Value.{MethodValue, SchemeValue}
use particle_python_wheels.Client.Text.{ascii}
use particle_python_wheels.Client.Url.{Bytes, parse_url}
use particle_python_wheels.Client.Host.{DuckDb}
use particle_python_wheels.Client.Recorder.{Choice}
use particle_python_wheels.Client.Lawful.{Order}

-- What a token adds to the headers, unless they authorize themselves.
abbrev pub credentials : DuckDb → List (Bytes × Bytes) → Bytes → List (Bytes × Bytes)
credentials D headers [] = []
credentials D headers (t ∷ token) =
    if D.has_header headers (ascii "Authorization")
    then []
    else (ascii "Authorization", ascii "Bearer " ++ (t ∷ token)) ∷ []

abbrev pub choices_for : MethodValue → Bytes → List Choice
choices_for method url =
    Choice.method method
    ∷ Choice.scheme (if (parse_url url).https then SchemeValue.https else SchemeValue.http)
    ∷ Choice.authority (parse_url url).authority
    ∷ Choice.path (parse_url url).path
    ∷ []

-- The headers in their order, the credentials, and the parts of the URL.
abbrev pub ordered : DuckDb → MethodValue → Bytes → List (Bytes × Bytes) → Bytes → Order
ordered D method url headers token = record {
  fields = headers ++ credentials D headers token;
  choices = choices_for method url;
}
