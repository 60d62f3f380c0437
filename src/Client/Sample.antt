-- ===== src/Client/Sample.antt =====
-- A small host and a small DuckDB, to run duckdb-httpfs-wasi/wasi_http_client.cpp on.
use particle_python_wheels.Prelude.{
  ℕ, suc, ◌+◌, refl, true, false, [], ◌∷◌, Option, some, ltb, if◌then◌else◌,
}
use particle_python_wheels.Bindings.Memory.{Handle}
use particle_python_wheels.Bindings.Abi.{Result, good, bad}
use particle_python_wheels.Bindings.Streams.Lift.{StreamFailure}
use particle_python_wheels.Client.Url.{Bytes}
use particle_python_wheels.Client.Host.{Adapters, DuckDb, IsFresh}

-- A host that gives each handle the next number, takes everything, answers with status 200 and no
-- header, and closes the body at the third read.
abbrev pub next : ℕ → Handle × ℕ
next w = (w, suc w)

abbrev pub maybe_next : ℕ → Option Handle × ℕ
maybe_next w = (some w, suc w)

abbrev pub read_twice : ℕ → Result Bytes StreamFailure × ℕ
read_twice w = if ltb w 20 then (good (w ∷ []), w + 10) else (bad StreamFailure.closed, w)

abbrev pub small_host : Adapters ℕ
small_host = record {
  new_fields = next;
  append = λ f k v w. (good tt, w);
  new_request = λ f w. next w;
  set_method = λ r m w. (true, w);
  set_scheme = λ r s w. (true, w);
  set_authority = λ r a w. (true, w);
  set_path = λ r p w. (true, w);
  request_body = λ r w. maybe_next w;
  handle = λ r w. (good w, suc w);
  body_write = λ b w. maybe_next w;
  write = λ s c w. (good tt, w);
  finish = λ b w. (good tt, w);
  subscribe = λ f w. next w;
  block = λ p w. w;
  get = λ f w. (some (good (good w)), suc w);
  status = λ r w. (200, w);
  headers = λ r w. next w;
  entries = λ h w. ([], w);
  consume = λ r w. maybe_next w;
  open_stream = λ b w. maybe_next w;
  read = λ s n w. read_twice w;
  to_debug_string = λ e w. ([], w);
  drop_own = λ k h w. w;
}

abbrev pub small_duck : DuckDb
small_duck = record {
  new_response = λ s. record {
    status = s;
    success = true;
    request_error = [];
    url = [];
    reason = [];
    headers = [];
    body = [];
  };
  status_message = λ s. [];
  has_header = λ headers key. false;
  insert = λ headers key value. (key, value) ∷ headers;
}

pub small_duck-IsFresh : IsFresh small_duck
small_duck-IsFresh = record { status = λ s. refl; success = λ s. refl; request_error = λ s. refl }
