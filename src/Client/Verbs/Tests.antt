-- ===== src/Client/Verbs/Tests.antt =====
-- Requests by the methods of duckdb-httpfs-wasi/wasi_http_client.cpp to a small host.
use particle_python_wheels.Prelude.{ℕ, true, [], ◌∷◌, none, some, ◌==◌, if◌then◌else◌}
use particle_python_wheels.Bindings.Request.Value.{MethodValue}
use particle_python_wheels.Client.Text.{ascii}
use particle_python_wheels.Client.Url.{Bytes}
use particle_python_wheels.Client.Body.{Response}
use particle_python_wheels.Client.Host.{Answer}
use particle_python_wheels.Client.Recorder.{recorded}
use particle_python_wheels.Client.Sample.{small_host, small_duck, small_duck-IsFresh}
use particle_python_wheels.Client.Verbs.{
  Headers, GetRequestInfo, RequestInfo, PutRequestInfo, PostRequestInfo, get, head, put, post,
  delete,
}
use particle_python_wheels.Client.Verbs.Asks.{recorded_get, Buffers, Asks, verbs-Ask}

-- The handler of a response throws unless its status is 200.
abbrev picky : Response → ℕ → Answer × ℕ
picky resp w = if resp.status == 200 then (Answer.goes_on, w) else (Answer.throws, w)

abbrev got : GetRequestInfo ℕ
got = record {
  headers = [];
  url = ascii "https://a.b/c";
  content_handler = λ chunk w. (true, w);
  response_handler = picky;
}

abbrev plain_info : RequestInfo
plain_info = record { headers = []; url = ascii "https://a.b/c" }

abbrev put_info : PutRequestInfo
put_info = record {
  headers = [];
  url = ascii "https://a.b/c";
  buffer_in = some 1000;
  buffer_in_len = 3;
  content_type = ascii "text/plain";
}

abbrev post_info : PostRequestInfo
post_info = record {
  headers = [];
  url = ascii "https://a.b/c";
  buffer_in = some 1000;
  buffer_in_len = 3;
  send_post_as_get_request = true;
}

abbrev assign_first : Headers → Bytes → Bytes → Headers
assign_first headers key value = (key, value) ∷ headers

verbs-Ask_example :
    Asks small_host small_duck 5 assign_first []
      (some got.content_handler)
      MethodValue.get
      got.url
      got.headers
      (get (recorded small_host) small_duck 5 assign_first [] (recorded_get got) (0, []))
    × Asks small_host small_duck 5 assign_first [] none MethodValue.head plain_info.url
        plain_info.headers
        (head (recorded small_host) small_duck 5 assign_first [] plain_info (0, []))
    × Asks small_host small_duck 5 assign_first [] none MethodValue.put put_info.url
        ((ascii "Content-Type", ascii "text/plain") ∷ [])
        (put (recorded small_host) small_duck 5 assign_first [] put_info (0, []))
    × Asks small_host small_duck 5 assign_first [] none MethodValue.get post_info.url
        ((ascii "Content-Type", ascii "application/octet-stream") ∷ [])
        (post (recorded small_host) small_duck 5 assign_first [] post_info (0, [])).0
    × Buffers
        (post (recorded small_host) small_duck 5 assign_first [] post_info (0, [])).0.exit
        (post (recorded small_host) small_duck 5 assign_first [] post_info (0, [])).1
    × Asks small_host small_duck 5 assign_first [] none MethodValue.delete plain_info.url
        plain_info.headers
        (delete (recorded small_host) small_duck 5 assign_first [] plain_info (0, []))
verbs-Ask_example =
    verbs-Ask small_host small_duck 5 assign_first [] small_duck-IsFresh got plain_info plain_info
      put_info post_info 0
