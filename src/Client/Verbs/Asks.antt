-- ===== src/Client/Verbs/Asks.antt =====
-- What the methods Get, Head, Put, Post and Delete ask of the host.
use particle_python_wheels.Prelude.{ℕ, ◌≡◌, refl, Bool, [], Option, none, some, if◌then◌else◌}
use particle_python_wheels.Bindings.Request.Value.{MethodValue}
use particle_python_wheels.Client.Text.{ascii}
use particle_python_wheels.Client.Url.{Bytes}
use particle_python_wheels.Client.Host.{Adapters, DuckDb, IsFresh, Exit, Run}
use particle_python_wheels.Client.Recorder.{Recorded, recorded_call, answered, recorded}
use particle_python_wheels.Client.Lawful.{IsTidy, Reports}
use particle_python_wheels.Client.Send.{send}
use particle_python_wheels.Client.Send.Ordered.{ordered}
use particle_python_wheels.Client.Send.Ownership.{send-IsTidy}
use particle_python_wheels.Client.Send.Reports.{send-Reports}
use particle_python_wheels.Client.Verbs.{
  Headers, GetRequestInfo, RequestInfo, PutRequestInfo, PostRequestInfo, get, head, put, post,
  delete, buffer_out,
}

-- The same request, with handlers that are written down.
abbrev pub recorded_get : {World : Type 0} → GetRequestInfo World → GetRequestInfo (Recorded World)
recorded_get got = record {
  headers = got.headers;
  url = got.url;
  content_handler = λ chunk. recorded_call (λ b log. log) (got.content_handler chunk);
  response_handler =
      λ resp. recorded_call (λ a log. answered a resp.status log) (got.response_handler resp);
}

-- The buffer gets the body of what is returned.
abbrev pub Buffers : Exit → Option Bytes → Type 0
Buffers (Exit.returned resp) buffer = buffer ≡ some resp.body
Buffers Exit.thrown buffer = buffer ≡ none
Buffers Exit.unfinished buffer = buffer ≡ none
Buffers Exit.undefined buffer = buffer ≡ none

module _ {World : Type 0} (A : Adapters World) (D : DuckDb) (fuel : ℕ)
    (assign : Headers → Bytes → Bytes → Headers) (bearer_token : Bytes) where
  -- A run asks for a request lawfully, and its end says how it went.
  abbrev pub Asks :
      Option (Bytes → World → Bool × World)
      → MethodValue
      → Bytes
      → Headers
      → Run (Recorded World)
      → Type 0
  Asks content_handler method url headers r =
      IsTidy (ordered D method url headers bearer_token) r
      × Reports A fuel content_handler (ordered D method url headers bearer_token) r

  send-Asks :
      (fresh : IsFresh D) (url : Bytes) (method : MethodValue) (headers : Headers)
      (body_data : Option ℕ) (body_len : ℕ) (w : World)
      → Asks none method url headers (
          send
            (recorded A)
            D
            fuel
            url
            none
            none
            method
            headers
            bearer_token
            body_data
            body_len
            (w, []))
  send-Asks fresh url method headers body_data body_len w = (
    send-IsTidy A D fuel url none none method headers bearer_token body_data body_len w,
    send-Reports A D fuel url none none method fresh headers bearer_token body_data body_len w,
  )

  -- The headers of a post.
  abbrev pub post_headers : Headers → Headers
  post_headers headers =
      if D.has_header headers (ascii "Content-Type")
      then headers
      else assign headers (ascii "Content-Type") (ascii "application/octet-stream")

  returned-Buffers :
      (posted : PostRequestInfo) (s : Recorded World)
      → Buffers
          (post (recorded A) D fuel assign bearer_token posted s).0.exit
          (post (recorded A) D fuel assign bearer_token posted s).1
  unfolding post
  returned-Buffers posted s =
      elim (post (recorded A) D fuel assign bearer_token posted s).0.exit
        as (λ (e : Exit). Buffers e (buffer_out (recorded A) D fuel assign bearer_token e)) [
          | Exit.returned resp ↦ refl
          | Exit.thrown ↦ refl
          | Exit.unfinished ↦ refl
          | Exit.undefined ↦ refl
        ]

  -- If DuckDB makes its responses as successes with no error's text: each verb asks lawfully, with its
  -- own method, for the URL that it was given, with the headers that it was given, and its end says
  -- how it went. Put besides assigns the content type that it was given; Post assigns one if its
  -- headers have none, has the method GET if it is to be sent so, and leaves the body of the
  -- response in its buffer.
  pub verbs-Ask :
      (fresh : IsFresh D) (got : GetRequestInfo World) (headed deleted : RequestInfo)
      (put_info : PutRequestInfo) (posted : PostRequestInfo) (w : World)
      → Asks
          (some got.content_handler)
          MethodValue.get
          got.url
          got.headers
          (get (recorded A) D fuel assign bearer_token (recorded_get got) (w, []))
        × Asks none MethodValue.head headed.url headed.headers
            (head (recorded A) D fuel assign bearer_token headed (w, []))
        × Asks none MethodValue.put put_info.url
            (assign put_info.headers (ascii "Content-Type") put_info.content_type)
            (put (recorded A) D fuel assign bearer_token put_info (w, []))
        × Asks none
            (if posted.send_post_as_get_request then MethodValue.get else MethodValue.post)
            posted.url
            (post_headers posted.headers)
            (post (recorded A) D fuel assign bearer_token posted (w, [])).0
        × Buffers
            (post (recorded A) D fuel assign bearer_token posted (w, [])).0.exit
            (post (recorded A) D fuel assign bearer_token posted (w, [])).1
        × Asks none MethodValue.delete deleted.url deleted.headers
            (delete (recorded A) D fuel assign bearer_token deleted (w, []))
  unfolding get head put post delete
  verbs-Ask fresh got headed deleted put_info posted w = (
    (
      send-IsTidy A D fuel got.url (some got.content_handler) (some got.response_handler)
          MethodValue.get got.headers bearer_token none 0 w,
      send-Reports A D fuel got.url (some got.content_handler) (some got.response_handler)
          MethodValue.get fresh got.headers bearer_token none 0 w,
    ),
    send-Asks fresh headed.url MethodValue.head headed.headers none 0 w,
    send-Asks fresh put_info.url MethodValue.put _ put_info.buffer_in put_info.buffer_in_len w,
    send-Asks fresh posted.url _ (post_headers posted.headers) posted.buffer_in posted.buffer_in_len
        w,
    returned-Buffers posted (w, []),
    send-Asks fresh deleted.url MethodValue.delete deleted.headers none 0 w,
  )
