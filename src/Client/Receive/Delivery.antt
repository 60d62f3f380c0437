-- ===== src/Client/Receive/Delivery.antt =====
-- The parts 4 to 6 of Request, where the host delivers a response.
use mathlib.Core.Path.{subst}
use mathlib.Core.List.{foldl}
use particle_python_wheels.Prelude.{
  sym, ap, ◌∙◌, ℕ, ◌<◌, ◌≡◌, refl, Bool, false, List, [], ◌∷◌, ◌++◌, Option, some, length,
}
use particle_python_wheels.Bindings.Memory.{Handle}
use particle_python_wheels.Bindings.Abi.{good}
use particle_python_wheels.Bindings.Streams.Lift.{StreamFailure}
use particle_python_wheels.Bindings.Request.Value.{MethodValue}
use particle_python_wheels.Client.Text.{ascii}
use particle_python_wheels.Client.Url.{Bytes}
use particle_python_wheels.Client.Body.{Response}
use particle_python_wheels.Client.Body.Read.{Serves, ending, kept, read_body-Serves}
use particle_python_wheels.Client.Host.{Kind, Adapters, DuckDb, Owners, Answer, Exit}
use particle_python_wheels.Client.Receive.{
  insert_all, about, is_head, leave, after_read_body, read_stream, open_body, take_body,
  after_answer, answer, response_head, take_headers, take_response, after_get, await,
}

module _ {World : Type 0} (A : Adapters World) (D : DuckDb) (fuel : ℕ) (url : Bytes)
    (content_handler : Option (Bytes → World → Bool × World))
    (response_handler : Option (Response → World → Answer × World)) (method : MethodValue) where
  -- The response that DuckDB makes for a status, with what the host says of it.
  abbrev pub announced : ℕ → List (Bytes × Bytes) → Response
  announced status entries = record (D.new_response status) {
    url = url;
    reason = D.status_message (D.new_response status).status;
    headers =
        foldl (λ (hs : List (Bytes × Bytes)) (kv : Bytes × Bytes). D.insert hs kv.0 kv.1)
          (D.new_response status).headers entries;
  }

  insert_all-eq-foldl :
      (headers entries : List (Bytes × Bytes))
      → insert_all A D fuel url content_handler headers entries
        ≡ foldl
            (λ (hs : List (Bytes × Bytes)) (kv : Bytes × Bytes). D.insert hs kv.0 kv.1)
            headers
            entries
  unfolding insert_all
  insert_all-eq-foldl headers [] = refl
  insert_all-eq-foldl headers ((key, val) ∷ entries) =
      insert_all-eq-foldl (D.insert headers key val) entries

  response_head-eq :
      (status : ℕ) (entries : List (Bytes × Bytes))
      → response_head A D fuel url content_handler status entries ≡ announced status entries
  response_head-eq status entries = λ i. record (D.new_response status) {
    url = url;
    reason = D.status_message (D.new_response status).status;
    headers = insert_all-eq-foldl (D.new_response status).headers entries i;
  }

  -- The host gives a response on a future: its status, its headers, and a body that is these chunks
  -- and then ends so. The response handler lets the reading go on.
  pub record Delivers (f : Handle) (w : World) (status : ℕ) (entries : List (Bytes × Bytes))
      (chunks : List Bytes) (e : StreamFailure) (end : World) : Type 0 where
    pub pollable : Handle
    pub incoming : Handle
    pub fields : Handle
    pub body : Handle
    pub stream : Handle
    pub w1 : World
    pub w2 : World
    pub w3 : World
    pub w4 : World
    pub w5 : World
    pub w6 : World
    pub w7 : World
    pub w8 : World
    pub subscribed : A.subscribe f w ≡ (pollable, w1)
    pub got : A.get f (A.block pollable w1) ≡ (some (good (good incoming)), w2)
    pub has_status : A.status incoming w2 ≡ (status, w3)
    pub has_headers : A.headers incoming w3 ≡ (fields, w4)
    pub has_entries : A.entries fields w4 ≡ (entries, w5)
    pub answered :
        answer A D fuel url content_handler response_handler method
          (announced status entries)
          (A.drop_own Kind.response_fields fields w5)
        ≡ (Answer.goes_on, w6)
    pub consumed : A.consume incoming w6 ≡ (some body, w7)
    pub opened : A.open_stream body w7 ≡ (some stream, w8)
    pub served : Serves A.to_debug_string (A.read stream) content_handler w8 chunks e end

  leave_exit :
      (exit : Exit) (owners : Owners) (w : World) → (leave A D fuel exit owners w).exit ≡ exit
  unfolding leave
  leave_exit exit [] w = refl
  leave_exit exit ((k, h) ∷ owners) w = leave_exit exit owners (A.drop_own k h w)

  -- The text in front of the error of a read.
  abbrev pub read_failed : Bytes
  read_failed = about (ascii "wasi:http body read failed for '") url ++ ascii ": "

  open_body_exit :
      (owners : Owners) (resp : Response) (b s : Handle) (w7 w8 end : World) (chunks : List Bytes)
      (e : StreamFailure)
      → A.open_stream b w7 ≡ (some s, w8)
      → Serves A.to_debug_string (A.read s) content_handler w8 chunks e end
      → length chunks < fuel
      → (open_body A D fuel url content_handler owners resp (some b, w7)).exit
        ≡ Exit.returned
            (ending A.to_debug_string
              (A.read s)
              content_handler
              read_failed
              resp
              (resp.body ++ kept content_handler chunks)
              e
              end).0
  unfolding open_body read_stream after_read_body
  open_body_exit owners resp b s w7 w8 end chunks e opened served enough =
      rw
        (
          opened,
          read_body-Serves A.to_debug_string (A.read s) content_handler fuel read_failed resp served
              enough,
        )
        (search leave_exit)

  go_on_exit :
      (h : Handle) (owners : Owners) (resp : Response) (b s : Handle) (w6 w7 w8 end : World)
      (chunks : List Bytes) (e : StreamFailure)
      → is_head method ≡ false
      → A.consume h w6 ≡ (some b, w7)
      → A.open_stream b w7 ≡ (some s, w8)
      → Serves A.to_debug_string (A.read s) content_handler w8 chunks e end
      → length chunks < fuel
      → (after_answer A D fuel url content_handler method h owners resp (Answer.goes_on, w6)).exit
        ≡ Exit.returned
            (ending A.to_debug_string
              (A.read s)
              content_handler
              read_failed
              resp
              (resp.body ++ kept content_handler chunks)
              e
              end).0
  unfolding after_answer take_body
  go_on_exit h owners resp b s w6 w7 w8 end chunks e not_head consumed opened served enough =
      rw (take_body, not_head, consumed)
        (open_body_exit owners resp b s w7 w8 end chunks e opened served enough)

  await_exit :
      (f : Handle) (owners : Owners) (w end : World) (status : ℕ) (entries : List (Bytes × Bytes))
      (chunks : List Bytes) (e : StreamFailure) (d : Delivers f w status entries chunks e end)
      → answer A D fuel url content_handler response_handler method
          (response_head A D fuel url content_handler status entries)
          (A.drop_own Kind.response_fields d.fields d.w5)
        ≡ (Answer.goes_on, d.w6)
      → is_head method ≡ false
      → length chunks < fuel
      → (await A D fuel url content_handler response_handler method f owners w).exit
        ≡ Exit.returned
            (ending A.to_debug_string
              (A.read d.stream)
              content_handler
              read_failed
              (response_head A D fuel url content_handler status entries)
              ((response_head A D fuel url content_handler status entries).body
                ++ kept content_handler chunks)
              e
              end).0
  unfolding await after_get take_response take_headers
  await_exit f owners w end status entries chunks e d answered not_head enough =
      rw (d.subscribed, d.got, d.has_status, d.has_headers, d.has_entries, answered)
        (go_on_exit d.incoming ((Kind.response, d.incoming) ∷ (Kind.pollable, d.pollable) ∷ owners)
          (response_head A D fuel url content_handler status entries) d.body d.stream d.w6 d.w7 d.w8
          end chunks e not_head d.consumed d.opened d.served enough)

  -- If on a future the host gives a response with a status, some headers, and a body of some chunks that
  -- then ends, the method is not HEAD, the response handler, if there is one, lets the reading go on,
  -- and the chunks are fewer than the fuel: then what is returned is DuckDB's new response with this
  -- status, with the URL, the reason for the status, the headers inserted in their order, and, if there
  -- is no content handler, the chunks behind its body in their order. If the body was closed, or
  -- the error of its last operation has no text, nothing else is changed; if that error has a text, the
  -- response is no success and has the text.
  pub await-Delivers :
      (f : Handle) (owners : Owners) (w end : World) (status : ℕ) (entries : List (Bytes × Bytes))
      (chunks : List Bytes) (e : StreamFailure) (d : Delivers f w status entries chunks e end)
      → is_head method ≡ false
      → length chunks < fuel
      → (await A D fuel url content_handler response_handler method f owners w).exit
        ≡ Exit.returned
            (ending A.to_debug_string
              (A.read d.stream)
              content_handler
              read_failed
              (announced status entries)
              ((announced status entries).body ++ kept content_handler chunks)
              e
              end).0
  await-Delivers f owners w end status entries chunks e d not_head enough =
      await_exit f owners w end status entries chunks e d
        (subst
          (λ (r : Response).
            answer A D fuel url content_handler response_handler method r
              (A.drop_own Kind.response_fields d.fields d.w5)
            ≡ (Answer.goes_on, d.w6))
          (sym (response_head-eq status entries)) d.answered)
        not_head enough
      ∙ ap
          (λ (r : Response).
            Exit.returned
              (ending A.to_debug_string (A.read d.stream) content_handler read_failed r
                (r.body ++ kept content_handler chunks) e end).0)
          (response_head-eq status entries)
