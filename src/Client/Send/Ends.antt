-- ===== src/Client/Send/Ends.antt =====
-- The logs of Request from its beginning to its end: the handles that it owns, what it dispatches and
-- what the response says.
use mathlib.Core.Path.{subst}
use particle_python_wheels.Prelude.{
  ℕ, ◌≡◌, refl, Bool, true, false, List, [], ◌∷◌, Option, none, some,
}
use particle_python_wheels.Bindings.Memory.{Handle}
use particle_python_wheels.Bindings.Abi.{Result, good, bad}
use particle_python_wheels.Bindings.ErrorCode.Value.{ErrorValue}
use particle_python_wheels.Bindings.Request.Value.{MethodValue}
use particle_python_wheels.Client.Url.{Bytes, parse_url}
use particle_python_wheels.Client.Body.{Response}
use particle_python_wheels.Client.Host.{Kind, Adapters, DuckDb, Answer}
use particle_python_wheels.Client.Recorder.{
  Choice, Event, Log, Recorded, opened, sent, recorded, recorded_content, recorded_handler,
}
use particle_python_wheels.Client.Lawful.{Order, Fills, Stage, Verdict, Trace, Ends}
use particle_python_wheels.Client.Send.Ordered.{choices_for, ordered}
use particle_python_wheels.Client.Send.Drafting.{
  SetTrace, AppendTrace, set_all-SetTrace, append_all-AppendTrace, append_token-AppendTrace,
}
use particle_python_wheels.Client.Send.Writing.{write_stream-Ends}
use particle_python_wheels.Client.Receive.Leaving.{fail-Ends}
use particle_python_wheels.Client.Receive.Ends.{await-Ends}
use particle_python_wheels.Client.Send.{
  owned_body, after_handle, dispatch, after_request_body, take_request_body, set_all, after_setters,
  build_request, after_headers, send,
}

module _ {World : Type 0} (A : Adapters World) (D : DuckDb) (fuel : ℕ) (url : Bytes)
    (content_handler : Option (Bytes → World → Bool × World))
    (response_handler : Option (Response → World → Answer × World)) (method : MethodValue)
    (order : Order) where
  after_handle-Ends :
      (body : Option (ℕ × Handle)) (body_len : ℕ) (r : Result Handle ErrorValue) (w : World)
      (log : Log)
      → Trace order log
          (owned_body
            (recorded A)
            D
            fuel
            url
            (recorded_content content_handler)
            (recorded_handler response_handler)
            method
            body)
          (Verdict.going Stage.sent)
      → Ends A fuel content_handler D order (
          after_handle
            (recorded A)
            D
            fuel
            url
            (recorded_content content_handler)
            (recorded_handler response_handler)
            method
            body
            body_len
            (r, (w, sent r log)))
  unfolding after_handle owned_body
  after_handle-Ends none body_len (bad error) w log t =
      fail-Ends A D fuel content_handler order _ _ _ (Trace.refused t) refl refl
  after_handle-Ends (some (body_data, b)) body_len (bad error) w log t =
      fail-Ends A D fuel content_handler order _ _ _ (Trace.refused t) refl refl
  after_handle-Ends none body_len (good f) w log t =
      await-Ends A D fuel content_handler order url response_handler method f _
        (Trace.acquired Kind.future f refl t)
  after_handle-Ends (some (body_data, b)) body_len (good f) w log t =
      write_stream-Ends A D fuel url content_handler response_handler method order b f body_data
        body_len _ _ _ (Trace.used Kind.out_body b refl (Trace.acquired Kind.future f refl t))

  dispatch-Ends :
      (r : Handle) (body : Option (ℕ × Handle)) (body_len : ℕ) (s : Recorded World)
      → Trace order
          (Event.given Kind.request r ∷ (Event.dispatched ∷ s.1))
          (owned_body
            (recorded A)
            D
            fuel
            url
            (recorded_content content_handler)
            (recorded_handler response_handler)
            method
            body)
          (Verdict.going Stage.sent)
      → Ends A fuel content_handler D order (
          dispatch
            (recorded A)
            D
            fuel
            url
            (recorded_content content_handler)
            (recorded_handler response_handler)
            method
            r
            body
            body_len
            s)
  unfolding dispatch
  dispatch-Ends r body body_len s t =
      after_handle-Ends body body_len (A.handle r s.0).0 (A.handle r s.0).1 _ t

  after_request_body-Ends :
      (r : Handle) (body_data body_len : ℕ) (o : Option Handle) (w : World) (log : Log)
      → Fills order log
      → Trace order log ((Kind.request, r) ∷ []) (Verdict.going Stage.drafting)
      → Ends A fuel content_handler D order (
          after_request_body
            (recorded A)
            D
            fuel
            url
            (recorded_content content_handler)
            (recorded_handler response_handler)
            method
            r
            body_data
            body_len
            (o, (w, opened Kind.out_body o log)))
  unfolding after_request_body owned_body
  after_request_body-Ends r body_data body_len none w log fills t =
      fail-Ends A D fuel content_handler order _ _ _ (Trace.refused t) refl refl
  after_request_body-Ends r body_data body_len (some b) w log fills t =
      dispatch-Ends r (some (body_data, b)) body_len _ (
        Trace.given Kind.request r refl refl refl
          (Trace.dispatched fills (Trace.acquired Kind.out_body b refl t)))

  take_request_body-Ends :
      (r : Handle) (body_data : Option ℕ) (body_len : ℕ) (s : Recorded World)
      → Fills order s.1
      → Trace order s.1 ((Kind.request, r) ∷ []) (Verdict.going Stage.drafting)
      → Ends A fuel content_handler D order (
          take_request_body
            (recorded A)
            D
            fuel
            url
            (recorded_content content_handler)
            (recorded_handler response_handler)
            method
            r
            body_data
            body_len
            s)
  unfolding take_request_body owned_body
  take_request_body-Ends r none body_len s fills t =
      dispatch-Ends r none body_len s
        (Trace.given Kind.request r refl refl refl (Trace.dispatched fills t))
  take_request_body-Ends r (some body_data) body_len s fills t =
      after_request_body-Ends r body_data body_len _ _ _ fills (Trace.used Kind.request r refl t)

  after_setters-Ends :
      (r : Handle) (body_data : Option ℕ) (body_len : ℕ) (set : Bool × Recorded World)
      → SetTrace order ((Kind.request, r) ∷ []) order.fields order.choices set
      → Ends A fuel content_handler D order (
          after_setters
            (recorded A)
            D
            fuel
            url
            (recorded_content content_handler)
            (recorded_handler response_handler)
            method
            r
            body_data
            body_len
            set)
  unfolding after_setters
  after_setters-Ends r body_data body_len (false, s) t =
      fail-Ends A D fuel content_handler order _ _ s t refl refl
  after_setters-Ends r body_data body_len (true, s) (t, e, f) =
      take_request_body-Ends r body_data body_len s (e, f) t

  after_headers-Ends :
      (h : Handle) (body_data : Option ℕ) (body_len : ℕ) (x : Bytes × Recorded World)
      → choices_for method url ≡ order.choices
      → AppendTrace order ((Kind.fields, h) ∷ []) order.fields x
      → Ends A fuel content_handler D order (
          after_headers
            (recorded A)
            D
            fuel
            url
            (recorded_content content_handler)
            (recorded_handler response_handler)
            method
            h
            body_data
            body_len
            x)
  unfolding after_headers build_request
  after_headers-Ends h body_data body_len (c ∷ cs, s) right t =
      fail-Ends A D fuel content_handler order (c ∷ cs) _ s t refl refl
  after_headers-Ends h body_data body_len ([], s) right (t, e, f) =
      let r = (A.new_request h s.0).0 in
      after_setters-Ends r body_data body_len _ (
        subst
          (λ (l : List Choice). SetTrace order ((Kind.request, r) ∷ []) order.fields l (
            set_all (recorded A) D fuel url (recorded_content content_handler)
              (recorded_handler response_handler) method r (parse_url url)
              ((recorded A).new_request h s).1))
          right
          (set_all-SetTrace A D fuel url content_handler response_handler method order r
            order.fields ((recorded A).new_request h s).1
            (
              Trace.acquired Kind.request r refl (Trace.given Kind.fields h refl refl refl t),
              e,
              f,
            )))

module _ {World : Type 0} (A : Adapters World) (D : DuckDb) (fuel : ℕ) (url : Bytes)
    (content_handler : Option (Bytes → World → Bool × World))
    (response_handler : Option (Response → World → Answer × World)) (method : MethodValue) where
  -- From no handle and an empty log on.
  pub send-Ends :
      (headers : List (Bytes × Bytes)) (bearer_token : Bytes) (body_data : Option ℕ) (body_len : ℕ)
      (w : World)
      → Ends A fuel content_handler D (ordered D method url headers bearer_token) (
          send
            (recorded A)
            D
            fuel
            url
            (recorded_content content_handler)
            (recorded_handler response_handler)
            method
            headers
            bearer_token
            body_data
            body_len
            (w, []))
  unfolding send
  send-Ends headers bearer_token body_data body_len w =
      let h = (A.new_fields w).0 in
      let order = ordered D method url headers bearer_token in
      after_headers-Ends A D fuel url content_handler response_handler method order h body_data
        body_len _ refl
        (append_token-AppendTrace A D fuel url content_handler response_handler method order h
          headers headers bearer_token _
          (append_all-AppendTrace A D fuel url content_handler response_handler method order h
            headers [] ((recorded A).new_fields (w, [])).1
            (Trace.acquired Kind.fields h refl Trace.start, refl, refl)))
