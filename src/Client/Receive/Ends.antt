-- ===== src/Client/Receive/Ends.antt =====
-- The parts 4 and 5 of Request, which wait for the response and read its head, with their logs.
use particle_python_wheels.Prelude.{
  arith, ap, ℕ, refl, Bool, false, [], ◌∷◌, Option, none, some, ltb, Bool-cases, inl, inr,
}
use particle_python_wheels.Bindings.Memory.{Handle}
use particle_python_wheels.Bindings.Abi.{Result, good, bad}
use particle_python_wheels.Bindings.ErrorCode.Value.{ErrorValue}
use particle_python_wheels.Bindings.Request.Value.{MethodValue}
use particle_python_wheels.Client.Url.{Bytes}
use particle_python_wheels.Client.Body.{Response}
use particle_python_wheels.Client.Host.{Kind, Adapters, DuckDb, IsFresh, Owners, Answer, Exit}
use particle_python_wheels.Client.Recorder.{
  Log, Recorded, arrived, answered, recorded, recorded_content, recorded_handler,
}
use particle_python_wheels.Client.Lawful.{Stage, Verdict, Order, Trace, says, Ends}
use particle_python_wheels.Client.Receive.{
  after_answer, answer, take_headers, take_response, after_get, await,
}
use particle_python_wheels.Client.Receive.Leaving.{IsMild, leave-Ends, fail-Ends, mild-Ends}
use particle_python_wheels.Client.Receive.BodyEnds.{awaited, received, take_body-Ends}

module _ {World : Type 0} (A : Adapters World) (D : DuckDb) (fuel : ℕ)
    (content_handler : Option (Bytes → World → Bool × World)) (order : Order) where
  module _ (url : Bytes) where
    module _ (f p : Handle) where
      -- The log behind the response handler.
      abbrev AnswerTrace : Owners → Response → Answer × Recorded World → Type 0
      AnswerTrace owners resp (Answer.goes_on, s) =
          Trace order s.1 owners (Verdict.going Stage.answered)
      AnswerTrace owners resp (Answer.stops, s) =
          Trace order s.1 owners (Verdict.going Stage.answered)
      AnswerTrace owners resp (Answer.throws, s) =
          Trace order s.1 owners (Verdict.threw resp.status)

      answered-AnswerTrace :
          (owners : Owners) (resp : Response) (a : Answer) (w : World) (log : Log)
          → Trace order log owners (Verdict.going Stage.answered)
          → AnswerTrace owners resp (a, (w, answered a resp.status log))
      answered-AnswerTrace owners resp Answer.goes_on w log t = t
      answered-AnswerTrace owners resp Answer.stops w log t = t
      answered-AnswerTrace owners resp Answer.throws w log t = Trace.threw resp.status t

      after_answer-Ends :
          (method : MethodValue) (h : Handle) (resp : Response) (said : Answer × Recorded World)
          → (IsFresh D → IsMild resp)
          → AnswerTrace (received f p h) resp said
          → Ends A fuel content_handler D order (
              after_answer
                (recorded A)
                D
                fuel
                url
                (recorded_content content_handler)
                method
                h
                (received f p h)
                resp
                said)
      unfolding after_answer
      after_answer-Ends method h resp (Answer.goes_on, s) mild t =
          take_body-Ends A D fuel content_handler order url f p method h resp s mild t
      after_answer-Ends method h resp (Answer.stops, s) mild t =
          mild-Ends A D fuel content_handler order resp (received f p h) s t refl mild
      after_answer-Ends method h resp (Answer.throws, s) mild t =
          elim (Bool-cases (ltb resp.status 400)) [
            | inl e ↦
                rw (after_answer, e)
                  (leave-Ends A D fuel content_handler order Exit.thrown (received f p h)
                    (Verdict.threw resp.status) s t refl refl (λ fresh after. ground (arith, e)))
            | inr e ↦
                rw (after_answer, e)
                  (leave-Ends A D fuel content_handler order
                    (Exit.returned (record resp { success = false })) (received f p h)
                    (Verdict.threw resp.status) s t refl refl
                    (λ fresh after. (refl, refl, ground (arith, e))))
          ]

      module _ (response_handler : Option (Response → World → Answer × World))
          (method : MethodValue) where
        answer-AnswerTrace :
            (owners : Owners) (resp : Response) (s : Recorded World)
            → Trace order s.1 owners (Verdict.going Stage.answered)
            → AnswerTrace owners resp (
                answer
                  (recorded A)
                  D
                  fuel
                  url
                  (recorded_content content_handler)
                  (recorded_handler response_handler)
                  method
                  resp
                  s)
        unfolding answer
        answer-AnswerTrace owners resp s t =
            elim response_handler
              as (λ (r : Option (Response → World → Answer × World)). AnswerTrace owners resp (
                answer (recorded A) D fuel url (recorded_content content_handler)
                  (recorded_handler r) method resp s)) [
                    | none ↦ t
                    | some handler ↦
                        answered-AnswerTrace owners resp (handler resp s.0).0 (handler resp s.0).1
                          s.1 t
                  ]

        take_headers-Ends :
            (h rh : Handle) (status : ℕ) (s : Recorded World)
            → Trace order s.1
                ((Kind.response_fields, rh) ∷ received f p h)
                (Verdict.going Stage.answered)
            → Ends A fuel content_handler D order (
                take_headers
                  (recorded A)
                  D
                  fuel
                  url
                  (recorded_content content_handler)
                  (recorded_handler response_handler)
                  method
                  h
                  (received f p h)
                  status
                  (rh, s))
        unfolding take_headers
        take_headers-Ends h rh status s t =
            after_answer-Ends method h _ _
              (λ fresh. (fresh.success status, ap says (fresh.request_error status)))
              (answer-AnswerTrace (received f p h) _ _ (
                Trace.given Kind.response_fields rh refl refl refl
                  (Trace.used Kind.response_fields rh refl t)))

        after_get-Ends :
            (got : Option (Result (Result Handle ErrorValue) (Unit {0}))) (w : World) (log : Log)
            → Trace order log (awaited f p) (Verdict.going Stage.sent)
            → Ends A fuel content_handler D order (
                after_get
                  (recorded A)
                  D
                  fuel
                  url
                  (recorded_content content_handler)
                  (recorded_handler response_handler)
                  method
                  (awaited f p)
                  (got, (w, arrived got log)))
        unfolding after_get take_response
        after_get-Ends (some (good (good h))) w log t = take_headers-Ends h _ (A.status h w).0 _ (
            Trace.acquired Kind.response_fields _ refl (
              Trace.used Kind.response h refl
                (Trace.used Kind.response h refl (Trace.responded h refl t))))
        after_get-Ends (some (good (bad error))) w log t =
            fail-Ends A D fuel content_handler order _ _ _ (Trace.refused t) refl refl
        after_get-Ends (some (bad _)) w log t =
            fail-Ends A D fuel content_handler order _ _ _ (Trace.refused t) refl refl
        after_get-Ends none w log t = (awaited f p, Verdict.lost, Trace.lost t, tt, λ fresh. tt)

    pub await-Ends :
        (response_handler : Option (Response → World → Answer × World)) (method : MethodValue)
        (f : Handle) (s : Recorded World)
        → Trace order s.1 ((Kind.future, f) ∷ []) (Verdict.going Stage.sent)
        → Ends A fuel content_handler D order (
            await
              (recorded A)
              D
              fuel
              url
              (recorded_content content_handler)
              (recorded_handler response_handler)
              method
              f
              ((Kind.future, f) ∷ [])
              s)
    unfolding await
    await-Ends response_handler method f s t =
        after_get-Ends f (A.subscribe f s.0).0 response_handler method _ _ _ (
          Trace.used Kind.future f refl (
            Trace.used Kind.pollable (A.subscribe f s.0).0 refl (
              Trace.acquired Kind.pollable (A.subscribe f s.0).0 refl
                (Trace.used Kind.future f refl t))))
