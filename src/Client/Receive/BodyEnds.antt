-- ===== src/Client/Receive/BodyEnds.antt =====
-- The part 6 of Request, which reads the body of the response, with its log.
use particle_python_wheels.Prelude.{
  ap, ◌∙◌, ℕ, ◌≡◌, refl, Bool, true, false, [], ◌∷◌, ◌++◌, Option, none, some, inl, inr,
}
use particle_python_wheels.Bindings.Memory.{Handle}
use particle_python_wheels.Bindings.Request.Value.{MethodValue}
use particle_python_wheels.Client.Text.{ascii}
use particle_python_wheels.Client.Url.{Bytes}
use particle_python_wheels.Client.Body.{Response}
use particle_python_wheels.Client.Host.{Kind, Adapters, DuckDb, IsFresh, Owners, Exit}
use particle_python_wheels.Client.Recorder.{
  Event, Log, Recorded, opened, recorded, recorded_content,
}
use particle_python_wheels.Client.Lawful.{
  lookup, Stage, Verdict, Order, Trace, says, in_order, Ends,
}
use particle_python_wheels.Client.Receive.{
  is_head, about, leave, after_read_body, read_stream, open_body, take_body,
}
use particle_python_wheels.Client.Receive.Leaving.{IsMild, leave-Ends, fail-Ends, mild-Ends}
use particle_python_wheels.Client.Receive.Reading.{ReadEnds, read_body-ReadEnds}

-- The owners after parts of the function.
abbrev pub awaited : Handle → Handle → Owners
awaited future pollable = (Kind.pollable, pollable) ∷ (Kind.future, future) ∷ []

abbrev pub received : Handle → Handle → Handle → Owners
received future pollable incoming = (Kind.response, incoming) ∷ awaited future pollable

module _ {World : Type 0} (A : Adapters World) (D : DuckDb) (fuel : ℕ)
    (content_handler : Option (Bytes → World → Bool × World)) (order : Order) where
  module _ (url : Bytes) where
    after_read_body-Ends :
        (h : Handle) (owners : Owners) (resp : Response) (end : Option (Response × Recorded World))
        (s : Recorded World)
        → (has : lookup Kind.stream owners ≡ some h)
        → Trace order s.1 owners (Verdict.going Stage.answered)
        → in_order owners ≡ true
        → (IsFresh D → IsMild resp)
        → ReadEnds content_handler A order owners h has fuel s resp end
        → Ends A fuel content_handler D order (
            after_read_body (recorded A) D fuel url (recorded_content content_handler) owners end s)
    unfolding after_read_body
    after_read_body-Ends h owners resp none s has t ordered mild gives =
        (owners, (Verdict.going Stage.answered), t, tt, λ fresh. (h, has, gives))
    after_read_body-Ends h owners resp (some (r, after)) s has t ordered mild (inl (u, e, f)) =
        mild-Ends A D fuel content_handler order r owners after u ordered
          (λ fresh. (e ∙ (mild fresh).0, ap says f ∙ (mild fresh).1))
    after_read_body-Ends h owners resp (some (r, after)) s has t ordered mild (inr (u, e, f)) =
        leave-Ends A D fuel content_handler order (Exit.returned r) owners Verdict.refused after u
          ordered refl (λ fresh end. (e, f))

    module _ (f p : Handle) where
      read_stream-Ends :
          (h b : Handle) (resp : Response) (o : Option Handle) (w : World) (log : Log)
          → (IsFresh D → IsMild resp)
          → Trace order log ((Kind.body, b) ∷ received f p h) (Verdict.going Stage.answered)
          → Ends A fuel content_handler D order (
              read_stream
                (recorded A)
                D
                fuel
                url
                (recorded_content content_handler)
                ((Kind.body, b) ∷ received f p h)
                resp
                (o, (w, opened Kind.stream o log)))
      unfolding read_stream
      read_stream-Ends h b resp none w log mild t =
          fail-Ends A D fuel content_handler order _ _ _ (Trace.refused t) refl refl
      read_stream-Ends h b resp (some s) w log mild t =
          let owners : Owners = (Kind.stream, s) ∷ (Kind.body, b) ∷ received f p h in
          let u : Trace order (Event.acquired Kind.stream s ∷ log) owners
              (Verdict.going Stage.answered) =
            Trace.acquired Kind.stream s refl t in
          after_read_body-Ends s owners resp _ (w, Event.acquired Kind.stream s ∷ log) refl u refl
            mild
            (read_body-ReadEnds content_handler A order owners s refl fuel
              (about (ascii "wasi:http body read failed for '") url ++ ascii ": ") resp
              (w, Event.acquired Kind.stream s ∷ log) refl u)

      open_body-Ends :
          (h : Handle) (resp : Response) (o : Option Handle) (w : World) (log : Log)
          → (IsFresh D → IsMild resp)
          → Trace order log (received f p h) (Verdict.going Stage.answered)
          → Ends A fuel content_handler D order (
              open_body
                (recorded A)
                D
                fuel
                url
                (recorded_content content_handler)
                (received f p h)
                resp
                (o, (w, opened Kind.body o log)))
      unfolding open_body
      open_body-Ends h resp none w log mild t =
          fail-Ends A D fuel content_handler order _ _ _ (Trace.refused t) refl refl
      open_body-Ends h resp (some b) w log mild t =
          read_stream-Ends h b resp (A.open_stream b w).0 (A.open_stream b w).1 _ mild
            (Trace.used Kind.body b refl (Trace.acquired Kind.body b refl t))

      pub take_body-Ends :
          (method : MethodValue) (h : Handle) (resp : Response) (s : Recorded World)
          → (IsFresh D → IsMild resp)
          → Trace order s.1 (received f p h) (Verdict.going Stage.answered)
          → Ends A fuel content_handler D order (
              take_body
                (recorded A)
                D
                fuel
                url
                (recorded_content content_handler)
                method
                h
                (received f p h)
                resp
                s)
      unfolding take_body
      take_body-Ends method h resp s mild t =
          elim (is_head method)
            as (λ (b : Bool). Ends A fuel content_handler D order (elim b [
              | true ↦ leave (recorded A) D fuel (Exit.returned resp) (received f p h) s
              | false ↦
                  open_body (recorded A) D fuel url (recorded_content content_handler)
                    (received f p h) resp ((recorded A).consume h s)
            ])) [
              | true ↦ mild-Ends A D fuel content_handler order resp (received f p h) s t refl mild
              | false ↦
                  open_body-Ends h resp (A.consume h s.0).0 (A.consume h s.0).1 _ mild
                    (Trace.used Kind.response h refl t)
            ]
