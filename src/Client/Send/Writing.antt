-- ===== src/Client/Send/Writing.antt =====
-- The parts 3b of Request that write the body of the request, with their logs.
use mathlib.Core.Path.{subst}
use particle_python_wheels.Prelude.{
  ℕ, suc, ◌≡◌, refl, Bool, true, [], ◌∷◌, Option, none, some, arith,
}
use particle_python_wheels.Bindings.Memory.{Handle, Slice}
use particle_python_wheels.Bindings.Abi.{Result, good, bad}
use particle_python_wheels.Bindings.ErrorCode.Value.{ErrorValue}
use particle_python_wheels.Bindings.Streams.Lift.{StreamFailure}
use particle_python_wheels.Bindings.Request.Value.{MethodValue}
use particle_python_wheels.Client.Url.{Bytes}
use particle_python_wheels.Client.Body.{Response, Written, write_failure, write_loop}
use particle_python_wheels.Client.Body.Write.{Sends, write_loop-Sends}
use particle_python_wheels.Client.Host.{Kind, Adapters, DuckDb, Owners, Answer}
use particle_python_wheels.Client.Recorder.{
  Log, Recorded, opened, done, recorded, recorded_content, recorded_handler,
}
use particle_python_wheels.Client.Lawful.{Order, Stage, Verdict, Trace, says, Ends}
use particle_python_wheels.Client.Receive.Reading.{says-append}
use particle_python_wheels.Client.Receive.Leaving.{fail-Ends}
use particle_python_wheels.Client.Receive.Ends.{await-Ends}
use particle_python_wheels.Client.Send.{after_finish, after_write_loop, write_stream}

-- The owners while the body of a request is written.
abbrev writing : Handle → Handle → Handle → Owners
writing b s f = (Kind.out_stream, s) ∷ (Kind.future, f) ∷ (Kind.out_body, b) ∷ []

module _ {World : Type 0} (order : Order) (owners : Owners) where
  -- The log behind a call that may be refused.
  abbrev DoneTrace : {E : Type 0} → Result (Unit {0}) E × Recorded World → Type 0
  DoneTrace (good _, s) = Trace order s.1 owners (Verdict.going Stage.sent)
  DoneTrace (bad error, s) = Trace order s.1 owners Verdict.refused

  done-DoneTrace :
      {E : Type 0} (r : Result (Unit {0}) E) (w : World) (log : Log)
      → Trace order log owners (Verdict.going Stage.sent)
      → DoneTrace (r, (w, done r log))
  done-DoneTrace (good _) w log t = t
  done-DoneTrace (bad error) w log t = Trace.refused t

  -- Behind the loop that writes.
  abbrev WrittenTrace : Written × Recorded World → Type 0
  WrittenTrace (Written.all_written, s) = Trace order s.1 owners (Verdict.going Stage.sent)
  WrittenTrace (Written.write_failed msg, s) =
      Trace order s.1 owners Verdict.refused × (says msg ≡ true)

module _ {World : Type 0} (A : Adapters World) (order : Order) (b os f : Handle) where
  write-DoneTrace :
      (chunk : Slice) (s : Recorded World)
      → Trace order s.1 (writing b os f) (Verdict.going Stage.sent)
      → DoneTrace order (writing b os f) ((recorded A).write os chunk s)
  write-DoneTrace chunk s t =
      done-DoneTrace order (writing b os f) (A.write os chunk s.0).0 (A.write os chunk s.0).1 _
        (Trace.used Kind.out_stream os refl t)

  failure-WrittenTrace :
      (msg : Bytes) (error : StreamFailure) (s : Recorded World)
      → says msg ≡ true
      → Trace order s.1 (writing b os f) Verdict.refused
      → WrittenTrace order (writing b os f) (write_failure (recorded A).to_debug_string msg error s)
  unfolding write_failure
  failure-WrittenTrace msg (StreamFailure.last_operation_failed error) s said t =
      (t, says-append msg _ said)
  failure-WrittenTrace msg StreamFailure.closed s said t = (t, said)

  Sends-WrittenTrace :
      (msg : Bytes) (body_data body_len : ℕ) {off : ℕ} {s : Recorded World}
      {r : Written × Recorded World}
      → says msg ≡ true
      → Trace order s.1 (writing b os f) (Verdict.going Stage.sent)
      → Sends (recorded A).to_debug_string ((recorded A).write os) msg body_data body_len off s r
      → WrittenTrace order (writing b os f) r
  Sends-WrittenTrace msg body_data body_len said t Sends.finished = t
  Sends-WrittenTrace msg body_data body_len {s = s} said t
        (Sends.refused {after = after} {error = error} chunk c e) =
      failure-WrittenTrace msg error after said
        (subst (DoneTrace order (writing b os f)) e (write-DoneTrace chunk s t))
  Sends-WrittenTrace msg body_data body_len {s = s} said t (Sends.accepted chunk c e rest) =
      Sends-WrittenTrace msg body_data body_len said
        (subst (DoneTrace order (writing b os f)) e (write-DoneTrace chunk s t)) rest

module _ {World : Type 0} (A : Adapters World) (D : DuckDb) (fuel : ℕ) (url : Bytes)
    (content_handler : Option (Bytes → World → Bool × World))
    (response_handler : Option (Response → World → Answer × World)) (method : MethodValue)
    (order : Order) where
  after_finish-Ends :
      (f : Handle) (r : Result (Unit {0}) ErrorValue) (w : World) (log : Log)
      → Trace order log ((Kind.future, f) ∷ []) (Verdict.going Stage.sent)
      → Ends A fuel content_handler D order (
          after_finish
            (recorded A)
            D
            fuel
            url
            (recorded_content content_handler)
            (recorded_handler response_handler)
            method
            f
            ((Kind.future, f) ∷ [])
            (r, (w, done r log)))
  unfolding after_finish
  after_finish-Ends f (good _) w log t =
      await-Ends A D fuel content_handler order url response_handler method f (w, log) t
  after_finish-Ends f (bad error) w log t =
      fail-Ends A D fuel content_handler order _ _ _ (Trace.refused t) refl refl

  after_write_loop-Ends :
      (b os f : Handle) (written : Written × Recorded World) (s : Recorded World)
      → WrittenTrace order (writing b os f) written
      → Ends A fuel content_handler D order (
          after_write_loop
            (recorded A)
            D
            fuel
            url
            (recorded_content content_handler)
            (recorded_handler response_handler)
            method
            b
            os
            f
            (some written)
            s)
  unfolding after_write_loop
  after_write_loop-Ends b os f (Written.write_failed msg, after) s (t, said) =
      fail-Ends A D fuel content_handler order msg _ after t refl said
  after_write_loop-Ends b os f (Written.all_written, after) s t =
      after_finish-Ends f _ _ _ (
        Trace.given Kind.out_body b refl refl refl
          (Trace.given Kind.out_stream os refl refl refl t))

  loop-Ends :
      (b os f : Handle) (msg : Bytes) (body_data body_len : ℕ) (s : Recorded World)
      → says msg ≡ true
      → Trace order s.1 (writing b os f) (Verdict.going Stage.sent)
      → Ends A fuel content_handler D order (
          after_write_loop
            (recorded A)
            D
            fuel
            url
            (recorded_content content_handler)
            (recorded_handler response_handler)
            method
            b
            os
            f
            (write_loop
              (recorded A).to_debug_string
              ((recorded A).write os)
              msg
              body_data
              body_len
              (suc body_len)
              0
              s)
            s)
  loop-Ends b os f msg body_data body_len s said t =
      let (r, runs, sends) =
        write_loop-Sends (recorded A).to_debug_string ((recorded A).write os) msg body_data body_len
          (suc body_len) s (omega arith) in
      rw runs (
        after_write_loop-Ends b os f r s
          (Sends-WrittenTrace A order b os f msg body_data body_len said t sends))

  pub write_stream-Ends :
      (b f : Handle) (body_data body_len : ℕ) (o : Option Handle) (w : World) (log : Log)
      → Trace order log ((Kind.future, f) ∷ (Kind.out_body, b) ∷ []) (Verdict.going Stage.sent)
      → Ends A fuel content_handler D order (
          write_stream
            (recorded A)
            D
            fuel
            url
            (recorded_content content_handler)
            (recorded_handler response_handler)
            method
            b
            f
            body_data
            body_len
            (o, (w, opened Kind.out_stream o log)))
  unfolding write_stream
  write_stream-Ends b f body_data body_len none w log t =
      fail-Ends A D fuel content_handler order _ _ _ (Trace.refused t) refl refl
  write_stream-Ends b f body_data body_len (some os) w log t =
      loop-Ends b os f _ body_data body_len _ refl (Trace.acquired Kind.out_stream os refl t)
