-- ===== src/Client/Receive/Reading.antt =====
-- The log of the loop that reads the body of a response.
use mathlib.Core.Path.{subst}
use particle_python_wheels.Prelude.{
  ℕ, zero, suc, ◌≡◌, refl, sym, Bool, true, false, [], ◌∷◌, ◌++◌, Option, none, some, ◌⊎◌, inl, inr,
}
use particle_python_wheels.Bindings.Memory.{Handle}
use particle_python_wheels.Bindings.Abi.{Result, good, bad}
use particle_python_wheels.Bindings.Streams.Lift.{StreamFailure}
use particle_python_wheels.Client.Url.{Bytes}
use particle_python_wheels.Client.Body.{
  Response, read_limit, after_read, read_loop, finish_read, read_body,
}
use particle_python_wheels.Client.Body.Read.{handled, kept, after_read-good}
use particle_python_wheels.Client.Host.{Kind, Adapters, Owners}
use particle_python_wheels.Client.Recorder.{
  Event, Log, Recorded, described, read_done, recorded, recorded_content,
}
use particle_python_wheels.Client.Lawful.{lookup, Stage, Verdict, Order, Trace, says, Gives}

pub says-append : (a b : Bytes) → says a ≡ true → says (a ++ b) ≡ true
says-append [] b said = cc
says-append (c ∷ cs) b said = refl

handled-log :
    {World : Type 0} (content_handler : Option (Bytes → World → Bool × World)) (chunk : Bytes)
    (s : Recorded World)
    → (handled (recorded_content content_handler) chunk s).1 ≡ s.1
handled-log none chunk s = refl
handled-log (some handler) [] s = refl
handled-log (some handler) (c ∷ cs) s = refl

module _ {World : Type 0} (content_handler : Option (Bytes → World → Bool × World)) where
  module _ (A : Adapters World) (order : Order) (owners : Owners) where
    -- Behind a loop that leaves this error text.
    abbrev pub After : Bytes → Log → Type 0
    After [] log = Trace order log owners (Verdict.going Stage.answered)
    After (c ∷ cs) log = Trace order log owners Verdict.refused

    described-After :
        (dbg : Bytes) (log : Log)
        → Trace order log owners (Verdict.going Stage.answered)
        → After dbg (described dbg log)
    described-After [] log t = t
    described-After (c ∷ cs) log t = Trace.refused t

    abbrev ReadTrace : Result Bytes StreamFailure × Recorded World → Type 0
    ReadTrace (good chunk, s) = Trace order s.1 owners (Verdict.going Stage.answered)
    ReadTrace (bad StreamFailure.closed, s) = Trace order s.1 owners (Verdict.going Stage.answered)
    ReadTrace (bad (StreamFailure.last_operation_failed error), s) =
        After (A.to_debug_string error s.0).0 s.1

    noted-ReadTrace :
        (r : Result Bytes StreamFailure) (w : World) (log : Log)
        → Trace order log owners (Verdict.going Stage.answered)
        → ReadTrace (r, (w, read_done A r w log))
    noted-ReadTrace (good chunk) w log t = t
    noted-ReadTrace (bad StreamFailure.closed) w log t = t
    noted-ReadTrace (bad (StreamFailure.last_operation_failed error)) w log t =
        described-After (A.to_debug_string error w).0 log t

    module _ (h : Handle) (has : lookup Kind.stream owners ≡ some h) where
      read-ReadTrace :
          (s : Recorded World)
          → Trace order s.1 owners (Verdict.going Stage.answered)
          → ReadTrace ((recorded A).read h read_limit s)
      read-ReadTrace s t =
          noted-ReadTrace (A.read h read_limit s.0).0 (A.read h read_limit s.0).1
            (Event.used Kind.stream h ∷ s.1) (Trace.used Kind.stream h has t)

      abbrev LoopEnds : ℕ → Recorded World → Option (Bytes × Bytes × Recorded World) → Type 0
      LoopEnds fuel s none = Gives (recorded A) (recorded_content content_handler) h fuel s
      LoopEnds fuel s (some (dbg, body, after)) = After dbg after.1

      longer-LoopEnds :
          (fuel : ℕ) (s after : Recorded World) (chunk : Bytes)
          (end : Option (Bytes × Bytes × Recorded World))
          → (recorded A).read h read_limit s ≡ (good chunk, after)
          → LoopEnds fuel (handled (recorded_content content_handler) chunk after) end
          → LoopEnds (suc fuel) s end
      longer-LoopEnds fuel s after chunk none e g = Gives.more e g
      longer-LoopEnds fuel s after chunk (some (dbg, body, end)) e g = g

      round-LoopEnds :
          (fuel : ℕ) (body : Bytes) (s : Recorded World)
          (next : Bytes → Recorded World → Option (Bytes × Bytes × Recorded World))
          → ((b : Bytes) (v : Recorded World)
              → Trace order v.1 owners (Verdict.going Stage.answered)
              → LoopEnds fuel v (next b v))
          → (r : Result Bytes StreamFailure × Recorded World) → (recorded A).read h read_limit s ≡ r
          → ReadTrace r
          → LoopEnds (suc fuel) s (
              after_read
                (recorded A).to_debug_string
                ((recorded A).read h)
                (recorded_content content_handler)
                next
                body
                r)
      unfolding after_read
      round-LoopEnds fuel body s next rest (good chunk, after) e t =
          rw
            (after_read-good (recorded A).to_debug_string ((recorded A).read h)
              (recorded_content content_handler) next body chunk after)
            (longer-LoopEnds fuel s after chunk _ e (
              rest (body ++ kept (recorded_content content_handler) (chunk ∷ []))
                (handled (recorded_content content_handler) chunk after)
                (subst (λ (l : Log). Trace order l owners (Verdict.going Stage.answered))
                  (sym (handled-log content_handler chunk after)) t)))
      round-LoopEnds fuel body s next rest (bad StreamFailure.closed, after) e t = t
      round-LoopEnds fuel body s next rest (bad (StreamFailure.last_operation_failed error), after)
            e t =
          t

      read_loop-LoopEnds :
          (fuel : ℕ) (body : Bytes) (s : Recorded World)
          → Trace order s.1 owners (Verdict.going Stage.answered)
          → LoopEnds fuel s (
              read_loop
                (recorded A).to_debug_string
                ((recorded A).read h)
                (recorded_content content_handler)
                fuel
                body
                s)
      unfolding read_loop
      read_loop-LoopEnds zero body s t = Gives.stop
      read_loop-LoopEnds (suc fuel) body s t =
          round-LoopEnds fuel body s _ (read_loop-LoopEnds fuel) ((recorded A).read h read_limit s)
            refl (read-ReadTrace s t)

      -- The response behind the loop.
      abbrev pub ReadEnds :
          ℕ → Recorded World → Response → Option (Response × Recorded World) → Type 0
      ReadEnds fuel s resp none = Gives (recorded A) (recorded_content content_handler) h fuel s
      ReadEnds fuel s resp (some (r, after)) =
          (Trace order after.1 owners (Verdict.going Stage.answered)
            × (r.success ≡ resp.success)
            × (r.request_error ≡ resp.request_error))
          ⊎ (Trace order after.1 owners Verdict.refused
              × (r.success ≡ false)
              × (says r.request_error ≡ true))

      finished-ReadEnds :
          (fuel : ℕ) (msg : Bytes) (resp : Response) (s : Recorded World)
          (end : Bytes × Bytes × Recorded World)
          → says msg ≡ true
          → After end.0 end.2.1
          → ReadEnds fuel s resp (
              some (
                finish_read
                  (recorded A).to_debug_string
                  ((recorded A).read h)
                  (recorded_content content_handler)
                  msg
                  resp
                  end))
      unfolding finish_read
      finished-ReadEnds fuel msg resp s ([], body, after) said t = inl (t, refl, refl)
      finished-ReadEnds fuel msg resp s (c ∷ cs, body, after) said t =
          inr (t, refl, says-append msg (c ∷ cs) said)

      ended-ReadEnds :
          (fuel : ℕ) (msg : Bytes) (resp : Response) (s : Recorded World)
          (end : Option (Bytes × Bytes × Recorded World))
          → says msg ≡ true
          → LoopEnds fuel s end
          → ReadEnds fuel s resp (elim end [
            | none ↦ none
            | some r ↦ some (
                finish_read
                  (recorded A).to_debug_string
                  ((recorded A).read h)
                  (recorded_content content_handler)
                  msg
                  resp
                  r)
          ])
      ended-ReadEnds fuel msg resp s none said g = g
      ended-ReadEnds fuel msg resp s (some end) said t =
          finished-ReadEnds fuel msg resp s end said t

      -- From owners that have the stream's handle.
      pub read_body-ReadEnds :
          (fuel : ℕ) (msg : Bytes) (resp : Response) (s : Recorded World)
          → says msg ≡ true
          → Trace order s.1 owners (Verdict.going Stage.answered)
          → ReadEnds fuel s resp (
              read_body
                (recorded A).to_debug_string
                ((recorded A).read h)
                (recorded_content content_handler)
                fuel
                msg
                resp
                s)
      unfolding read_body
      read_body-ReadEnds fuel msg resp s said t =
          ended-ReadEnds fuel msg resp s _ said (read_loop-LoopEnds fuel resp.body s t)
