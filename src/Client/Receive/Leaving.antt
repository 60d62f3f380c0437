-- ===== src/Client/Receive/Leaving.antt =====
-- Leaving Request, with the log.
use particle_python_wheels.Prelude.{arith, ℕ, ◌≡◌, refl, Bool, true, false, [], ◌∷◌, Option}
use particle_python_wheels.Bindings.Memory.{Handle}
use particle_python_wheels.Client.Url.{Bytes}
use particle_python_wheels.Client.Body.{Response}
use particle_python_wheels.Client.Host.{Kind, Adapters, DuckDb, IsFresh, Owners, Exit}
use particle_python_wheels.Client.Recorder.{Event, Log, Recorded, recorded}
use particle_python_wheels.Client.Lawful.{
  has_child, Stage, Verdict, Order, Trace, IsDone, says, in_order, Tells, Ends,
}
use particle_python_wheels.Client.Receive.{leave, fail}

-- A response that says nothing of an error.
abbrev pub IsMild : Response → Type 0
IsMild resp = (resp.success ≡ true) × (says resp.request_error ≡ false)

-- The last variable is destroyed.
given_last :
    (order : Order) (k : Kind) (h : Handle) (owners : Owners) (v : Verdict) (log : Log)
    → has_child k owners ≡ false
    → Trace order log ((k, h) ∷ owners) v
    → Trace order (Event.given k h ∷ log) owners v
given_last order Kind.fields h owners v log free t = Trace.given Kind.fields h refl free refl t
given_last order Kind.request h owners v log free t = Trace.given Kind.request h refl free refl t
given_last order Kind.out_body h owners v log free t = Trace.given Kind.out_body h refl free refl t
given_last order Kind.out_stream h owners v log free t =
    Trace.given Kind.out_stream h refl free refl t
given_last order Kind.future h owners v log free t = Trace.given Kind.future h refl free refl t
given_last order Kind.pollable h owners v log free t = Trace.given Kind.pollable h refl free refl t
given_last order Kind.response h owners v log free t = Trace.given Kind.response h refl free refl t
given_last order Kind.response_fields h owners v log free t =
    Trace.given Kind.response_fields h refl free refl t
given_last order Kind.body h owners v log free t = Trace.given Kind.body h refl free refl t
given_last order Kind.stream h owners v log free t = Trace.given Kind.stream h refl free refl t

module _ {World : Type 0} (A : Adapters World) (D : DuckDb) (fuel : ℕ)
    (content_handler : Option (Bytes → World → Bool × World)) (order : Order) where
  pub leave-Ends :
      (exit : Exit) (owners : Owners) (v : Verdict) (s : Recorded World)
      → Trace order s.1 owners v
      → in_order owners ≡ true
      → IsDone exit []
      → (IsFresh D → (after : Recorded World) → Tells A fuel content_handler v [] after exit)
      → Ends A fuel content_handler D order (leave (recorded A) D fuel exit owners s)
  unfolding leave
  leave-Ends exit [] v s t ordered done tells = ([], v, t, done, λ fresh. tells fresh s)
  leave-Ends exit ((k, h) ∷ owners) v s t ordered done tells =
      leave-Ends exit owners v ((recorded A).drop_own k h s)
        (given_last order k h owners v s.1 (ground (arith, ordered)) t) (ground (arith, ordered))
        done tells

  pub fail-Ends :
      (msg : Bytes) (owners : Owners) (s : Recorded World)
      → Trace order s.1 owners Verdict.refused
      → in_order owners ≡ true
      → says msg ≡ true
      → Ends A fuel content_handler D order (fail (recorded A) D fuel msg owners s)
  unfolding fail
  fail-Ends msg owners s t ordered said =
      leave-Ends (Exit.returned _) owners Verdict.refused s t ordered refl
        (λ fresh after. (refl, said))

  pub mild-Ends :
      (resp : Response) (owners : Owners) (s : Recorded World)
      → Trace order s.1 owners (Verdict.going Stage.answered)
      → in_order owners ≡ true
      → (IsFresh D → IsMild resp)
      → Ends A fuel content_handler D order
          (leave (recorded A) D fuel (Exit.returned resp) owners s)
  mild-Ends resp owners s t ordered mild =
      leave-Ends (Exit.returned resp) owners (Verdict.going Stage.answered) s t ordered refl
        (λ fresh after. mild fresh)
