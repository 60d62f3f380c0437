-- ===== src/Client/Send/Drafting.antt =====
-- The header fields and the setters of Request: the log, and what has been entered and chosen so far.
use mathlib.Core.Path.{subst}
use mathlib.Core.List.{append_assoc, append-nil}
use particle_python_wheels.Prelude.{
  ap, sym, ◌∙◌, ℕ, ◌≡◌, refl, Bool, true, false, List, [], ◌∷◌, ◌++◌, Option, if◌then◌else◌,
}
use particle_python_wheels.Bindings.Memory.{Handle}
use particle_python_wheels.Bindings.Abi.{Result, good, bad}
use particle_python_wheels.Bindings.Fields.Lift.{HeaderFailure}
use particle_python_wheels.Bindings.Request.Value.{MethodValue, SchemeValue}
use particle_python_wheels.Client.Text.{ascii}
use particle_python_wheels.Client.Url.{Bytes, parse_url}
use particle_python_wheels.Client.Body.{Response}
use particle_python_wheels.Client.Host.{Kind, Adapters, DuckDb, Owners, Answer}
use particle_python_wheels.Client.Recorder.{
  Choice, Event, Log, Recorded, chosen, entered, recorded_call, recorded, recorded_content,
  recorded_handler,
}
use particle_python_wheels.Client.Lawful.{fields_of, choices_of, Order, Stage, Verdict, Trace}
use particle_python_wheels.Client.Send.Ordered.{credentials, choices_for}
use particle_python_wheels.Client.Send.{
  and_also, set_all, appended, append_rest, append_all, append_token,
}

-- While a request is made: so far it has these entries and choices.
abbrev pub Draft : Order → Owners → List (Bytes × Bytes) → List Choice → Log → Type 0
Draft order owners fs cs log =
    Trace order log owners (Verdict.going Stage.drafting)
    × (fields_of log ≡ fs)
    × (choices_of log ≡ cs)

module _ {World : Type 0} (order : Order) (owners : Owners) where
  -- Behind the setters.
  abbrev pub SetTrace : List (Bytes × Bytes) → List Choice → Bool × Recorded World → Type 0
  SetTrace fs cs (true, s) = Draft order owners fs cs s.1
  SetTrace fs cs (false, s) = Trace order s.1 owners Verdict.refused

  chosen-SetTrace :
      (fs : List (Bytes × Bytes)) (cs : List Choice) (c : Choice) (b : Bool) (w : World) (log : Log)
      → Draft order owners fs cs log
      → SetTrace fs (cs ++ (c ∷ [])) (b, (w, chosen c b log))
  chosen-SetTrace fs cs c true w log (t, e, f) =
      (Trace.chose c t, e, ap (λ (l : List Choice). l ++ (c ∷ [])) f)
  chosen-SetTrace fs cs c false w log (t, e, f) = Trace.refused t

  -- Behind the header fields, with the error's text.
  abbrev pub AppendTrace : List (Bytes × Bytes) → Bytes × Recorded World → Type 0
  AppendTrace fs ([], s) = Draft order owners fs [] s.1
  AppendTrace fs (c ∷ cs, s) = Trace order s.1 owners Verdict.refused

  if-AppendTrace :
      (fs gs hs : List (Bytes × Bytes)) (b : Bool) (x y : Bytes × Recorded World)
      → AppendTrace (fs ++ gs) x
      → AppendTrace (fs ++ hs) y
      → AppendTrace (fs ++ (if b then gs else hs)) (if b then x else y)
  if-AppendTrace fs gs hs true x y t u = t
  if-AppendTrace fs gs hs false x y t u = u

module _ {World : Type 0} (A : Adapters World) (D : DuckDb) (fuel : ℕ) (url : Bytes)
    (content_handler : Option (Bytes → World → Bool × World))
    (response_handler : Option (Response → World → Answer × World)) (method : MethodValue)
    (order : Order) where
  and_also-SetTrace :
      (r : Handle) (fs : List (Bytes × Bytes)) (cs ds : List Choice) (set : Bool × Recorded World)
      (next : Recorded World → Bool × Recorded World)
      → SetTrace order ((Kind.request, r) ∷ []) fs cs set
      → ((s : Recorded World)
          → Draft order ((Kind.request, r) ∷ []) fs cs s.1
          → SetTrace order ((Kind.request, r) ∷ []) fs ds (next s))
      → SetTrace order ((Kind.request, r) ∷ []) fs ds (
          and_also
            (recorded A)
            D
            fuel
            url
            (recorded_content content_handler)
            (recorded_handler response_handler)
            method
            set
            next)
  and_also-SetTrace r fs cs ds (false, s) next t rest = t
  and_also-SetTrace r fs cs ds (true, s) next t rest = rest s t

  call-SetTrace :
      (r : Handle) (fs : List (Bytes × Bytes)) (cs : List Choice) (c : Choice)
      (call : World → Bool × World) (s : Recorded World)
      → Draft order ((Kind.request, r) ∷ []) fs cs s.1
      → SetTrace order
          ((Kind.request, r) ∷ [])
          fs
          (cs ++ (c ∷ []))
          (recorded_call (λ b log. chosen c b (Event.used Kind.request r ∷ log)) call s)
  call-SetTrace r fs cs c call s (t, e, f) =
      chosen-SetTrace order ((Kind.request, r) ∷ []) fs cs c (call s.0).0 (call s.0).1
        (Event.used Kind.request r ∷ s.1) (Trace.used Kind.request r refl t, e, f)

  pub set_all-SetTrace :
      (r : Handle) (fs : List (Bytes × Bytes)) (s : Recorded World)
      → Draft order ((Kind.request, r) ∷ []) fs [] s.1
      → SetTrace order ((Kind.request, r) ∷ []) fs (choices_for method url) (
          set_all
            (recorded A)
            D
            fuel
            url
            (recorded_content content_handler)
            (recorded_handler response_handler)
            method
            r
            (parse_url url)
            s)
  unfolding set_all
  set_all-SetTrace r fs s t =
      let scheme = if (parse_url url).https then SchemeValue.https else SchemeValue.http in
      let m = Choice.method method in
      let c = Choice.scheme scheme in
      let a = Choice.authority (parse_url url).authority in
      let p = Choice.path (parse_url url).path in
      and_also-SetTrace r fs (m ∷ c ∷ a ∷ []) (m ∷ c ∷ a ∷ p ∷ []) _
        ((recorded A).set_path r (parse_url url).path)
        (and_also-SetTrace r fs (m ∷ c ∷ []) (m ∷ c ∷ a ∷ []) _
          ((recorded A).set_authority r (parse_url url).authority)
          (and_also-SetTrace r fs (m ∷ []) (m ∷ c ∷ []) ((recorded A).set_method r method s)
            ((recorded A).set_scheme r scheme) (call-SetTrace r fs [] m (A.set_method r method) s t)
            (call-SetTrace r fs (m ∷ []) c (A.set_scheme r scheme)))
          (call-SetTrace r fs (m ∷ c ∷ []) a (A.set_authority r (parse_url url).authority)))
        (call-SetTrace r fs (m ∷ c ∷ a ∷ []) p (A.set_path r (parse_url url).path))

  appended-AppendTrace :
      (h : Handle) (fs : List (Bytes × Bytes)) (key value : Bytes)
      (r : Result (Unit {0}) HeaderFailure) (w : World) (log : Log)
      → Draft order ((Kind.fields, h) ∷ []) fs [] log
      → AppendTrace order ((Kind.fields, h) ∷ []) (fs ++ ((key, value) ∷ [])) (
          appended
            (recorded A)
            D
            fuel
            url
            (recorded_content content_handler)
            (recorded_handler response_handler)
            method
            key
            (r, (w, entered key value r log)))
  unfolding appended
  appended-AppendTrace h fs key value (good _) w log (t, e, f) =
      (Trace.field key value t, ap (λ (l : List (Bytes × Bytes)). l ++ ((key, value) ∷ [])) e, f)
  appended-AppendTrace h fs key value (bad error) w log (t, e, f) = Trace.refused t

  call-AppendTrace :
      (h : Handle) (fs : List (Bytes × Bytes)) (key value : Bytes) (s : Recorded World)
      → Draft order ((Kind.fields, h) ∷ []) fs [] s.1
      → AppendTrace order ((Kind.fields, h) ∷ []) (fs ++ ((key, value) ∷ [])) (
          appended
            (recorded A)
            D
            fuel
            url
            (recorded_content content_handler)
            (recorded_handler response_handler)
            method
            key
            ((recorded A).append h key value s))
  call-AppendTrace h fs key value s (t, e, f) =
      appended-AppendTrace h fs key value (A.append h key value s.0).0 (A.append h key value s.0).1
        (Event.used Kind.fields h ∷ s.1) (Trace.used Kind.fields h refl t, e, f)

  append_rest-AppendTrace :
      (h : Handle) (fs gs : List (Bytes × Bytes)) (rest : Recorded World → Bytes × Recorded World)
      (x : Bytes × Recorded World)
      → AppendTrace order ((Kind.fields, h) ∷ []) fs x
      → ((s : Recorded World)
          → Draft order ((Kind.fields, h) ∷ []) fs [] s.1
          → AppendTrace order ((Kind.fields, h) ∷ []) gs (rest s))
      → AppendTrace order ((Kind.fields, h) ∷ []) gs (
          append_rest
            (recorded A)
            D
            fuel
            url
            (recorded_content content_handler)
            (recorded_handler response_handler)
            method
            rest
            x)
  unfolding append_rest
  append_rest-AppendTrace h fs gs rest ([], s) t more = more s t
  append_rest-AppendTrace h fs gs rest (c ∷ cs, s) t more = t

  pub append_all-AppendTrace :
      (h : Handle) (headers fs : List (Bytes × Bytes)) (s : Recorded World)
      → Draft order ((Kind.fields, h) ∷ []) fs [] s.1
      → AppendTrace order ((Kind.fields, h) ∷ []) (fs ++ headers) (
          append_all
            (recorded A)
            D
            fuel
            url
            (recorded_content content_handler)
            (recorded_handler response_handler)
            method
            h
            headers
            s)
  unfolding append_all
  append_all-AppendTrace h [] fs s (t, e, f) = (t, e ∙ sym (append-nil fs), f)
  append_all-AppendTrace h ((key, value) ∷ headers) fs s t =
      append_rest-AppendTrace h (fs ++ ((key, value) ∷ [])) (fs ++ ((key, value) ∷ headers)) _ _
        (call-AppendTrace h fs key value s t)
        (λ v u.
          subst
            (λ (l : List (Bytes × Bytes)). AppendTrace order ((Kind.fields, h) ∷ []) l (
              append_all (recorded A) D fuel url (recorded_content content_handler)
                (recorded_handler response_handler) method h headers v))
            (append_assoc fs ((key, value) ∷ []) headers)
            (append_all-AppendTrace h headers (fs ++ ((key, value) ∷ [])) v u))

  pub append_token-AppendTrace :
      (h : Handle) (headers fs : List (Bytes × Bytes)) (token : Bytes) (x : Bytes × Recorded World)
      → AppendTrace order ((Kind.fields, h) ∷ []) fs x
      → AppendTrace order ((Kind.fields, h) ∷ []) (fs ++ credentials D headers token) (
          append_token
            (recorded A)
            D
            fuel
            url
            (recorded_content content_handler)
            (recorded_handler response_handler)
            method
            h
            headers
            token
            x)
  unfolding append_token
  append_token-AppendTrace h headers fs token (c ∷ cs, s) t = t
  append_token-AppendTrace h headers fs [] ([], s) (t, e, f) = (t, e ∙ sym (append-nil fs), f)
  append_token-AppendTrace h headers fs (k ∷ token) ([], s) (t, e, f) =
      let key = ascii "Authorization" in
      let value = ascii "Bearer " ++ (k ∷ token) in
      if-AppendTrace order ((Kind.fields, h) ∷ []) fs [] ((key, value) ∷ [])
        (D.has_header headers key) _ _ (t, e ∙ sym (append-nil fs), f)
        (call-AppendTrace h fs key value s (t, e, f))
