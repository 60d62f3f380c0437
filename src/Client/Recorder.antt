-- ===== src/Client/Recorder.antt =====
-- A witness of the calls that WasiHTTPClient::Request of duckdb-httpfs-wasi/wasi_http_client.cpp makes:
-- adapters and handlers that do what others do, and besides write down each call, with the handle that
-- it was given and how it was answered, the last call first.
use particle_python_wheels.Prelude.{ℕ, Bool, true, false, List, [], ◌∷◌, Option, none, some}
use particle_python_wheels.Bindings.Memory.{Handle}
use particle_python_wheels.Bindings.Abi.{Result, good, bad}
use particle_python_wheels.Bindings.ErrorCode.Value.{ErrorValue}
use particle_python_wheels.Bindings.Streams.Lift.{StreamFailure}
use particle_python_wheels.Bindings.Fields.Lift.{HeaderFailure}
use particle_python_wheels.Bindings.Request.Value.{MethodValue, SchemeValue}
use particle_python_wheels.Client.Url.{Bytes}
use particle_python_wheels.Client.Body.{Response}
use particle_python_wheels.Client.Host.{Kind, Adapters, Answer}

-- What a setter of a request is given.
pub data Choice : Type 0 where
  method : MethodValue → Choice
  scheme : SchemeValue → Choice
  authority path : Bytes → Choice

-- A handle is acquired, is passed to a call that borrows it, or is given away: dropped, or passed to a
-- call that consumes it. Header fields take an entry, a request takes a choice, and a request is
-- dispatched. A call is refused. The response handler throws at a status. The future has no
-- response after all.
pub data Event : Type 0 where
  acquired used given : Kind → Handle → Event
  field : Bytes → Bytes → Event
  chose : Choice → Event
  dispatched refused lost : Event
  threw : ℕ → Event

abbrev pub Log : Type 0
Log = List Event

-- What an answer adds to the log.
abbrev pub chosen : Choice → Bool → Log → Log
chosen c true log = Event.chose c ∷ log
chosen c false log = Event.refused ∷ log

abbrev pub entered : Bytes → Bytes → Result (Unit {0}) HeaderFailure → Log → Log
entered key value (good _) log = Event.field key value ∷ log
entered key value (bad error) log = Event.refused ∷ log

abbrev pub opened : Kind → Option Handle → Log → Log
opened k none log = Event.refused ∷ log
opened k (some h) log = Event.acquired k h ∷ log

abbrev pub done : {E : Type 0} → Result (Unit {0}) E → Log → Log
done (good _) log = log
done (bad error) log = Event.refused ∷ log

abbrev pub sent : Result Handle ErrorValue → Log → Log
sent (good h) log = Event.acquired Kind.future h ∷ log
sent (bad error) log = Event.refused ∷ log

abbrev pub arrived : Option (Result (Result Handle ErrorValue) (Unit {0})) → Log → Log
arrived none log = Event.lost ∷ log
arrived (some (bad _)) log = Event.refused ∷ log
arrived (some (good (bad error))) log = Event.refused ∷ log
arrived (some (good (good h))) log = Event.acquired Kind.response h ∷ log

-- The end of a stream is no refusal; a failed operation is one if the host has a text for it.
abbrev pub described : Bytes → Log → Log
described [] log = log
described (c ∷ cs) log = Event.refused ∷ log

abbrev pub answered : Answer → ℕ → Log → Log
answered Answer.throws status log = Event.threw status ∷ log
answered Answer.stops status log = log
answered Answer.goes_on status log = log

abbrev pub Recorded : Type 0 → Type 0
Recorded World = World × Log

module _ {World : Type 0} where
  abbrev pub recorded_call :
      {X : Type 0} → (X → Log → Log) → (World → X × World) → Recorded World → X × Recorded World
  recorded_call note call s = ((call s.0).0, ((call s.0).1, note (call s.0).0 s.1))

  module _ (A : Adapters World) where
    abbrev pub read_done : Result Bytes StreamFailure → World → Log → Log
    read_done (good chunk) w log = log
    read_done (bad StreamFailure.closed) w log = log
    read_done (bad (StreamFailure.last_operation_failed error)) w log =
        described (A.to_debug_string error w).0 log

    abbrev pub recorded : Adapters (Recorded World)
    recorded = record {
      new_fields = recorded_call (λ h log. Event.acquired Kind.fields h ∷ log) A.new_fields;
      append = λ h key value.
          recorded_call (λ r log. entered key value r (Event.used Kind.fields h ∷ log))
            (A.append h key value);
      new_request = λ h.
          recorded_call (λ r log. Event.acquired Kind.request r ∷ (Event.given Kind.fields h ∷ log))
            (A.new_request h);
      set_method = λ h x.
          recorded_call (λ b log. chosen (Choice.method x) b (Event.used Kind.request h ∷ log))
            (A.set_method h x);
      set_scheme = λ h x.
          recorded_call (λ b log. chosen (Choice.scheme x) b (Event.used Kind.request h ∷ log))
            (A.set_scheme h x);
      set_authority = λ h x.
          recorded_call (λ b log. chosen (Choice.authority x) b (Event.used Kind.request h ∷ log))
            (A.set_authority h x);
      set_path = λ h x.
          recorded_call (λ b log. chosen (Choice.path x) b (Event.used Kind.request h ∷ log))
            (A.set_path h x);
      request_body = λ h.
          recorded_call (λ o log. opened Kind.out_body o (Event.used Kind.request h ∷ log))
            (A.request_body h);
      handle = λ h.
          recorded_call (λ r log. sent r (Event.given Kind.request h ∷ (Event.dispatched ∷ log)))
            (A.handle h);
      body_write = λ h.
          recorded_call (λ o log. opened Kind.out_stream o (Event.used Kind.out_body h ∷ log))
            (A.body_write h);
      write = λ h chunk.
          recorded_call (λ r log. done r (Event.used Kind.out_stream h ∷ log)) (A.write h chunk);
      finish =
          λ h. recorded_call (λ r log. done r (Event.given Kind.out_body h ∷ log)) (A.finish h);
      subscribe = λ h.
          recorded_call (λ p log. Event.acquired Kind.pollable p ∷ (Event.used Kind.future h ∷ log))
            (A.subscribe h);
      block = λ h s. (A.block h s.0, Event.used Kind.pollable h ∷ s.1);
      get = λ h. recorded_call (λ r log. arrived r (Event.used Kind.future h ∷ log)) (A.get h);
      status = λ h. recorded_call (λ x log. Event.used Kind.response h ∷ log) (A.status h);
      headers = λ h.
          recorded_call
            (λ f log. Event.acquired Kind.response_fields f ∷ (Event.used Kind.response h ∷ log))
            (A.headers h);
      entries = λ h. recorded_call (λ x log. Event.used Kind.response_fields h ∷ log) (A.entries h);
      consume = λ h.
          recorded_call (λ o log. opened Kind.body o (Event.used Kind.response h ∷ log))
            (A.consume h);
      open_stream = λ h.
          recorded_call (λ o log. opened Kind.stream o (Event.used Kind.body h ∷ log))
            (A.open_stream h);
      read = λ h n s. (
        (A.read h n s.0).0,
        (
          (A.read h n s.0).1,
          read_done (A.read h n s.0).0 (A.read h n s.0).1 (Event.used Kind.stream h ∷ s.1),
        ),
      );
      to_debug_string = λ e. recorded_call (λ x log. log) (A.to_debug_string e);
      drop_own = λ k h s. (A.drop_own k h s.0, Event.given k h ∷ s.1);
    }

  abbrev pub recorded_content :
      Option (Bytes → World → Bool × World)
      → Option (Bytes → Recorded World → Bool × Recorded World)
  recorded_content none = none
  recorded_content (some handler) = some (λ chunk. recorded_call (λ b log. log) (handler chunk))

  abbrev pub recorded_handler :
      Option (Response → World → Answer × World)
      → Option (Response → Recorded World → Answer × Recorded World)
  recorded_handler none = none
  recorded_handler (some handler) =
      some (λ resp. recorded_call (λ a log. answered a resp.status log) (handler resp))
