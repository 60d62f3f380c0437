-- ===== src/Client/Lawful.antt =====
-- What wasi:http asks of a client's handles, and what DuckDB asks of a response, in the log of a run:
-- for the code of WasiHTTPClient::Request in duckdb-httpfs-wasi/wasi_http_client.cpp.
use particle_python_wheels.Prelude.{
  ℕ, zero, suc, ◌<◌, ◌≤◌, ◌≡◌, Bool, true, false, not, ◌&&◌, ◌||◌, List, [], ◌∷◌, ◌++◌, Option,
  none, some, if◌then◌else◌,
}
use particle_python_wheels.Bindings.Memory.{Handle}
use particle_python_wheels.Bindings.Abi.{good}
use particle_python_wheels.Client.Url.{Bytes}
use particle_python_wheels.Client.Body.{read_limit}
use particle_python_wheels.Client.Body.Read.{handled}
use particle_python_wheels.Client.Host.{
  Kind, same_kind, parent, Adapters, DuckDb, IsFresh, Owners, Exit, Run,
}
use particle_python_wheels.Client.Recorder.{
  Choice, Event, Log, Recorded, recorded, recorded_content,
}

-- The handle of a variable.
abbrev pub lookup : Kind → Owners → Option Handle
lookup k [] = none
lookup k ((l, h) ∷ owners) = if same_kind k l then some h else lookup k owners

abbrev pub remove : Kind → Owners → Owners
remove k [] = []
remove k ((l, h) ∷ owners) = if same_kind k l then owners else (l, h) ∷ remove k owners

abbrev pub is_child : Kind → Option Kind → Bool
is_child k none = false
is_child k (some l) = same_kind k l

-- Whether something is owned that was made from this variable's handle.
abbrev pub has_child : Kind → Owners → Bool
has_child k [] = false
has_child k ((l, _) ∷ owners) = is_child k (parent l) || has_child k owners

-- How far a run is: it makes its request, has dispatched it, or has its response.
pub data Stage : Type 0 where
  drafting sent answered : Stage

-- How a run has gone so far: nothing went wrong, a call was refused, the response handler threw at a
-- status, or the future had no response.
pub data Verdict : Type 0 where
  going : Stage → Verdict
  refused lost : Verdict
  threw : ℕ → Verdict

-- The entries of the header fields and the choices, in the order in which they were taken.
abbrev pub fields_of : Log → List (Bytes × Bytes)
fields_of [] = []
fields_of (Event.field key value ∷ log) = fields_of log ++ ((key, value) ∷ [])
fields_of (Event.acquired k h ∷ log) = fields_of log
fields_of (Event.used k h ∷ log) = fields_of log
fields_of (Event.given k h ∷ log) = fields_of log
fields_of (Event.chose c ∷ log) = fields_of log
fields_of (Event.dispatched ∷ log) = fields_of log
fields_of (Event.refused ∷ log) = fields_of log
fields_of (Event.lost ∷ log) = fields_of log
fields_of (Event.threw s ∷ log) = fields_of log

abbrev pub choices_of : Log → List Choice
choices_of [] = []
choices_of (Event.chose c ∷ log) = choices_of log ++ (c ∷ [])
choices_of (Event.acquired k h ∷ log) = choices_of log
choices_of (Event.used k h ∷ log) = choices_of log
choices_of (Event.given k h ∷ log) = choices_of log
choices_of (Event.field key value ∷ log) = choices_of log
choices_of (Event.dispatched ∷ log) = choices_of log
choices_of (Event.refused ∷ log) = choices_of log
choices_of (Event.lost ∷ log) = choices_of log
choices_of (Event.threw s ∷ log) = choices_of log

-- A request that is to be dispatched.
pub record Order : Type 0 where
  pub fields : List (Bytes × Bytes)
  pub choices : List Choice

abbrev pub Fills : Order → Log → Type 0
Fills order log = (fields_of log ≡ order.fields) × (choices_of log ≡ order.choices)

-- The logs, the last event first, that leave these owners and this verdict: a variable acquires a
-- handle only while it has none, what is used or given away is what the variable has, nothing is given
-- away before all that was made from it, one request is dispatched, the one that was ordered, the
-- response comes after it, and once something went wrong handles are only given away.
pub data Trace (order : Order) : Log → Owners → Verdict → Type 0 where
  start : Trace order [] [] (Verdict.going Stage.drafting)
  acquired :
      {log : Log} {owners : Owners} {g : Stage} (k : Kind) (h : Handle)
      → lookup k owners ≡ none
      → Trace order log owners (Verdict.going g)
      → Trace order (Event.acquired k h ∷ log) ((k, h) ∷ owners) (Verdict.going g)
  used :
      {log : Log} {owners : Owners} {g : Stage} (k : Kind) (h : Handle)
      → lookup k owners ≡ some h
      → Trace order log owners (Verdict.going g)
      → Trace order (Event.used k h ∷ log) owners (Verdict.going g)
  given :
      {log : Log} {owners left : Owners} {v : Verdict} (k : Kind) (h : Handle)
      → lookup k owners ≡ some h
      → has_child k owners ≡ false
      → remove k owners ≡ left
      → Trace order log owners v
      → Trace order (Event.given k h ∷ log) left v
  field :
      {log : Log} {owners : Owners} (key value : Bytes)
      → Trace order log owners (Verdict.going Stage.drafting)
      → Trace order (Event.field key value ∷ log) owners (Verdict.going Stage.drafting)
  chose :
      {log : Log} {owners : Owners} (c : Choice)
      → Trace order log owners (Verdict.going Stage.drafting)
      → Trace order (Event.chose c ∷ log) owners (Verdict.going Stage.drafting)
  dispatched :
      {log : Log} {owners : Owners}
      → Fills order log
      → Trace order log owners (Verdict.going Stage.drafting)
      → Trace order (Event.dispatched ∷ log) owners (Verdict.going Stage.sent)
  responded :
      {log : Log} {owners : Owners} (h : Handle)
      → lookup Kind.response owners ≡ none
      → Trace order log owners (Verdict.going Stage.sent)
      → Trace order
          (Event.acquired Kind.response h ∷ log)
          ((Kind.response, h) ∷ owners)
          (Verdict.going Stage.answered)
  refused :
      {log : Log} {owners : Owners} {g : Stage}
      → Trace order log owners (Verdict.going g)
      → Trace order (Event.refused ∷ log) owners Verdict.refused
  lost :
      {log : Log} {owners : Owners}
      → Trace order log owners (Verdict.going Stage.sent)
      → Trace order (Event.lost ∷ log) owners Verdict.lost
  threw :
      {log : Log} {owners : Owners} (s : ℕ)
      → Trace order log owners (Verdict.going Stage.answered)
      → Trace order (Event.threw s ∷ log) owners (Verdict.threw s)

-- At its end nothing is owned; a run that is cut off or undefined has no end.
abbrev pub IsDone : Exit → Owners → Type 0
IsDone (Exit.returned resp) owners = owners ≡ []
IsDone Exit.thrown owners = owners ≡ []
IsDone Exit.unfinished owners = Unit {0}
IsDone Exit.undefined owners = Unit {0}

-- A text that is not empty.
abbrev pub says : Bytes → Bool
says [] = false
says (c ∷ cs) = true

-- Whether the variables can be destroyed in this order.
abbrev pub in_order : Owners → Bool
in_order [] = true
in_order ((k, _) ∷ owners) = not (has_child k owners) && in_order owners

-- So many reads in a row give a chunk.
pub data Gives {World : Type 0} (A : Adapters World)
    (content_handler : Option (Bytes → World → Bool × World)) (s : Handle)
    : ℕ → World → Type 0 where
  stop : {w : World} → Gives A content_handler s zero w
  more :
      {n : ℕ} {w after : World} {chunk : Bytes}
      → A.read s read_limit w ≡ (good chunk, after)
      → Gives A content_handler s n (handled content_handler chunk after)
      → Gives A content_handler s (suc n) w

-- A run ends so that its log is lawful.
abbrev pub IsTidy : {World : Type 0} → Order → Run (Recorded World) → Type 0
IsTidy order r =
    (owners : Owners) × (v : Verdict) × Trace order r.world.1 owners v × IsDone r.exit owners

module _ {World : Type 0} (A : Adapters World) (fuel : ℕ)
    (content_handler : Option (Bytes → World → Bool × World)) where
  -- What the end of a run says of how it went.
  abbrev pub Tells : Verdict → Owners → Recorded World → Exit → Type 0
  Tells (Verdict.going Stage.answered) owners s (Exit.returned resp) =
      (resp.success ≡ true) × (says resp.request_error ≡ false)
  Tells (Verdict.going Stage.answered) owners s Exit.unfinished =
      (h : Handle) × (lookup Kind.stream owners ≡ some h)
      × Gives (recorded A) (recorded_content content_handler) h fuel s
  Tells Verdict.refused owners s (Exit.returned resp) =
      (resp.success ≡ false) × (says resp.request_error ≡ true)
  Tells (Verdict.threw status) owners s (Exit.returned resp) =
      (resp.success ≡ false) × (resp.status ≡ status) × (400 ≤ status)
  Tells (Verdict.threw status) owners s Exit.thrown = status < 400
  Tells Verdict.lost owners s Exit.undefined = Unit {0}
  Tells _ owners s _ = ⊥

  -- A run ends so that it says how it went.
  abbrev pub Reports : Order → Run (Recorded World) → Type 0
  Reports order r =
      (owners : Owners) × (v : Verdict) × Trace order r.world.1 owners v
      × Tells v owners r.world r.exit

  -- Both, of one log; a hypothesis for the second.
  abbrev pub Ends : DuckDb → Order → Run (Recorded World) → Type 0
  Ends D order r =
      (owners : Owners) × (v : Verdict) × Trace order r.world.1 owners v
      × IsDone r.exit owners
      × (IsFresh D → Tells v owners r.world r.exit)
