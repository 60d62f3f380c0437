-- ===== src/Client/Handles.antt =====
-- OwnHandle of duckdb-httpfs-wasi/wasi_http_client.cpp: which variable owns which handle. The counts of
-- borrows, which only assertions read, are left out.
pub mod Ownership
use particle_python_wheels.Prelude.{
  ℕ, Bool, true, false, List, [], ◌∷◌, Option, none, some, ◌==◌, if◌then◌else◌,
}
use particle_python_wheels.Bindings.Memory.{Handle}

pub record OwnHandle : Type 0 where
  pub handle : Handle
  pub live : Bool

-- The variables by their addresses, and the handles that the component has: `held` is the table that
-- the host keeps.
pub record State : Type 0 where
  pub owners : ℕ → OwnHandle
  pub held : Handle → Bool

abbrev pub set_owner : ℕ → OwnHandle → State → State
set_owner v o s = record s { owners = λ w. if w == v then o else s.owners w }

abbrev pub set_held : Handle → Bool → State → State
set_held h b s = record s { held = λ k. if k == h then b else s.held k }

-- What gives a handle away, by dropping it or by passing it to a call that consumes it, traps on one
-- that the component does not have.
abbrev pub give_away : Handle → State → Option State
give_away h s = if s.held h then some (set_held h false s) else none

-- `explicit OwnHandle(Own handle)`, on a handle that a call has just returned.
unfoldable pub construct : ℕ → Handle → State → Option State
construct v h s = some (set_owner v (record { handle = h; live = true }) (set_held h true s))

abbrev pub not_live : ℕ → State → State
not_live v s = set_owner v (record (s.owners v) { live = false }) s

abbrev pub and_then : Option State → (State → Option State) → Option State
and_then none f = none
and_then (some s) f = f s

-- Reset(), which the destructor calls.
unfoldable pub reset : ℕ → State → Option State
reset v s =
    if (s.owners v).live
    then and_then (give_away (s.owners v).handle s) (λ t. some (not_live v t))
    else some s

-- OwnHandle(OwnHandle &&o).
unfoldable pub move_construct : ℕ → ℕ → State → Option State
move_construct v o s = some (not_live o (set_owner v (s.owners o) s))

-- operator=(OwnHandle &&o).
unfoldable pub move_assign : ℕ → ℕ → State → Option State
unfolding reset
move_assign v o s =
    if v == o
    then some s
    else and_then (reset v s) (λ t. some (not_live o (set_owner v (t.owners o) t)))

-- release(), whose result goes to a call that consumes it.
unfoldable pub release : ℕ → State → Option State
release v s = give_away (s.owners v).handle (not_live v s)

-- What the code does with variables, one after the other; `destroy` is the destructor.
pub data Use : Type 0 where
  construct_from : ℕ → Handle → Use
  move_construct_from move_assign_from : ℕ → ℕ → Use
  release_from destroy : ℕ → Use

pub step : Use → State → Option State
unfolding construct move_construct move_assign release reset
step (Use.construct_from v h) s = construct v h s
step (Use.move_construct_from v o) s = move_construct v o s
step (Use.move_assign_from v o) s = move_assign v o s
step (Use.release_from v) s = release v s
step (Use.destroy v) s = reset v s

pub run : List Use → State → Option State
unfolding step
run [] s = some s
run (use_next ∷ uses) s = and_then (step use_next s) (run uses)
