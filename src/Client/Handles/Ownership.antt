-- ===== src/Client/Handles/Ownership.antt =====
-- Which variable owns which handle, through the uses of the variables.
use particle_python_wheels.Prelude.{
  ℕ, ◌≡◌, ◌≢◌, refl, true, false, List, [], ◌∷◌, Option, some, ◌==◌, arith, Bool-cases, inl, inr,
}
use particle_python_wheels.Bindings.Memory.{Handle}
use particle_python_wheels.Client.Handles.{
  State, set_owner, set_held, construct, not_live, reset, move_construct, move_assign, release, Use,
  step, run,
}

-- The live variables and the handles of the component stand for one another.
pub record IsOwned (s : State) : Type 0 where
  pub owned : (v : ℕ) → (s.owners v).live ≡ true → s.held (s.owners v).handle ≡ true
  pub unique :
      (v w : ℕ)
      → (s.owners v).live ≡ true
      → (s.owners w).live ≡ true
      → (s.owners v).handle ≡ (s.owners w).handle
      → v ≡ w
  pub found :
      (h : Handle)
      → s.held h ≡ true
      → (v : ℕ) × ((s.owners v).live ≡ true) × ((s.owners v).handle ≡ h)

abbrev pub Stays : Option State → Type 0
Stays r = (t : State) × (r ≡ some t) × IsOwned t

construct-IsOwned :
    (v : ℕ) (h : Handle) (s : State)
    → IsOwned s
    → (s.owners v).live ≡ false
    → s.held h ≡ false
    → IsOwned (set_owner v (record { handle = h; live = true }) (set_held h true s))
construct-IsOwned v h s i fresh new = record {
  owned = λ w l. grind (arith, i.owned, l, fresh, new);
  unique = λ w x l m e. grind (arith, i.owned, i.unique, l, m, e, fresh, new);
  found = λ k o. elim (Bool-cases (k == h)) [
    | inl e ↦ (v, ground (arith), ground (arith, e))
    | inr e ↦
        let (w, l, m) = i.found k (ground (arith, e, o)) in
        (w, grind (arith, l, fresh), grind (arith, l, m, fresh))
  ];
}

-- A live variable gives its handle away.
give-IsOwned :
    (v : ℕ) (s : State)
    → IsOwned s
    → (s.owners v).live ≡ true
    → IsOwned (not_live v (set_held (s.owners v).handle false s))
give-IsOwned v s i alive = record {
  owned = λ w l. grind (arith, i.owned, i.unique, l, alive);
  unique = λ w x l m e. grind (arith, i.unique, l, m, e);
  found = λ k o.
      let (w, l, m) = i.found k (grind (arith, o)) in
      (w, grind (arith, l, m, o), grind (arith, l, m, o));
}

-- What one variable holds moves to another one, which holds nothing.
move-IsOwned :
    (v o : ℕ) (s : State)
    → IsOwned s
    → v ≢ o
    → (s.owners v).live ≡ false
    → IsOwned (not_live o (set_owner v (s.owners o) s))
move-IsOwned v o s i ne dead = record {
  owned = λ w l. grind (arith, i.owned, l, ne);
  unique = λ w x l m e. grind (arith, i.unique, l, m, e, ne, dead);
  found = λ k p.
      let (w, l, m) = i.found k p in
      elim (Bool-cases (w == o)) [
        | inl e ↦ (v, grind (arith, l, m, e, ne), grind (arith, l, m, e, ne))
        | inr e ↦ (w, grind (arith, l, m, e, ne, dead), grind (arith, l, m, e, ne, dead))
      ];
}

reset-IsOwned :
    (v : ℕ) (s : State)
    → IsOwned s
    → (t : State) × (reset v s ≡ some t) × IsOwned t × ((t.owners v).live ≡ false)
unfolding reset
reset-IsOwned v s i = elim (Bool-cases (s.owners v).live) [
  | inl alive ↦ (
    not_live v (set_held (s.owners v).handle false s),
    rw (alive, i.owned v alive) refl,
    give-IsOwned v s i alive,
    ground (arith),
  )
  | inr dead ↦ (s, rw dead refl, i, dead)
]

construct-Stays :
    (v : ℕ) (h : Handle) (s : State)
    → IsOwned s
    → (s.owners v).live ≡ false
    → s.held h ≡ false
    → Stays (construct v h s)
unfolding construct
construct-Stays v h s i fresh new = (
  set_owner v (record { handle = h; live = true }) (set_held h true s),
  refl,
  construct-IsOwned v h s i fresh new,
)

move_construct-Stays :
    (v o : ℕ) (s : State)
    → IsOwned s
    → v ≢ o
    → (s.owners v).live ≡ false
    → Stays (move_construct v o s)
unfolding move_construct
move_construct-Stays v o s i ne dead =
    (not_live o (set_owner v (s.owners o) s), refl, move-IsOwned v o s i ne dead)

move_assign-Stays : (v o : ℕ) (s : State) → IsOwned s → Stays (move_assign v o s)
unfolding move_assign
move_assign-Stays v o s i = elim (Bool-cases (v == o)) [
  | inl e ↦ (s, rw e refl, i)
  | inr e ↦
      let (t, resets, j, dead) = reset-IsOwned v s i in
      (
        not_live o (set_owner v (t.owners o) t),
        rw (e, resets) refl,
        move-IsOwned v o t j (ground (arith, e)) dead,
      )
]

release-Stays : (v : ℕ) (s : State) → IsOwned s → (s.owners v).live ≡ true → Stays (release v s)
unfolding release
release-Stays v s i alive = (
  not_live v (set_held (s.owners v).handle false s),
  rw (i.owned v alive) refl,
  give-IsOwned v s i alive,
)

-- When the code may use a variable so: it constructs a variable that is not live, from a handle that
-- the component did not have or from another variable, and it releases a live one.
abbrev pub Allowed : Use → State → Type 0
Allowed (Use.construct_from v h) s = ((s.owners v).live ≡ false) × (s.held h ≡ false)
Allowed (Use.move_construct_from v o) s = (v ≢ o) × ((s.owners v).live ≡ false)
Allowed (Use.move_assign_from v o) s = Unit
Allowed (Use.release_from v) s = (s.owners v).live ≡ true
Allowed (Use.destroy v) s = Unit

step-Stays : (u : Use) (s : State) → IsOwned s → Allowed u s → Stays (step u s)
unfolding step
step-Stays (Use.construct_from v h) s i (fresh, new) = construct-Stays v h s i fresh new
step-Stays (Use.move_construct_from v o) s i (ne, dead) = move_construct-Stays v o s i ne dead
step-Stays (Use.move_assign_from v o) s i a = move_assign-Stays v o s i
step-Stays (Use.release_from v) s i alive = release-Stays v s i alive
step-Stays (Use.destroy v) s i a = let (t, e, j, dead) = reset-IsOwned v s i in (t, e, j)

-- Each use is allowed where the ones before lead.
abbrev pub AllAllowed : List Use → State → Type 0
AllAllowed [] s = Unit
AllAllowed (u ∷ us) s = Allowed u s × ((t : State) → step u s ≡ some t → AllAllowed us t)

run-Stays : (us : List Use) (s : State) → IsOwned s → AllAllowed us s → Stays (run us s)
unfolding run
run-Stays [] s i a = (s, refl, i)
run-Stays (u ∷ us) s i (a, rest) =
    let (t, e, j) = step-Stays u s i a in rw e (run-Stays us t j (rest t e))

none_held :
    (s : State)
    → IsOwned s
    → ((v : ℕ) → (s.owners v).live ≡ false)
    → (h : Handle) → s.held h ≡ false
none_held s i dead h = elim (Bool-cases (s.held h)) [
  | inl e ↦ let (v, l, m) = i.found h e in grind (arith, l, dead v)
  | inr e ↦ e
]

-- Start where the live variables and the handles of the component stand for one another, and use the
-- variables as allowed: construct only a variable that is not live, from a new handle or another
-- variable, and release only a live one. Then no use traps on a handle that was given away before, and
-- the live variables and the handles stand for one another again. If in the end no variable is live,
-- then no handle is left.
pub run-IsOwned :
    (us : List Use) (s : State)
    → IsOwned s
    → AllAllowed us s
    → (t : State) × (run us s ≡ some t)
      × IsOwned t
      × (((v : ℕ) → (t.owners v).live ≡ false) → (h : Handle) → t.held h ≡ false)
run-IsOwned us s i a = let (t, e, j) = run-Stays us s i a in (t, e, j, none_held t j)
