-- ===== src/Bindings/Variant.antt =====
-- A `switch` over the tag of a variant in duckdb-httpfs-wasi/http_client.c, against the canonical ABI.
use particle_python_wheels.Prelude.{
  ℕ, zero, suc, ◌+◌, ◌≡◌, refl, List, [], ◌∷◌, Option, arith, get_elem?, eqb_true, eqb_false,
}
use particle_python_wheels.Bindings.Memory.{Memory, switch}
use particle_python_wheels.Bindings.Abi.{Wit, bind}

-- The cases of a switch, counted from `k`, give what reading the cases of a variant gives.
pub data Lifts {A : Type 0} {C : Type 0} (m : Memory)
    : ℕ → List (Wit A) → List (C → Option A) → List (ℕ × C) → Type 0 where
  nil : {k : ℕ} → Lifts m k [] [] []
  cons :
      {k : ℕ} {w : Wit A} {ws : List (Wit A)} {v : C → Option A} {vs : List (C → Option A)} {c : C}
      {cs : List (ℕ × C)}
      → w.read m ≡ v c
      → Lifts m (suc k) ws vs cs
      → Lifts m k (w ∷ ws) (v ∷ vs) ((k, c) ∷ cs)

pub Lifts-switch :
    {A C : Type 0} (m : Memory) (before : C) (k d n : ℕ) {ws : List (Wit A)}
    {vs : List (C → Option A)} {cs : List (ℕ × C)}
    → n ≡ k + d
    → Lifts m k ws vs cs
    → bind (get_elem? ws d) (λ w. w.read m) ≡ bind (get_elem? vs d) (λ v. v (switch n before cs))
Lifts-switch m before k d n h Lifts.nil = refl
Lifts-switch m before k zero n h (Lifts.cons e l) = rw (eqb_true n k (omega arith)) e
Lifts-switch m before k (suc d) n h (Lifts.cons e l) =
    rw (eqb_false n k (omega arith)) (Lifts-switch m before (suc k) d n (omega arith) l)

module _ {A C : Type 0} {m : Memory} {k : ℕ} {w : Wit A} {ws : List (Wit A)} {v : C → Option A}
    {vs : List (C → Option A)} {c : C} {cs : List (ℕ × C)} where
  infixr 30 ◌▹◌
  pub ◌▹◌ : w.read m ≡ v c → Lifts m (suc k) ws vs cs → Lifts m k (w ∷ ws) (v ∷ vs) ((k, c) ∷ cs)
  e ▹ l = Lifts.cons e l
