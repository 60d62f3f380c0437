-- ===== src/Ffi/Returns.antt =====
-- Total correctness of a run of libffi's code: it returns, and its result meets a condition.
use particle_python_wheels.Ffi.Store.{Run, returned, ◌>>=◌}

pub data Returns {A : Type 0} (P : A → Type 0) : Run A → Type 0 where
  returns : {a : A} → P a → Returns P (returned a)

module _ {A : Type 0} {P : A → Type 0} where
  pub bind :
      {B : Type 0} {Q : B → Type 0} {r : Run A} (k : A → Run B)
      → Returns P r
      → ((a : A) → P a → Returns Q (k a))
      → Returns Q (r >>= k)
  bind k (returns {a} p) next = next a p

  pub mono : {Q : A → Type 0} {r : Run A} → Returns P r → ((a : A) → P a → Q a) → Returns Q r
  mono (returns {a} p) weaken = returns (weaken a p)

  pub both : {Q : A → Type 0} {r : Run A} → Returns P r → Returns Q r → Returns (λ a. P a × Q a) r
  both (returns p) (returns q) = returns (p, q)
