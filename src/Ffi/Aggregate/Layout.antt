-- ===== src/Ffi/Aggregate/Layout.antt =====
-- The natural layout of a C structure, without the code's bit operations and wrapping.
use Prim.Native.Nat.{max}
use native.Mathlib.Decide.{dec_lt}
use particle_python_wheels.Prelude.Bits.{two_pow_pos}
use particle_python_wheels.Prelude.{
  ℕ, ◌+◌, ◌%◌, ◌^◌, ◌≤◌, ◌<◌, ◌≡◌, ◌≢◌, List, [], ◌∷◌, ◌⊎◌, inl, inr, arith, refl, refl,
}
use particle_python_wheels.Ffi.Store.{FfiType, Ptr, Store}

-- An `unsigned short` that is a power of two.
abbrev pub IsAlignment : ℕ → Type 0
IsAlignment a = (k : ℕ) × (k ≤ 15) × (a ≡ 2 ^ k)

pub max-IsAlignment : {a b : ℕ} → IsAlignment a → (b ≡ 0) ⊎ IsAlignment b → IsAlignment (max a b)
max-IsAlignment (k, h, e) (inl z) = (k, h, omega (arith, two_pow_pos k))
max-IsAlignment {a} {b} (k, h, e) (inr (j, i, f)) = elim (dec_lt a b) [
  | yes l ↦ (j, i, omega arith)
  | no g ↦ (k, h, omega arith)
]

-- A type that needs no initialisation any more.
pub record IsReady (t : FfiType) : Type 0 where
  pub aligned : IsAlignment t.alignment
  pub filled : t.size ≢ 0
  pub padded : t.size % t.alignment ≡ 0

-- The elements `ps` follow one another from `start` to `end` at the offsets `os`: each stands at
-- the first multiple of its alignment behind the one before.
abbrev pub Packed : Store → ℕ → List Ptr → List ℕ → ℕ → Type 0
Packed s start [] os end = (os ≡ []) × (end ≡ start)
Packed s start (p ∷ ps) os end =
    (o : ℕ) × (rest : List ℕ) × (os ≡ o ∷ rest)
    × (start ≤ o)
    × (o < start + (s p).alignment)
    × (o % (s p).alignment ≡ 0)
    × Packed s (o + (s p).size) ps rest end

-- The largest of `least` and the alignments of `ps`.
abbrev pub strictest : Store → ℕ → List Ptr → ℕ
strictest s least [] = least
strictest s least (p ∷ ps) = strictest s (max (s p).alignment least) ps

-- Room for the elements and the padding before each.
abbrev pub footprint : Store → List Ptr → ℕ
footprint s [] = 0
footprint s (p ∷ ps) = (s p).size + (s p).alignment + footprint s ps

-- `t` is the structure of `ps` at the offsets `os`, with the least tail padding.
pub record IsLayout (s : Store) (ps : List Ptr) (os : List ℕ) (t : FfiType) : Type 0 where
  pub end : ℕ
  pub packed : Packed s 0 ps os end
  pub strict : t.alignment ≡ strictest s 0 ps
  pub covered : end ≤ t.size
  pub tight : t.size < end + t.alignment
  pub padded : t.size % t.alignment ≡ 0

abbrev pub All {ℓ} : (Ptr → Type ℓ) → List Ptr → Type ℓ
All P [] = Unit
All P (p ∷ ps) = P p × All P ps

-- The layout looks at the elements alone.
module _ (s s' : Store) where
  abbrev pub Agree : List Ptr → Type 0
  Agree = All (λ p. s' p ≡ s p)

  pub footprint-Agree : (ps : List Ptr) → Agree ps → footprint s' ps ≡ footprint s ps
  footprint-Agree [] a = refl
  footprint-Agree (p ∷ ps) (e, a) = rw (e, footprint-Agree ps a)

  pub strictest-Agree : (m : ℕ) (ps : List Ptr) → Agree ps → strictest s' m ps ≡ strictest s m ps
  strictest-Agree m [] a = refl
  strictest-Agree m (p ∷ ps) (e, a) = rw e (strictest-Agree (max (s p).alignment m) ps a)

  pub Packed-Agree :
      (start : ℕ) (ps : List Ptr) (os : List ℕ) (end : ℕ)
      → Agree ps
      → Packed s start ps os end
      → Packed s' start ps os end
  Packed-Agree start [] os end a h = h
  Packed-Agree start (p ∷ ps) os end (e, a) (o, rest, eq, lo, hi, mult, h) =
      rw e (o, rest, eq, lo, hi, mult, Packed-Agree (o + (s p).size) ps rest end a h)

-- Packed elements end within their footprint.
pub Packed-footprint :
    (s : Store) (start : ℕ) (ps : List Ptr) (os : List ℕ) (end : ℕ)
    → Packed s start ps os end
    → end ≤ start + footprint s ps
Packed-footprint s start [] os end (e, h) = omega arith
Packed-footprint s start (p ∷ ps) os end (o, rest, eq, lo, hi, mult, h) =
    omega (arith, Packed-footprint s (o + (s p).size) ps rest end h)

pub Packed-le :
    (s : Store) (start : ℕ) (ps : List Ptr) (os : List ℕ) (end : ℕ)
    → Packed s start ps os end
    → start ≤ end
Packed-le s start [] os end (e, h) = omega arith
Packed-le s start (p ∷ ps) os end (o, rest, eq, lo, hi, mult, h) =
    omega (arith, Packed-le s (o + (s p).size) ps rest end h)

pub le-strictest : (s : Store) (m : ℕ) (ps : List Ptr) → m ≤ strictest s m ps
le-strictest s m [] = omega arith
le-strictest s m (p ∷ ps) = omega (arith, le-strictest s (max (s p).alignment m) ps)
