-- ===== src/Ffi/Aggregate/Flat.antt =====
-- A structure whose elements are ready is always laid out.
use particle_python_wheels.Prelude.{
  ℕ, suc, ◌+◌, ◌^◌, ◌<◌, ◌≡◌, ◌≢◌, refl, Bool, true, false, some, inr, inl, sym, List, ap, [], ◌∷◌,
  arith, inl, inr, ◌∙◌, ◌≤◌,
}
use particle_python_wheels.Ffi.Store.{FfiStatus, FfiType, Ptr, null, Store, Run}
use particle_python_wheels.Ffi.Returns
use particle_python_wheels.Ffi.Returns.{Returns}
use particle_python_wheels.Ffi.Aggregate.Place.{place_element-ne}
use particle_python_wheels.Ffi.Aggregate.Layout.{All, IsReady, footprint}
use particle_python_wheels.Ffi.Aggregate.Effect.{Ranked, BelowReady, Kept}
use particle_python_wheels.Ffi.Aggregate.Total.{initialize_aggregate-Laid}
use particle_python_wheels.Ffi.Aggregate.{
  Outcome, element_offset, elements_loop, place_element, note_offset, clear_size, finish,
  initialize_aggregate,
}
use Prim.Native.Nat.{max}
use particle_python_wheels.Prelude.Bits.{two_pow_pos}
use particle_python_wheels.Ffi.Aggregate.Correct.{
  cleared, cleared_same, lower-ne, cleared_zero, cleared_below, tail_padding, loop-Kept,
  padded_self,
}
use particle_python_wheels.Ffi.Aggregate.Loop.{elements_loop-Looped}
use particle_python_wheels.Ffi.Aggregate.Effect.{Looped, Ranked-same}
use particle_python_wheels.Ffi.Aggregate.Layout.{
  Agree, IsAlignment, footprint-Agree, Packed-footprint, Packed-le, le-strictest,
}
use particle_python_wheels.Ffi.Aggregate.{pad_size}
use particle_python_wheels.Ffi.Aggregate.Rounds.{unfolded, round_ok}

-- Elements that have a size, none of them the structure itself.
abbrev pub Sized : Store → Ptr → List Ptr → Type 0
Sized s arg = All (λ p. (p ≢ arg) × ((s p).size ≢ 0))

module _ (init : Ptr → Store → Run Outcome) (wanted : Bool) (arg : Ptr) where
  Sized-place :
      (p : Ptr) (ps : List Ptr) (s : Store) → Sized s arg ps → Sized (place_element arg p s) arg ps
  Sized-place p [] s h = tt
  Sized-place p (q ∷ ps) s ((ne, z), h) =
      ((ne, rw (place_element-ne s arg p q ne) z), Sized-place p ps s h)

  ended : (s : Store) → Returns (λ r. r.status ≡ FfiStatus.ok) (elements_loop init wanted arg [] s)
  unfolding elements_loop
  ended s = Returns.returns refl

  loop_ok :
      (ps : List Ptr) (s : Store)
      → Sized s arg ps
      → Returns (λ r. r.status ≡ FfiStatus.ok) (elements_loop init wanted arg ps s)
  unfolding note_offset
  loop_ok [] s h = ended s
  loop_ok (p ∷ ps) s ((ne, z), h) = rw (round_ok init wanted arg p ps s z) (
      Returns.bind (note_offset wanted (element_offset arg p s))
        (loop_ok ps (place_element arg p s) (Sized-place p ps s h)) (λ r e. Returns.returns e))

module _ (rank : Ptr → ℕ) (fuel : ℕ) (arg : Ptr) (s : Store) (p : Ptr) (ps : List Ptr)
    (below : BelowReady rank (rank arg) s) (room : footprint s (p ∷ ps) + 2 ^ 15 < 2 ^ 32)
    (ready : All (λ q. (rank q < rank arg) × IsReady (s q)) (p ∷ ps)) where
  pub Kept-Agree :
      (qs : List Ptr) (s' : Store)
      → Kept rank arg s s'
      → All (λ q. (rank q < rank arg) × IsReady (s q)) qs
      → Agree s s' qs
  Kept-Agree [] s' k h = tt
  Kept-Agree (q ∷ qs) s' k ((l, i), h) =
      (k q (lower-ne rank arg s q l) (inr i.filled), Kept-Agree qs s' k h)

  nonzero :
      (wanted : Bool) (r : Outcome)
      → (s arg).elements ≡ some (p ∷ ps)
      → wanted ≡ true
      → r.status ≡ FfiStatus.ok
      → Looped rank arg (clear_size arg s) wanted (p ∷ ps) r
      → (pad_size arg r.store arg).size ≢ 0
  nonzero wanted r e w done l z =
      let same = Kept-Agree (p ∷ ps) r.store (loop-Kept rank arg s wanted (p ∷ ps) r e l) ready in
      let room' : footprint r.store (p ∷ ps) + 2 ^ 15 < 2 ^ 32 =
        rw (footprint-Agree s r.store (p ∷ ps) same) room in
      let (packed, strict) =
        l.packed done (cleared_below rank arg s below) w
          (omega (arith, (cleared_zero rank arg s).0, room')) in
      let (low, built, each) =
        l.ready done (cleared_below rank arg s below) (inl (cleared_zero rank arg s).1) in
      let (k, h, a) = each.0.aligned in
      let pos : 0 < (r.store arg).alignment = omega (
        arith,
        strict,
        le-strictest r.store (max (r.store p).alignment (clear_size arg s arg).alignment) ps,
        two_pow_pos k,
      ) in
      let aligned : IsAlignment (r.store arg).alignment = elim built [
        | inl z ↦ absurd (omega arith)
        | inr i ↦ i
      ] in
      let end = (r.store arg).size in
      let (o, rest, eq, lo, hi, mult, tail) = packed in
      let top =
        Packed-footprint r.store (clear_size arg s arg).size (p ∷ ps) r.offsets end packed in
      let (covered, tight) =
        tail_padding (r.store arg) aligned
          (omega (arith, room', top, (cleared_zero rank arg s).0)) in
      each.0.filled (
        omega (
          arith,
          covered,
          Packed-le r.store (o + (r.store p).size) ps rest end tail,
          sym (ap (λ (t : FfiType). t.size) (padded_self rank arg s wanted (p ∷ ps) r e l)) ∙ z,
        ))

  cleared-Sized :
      (qs : List Ptr)
      → All (λ q. (rank q < rank arg) × IsReady (s q)) qs
      → Sized (clear_size arg s) arg qs
  cleared-Sized [] h = tt
  cleared-Sized (q ∷ qs) ((l, i), h) =
      let ne = lower-ne rank arg s q l in
      ((ne, rw (cleared rank arg s q ne) i.filled), cleared-Sized qs h)

  finish_ok :
      (r : Outcome)
      → r.status ≡ FfiStatus.ok
      → (pad_size arg r.store arg).size ≢ 0
      → Returns (λ r'. r'.status ≡ FfiStatus.ok) (finish arg r)
  unfolding finish
  finish_ok r done h = rw (done, finish) (Returns.returns (ground arith))

  pub flat_ok :
      (s arg).elements ≡ some (p ∷ ps)
      → arg ≢ null
      → Ranked rank s
      → rank arg ≤ fuel
      → Returns (λ r. r.status ≡ FfiStatus.ok) (initialize_aggregate (suc fuel) true arg s)
  flat_ok e ne ranked enough = rw (unfolded fuel true arg (p ∷ ps) s ne e) (
      Returns.bind (finish arg)
        (Returns.both
          (elements_loop-Looped rank (initialize_aggregate fuel false) arg true (p ∷ ps)
            (clear_size arg s) (ranked arg (p ∷ ps) e)
            (Ranked-same s (clear_size arg s) (cleared_same rank arg s) ranked)
            (λ q u lower still.
              Returns.mono
                (initialize_aggregate-Laid rank fuel false q u still (omega (arith, enough)))
                (λ r l. l.initialised)))
          (loop_ok (initialize_aggregate fuel false) true arg (p ∷ ps) (clear_size arg s)
            (cleared-Sized (p ∷ ps) ready)))
        (λ r (l, done). finish_ok r done (nonzero true r e refl done l)))
