-- ===== src/Ffi/Cif/Area.antt =====
-- The argument area that ffi_prep_cif_core counts, without its bit operations and wrapping.
use particle_python_wheels.Prelude.{
  ℕ, zero, suc, ◌+◌, ◌%◌, ◌^◌, ◌≤◌, ◌<◌, ◌≡◌, refl, sym, ap, ◌∙◌, true, false, ◌==◌, [], arith,
  Bool-cases, inl, inr,
}
use particle_python_wheels.Prelude.Bits.{mask-bit_and, two_pow_pos}
use particle_python_wheels.Ffi.Align.{
  round_up, ffi_align-eq-round_up, round_up-lt, a-mask, round_up_self, two_pow_small,
}
use particle_python_wheels.Ffi.Store.{FfiStatus, Ptr, Store, Run, returned, aborted, ◌>>=◌}
use particle_python_wheels.Ffi.Aggregate.Layout.{IsAlignment, IsReady}
use particle_python_wheels.Ffi.Aggregate.Rounds.{skipped}
use particle_python_wheels.Ffi.Aggregate.{ensure_size, initialize_aggregate, outcome, Outcome}
use particle_python_wheels.Ffi.Cif.{
  Counted, is_complex, count_arg, args_loop, pad_bytes, stack_arg_size, add_bytes,
}

-- Where the area ends after `i` arguments from index `at`: each starts at a multiple of its
-- alignment and fills whole slots of four bytes.
abbrev pub area : Store → (ℕ → Ptr) → ℕ → ℕ → ℕ → ℕ
area s atypes zero at bytes = bytes
area s atypes (suc i) at bytes =
    area s atypes i (at + 1)
      (round_up bytes (s (atypes at)).alignment + round_up (s (atypes at)).size 4)

-- Room for the arguments, their padding and their slots.
abbrev pub area_room : Store → (ℕ → Ptr) → ℕ → ℕ → ℕ
area_room s atypes zero at = 0
area_room s atypes (suc i) at =
    (s (atypes at)).size + (s (atypes at)).alignment + 4 + area_room s atypes i (at + 1)

pub pad_bytes-eq-round_up :
    (bytes k : ℕ)
    → k ≤ 15
    → bytes + 2 ^ k ≤ 2 ^ 32
    → pad_bytes bytes (2 ^ k) ≡ round_up bytes (2 ^ k)
unfolding pad_bytes
pad_bytes-eq-round_up bytes k h room =
    rw (a-mask (2 ^ k) (two_pow_pos k) (omega (arith, two_pow_small k h)), mask-bit_and k bytes)
      (elim (Bool-cases (bytes % 2 ^ k == 0)) [
        | inl z ↦ rw z (sym (round_up_self bytes (2 ^ k) (two_pow_pos k) (ground arith)))
        | inr z ↦ rw z (ffi_align-eq-round_up bytes k h room)
      ])

pub stack_arg_size-eq-round_up : (n : ℕ) → n + 4 ≤ 2 ^ 32 → stack_arg_size n ≡ round_up n 4
unfolding stack_arg_size
stack_arg_size-eq-round_up n h = ffi_align-eq-round_up n 2 (omega arith) h

pub add_bytes-eq :
    (bytes : ℕ) (ptr : Ptr) (s : Store)
    → IsAlignment (s ptr).alignment
    → bytes + (s ptr).size + (s ptr).alignment + 4 ≤ 2 ^ 32
    → add_bytes bytes ptr s ≡ round_up bytes (s ptr).alignment + round_up (s ptr).size 4
unfolding add_bytes
add_bytes-eq bytes ptr s (k, h, e) room =
    let pad = pad_bytes-eq-round_up bytes k h (omega (arith, e)) in
    let slot = stack_arg_size-eq-round_up (s ptr).size (omega arith) in
    rw (e, pad, slot) (omega (arith, round_up-lt bytes k, round_up-lt (s ptr).size 2))

-- `P` holds of `i` arguments from index `at`.
abbrev pub AllArgs {ℓ} : (Ptr → Type ℓ) → (ℕ → Ptr) → ℕ → ℕ → Type ℓ
AllArgs P atypes zero at = Unit
AllArgs P atypes (suc i) at = P (atypes at) × AllArgs P atypes i (at + 1)

-- A type that is ready and not complex.
pub record IsPlain (s : Store) (p : Ptr) : Type 0 where
  pub ready : IsReady (s p)
  pub simple : is_complex (s p).code ≡ false

module _ (fuel : ℕ) (atypes : ℕ → Ptr) (s : Store) where
  pub ensured :
      (p : Ptr)
      → IsReady (s p)
      → ensure_size (initialize_aggregate fuel false) p s ≡ outcome FfiStatus.ok s []
  ensured p h = skipped (initialize_aggregate fuel false) false p p [] s h.filled

  -- One round on an argument that is ready.
  pub round :
      (i at bytes : ℕ)
      → IsReady (s (atypes at))
      → args_loop fuel atypes (suc i) at bytes s
        ≡ elim (is_complex (s (atypes at)).code) as (λ _. Run Counted) [
          | true ↦ aborted
          | false ↦ args_loop fuel atypes i (at + 1) (add_bytes bytes (atypes at) s) s
        ]
  unfolding args_loop
  round i at bytes h =
      ap (λ (m : Run Outcome). m >>= count_arg (args_loop fuel atypes i (at + 1)) bytes (atypes at))
        (ensured (atypes at) h)

  last :
      (at bytes : ℕ)
      → args_loop fuel atypes zero at bytes s
        ≡ returned (record { status = FfiStatus.ok; bytes = bytes; store = s })
  unfolding args_loop
  last at bytes = refl

  pub args_loop-area :
      (i at bytes : ℕ)
      → AllArgs (IsPlain s) atypes i at
      → bytes + area_room s atypes i at ≤ 2 ^ 32
      → args_loop fuel atypes i at bytes s
        ≡ returned (record { status = FfiStatus.ok; bytes = area s atypes i at bytes; store = s })
  args_loop-area zero at bytes h room = last at bytes
  args_loop-area (suc i) at bytes (plain, h) room =
      let next = add_bytes-eq bytes (atypes at) s plain.ready.aligned (omega arith) in
      let (k, small, e) = plain.ready.aligned in
      let pad : round_up bytes (s (atypes at)).alignment < bytes + (s (atypes at)).alignment =
        rw e (round_up-lt bytes k) in
      round i at bytes plain.ready
      ∙ rw (plain.simple, next)
          (args_loop-area i (at + 1) _ h (omega (arith, pad, round_up-lt (s (atypes at)).size 2)))
