-- ===== src/Client/Body/Write.antt =====
-- The chunks of a request's body.
use particle_python_wheels.Prelude.{
  ℕ, zero, suc, ◌+◌, ◌-◌, ◌≤◌, ◌<◌, ◌≡◌, refl, Option, some, ltb, Bool-cases, arith, inl, inr,
}
use mathlib.Core.Path.{subst}
use particle_python_wheels.Bindings.Memory.{Handle, Slice}
use particle_python_wheels.Bindings.Abi.{Result, good, bad}
use particle_python_wheels.Bindings.Streams.Lift.{StreamFailure}
use particle_python_wheels.Client.Url.{Bytes}
use particle_python_wheels.Client.Body.{
  Written, chunk_limit, chunk_size, write_failure, after_write, write_loop,
}

-- The next chunk of a body, from `off` on.
pub record IsChunk (body_data body_len off : ℕ) (s : Slice) : Type 0 where
  pub start : s.ptr ≡ body_data + off
  pub filled : 0 < s.len
  pub limited : s.len ≤ chunk_limit
  pub within : off + s.len ≤ body_len

module _ {World : Type 0} (to_debug_string : Handle → World → Bytes × World)
    (write : Slice → World → Result (Unit {0}) StreamFailure × World) (msg : Bytes)
    (body_data body_len : ℕ) where
  -- Writing on from `off`: chunk after chunk, to the end of the body or to the first refusal.
  pub data Sends : ℕ → World → Written × World → Type 0 where
    finished : {w : World} → Sends body_len w (Written.all_written, w)
    refused :
        {off : ℕ} {w after : World} {error : StreamFailure} (s : Slice)
        → IsChunk body_data body_len off s
        → write s w ≡ (bad error, after)
        → Sends off w (write_failure to_debug_string msg error after)
    accepted :
        {off : ℕ} {w after : World} {r : Written × World} (s : Slice)
        → IsChunk body_data body_len off s
        → write s w ≡ (good tt, after)
        → Sends (off + s.len) after r
        → Sends off w r

  chunk : ℕ → Slice
  chunk off = record { ptr = body_data + off; len = chunk_size (body_len - off) }

  chunk-IsChunk : (off : ℕ) → off < body_len → IsChunk body_data body_len off (chunk off)
  unfolding chunk chunk_size
  chunk-IsChunk off h = record {
    start = refl;
    filled = ground (arith, h);
    limited = ground (arith, h);
    within = ground (arith, h);
  }

  -- What the loop gives from `off` on, and that it sends.
  abbrev Ends : Option (Written × World) → ℕ → World → Type 0
  Ends run off w = (r : Written × World) × (run ≡ some r) × Sends off w r

  round-Ends :
      (next : World → Option (Written × World)) (off : ℕ) (w : World)
      → off < body_len
      → ((v : World) → Ends (next v) (off + (chunk off).len) v)
      → (answer : Result (Unit {0}) StreamFailure × World) → write (chunk off) w ≡ answer
      → Ends (after_write to_debug_string write msg body_data body_len next answer) off w
  unfolding after_write
  round-Ends next off w h rest (good _, v) e =
      let (r, runs, sends) = rest v in
      (r, runs, Sends.accepted (chunk off) (chunk-IsChunk off h) e sends)
  round-Ends next off w h rest (bad error, v) e = (
    write_failure to_debug_string msg error v,
    refl,
    Sends.refused (chunk off) (chunk-IsChunk off h) e,
  )

  write_loop-Ends :
      (fuel off : ℕ) (w : World)
      → off ≤ body_len
      → body_len - off < fuel
      → Ends (write_loop to_debug_string write msg body_data body_len fuel off w) off w
  unfolding write_loop chunk chunk_size
  write_loop-Ends zero off w h k = absurd (omega (arith, k))
  write_loop-Ends (suc fuel) off w h k = elim (Bool-cases (ltb off body_len)) [
    | inl e ↦
        let c = chunk-IsChunk off (ground (arith, e)) in
        rw (write_loop, e)
          (round-Ends
            (λ v.
              write_loop to_debug_string write msg body_data body_len fuel (off + (chunk off).len)
                v)
            off w (ground (arith, e))
            (λ v.
              write_loop-Ends fuel (off + (chunk off).len) v c.within
                (omega (arith, k, c.filled, c.within)))
            (write (chunk off) w) refl)
    | inr e ↦
        rw (write_loop, e)
          (
            (Written.all_written, w),
            refl,
            subst (λ (o : ℕ). Sends o w (Written.all_written, w)) {x = body_len}
                (ground (arith, e, h)) Sends.finished,
          )
  ]

  -- With more fuel than the body has bytes, the loop that writes a request's body ends. It has written
  -- chunk after chunk from the start of the body, each behind the one before, none empty, none of more
  -- than 4096 bytes and none beyond the end, either until the body ended, or until a write was refused;
  -- then its error makes the message, and nothing more is written.
  pub write_loop-Sends :
      (fuel : ℕ) (w : World)
      → body_len < fuel
      → (r : Written × World) × (write_loop to_debug_string write msg body_data body_len fuel 0 w
          ≡ some r)
        × Sends 0 w r
  write_loop-Sends fuel w h = write_loop-Ends fuel 0 w (omega arith) (omega (arith, h))
