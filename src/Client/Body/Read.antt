-- ===== src/Client/Body/Read.antt =====
-- The chunks of a response's body.
use mathlib.Core.List.{append_assoc, append-nil}
use particle_python_wheels.Prelude.{
  ℕ, zero, suc, ◌<◌, ◌≡◌, refl, sym, ap, ◌∙◌, Bool, false, List, [], ◌∷◌, ◌++◌, Option, none, some,
  arith, length,
}
use particle_python_wheels.Bindings.Memory.{Handle}
use particle_python_wheels.Bindings.Abi.{Result, good, bad}
use particle_python_wheels.Bindings.Streams.Lift.{StreamFailure}
use particle_python_wheels.Client.Url.{Bytes}
use particle_python_wheels.Client.Body.{
  Response, read_limit, take_chunk, after_read, read_loop, finish_read, read_body,
}

abbrev pub concat : List Bytes → Bytes
concat [] = []
concat (c ∷ cs) = c ++ concat cs

abbrev pub Handler : Type 0 → Type 0
Handler World = Option (Bytes → World → Bool × World)

-- A response whose last read failed with this debug string.
abbrev pub report : Bytes → Response → Bytes → Bytes → Response
report msg resp body [] = record resp { body = body }
report msg resp body (c ∷ cs) = record resp {
  success = false;
  request_error = msg ++ (c ∷ cs);
  body = body;
}

module _ {World : Type 0} where
  -- What a chunk that is not empty does to the world: it is handed to the handler, if there is one.
  abbrev pub handled : Handler World → Bytes → World → World
  handled none chunk w = w
  handled (some handler) [] w = w
  handled (some handler) (c ∷ cs) w = (handler (c ∷ cs) w).1

  -- What stays for the body of the response.
  abbrev pub kept : Handler World → List Bytes → Bytes
  kept none chunks = concat chunks
  kept (some handler) chunks = []

  module _ (to_debug_string : Handle → World → Bytes × World)
      (read : ℕ → World → Result Bytes StreamFailure × World) where
    take_chunk-eq :
        (content_handler : Handler World) (body chunk : Bytes) (w : World)
        → take_chunk to_debug_string read content_handler body chunk w
          ≡ (body ++ kept content_handler (chunk ∷ []), handled content_handler chunk w)
    unfolding take_chunk
    take_chunk-eq none body [] w = ap (λ (b : Bytes). (b, w)) (sym (append-nil body))
    take_chunk-eq none body (c ∷ cs) w =
        ap (λ (d : Bytes). (body ++ (c ∷ d), w)) (sym (append-nil cs))
    take_chunk-eq (some handler) body [] w = ap (λ (b : Bytes). (b, w)) (sym (append-nil body))
    take_chunk-eq (some handler) body (c ∷ cs) w =
        ap (λ (b : Bytes). (b, (handler (c ∷ cs) w).1)) (sym (append-nil body))

  kept-nil :
      (content_handler : Handler World) (body : Bytes) → body ++ kept content_handler [] ≡ body
  kept-nil none body = append-nil body
  kept-nil (some handler) body = append-nil body

  kept-append :
      (content_handler : Handler World) (body chunk : Bytes) (chunks : List Bytes)
      → (body ++ kept content_handler (chunk ∷ [])) ++ kept content_handler chunks
        ≡ body ++ kept content_handler (chunk ∷ chunks)
  kept-append none body chunk chunks =
      append_assoc body (chunk ++ []) (concat chunks)
      ∙ ap (λ (b : Bytes). body ++ (b ++ concat chunks)) (append-nil chunk)
  kept-append (some handler) body chunk chunks = append-nil (body ++ [])

module _ {World : Type 0} (to_debug_string : Handle → World → Bytes × World)
    (read : ℕ → World → Result Bytes StreamFailure × World)
    (content_handler : Option (Bytes → World → Bool × World)) where
  -- The stream gives these chunks, and then fails.
  pub data Serves : World → List Bytes → StreamFailure → World → Type 0 where
    over :
        {w after : World} {e : StreamFailure}
        → read read_limit w ≡ (bad e, after)
        → Serves w [] e after
    more :
        {w after end : World} {chunk : Bytes} {chunks : List Bytes} {e : StreamFailure}
        → read read_limit w ≡ (good chunk, after)
        → Serves (handled content_handler chunk after) chunks e end
        → Serves w (chunk ∷ chunks) e end

  -- What the reading makes of the response.
  abbrev pub ending : Bytes → Response → Bytes → StreamFailure → World → Response × World
  ending msg resp body (StreamFailure.last_operation_failed error) w =
      let (dbg, after) = to_debug_string error w in (report msg resp body dbg, after)
  ending msg resp body StreamFailure.closed w = (record resp { body = body }, w)

  -- What the loop leaves when the stream fails.
  abbrev pub left : Bytes → StreamFailure → World → Bytes × Bytes × World
  left body (StreamFailure.last_operation_failed error) w =
      let (dbg, after) = to_debug_string error w in (dbg, body, after)
  left body StreamFailure.closed w = ([], body, w)

  pub after_read-bad :
      (next : Bytes → World → Option (Bytes × Bytes × World)) (body : Bytes) (e : StreamFailure)
      (w : World)
      → after_read to_debug_string read content_handler next body (bad e, w) ≡ some (left body e w)
  unfolding after_read
  after_read-bad next body (StreamFailure.last_operation_failed error) w = refl
  after_read-bad next body StreamFailure.closed w = refl

  pub after_read-good :
      (next : Bytes → World → Option (Bytes × Bytes × World)) (body chunk : Bytes) (w : World)
      → after_read to_debug_string read content_handler next body (good chunk, w)
        ≡ next (body ++ kept content_handler (chunk ∷ [])) (handled content_handler chunk w)
  unfolding after_read
  after_read-good next body chunk w =
      rw (after_read, take_chunk-eq to_debug_string read content_handler body chunk w) refl

  read_loop-Serves :
      (fuel : ℕ) (body : Bytes) {w end : World} {chunks : List Bytes} {e : StreamFailure}
      → Serves w chunks e end
      → length chunks < fuel
      → read_loop to_debug_string read content_handler fuel body w
        ≡ some (left (body ++ kept content_handler chunks) e end)
  unfolding read_loop
  read_loop-Serves zero body served h = absurd (omega (arith, h))
  read_loop-Serves (suc fuel) body (Serves.over {after = after} {e = e} r) h =
      rw (read_loop, r)
        (after_read-bad (read_loop to_debug_string read content_handler fuel) body e after
          ∙ ap (λ (b : Bytes). some (left b e after)) (sym (kept-nil content_handler body)))
  read_loop-Serves (suc fuel) body
        (Serves.more {after = after} {end = end} {chunk = chunk} {chunks = chunks} {e = e} r rest)
        h =
      rw (read_loop, r)
        (after_read-good (read_loop to_debug_string read content_handler fuel) body chunk after
          ∙ read_loop-Serves fuel (body ++ kept content_handler (chunk ∷ [])) rest
              (omega (arith, h))
          ∙ ap (λ (b : Bytes). some (left b e end)) (kept-append content_handler body chunk chunks))

  finish_read-report :
      (msg : Bytes) (resp : Response) (body dbg : Bytes) (w : World)
      → finish_read to_debug_string read content_handler msg resp (dbg, body, w)
        ≡ (report msg resp body dbg, w)
  unfolding finish_read
  finish_read-report msg resp body [] w = refl
  finish_read-report msg resp body (c ∷ cs) w = refl

  finish_read-left :
      (msg : Bytes) (resp : Response) (body : Bytes) (e : StreamFailure) (w : World)
      → finish_read to_debug_string read content_handler msg resp (left body e w)
        ≡ ending msg resp body e w
  finish_read-left msg resp body StreamFailure.closed w = finish_read-report msg resp body [] w
  finish_read-left msg resp body (StreamFailure.last_operation_failed error) w =
      let (dbg, after) = to_debug_string error w in finish_read-report msg resp body dbg after

  -- If the stream of a response gives some chunks and then fails, and the fuel is more than their
  -- number, the reading ends. Without a content handler the body has got all chunks in their order;
  -- with one it has got nothing, and the handler has got each chunk that is not empty, whatever it
  -- answers. If the stream was closed, the response is as it was but for the body. If its last
  -- operation failed, the response is no success and has the debug string of the error behind the
  -- message; but if that string is empty, the response is again as it was but for the body.
  pub read_body-Serves :
      (fuel : ℕ) (msg : Bytes) (resp : Response) {w end : World} {chunks : List Bytes}
      {e : StreamFailure}
      → Serves w chunks e end
      → length chunks < fuel
      → read_body to_debug_string read content_handler fuel msg resp w
        ≡ some (ending msg resp (resp.body ++ kept content_handler chunks) e end)
  unfolding read_body
  read_body-Serves fuel msg resp {end = end} {chunks = chunks} {e = e} served h =
      rw (read_body, read_loop-Serves fuel resp.body served h)
        (ap (λ r. some r)
          (finish_read-left msg resp (resp.body ++ kept content_handler chunks) e end))
