-- ===== src/Bindings/Streams/Lift.antt =====
-- The stream adapters, against the canonical ABI.
use particle_python_wheels.Prelude.{
  ℕ, ◌≡◌, refl, sym, ap, arith, [], ◌∷◌, Option, none, some, get_elem?,
}
use particle_python_wheels.Bindings.Memory.{
  Memory, shift, Handle, Slice, Outcome, load_u8, load_u64, load_slice,
}
use particle_python_wheels.Bindings.Abi.{
  Wit, Result, bind, as_wit, variant, result, view_outcome, result_read,
}
use particle_python_wheels.Bindings.Abi
use particle_python_wheels.Bindings.Variant.{Lifts, Lifts-switch}
use particle_python_wheels.Bindings.Streams.{
  StreamPayload, StreamError, lift_stream_error, lift_list_result, lift_u64_result,
  lift_void_result, input_stream_read, input_stream_blocking_read, input_stream_skip,
  input_stream_blocking_skip, output_stream_check_write, output_stream_write,
  output_stream_blocking_write_and_flush, output_stream_flush, output_stream_blocking_flush,
  output_stream_write_zeroes, output_stream_blocking_write_zeroes_and_flush, output_stream_splice,
  output_stream_blocking_splice, then_lift,
}

-- The WIT type `stream-error`.
pub data StreamFailure : Type 0 where
  last_operation_failed : Handle → StreamFailure
  closed : StreamFailure

abbrev pub stream_error : Wit StreamFailure
stream_error = variant (
    as_wit StreamFailure.last_operation_failed Abi.own
    ∷ as_wit (λ _. StreamFailure.closed) Abi.nothing
    ∷ [])

abbrev view_failed : StreamPayload → Option StreamFailure
view_failed StreamPayload.uninit = none
view_failed (StreamPayload.last_operation_failed h) = some (StreamFailure.last_operation_failed h)

abbrev pub view_stream_error : StreamError → Option StreamFailure
view_stream_error e =
    bind (get_elem? (view_failed ∷ (λ _. some StreamFailure.closed) ∷ []) e.tag)
      (λ view. view e.val)

pub lift_stream_error-read :
    (m : Memory) → stream_error.read m ≡ view_stream_error (lift_stream_error m)
unfolding lift_stream_error
lift_stream_error-read m =
    Lifts-switch (shift 4 m) StreamPayload.uninit 0 (load_u8 m 0) (load_u8 m 0) (omega arith)
      (Lifts.cons refl (Lifts.cons refl Lifts.nil))

-- What an adapter's outcome means.
abbrev pub view :
    {A World : Type 0} → Outcome A StreamError × World → Option (Result A StreamFailure) × World
view (o, w) = (view_outcome some view_stream_error o, w)

-- What the return area holds.
abbrev pub returns :
    {A World : Type 0} → Wit A → Memory × World → Option (Result A StreamFailure) × World
returns a (m, w) = ((result a stream_error).read m, w)

lift_list :
    {World : Type 0} (r : Memory × World)
    → view (then_lift lift_list_result r) ≡ returns Abi.slice r
unfolding lift_list_result
lift_list (m, w) =
    ap (λ o. (o, w))
      (sym (
        result_read some view_stream_error (load_u8 m 0) Abi.slice stream_error (shift 4 m)
          (load_slice m 4) (lift_stream_error (shift 4 m)) refl
          (lift_stream_error-read (shift 4 m))))

lift_u64 :
    {World : Type 0} (r : Memory × World) → view (then_lift lift_u64_result r) ≡ returns Abi.u64 r
unfolding lift_u64_result
lift_u64 (m, w) =
    ap (λ o. (o, w))
      (sym (
        result_read some view_stream_error (load_u8 m 0) Abi.u64 stream_error (shift 8 m)
          (load_u64 m 8) (lift_stream_error (shift 8 m)) refl (lift_stream_error-read (shift 8 m))))

lift_void :
    {World : Type 0} (r : Memory × World)
    → view (then_lift lift_void_result r) ≡ returns Abi.nothing r
unfolding lift_void_result
lift_void (m, w) =
    ap (λ o. (o, w))
      (sym (
        result_read some view_stream_error (load_u8 m 0) Abi.nothing stream_error (shift 4 m) tt
          (lift_stream_error (shift 4 m)) refl (lift_stream_error-read (shift 4 m))))

-- What the reading adapters return is what the canonical ABI reads in the area that their import
-- filled, called once with the arguments of the adapter: a list of bytes or a number, or the stream
-- error with its handle.
pub input_stream-lifts :
    {World : Type 0} (import : Handle → ℕ → World → Memory × World) (self : Handle) (len : ℕ)
    (w : World)
    → (view (input_stream_read import self len w) ≡ returns Abi.slice (import self len w))
      × (view (input_stream_blocking_read import self len w)
          ≡ returns Abi.slice (import self len w))
      × (view (input_stream_skip import self len w) ≡ returns Abi.u64 (import self len w))
      × (view (input_stream_blocking_skip import self len w) ≡ returns Abi.u64 (import self len w))
unfolding input_stream_read input_stream_blocking_read input_stream_skip input_stream_blocking_skip
input_stream-lifts import self len w =
    let r = import self len w in (lift_list r, lift_list r, lift_u64 r, lift_u64 r)

-- What the writing adapters return is what the canonical ABI reads in the area that their import
-- filled, called once with the arguments of the adapter, a list of bytes as its address and its
-- length: a number or nothing, or the stream error with its handle.
pub output_stream-lifts :
    {World : Type 0} (check : Handle → World → Memory × World)
    (send : Handle → ℕ → ℕ → World → Memory × World)
    (zero_fill : Handle → ℕ → World → Memory × World) (self src : Handle) (contents : Slice)
    (len : ℕ) (w : World)
    → (view (output_stream_check_write check self w) ≡ returns Abi.u64 (check self w))
      × (view (output_stream_write send self contents w)
          ≡ returns Abi.nothing (send self contents.ptr contents.len w))
      × (view (output_stream_blocking_write_and_flush send self contents w)
          ≡ returns Abi.nothing (send self contents.ptr contents.len w))
      × (view (output_stream_flush check self w) ≡ returns Abi.nothing (check self w))
      × (view (output_stream_blocking_flush check self w) ≡ returns Abi.nothing (check self w))
      × (view (output_stream_write_zeroes zero_fill self len w)
          ≡ returns Abi.nothing (zero_fill self len w))
      × (view (output_stream_blocking_write_zeroes_and_flush zero_fill self len w)
          ≡ returns Abi.nothing (zero_fill self len w))
      × (view (output_stream_splice send self src len w) ≡ returns Abi.u64 (send self src len w))
      × (view (output_stream_blocking_splice send self src len w)
          ≡ returns Abi.u64 (send self src len w))
unfolding output_stream_check_write output_stream_write output_stream_blocking_write_and_flush
    output_stream_flush output_stream_blocking_flush output_stream_write_zeroes
    output_stream_blocking_write_zeroes_and_flush output_stream_splice output_stream_blocking_splice
output_stream-lifts check send zero_fill self src contents len w = (
  lift_u64 (check self w),
  lift_void (send self contents.ptr contents.len w),
  lift_void (send self contents.ptr contents.len w),
  lift_void (check self w),
  lift_void (check self w),
  lift_void (zero_fill self len w),
  lift_void (zero_fill self len w),
  lift_u64 (send self src len w),
  lift_u64 (send self src len w),
)
