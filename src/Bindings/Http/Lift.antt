-- ===== src/Bindings/Http/Lift.antt =====
-- The adapters of wasi:http that read an error code, against the canonical ABI.
use particle_python_wheels.Prelude.{
  ℕ, zero, suc, ◌≡◌, ◌+◌, ◌∙◌, arith, refl, sym, ap, Option, none, some,
}
use mathlib.Core.Path.{fun_ext}
use particle_python_wheels.Bindings.Memory.{
  Memory, shift, Handle, Optional, Outcome, load_u8, load_u32, lift_option, lift_result,
}
use particle_python_wheels.Bindings.Abi.{
  Wit, Result, result, view_option, view_outcome, option_read, result_read,
}
use particle_python_wheels.Bindings.Abi
use particle_python_wheels.Bindings.ErrorCode.{ErrorCode, lift_error_code}
use particle_python_wheels.Bindings.ErrorCode.Value.{ErrorValue, error_code, view_error}
use particle_python_wheels.Bindings.ErrorCode.Lift.{lift_error_code-read}
use particle_python_wheels.Bindings.Http.{
  lift_http_error, lift_handle, lift_finish, lift_response, lift_trailers, http_error_code,
  outgoing_handler_handle, outgoing_body_finish, future_incoming_response_get, future_trailers_get,
}

abbrev pub read_area : {A World : Type 0} → Wit A → Memory × World → Option A × World
read_area a (m, w) = (a.read m, w)

abbrev pub meaning : {A B World : Type 0} → (A → Option B) → A × World → Option B × World
meaning f (a, w) = (f a, w)

-- An import that takes an optional handle, behind the two numbers that carry it; `trap` where they
-- carry none.
abbrev pub flattened :
    {World : Type 0}
    → (World → Memory × World)
    → (Handle → Option Handle → World → Memory × World)
    → Handle
    → ℕ
    → ℕ
    → World
    → Memory × World
flattened trap import self zero value w = import self none w
flattened trap import self (suc zero) value w = import self (some value) w
flattened trap import self (suc (suc tag)) value w = trap w

abbrev pub view_sent : Outcome Handle ErrorCode → Option (Result Handle ErrorValue)
view_sent = view_outcome some view_error

abbrev pub view_response :
    Optional (Outcome (Outcome Handle ErrorCode) (Unit {0}))
    → Option (Option (Result (Result Handle ErrorValue) (Unit {0})))
view_response = view_option (view_outcome view_sent some)

abbrev pub view_trailers :
    Optional (Outcome (Outcome (Optional Handle) ErrorCode) (Unit {0}))
    → Option (Option (Result (Result (Option Handle) ErrorValue) (Unit {0})))
view_trailers = view_option (view_outcome (view_outcome (view_option some) view_error) some)

http_error-read :
    (m : Memory) → (Abi.option error_code).read m ≡ view_option view_error (lift_http_error m)
unfolding lift_http_error
http_error-read m =
    option_read view_error (load_u8 m 0) error_code (shift 8 m) (lift_error_code (shift 8 m))
      (lift_error_code-read (shift 8 m))

handle-read : (m : Memory) → (result Abi.own error_code).read m ≡ view_sent (lift_handle m)
unfolding lift_handle
handle-read m =
    result_read some view_error (load_u8 m 0) Abi.own error_code (shift 8 m) (load_u32 m 8)
      (lift_error_code (shift 8 m)) refl (lift_error_code-read (shift 8 m))

finish-read :
    (m : Memory)
    → (result Abi.nothing error_code).read m ≡ view_outcome some view_error (lift_finish m)
unfolding lift_finish
finish-read m =
    result_read some view_error (load_u8 m 0) Abi.nothing error_code (shift 8 m) tt
      (lift_error_code (shift 8 m)) refl (lift_error_code-read (shift 8 m))

-- The place of the error code in the return area of a future.
add_lem : (i : ℕ) → 8 + (8 + (8 + i)) ≡ 24 + i
add_lem i = omega arith

nested : (m : Memory) → shift 8 (shift 8 (shift 8 m)) ≡ shift 24 m
nested m = fun_ext (λ i. ap m (add_lem i))

nested_read :
    (m : Memory)
    → error_code.read (shift 8 (shift 8 (shift 8 m))) ≡ view_error (lift_error_code (shift 24 m))
nested_read m = ap error_code.read (nested m) ∙ lift_error_code-read (shift 24 m)

-- The WIT types of the two futures.
abbrev pub response_wit : Wit (Option (Result (Result Handle ErrorValue) (Unit {0})))
response_wit = Abi.option (result (result Abi.own error_code) Abi.nothing)

abbrev pub trailers_wit : Wit (Option (Result (Result (Option Handle) ErrorValue) (Unit {0})))
trailers_wit = Abi.option (result (result (Abi.option Abi.own) error_code) Abi.nothing)

response-read : (m : Memory) → response_wit.read m ≡ view_response (lift_response m)
unfolding lift_response
response-read m =
    option_read (view_outcome view_sent some) (load_u8 m 0)
      (result (result Abi.own error_code) Abi.nothing) (shift 8 m)
      (lift_result (load_u8 m 8)
        (lift_result (load_u8 m 16) (load_u32 m 24) (lift_error_code (shift 24 m))) tt)
      (result_read view_sent some (load_u8 m 8) (result Abi.own error_code) Abi.nothing
        (shift 8 (shift 8 m))
        (lift_result (load_u8 m 16) (load_u32 m 24) (lift_error_code (shift 24 m))) tt
        (result_read some view_error (load_u8 m 16) Abi.own error_code
          (shift 8 (shift 8 (shift 8 m))) (load_u32 m 24) (lift_error_code (shift 24 m)) refl
          (nested_read m))
        refl)

trailers-read : (m : Memory) → trailers_wit.read m ≡ view_trailers (lift_trailers m)
unfolding lift_trailers
trailers-read m =
    option_read (view_outcome (view_outcome (view_option some) view_error) some) (load_u8 m 0)
      (result (result (Abi.option Abi.own) error_code) Abi.nothing) (shift 8 m)
      (lift_result (load_u8 m 8)
        (lift_result (load_u8 m 16) (lift_option (load_u8 m 24) (load_u32 m 28))
          (lift_error_code (shift 24 m)))
        tt)
      (result_read (view_outcome (view_option some) view_error) some (load_u8 m 8)
        (result (Abi.option Abi.own) error_code) Abi.nothing (shift 8 (shift 8 m))
        (lift_result (load_u8 m 16) (lift_option (load_u8 m 24) (load_u32 m 28))
          (lift_error_code (shift 24 m)))
        tt
        (result_read (view_option some) view_error (load_u8 m 16) (Abi.option Abi.own) error_code
          (shift 8 (shift 8 (shift 8 m))) (lift_option (load_u8 m 24) (load_u32 m 28))
          (lift_error_code (shift 24 m))
          (option_read some (load_u8 m 24) Abi.own (shift 4 (shift 8 (shift 8 (shift 8 m))))
            (load_u32 m 28) refl)
          (nested_read m))
        refl)

-- What wasi_http_types_http_error_code and the two futures return is what the canonical ABI reads in
-- the area that their import filled, called once: no error or the error code; and not yet done, or
-- done with a response (or optional trailers) or an error code, or taken before.
pub futures-lift :
    {World : Type 0} (import : Handle → World → Memory × World) (self : Handle) (w : World)
    → (meaning (view_option view_error) (http_error_code import self w)
        ≡ read_area (Abi.option error_code) (import self w))
      × (meaning view_response (future_incoming_response_get import self w)
          ≡ read_area response_wit (import self w))
      × (meaning view_trailers (future_trailers_get import self w)
          ≡ read_area trailers_wit (import self w))
unfolding http_error_code future_incoming_response_get future_trailers_get
futures-lift import self w =
    let (m, v) = import self w in
    (
      ap (λ o. (o, v)) (sym (http_error-read m)),
      ap (λ o. (o, v)) (sym (response-read m)),
      ap (λ o. (o, v)) (sym (trailers-read m)),
    )

-- An import that takes an optional handle gets from wasi_http_outgoing_handler_handle and from
-- wasi_http_types_static_outgoing_body_finish the option that their caller passed, and never a tag
-- that traps. What they return is what the canonical ABI reads in the area that it filled: a future
-- or nothing, or the error code.
pub handle_and_finish-lift :
    {World : Type 0} (trap : World → Memory × World)
    (import : Handle → Option Handle → World → Memory × World) (self : Handle)
    (passed : Option Handle) (w : World)
    → (meaning view_sent (outgoing_handler_handle (flattened trap import) self passed w)
        ≡ read_area (result Abi.own error_code) (import self passed w))
      × (meaning
            (view_outcome some view_error)
            (outgoing_body_finish (flattened trap import) self passed w)
          ≡ read_area (result Abi.nothing error_code) (import self passed w))
unfolding outgoing_handler_handle outgoing_body_finish
handle_and_finish-lift trap import self none w =
    let (m, v) = import self none w in
    (ap (λ o. (o, v)) (sym (handle-read m)), ap (λ o. (o, v)) (sym (finish-read m)))
handle_and_finish-lift trap import self (some h) w =
    let (m, v) = import self (some h) w in
    (ap (λ o. (o, v)) (sym (handle-read m)), ap (λ o. (o, v)) (sym (finish-read m)))
