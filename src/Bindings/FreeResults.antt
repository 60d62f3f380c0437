-- ===== src/Bindings/FreeResults.antt =====
-- The free functions of duckdb-httpfs-wasi/http_client.c for the results of the adapters.
pub mod Outcomes
use particle_python_wheels.Prelude.{ℕ, Option, some, none, [], ◌∷◌}
use particle_python_wheels.Bindings.Memory.{
  Handle, Slice, Optional, Outcome, undefined, ok, err, switch,
}
use particle_python_wheels.Bindings.Streams.{StreamError}
use particle_python_wheels.Bindings.ErrorCode.{ErrorCode}
use particle_python_wheels.Bindings.Request.{Other, Tagged}
use particle_python_wheels.Bindings.Free.{
  Freed, nothing_freed, into, list_u8_free, string_free, option_free, error_code_free,
}

-- `if (!ptr->is_err) { … } else { … }`.
abbrev pub outcome_free :
    {A E : Type 0} → (A → Freed A) → (E → Freed E) → Outcome A E → Freed (Outcome A E)
outcome_free free_ok free_err undefined = none
outcome_free free_ok free_err (ok x) = into ok (free_ok x)
outcome_free free_ok free_err (err y) = into err (free_err y)

-- The switch has one case, which does nothing.
pub stream_error_free : StreamError → Freed StreamError
stream_error_free e = switch e.tag (nothing_freed e) ((0, nothing_freed e) ∷ [])

pub result_list_u8_stream_error_free : Outcome Slice StreamError → Freed (Outcome Slice StreamError)
unfolding stream_error_free
result_list_u8_stream_error_free = outcome_free list_u8_free stream_error_free

pub result_u64_stream_error_free : Outcome ℕ StreamError → Freed (Outcome ℕ StreamError)
unfolding stream_error_free
result_u64_stream_error_free = outcome_free nothing_freed stream_error_free

pub result_void_stream_error_free :
    Outcome (Unit {0}) StreamError → Freed (Outcome (Unit {0}) StreamError)
unfolding stream_error_free
result_void_stream_error_free = outcome_free nothing_freed stream_error_free

abbrev other_free : Other → Freed Other
other_free Other.uninit = none
other_free (Other.other s) = into Other.other (string_free s)

abbrev tagged_free : ℕ → Tagged → Freed Tagged
tagged_free tag t =
    into (λ val. record t { val = val })
      (switch t.tag (nothing_freed t.val) ((tag, other_free t.val) ∷ []))

pub method_free : Tagged → Freed Tagged
method_free = tagged_free 9

pub scheme_free : Tagged → Freed Tagged
scheme_free = tagged_free 2

pub option_scheme_free : Optional Tagged → Freed (Optional Tagged)
unfolding scheme_free
option_scheme_free = option_free scheme_free

pub option_error_code_free : Optional ErrorCode → Freed (Optional ErrorCode)
option_error_code_free = option_free error_code_free

pub result_own_outgoing_response_error_code_free :
    Outcome Handle ErrorCode → Freed (Outcome Handle ErrorCode)
result_own_outgoing_response_error_code_free = outcome_free nothing_freed error_code_free

pub option_own_trailers_free : Optional Handle → Freed (Optional Handle)
option_own_trailers_free = option_free nothing_freed

pub result_option_own_trailers_error_code_free :
    Outcome (Optional Handle) ErrorCode → Freed (Outcome (Optional Handle) ErrorCode)
unfolding option_own_trailers_free
result_option_own_trailers_error_code_free = outcome_free option_own_trailers_free error_code_free

pub result_result_option_own_trailers_error_code_void_free :
    Outcome (Outcome (Optional Handle) ErrorCode) (Unit {0})
    → Freed (Outcome (Outcome (Optional Handle) ErrorCode) (Unit {0}))
unfolding result_option_own_trailers_error_code_free
result_result_option_own_trailers_error_code_void_free =
    outcome_free result_option_own_trailers_error_code_free nothing_freed

pub option_result_result_option_own_trailers_error_code_void_free :
    Optional (Outcome (Outcome (Optional Handle) ErrorCode) (Unit {0}))
    → Freed (Optional (Outcome (Outcome (Optional Handle) ErrorCode) (Unit {0})))
unfolding result_result_option_own_trailers_error_code_void_free
option_result_result_option_own_trailers_error_code_void_free =
    option_free result_result_option_own_trailers_error_code_void_free

pub result_void_error_code_free :
    Outcome (Unit {0}) ErrorCode → Freed (Outcome (Unit {0}) ErrorCode)
result_void_error_code_free = outcome_free nothing_freed error_code_free

pub result_own_incoming_response_error_code_free :
    Outcome Handle ErrorCode → Freed (Outcome Handle ErrorCode)
result_own_incoming_response_error_code_free = outcome_free nothing_freed error_code_free

pub result_result_own_incoming_response_error_code_void_free :
    Outcome (Outcome Handle ErrorCode) (Unit {0})
    → Freed (Outcome (Outcome Handle ErrorCode) (Unit {0}))
unfolding result_own_incoming_response_error_code_free
result_result_own_incoming_response_error_code_void_free =
    outcome_free result_own_incoming_response_error_code_free nothing_freed

pub option_result_result_own_incoming_response_error_code_void_free :
    Optional (Outcome (Outcome Handle ErrorCode) (Unit {0}))
    → Freed (Optional (Outcome (Outcome Handle ErrorCode) (Unit {0})))
unfolding result_result_own_incoming_response_error_code_void_free
option_result_result_own_incoming_response_error_code_void_free =
    option_free result_result_own_incoming_response_error_code_void_free

pub outgoing_handler_error_code_free : ErrorCode → Freed ErrorCode
outgoing_handler_error_code_free = error_code_free

pub outgoing_handler_result_own_future_incoming_response_error_code_free :
    Outcome Handle ErrorCode → Freed (Outcome Handle ErrorCode)
unfolding outgoing_handler_error_code_free
outgoing_handler_result_own_future_incoming_response_error_code_free =
    outcome_free nothing_freed outgoing_handler_error_code_free
