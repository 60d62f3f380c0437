-- ===== src/Bindings/FreeResults/Outcomes.antt =====
-- The freeing of a result that is an error.
use particle_python_wheels.Prelude.{◌≡◌, refl, some, none}
use particle_python_wheels.Bindings.Memory.{present, undefined, ok, err}
use particle_python_wheels.Bindings.ErrorCode.{Payload, ErrorCode}
use particle_python_wheels.Bindings.ErrorCode.Value.{ErrorValue}
use particle_python_wheels.Bindings.ErrorCode.Structure.{structure}
use particle_python_wheels.Bindings.Free.{Freed}
use particle_python_wheels.Bindings.Free.Strings.{heap, without_strings}
use particle_python_wheels.Bindings.Free.Errors.{free_lem}
use particle_python_wheels.Bindings.FreeResults.{
  option_error_code_free, result_own_outgoing_response_error_code_free,
  option_result_result_option_own_trailers_error_code_void_free, result_void_error_code_free,
  result_own_incoming_response_error_code_free,
  result_result_own_incoming_response_error_code_void_free,
  option_result_result_own_incoming_response_error_code_void_free, outgoing_handler_error_code_free,
  outgoing_handler_result_own_future_incoming_response_error_code_free,
}

-- A function frees the strings of an error that lies inside of a structure, and no more.
abbrev FreesInside : {A : Type 0} → (ErrorCode → A) → (A → Freed A) → Payload → ErrorValue → Type 0
FreesInside inside free rest v =
    free (inside (structure rest v)) ≡ some (inside (structure rest (without_strings v)), heap v)

abbrev pub FreesEach : Payload → ErrorValue → Type 0
FreesEach rest v =
    FreesInside (λ e. present e) option_error_code_free rest v
    × FreesInside (λ e. e) outgoing_handler_error_code_free rest v
    × FreesInside (λ e. err e) result_own_outgoing_response_error_code_free rest v
    × FreesInside (λ e. err e) result_void_error_code_free rest v
    × FreesInside (λ e. err e) result_own_incoming_response_error_code_free rest v
    × FreesInside (λ e. err e) outgoing_handler_result_own_future_incoming_response_error_code_free
        rest v
    × FreesInside (λ e. ok (err e)) result_result_own_incoming_response_error_code_void_free rest v
    × FreesInside (λ e. present (ok (err e)))
        option_result_result_own_incoming_response_error_code_void_free rest v
    × FreesInside (λ e. present (ok (err e)))
        option_result_result_option_own_trailers_error_code_void_free rest v
    × (result_result_own_incoming_response_error_code_void_free undefined ≡ none)

-- Whatever the unselected parts of the union have: each function that frees a result of the adapters,
-- of an error inside of it, however deep it lies, passes to free() the addresses of the strings that
-- are not empty and nothing else, and leaves the same result around the same error with its strings
-- empty. The function for the response of a future, given a result that was never assigned, reads what
-- is not set.
pub outcome_free-FreesEach : (rest : Payload) (v : ErrorValue) → FreesEach rest v
unfolding option_error_code_free outgoing_handler_error_code_free
    result_own_outgoing_response_error_code_free result_void_error_code_free
    result_own_incoming_response_error_code_free
    outgoing_handler_result_own_future_incoming_response_error_code_free
    result_result_own_incoming_response_error_code_void_free
    option_result_result_own_incoming_response_error_code_void_free
    option_result_result_option_own_trailers_error_code_void_free
outcome_free-FreesEach rest v =
    let e = free_lem rest v in
    (
      rw (option_error_code_free, e) refl,
      e,
      rw (result_own_outgoing_response_error_code_free, e) refl,
      rw (result_void_error_code_free, e) refl,
      rw (result_own_incoming_response_error_code_free, e) refl,
      rw (outgoing_handler_result_own_future_incoming_response_error_code_free, e) refl,
      rw (result_result_own_incoming_response_error_code_void_free, e) refl,
      rw (option_result_result_own_incoming_response_error_code_void_free, e) refl,
      rw (option_result_result_option_own_trailers_error_code_void_free, e) refl,
      refl,
    )
