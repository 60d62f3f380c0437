-- ===== src/Bindings/Request.antt =====
-- The adapters of duckdb-httpfs-wasi/http_client.c for the members of a request: method, path, scheme
-- and authority, and for the timeouts of request options. A getter lifts the return area that its
-- import fills; a setter passes the members of a C structure to its import one by one.
pub mod Value
pub mod Lift
pub mod Lower
mod Tests
use particle_python_wheels.Prelude.{ℕ, List, [], ◌∷◌, Option, none, some}
use particle_python_wheels.Bindings.Memory.{
  Memory, shift, load_u8, load_u64, load_slice, Handle, Slice, Optional, Outcome, lift_option,
  lift_result, switch,
}
use particle_python_wheels.Bindings.Streams.{then_lift}
use particle_python_wheels.Bindings.Http.{lower_option}

-- The union of wasi_http_types_method_t and wasi_http_types_scheme_t.
pub data Other : Type 0 where
  uninit : Other
  other : Slice → Other

-- wasi_http_types_method_t and wasi_http_types_scheme_t.
pub record Tagged : Type 0 where
  pub tag : ℕ
  pub val : Other

pub lift_method : Memory → Tagged
lift_method m = record {
  tag = load_u8 m 0;
  val = switch (load_u8 m 0) Other.uninit (
      (0, Other.uninit)
      ∷ (1, Other.uninit)
      ∷ (2, Other.uninit)
      ∷ (3, Other.uninit)
      ∷ (4, Other.uninit)
      ∷ (5, Other.uninit)
      ∷ (6, Other.uninit)
      ∷ (7, Other.uninit)
      ∷ (8, Other.uninit)
      ∷ (9, Other.other (load_slice m 4))
      ∷ []);
}

pub lift_scheme : Memory → Tagged
lift_scheme m = record {
  tag = load_u8 m 0;
  val =
      switch (load_u8 m 0) Other.uninit
        ((0, Other.uninit) ∷ (1, Other.uninit) ∷ (2, Other.other (load_slice m 4)) ∷ []);
}

pub lift_scheme_option : Memory → Optional Tagged
unfolding lift_scheme
lift_scheme_option m = lift_option (load_u8 m 0) (lift_scheme (shift 4 m))

pub lift_string_option : Memory → Optional Slice
lift_string_option m = lift_option (load_u8 m 0) (load_slice m 4)

pub lift_duration_option : Memory → Optional ℕ
lift_duration_option m = lift_option (load_u8 m 0) (load_u64 m 8)

-- The variables that a setter passes on: `none` where the switch would leave them unset, or read a
-- union that was not assigned.
abbrev pub lower_other : ℕ → Other → Option (ℕ × ℕ × ℕ)
lower_other k Other.uninit = none
lower_other k (Other.other s) = some (k, s.ptr, s.len)

pub lower_method : Tagged → Option (ℕ × ℕ × ℕ)
lower_method method = switch method.tag none (
    (0, some (0, 0, 0))
    ∷ (1, some (1, 0, 0))
    ∷ (2, some (2, 0, 0))
    ∷ (3, some (3, 0, 0))
    ∷ (4, some (4, 0, 0))
    ∷ (5, some (5, 0, 0))
    ∷ (6, some (6, 0, 0))
    ∷ (7, some (7, 0, 0))
    ∷ (8, some (8, 0, 0))
    ∷ (9, lower_other 9 method.val)
    ∷ [])

abbrev pub lower_scheme : Tagged → Option (ℕ × ℕ × ℕ)
lower_scheme scheme =
    switch scheme.tag none
      ((0, some (0, 0, 0)) ∷ (1, some (1, 0, 0)) ∷ (2, lower_other 2 scheme.val) ∷ [])

abbrev behind_one : Option (ℕ × ℕ × ℕ) → Option (ℕ × ℕ × ℕ × ℕ)
behind_one none = none
behind_one (some (variant, ptr, len)) = some (1, variant, ptr, len)

pub lower_scheme_option : Option Tagged → Option (ℕ × ℕ × ℕ × ℕ)
lower_scheme_option none = some (0, 0, 0, 0)
lower_scheme_option (some scheme) = behind_one (lower_scheme scheme)

pub lower_string_option : Option Slice → ℕ × ℕ × ℕ
lower_string_option none = (0, 0, 0)
lower_string_option (some s) = (1, s.ptr, s.len)

module _ {World : Type 0} where
  -- A result without payloads is the number that the import returns.
  abbrev pub then_flag : ℕ × World → Outcome (Unit {0}) (Unit {0}) × World
  then_flag (ret, w) = (lift_result ret tt tt, w)

  pub outgoing_request_method : (Handle → World → Memory × World) → Handle → World → Tagged × World
  unfolding lift_method
  outgoing_request_method import self w = then_lift lift_method (import self w)

  pub outgoing_request_set_method :
      (Handle → ℕ → ℕ → ℕ → World → ℕ × World)
      → Handle
      → Tagged
      → World
      → Outcome (Unit {0}) (Unit {0}) × World
  unfolding lower_method
  outgoing_request_set_method import self method w = elim (lower_method method) [
    | none ↦ (Outcome.undefined, w)
    | some (variant, variant9, variant10) ↦ then_flag (import self variant variant9 variant10 w)
  ]

  pub outgoing_request_path_with_query :
      (Handle → World → Memory × World) → Handle → World → Optional Slice × World
  unfolding lift_string_option
  outgoing_request_path_with_query import self w = then_lift lift_string_option (import self w)

  pub outgoing_request_set_path_with_query :
      (Handle → ℕ → ℕ → ℕ → World → ℕ × World)
      → Handle
      → Option Slice
      → World
      → Outcome (Unit {0}) (Unit {0}) × World
  unfolding lower_string_option
  outgoing_request_set_path_with_query import self maybe_path_with_query w =
      let (option, option1, option2) = lower_string_option maybe_path_with_query in
      then_flag (import self option option1 option2 w)

  pub outgoing_request_scheme :
      (Handle → World → Memory × World) → Handle → World → Optional Tagged × World
  unfolding lift_scheme_option
  outgoing_request_scheme import self w = then_lift lift_scheme_option (import self w)

  pub outgoing_request_set_scheme :
      (Handle → ℕ → ℕ → ℕ → ℕ → World → ℕ × World)
      → Handle
      → Option Tagged
      → World
      → Outcome (Unit {0}) (Unit {0}) × World
  unfolding lower_scheme_option
  outgoing_request_set_scheme import self maybe_scheme w = elim (lower_scheme_option maybe_scheme) [
    | none ↦ (Outcome.undefined, w)
    | some (option, option6, option7, option8) ↦
        then_flag (import self option option6 option7 option8 w)
  ]

  pub outgoing_request_authority :
      (Handle → World → Memory × World) → Handle → World → Optional Slice × World
  unfolding lift_string_option
  outgoing_request_authority import self w = then_lift lift_string_option (import self w)

  pub outgoing_request_set_authority :
      (Handle → ℕ → ℕ → ℕ → World → ℕ × World)
      → Handle
      → Option Slice
      → World
      → Outcome (Unit {0}) (Unit {0}) × World
  unfolding lower_string_option
  outgoing_request_set_authority import self maybe_authority w =
      let (option, option1, option2) = lower_string_option maybe_authority in
      then_flag (import self option option1 option2 w)

  pub request_options_connect_timeout :
      (Handle → World → Memory × World) → Handle → World → Optional ℕ × World
  unfolding lift_duration_option
  request_options_connect_timeout import self w = then_lift lift_duration_option (import self w)

  pub request_options_set_connect_timeout :
      (Handle → ℕ → ℕ → World → ℕ × World)
      → Handle
      → Option ℕ
      → World
      → Outcome (Unit {0}) (Unit {0}) × World
  unfolding lower_option
  request_options_set_connect_timeout import self maybe_duration w =
      let (option, option1) = lower_option maybe_duration in
      then_flag (import self option option1 w)

  pub incoming_request_method : (Handle → World → Memory × World) → Handle → World → Tagged × World
  unfolding lift_method
  incoming_request_method import self w = then_lift lift_method (import self w)

  pub incoming_request_path_with_query :
      (Handle → World → Memory × World) → Handle → World → Optional Slice × World
  unfolding lift_string_option
  incoming_request_path_with_query import self w = then_lift lift_string_option (import self w)

  pub incoming_request_scheme :
      (Handle → World → Memory × World) → Handle → World → Optional Tagged × World
  unfolding lift_scheme_option
  incoming_request_scheme import self w = then_lift lift_scheme_option (import self w)

  pub incoming_request_authority :
      (Handle → World → Memory × World) → Handle → World → Optional Slice × World
  unfolding lift_string_option
  incoming_request_authority import self w = then_lift lift_string_option (import self w)

  pub request_options_first_byte_timeout :
      (Handle → World → Memory × World) → Handle → World → Optional ℕ × World
  unfolding lift_duration_option
  request_options_first_byte_timeout import self w = then_lift lift_duration_option (import self w)

  pub request_options_set_first_byte_timeout :
      (Handle → ℕ → ℕ → World → ℕ × World)
      → Handle
      → Option ℕ
      → World
      → Outcome (Unit {0}) (Unit {0}) × World
  unfolding lower_option
  request_options_set_first_byte_timeout import self maybe_duration w =
      let (option, option1) = lower_option maybe_duration in
      then_flag (import self option option1 w)

  pub request_options_between_bytes_timeout :
      (Handle → World → Memory × World) → Handle → World → Optional ℕ × World
  unfolding lift_duration_option
  request_options_between_bytes_timeout import self w =
      then_lift lift_duration_option (import self w)

  pub request_options_set_between_bytes_timeout :
      (Handle → ℕ → ℕ → World → ℕ × World)
      → Handle
      → Option ℕ
      → World
      → Outcome (Unit {0}) (Unit {0}) × World
  unfolding lower_option
  request_options_set_between_bytes_timeout import self maybe_duration w =
      let (option, option1) = lower_option maybe_duration in
      then_flag (import self option option1 w)
