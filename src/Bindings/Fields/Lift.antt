-- ===== src/Bindings/Fields/Lift.antt =====
-- The adapters of fields, bodies and streams, against the canonical ABI.
use particle_python_wheels.Prelude.{
  ℕ, zero, suc, ◌≡◌, refl, sym, ap, List, [], ◌∷◌, Option, some, get_elem?,
}
use particle_python_wheels.Bindings.Memory.{
  Memory, shift, Handle, Slice, Outcome, load_u8, load_u32,
}
use particle_python_wheels.Bindings.Abi.{
  Wit, Result, bind, as_wit, variant, result, view_outcome, result_read,
}
use particle_python_wheels.Bindings.Abi
use particle_python_wheels.Bindings.Http.Lift.{meaning, read_area}
use particle_python_wheels.Bindings.Fields.{
  HeaderError, lift_header_error, lift_fields_result, lift_void_header_result, lift_own_result,
  lift_list, fields_from_list, fields_get, fields_delete, fields_entries, fields_set, fields_append,
  incoming_request_consume, outgoing_request_body, incoming_response_consume, incoming_body_stream,
  outgoing_response_body, outgoing_body_write,
}

-- The WIT type `header-error`.
pub data HeaderFailure : Type 0 where
  invalid_syntax forbidden immutable : HeaderFailure

abbrev case : HeaderFailure → Wit HeaderFailure
case v = as_wit (λ _. v) Abi.nothing

abbrev pub header_error : Wit HeaderFailure
header_error = variant (
    case HeaderFailure.invalid_syntax
    ∷ case HeaderFailure.forbidden
    ∷ case HeaderFailure.immutable
    ∷ [])

abbrev header_failures : List HeaderFailure
header_failures =
    HeaderFailure.invalid_syntax ∷ HeaderFailure.forbidden ∷ HeaderFailure.immutable ∷ []

abbrev pub view_header_error : HeaderError → Option HeaderFailure
view_header_error e = get_elem? header_failures e.tag

abbrev pub view_opened : Outcome Handle (Unit {0}) → Option (Result Handle (Unit {0}))
view_opened = view_outcome some some

header_case :
    (d : ℕ) (m : Memory)
    → bind
        (get_elem?
          (case HeaderFailure.invalid_syntax
            ∷ case HeaderFailure.forbidden
            ∷ case HeaderFailure.immutable
            ∷ [])
          d)
        (λ w. w.read m)
      ≡ get_elem? header_failures d
header_case zero m = refl
header_case (suc zero) m = refl
header_case (suc (suc zero)) m = refl
header_case (suc (suc (suc d))) m = refl

header_error-read : (m : Memory) → header_error.read m ≡ view_header_error (lift_header_error m)
unfolding lift_header_error
header_error-read m = header_case (load_u8 m 0) (shift 1 m)

fields_result-read :
    (m : Memory)
    → (result Abi.own header_error).read m
      ≡ view_outcome some view_header_error (lift_fields_result m)
unfolding lift_fields_result
fields_result-read m =
    result_read some view_header_error (load_u8 m 0) Abi.own header_error (shift 4 m) (load_u32 m 4)
      (lift_header_error (shift 4 m)) refl (header_error-read (shift 4 m))

void_result-read :
    (m : Memory)
    → (result Abi.nothing header_error).read m
      ≡ view_outcome some view_header_error (lift_void_header_result m)
unfolding lift_void_header_result
void_result-read m =
    result_read some view_header_error (load_u8 m 0) Abi.nothing header_error (shift 1 m) tt
      (lift_header_error (shift 1 m)) refl (header_error-read (shift 1 m))

opened_result-read :
    (m : Memory) → (result Abi.own Abi.nothing).read m ≡ view_opened (lift_own_result m)
unfolding lift_own_result
opened_result-read m =
    result_read some some (load_u8 m 0) Abi.own Abi.nothing (shift 4 m) (load_u32 m 4) tt refl refl

-- What the adapters of fields return is what the canonical ABI reads in the area that their import
-- filled, called once with the address and the length of each list that they got: a list, new fields
-- or nothing, or the reason why the fields were refused.
pub fields-lift :
    {World : Type 0} (new : ℕ → ℕ → World → Memory × World)
    (entries : Handle → World → Memory × World) (by_name : Handle → ℕ → ℕ → World → Memory × World)
    (with_value : Handle → ℕ → ℕ → ℕ → ℕ → World → Memory × World) (self : Handle)
    (name value : Slice) (w : World)
    → (meaning (view_outcome some view_header_error) (fields_from_list new value w)
        ≡ read_area (result Abi.own header_error) (new value.ptr value.len w))
      × (meaning some (fields_get by_name self name w)
          ≡ read_area Abi.slice (by_name self name.ptr name.len w))
      × (meaning some (fields_entries entries self w) ≡ read_area Abi.slice (entries self w))
      × (meaning (view_outcome some view_header_error) (fields_set with_value self name value w)
          ≡ read_area
              (result Abi.nothing header_error)
              (with_value self name.ptr name.len value.ptr value.len w))
      × (meaning (view_outcome some view_header_error) (fields_append with_value self name value w)
          ≡ read_area
              (result Abi.nothing header_error)
              (with_value self name.ptr name.len value.ptr value.len w))
      × (meaning (view_outcome some view_header_error) (fields_delete by_name self name w)
          ≡ read_area (result Abi.nothing header_error) (by_name self name.ptr name.len w))
unfolding fields_from_list fields_get fields_entries fields_set fields_append fields_delete
    lift_list
fields-lift new entries by_name with_value self name value w =
    let (made, a) = new value.ptr value.len w in
    let (set, b) = with_value self name.ptr name.len value.ptr value.len w in
    let (deleted, c) = by_name self name.ptr name.len w in
    (
      ap (λ o. (o, a)) (sym (fields_result-read made)),
      refl,
      refl,
      ap (λ o. (o, b)) (sym (void_result-read set)),
      ap (λ o. (o, b)) (sym (void_result-read set)),
      ap (λ o. (o, c)) (sym (void_result-read deleted)),
    )

-- What the adapters return that open the body of a message or a stream of a body is what the canonical
-- ABI reads in the area that their import filled, called once: the handle, or a refusal.
pub openers-lift :
    {World : Type 0} (import : Handle → World → Memory × World) (self : Handle) (w : World)
    → (meaning view_opened (incoming_request_consume import self w)
        ≡ read_area (result Abi.own Abi.nothing) (import self w))
      × (meaning view_opened (outgoing_request_body import self w)
          ≡ read_area (result Abi.own Abi.nothing) (import self w))
      × (meaning view_opened (incoming_response_consume import self w)
          ≡ read_area (result Abi.own Abi.nothing) (import self w))
      × (meaning view_opened (incoming_body_stream import self w)
          ≡ read_area (result Abi.own Abi.nothing) (import self w))
      × (meaning view_opened (outgoing_response_body import self w)
          ≡ read_area (result Abi.own Abi.nothing) (import self w))
      × (meaning view_opened (outgoing_body_write import self w)
          ≡ read_area (result Abi.own Abi.nothing) (import self w))
unfolding incoming_request_consume outgoing_request_body incoming_response_consume
    incoming_body_stream outgoing_response_body outgoing_body_write
openers-lift import self w =
    let (m, v) = import self w in
    let e = ap (λ (o : Option (Result Handle (Unit {0}))). (o, v)) (sym (opened_result-read m)) in
    (e, e, e, e, e, e)
