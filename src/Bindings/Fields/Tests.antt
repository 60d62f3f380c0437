-- ===== src/Bindings/Fields/Tests.antt =====
-- The adapters of fields and bodies at return areas that are written out.
use particle_python_wheels.Prelude.{ℕ, ◌+◌, ◌≡◌, [], ◌∷◌, some}
use particle_python_wheels.Bindings.Memory.{Memory, Handle, Slice}
use particle_python_wheels.Bindings.Abi.{Result, view_outcome}
use particle_python_wheels.Bindings.Tests.{area}
use particle_python_wheels.Bindings.Http.Lift.{meaning}
use particle_python_wheels.Bindings.Fields.{
  fields_from_list, fields_get, fields_delete, fields_entries, fields_set, fields_append,
  incoming_request_consume, outgoing_request_body, incoming_response_consume, incoming_body_stream,
  outgoing_response_body, outgoing_body_write,
}
use particle_python_wheels.Bindings.Fields.Lift.{
  HeaderFailure, view_header_error, view_opened, fields-lift, openers-lift,
}

-- Refuses new fields, gives a list of 2 entries or a handle, and finds the fields immutable.
abbrev refusing_new : ℕ → ℕ → ℕ → Memory × ℕ
refusing_new ptr len w = (area (1 ∷ 0 ∷ 0 ∷ 0 ∷ 1 ∷ []), w + 1)

abbrev entering : Handle → ℕ → Memory × ℕ
entering self w = (area (0 ∷ 0 ∷ 0 ∷ 0 ∷ 2 ∷ []), w + 1)

abbrev finding : Handle → ℕ → ℕ → ℕ → Memory × ℕ
finding self ptr len w = (area (0 ∷ 1 ∷ 0 ∷ 0 ∷ 3 ∷ []), w + len)

abbrev sealed : Handle → ℕ → ℕ → ℕ → ℕ → ℕ → Memory × ℕ
sealed self ptr len at size w = (area (1 ∷ 2 ∷ []), w + size)

abbrev field : Slice
field = record { ptr = 64; len = 4 }

abbrev text : Slice
text = record { ptr = 80; len = 6 }

fields-lift_example :
    (meaning (view_outcome some view_header_error) (fields_from_list refusing_new text 0)
      ≡ (some (Result.bad HeaderFailure.forbidden), 1))
    × (meaning some (fields_get finding 5 field 0) ≡ (some (record { ptr = 256; len = 3 }), 4))
    × (meaning some (fields_entries entering 5 0) ≡ (some (record { ptr = 0; len = 2 }), 1))
    × (meaning (view_outcome some view_header_error) (fields_set sealed 5 field text 0)
        ≡ (some (Result.bad HeaderFailure.immutable), 6))
    × (meaning (view_outcome some view_header_error) (fields_append sealed 5 field text 0)
        ≡ (some (Result.bad HeaderFailure.immutable), 6))
    × (meaning (view_outcome some view_header_error) (fields_delete finding 5 field 0)
        ≡ (some (Result.good tt), 4))
fields-lift_example = fields-lift refusing_new entering finding sealed 5 field text 0

openers-lift_example :
    (meaning view_opened (incoming_request_consume entering 5 0) ≡ (some (Result.good 2), 1))
    × (meaning view_opened (outgoing_request_body entering 5 0) ≡ (some (Result.good 2), 1))
    × (meaning view_opened (incoming_response_consume entering 5 0) ≡ (some (Result.good 2), 1))
    × (meaning view_opened (incoming_body_stream entering 5 0) ≡ (some (Result.good 2), 1))
    × (meaning view_opened (outgoing_response_body entering 5 0) ≡ (some (Result.good 2), 1))
    × (meaning view_opened (outgoing_body_write entering 5 0) ≡ (some (Result.good 2), 1))
openers-lift_example = openers-lift entering 5 0
