-- ===== src/Bindings/Free/Tests.antt =====
-- The freeing of errors by duckdb-httpfs-wasi/http_client.c, at one error.
use particle_python_wheels.Prelude.{◌≡◌, [], ◌∷◌, some, none}
use particle_python_wheels.Bindings.ErrorCode.{Payload}
use particle_python_wheels.Bindings.ErrorCode.Value.{ErrorValue, view_error}
use particle_python_wheels.Bindings.ErrorCode.Structure.{structure}
use particle_python_wheels.Bindings.Free.{error_code_free}
use particle_python_wheels.Bindings.Free.Strings.{without_strings}
use particle_python_wheels.Bindings.Free.Again.{error_code_free-structure}
use particle_python_wheels.Bindings.FreeResults.Outcomes.{FreesEach, outcome_free-FreesEach}

-- A name of three bytes at 4096.
abbrev too_long : ErrorValue
too_long = ErrorValue.http_response_header_size (some (record { ptr = 4096; len = 3 }), none)

error_code_free-structure_example :
    (view_error (structure Payload.uninit too_long) ≡ some too_long)
    × (error_code_free (structure Payload.uninit too_long)
        ≡ some (structure Payload.uninit (without_strings too_long), 4096 ∷ []))
    × (error_code_free (structure Payload.uninit (without_strings too_long))
        ≡ some (structure Payload.uninit (without_strings too_long), []))
error_code_free-structure_example = error_code_free-structure Payload.uninit too_long

outcome_free-FreesEach_example : FreesEach Payload.uninit too_long
outcome_free-FreesEach_example = outcome_free-FreesEach Payload.uninit too_long
