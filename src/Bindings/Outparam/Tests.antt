-- ===== src/Bindings/Outparam/Tests.antt =====
-- wasi_http_types_static_response_outparam_set of duckdb-httpfs-wasi/http_client.c at one error, for a host
-- that keeps what it reads.
use particle_python_wheels.Prelude.{◌≡◌, refl, arith, Option, some, none}
use particle_python_wheels.Bindings.Memory.{Handle}
use particle_python_wheels.Bindings.Abi.{Result, bad}
use particle_python_wheels.Bindings.ErrorCode.{Payload}
use particle_python_wheels.Bindings.ErrorCode.Value.{ErrorValue}
use particle_python_wheels.Bindings.ErrorCode.Structure.{structure}
use particle_python_wheels.Bindings.Outparam.{Results, lower_response, response_outparam_set}
use particle_python_wheels.Bindings.Outparam.Response.{
  response_structure, importing, response_outparam_set-lift,
}
use particle_python_wheels.Bindings.Outparam.Bounds.{ResultsInRange, lower_response-InRange}

-- A size whose highest bit of 32 is set.
abbrev large : Result Handle ErrorValue
large = bad (ErrorValue.http_request_header_section_size (some 4294967295))

abbrev keeping :
    Handle
    → Option (Result Handle ErrorValue)
    → Option (Result Handle ErrorValue)
    → Option (Result Handle ErrorValue)
keeping param response w = response

-- The number is passed as an int64_t that is -1.
large_run :
    lower_response (response_structure Payload.uninit large)
    ≡ some (record {
      result = 1;
      result146 = 21;
      result147 = 1;
      result148 = 18446744073709551615;
      result149 = 0;
      result150 = 0;
      result151 = 0;
      result152 = 0;
    })
unfolding lower_response structure
large_run = refl

response_outparam_set-lift_example :
    response_outparam_set (importing keeping) 7 (response_structure Payload.uninit large) none
    ≡ some (some large)
response_outparam_set-lift_example =
    response_outparam_set-lift keeping 7 Payload.uninit large none (omega arith)

lower_response-InRange_example :
    (r : Results) × (lower_response (response_structure Payload.uninit large) ≡ some r)
    × ResultsInRange r
lower_response-InRange_example = lower_response-InRange Payload.uninit large (omega arith)
