-- ===== src/Bindings/Outparam.antt =====
-- wasi_http_types_static_response_outparam_set of duckdb-httpfs-wasi/http_client.c, which passes a response
-- or an error code to the host as numbers.
mod Casts
mod Lift
mod Response
mod PayloadBounds
mod Bounds
mod Tests
use particle_python_wheels.Prelude.{ℕ, Option, some, none}
use particle_python_wheels.Bindings.Memory.{Handle, Outcome, undefined, ok, err}
use particle_python_wheels.Bindings.Abi.{bind}
use particle_python_wheels.Bindings.ErrorCode.{ErrorCode}
use particle_python_wheels.Bindings.ErrorCode.Lower.{lower_error_code}

-- The arguments of the import behind the handle: result and result146 to result152.
pub record Results : Type 0 where
  pub result : ℕ
  pub result146 : ℕ
  pub result147 : ℕ
  pub result148 : ℕ
  pub result149 : ℕ
  pub result150 : ℕ
  pub result151 : ℕ
  pub result152 : ℕ

unfoldable pub lower_response : Outcome Handle ErrorCode → Option Results
unfolding lower_error_code
lower_response undefined = none
lower_response (err e) = bind (lower_error_code e) (λ n. some (record {
  result = 1;
  result146 = n.variant;
  result147 = n.variant140;
  result148 = n.variant141;
  result149 = n.variant142;
  result150 = n.variant143;
  result151 = n.variant144;
  result152 = n.variant145;
}))
lower_response (ok handle) = some (record {
  result = 0;
  result146 = handle;
  result147 = 0;
  result148 = 0;
  result149 = 0;
  result150 = 0;
  result151 = 0;
  result152 = 0;
})

unfoldable pub response_outparam_set :
    {World : Type 0}
    → (Handle → Results → World → World)
    → Handle
    → Outcome Handle ErrorCode
    → World
    → Option World
unfolding lower_response
response_outparam_set import param response w =
    bind (lower_response response) (λ r. some (import param r w))
