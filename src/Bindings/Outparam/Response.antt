-- ===== src/Bindings/Outparam/Response.antt =====
-- What the host gets from wasi_http_types_static_response_outparam_set.
use particle_python_wheels.Prelude.{◌<◌, ◌^◌, ◌≡◌, ap, [], ◌∷◌, Option, some}
use particle_python_wheels.Bindings.Memory.{Handle, Outcome, ok, err}
use particle_python_wheels.Bindings.Abi.{Result, good, bad, bind}
use particle_python_wheels.Bindings.Abi
use particle_python_wheels.Bindings.ErrorCode.{Payload, ErrorCode}
use particle_python_wheels.Bindings.ErrorCode.Value.{ErrorValue, error_code}
use particle_python_wheels.Bindings.ErrorCode.Structure.{structure}
use particle_python_wheels.Bindings.ErrorCode.Fits.{Fits}
use particle_python_wheels.Bindings.Outparam.{Results, lower_response, response_outparam_set}
use particle_python_wheels.Bindings.Outparam.Casts.{u32_lem}
use particle_python_wheels.Bindings.Outparam.Lift.{lower_error_code-StandsFor}

abbrev pub response_structure : Payload → Result Handle ErrorValue → Outcome Handle ErrorCode
response_structure rest (good handle) = ok handle
response_structure rest (bad v) = err (structure rest v)

abbrev pub FitsResponse : Result Handle ErrorValue → Type 0
FitsResponse (good handle) = handle < 2 ^ 32
FitsResponse (bad v) = Fits v

-- The import of a host: it reads its numbers as a `result<own<outgoing-response>, error-code>`.
abbrev pub importing :
    {World : Type 0}
    → (Handle → Option (Result Handle ErrorValue) → World → World)
    → Handle
    → Results
    → World
    → World
importing host param r w =
    host param
      ((Abi.result Abi.own error_code).lift (
        r.result ∷ r.result146 ∷ r.result147 ∷ r.result148 ∷ r.result149 ∷ r.result150 ∷ r.result151
        ∷ r.result152 ∷ []))
      w

-- However the host acts on what it reads, and for every response or error code whose numbers have their
-- width, whatever the union has where the value's case has no member: the call reads no variable and
-- no member that was not assigned, passes the parameter's handle, and passes numbers that the canonical
-- ABI reads as this very response or error code.
pub response_outparam_set-lift :
    {World : Type 0} (host : Handle → Option (Result Handle ErrorValue) → World → World)
    (param : Handle) (rest : Payload) (response : Result Handle ErrorValue) (w : World)
    → FitsResponse response
    → response_outparam_set (importing host) param (response_structure rest response) w
      ≡ some (host param (some response) w)
unfolding response_outparam_set lower_response
response_outparam_set-lift host param rest (good handle) w h =
    λ i. some (host param (some (good (u32_lem handle h i))) w)
response_outparam_set-lift host param rest (bad v) w h =
    let (n, lowered, lifted) = lower_error_code-StandsFor rest v h in
    rw (response_outparam_set, lowered)
      (ap (λ (x : Option ErrorValue). some (host param (bind x (λ e. some (bad e))) w)) lifted)
