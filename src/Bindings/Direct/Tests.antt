-- ===== src/Bindings/Direct/Tests.antt =====
-- The adapters of duckdb-httpfs-wasi/http_client.c that return a number, at one host.
use particle_python_wheels.Prelude.{ℕ, suc, ◌≡◌, refl, true, false, ◌==◌, if◌then◌else◌}
use particle_python_wheels.Bindings.Memory.{Handle}
use particle_python_wheels.Bindings.Direct.{incoming_response_status, pollable_ready, fields_has}

abbrev answering : Handle → ℕ → ℕ × ℕ
answering self w = (65736, suc w)

status_run : incoming_response_status answering 3 0 ≡ (200, 1)
unfolding incoming_response_status
status_run = refl

ready_run : pollable_ready answering 3 0 ≡ (true, 1)
unfolding pollable_ready
ready_run = refl

-- An import that looks for "a" at 1000.
abbrev looking : Handle → ℕ → ℕ → ℕ → ℕ × ℕ
looking self ptr len w = (if ptr == 1000 then len else 0, w)

has_run : fields_has looking 3 (record { ptr = 1000; len = 1 }) 0 ≡ (true, 0)
unfolding fields_has
has_run = refl

has_not_run : fields_has looking 3 (record { ptr = 1; len = 1000 }) 0 ≡ (false, 0)
unfolding fields_has
has_not_run = refl
