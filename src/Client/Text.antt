-- ===== src/Client/Text.antt =====
-- String literals of duckdb-httpfs-wasi/wasi_http_client.cpp, as lists of bytes.
use Prim.Native.String.{String}
use Prim.Native.Char.{code}
use particle_python_wheels.Prelude.{ℕ, List, [], ◌∷◌}

-- The bytes of a literal, which is ASCII.
abbrev pub ascii : String → List ℕ
ascii String.[] = []
ascii (String.◌∷◌ c s) = code c ∷ ascii s
