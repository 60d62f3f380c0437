-- ===== src/Client/Tests.antt =====
-- Runs of the client of duckdb-httpfs-wasi/wasi_http_client.cpp, and the theorems about it at
-- concrete URLs and streams.
use particle_python_wheels.Prelude.{
  List, ℕ, zero, suc, ◌+◌, ◌≡◌, refl, true, false, [], ◌∷◌, ◌++◌, none, some, arith,
}
use particle_python_wheels.Bindings.Memory.{Handle, Slice}
use particle_python_wheels.Bindings.Abi.{Result, good, bad}
use particle_python_wheels.Bindings.Streams.Lift.{StreamFailure}
use particle_python_wheels.Client.Handles.{State, Use, run}
use particle_python_wheels.Client.Handles.Ownership.{IsOwned, run-IsOwned}
use particle_python_wheels.Client.Url.{Bytes, colon, slash, separator, root, http, parse_url}
use particle_python_wheels.Client.Url.Print.{Absent, parse_url-print, parse_url-bare}
use particle_python_wheels.Client.Body.{
  Written, Response, write_loop, after_write, chunk_size, read_body,
}
use particle_python_wheels.Client.Body.Write.{Sends, write_loop-Sends}
use particle_python_wheels.Client.Body.Read.{Serves, read_body-Serves}

-- "a.b" and "q".
abbrev host : Bytes
host = 97 ∷ 46 ∷ 98 ∷ []

abbrev query : Bytes
query = 113 ∷ []

host_plain : Absent slash host
host_plain = (omega arith, (omega arith, (omega arith, tt)))

http_plain : Absent colon http
http_plain = (omega arith, (omega arith, (omega arith, (omega arith, tt))))

host_no_colon : Absent colon host
host_no_colon = (omega arith, (omega arith, (omega arith, tt)))

parse_url-print_example :
    (parse_url (http ++ (separator ++ (host ++ (slash ∷ query))))
      ≡ record { https = false; authority = host; path = slash ∷ query })
    × (parse_url (http ++ (separator ++ host))
        ≡ record { https = false; authority = host; path = root })
parse_url-print_example = parse_url-print http http_plain host query host_plain

parse_url-bare_example :
    (parse_url (host ++ (slash ∷ query))
      ≡ record { https = true; authority = host; path = slash ∷ query })
    × (parse_url host ≡ record { https = true; authority = host; path = root })
parse_url-bare_example = parse_url-bare host query host_plain host_no_colon (omega arith, tt)

-- A stream that takes every chunk and counts the bytes; errors have no debug string.
abbrev silent : Handle → ℕ → Bytes × ℕ
silent error w = ([], w)

abbrev taking : Slice → ℕ → Result (Unit {0}) StreamFailure × ℕ
taking s w = (good tt, w + s.len)

write_loop-run : write_loop silent taking [] 100 5000 3 0 0 ≡ some (Written.all_written, 5000)
unfolding write_loop after_write chunk_size
write_loop-run = refl

write_loop-Sends_example :
    (r : Written × ℕ) × (write_loop silent taking [] 100 5000 5001 0 0 ≡ some r)
    × Sends silent taking [] 100 5000 0 0 r
write_loop-Sends_example = write_loop-Sends silent taking [] 100 5000 5001 0 (omega arith)

-- A stream that gives two chunks and then fails.
abbrev failing : ℕ → ℕ → Result Bytes StreamFailure × ℕ
failing limit zero = (good (1 ∷ 2 ∷ []), 1)
failing limit (suc zero) = (good (3 ∷ []), 2)
failing limit (suc (suc w)) = (bad (StreamFailure.last_operation_failed 7), suc (suc w))

abbrev fresh : Response
fresh = record {
  status = 200;
  success = true;
  request_error = [];
  url = [];
  reason = [];
  headers = [];
  body = [];
}

read_body-Serves_example :
    read_body silent failing none 3 (100 ∷ []) fresh 0
    ≡ some (record fresh { body = 1 ∷ 2 ∷ 3 ∷ [] }, 2)
read_body-Serves_example =
    read_body-Serves silent failing none 3 (100 ∷ []) fresh
      (Serves.more refl (Serves.more refl (Serves.over refl))) (omega arith)

-- No variable is live and no handle is there.
abbrev idle : State
idle = record { owners = λ v. record { handle = 0; live = false }; held = λ h. false }

idle-IsOwned : IsOwned idle
idle-IsOwned = record { owned = λ v l. cc; unique = λ v w l m e. cc; found = λ h o. cc }

-- Variable 0 takes handle 7, variable 1 is assigned from it and from itself, and both end.
abbrev uses : List Use
uses =
    Use.construct_from 0 7
    ∷ Use.move_assign_from 1 0
    ∷ Use.move_assign_from 1 1
    ∷ Use.destroy 1
    ∷ Use.destroy 0
    ∷ []

run-IsOwned_example :
    (t : State) × (run uses idle ≡ some t)
    × IsOwned t
    × (((v : ℕ) → (t.owners v).live ≡ false) → (h : Handle) → t.held h ≡ false)
run-IsOwned_example =
    run-IsOwned uses idle idle-IsOwned
      ((refl, refl), λ a e. (tt, λ b f. (tt, λ c g. (tt, λ d h. (tt, λ i j. tt)))))
