-- ===== src/Client/Url.antt =====
-- ParseUrl of duckdb-httpfs-wasi/wasi_http_client.cpp, on strings as lists of bytes.
pub mod Print
use particle_python_wheels.Prelude.{
  ℕ, zero, suc, ◌+◌, ◌-◌, ◌≡◌, ◌≢◌, refl, ap, Bool, true, false, ◌&&◌, not, List, [], ◌∷◌, ◌++◌,
  Option, none, some, ◌==◌, if◌then◌else◌, take, drop, length, arith, eqb_false,
}

abbrev pub Bytes : Type 0
Bytes = List ℕ

abbrev pub slash : ℕ
slash = 47

abbrev pub colon : ℕ
colon = 58

-- "://", "/" and "http".
abbrev pub separator : Bytes
separator = colon ∷ slash ∷ slash ∷ []

abbrev pub root : Bytes
root = slash ∷ []

abbrev pub http : Bytes
http = 104 ∷ 116 ∷ 116 ∷ 112 ∷ []

-- The members of std::string that ParseUrl calls: find, from a position, with npos as `none`;
-- comparison; and substr, as `take` and `drop`.
abbrev pub starts_with : Bytes → Bytes → Bool
starts_with [] s = true
starts_with (c ∷ cs) [] = false
starts_with (c ∷ cs) (d ∷ ds) = (c == d) && starts_with cs ds

abbrev pub shifted : ℕ → Option ℕ → Option ℕ
shifted n none = none
shifted n (some i) = some (n + i)

abbrev pub find : Bytes → Bytes → Option ℕ
find pattern [] = if starts_with pattern [] then some 0 else none
find pattern (c ∷ cs) =
    let later = find pattern cs in if starts_with pattern (c ∷ cs) then some 0 else shifted 1 later

abbrev pub find_from : Bytes → Bytes → ℕ → Option ℕ
find_from pattern s after = shifted after (find pattern (drop after s))

abbrev pub equal : Bytes → Bytes → Bool
equal [] [] = true
equal [] (d ∷ ds) = false
equal (c ∷ cs) [] = false
equal (c ∷ cs) (d ∷ ds) = (c == d) && equal cs ds

pub record ParsedUrl : Type 0 where
  pub https : Bool
  pub authority : Bytes
  pub path : Bytes

-- The part behind the scheme, from `after` on.
pub parse_rest : Bool → Bytes → ℕ → ParsedUrl
parse_rest https url after = elim (find_from root url after) [
  | none ↦ record { https = https; authority = drop after url; path = root }
  | some at ↦ record {
    https = https;
    authority = take (at - after) (drop after url);
    path = drop at url;
  }
]

pub parse_url : Bytes → ParsedUrl
unfolding parse_rest
parse_url url = elim (find separator url) [
  | none ↦ parse_rest true url 0
  | some pos ↦ parse_rest (not (equal (take pos url) http)) url (pos + 3)
]
