-- ===== src/Client/Url/Print.antt =====
-- ParseUrl on URLs that are put together from their parts.
use native.Mathlib.Nat.{zero-add, suc-add, add-sub_cancel_left}
use particle_python_wheels.Prelude.{
  ℕ, zero, suc, ◌+◌, ◌-◌, ◌≡◌, ◌≢◌, refl, ap, ◌∙◌, Bool, true, not, [], ◌∷◌, ◌++◌, none, some, take,
  drop, length, arith, eqb_false, eqb_true,
}
use particle_python_wheels.Client.Url.{
  Bytes, slash, colon, separator, root, http, starts_with, find, find_from, equal, parse_rest,
  parse_url,
}

abbrev pub Absent : ℕ → Bytes → Type 0
Absent c [] = Unit
Absent c (d ∷ ds) = (c ≢ d) × Absent c ds

append-Absent : (c : ℕ) (s t : Bytes) → Absent c s → Absent c t → Absent c (s ++ t)
append-Absent c [] t a b = b
append-Absent c (d ∷ s) t (ne, a) b = (ne, append-Absent c s t a b)

starts_with-append : (p t : Bytes) → starts_with p (p ++ t) ≡ true
starts_with-append [] t = refl
starts_with-append (c ∷ p) t = rw (eqb_true c c refl, starts_with-append p t) refl

-- The first place of a pattern is behind a part without its first byte.
find-append :
    (c : ℕ) (p s t : Bytes) → Absent c s → find (c ∷ p) (s ++ (c ∷ p ++ t)) ≡ some (length s)
find-append c p [] t a = rw (eqb_true c c refl, starts_with-append p t) refl
find-append c p (d ∷ s) t (ne, a) =
    rw (eqb_false c d ne, find-append c p s t a)
      (ap (λ (n : ℕ). some n) {y = suc (length s)} (omega arith))

find-Absent : (c : ℕ) (p s : Bytes) → Absent c s → find (c ∷ p) s ≡ none
find-Absent c p [] a = refl
find-Absent c p (d ∷ s) (ne, a) = rw (eqb_false c d ne, find-Absent c p s a) refl

take-append : (s t : Bytes) → take (length s) (s ++ t) ≡ s
take-append [] t = refl
take-append (c ∷ s) t = ap (λ (r : Bytes). c ∷ r) (take-append s t)

take-length : (s : Bytes) → take (length s) s ≡ s
take-length [] = refl
take-length (c ∷ s) = ap (λ (r : Bytes). c ∷ r) (take-length s)

drop-append : (s t : Bytes) → drop (length s) (s ++ t) ≡ t
drop-append [] t = refl
drop-append (c ∷ s) t = drop-append s t

drop-drop : (m k : ℕ) (s : Bytes) → drop (m + k) s ≡ drop k (drop m s)
drop-drop zero k s = rw (zero-add k) refl
drop-drop (suc m) zero [] = rw (suc-add m 0) refl
drop-drop (suc m) (suc k) [] = rw (suc-add m (suc k)) refl
drop-drop (suc m) k (c ∷ s) = rw (suc-add m k) (drop-drop m k s)

module _ (https : Bool) (url authority : Bytes) (after : ℕ) (plain : Absent slash authority) where
  slash_at :
      (query : Bytes)
      → drop after url ≡ authority ++ (slash ∷ query)
      → find_from root url after ≡ some (after + length authority)
  slash_at query e = rw (e, find-append slash [] authority query plain) refl

  slash_missing : drop after url ≡ authority → find_from root url after ≡ none
  slash_missing e = rw (e, find-Absent slash [] authority plain) refl

  path_behind :
      (query : Bytes)
      → drop after url ≡ authority ++ (slash ∷ query)
      → drop (after + length authority) url ≡ slash ∷ query
  path_behind query e =
      rw (drop-drop after (length authority) url, e) (drop-append authority (slash ∷ query))

  authority_before :
      (query : Bytes)
      → drop after url ≡ authority ++ (slash ∷ query)
      → take (after + length authority - after) (drop after url) ≡ authority
  authority_before query e =
      rw (add-sub_cancel_left after (length authority), e) (take-append authority (slash ∷ query))

  parse_rest-path :
      (query : Bytes)
      → drop after url ≡ authority ++ (slash ∷ query)
      → parse_rest https url after
        ≡ record { https = https; authority = authority; path = slash ∷ query }
  unfolding parse_rest
  parse_rest-path query e =
      rw (parse_rest, slash_at query e, path_behind query e, authority_before query e) refl

  parse_rest-root :
      drop after url ≡ authority
      → parse_rest https url after ≡ record { https = https; authority = authority; path = root }
  unfolding parse_rest
  parse_rest-root e = rw (parse_rest, slash_missing e, e) refl

module _ (scheme : Bytes) (no_colon : Absent colon scheme) where
  parse_url-split :
      (t : Bytes)
      → parse_url (scheme ++ (separator ++ t))
        ≡ parse_rest (not (equal scheme http)) (scheme ++ (separator ++ t)) (length scheme + 3)
  unfolding parse_url
  parse_url-split t =
      rw
        (
          parse_url,
          find-append colon (slash ∷ slash ∷ []) scheme t no_colon,
          take-append scheme (separator ++ t),
        )
        refl

  behind : (t : Bytes) → drop (length scheme + 3) (scheme ++ (separator ++ t)) ≡ t
  behind t =
      drop-drop (length scheme) 3 (scheme ++ (separator ++ t))
      ∙ rw (drop-append scheme (separator ++ t)) refl

  -- A URL of a scheme without a colon, "://", an authority without a slash and a path is parsed into
  -- that authority and that path; if there is no path, into the path "/". It is taken for https
  -- unless the scheme is "http".
  pub parse_url-print :
      (authority query : Bytes)
      → Absent slash authority
      → (parse_url (scheme ++ (separator ++ (authority ++ (slash ∷ query))))
          ≡ record { https = not (equal scheme http); authority = authority; path = slash ∷ query })
        × (parse_url (scheme ++ (separator ++ authority))
            ≡ record { https = not (equal scheme http); authority = authority; path = root })
  parse_url-print authority query plain = (
    parse_url-split (authority ++ (slash ∷ query))
        ∙ parse_rest-path (not (equal scheme http))
            (scheme ++ (separator ++ (authority ++ (slash ∷ query)))) authority (length scheme + 3)
            plain query (behind (authority ++ (slash ∷ query))),
    parse_url-split authority
        ∙ parse_rest-root (not (equal scheme http)) (scheme ++ (separator ++ authority)) authority
            (length scheme + 3) plain (behind authority),
  )

-- A URL without a colon is taken for https, and for an authority and a path (or "/") throughout.
pub parse_url-bare :
    (authority query : Bytes)
    → Absent slash authority
    → Absent colon authority
    → Absent colon query
    → (parse_url (authority ++ (slash ∷ query))
        ≡ record { https = true; authority = authority; path = slash ∷ query })
      × (parse_url authority ≡ record { https = true; authority = authority; path = root })
unfolding parse_url
parse_url-bare authority query plain no_colon clean = (
  rw
      (
        parse_url,
        find-Absent colon (slash ∷ slash ∷ []) (authority ++ (slash ∷ query))
            (append-Absent colon authority (slash ∷ query) no_colon (omega arith, clean)),
      )
      (parse_rest-path true (authority ++ (slash ∷ query)) authority 0 plain query refl),
  rw (parse_url, find-Absent colon (slash ∷ slash ∷ []) authority no_colon)
      (parse_rest-root true authority authority 0 plain refl),
)
