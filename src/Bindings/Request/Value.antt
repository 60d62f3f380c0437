-- ===== src/Bindings/Request/Value.antt =====
-- The WIT types `method` and `scheme` of wasi:http, in memory, as numbers that are passed to an
-- import, and as the C structures of duckdb-httpfs-wasi/http_client.h.
use particle_python_wheels.Prelude.{ℕ, zero, suc, List, [], ◌∷◌, Option, none, some, get_elem?}
use particle_python_wheels.Bindings.Memory.{Slice}
use particle_python_wheels.Bindings.Abi.{Wit, bind, as_wit, variant}
use particle_python_wheels.Bindings.Abi
use particle_python_wheels.Bindings.Request.{Other, Tagged}

pub data MethodValue : Type 0 where
  get head post put delete connect options trace patch : MethodValue
  other : Slice → MethodValue

pub data SchemeValue : Type 0 where
  http https : SchemeValue
  other : Slice → SchemeValue

abbrev method_case : MethodValue → Wit MethodValue
method_case v = as_wit (λ _. v) Abi.nothing

abbrev pub method_wits : List (Wit MethodValue)
method_wits =
    method_case MethodValue.get
    ∷ method_case MethodValue.head
    ∷ method_case MethodValue.post
    ∷ method_case MethodValue.put
    ∷ method_case MethodValue.delete
    ∷ method_case MethodValue.connect
    ∷ method_case MethodValue.options
    ∷ method_case MethodValue.trace
    ∷ method_case MethodValue.patch
    ∷ as_wit MethodValue.other Abi.slice
    ∷ []

abbrev scheme_case : SchemeValue → Wit SchemeValue
scheme_case v = as_wit (λ _. v) Abi.nothing

abbrev pub scheme_wits : List (Wit SchemeValue)
scheme_wits =
    scheme_case SchemeValue.http
    ∷ scheme_case SchemeValue.https
    ∷ as_wit SchemeValue.other Abi.slice
    ∷ []

-- What a C structure stands for.
abbrev pub view_other : {A : Type 0} → (Slice → A) → Other → Option A
view_other f Other.uninit = none
view_other f (Other.other s) = some (f s)

abbrev plain : {A : Type 0} → A → Other → Option A
plain v _ = some v

abbrev pub method_views : List (Other → Option MethodValue)
method_views =
    plain MethodValue.get
    ∷ plain MethodValue.head
    ∷ plain MethodValue.post
    ∷ plain MethodValue.put
    ∷ plain MethodValue.delete
    ∷ plain MethodValue.connect
    ∷ plain MethodValue.options
    ∷ plain MethodValue.trace
    ∷ plain MethodValue.patch
    ∷ view_other MethodValue.other
    ∷ []

abbrev pub scheme_views : List (Other → Option SchemeValue)
scheme_views = plain SchemeValue.http ∷ plain SchemeValue.https ∷ view_other SchemeValue.other ∷ []

abbrev pub view_method : Tagged → Option MethodValue
view_method t = bind (get_elem? method_views t.tag) (λ view. view t.val)

abbrev pub view_scheme : Tagged → Option SchemeValue
view_scheme t = bind (get_elem? scheme_views t.tag) (λ view. view t.val)

-- The value that the numbers of a flattened argument carry.
abbrev pub method_numbers : List (Slice → MethodValue)
method_numbers =
    (λ _. MethodValue.get)
    ∷ (λ _. MethodValue.head)
    ∷ (λ _. MethodValue.post)
    ∷ (λ _. MethodValue.put)
    ∷ (λ _. MethodValue.delete)
    ∷ (λ _. MethodValue.connect)
    ∷ (λ _. MethodValue.options)
    ∷ (λ _. MethodValue.trace)
    ∷ (λ _. MethodValue.patch)
    ∷ MethodValue.other
    ∷ []

abbrev pub scheme_numbers : List (Slice → SchemeValue)
scheme_numbers = (λ _. SchemeValue.http) ∷ (λ _. SchemeValue.https) ∷ SchemeValue.other ∷ []

abbrev pub from_numbers : {A : Type 0} → List (Slice → A) → ℕ → ℕ → ℕ → Option A
from_numbers fs tag ptr len =
    bind (get_elem? fs tag) (λ f. some (f (record { ptr = ptr; len = len })))

-- An optional value behind a number that tells whether it is there.
abbrev pub optional_numbers : {A : Type 0} → ℕ → Option A → Option (Option A)
optional_numbers zero v = some none
optional_numbers (suc zero) v = bind v (λ a. some (some a))
optional_numbers (suc (suc tag)) v = none

-- An import that takes a value, behind the numbers that carry it; `trap` where they carry none.
abbrev pub taking {ℓ} :
    {A World : Type 0} {R : Type ℓ} → (World → R) → (A → World → R) → Option A → World → R
taking trap import none w = trap w
taking trap import (some a) w = import a w

-- The C structures of a value; `rest` is what the union holds where the tag does not select it.
abbrev pub method_structure : Other → MethodValue → Tagged
method_structure rest MethodValue.get = record { tag = 0; val = rest }
method_structure rest MethodValue.head = record { tag = 1; val = rest }
method_structure rest MethodValue.post = record { tag = 2; val = rest }
method_structure rest MethodValue.put = record { tag = 3; val = rest }
method_structure rest MethodValue.delete = record { tag = 4; val = rest }
method_structure rest MethodValue.connect = record { tag = 5; val = rest }
method_structure rest MethodValue.options = record { tag = 6; val = rest }
method_structure rest MethodValue.trace = record { tag = 7; val = rest }
method_structure rest MethodValue.patch = record { tag = 8; val = rest }
method_structure rest (MethodValue.other s) = record { tag = 9; val = Other.other s }

abbrev pub scheme_structure : Other → SchemeValue → Tagged
scheme_structure rest SchemeValue.http = record { tag = 0; val = rest }
scheme_structure rest SchemeValue.https = record { tag = 1; val = rest }
scheme_structure rest (SchemeValue.other s) = record { tag = 2; val = Other.other s }
