-- ===== src/Bindings/Abi.antt =====
-- The canonical ABI of the WebAssembly component model, as far as wasi:http needs it: what size and
-- alignment each WIT type has in memory, what value its bytes stand for, and what value the numbers
-- stand for as which it is passed.
use Prim.Native.Nat.{max}
use particle_python_wheels.Prelude.{
  ℕ, zero, suc, ◌+◌, ◌++◌, ◌≡◌, refl, List, [], ◌∷◌, Option, none, some, get_elem?, eqb_false,
  round_up, arith,
}
use particle_python_wheels.Bindings.Flat.{Core, low_bits, two_numbers, skip, join, narrow}
use particle_python_wheels.Bindings.Memory.{
  Memory, load_u8, load_u16, load_u32, load_u64, Handle, Slice, load_slice, shift, Optional, unset,
  absent, present, Outcome, undefined, ok, err, lift_option, lift_result,
}

-- A WIT type whose values are those of `A`; `read` takes the memory that begins at the
-- value, `lift` the numbers from the first one of the value on. Both are `none` where the ABI traps.
pub record Wit (A : Type 0) : Type 0 where
  pub size : ℕ
  pub alignment : ℕ
  pub read : Memory → Option A
  pub flat : List Core
  pub lift : List ℕ → Option A

abbrev pub u8 : Wit ℕ
u8 = record {
  size = 1;
  alignment = 1;
  read = λ m. some (load_u8 m 0);
  flat = Core.i32 ∷ [];
  lift = low_bits 8;
}

abbrev pub u16 : Wit ℕ
u16 = record {
  size = 2;
  alignment = 2;
  read = λ m. some (load_u16 m 0);
  flat = Core.i32 ∷ [];
  lift = low_bits 16;
}

abbrev pub u32 : Wit ℕ
u32 = record {
  size = 4;
  alignment = 4;
  read = λ m. some (load_u32 m 0);
  flat = Core.i32 ∷ [];
  lift = low_bits 32;
}

abbrev pub u64 : Wit ℕ
u64 = record {
  size = 8;
  alignment = 8;
  read = λ m. some (load_u64 m 0);
  flat = Core.i64 ∷ [];
  lift = low_bits 64;
}

abbrev pub own : Wit Handle
own = u32

-- A string or a list: an address and a length.
abbrev pub slice : Wit Slice
slice = record {
  size = 8;
  alignment = 4;
  read = λ m. some (load_slice m 0);
  flat = Core.i32 ∷ Core.i32 ∷ [];
  lift = two_numbers;
}

-- No payload.
abbrev pub nothing : Wit (Unit {0})
nothing = record { size = 0; alignment = 1; read = λ m. some tt; flat = []; lift = λ ns. some tt }

abbrev pub bind : {A B : Type 0} → Option A → (A → Option B) → Option B
bind none f = none
bind (some a) f = f a

abbrev pub as_wit : {A B : Type 0} → (A → B) → Wit A → Wit B
as_wit f w = record {
  size = w.size;
  alignment = w.alignment;
  read = λ m. bind (w.read m) (λ a. some (f a));
  flat = w.flat;
  lift = λ ns. bind (w.lift ns) (λ a. some (f a));
}

-- A record of two fields.
abbrev pub pair : {A B C : Type 0} → (A → B → C) → Wit A → Wit B → Wit C
pair f v w =
    let second : ℕ = round_up v.size w.alignment in
    let alignment : ℕ = max v.alignment w.alignment in
    record {
      size = round_up (second + w.size) alignment;
      alignment = alignment;
      read = λ m. bind (v.read m) (λ a. bind (w.read (shift second m)) (λ b. some (f a b)));
      flat = v.flat ++ w.flat;
      lift = λ ns. bind (v.lift ns) (λ a. bind (w.lift (skip v.flat ns)) (λ b. some (f a b)));
    }

abbrev pub max_size : {A : Type 0} → List (Wit A) → ℕ
max_size [] = 0
max_size (w ∷ ws) = max w.size (max_size ws)

abbrev pub max_alignment : {A : Type 0} → List (Wit A) → ℕ
max_alignment [] = 1
max_alignment (w ∷ ws) = max w.alignment (max_alignment ws)

abbrev join_flat : {A : Type 0} → List (Wit A) → List Core
join_flat [] = []
join_flat (w ∷ ws) = join w.flat (join_flat ws)

abbrev lift_variant : {A : Type 0} → List (Wit A) → List ℕ → Option A
lift_variant ws [] = none
lift_variant ws (tag ∷ ns) = bind (get_elem? ws tag) (λ w. w.lift (narrow w.flat (join_flat ws) ns))

-- A variant of at most 256 cases: a byte for the case, then the payload at its alignment.
abbrev pub variant : {A : Type 0} → List (Wit A) → Wit A
variant ws =
    let payload : ℕ = round_up 1 (max_alignment ws) in
    record {
      size = round_up (payload + max_size ws) (max_alignment ws);
      alignment = max_alignment ws;
      read = λ m. bind (get_elem? ws (load_u8 m 0)) (λ w. w.read (shift payload m));
      flat = Core.i32 ∷ join_flat ws;
      lift = lift_variant ws;
    }

abbrev pub option : {A : Type 0} → Wit A → Wit (Option A)
option w = variant (as_wit (λ _. none) nothing ∷ as_wit some w ∷ [])

pub data Result (A E : Type 0) : Type 0 where
  good : A → Result A E
  bad : E → Result A E

abbrev pub result : {A E : Type 0} → Wit A → Wit E → Wit (Result A E)
result w v = variant (as_wit good w ∷ as_wit bad v ∷ [])

-- What a C variable means: nothing, if it was not set.
abbrev pub view_option : {A B : Type 0} → (A → Option B) → Optional A → Option (Option B)
view_option f unset = none
view_option f absent = some none
view_option f (present a) = bind (f a) (λ b. some (some b))

abbrev pub view_outcome :
    {A B E F : Type 0} → (A → Option B) → (E → Option F) → Outcome A E → Option (Result B F)
view_outcome f g undefined = none
view_outcome f g (ok a) = bind (f a) (λ b. some (good b))
view_outcome f g (err e) = bind (g e) (λ b. some (bad b))

-- Reading an option is lifting it.
pub option_read :
    {A B : Type 0} (f : A → Option B) (d : ℕ) (w : Wit B) (m : Memory) (x : A)
    → w.read m ≡ f x
    → bind (get_elem? (as_wit (λ _. none) nothing ∷ as_wit some w ∷ []) d) (λ v. v.read m)
      ≡ view_option f (lift_option d x)
option_read f zero w m x e = refl
option_read f (suc zero) w m x e = rw e refl
option_read f (suc (suc d)) w m x e =
    rw (eqb_false (suc (suc d)) 0 (omega arith), eqb_false (suc (suc d)) 1 (omega arith)) refl

-- Reading a result is lifting it.
pub result_read :
    {A B E F : Type 0} (f : A → Option B) (g : E → Option F) (d : ℕ) (v : Wit B) (w : Wit F)
    (m : Memory) (x : A) (y : E)
    → v.read m ≡ f x
    → w.read m ≡ g y
    → bind (get_elem? (as_wit good v ∷ as_wit bad w ∷ []) d) (λ u. u.read m)
      ≡ view_outcome f g (lift_result d x y)
result_read f g zero v w m x y e h = rw e refl
result_read f g (suc zero) v w m x y e h = rw h refl
result_read f g (suc (suc d)) v w m x y e h =
    rw (eqb_false (suc (suc d)) 0 (omega arith), eqb_false (suc (suc d)) 1 (omega arith)) refl
