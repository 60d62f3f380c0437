-- ===== src/Bindings/ErrorCode/Lift.antt =====
-- The switch by which the adapters of duckdb-httpfs-wasi/http_client.c read an error code, against the
-- canonical ABI.
use particle_python_wheels.Prelude.{
  ℕ, ◌≡◌, refl, List, Option, some, take, drop, round_up, arith, ◌++◌,
}
use particle_python_wheels.Bindings.Memory.{
  Memory, shift, Optional, load_u8, load_u16, load_u32, load_u64, load_slice,
}
use particle_python_wheels.Bindings.Abi.{Wit, bind, as_wit, option_read, view_option}
use particle_python_wheels.Bindings.Abi
use particle_python_wheels.Bindings.Variant.{Lifts, Lifts-switch, ◌▹◌}
use particle_python_wheels.Bindings.ErrorCode.{
  Payload, lift_error_code, lift_dns_error, lift_tls_alert_received, lift_option_field_size,
  lift_field_size, option_u8, option_u16, option_u32, option_u64, option_string, connection_cases,
  request_cases, response_cases,
}
use particle_python_wheels.Bindings.ErrorCode.Value.{
  ErrorValue, error_code, error_wits, field_size, view_pair, view_field_size, views, view_error,
}

string_read : (m : Memory) → (Abi.option Abi.slice).read m ≡ view_option some (option_string m 0 4)
string_read m = option_read some (load_u8 m 0) Abi.slice (shift 4 m) (load_slice m 4) refl

u8_read : (m : Memory) → (Abi.option Abi.u8).read m ≡ view_option some (option_u8 m 0 1)
u8_read m = option_read some (load_u8 m 0) Abi.u8 (shift 1 m) (load_u8 m 1) refl

u16_read : (m : Memory) → (Abi.option Abi.u16).read m ≡ view_option some (option_u16 m 0 2)
u16_read m = option_read some (load_u8 m 0) Abi.u16 (shift 2 m) (load_u16 m 2) refl

u32_read : (m : Memory) → (Abi.option Abi.u32).read m ≡ view_option some (option_u32 m 0 4)
u32_read m = option_read some (load_u8 m 0) Abi.u32 (shift 4 m) (load_u32 m 4) refl

u64_read : (m : Memory) → (Abi.option Abi.u64).read m ≡ view_option some (option_u64 m 0 8)
u64_read m = option_read some (load_u8 m 0) Abi.u64 (shift 8 m) (load_u64 m 8) refl

-- A value under a constructor.
under :
    {A B : Type 0} (f : A → B) (m : Memory) (w : Wit A) {x : Option A}
    → w.read m ≡ x
    → (as_wit f w).read m ≡ bind x (λ a. some (f a))
under f m w e = rw e refl

pair_read :
    {A B C : Type 0} (f : Option A → Option B → C) (m : Memory) (v : Wit (Option A))
    (w : Wit (Option B)) (x : Optional A) (y : Optional B)
    → v.read m ≡ view_option some x
    → w.read (shift (round_up v.size w.alignment) m) ≡ view_option some y
    → (Abi.pair f v w).read m ≡ view_pair f x y
pair_read f m v w x y e h = rw (e, h) refl

size_read :
    (m : Memory)
    → field_size.read m ≡ view_pair (λ a b. (a, b)) (option_string m 0 4) (option_u32 m 12 16)
size_read m =
    pair_read (λ a b. (a, b)) m (Abi.option Abi.slice) (Abi.option Abi.u32) (option_string m 0 4)
      (option_u32 m 12 16) (string_read m) (u32_read (shift 12 m))

-- Every case of the switch reads what the ABI says.
module _ (m : Memory) {ws : List (Wit ErrorValue)} {vs : List (Payload → Option ErrorValue)}
    {cs : List (ℕ × Payload)} where
  connection-Lifts :
      Lifts (shift 8 m) 14 ws vs cs
      → Lifts
          (shift 8 m)
          0
          (take 14 error_wits ++ ws)
          (take 14 views ++ vs)
          (connection_cases m ++ cs)
  unfolding connection_cases lift_dns_error
  connection-Lifts l =
      refl
      ▹ pair_read ErrorValue.dns_error (shift 8 m) (Abi.option Abi.slice) (Abi.option Abi.u16)
          (option_string m 8 12) (option_u16 m 20 22) (string_read (shift 8 m))
          (u16_read (shift 12 (shift 8 m)))
      ▹ refl
      ▹ refl
      ▹ refl
      ▹ refl
      ▹ refl
      ▹ refl
      ▹ refl
      ▹ refl
      ▹ refl
      ▹ refl
      ▹ refl
      ▹ refl
      ▹ l

  request-Lifts :
      Lifts (shift 8 m) 25 ws vs cs
      → Lifts
          (shift 8 m)
          14
          (take 11 (drop 14 error_wits) ++ ws)
          (take 11 (drop 14 views) ++ vs)
          (request_cases m ++ cs)
  unfolding request_cases lift_tls_alert_received lift_option_field_size lift_field_size
  request-Lifts l =
      pair_read ErrorValue.tls_alert_received (shift 8 m) (Abi.option Abi.u8) (Abi.option Abi.slice)
        (option_u8 m 8 9) (option_string m 12 16) (u8_read (shift 8 m))
        (string_read (shift 4 (shift 8 m)))
      ▹ refl
      ▹ refl
      ▹ under ErrorValue.http_request_body_size (shift 8 m) (Abi.option Abi.u64)
          (u64_read (shift 8 m))
      ▹ refl
      ▹ refl
      ▹ refl
      ▹ under ErrorValue.http_request_header_section_size (shift 8 m) (Abi.option Abi.u32)
          (u32_read (shift 8 m))
      ▹ under ErrorValue.http_request_header_size (shift 8 m) (Abi.option field_size) (
          option_read view_field_size (load_u8 m 8) field_size (shift 4 (shift 8 m))
            (record { field_name = option_string m 12 16; field_size = option_u32 m 24 28 })
            (size_read (shift 4 (shift 8 m))))
      ▹ under ErrorValue.http_request_trailer_section_size (shift 8 m) (Abi.option Abi.u32)
          (u32_read (shift 8 m))
      ▹ under ErrorValue.http_request_trailer_size (shift 8 m) field_size (size_read (shift 8 m))
      ▹ l

  response-Lifts :
      Lifts (shift 8 m) 39 ws vs cs
      → Lifts
          (shift 8 m)
          25
          (drop 25 error_wits ++ ws)
          (drop 25 views ++ vs)
          (response_cases m ++ cs)
  unfolding response_cases lift_field_size
  response-Lifts l =
      refl
      ▹ under ErrorValue.http_response_header_section_size (shift 8 m) (Abi.option Abi.u32)
          (u32_read (shift 8 m))
      ▹ under ErrorValue.http_response_header_size (shift 8 m) field_size (size_read (shift 8 m))
      ▹ under ErrorValue.http_response_body_size (shift 8 m) (Abi.option Abi.u64)
          (u64_read (shift 8 m))
      ▹ under ErrorValue.http_response_trailer_section_size (shift 8 m) (Abi.option Abi.u32)
          (u32_read (shift 8 m))
      ▹ under ErrorValue.http_response_trailer_size (shift 8 m) field_size (size_read (shift 8 m))
      ▹ under ErrorValue.http_response_transfer_coding (shift 8 m) (Abi.option Abi.slice)
          (string_read (shift 8 m))
      ▹ under ErrorValue.http_response_content_coding (shift 8 m) (Abi.option Abi.slice)
          (string_read (shift 8 m))
      ▹ refl
      ▹ refl
      ▹ refl
      ▹ refl
      ▹ refl
      ▹ under ErrorValue.internal_error (shift 8 m) (Abi.option Abi.slice) (string_read (shift 8 m))
      ▹ l

-- On every memory, the switch over the 39 error codes sets a variable that stands for the value that
-- the canonical ABI reads there: the same case, with the same payload. Where the ABI traps, on a tag
-- of 39 or more or an option's tag of 2 or more, a variable that the value needs is left unset.
pub lift_error_code-read : (m : Memory) → error_code.read m ≡ view_error (lift_error_code m)
unfolding lift_error_code connection_cases request_cases response_cases
lift_error_code-read m =
    Lifts-switch (shift 8 m) Payload.uninit 0 (load_u8 m 0) (load_u8 m 0) (omega arith)
      (connection-Lifts m (request-Lifts m (response-Lifts m Lifts.nil)))
