-- ===== src/Bindings/ErrorCode/Parts.antt =====
-- Parts of wasi_http_types_static_response_outparam_set of duckdb-httpfs-wasi/http_client.c: the payloads of
-- an error code as the numbers in which they are passed. Numbers of type int32_t, size_t and pointers
-- are below 2 ^ 32, those of type int64_t below 2 ^ 64, negative ones as the two's complement. Nothing
-- stands where the code reads a variable that was not assigned.
use particle_python_wheels.Prelude.{ℕ, ◌+◌, ◌-◌, ◌^◌, Option, some, none, ltb, if◌then◌else◌}
use particle_python_wheels.Bindings.Memory.{Slice, Optional, unset, absent, present}
use particle_python_wheels.Bindings.Abi.{bind}
use particle_python_wheels.Bindings.ErrorCode.{
  DnsErrorPayload, TlsAlertReceivedPayload, FieldSizePayload,
}

-- The variables that the switch over the error's tag assigns.
pub record Numbers : Type 0 where
  pub variant : ℕ
  pub variant140 : ℕ
  pub variant141 : ℕ
  pub variant142 : ℕ
  pub variant143 : ℕ
  pub variant144 : ℕ
  pub variant145 : ℕ

-- (int64_t) of an int32_t; that of a pointer changes nothing.
unfoldable pub extend : ℕ → ℕ
extend x = if ltb x (2 ^ 31) then x else x + (2 ^ 64 - 2 ^ 32)

-- The variables for an optional string, its `option`, address and length.
pub record StringNumbers : Type 0 where
  pub option : ℕ
  pub ptr : ℕ
  pub len : ℕ

pub record NumberNumbers : Type 0 where
  pub option : ℕ
  pub val : ℕ

unfoldable pub lower_string : Optional Slice → Option StringNumbers
lower_string unset = none
lower_string absent = some (record { option = 0; ptr = 0; len = 0 })
lower_string (present s) = some (record { option = 1; ptr = s.ptr; len = s.len })

unfoldable pub lower_number : Optional ℕ → Option NumberNumbers
lower_number unset = none
lower_number absent = some (record { option = 0; val = 0 })
lower_number (present n) = some (record { option = 1; val = n })

abbrev pub plain : ℕ → Option Numbers
plain tag = some (record {
  variant = tag;
  variant140 = 0;
  variant141 = 0;
  variant142 = 0;
  variant143 = 0;
  variant144 = 0;
  variant145 = 0;
})

unfoldable pub lower_dns_error : DnsErrorPayload → Option Numbers
unfolding lower_string lower_number
lower_dns_error r = bind (lower_string r.rcode) (λ x. bind (lower_number r.info_code) (λ y.
    some (record {
      variant = 1;
      variant140 = x.option;
      variant141 = x.ptr;
      variant142 = x.len;
      variant143 = y.option;
      variant144 = y.val;
      variant145 = 0;
    })))

unfoldable pub lower_tls_alert_received : TlsAlertReceivedPayload → Option Numbers
unfolding lower_string lower_number extend
lower_tls_alert_received r = bind (lower_number r.alert_id) (λ x.
    bind (lower_string r.alert_message) (λ y. some (record {
      variant = 14;
      variant140 = x.option;
      variant141 = extend x.val;
      variant142 = y.option;
      variant143 = y.ptr;
      variant144 = y.len;
      variant145 = 0;
    })))

-- Cases 17 and 28: the number is an int64_t as it is.
unfoldable pub lower_u64 : ℕ → Optional ℕ → Option Numbers
unfolding lower_number
lower_u64 tag n = bind (lower_number n) (λ x. some (record {
  variant = tag;
  variant140 = x.option;
  variant141 = x.val;
  variant142 = 0;
  variant143 = 0;
  variant144 = 0;
  variant145 = 0;
}))

-- Cases 21, 23, 26 and 29.
unfoldable pub lower_u32 : ℕ → Optional ℕ → Option Numbers
unfolding lower_number extend
lower_u32 tag n = bind (lower_number n) (λ x. some (record {
  variant = tag;
  variant140 = x.option;
  variant141 = extend x.val;
  variant142 = 0;
  variant143 = 0;
  variant144 = 0;
  variant145 = 0;
}))

-- Cases 24, 27 and 30.
unfoldable pub lower_field_size : ℕ → FieldSizePayload → Option Numbers
unfolding lower_string lower_number
lower_field_size tag r = bind (lower_string r.field_name) (λ x.
    bind (lower_number r.field_size) (λ y. some (record {
      variant = tag;
      variant140 = x.option;
      variant141 = x.ptr;
      variant142 = x.len;
      variant143 = y.option;
      variant144 = y.val;
      variant145 = 0;
    })))

-- Case 22.
unfoldable pub lower_option_field_size : Optional FieldSizePayload → Option Numbers
unfolding lower_string lower_number extend
lower_option_field_size unset = none
lower_option_field_size absent = plain 22
lower_option_field_size (present r) = bind (lower_string r.field_name) (λ x.
    bind (lower_number r.field_size) (λ y. some (record {
      variant = 22;
      variant140 = 1;
      variant141 = extend x.option;
      variant142 = x.ptr;
      variant143 = x.len;
      variant144 = y.option;
      variant145 = y.val;
    })))

-- Cases 31, 32 and 38.
unfoldable pub lower_option_string : ℕ → Optional Slice → Option Numbers
unfolding lower_string
lower_option_string tag s = bind (lower_string s) (λ x. some (record {
  variant = tag;
  variant140 = x.option;
  variant141 = x.ptr;
  variant142 = x.len;
  variant143 = 0;
  variant144 = 0;
  variant145 = 0;
}))
