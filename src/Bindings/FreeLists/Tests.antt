-- ===== src/Bindings/FreeLists/Tests.antt =====
-- The freeing of two header fields by duckdb-httpfs-wasi/http_client.c.
use particle_python_wheels.Prelude.{ℕ, ◌+◌, zero, suc}
use particle_python_wheels.Bindings.Memory.{Slice}
use particle_python_wheels.Bindings.FreeLists.{
  Entry, list_tuple2_field_key_field_value_free, list_field_value_free,
}
use particle_python_wheels.Bindings.FreeLists.Blocks.{
  ListFreed, entry_blocks, emptied_key, block, list_free-blocks,
}

abbrev two : Slice
two = record { ptr = 64; len = 2 }

-- Keys of three bytes; the second value is empty.
abbrev values : ℕ → Slice
values zero = record { ptr = 16; len = 5 }
values (suc i) = record { ptr = 24; len = 0 }

abbrev entries : ℕ → Entry
entries i = record { f0 = record { ptr = 32 + i; len = 3 }; f1 = values i }

list_free-blocks_example :
    ListFreed entry_blocks emptied_key two entries
      (list_tuple2_field_key_field_value_free two entries)
    × ListFreed block (λ s. s) two values (list_field_value_free two values)
list_free-blocks_example = list_free-blocks two entries values
