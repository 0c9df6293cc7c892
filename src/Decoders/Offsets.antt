-- ===== src/Decoders/Offsets.antt =====
-- The type codes of a read against those of a write, and the value of an offset read.
use pottracker.Prelude.{ℕ, ◌≡◌, ◌≢◌, ◌↔◌, none, some, arith}
use pottracker.Decimal.{ℤ, pos, negsuc}
use pottracker.Model.{RegisterType, d_wear}
use pottracker.OffsetMath.{
  register_type_to_code, offset_increment_mm, mm_from_counts, counts_from_mm,
}
use pottracker.OffsetMath.Conversion.{counts_from_mm-mm_from_counts}
use pottracker.Decoders.{offset_type_map_memory_b, decode_offset}

-- The code under which a type is written is the one under which the Memory-B map reads it, for every
-- type that has a code but D_WEAR, which is written as 4 where no code 4 is read.
write_code-read_map :
    (r : RegisterType) (code : ℕ)
    → register_type_to_code r ≡ some code
    → ((offset_type_map_memory_b code ≡ some r) ↔ (r ≢ d_wear))
      × ((offset_type_map_memory_b code ≡ none) ↔ (r ≡ d_wear))
      × ((code ≡ 4) ↔ (r ≡ d_wear))
unfolding register_type_to_code offset_type_map_memory_b
write_code-read_map r code h = ground arith

decode_offset-mm_from_counts :
    (n : ℕ) (raw : ℤ) (r : RegisterType)
    → (decode_offset n raw r offset_increment_mm).value_mm ≡ mm_from_counts raw
unfolding decode_offset mm_from_counts
decode_offset-mm_from_counts n (pos m) r = ground arith
decode_offset-mm_from_counts n (negsuc m) r = ground arith

-- Reading raw counts at the default increment gives the value whose counts they are.
pub counts_from_mm-decode_offset :
    (n : ℕ) (raw : ℤ) (r : RegisterType)
    → counts_from_mm (decode_offset n raw r offset_increment_mm).value_mm ≡ raw
counts_from_mm-decode_offset n raw r =
    rw (decode_offset-mm_from_counts n raw r) (counts_from_mm-mm_from_counts raw)
