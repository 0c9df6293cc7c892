-- ===== src/OffsetWrite/Mock.antt =====
-- shared/focas/mock.py: the write target in memory, with its two faults.
use pottracker.Prelude.{
  ℕ, ◌≤◌, ◌≡◌, Bool, true, false, none, some, List, [], ◌∷◌, ◌++◌, arith, if◌then◌else◌, ◌==◌,
  ==_refl,
}
use pottracker.Prelude.Dict.{Dict, lookup, insert, lookup-insert}
use pottracker.Decimal.{Decimal, dec_eq, dec_add, quantize, half_even}
use pottracker.Model.{RegisterType, RegisterKey, register_key_eq}
use pottracker.OffsetWrite.Defs.{OffsetWriteTarget}

pub record MockOffsetWriter : Type 0 where
  pub values : Dict RegisterKey Decimal
  pub reject : Bool
  pub corrupt_delta_mm : Decimal
  pub writes : List (RegisterKey × Decimal)

abbrev pub zero_mm : Decimal
zero_mm = record { negative = false; digits = 0; places = 4 }

unfoldable pub read_offset : MockOffsetWriter → ℕ → RegisterType → Decimal
read_offset m register_number register_type =
    elim (lookup (register_number, register_type) m.values) [ none ↦ zero_mm | some v ↦ v ]

-- The commanded write is noted also when it is rejected.
pub write_offset : MockOffsetWriter → ℕ → RegisterType → Decimal → MockOffsetWriter × Bool
write_offset m register_number register_type value_mm =
    let noted = record m {
      writes = m.writes ++ ((register_number, register_type), value_mm) ∷ [];
    } in
    if m.reject then (noted, true) else (
      record noted {
        values =
            insert (register_number, register_type)
              (quantize half_even (dec_add value_mm m.corrupt_delta_mm) 4) m.values;
      },
      false,
    )

abbrev pub mock : OffsetWriteTarget MockOffsetWriter
mock = record { read_offset = read_offset; write_offset = write_offset }

-- What is read after a write that was not rejected: the stored value at that register, and at each other
-- register what was there.
pub read_offset-write_offset :
    (m : MockOffsetWriter) (n : ℕ) (r : RegisterType) (v : Decimal) (k : ℕ) (s : RegisterType)
    → m.reject ≡ false
    → read_offset (write_offset m n r v).0 k s ≡ (
        if ◌==◌ {A = RegisterKey} (k, s) (n, r)
        then quantize half_even (dec_add v m.corrupt_delta_mm) 4
        else read_offset m k s)
unfolding read_offset write_offset
read_offset-write_offset m n r v k s h = ground (
  arith,
  lookup-insert (k, s) (n, r) (quantize half_even (dec_add v m.corrupt_delta_mm) 4) m.values,
)

abbrev record_of : Bool → ℕ → ℕ → Decimal
record_of s d p = record { negative = s; digits = d; places = p }

grid_plus_zero_at :
    (s t : Bool) (d q : ℕ)
    → q ≤ 4
    → dec_eq (quantize half_even (dec_add (record_of s d 4) (record_of t 0 q)) 4) (record_of s d 4)
      ≡ true
unfolding dec_eq dec_add quantize
grid_plus_zero_at true true d q h = ground arith
grid_plus_zero_at true false d q h = ground arith
grid_plus_zero_at false true d q h = ground arith
grid_plus_zero_at false false d q h = ground arith

grid_plus_zero :
    (s t : Bool) (d p e q : ℕ)
    → p ≡ 4
    → e ≡ 0
    → q ≤ 4
    → let v = record_of s d p in
      dec_eq (quantize half_even (dec_add v (record_of t e q)) 4) v ≡ true
grid_plus_zero s t d p e q hp he hq = rw (hp, he) (grid_plus_zero_at s t d q hq)

-- Adding a zero and putting on the grid keeps a value of four places.
quantize-add_zero :
    (v z : Decimal)
    → v.places ≡ 4
    → z.digits ≡ 0
    → z.places ≤ 4
    → dec_eq (quantize half_even (dec_add v z) 4) v ≡ true
quantize-add_zero v z h e p =
    grid_plus_zero v.negative z.negative v.digits v.places z.digits z.places h e p

module _ (m : MockOffsetWriter) (n : ℕ) (r : RegisterType) (v : Decimal)
    (open_ : m.reject ≡ false) where
  pub write_offset_taken : (write_offset m n r v).1 ≡ false
  unfolding write_offset
  write_offset_taken = rw open_

  -- With no fault set, a value of four places is read back as it was written.
  pub write_offset_kept :
      m.corrupt_delta_mm.digits ≡ 0
      → m.corrupt_delta_mm.places ≤ 4
      → v.places ≡ 4
      → dec_eq (read_offset (write_offset m n r v).0 n r) v ≡ true
  write_offset_kept zero_digits grid places = rw (read_offset-write_offset m n r v n r open_) (
      rw (==_refl {A = RegisterKey} (n, r))
        (quantize-add_zero v m.corrupt_delta_mm places zero_digits grid))
