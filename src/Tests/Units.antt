-- ===== src/Tests/Units.antt =====
-- The units of a control.
use pottracker.Prelude.{
  ℕ, zero, suc, ◌%◌, ◌≤◌, ◌↔◌, ◌≡◌, refl, some, true, false, [], ◌∷◌, string_dec, arith,
}
use pottracker.Decimal.{pos, negsuc}
use pottracker.Focas.Params.{
  Parameters, read, index_error, unsigned_byte, read_increment_system, IncrementSystem,
  increment_for, uniform,
}
use pottracker.Focas.Units.{read_increment_system-unit_decimals, unit_name}
use pottracker.G10.{unit_decimals}

-- Inch input on a metric machine: IS-B on the first axis, with bits above the system's, and IS-C on the
-- second.
abbrev inch_control : Parameters
inch_control = record {
  cnc_rdparam = λ number axis length. (pos 0, λ i. elim i [ zero ↦ negsuc 15 | suc _ ↦ pos 2 ]);
  cnc_rdset = λ number axis length. (pos 0, λ i. pos 4);
}

read_increment_system-unit_decimals_example :
    (s : IncrementSystem) × (p : ℕ) × (read_increment_system inch_control (pos 2) ≡ read s)
    × ((s.inch_input ≡ true) ↔ (4 ≤ 4 % 8))
    × (unit_decimals (unit_name s.inch_input) ≡ some p)
    × (s.increment ≡ record { negative = false; digits = 1; places = p })
unfolding unsigned_byte
read_increment_system-unit_decimals_example =
    read_increment_system-unit_decimals inch_control 2 (omega arith) (omega arith)
      (refl, refl, refl) refl

mixed_systems :
    (increment_for "IS-C" true ≡ some (record { negative = false; digits = 1; places = 5 }))
    × (uniform (record {
      inch_input = true;
      inch_machine = false;
      p1013_per_axis = 240 ∷ 2 ∷ [];
      is_system_per_axis = "IS-B" ∷ "IS-C" ∷ [];
      increment = record { negative = false; digits = 1; places = 4 };
    })
        ≡ false)
unfolding increment_for uniform string_dec
mixed_systems = (refl, refl)

no_axes : read_increment_system inch_control (pos 0) ≡ index_error
unfolding read_increment_system unsigned_byte
no_axes = refl
