-- ===== src/Tests/Export.antt =====
-- Exports of an offset table.
use pottracker.Prelude.{◌≡◌, refl, true, false, some, All, [], ◌∷◌, arith, string_dec, ℕ_discrete}
use pottracker.Prelude.Dict.{lookup}
use pottracker.Model.{RegisterType-discrete, h_geom, d_wear, x_geom, tip}
use pottracker.G10.{
  Text, Rows, G10Meta, codes, build_g10, banks_of, select_registers, unit_decimals,
}
use pottracker.G10.MillLines
use pottracker.G10.LatheLines
use pottracker.G10.LatheLines.{IsLatheRegister}
use pottracker.G10.RoundTrip.{
  ParsesBack, is_mill_bank, is_lathe_bank, parse_g10-build_g10_mill, parse_g10-build_g10_lathe,
}

abbrev upper : Text → Text
upper text = text

abbrev mill_rows : Rows
mill_rows =
    (7, (h_geom, record { negative = true; digits = 1234567; places = 4 }) ∷ [])
    ∷ (3, (d_wear, record { negative = false; digits = 5; places = 1 }) ∷ [])
    ∷ (4, (d_wear, record { negative = false; digits = 0; places = 1 }) ∷ [])
    ∷ []

abbrev mill_meta : G10Meta
mill_meta = record {
  machine_name = codes "VIPER";
  machine_class = "mill";
  unit = "mm";
  register_count = 400;
  sparse = true;
  generated_at = codes "2026-08-06";
  mirror_note = codes "MIRROR POLLED 42 SEC AGO";
  form_verified = false;
  program_number = 9999;
}

abbrev lathe_rows : Rows
lathe_rows =
    (
      2,
      (x_geom, record { negative = false; digits = 123456; places = 4 })
          ∷ (tip, record { negative = false; digits = 3; places = 0 })
          ∷ [],
    )
    ∷ []

abbrev lathe_meta : G10Meta
lathe_meta = record mill_meta {
  machine_class = "lathe";
  unit = "inch";
  register_count = 2;
  sparse = false;
}

sparse_registers : select_registers mill_rows true 400 ≡ 3 ∷ 7 ∷ []
unfolding select_registers
sparse_registers = refl

mm-unit_decimals : unit_decimals "mm" ≡ some 3
unfolding unit_decimals string_dec
mm-unit_decimals = refl

inch-unit_decimals : unit_decimals "inch" ≡ some 4
unfolding unit_decimals string_dec
inch-unit_decimals = refl

lathe_rows-IsLatheRegister :
    All (IsLatheRegister 3 lathe_rows) (select_registers lathe_rows false 2)
unfolding select_registers banks_of lookup ℕ_discrete RegisterType-discrete
lathe_rows-IsLatheRegister = (
  record { positive = omega arith; small = omega arith; tip_code = refl },
  (record { positive = omega arith; small = omega arith; tip_code = refl }, tt),
)

parse_g10-build_g10_mill_example :
    ParsesBack
      (build_g10 upper mill_rows mill_meta)
      (select_registers mill_rows true 400)
      is_mill_bank
      (MillLines.printed 2 mill_rows)
parse_g10-build_g10_mill_example =
    parse_g10-build_g10_mill upper mill_rows mill_meta 2 refl mm-unit_decimals

parse_g10-build_g10_lathe_example :
    ParsesBack
      (build_g10 upper lathe_rows lathe_meta)
      (select_registers lathe_rows false 2)
      is_lathe_bank
      (LatheLines.printed 3 lathe_rows)
parse_g10-build_g10_lathe_example =
    parse_g10-build_g10_lathe upper lathe_rows lathe_meta 3 refl inch-unit_decimals
      lathe_rows-IsLatheRegister
