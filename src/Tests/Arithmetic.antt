-- ===== src/Tests/Arithmetic.antt =====
-- Runs of offset_math.py, write_safety.py and decoders.py.
use pottracker.Prelude.{
  ◌<◌, ◌≡◌, ◌≢◌, ◌↔◌, String, true, false, none, some, arith, ltb, string_dec, refl,
}
use pottracker.Decimal.{Decimal, ℤ, pos, negsuc}
use pottracker.Model.{mdi, mem, MachineStatus, MachineMode-discrete}
use pottracker.OffsetMath.{counts_from_mm, mm_from_counts, is_large_diff}
use pottracker.OffsetMath.Conversion.{counts_from_mm-mm_from_counts}
use pottracker.OffsetMath.Policy.{is_large_diff-mm_from_counts, distance}
use pottracker.WriteSafety.{
  authorize_write, mode_lockout_ok, is_ascii, verify_write_approval, authorize_past_mode,
}
use pottracker.WriteSafety.Gate.{IsManual, permits, authorize_write_iff}
use pottracker.Decoders.{decode_pot_bcd, decode_status, at_least}
use pottracker.Decoders.Pots.{decode_pot_bcd_iff, encode_bcd}
use pottracker.Decoders.Status.{mode_lockout_ok-decode_status, ManualAut}

-- -123.4567 mm.
abbrev minus_123 : ℤ
minus_123 = negsuc 1234566

-- 1.00005 mm, half a count above the grid.
abbrev off_grid : Decimal
off_grid = record { negative = false; digits = 100005; places = 5 }

abbrev idle_status : MachineStatus
idle_status = record {
  mode = mdi;
  running = false;
  emergency_stop = false;
  current_t_number = some 7;
  next_t_number = none;
  active_wcs = none;
  program_number = none;
  program_name = none;
}

abbrev automatic_status : MachineStatus
automatic_status = record idle_status { mode = mem }

counts_from_mm-mm_from_counts_example : counts_from_mm (mm_from_counts minus_123) ≡ minus_123
counts_from_mm-mm_from_counts_example = counts_from_mm-mm_from_counts minus_123

is_large_diff-mm_from_counts_example :
    is_large_diff (mm_from_counts (pos 100)) (mm_from_counts minus_123)
    ≡ ltb 5000 (distance (pos 100) minus_123)
is_large_diff-mm_from_counts_example = is_large_diff-mm_from_counts (pos 100) minus_123

authorize_write_iff_example :
    (permits (authorize_write idle_status false true "shop" "shop") ≡ true) ↔ (
      (false ≡ false)
      × (false ≡ false)
      × IsManual mdi
      × (true ≡ true)
      × (◌≢◌ {A = String} "shop" "")
      × (◌≡◌ {A = String} "shop" "shop")
      × (is_ascii "shop" ≡ true))
authorize_write_iff_example = authorize_write_iff idle_status false true "shop" "shop"

-- An attempt that is not ASCII is not refused: the gate raises.
raised : authorize_write idle_status false true "café" "shop" ≡ none
unfolding authorize_write authorize_past_mode mode_lockout_ok verify_write_approval is_ascii
    MachineMode-discrete string_dec
raised = refl

decode_pot_bcd_iff_example :
    (decode_pot_bcd 66 ≡ some 42) ↔ ((0 < 42) × (42 < 100) × (66 ≡ encode_bcd 42))
decode_pot_bcd_iff_example = decode_pot_bcd_iff 66 42 (omega arith)

mode_lockout_ok-decode_status_example :
    ((mode_lockout_ok (decode_status (pos 3) (pos 0) (pos 0))).0 ≡ true)
    ↔ ((at_least 2 (pos 0) ≡ false) × ManualAut (pos 3))
mode_lockout_ok-decode_status_example = mode_lockout_ok-decode_status (pos 3) (pos 0) (pos 0)
