-- ===== src/Decoders/Status.antt =====
-- From the raw status of the control to the mode lockout of the write path.
use pottracker.Prelude.{◌≡◌, ◌↔◌, ◌⊎◌, true, false, arith}
use pottracker.Decimal.{ℤ, pos, negsuc}
use pottracker.Decoders.{decode_status, at_least}
use pottracker.WriteSafety.{mode_lockout_ok}

-- The raw `aut` values of MDI, EDIT, HND, JOG and REF.
abbrev pub ManualAut : ℤ → Type 0
ManualAut aut = (aut ≡ pos 0) ⊎ (aut ≡ pos 3) ⊎ (aut ≡ pos 4) ⊎ (aut ≡ pos 5) ⊎ (aut ≡ pos 9)

-- The lockout lets a write pass exactly when the raw `run` is below 2 (no HOLD and no STRT) and the raw
-- `aut` is one of the five manual modes: no other value of the two, known or not, gets through.
pub mode_lockout_ok-decode_status :
    (aut run emergency : ℤ)
    → ((mode_lockout_ok (decode_status aut run emergency)).0 ≡ true)
      ↔ ((at_least 2 run ≡ false) × ManualAut aut)
unfolding mode_lockout_ok decode_status
mode_lockout_ok-decode_status (pos aut) run emergency = ground arith
mode_lockout_ok-decode_status (negsuc aut) run emergency = ground arith
