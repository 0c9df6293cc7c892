-- ===== src/WriteSafety/Gate.antt =====
-- When the gate of write_safety.py permits a write, and with which reason it refuses.
use pottracker.Prelude.{
  String, ◌&&◌, Option, none, some, string_eq, ◌≡◌, ◌≢◌, ◌↔◌, ◌⊎◌, Bool, true, false, arith,
}
use pottracker.Model.{MachineMode, MachineStatus, mdi, edit, hnd, jog, ref}
use pottracker.WriteSafety.{
  Reason, WriteAuthorization, is_ascii, mode_lockout_ok, authorize_past_mode, verify_write_approval,
  authorize_write,
}

abbrev pub IsManual : MachineMode → Type 0
IsManual m = (m ≡ mdi) ⊎ (m ≡ edit) ⊎ (m ≡ hnd) ⊎ (m ≡ jog) ⊎ (m ≡ ref)

pub mode_lockout_ok_iff :
    (s : MachineStatus) → ((mode_lockout_ok s).0 ≡ true) ↔ ((s.running ≡ false) × IsManual s.mode)
unfolding mode_lockout_ok
mode_lockout_ok_iff s = ground arith

abbrev pub permits : Option WriteAuthorization → Bool
permits none = false
permits (some auth) = auth.permitted

-- The configured password, which is not empty, compared with an attempt.
verify_write_approval_iff :
    (attempt configured : String)
    → (verify_write_approval attempt configured ≡ some true)
      ↔ ((configured ≢ "") × (attempt ≡ configured) × (is_ascii configured ≡ true))
unfolding verify_write_approval
verify_write_approval_iff attempt configured = ground arith

verify_write_approval_raises :
    (attempt configured : String)
    → (verify_write_approval attempt configured ≡ none)
      ↔ ((configured ≢ "") × ((is_ascii attempt && is_ascii configured) ≡ false))
unfolding verify_write_approval
verify_write_approval_raises attempt configured = ground arith

past_mode_iff :
    (ok : Bool × Reason) (approved : Bool) (verified : Option Bool)
    → (permits (authorize_past_mode ok approved verified) ≡ true)
      ↔ ((ok.0 ≡ true) × (approved ≡ true) × (verified ≡ some true))
unfolding authorize_past_mode
past_mode_iff (false, why) approved verified = ground arith
past_mode_iff (true, why) false verified = ground arith
past_mode_iff (true, why) true none = ground arith
past_mode_iff (true, why) true (some false) = ground arith
past_mode_iff (true, why) true (some true) = ground arith

past_mode_raises :
    (ok : Bool × Reason) (approved : Bool) (verified : Option Bool)
    → (authorize_past_mode ok approved verified ≡ none)
      ↔ ((ok.0 ≡ true) × (approved ≡ true) × (verified ≡ none))
unfolding authorize_past_mode
past_mode_raises (false, why) approved verified = ground arith
past_mode_raises (true, why) false verified = ground arith
past_mode_raises (true, why) true none = ground arith
past_mode_raises (true, why) true (some false) = ground arith
past_mode_raises (true, why) true (some true) = ground arith

-- A write is permitted exactly when the target is not the probe, the machine does not run and is in one of
-- MDI, EDIT, HND, JOG and REF, the approval was given, and the password is the configured one, which is
-- not empty and ASCII.
pub authorize_write_iff :
    (s : MachineStatus) (probe approved : Bool) (attempt configured : String)
    → (permits (authorize_write s probe approved attempt configured) ≡ true) ↔ (
        (probe ≡ false)
        × (s.running ≡ false)
        × IsManual s.mode
        × (approved ≡ true)
        × (configured ≢ "")
        × (attempt ≡ configured)
        × (is_ascii configured ≡ true))
unfolding authorize_write
authorize_write_iff s true approved attempt configured = ground arith
authorize_write_iff s false approved attempt configured = ground (
  arith,
  past_mode_iff (mode_lockout_ok s) approved (verify_write_approval attempt configured),
  mode_lockout_ok_iff s,
  verify_write_approval_iff attempt configured,
)

-- The gate raises a TypeError in place of an answer exactly when all walls before the password pass, a
-- password is configured, and it or the attempt is not ASCII.
pub authorize_write_raises :
    (s : MachineStatus) (probe approved : Bool) (attempt configured : String)
    → (authorize_write s probe approved attempt configured ≡ none) ↔ (
        (probe ≡ false)
        × (s.running ≡ false)
        × IsManual s.mode
        × (approved ≡ true)
        × (configured ≢ "")
        × ((is_ascii attempt && is_ascii configured) ≡ false))
unfolding authorize_write
authorize_write_raises s true approved attempt configured = ground arith
authorize_write_raises s false approved attempt configured = ground (
  arith,
  past_mode_raises (mode_lockout_ok s) approved (verify_write_approval attempt configured),
  mode_lockout_ok_iff s,
  verify_write_approval_raises attempt configured,
)
