-- ===== src/WriteSafety.antt =====
-- apps/tooling/api/services/write_safety.py: the gate that every offset write passes.
-- `secrets.compare_digest` raises a TypeError on a text that is not ASCII; else its answer is equality.
use Prim.Native.Char.{code}
pub mod Gate
use pottracker.Prelude.{
  String, Bool, true, false, not, ◌&&◌, Option, none, some, ltb, List, [], ◌∷◌, any_of,
  if◌then◌else◌, ◌==◌, string_eq,
}
use pottracker.Model.{
  MachineMode, MachineStatus, mdi, edit, hnd, jog, ref, machine_mode_eq, MachineMode-discrete,
}

abbrev write_safe_modes : List MachineMode
write_safe_modes = mdi ∷ edit ∷ hnd ∷ jog ∷ ref ∷ []

-- The REASON_ constants, and the empty text of a pass.
pub data Reason : Type 0 where
  no_reason reason_probe reason_running reason_mode reason_no_ask reason_bad_password : Reason

pub record WriteAuthorization : Type 0 where
  pub permitted : Bool
  pub reason : Reason

unfoldable pub mode_lockout_ok : MachineStatus → Bool × Reason
unfolding MachineMode-discrete
mode_lockout_ok status =
    if status.running
    then (false, reason_running)
    else if not (any_of (λ m. status.mode == m) write_safe_modes)
    then (false, reason_mode)
    else (true, no_reason)

unfoldable pub is_ascii : String → Bool
is_ascii String.[] = true
is_ascii (String.◌∷◌ c s) = let rest = is_ascii s in ltb (code c) 128 && rest

-- Nothing where the comparison raises its TypeError.
unfoldable pub verify_write_approval : String → String → Option Bool
verify_write_approval password_attempt configured =
    if configured == ""
    then some false
    else if is_ascii password_attempt && is_ascii configured
    then some (password_attempt == configured)
    else none

abbrev authorize_verified : Option Bool → Option WriteAuthorization
authorize_verified none = none
authorize_verified (some false) = some (record { permitted = false; reason = reason_bad_password })
authorize_verified (some true) = some (record { permitted = true; reason = no_reason })

unfoldable pub authorize_past_mode : Bool × Reason → Bool → Option Bool → Option WriteAuthorization
authorize_past_mode (false, mode_reason) approved verified =
    some (record { permitted = false; reason = mode_reason })
authorize_past_mode (true, _) approved verified =
    if not approved
    then some (record { permitted = false; reason = reason_no_ask })
    else authorize_verified verified

-- Nothing where the TypeError leaves the gate.
unfoldable pub authorize_write :
    MachineStatus → Bool → Bool → String → String → Option WriteAuthorization
unfolding authorize_past_mode
authorize_write status is_probe_target approved password_attempt configured =
    if is_probe_target
    then some (record { permitted = false; reason = reason_probe })
    else authorize_past_mode (mode_lockout_ok status) approved
        (verify_write_approval password_attempt configured)
