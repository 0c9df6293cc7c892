-- ===== src/Focas.antt =====
-- shared/focas/errors.py. What the control's library returns is a parameter of the models below.
use pottracker.Prelude.{ℕ, zero, suc, ◌-◌, String, List, [], ◌∷◌, ◌++◌, length}
use pottracker.Decimal.{ℤ, pos, negsuc}
pub mod Client
pub mod Lathe
pub mod LatheSnapshot
pub mod Library
pub mod Params
pub mod Programs
pub mod Reads
pub mod Shown
pub mod Snapshot
pub mod Swept
pub mod Sweep
pub mod Tools
pub mod Units

-- `_KNOWN_CODES` is empty, so every code that is not zero raises `FocasError` itself. `context` names the
-- call.
pub record FocasError : Type 0 where
  pub code : ℤ
  pub context : String

pub data Raised : Type 0 where
  passed : Raised
  raised : FocasError → Raised

unfoldable pub raise_for_code : ℤ → String → Raised
raise_for_code (pos zero) context = passed
raise_for_code code context = raised (record { code = code; context = context })
