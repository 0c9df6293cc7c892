-- ===== src/Focas/Library.antt =====
-- The control's library, a parameter: what its calls return, as the program's reads use them. A sweep
-- makes no call twice with the same arguments, so a function of them says all that a sweep can meet.
use pottracker.Prelude.{ℕ, String, List}
use pottracker.Decimal.{ℤ}

-- A call that stores one integer: its return code and the integer.
abbrev pub Stored : Type 0
Stored = ℤ × ℤ

pub record Library : Type 0 where
  -- type and identity texts of `cnc_sysinfo`: cnc_type, mt_type and series, after `strip`
  pub cnc_sysinfo : ℤ × String × String × String
  -- `aut`, `run` and `emergency`
  pub cnc_statinfo : ℤ × ℤ × ℤ × ℤ
  -- `ofs_type` and `use_no`
  pub cnc_rdtofsinfo : ℤ × ℤ × ℤ
  -- by register number and type code: `datano` and `data`
  pub cnc_rdtofs : ℕ → ℕ → ℤ × ℤ × ℤ
  -- by area and address: the byte
  pub pmc_rdpmcrng : ℕ → ℕ → ℤ × ℕ
  -- by the size of the table: the `pot` and `tool_index` of the entries that were stored
  pub cnc_rdmagazine : ℕ → ℤ × List (ℕ × ℤ)
  pub cnc_rdngrp : Stored
  pub cnc_rdgrpid : ℕ → Stored
  -- by group and slot: `tool_num`
  pub cnc_rd1tlifedata : ℤ → ℕ → Stored
  -- the entries are not modelled
  pub cnc_rdalmmsg2 : ℤ
  -- by variable: `mcr_val` and `dec_val`
  pub cnc_rdmacro : ℕ → ℤ × ℤ × ℤ
  pub cnc_exeprgname : Stored
  -- the block text, decoded
  pub cnc_rdexecprog : ℤ × String
  -- by slot: the data of the first two axes
  pub cnc_rdzofs : ℕ → ℤ × ℤ × ℤ
  pub cnc_rdwkcdshft : ℤ × ℤ × ℤ
  -- how many were stored, and the code of the first, decoded
  pub cnc_rdgcode : ℤ × ℤ × String
  -- the address letter and the value of each commanded word that was stored
  pub cnc_rdcommand : ℤ × List (ℕ × ℤ)
