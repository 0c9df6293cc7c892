-- ===== src/Focas/Client.antt =====
-- shared/focas/client.py: the status, the check of the control's identity and the whole snapshot. The
-- library and its handle are parameters, so connecting and closing are not modelled.
use pottracker.Prelude.{
  ℕ, zero, suc, String, Bool, true, false, ◌&&◌, not, Option, none, some, [], ◌==◌, string_eq,
}
use pottracker.Decimal.{pos}
use pottracker.Model.{MachineStatus, MachineSnapshot}
use pottracker.Decoders.{decode_status}
use pottracker.Focas.{FocasError, raise_for_code}
use pottracker.Focas.Library.{Library}
use pottracker.Focas.Reads.{
  Client, Answer, returned, failed, guarded, ◌>>=◌, read_pmc_byte, read_offsets, read_pots_pmc,
  read_tool_life, read_macros, skip_macro_vars,
}

abbrev pub positive_byte : Option ℕ → Option ℕ
positive_byte none = none
positive_byte (some zero) = none
positive_byte (some (suc n)) = some (suc n)

-- `actual_series != expected_series`, when one is expected.
abbrev pub series_differs : Option String → String → Bool
series_differs none actual = false
series_differs (some expected) actual = not (actual == expected)

abbrev pub ask : Bool → FocasError → Answer (Unit {0})
ask true e = failed e
ask false e = returned tt

module _ (lib : Library) where
  -- The identity: cnc_type, mt_type and series.
  pub read_sysinfo : Answer (String × String × String)
  unfolding raise_for_code
  read_sysinfo =
      let (rc, cnc_type, mt_type, series) = lib.cnc_sysinfo in
      guarded (raise_for_code rc "cnc_sysinfo") (cnc_type, mt_type, series)

  abbrev pub is_expected : String → String → Option String → String × String × String → Bool
  is_expected expected_cnc_type expected_mt_type expected_series info =
      let (cnc_type, mt_type, series) = info in
      (cnc_type == expected_cnc_type)
      && (mt_type == expected_mt_type)
      && not (series_differs expected_series series)

  unfoldable pub assert_expected_control :
      String → String → Option String → Answer (String × String × String)
  unfolding read_sysinfo
  assert_expected_control expected_cnc_type expected_mt_type expected_series = do
    info ← read_sysinfo
    _ ←
        ask (not (is_expected expected_cnc_type expected_mt_type expected_series info))
          (record { code = pos 0; context = "assert_expected_control" })
    returned info

  abbrev pub read_active_tools : Option ℕ × Option ℕ
  read_active_tools =
      (positive_byte (read_pmc_byte lib 5 327), positive_byte (read_pmc_byte lib 5 325))

  unfoldable pub read_status : Answer MachineStatus
  unfolding raise_for_code
  read_status =
      let (rc, aut, run, emergency) = lib.cnc_statinfo in
      let (head, next_t) = read_active_tools in
      guarded (raise_for_code rc "cnc_statinfo") (record (decode_status aut run emergency) {
        current_t_number = head;
        next_t_number = next_t;
      })

  abbrev pub alarms_read : Answer (Unit {0})
  alarms_read = guarded (raise_for_code lib.cnc_rdalmmsg2 "cnc_rdalmmsg2") tt

  -- The mill's snapshot has no work offsets.
  abbrev pub assembled : String → ℕ → Client → Answer (Client × MachineSnapshot)
  assembled machine_id polled_at client = do
    status ← read_status
    read ← read_offsets lib client
    _ ← alarms_read
    returned (
      read.0,
      (record {
        machine_id = machine_id;
        polled_at = polled_at;
        status = status;
        offsets = read.1;
        pots = read_pots_pmc lib read.0;
        tool_life = read_tool_life lib;
        macros = read_macros lib skip_macro_vars;
        work_offsets = [];
      }),
    )

  abbrev pub identified : Option String → ℕ → Client → Answer (Client × MachineSnapshot)
  identified none polled_at client = failed (record { code = pos 0; context = "read_snapshot" })
  identified (some machine_id) polled_at client = assembled machine_id polled_at client

  unfoldable pub read_snapshot : ℕ → Client → Answer (Client × MachineSnapshot)
  unfolding read_status raise_for_code
  read_snapshot polled_at client = identified client.machine_id polled_at client
