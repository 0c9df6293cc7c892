-- ===== src/Tests/Poll.antt =====
-- Runs of snapshot.py: a preset of tool 1, seen with the touch of the probe.
use pottracker.Prelude.{
  ℕ, ◌≡◌, refl, true, false, none, some, [], ◌∷◌, ◌==◌, nat_eq, option_eq, ℕ_discrete, any_of,
  arith, ◌⊎◌, inr, ◌∙◌,
}
use pottracker.Prelude.Dict.{lookup}
use pottracker.Decimal.{Decimal, dec_eq, quantize}
use pottracker.Model.{
  RegisterKey, RegisterType-discrete, RegisterKey-discrete, h_geom, register_key_eq, OffsetRegister,
  MacroVariable, g54, x, mem, MachineStatus, MachineSnapshot,
}
use pottracker.OffsetWrite.Defs.{numeric_10_4}
use pottracker.Mirror.Rows.{
  Tracked, Mirror, WorkKey, work_key_eq, life_eq, presetter_verified, manual_edit,
}
use pottracker.Mirror.Diff.{offset_domain, pot_domain, same_nullable, load}
use pottracker.Mirror.Domains.{macro_domain, work_domain, life_domain}
use pottracker.Mirror.Persist.{persist, presetter_active, is_touched}
use pottracker.Mirror.Loop.{seen, Unique, keyed, mapped}
use pottracker.Mirror.Observed.{IsSweep, refreshed, refreshed_life, life_row, persist-refreshed}
use pottracker.Mirror.NewRows.{new_rows, is_offset, is_pot, is_macro, is_work, is_tool}
use pottracker.Mirror.Logged.{persist-Logs, differs}
use pottracker.Mirror.Repeat.{persist-idempotent, IsFourPlaces}
use pottracker.Mirror.Attribution.{presetter_active-persist, is_tagged}
use pottracker.Mirror.Credit.{Fires, IsQuiet, persist-credits}
use pottracker.Mirror.Status.{persist_all, last_real, Remembers, persist_all-Remembers}

abbrev mm : ℕ → Decimal
mm digits = record { negative = false; digits = digits; places = 4 }

abbrev status : MachineStatus
status = record {
  mode = mem;
  running = true;
  emergency_stop = false;
  current_t_number = some 102;
  next_t_number = none;
  active_wcs = none;
  program_number = none;
  program_name = none;
}

abbrev new_length : OffsetRegister
new_length = record { register_number = 1; register_type = h_geom; value_mm = mm 40818 }

abbrev touch : MacroVariable
touch = record { number = 5061; value = some (mm 70000) }

abbrev snapshot : MachineSnapshot
snapshot = record {
  machine_id = "viper";
  polled_at = 20;
  status = status;
  offsets = new_length ∷ [];
  pots =
      (record { pot_number = 1; t_number = some 1 })
      ∷ (record { pot_number = 2; t_number = none })
      ∷ [];
  tool_life =
      (record { t_number = 9; life_count = some 3; life_max = some 50; status = none }) ∷ [];
  macros = touch ∷ [];
  work_offsets = (record { slot = g54; axis = x; value = mm 5 }) ∷ [];
}

-- The same readings, ten later, after the tool was cancelled.
abbrev cancelled : MachineSnapshot
cancelled = record snapshot {
  polled_at = 30;
  status = record status { current_t_number = some 100 };
}

abbrev old_length : Tracked Decimal
old_length = record { value = mm 0; last_polled_at = 10; last_changed_at = 4 }

abbrev mirror : Mirror
mirror = record {
  offsets = ((1, h_geom), old_length) ∷ [];
  pots = (1, record { value = some 31; last_polled_at = 10; last_changed_at = 2 }) ∷ [];
  macros =
      (5061, record { value = some (mm 50000); last_polled_at = 10; last_changed_at = 2 }) ∷ [];
  tool_life = [];
  status = none;
  work_offsets = [];
  audit = [];
}

sweep : IsSweep snapshot
unfolding Unique seen keyed lookup ℕ_discrete
sweep = record {
  unique_offsets = (refl, tt);
  unique_pots = (refl, (refl, tt));
  unique_macros = (refl, tt);
  unique_work_offsets = (refl, tt);
  unique_tool_life = (refl, tt);
}

four_places : IsFourPlaces snapshot
four_places = ((omega arith, tt), (omega arith, tt))

touch-seen : seen macro_domain.key 5061 snapshot.macros ≡ some touch
unfolding seen keyed lookup ℕ_discrete
touch-seen = refl

touch_moved : is_touched (load macro_domain mirror.macros) touch ≡ true
unfolding load lookup ℕ_discrete dec_eq
touch_moved = refl

length-seen : seen (offset_domain false).key (1, h_geom) snapshot.offsets ≡ some new_length
unfolding seen keyed lookup ℕ_discrete RegisterKey-discrete RegisterType-discrete
length-seen = refl

length_stored : lookup (1, h_geom) mirror.offsets ≡ some old_length
unfolding lookup ℕ_discrete RegisterKey-discrete RegisterType-discrete
length_stored = refl

length_differs : dec_eq old_length.value new_length.value_mm ≡ false
unfolding dec_eq
length_differs = refl

persist-refreshed_example :
    ((k : RegisterKey)
      → lookup k (persist snapshot mirror).1.offsets
        ≡ refreshed dec_eq 20
            (mapped
              (λ off. numeric_10_4 off.value_mm)
              (seen (offset_domain false).key k snapshot.offsets))
            (lookup k mirror.offsets))
    × ((k : ℕ)
        → lookup k (persist snapshot mirror).1.pots
          ≡ refreshed
              (λ a b. a == b)
              20
              (mapped (λ p. p.t_number) (seen pot_domain.key k snapshot.pots))
              (lookup k mirror.pots))
    × ((k : ℕ)
        → lookup k (persist snapshot mirror).1.macros
          ≡ refreshed same_nullable 20
              (mapped (λ v. v.value) (seen macro_domain.key k snapshot.macros))
              (lookup k mirror.macros))
    × ((k : WorkKey)
        → lookup k (persist snapshot mirror).1.work_offsets
          ≡ refreshed dec_eq 20
              (mapped (λ w. numeric_10_4 w.value) (seen work_domain.key k snapshot.work_offsets))
              (lookup k mirror.work_offsets))
    × ((k : ℕ)
        → lookup k (persist snapshot mirror).1.tool_life
          ≡ refreshed_life
              (mapped (λ tl. life_row tl 20) (seen life_domain.key k snapshot.tool_life))
              (lookup k mirror.tool_life))
persist-refreshed_example = persist-refreshed snapshot mirror sweep

persist-Logs_example :
    ((k : RegisterKey)
      → any_of (is_offset k) (new_rows snapshot mirror)
        ≡ differs dec_eq
            (mapped (λ r. r.value) (lookup k mirror.offsets))
            (mapped (λ off. off.value_mm) (seen (offset_domain false).key k snapshot.offsets)))
    × ((k : ℕ)
        → any_of (is_pot k) (new_rows snapshot mirror)
          ≡ differs
              (λ a b. a == b)
              (mapped (λ r. r.value) (lookup k mirror.pots))
              (mapped (λ p. p.t_number) (seen pot_domain.key k snapshot.pots)))
    × ((k : ℕ)
        → any_of (is_macro k) (new_rows snapshot mirror)
          ≡ differs same_nullable
              (mapped (λ r. r.value) (lookup k mirror.macros))
              (mapped (λ v. v.value) (seen macro_domain.key k snapshot.macros)))
    × ((k : WorkKey)
        → any_of (is_work k) (new_rows snapshot mirror)
          ≡ differs dec_eq
              (mapped (λ r. r.value) (lookup k mirror.work_offsets))
              (mapped (λ w. w.value) (seen work_domain.key k snapshot.work_offsets)))
    × ((k : ℕ)
        → any_of (is_tool k) (new_rows snapshot mirror)
          ≡ differs
              (λ a b. a == b)
              (mapped (λ r. r.life) (lookup k mirror.tool_life))
              (mapped life_domain.value_of (seen life_domain.key k snapshot.tool_life)))
persist-Logs_example = persist-Logs snapshot mirror sweep

persist-idempotent_example :
    (persist (record snapshot { polled_at = 30 }) (persist snapshot mirror).1).1.audit
    ≡ (persist snapshot mirror).1.audit
persist-idempotent_example = persist-idempotent snapshot mirror 30 sweep four_places

-- The sweep after the touch reads the length that the presetter has set meanwhile.
abbrev measured : OffsetRegister
measured = record { register_number = 1; register_type = h_geom; value_mm = mm 41000 }

abbrev next_sweep : MachineSnapshot
next_sweep = record cancelled { offsets = measured ∷ [] }

abbrev kept_length : Tracked Decimal
kept_length = record { value = mm 40818; last_polled_at = 20; last_changed_at = 20 }

measured-seen : seen (offset_domain false).key (1, h_geom) next_sweep.offsets ≡ some measured
unfolding seen keyed lookup ℕ_discrete RegisterKey-discrete RegisterType-discrete
measured-seen = refl

length_kept : lookup (1, h_geom) (persist snapshot mirror).1.offsets ≡ some kept_length
unfolding lookup seen keyed ℕ_discrete RegisterKey-discrete RegisterType-discrete dec_eq quantize
length_kept = (persist-refreshed snapshot mirror sweep).0 (1, h_geom) ∙ refl

touched : Fires snapshot mirror
unfolding dec_eq lookup ℕ_discrete
touched = record {
  number = 5061;
  skip = (omega arith, omega arith);
  reading = touch;
  observed = touch-seen;
  old = record { value = some (mm 50000); last_polled_at = 10; last_changed_at = 2 };
  stored = refl;
  moved = refl;
}

persist-credits_example :
    (Fires next_sweep (persist snapshot mirror).1 ⊎ Fires snapshot mirror
      → any_of
          (is_tagged (1, h_geom) presetter_verified)
          (new_rows next_sweep (persist snapshot mirror).1)
        ≡ true)
    × (IsQuiet next_sweep (persist snapshot mirror).1
        → any_of
            (is_tagged (1, h_geom) manual_edit)
            (new_rows next_sweep (persist snapshot mirror).1)
          ≡ true)
unfolding dec_eq
persist-credits_example =
    persist-credits snapshot next_sweep mirror 1 measured kept_length sweep measured-seen
      length_kept refl

credited :
    any_of
      (is_tagged (1, h_geom) presetter_verified)
      (new_rows next_sweep (persist snapshot mirror).1)
    ≡ true
credited = persist-credits_example.0 (inr touched)

presetter_active-persist_example : presetter_active cancelled (persist snapshot mirror).1 ≡ true
presetter_active-persist_example =
    presetter_active-persist snapshot mirror sweep 5061 touch touch-seen touch_moved cancelled

persist_all-Remembers_example :
    Remembers
      (persist_all (snapshot ∷ cancelled ∷ []) mirror).status
      (last_real (snapshot ∷ cancelled ∷ []) none)
persist_all-Remembers_example = persist_all-Remembers (snapshot ∷ cancelled ∷ []) mirror none refl
