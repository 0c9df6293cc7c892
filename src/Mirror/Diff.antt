-- ===== src/Mirror/Diff.antt =====
-- snapshot_diff.py: what a cycle writes and logs, given what is stored.
use pottracker.Prelude.{
  ℕ, Bool, true, false, not, ◌&&◌, Option, none, some, List, [], ◌∷◌, map, Eq, ◌==◌, if◌then◌else◌,
  leb, eqb, option_eq, nat_eq,
}
use pottracker.Prelude.Dict.{Dict, lookup}
use pottracker.Decimal.{Decimal, dec_eq}
use pottracker.Model.{
  RegisterType, RegisterType.h_geom, RegisterKey, OffsetRegister, PotEntry, register_type_eq,
  register_key_eq,
}
use pottracker.OffsetWrite.Defs.{numeric_10_4}
use pottracker.Mirror.Rows.{
  Tracked, offset_change, pot_move, offset, pot, Source, presetter_verified, manual_edit, value_mm,
  t_number, AuditRow, life_eq, work_key_eq,
}

pub record DomainDiff (K R : Type 0) : Type 0 where
  pub upsert_params : List (K × R)
  pub audits : List AuditRow

-- What one domain of the snapshot has of its own: an entry's key and value, the comparison of two
-- values, the row made of a value at a time and what a statement leaves of an old row, and the row
-- logged for an entry, given the stored value.
pub record Domain (E K V R : Type 0) : Type 0 where
  pub key : E → K
  pub value_of : E → V
  pub same : V → V → Bool
  pub row : V → ℕ → R
  pub stored : R → V
  pub update : R → R → R
  pub event : E → Option V → ℕ → AuditRow

module _ {E K V R : Type 0} ⦃e : Eq K⦄ (domain : Domain E K V R) where
  -- `old is None or old != new`.
  abbrev pub is_change : Option V → V → Bool
  is_change none new = true
  is_change (some old) new = not (domain.same old new)

  -- The dict of the stored values.
  unfoldable pub load : Dict K R → Dict K V
  load table = map (λ kr. (kr.0, domain.stored kr.1)) table

  -- The loop of each `diff_`.
  unfoldable pub diff : Dict K V → List E → ℕ → DomainDiff K R
  diff current [] polled_at = record { upsert_params = []; audits = [] }
  diff current (x ∷ incoming) polled_at =
      let rest = diff current incoming polled_at in
      let old = lookup (domain.key x) current in
      record {
        upsert_params =
            (domain.key x, domain.row (domain.value_of x) polled_at) ∷ rest.upsert_params;
        audits =
            if is_change old (domain.value_of x)
            then domain.event x old polled_at ∷ rest.audits
            else rest.audits;
      }

abbrev pub tracked_row : {V : Type 0} → (V → V) → V → ℕ → Tracked V
tracked_row column v t = record { value = column v; last_polled_at = t; last_changed_at = t }

-- The `set_` of a table with a last_changed_at.
abbrev pub advance : {V : Type 0} → (V → V → Bool) → Tracked V → Tracked V → Tracked V
advance same old excluded = record {
  value = excluded.value;
  last_polled_at = excluded.last_polled_at;
  last_changed_at =
      if not (same old.value excluded.value) then excluded.last_changed_at else old.last_changed_at;
}

abbrev pub same_nullable : Option Decimal → Option Decimal → Bool
same_nullable none none = true
same_nullable (some a) (some b) = dec_eq a b
same_nullable _ _ = false

abbrev is_edit : Option Decimal → Bool
is_edit none = false
is_edit (some _) = true

abbrev pub source_tag : Bool → RegisterType → Option Decimal → Option Source
source_tag presetter_active register_type old =
    if register_type == h_geom && is_edit old
    then some (if presetter_active then presetter_verified else manual_edit)
    else none

abbrev offset_event : Bool → OffsetRegister → Option Decimal → ℕ → AuditRow
offset_event presetter_active off old t = record {
  event_type = offset_change;
  entity = offset (off.register_number, off.register_type);
  before = elim old [ none ↦ none | some v ↦ some (value_mm v none) ];
  after = value_mm off.value_mm (source_tag presetter_active off.register_type old);
  success = true;
  occurred_at = t;
}

abbrev pub offset_domain : Bool → Domain OffsetRegister RegisterKey Decimal (Tracked Decimal)
offset_domain presetter_active = record {
  key = λ off. (off.register_number, off.register_type);
  value_of = λ off. off.value_mm;
  same = dec_eq;
  row = tracked_row numeric_10_4;
  stored = λ r. r.value;
  update = advance dec_eq;
  event = offset_event presetter_active;
}

unfoldable pub diff_offsets :
    Bool
    → Dict RegisterKey Decimal
    → List OffsetRegister
    → ℕ
    → DomainDiff RegisterKey (Tracked Decimal)
unfolding diff
diff_offsets presetter_active current incoming polled_at =
    diff (offset_domain presetter_active) current incoming polled_at

abbrev pot_event : PotEntry → Option (Option ℕ) → ℕ → AuditRow
pot_event entry old t = record {
  event_type = pot_move;
  entity = pot entry.pot_number;
  before = elim old [ none ↦ none | some v ↦ some (t_number v) ];
  after = t_number entry.t_number;
  success = true;
  occurred_at = t;
}

abbrev pub pot_domain : Domain PotEntry ℕ (Option ℕ) (Tracked (Option ℕ))
pot_domain = record {
  key = λ entry. entry.pot_number;
  value_of = λ entry. entry.t_number;
  same = λ a b. a == b;
  row = tracked_row (λ v. v);
  stored = λ r. r.value;
  update = advance (λ a b. a == b);
  event = pot_event;
}

unfoldable pub diff_pots : Dict ℕ (Option ℕ) → List PotEntry → ℕ → DomainDiff ℕ (Tracked (Option ℕ))
unfolding diff
diff_pots current incoming polled_at = diff pot_domain current incoming polled_at

abbrev pub sort_in : ℕ → List ℕ → List ℕ
sort_in n [] = n ∷ []
sort_in n (m ∷ ns) = let rest = sort_in n ns in if leb n m then n ∷ m ∷ ns else m ∷ rest

abbrev pub sorted : List ℕ → List ℕ
sorted [] = []
sorted (n ∷ ns) = sort_in n (sorted ns)

-- `pot.t_number == pot.pot_number and old is not None and old != pot.pot_number`
unfoldable pub is_reverted : Dict ℕ (Option ℕ) → PotEntry → Bool
is_reverted current entry =
    entry.t_number == some entry.pot_number && elim (lookup entry.pot_number current) [
      | some (some old) ↦ not (eqb old entry.pot_number)
      | _ ↦ false
    ]

unfoldable pub reverted : Dict ℕ (Option ℕ) → List PotEntry → List ℕ
reverted current [] = []
reverted current (entry ∷ incoming) =
    let rest = reverted current incoming in
    if is_reverted current entry then entry.pot_number ∷ rest else rest

unfoldable pub detect_pot_reinit : Dict ℕ (Option ℕ) → List PotEntry → List ℕ
detect_pot_reinit current incoming = sorted (reverted current incoming)
