-- ===== src/Occupancy.antt =====
-- apps/tooling/api/services/occupancy.py: whether the tool of a pot is really there.
use pottracker.Prelude.{
  ℕ, Bool, true, false, not, ◌&&◌, Option, none, some, List, [], ◌∷◌, map, if◌then◌else◌, leb, eqb,
  ◌==◌, nat_eq, option_eq,
}
use pottracker.Prelude.Dict.{Dict, lookup}
use pottracker.Decimal.{Decimal}
use pottracker.Model.{RegisterKey, h_geom, register_type_eq, register_key_eq}
use pottracker.Mirror.Rows.{
  Tracked, StatusRow, Source, presetter_verified, source_eq, Payload, value_mm, Entity, offset,
  AuditRow, Mirror,
}
use pottracker.Api.{Machine, Result, ok, err, not_found}
use pottracker.Assignments.{Assignment, is_none}
pub mod Presence

pub data PotState : Type 0 where
  probe loaded empty unverified : PotState

pub record PotOccupancy : Type 0 where
  pub pot_number : ℕ
  pub t_number : Option ℕ
  pub state : PotState
  pub verified : Bool
  pub assigned_h_register : Option ℕ
  pub offset_mm : Option Decimal

pub data Location : Type 0 where
  spindle next : Location

abbrev is_zero : Option Decimal → Bool
is_zero none = true
is_zero (some v) = eqb v.digits 0

abbrev with_register : ℕ → ℕ → Option ℕ → Option Decimal → Bool → PotOccupancy
with_register pot t none offset_mm presetter = record {
  pot_number = pot;
  t_number = some t;
  state = if eqb t pot then empty else unverified;
  verified = false;
  assigned_h_register = none;
  offset_mm = none;
}
with_register pot t (some h) offset_mm presetter = record {
  pot_number = pot;
  t_number = some t;
  state = if is_zero offset_mm then empty else loaded;
  verified = if is_zero offset_mm then false else presetter;
  assigned_h_register = some h;
  offset_mm = offset_mm;
}

abbrev unheld : ℕ → Option ℕ → PotState → PotOccupancy
unheld pot t state = record {
  pot_number = pot;
  t_number = t;
  state = state;
  verified = false;
  assigned_h_register = none;
  offset_mm = none;
}

abbrev with_identity : ℕ → Option ℕ → Option ℕ → Option Decimal → Bool → PotOccupancy
with_identity pot none h_register offset_mm presetter = unheld pot none empty
with_identity pot (some t) h_register offset_mm presetter =
    with_register pot t h_register offset_mm presetter

abbrev pub holds_probe : Option ℕ → Option ℕ → Bool
holds_probe none t = false
holds_probe (some p) t = t == some p

pub classify_pot : ℕ → Option ℕ → Option ℕ → Option ℕ → Option Decimal → Bool → PotOccupancy
classify_pot pot_number t_number probe_t_number h_register offset_mm presetter =
    if holds_probe probe_t_number t_number
    then unheld pot_number t_number probe
    else with_identity pot_number t_number h_register offset_mm presetter

abbrev is_tool : Option ℕ → Option ℕ → Bool
is_tool t none = false
is_tool t (some n) = t == some n

pot_location : Option ℕ → Option ℕ → Option ℕ → Option Location
pot_location none head next_t = none
pot_location (some t) head next_t =
    if is_tool (some t) head
    then some spindle
    else if is_tool (some t) next_t
    then some next
    else none

-- `t_to_h`: of two rows with one key, a Python dict keeps the last.
unfoldable pub t_to_h : ℕ → List (ℕ × Assignment) → ℕ → Option ℕ
t_to_h machine_id [] t = none
t_to_h machine_id ((id, row) ∷ rows) t =
    let rest = t_to_h machine_id rows t in
    elim rest [
      | some h ↦ some h
      | none ↦
          (if eqb row.machine_id machine_id && is_none row.deleted_at && eqb row.t_number t
            then some row.h_register
            else none)
    ]

-- The row of the register's last change, by time and then by place in the log.
abbrev later : AuditRow → Option AuditRow → Option AuditRow
later a none = some a
later a (some b) = if leb a.occurred_at b.occurred_at then some b else some a

abbrev is_length_of : ℕ → AuditRow → Bool
is_length_of register a = elim a.entity [
  | offset k ↦ (k.0 == register && k.1 == h_geom)
  | _ ↦ false
]

latest_change : ℕ → List AuditRow → Option AuditRow
latest_change register [] = none
latest_change register (a ∷ rows) =
    let rest = latest_change register rows in if is_length_of register a then later a rest else rest

abbrev source_of : Option AuditRow → Option Source
source_of none = none
source_of (some a) = elim a.after [ value_mm v source ↦ source | _ ↦ none ]

abbrev is_presetter : Option Source → Bool
is_presetter none = false
is_presetter (some source) = source == presetter_verified

abbrev bound : {A B : Type 0} → Option A → (A → Option B) → Option B
bound none f = none
bound (some a) f = f a

-- One entry of the list: the pot, its classification and its location.
pot_row :
    ℕ → Option ℕ → List (ℕ × Assignment) → Mirror → ℕ → Option ℕ → PotOccupancy × Option Location
pot_row machine_id probe_t_number assignments m pot t =
    let h_register = bound t (t_to_h machine_id assignments) in
    let offset_mm =
      bound h_register (λ h. bound (lookup (h, h_geom) m.offsets) (λ r. some r.value)) in
    let verified : Bool = elim h_register [
      | none ↦ false
      | some h ↦ is_presetter (source_of (latest_change h m.audit))
    ] in
    let head = bound m.status (λ s. s.state.head_t_number) in
    let next_t = bound m.status (λ s. s.state.next_t_number) in
    (classify_pot pot t probe_t_number h_register offset_mm verified, pot_location t head next_t)

-- The pots by their number.
abbrev sort_in_pot :
    ℕ × Tracked (Option ℕ) → List (ℕ × Tracked (Option ℕ)) → List (ℕ × Tracked (Option ℕ))
sort_in_pot p [] = p ∷ []
sort_in_pot p (q ∷ qs) = let rest = sort_in_pot p qs in if leb p.0 q.0 then p ∷ q ∷ qs else q ∷ rest

abbrev by_number : List (ℕ × Tracked (Option ℕ)) → List (ℕ × Tracked (Option ℕ))
by_number [] = []
by_number (p ∷ ps) = sort_in_pot p (by_number ps)

abbrev rows_of :
    ℕ
    → List (ℕ × Assignment)
    → Mirror
    → Option Machine
    → Result Unit (List (PotOccupancy × Option Location))
rows_of machine_id assignments m none = err (not_found tt)
rows_of machine_id assignments m (some machine) = ok (
    map (λ p. pot_row machine_id machine.probe_t_number assignments m p.0 p.1.value)
      (by_number m.pots))

-- `m` is the mirror of the machine.
pub occupancy :
    ℕ
    → Dict ℕ Machine
    → List (ℕ × Assignment)
    → Mirror
    → Result Unit (List (PotOccupancy × Option Location))
occupancy machine_id machines assignments m =
    rows_of machine_id assignments m (lookup machine_id machines)
