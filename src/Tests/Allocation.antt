-- ===== src/Tests/Allocation.antt =====
-- Runs of assignments.py.
use pottracker.Prelude.{
  ℕ, Bool, ◌≡◌, refl, true, Option, none, some, [], ◌∷◌, nat_eq, arith, ◌≢◌, ◌↔◌, false,
}
use pottracker.Prelude.Dict.{lookup}
use pottracker.Api.{Machine}
use pottracker.Decimal.{Decimal}
use pottracker.Occupancy.{loaded, classify_pot, holds_probe, t_to_h}
use pottracker.Occupancy.Presence.{IsMeasured, classify_pot-IsMeasured}
use pottracker.Assignments.{Assignment, AssignmentCreate, AssignmentUpdate, Session, create}
use pottracker.Assignments.Change.{update}
use pottracker.Assignments.Unique.{IsValid}
use pottracker.Assignments.Preserved.{create-IsValid, update-IsValid}

abbrev viper : Machine
viper = record {
  id = 1;
  name = "Viper";
  machine_class = "mill";
  enabled = true;
  has_tsc = true;
  probe_t_number = some 50;
  probe_h_register = some 50;
  offset_register_count = 200;
}

abbrev drill : AssignmentCreate
drill = record { tool_id = 4; machine_id = 1; t_number = 12; h_register = 12; d_register = some 12 }

abbrev empty : Session
empty = record {
  tools = (4, record { requires_tsc = true; retired_at = none }) ∷ [];
  machines = (1, viper) ∷ [];
  assignments = [];
}

abbrev onto_probe : AssignmentUpdate
onto_probe = record { t_number = some (some 50); h_register = none; d_register = some none }

none_found : {a : Assignment} → Path (Option Assignment) none (some a) → ⊥
none_found h = ground arith

empty-IsValid : IsValid empty
unfolding lookup
empty-IsValid = record {
  apart = λ i j a b differ p q. absurd (none_found p);
  off_probe = λ i a p. absurd (none_found p);
}

-- The session with the drill assigned.
abbrev assigned : Session
assigned = (create 9 drill 2 empty).1

nine_free : lookup 9 empty.assignments ≡ none
unfolding lookup
nine_free = refl

create-IsValid_example : IsValid assigned
create-IsValid_example = create-IsValid 9 drill 2 empty empty-IsValid nine_free

assigned-IsValid : IsValid assigned
assigned-IsValid = create-IsValid 9 drill 2 empty empty-IsValid nine_free

update-IsValid_example : IsValid (update 9 onto_probe assigned).1
update-IsValid_example = update-IsValid 9 assigned assigned-IsValid onto_probe

abbrev drill_row : Assignment
drill_row = record {
  tool_id = 4;
  machine_id = 1;
  t_number = 12;
  h_register = 31;
  d_register = none;
  pending_review = false;
  pending_reason = none;
  assigned_by = none;
  last_confirmed_at = none;
  last_confirmed_by = none;
  deleted_at = none;
}

abbrev drill_length : Decimal
drill_length = record { negative = false; digits = 40818; places = 4 }

drill_register : t_to_h 1 ((9, drill_row) ∷ []) 12 ≡ some 31
unfolding t_to_h
drill_register = refl

classify_pot-IsMeasured_example :
    let shown = classify_pot 3 (some 12) (some 50) (some 31) (some drill_length) true in
    ((shown.state ≡ loaded) ↔ (
      (holds_probe (some 50) (some 12) ≡ false)
      × (◌≢◌ {A = Option ℕ} (some 12) none)
      × (◌≢◌ {A = Option ℕ} (some 31) none)
      × IsMeasured (some drill_length)))
    × ((shown.verified ≡ true) ↔ ((shown.state ≡ loaded) × (◌≡◌ {A = Bool} true true)))
classify_pot-IsMeasured_example =
    classify_pot-IsMeasured 3 (some 12) (some 50) (some 31) (some drill_length) true
