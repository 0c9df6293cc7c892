-- ===== src/Occupancy/Presence.antt =====
-- occupancy.py: when a tool is claimed to be present.
use pottracker.Prelude.{
  ℕ, ◌≡◌, ◌≢◌, ◌↔◌, ◌⊎◌, inl, inr, refl, Bool, true, false, ◌&&◌, Option, none, some, List, [], ◌∷◌,
  eqb, nat_eq, option_eq, if◌then◌else◌, arith,
}
use pottracker.Decimal.{Decimal}
use pottracker.Assignments.{Assignment, is_none}
use pottracker.Occupancy.{loaded, classify_pot, holds_probe, t_to_h}

-- A value that was measured and is not zero.
abbrev pub IsMeasured : Option Decimal → Type 0
IsMeasured none = ⊥
IsMeasured (some v) = v.digits ≢ 0

-- A pot is shown as loaded exactly when it does not hold the probe, has a tool, the tool has a register by
-- an active assignment, and the register's length is mirrored and not zero. The presetter's mark is
-- shown exactly for a loaded pot whose length came from the presetter.
pub classify_pot-IsMeasured :
    (pot : ℕ) (t p h : Option ℕ) (length_mm : Option Decimal) (presetter : Bool)
    → let shown = classify_pot pot t p h length_mm presetter in
      ((shown.state ≡ loaded)
        ↔ ((holds_probe p t ≡ false) × (t ≢ none) × (h ≢ none) × IsMeasured length_mm))
      × ((shown.verified ≡ true) ↔ ((shown.state ≡ loaded) × (presetter ≡ true)))
unfolding classify_pot
classify_pot-IsMeasured pot none p h length_mm presetter = ground arith
classify_pot-IsMeasured pot (some t) p none length_mm presetter = ground arith
classify_pot-IsMeasured pot (some t) p (some h) none presetter = ground arith
classify_pot-IsMeasured pot (some t) p (some h) (some v) presetter = ground arith

-- An active assignment of the machine among the rows.
abbrev pub Assigns : ℕ → ℕ → ℕ → List (ℕ × Assignment) → Type 0
Assigns machine_id t h [] = ⊥
Assigns machine_id t h ((id, row) ∷ rows) =
    ((row.machine_id ≡ machine_id)
      × (row.deleted_at ≡ none)
      × (row.t_number ≡ t)
      × (row.h_register ≡ h))
    ⊎ Assigns machine_id t h rows

-- The register that the dict of the active assignments gives a tool is one that an active assignment of
-- the machine to that tool names.
pub t_to_h-Assigns :
    (machine_id t h : ℕ) (rows : List (ℕ × Assignment))
    → t_to_h machine_id rows t ≡ some h
    → Assigns machine_id t h rows
unfolding t_to_h
t_to_h-Assigns machine_id t h [] e = ground arith
t_to_h-Assigns machine_id t h ((id, row) ∷ rows) e =
    first (t_to_h machine_id rows t) (t_to_h-Assigns machine_id t h rows) e
  where
    first :
        (later : Option ℕ)
        → (later ≡ some h → Assigns machine_id t h rows)
        → Path
            (Option ℕ)
            (elim later [
              | some k ↦ some k
              | none ↦
                  (if eqb row.machine_id machine_id && is_none row.deleted_at && eqb row.t_number t
                    then some row.h_register
                    else none)
            ])
            (some h)
        → ((row.machine_id ≡ machine_id)
            × (row.deleted_at ≡ none)
            × (row.t_number ≡ t)
            × (row.h_register ≡ h))
          ⊎ Assigns machine_id t h rows
    first (some k) ih e = inr (ih e)
    first none ih e = ground arith

-- A tool that an active assignment of the machine names has a register in the dict.
pub t_to_h_found :
    (machine_id t h : ℕ) (rows : List (ℕ × Assignment))
    → Assigns machine_id t h rows
    → t_to_h machine_id rows t ≢ none
unfolding t_to_h
t_to_h_found machine_id t h [] a e = ground arith
t_to_h_found machine_id t h ((id, row) ∷ rows) a e =
    later (t_to_h machine_id rows t) (t_to_h_found machine_id t h rows) a e
  where
    later :
        (o : Option ℕ)
        → (Assigns machine_id t h rows → o ≢ none)
        → ((row.machine_id ≡ machine_id)
            × (row.deleted_at ≡ none)
            × (row.t_number ≡ t)
            × (row.h_register ≡ h))
          ⊎ Assigns machine_id t h rows
        → Path
            (Option ℕ)
            (elim o [
              | some k ↦ some k
              | none ↦
                  (if eqb row.machine_id machine_id && is_none row.deleted_at && eqb row.t_number t
                    then some row.h_register
                    else none)
            ])
            none
        → ⊥
    later (some k) ih a e = ground arith
    later none ih (inl a) e = ground arith
    later none ih (inr a) e = ih a refl
