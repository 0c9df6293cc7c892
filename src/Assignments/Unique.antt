-- ===== src/Assignments/Unique.antt =====
-- The rule of the active assignments: no two of a machine share a register, and none has the probe's.
use pottracker.Prelude.{
  ℕ, ◌≡◌, refl, sym, ◌∙◌, ap, subst, ◌≢◌, inl, inr, Bool, false, Option, none, some, if◌then◌else◌,
  eqb_iff, ==_iff, ==_ne, nat_eq, option_eq, arith,
}
use pottracker.Prelude.Dict.{Dict, lookup, lookup-insert_inv}
use pottracker.Prelude.Search.{any_of-lookup, some_inj}
use pottracker.Api.{ApiError, Machine}
use pottracker.Assignments.{
  Assignment, Tool, Session, Detail, is_conflict, active_conflict, is_probe, validate_registers,
  insert_row, t_column, h_column, d_column,
}

-- Two assignments that, when both are active on one machine, share no register.
pub record Apart (a b : Assignment) : Type 0 where
  pub apart_t :
      a.machine_id ≡ b.machine_id
      → a.deleted_at ≡ none
      → b.deleted_at ≡ none
      → a.t_number ≢ b.t_number
  pub apart_h :
      a.machine_id ≡ b.machine_id
      → a.deleted_at ≡ none
      → b.deleted_at ≡ none
      → a.h_register ≢ b.h_register
  pub apart_d :
      (d : ℕ)
      → a.machine_id ≡ b.machine_id
      → a.deleted_at ≡ none
      → b.deleted_at ≡ none
      → a.d_register ≡ some d
      → b.d_register ≢ some d

pub record OffProbe (machines : Dict ℕ Machine) (a : Assignment) : Type 0 where
  pub off_t :
      (machine : Machine)
      → lookup a.machine_id machines ≡ some machine
      → a.deleted_at ≡ none
      → machine.probe_t_number ≢ some a.t_number
  pub off_h :
      (machine : Machine)
      → lookup a.machine_id machines ≡ some machine
      → a.deleted_at ≡ none
      → machine.probe_h_register ≢ some a.h_register

pub record IsValid (db : Session) : Type 0 where
  pub apart :
      (i j : ℕ) (a b : Assignment)
      → i ≢ j
      → lookup i db.assignments ≡ some a
      → lookup j db.assignments ≡ some b
      → Apart a b
  pub off_probe :
      (i : ℕ) (a : Assignment) → lookup i db.assignments ≡ some a → OffProbe db.machines a

Apart-symm : {a b : Assignment} → Apart a b → Apart b a
Apart-symm h = record {
  apart_t = λ m p q e. h.apart_t (sym m) q p (sym e);
  apart_h = λ m p q e. h.apart_h (sym m) q p (sym e);
  apart_d = λ d m p q e f. h.apart_d d (sym m) q p f e;
}

-- A row may be stored when it is apart from all others and off the probe.
pub insert-IsValid :
    (k : ℕ) (row : Assignment) (db : Session)
    → IsValid db
    → ((j : ℕ) (b : Assignment) → j ≢ k → lookup j db.assignments ≡ some b → Apart row b)
    → OffProbe db.machines row
    → IsValid (insert_row k row db)
insert-IsValid k row db v others probe = record {
  apart = λ i j a b differ p q. elim (lookup-insert_inv i k row db.assignments p) [
    | inl same ↦ elim (lookup-insert_inv j k row db.assignments q) [
      | inl same' ↦ ground arith
      | inr other' ↦ subst (λ a. Apart a b) same.1 (others j b other'.0 other'.1)
    ]
    | inr other ↦ elim (lookup-insert_inv j k row db.assignments q) [
      | inl same' ↦ subst (λ b. Apart a b) same'.1 (Apart-symm (others i a other.0 other.1))
      | inr other' ↦ v.apart i j a b differ other.1 other'.1
    ]
  ];
  off_probe = λ i a p. elim (lookup-insert_inv i k row db.assignments p) [
    | inl same ↦ subst (λ a. OffProbe db.machines a) same.1 probe
    | inr other ↦ v.off_probe i a other.1
  ];
}

-- No conflict: no other active row of the machine has the value.
no_conflict :
    (machine_id : ℕ) (col : Assignment → Option ℕ) (value : ℕ) (exclude : Option ℕ) (db : Session)
    → active_conflict machine_id col (some value) exclude db ≡ false
    → (j : ℕ) (b : Assignment) → lookup j db.assignments ≡ some b
    → exclude ≢ some j
    → machine_id ≡ b.machine_id
    → b.deleted_at ≡ none
    → col b ≢ some value
unfolding active_conflict
no_conflict machine_id col value exclude db h j b p other m active e =
    let found = any_of-lookup (is_conflict machine_id col value exclude) j db.assignments p (
      rw
        (
          (eqb_iff _ _).1 (sym m),
          (==_iff (col b) (some value)).1 e,
          active,
          ==_ne exclude (some j) other,
        )
        refl) in
    ground arith

passes :
    (p q a b c d : Bool) (e₁ e₂ e₃ e₄ e₅ e₆ : ApiError Detail)
    → Path
        (Option (ApiError Detail))
        (if p
          then some e₁
          else if q
          then some e₂
          else if a
          then some e₃
          else if b
          then some e₄
          else if c
          then some e₅
          else if d
          then some e₆
          else none)
        none
    → ((p ≡ false) × (q ≡ false)) × ((a ≡ false) × ((b ≡ false) × (c ≡ false)))
passes p q a b c d _ _ _ _ _ _ h = ground arith

is_probe-false : (probe : Option ℕ) (n : ℕ) → is_probe probe (some n) ≡ false → probe ≢ some n
is_probe-false none n h e = ground arith
is_probe-false (some p) n h e = ground (arith, ==_iff (some n) (some p))

module _ (row : Assignment) (machine : Machine) (tool : Tool) (exclude : Option ℕ) (db : Session)
    (found : lookup row.machine_id db.machines ≡ some machine)
    (valid : validate_registers row.machine_id machine tool
        (some row.t_number)
        (some row.h_register)
        row.d_register
        exclude
        db
      ≡ none) where
  clear :
      ((is_probe machine.probe_t_number (some row.t_number) ≡ false)
        × (is_probe machine.probe_h_register (some row.h_register) ≡ false))
      × ((active_conflict row.machine_id t_column (some row.t_number) exclude db ≡ false)
          × ((active_conflict row.machine_id h_column (some row.h_register) exclude db ≡ false)
              × (active_conflict row.machine_id d_column row.d_register exclude db ≡ false)))
  unfolding validate_registers
  clear = passes _ _ _ _ _ _ _ _ _ _ _ _ valid

  pub validated-Apart :
      (j : ℕ) (b : Assignment) → exclude ≢ some j → lookup j db.assignments ≡ some b → Apart row b
  validated-Apart j b other p = record {
    apart_t = λ m _ active e.
        no_conflict row.machine_id t_column row.t_number exclude db clear.1.0 j b p other m active
          (ap some (sym e));
    apart_h = λ m _ active e.
        no_conflict row.machine_id h_column row.h_register exclude db clear.1.1.0 j b p other m
          active (ap some (sym e));
    apart_d = λ d m _ active e f.
        no_conflict row.machine_id d_column d exclude db
          (subst (λ v. active_conflict row.machine_id d_column v exclude db ≡ false) e clear.1.1.1)
          j b p other m active f;
  }

  pub validated-OffProbe : OffProbe db.machines row
  validated-OffProbe = record {
    off_t = λ other p active e.
        is_probe-false machine.probe_t_number row.t_number clear.0.0
          (ap (λ m. m.probe_t_number) (some_inj (sym found ∙ p)) ∙ e);
    off_h = λ other p active e.
        is_probe-false machine.probe_h_register row.h_register clear.0.1
          (ap (λ m. m.probe_h_register) (some_inj (sym found ∙ p)) ∙ e);
  }
