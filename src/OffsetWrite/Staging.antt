-- ===== src/OffsetWrite/Staging.antt =====
-- What `create_request` stages, and what it refuses.
use pottracker.Prelude.{
  ℕ, ◌≡◌, ◌≢◌, refl, String, Option, none, some, true, false, not, arith, if_elim, nat_eq,
  string_eq, ◌==◌, ==_iff, ap, sym, ◌∙◌,
}
use mathlib.Core.Option.{some-injective}
use pottracker.Prelude.Dict.{lookup, insert}
use pottracker.Decimal.{Decimal}
use pottracker.Model.{RegisterType, h_geom}
use pottracker.OffsetMath.{OffsetMathError, assert_writable, within_bounds}
use pottracker.OffsetMath.Policy.{assert_writable-is_writable}
use pottracker.Text.{strip}
use pottracker.Api.{Result, ok, err, Machine}
use pottracker.OffsetWrite.Defs.{
  Detail, Request, OffsetWriteTarget, Session, create_request, stage, stage_writable,
  is_probe_target, numeric_10_4,
}

module _ {S : Type 0} (target : OffsetWriteTarget S) where
  -- The row that is staged for these arguments.
  abbrev pub staged_row : ℕ → ℕ → RegisterType → Decimal → String → ℕ → S → Request
  staged_row machine_id n r v reason user memory = record {
    machine_id = machine_id;
    register_number = n;
    register_type = r;
    intended_value_mm = numeric_10_4 v;
    current_value_mm = some (numeric_10_4 (target.read_offset memory n r));
    reason = strip reason;
    requested_by = user;
    confirmed_by = none;
    confirmed_at = none;
    executed_at = none;
    verified_value_mm = none;
    success = none;
    error = none;
  }

  module _ (new_id machine_id n : ℕ) (r : RegisterType) (v : Decimal) (reason : String) (user : ℕ)
      (db : Session S) where
    -- All that has to hold for the request to be staged.
    pub record Stageable : Type 0 where
      pub writable : r ≡ h_geom
      pub bounded : within_bounds v ≡ true
      pub reasoned : strip reason ≢ ""
      pub machine : Machine
      pub located : lookup machine_id db.machines ≡ some machine
      pub no_probe : is_probe_target machine n ≡ false

    -- Either the request is staged, and its row is the one change; or nothing changes.
    abbrev pub Stages : Result Detail ℕ × Session S → Type 0
    Stages (ok id, db') =
        (id ≡ new_id)
        × Stageable
        × (db' ≡ record db {
          requests = insert new_id (staged_row machine_id n r v reason user db.device) db.requests;
        })
    Stages (err e, db') = (db' ≡ db) × ¬ Stageable

    stage-Stages :
        r ≡ h_geom
        → within_bounds v ≡ true
        → strip reason ≢ ""
        → (m : Option Machine) → lookup machine_id db.machines ≡ m
        → Stages (stage target new_id machine_id n r v reason user m db)
    unfolding stage
    stage-Stages w b s none l = (refl, λ h. cc)
    stage-Stages w b s (some machine) l =
        if_elim Stages (is_probe_target machine n) (λ e. (refl, λ h. probe_is_machine e l h))
          (λ e. (
            refl,
            record {
              writable = w;
              bounded = b;
              reasoned = s;
              machine = machine;
              located = l;
              no_probe = e;
            },
            refl,
          ))
      where
        probe_is_machine :
            {m : Machine}
            → is_probe_target m n ≡ true
            → lookup machine_id db.machines ≡ some m
            → Stageable
            → ⊥
        probe_is_machine {m} e l h = cc (
          e,
          h.no_probe,
          l,
          h.located,
          ap (λ k. is_probe_target k n) (some-injective m h.machine (sym l ∙ h.located)),
        )

    writable_only : assert_writable r ≡ none → r ≡ h_geom
    writable_only e = (assert_writable-is_writable r).1.0 ((assert_writable-is_writable r).0.0 e)

    not_writable-not-Stageable : {x : OffsetMathError} → assert_writable r ≡ some x → ¬ Stageable
    not_writable-not-Stageable e h =
        cc (e, (assert_writable-is_writable r).0.1 ((assert_writable-is_writable r).1.1 h.writable))

    stage_writable-Stages :
        (x : Option OffsetMathError)
        → assert_writable r ≡ x
        → Stages (stage_writable target new_id machine_id n r v reason user x db)
    unfolding stage_writable
    stage_writable-Stages (some x) e = (refl, not_writable-not-Stageable e)
    stage_writable-Stages none e =
        if_elim Stages (not (within_bounds v)) (λ f. (refl, λ h. ground (arith, h.bounded)))
          (λ f.
            if_elim Stages (strip reason == "")
              (λ g. (refl, λ h. h.reasoned ((==_iff (strip reason) "").0 g)))
              (λ g.
                stage-Stages (writable_only e) (ground arith)
                  (λ q. cc (g, (==_iff (strip reason) "").1 q)) (lookup machine_id db.machines)
                  refl))

    -- A request is staged exactly when its type is writable, its value in bounds, its reason not blank,
    -- its machine known and its register not the probe's. The row then holds the value that the register
    -- has now, on the column's grid of four places. Otherwise nothing changes. The register memory never does.
    pub create_request-Stages :
        Stages (create_request target new_id machine_id n r v reason user db)
    unfolding create_request
    create_request-Stages = stage_writable-Stages (assert_writable r) refl
