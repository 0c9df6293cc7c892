-- ===== src/Assignments/Preserved.antt =====
-- apps/tooling/api/services/assignments.py: its operations and the rule of the active assignments.
use pottracker.Prelude.{
  ℕ, ◌≡◌, refl, sym, ◌∙◌, ap, Bool, true, Option, none, some, if_elim, nat_eq, arith,
}
use pottracker.Prelude.Dict.{lookup}
use pottracker.Prelude.Search.{some_inj}
use pottracker.Api.{ApiError, Machine}
use pottracker.Assignments.{
  Assignment, AssignmentCreate, AssignmentUpdate, Tool, Session, Detail, Reply, done, failed,
  integrity_error, validate_registers, insert_row, create, create_on, create_valid, load_tool,
  load_machine, new_row, is_none,
}
use pottracker.Assignments.Change.{
  update, update_row, update_on, update_valid, moved, confirm, confirm_row, soft_delete, delete_row,
}
use pottracker.Assignments.Unique.{IsValid, insert-IsValid, validated-Apart, validated-OffProbe}

found_machine :
    (b : Bool) (row : Option Machine) (machine : Machine)
    → Path (Reply Machine) (load_machine b row) (done machine)
    → row ≡ some machine
found_machine b none machine h = ground arith
found_machine b (some row) machine h = ground arith

is_none-true : (o : Option ℕ) → is_none o ≡ true → o ≡ none
is_none-true o h = ground arith

module _ (new_id : ℕ) (body : AssignmentCreate) (assigned_by : ℕ) (db : Session) (v : IsValid db)
    (fresh : lookup new_id db.assignments ≡ none) where
  create_valid-IsValid :
      (tool : Tool) (machine : Machine) (error : Option (ApiError Detail))
      → lookup body.machine_id db.machines ≡ some machine
      → validate_registers body.machine_id machine tool
          (some body.t_number)
          (some body.h_register)
          body.d_register
          none
          db
        ≡ error
      → IsValid (create_valid new_id body assigned_by error db).1
  create_valid-IsValid tool machine (some error) found h = v
  create_valid-IsValid tool machine none found h =
      let row = new_row body assigned_by in
      insert-IsValid new_id row db v
        (λ j b other p. validated-Apart row machine tool none db found h j b (λ e. ground arith) p)
        (validated-OffProbe row machine tool none db found h)

  create_on-IsValid :
      (tool : Reply Tool) (machine : Reply Machine)
      → load_machine true (lookup body.machine_id db.machines) ≡ machine
      → IsValid (create_on new_id body assigned_by tool machine db).1
  create_on-IsValid (done tool) (done machine) h =
      create_valid-IsValid tool machine _ (found_machine true _ machine h) refl
  create_on-IsValid (failed error) _ h = v
  create_on-IsValid integrity_error _ h = v
  create_on-IsValid (done tool) (failed error) h = v
  create_on-IsValid (done tool) integrity_error h = v

  -- Creating an assignment, under an id that is not used, keeps the rule whatever the answer: no two
  -- active assignments of a machine share a register, and none has the probe's.
  pub create-IsValid : IsValid (create new_id body assigned_by db).1
  unfolding create
  create-IsValid = create_on-IsValid (load_tool (lookup body.tool_id db.tools)) _ refl

module _ (id : ℕ) (db : Session) (v : IsValid db) where
  -- A change that keeps a row's machine and registers, and does not bring it back, keeps the rule.
  insert_row-IsValid :
      (old row : Assignment)
      → lookup id db.assignments ≡ some old
      → row.machine_id ≡ old.machine_id
      → row.t_number ≡ old.t_number
      → row.h_register ≡ old.h_register
      → row.d_register ≡ old.d_register
      → (row.deleted_at ≡ none → old.deleted_at ≡ none)
      → IsValid (insert_row id row db)
  insert_row-IsValid old row found m t h d active =
      insert-IsValid id row db v
        (λ j b other p.
          let before = v.apart id j old b (λ e. other (sym e)) found p in
          record {
            apart_t = λ e q r f. before.apart_t (sym m ∙ e) (active q) r (sym t ∙ f);
            apart_h = λ e q r f. before.apart_h (sym m ∙ e) (active q) r (sym h ∙ f);
            apart_d = λ n e q r f g. before.apart_d n (sym m ∙ e) (active q) r (sym d ∙ f) g;
          })
        (record {
          off_t = λ machine p q e.
              (v.off_probe id old found).off_t machine (ap (λ i. lookup i db.machines) (sym m) ∙ p)
                (active q) (e ∙ ap some t);
          off_h = λ machine p q e.
              (v.off_probe id old found).off_h machine (ap (λ i. lookup i db.machines) (sym m) ∙ p)
                (active q) (e ∙ ap some h);
        })

  update_valid-IsValid :
      (row : Assignment) (machine : Machine) (tool : Tool) (t h d : Option ℕ)
      (error : Option (ApiError Detail))
      → lookup row.machine_id db.machines ≡ some machine
      → validate_registers row.machine_id machine tool t h d (some id) db ≡ error
      → IsValid (update_valid id row t h d error db).1
  update_valid-IsValid row machine tool t h d (some error) found valid = v
  update_valid-IsValid row machine tool none h d none found valid = v
  update_valid-IsValid row machine tool (some t) none d none found valid = v
  update_valid-IsValid row machine tool (some t) (some h) d none found valid =
      let new = moved row t h d in
      insert-IsValid id new db v
        (λ j b other p.
          validated-Apart new machine tool (some id) db found valid j b
            (λ e. other (sym (some_inj e))) p)
        (validated-OffProbe new machine tool (some id) db found valid)

  update_on-IsValid :
      (row : Assignment) (body : AssignmentUpdate) (machine : Option Machine) (tool : Option Tool)
      → lookup row.machine_id db.machines ≡ machine
      → IsValid (update_on id row body machine tool db).1
  update_on-IsValid row body none _ found = v
  update_on-IsValid row body (some machine) none found = v
  update_on-IsValid row body (some machine) (some tool) found =
      update_valid-IsValid row machine tool _ _ _ _ found refl

  update_row-IsValid :
      (body : AssignmentUpdate) (row : Option Assignment) → IsValid (update_row id body row db).1
  update_row-IsValid body none = v
  update_row-IsValid body (some row) =
      if_elim (λ (r : Reply Assignment × Session). IsValid r.1) (is_none row.deleted_at)
        (λ _. update_on-IsValid row body (lookup row.machine_id db.machines) _ refl) (λ _. v)

  -- Whatever it answers, a change of an assignment's registers (PATCH) keeps the rule.
  pub update-IsValid : (body : AssignmentUpdate) → IsValid (update id body db).1
  unfolding update
  update-IsValid body = update_row-IsValid body (lookup id db.assignments)

  confirm_row-IsValid :
      (by now : ℕ) (row : Option Assignment)
      → lookup id db.assignments ≡ row
      → IsValid (confirm_row id by now row db).1
  confirm_row-IsValid by now none found = v
  confirm_row-IsValid by now (some row) found =
      if_elim (λ (r : Reply Assignment × Session). IsValid r.1) (is_none row.deleted_at)
        (λ _. insert_row-IsValid row _ found refl refl refl refl (λ e. e)) (λ _. v)

  delete_row-IsValid :
      (now : ℕ) (row : Option Assignment)
      → lookup id db.assignments ≡ row
      → IsValid (delete_row id now row db).1
  delete_row-IsValid now none found = v
  delete_row-IsValid now (some row) found =
      if_elim (λ (r : Reply Unit × Session). IsValid r.1) (is_none row.deleted_at)
        (λ q.
          insert_row-IsValid row _ found refl refl refl refl (λ _. is_none-true row.deleted_at q))
        (λ _. v)

  -- Confirming an assignment and deleting it keep the rule, whatever the answer.
  confirm-IsValid :
      (by now : ℕ) → IsValid (confirm id by now db).1 × IsValid (soft_delete id now db).1
  unfolding confirm soft_delete
  confirm-IsValid by now = (
    confirm_row-IsValid by now (lookup id db.assignments) refl,
    delete_row-IsValid now (lookup id db.assignments) refl,
  )
