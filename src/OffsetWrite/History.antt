-- ===== src/OffsetWrite/History.antt =====
-- offset_write.py: any sequence of staged and executed requests.
use mathlib.Core.Option.{some-injective, none-ne-some}
use pottracker.Prelude.{
  ℕ, ◌≡◌, ◌≢◌, ◌⊎◌, inl, inr, refl, sym, subst, ap, ◌∙◌, String, Option, none, some, true, false,
  arith, nat_eq,
}
use pottracker.Prelude.Dict.{Dict, lookup, insert, lookup-insert_inv, lookup-insert_ne}
use pottracker.Decimal.{Decimal, dec_eq}
use pottracker.Model.{RegisterType, h_geom}
use pottracker.Api.{Result, ok, err}
use pottracker.OffsetWrite.Defs.{
  Detail, ErrorText, Request, OffsetWriteTarget, Session, Attempt, create_request, execute_request,
  audit_row, fail,
}
use pottracker.OffsetWrite.Run.{Run, Pending, execute_request-Run}
use pottracker.OffsetWrite.Staging.{staged_row, Stages, create_request-Stages}

-- A request in one of its three states: it waits; it was written and read back; it failed.
pub data Settled (row : Request) : Type 0 where
  waits : row.executed_at ≡ none → row.success ≡ none → row.verified_value_mm ≡ none → Settled row
  wrote :
      (now : ℕ) (v : Decimal)
      → row.executed_at ≡ some now
      → row.success ≡ some true
      → row.verified_value_mm ≡ some v
      → dec_eq v row.intended_value_mm ≡ true
      → Settled row
  failed :
      (now : ℕ) (e : ErrorText)
      → row.executed_at ≡ some now
      → row.success ≡ some false
      → row.error ≡ some e
      → Settled row

-- Only lengths are ever requested, and every request is in one of its states.
pub record IsSound (row : Request) : Type 0 where
  pub writable : row.register_type ≡ h_geom
  pub settled : Settled row

abbrev pub AllRows : (Request → Type 0) → Dict ℕ Request → Type 0
AllRows P d = (k : ℕ) (row : Request) → lookup k d ≡ some row → P row

AllRows-insert :
    (P : Request → Type 0) (k : ℕ) (row : Request) (d : Dict ℕ Request)
    → P row
    → AllRows P d
    → AllRows P (insert k row d)
AllRows-insert P k row d p all j r h = elim (lookup-insert_inv j k row d h) [
  | inl (e, q) ↦ subst P q p
  | inr (e, q) ↦ all j r q
]

-- What is asked for, which no operation changes.
pub record SameRequest (row row' : Request) : Type 0 where
  pub machine_id : row'.machine_id ≡ row.machine_id
  pub register_number : row'.register_number ≡ row.register_number
  pub register_type : row'.register_type ≡ row.register_type
  pub intended_value_mm : row'.intended_value_mm ≡ row.intended_value_mm
  pub current_value_mm : row'.current_value_mm ≡ row.current_value_mm
  pub reason : row'.reason ≡ row.reason
  pub requested_by : row'.requested_by ≡ row.requested_by

module _ {S : Type 0} (target : OffsetWriteTarget S) where
  -- One request to the service. The database never makes an id twice.
  pub data Step : Session S → Session S → Type 0 where
    stages :
        (new_id machine_id n : ℕ) (r : RegisterType) (v : Decimal) (reason : String) (user : ℕ)
        (db : Session S)
        → lookup new_id db.requests ≡ none
        → Step db (create_request target new_id machine_id n r v reason user db).1
    executes :
        (a : Attempt) (request_id now : ℕ) (db : Session S)
        → Step db (execute_request target a request_id now db).1

  pub data Reach (db : Session S) : Session S → Type 0 where
    here : Reach db db
    next : {s t : Session S} → Reach db s → Step s t → Reach db t

  module _ (a : Attempt) (request_id now : ℕ) (db : Session S) where
    -- One pending request is settled, or no row changes.
    abbrev Changes : Result Detail Request × Session S → Type 0
    Changes (r, db') =
        (db'.requests ≡ db.requests)
        ⊎ ((row : Request) × (row' : Request) × (lookup request_id db.requests ≡ some row)
            × (row.executed_at ≡ none)
            × SameRequest row row'
            × Settled row'
            × (row'.executed_at ≡ some now)
            × (db'.requests ≡ insert request_id row' db.requests))

    waiting : {row : Request} → Pending target a request_id now db row → row.executed_at ≡ none
    waiting h = ground (arith, h.waiting)

    fail-Changes :
        (row : Request) (e : ErrorText) (v : Option Decimal) (d : Detail) (memory : S)
        → Pending target a request_id now db row
        → Changes (fail request_id a.executing_user now row e v d (record db { device = memory }))
    unfolding fail audit_row
    fail-Changes row e v d memory h = inr (
      row,
      _,
      h.found,
      waiting h,
      record {
        machine_id = refl;
        register_number = refl;
        register_type = refl;
        intended_value_mm = refl;
        current_value_mm = refl;
        reason = refl;
        requested_by = refl;
      },
      failed now e refl refl refl,
      refl,
      refl,
    )

    Run-Changes :
        {o : Result Detail Request × Session S} → Run target a request_id now db o → Changes o
    unfolding audit_row
    Run-Changes (Run.missing h) = inl refl
    Run-Changes (Run.finished row h e) = inl refl
    Run-Changes (Run.homeless row h e) = inl refl
    Run-Changes (Run.stopped row machine auth h l q e) = inl refl
    Run-Changes (Run.crashed row machine h l q) = inl refl
    Run-Changes (Run.drifted row h e) = fail-Changes row _ _ _ db.device h.pending
    Run-Changes (Run.unbounded row h e) = inl refl
    Run-Changes (Run.unacknowledged row h e) = inl refl
    Run-Changes (Run.raised row h e) = fail-Changes row _ _ _ _ h.allowed.pending
    Run-Changes (Run.unverified row h e f) = fail-Changes row _ _ _ _ h.allowed.pending
    Run-Changes (Run.applied row h e f) = inr (
      row,
      _,
      h.allowed.pending.found,
      waiting h.allowed.pending,
      record {
        machine_id = refl;
        register_number = refl;
        register_type = refl;
        intended_value_mm = refl;
        current_value_mm = refl;
        reason = refl;
        requested_by = refl;
      },
      wrote now _ refl refl refl f,
      refl,
      refl,
    )

    pub execute_request-Changes : Changes (execute_request target a request_id now db)
    execute_request-Changes = Run-Changes (execute_request-Run target a request_id now db)

  -- A row that a step cannot find pending stays, whichever row the step is about.
  keeps_finished :
      (j k : ℕ) (row old new : Request) (d : Dict ℕ Request)
      → lookup j d ≡ some row
      → row.executed_at ≢ none
      → lookup k d ≡ some old
      → old.executed_at ≡ none
      → lookup j (insert k new d) ≡ some row
  keeps_finished j k row old new d found done pending wait =
      lookup-insert_ne new d (λ e. done (
        ap_executed (
          some-injective row old (sym found ∙ subst (λ i. lookup i d ≡ some old) (sym e) pending))))
      ∙ found
    where
      ap_executed : row ≡ old → row.executed_at ≡ none
      ap_executed e = subst (λ r. r.executed_at ≡ none) (sym e) wait

  stages-requests :
      (new_id machine_id n : ℕ) (r : RegisterType) (v : Decimal) (reason : String) (user : ℕ)
      (db : Session S)
      → let db' = (create_request target new_id machine_id n r v reason user db).1 in
        (db'.requests ≡ db.requests)
        ⊎ ((row : Request) × IsSound row × (db'.requests ≡ insert new_id row db.requests))
  stages-requests new_id machine_id n r v reason user db =
      go (create_request target new_id machine_id n r v reason user db)
        (create_request-Stages target new_id machine_id n r v reason user db)
    where
      go :
          (o : Result Detail ℕ × Session S)
          → Stages target new_id machine_id n r v reason user db o
          → (o.1.requests ≡ db.requests)
            ⊎ ((row : Request) × IsSound row × (o.1.requests ≡ insert new_id row db.requests))
      go (ok i, db') h = inr (
        staged_row target machine_id n r v reason user db.device,
        record { writable = h.1.writable; settled = waits refl refl refl },
        ap (λ s. s.requests) h.2,
      )
      go (err e, db') h = inl (ap (λ s. s.requests) h.0)

  Step-AllRows :
      {s t : Session S} → Step s t → AllRows IsSound s.requests → AllRows IsSound t.requests
  Step-AllRows (stages new_id machine_id n r v reason user db fresh) all =
      elim (stages-requests new_id machine_id n r v reason user db) [
        | inl e ↦ subst (AllRows IsSound) (sym e) all
        | inr (row, h, e) ↦
            subst (AllRows IsSound) (sym e) (AllRows-insert IsSound new_id row db.requests h all)
      ]
  Step-AllRows (executes a request_id now db) all =
      elim (execute_request-Changes a request_id now db) [
        | inl e ↦ subst (AllRows IsSound) (sym e) all
        | inr (row, row', found, w, kept, settled, at, e) ↦ subst (AllRows IsSound) (sym e) (
            AllRows-insert IsSound request_id row' db.requests
              (record {
                writable = kept.register_type ∙ (all request_id row found).writable;
                settled = settled;
              })
              all)
      ]

  -- From a session whose stored requests are so, whatever is staged and executed, in whatever order:
  -- every stored request is for H_GEOM, and it
  -- waits, or is marked as a success with a read-back value equal to the intended one, or is marked as
  -- failed with an error.
  pub Reach-IsSound :
      (s t : Session S) → AllRows IsSound s.requests → Reach s t → AllRows IsSound t.requests
  Reach-IsSound s _ h here = h
  Reach-IsSound s _ h (next r st) = Step-AllRows st (Reach-IsSound s _ h r)

  Step-finished :
      {s t : Session S} (j : ℕ) (row : Request)
      → Step s t
      → lookup j s.requests ≡ some row
      → row.executed_at ≢ none
      → lookup j t.requests ≡ some row
  Step-finished j row (stages new_id machine_id n r v reason user db fresh) found done =
      elim (stages-requests new_id machine_id n r v reason user db) [
        | inl e ↦ subst (λ d. lookup j d ≡ some row) (sym e) found
        | inr (new, h, e) ↦
            subst (λ d. lookup j d ≡ some row) (sym e)
              (lookup-insert_ne new db.requests (λ q.
                  none-ne-some row
                    (sym fresh ∙ subst (λ i. lookup i db.requests ≡ some row) q found))
                ∙ found)
      ]
  Step-finished j row (executes a request_id now db) found done =
      elim (execute_request-Changes a request_id now db) [
        | inl e ↦ subst (λ d. lookup j d ≡ some row) (sym e) found
        | inr (old, new, pending, w, kept, settled, at, e) ↦
            subst (λ d. lookup j d ≡ some row) (sym e)
              (keeps_finished j request_id row old new db.requests found done pending w)
      ]

  -- The row of a request that has been executed, with success or not, is never changed again, whatever
  -- is staged and executed after it.
  pub Reach-finished :
      (j : ℕ) (row : Request) (s t : Session S)
      → lookup j s.requests ≡ some row
      → row.executed_at ≢ none
      → Reach s t
      → lookup j t.requests ≡ some row
  Reach-finished j row s _ found done here = found
  Reach-finished j row s _ found done (next r st) =
      Step-finished j row st (Reach-finished j row s _ found done r) done
