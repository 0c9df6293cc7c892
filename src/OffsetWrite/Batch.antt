-- ===== src/OffsetWrite/Batch.antt =====
-- `execute_batch`: one gate entry for several requests.
use mathlib.Core.Option.{some-injective, none-ne-some}
use pottracker.Prelude.{
  ℕ, ◌≡◌, ◌≢◌, inl, inr, refl, sym, ◌∙◌, ap, ap₂, subst, Option, none, some, List, [], ◌∷◌, ◌++◌,
  map, true, false, ◌&&◌, arith, append-nil, append_assoc, All, All-mono, nat_eq, Bool-cases, ◌==◌,
  ==_iff,
}
use pottracker.Prelude.Dict.{lookup, insert, lookup-insert_self, lookup-insert_ne}
use pottracker.Api.{not_found, conflict, unprocessable, forbidden, Result, ok, err, Machine}
use pottracker.WriteSafety.{is_ascii}
use pottracker.WriteSafety.Gate.{authorize_write_raises}
use pottracker.OffsetWrite.Defs.{
  Detail, request_missing, Request, OffsetWriteTarget, Session, Attempt, execute_request, fail,
  audit_row, with_row, is_probe_target,
}
use pottracker.OffsetWrite.Run.{Run, authorization, execute_request-Run}
use pottracker.OffsetWrite.History.{execute_request-Changes}

-- One entry of the list that is returned: the request, and the error's detail if it failed.
pub record BatchEntry : Type 0 where
  pub request_id : ℕ
  pub error : Option Detail

-- The `except` clause takes three of the errors; any other leaves the loop.
batch_entry : ℕ → Result Detail Request → Result Detail BatchEntry
batch_entry request_id (ok row) = ok (record { request_id = request_id; error = none })
batch_entry request_id (err (forbidden d)) = ok (record { request_id = request_id; error = some d })
batch_entry request_id (err (conflict d)) = ok (record { request_id = request_id; error = some d })
batch_entry request_id (err (unprocessable d)) =
    ok (record { request_id = request_id; error = some d })
batch_entry request_id (err e) = err e

true-false : true ≡ false → ⊥
true-false h = ground arith

module _ {S : Type 0} where
  -- The loop goes on with one more entry, or raises.
  next_entry :
      (List BatchEntry → Session S → Result Detail (List BatchEntry) × Session S)
      → List BatchEntry
      → Result Detail BatchEntry
      → Session S
      → Result Detail (List BatchEntry) × Session S
  next_entry continue results (ok entry) db = continue (results ++ entry ∷ []) db
  next_entry continue results (err e) db = (err e, db)

  next_entry_map :
      (f g : List BatchEntry → Session S → Result Detail (List BatchEntry) × Session S)
      (entries : List BatchEntry) (mid : Session S)
      (end : Result Detail (List BatchEntry) × Session S)
      → ((rs : List BatchEntry) (s : Session S) → f rs s ≡ (ok entries, mid) → g rs s ≡ end)
      → (rs : List BatchEntry) (b : Result Detail BatchEntry) (s : Session S)
      → next_entry f rs b s ≡ (ok entries, mid)
      → next_entry g rs b s ≡ end
  unfolding next_entry
  next_entry_map f g entries mid end ih rs (ok e) s h = ih (rs ++ e ∷ []) s h
  next_entry_map f g entries mid end ih rs (err e) s h = cc (ap (λ r. r.0) h)

module _ {S : Type 0} (target : OffsetWriteTarget S) (a : Attempt) where
  -- The pairs are the ids with the time at which each is executed.
  unfoldable pub execute_batch :
      List (ℕ × ℕ) → List BatchEntry → Session S → Result Detail (List BatchEntry) × Session S
  unfolding batch_entry next_entry
  execute_batch [] results db = (ok results, db)
  execute_batch ((request_id, now) ∷ rest) results db =
      let (r, db') = execute_request target a request_id now db in
      next_entry (execute_batch rest) results (batch_entry request_id r) db'

  -- A request that is stored, on a machine that is stored.
  abbrev pub Known : Session S → ℕ × ℕ → Type 0
  Known db (request_id, now) =
      (row : Request) × (lookup request_id db.requests ≡ some row)
      × (lookup row.machine_id db.machines ≢ none)

  -- Passwords on which the comparison raises nothing.
  abbrev pub Comparable : Type 0
  Comparable = (is_ascii a.password_attempt && is_ascii a.configured) ≡ true

  gate_answers :
      Comparable → (machine : Machine) (row : Request) → authorization a machine row ≡ none → ⊥
  gate_answers c machine row h =
      let raised =
        (authorize_write_raises a.status (is_probe_target machine row.register_number) a.approved
            a.password_attempt a.configured).0
          h in
      true-false (sym c ∙ raised.5)

  module _ (request_id now : ℕ) (db : Session S) where
    -- An execution of a known request, with passwords that can be compared, ends in none of the errors that
    -- leave the loop.
    abbrev Entered : Result Detail Request × Session S → Type 0
    Entered (r, db') =
        (e : BatchEntry) × (batch_entry request_id r ≡ ok e) × (e.request_id ≡ request_id)

    unknown :
        (row : Request)
        → lookup request_id db.requests ≡ some row
        → lookup row.machine_id db.machines ≡ none
        → ¬ Known db (request_id, now)
    unknown row found missing (r, h, l) = l (
        subst (λ q. lookup q.machine_id db.machines ≡ none) (some-injective row r (sym found ∙ h))
          missing)

    Run-Entered :
        {o : Result Detail Request × Session S}
        → Comparable
        → Known db (request_id, now)
        → Run target a request_id now db o
        → Entered o
    unfolding batch_entry fail
    Run-Entered c k (Run.missing h) = absurd (none-ne-some k.0 (sym h ∙ k.1))
    Run-Entered c k (Run.finished row h e) = (_, refl, refl)
    Run-Entered c k (Run.homeless row h e) = absurd (unknown row h.found e k)
    Run-Entered c k (Run.stopped row machine auth h l q e) = (_, refl, refl)
    Run-Entered c k (Run.crashed row machine h l q) = absurd (gate_answers c machine row q)
    Run-Entered c k (Run.drifted row h e) = (_, refl, refl)
    Run-Entered c k (Run.unbounded row h e) = (_, refl, refl)
    Run-Entered c k (Run.unacknowledged row h e) = (_, refl, refl)
    Run-Entered c k (Run.raised row h e) = (_, refl, refl)
    Run-Entered c k (Run.unverified row h e f) = (_, refl, refl)
    Run-Entered c k (Run.applied row h e f) = (_, refl, refl)

    Run-machines :
        {o : Result Detail Request × Session S}
        → Run target a request_id now db o
        → o.1.machines ≡ db.machines
    unfolding fail audit_row
    Run-machines (Run.missing h) = refl
    Run-machines (Run.finished row h e) = refl
    Run-machines (Run.homeless row h e) = refl
    Run-machines (Run.stopped row machine auth h l q e) = refl
    Run-machines (Run.crashed row machine h l q) = refl
    Run-machines (Run.drifted row h e) = refl
    Run-machines (Run.unbounded row h e) = refl
    Run-machines (Run.unacknowledged row h e) = refl
    Run-machines (Run.raised row h e) = refl
    Run-machines (Run.unverified row h e f) = refl
    Run-machines (Run.applied row h e f) = refl

    Known-execute :
        (p : ℕ × ℕ) → Known db p → Known (execute_request target a request_id now db).1 p
    Known-execute (j, at) (row, found, located) =
        let same = Run-machines (execute_request-Run target a request_id now db) in
        let there = λ (q : Request). subst (λ d. lookup q.machine_id d ≢ none) (sym same) in
        elim (execute_request-Changes target a request_id now db) [
          | inl e ↦ (row, subst (λ d. lookup j d ≡ some row) (sym e) found, there row located)
          | inr (old, new, pending, w, kept, settled, when, e) ↦
              elim (Bool-cases (j == request_id)) [
                | inl q ↦ (
                  new,
                  subst (λ d. lookup j d ≡ some new) (sym e)
                      (subst (λ i. lookup i (insert request_id new db.requests) ≡ some new)
                        (sym ((==_iff j request_id).0 q))
                        (lookup-insert_self request_id new db.requests)),
                  there new (
                      subst (λ i. lookup i db.machines ≢ none)
                        (ap (λ r. r.machine_id)
                            (some-injective row old (
                              sym found
                              ∙ ap (λ i. lookup i db.requests) ((==_iff j request_id).0 q)
                              ∙ pending))
                          ∙ sym kept.machine_id)
                        located),
                )
                | inr q ↦ (
                  row,
                  subst (λ d. lookup j d ≡ some row) (sym e)
                      (lookup-insert_ne new db.requests (λ c. cc (q, (==_iff j request_id).1 c))
                        ∙ found),
                  there row located,
                )
              ]
        ]

  missing_request :
      (request_id now : ℕ) (db : Session S)
      → lookup request_id db.requests ≡ none
      → execute_request target a request_id now db ≡ (err (not_found request_missing), db)
  unfolding execute_request with_row
  missing_request request_id now db h = rw h

  -- The entries name the jobs in their order.
  abbrev pub Answers : List (ℕ × ℕ) → List BatchEntry → Type 0
  Answers jobs entries = map (λ (e : BatchEntry). e.request_id) entries ≡ map (λ (j, at). j) jobs

  -- When every request and its machine are known and the passwords can be compared, the batch returns one entry for each request in the
  -- given order, behind those that it began with: no failure of one request stops the others.
  pub execute_batch-Answers :
      (jobs : List (ℕ × ℕ)) (results : List BatchEntry) (db : Session S)
      → Comparable
      → All (Known db) jobs
      → (entries : List BatchEntry) × ((execute_batch jobs results db).0 ≡ ok (results ++ entries))
        × Answers jobs entries
  unfolding execute_batch
  execute_batch-Answers [] results db c h = ([], ap ok (sym (append-nil results)), refl)
  execute_batch-Answers ((j, at) ∷ rest) results db c (known, others) =
      let (r, db') = execute_request target a j at db in
      let (e, made, names) = Run-Entered j at db c known (execute_request-Run target a j at db) in
      let (es, all, named) =
        execute_batch-Answers rest (results ++ e ∷ []) db' c
          (All-mono (Known db) (Known db') (Known-execute j at db) rest others) in
      (e ∷ es, rw made (all ∙ ap ok (append_assoc results (e ∷ []) es)), ap₂ ◌∷◌ names named)

  -- A request that is not stored when its turn comes ends the batch with an error: the entries so far are
  -- lost, and the jobs behind it are not executed.
  pub execute_batch_unknown :
      (jobs rest : List (ℕ × ℕ)) (request_id now : ℕ) (results entries : List BatchEntry)
      (db mid : Session S)
      → execute_batch jobs results db ≡ (ok entries, mid)
      → lookup request_id mid.requests ≡ none
      → execute_batch (jobs ++ (request_id, now) ∷ rest) results db
        ≡ (err (not_found request_missing), mid)
  unfolding execute_batch
  execute_batch_unknown [] rest j now results entries db mid h l =
      let same : db ≡ mid = ap (λ (r : Result Detail (List BatchEntry) × Session S). r.1) h in
      rw
        (missing_request j now db
          (subst (λ (s : Session S). lookup j s.requests ≡ none) (sym same) l))
        (ap (λ s. (err (not_found request_missing), s)) same)
  execute_batch_unknown ((i, at) ∷ jobs) rest j now results entries db mid h l =
      let (r, db') = execute_request target a i at db in
      next_entry_map (execute_batch jobs) (execute_batch (jobs ++ (j, now) ∷ rest)) entries mid
        (err (not_found request_missing), mid)
        (λ rs s k. execute_batch_unknown jobs rest j now rs entries s mid k l) results
        (batch_entry i r) db' h
