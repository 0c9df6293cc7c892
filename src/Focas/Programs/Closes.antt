-- ===== src/Focas/Programs/Closes.antt =====
-- The upload never leaves the control in upload mode.
use pottracker.Prelude.{
  ℕ, zero, suc, ◌≤◌, Bool, true, false, List, [], ◌∷◌, ◌++◌, arith, All, count_of,
}
use pottracker.Decimal.{pos, negsuc, ℤ}
use pottracker.Focas.{passed, raised, Raised, raise_for_code}
use pottracker.Focas.Programs.{
  Reply, Control, Call, cnc_upstart3, cnc_upload3, cnc_upend3, sleep, Run, Progress, slept,
  continued, started, Turn, again, done, fails, turn, loop, start, max_calls, read_program_text,
  is_busy,
}

abbrev pub is_upload : Call → Bool
is_upload cnc_upload3 = true
is_upload _ = false

-- A call made while the control is in upload mode.
abbrev pub InUpload : Call → Type 0
InUpload cnc_upload3 = Unit
InUpload sleep = Unit
InUpload _ = ⊥

-- The calls of a whole upload: none, one start that was refused, or a start, at most 5,000 reads with
-- sleeps between, and one end.
pub data IsClosed : List Call → Type 0 where
  untouched : IsClosed []
  refused : (n : ℕ) → IsClosed (cnc_upstart3 n ∷ [])
  closed :
      (n : ℕ) (body : List Call)
      → All InUpload body
      → count_of is_upload body ≤ max_calls
      → IsClosed (cnc_upstart3 n ∷ (body ++ (cnc_upend3 ∷ [])))

abbrev IsBody : ℕ → List Call → Type 0
IsBody left body = All InUpload body × (count_of is_upload body ≤ left)

slept-IsBody :
    (b : Bool) (left : ℕ) (rest : List Call)
    → IsBody left rest
    → IsBody (suc left) (cnc_upload3 ∷ slept b rest)
slept-IsBody true left rest h = ((tt, (tt, h.0)), omega (arith, h.1))
slept-IsBody false left rest h = ((tt, h.0), omega (arith, h.1))

continued-IsBody :
    (b : Bool) (left : ℕ) (rest : Progress → Run (List (List ℕ))) (t : Turn)
    → ((q : Progress) → IsBody left (rest q).0)
    → IsBody (suc left) (continued b rest t).0
continued-IsBody b left rest (again q) h = slept-IsBody b left (rest q).0 (h q)
continued-IsBody b left rest (done chunks) h = ((tt, tt), omega arith)
continued-IsBody b left rest (fails e) h = ((tt, tt), omega arith)

loop-IsBody :
    (upload : ℕ → Reply) (left i : ℕ) (p : Progress) → IsBody left (loop upload left i p).0
unfolding loop
loop-IsBody upload zero i p = (tt, omega arith)
loop-IsBody upload (suc left) i p =
    continued-IsBody (is_busy (upload i).rc) left (λ q. loop upload left (suc i) q)
      (turn (upload i) p) (λ q. loop-IsBody upload left (suc i) q)

started-IsClosed : (c : Control) (n : ℕ) (r : Raised) → IsClosed (started c n r).0
started-IsClosed c n (raised e) = refused n
started-IsClosed c n passed =
    let h = loop-IsBody c.upload max_calls 0 start in
    closed n (loop c.upload max_calls 0 start).0 h.0 h.1

-- Whatever the control answers, the calls of an upload are none, a refused start, or a start, at most
-- 5,000 reads with sleeps between them and then exactly one `cnc_upend3`; so it ends, and no error, time-out
-- or oversized text leaves the control in upload mode.
pub read_program_text-IsClosed :
    (c : Control) (o_number : ℤ) → IsClosed (read_program_text c o_number).0
unfolding read_program_text
read_program_text-IsClosed c (negsuc n) = untouched
read_program_text-IsClosed c (pos zero) = untouched
read_program_text-IsClosed c (pos (suc n)) =
    started-IsClosed c (suc n) (raise_for_code (c.upstart (suc n)) "cnc_upstart3")
