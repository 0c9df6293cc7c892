-- ===== src/Focas/Programs/Bounded.antt =====
-- What a text that the upload returns is like.
use pottracker.Prelude.{
  ℕ, zero, suc, ◌+◌, ◌≤◌, ◌<◌, ◌≡◌, refl, sym, subst, Bool, true, false, ◌&&◌, List, [], ◌∷◌, ◌++◌,
  ltb, arith, length, if_elim,
}
use pottracker.Decimal.{pos, negsuc, ℤ}
use pottracker.Focas.{passed, raised, Raised, raise_for_code}
use pottracker.Focas.Programs.{
  Reply, Control, Answer, Run, Progress, Turn, again, done, fails, turn, loop, start, max_calls,
  max_bytes, read_program_text, is_busy, returned, failed, continued, started, joined, join, rstrip,
  ends_with_percent, received, checked, raw_prefix, max_empty_streak,
}
use pottracker.Focas.Programs.Bytes.{ends-append, join-append, length-join}

-- A whole program: more than one byte, at most 2,000,000, and a `%` last, but for white space.
pub record IsWhole (text : List ℕ) : Type 0 where
  pub long : 1 < length text
  pub short : length text ≤ max_bytes
  pub ends : ends_with_percent (rstrip text) ≡ true

abbrev Counts : Progress → Type 0
Counts p = length (join p.chunks) ≡ p.total

abbrev IsGood : Turn → Type 0
IsGood (again q) = Counts q
IsGood (done chunks) = IsWhole (join chunks)
IsGood (fails e) = Unit

both : (a b : Bool) → (a && b) ≡ true → (a ≡ true) × (b ≡ true)
both a b h = ground arith

not_above : (n : ℕ) → ltb max_bytes n ≡ false → n ≤ max_bytes
not_above n h = ground arith

above_one : (n : ℕ) → ltb 1 n ≡ true → 1 < n
above_one n h = ground arith

received-IsGood : (got : List ℕ) (p : Progress) → Counts p → IsGood (received got p)
received-IsGood got p h =
    let total = p.total + length got in
    let chunks = p.chunks ++ (got ∷ []) in
    let size : length (join chunks) ≡ total = omega (arith, length-join p.chunks got, h) in
    let whole = ltb 1 total && ends_with_percent (rstrip got) in
    if_elim IsGood (ltb max_bytes total) (λ _. tt)
      λ fits.
        if_elim IsGood whole
          (λ ends.
            let e = both (ltb 1 total) (ends_with_percent (rstrip got)) ends in
            record {
              long = omega (arith, size, above_one total e.0);
              short = omega (arith, size, not_above total fits);
              ends =
                  subst (λ t. ends_with_percent (rstrip t) ≡ true) (sym (join-append p.chunks got))
                    (ends-append (join p.chunks) got e.1);
            })
          (λ _. size)

checked-IsGood : (r : Raised) (got : List ℕ) (p : Progress) → Counts p → IsGood (checked r got p)
checked-IsGood (raised e) got p h = tt
checked-IsGood passed got p h = received-IsGood got p h

turn-IsGood : (r : Reply) (p : Progress) → Counts p → IsGood (turn r p)
unfolding turn
turn-IsGood r p h =
    if_elim IsGood (is_busy r.rc)
      (λ _. if_elim IsGood (ltb max_empty_streak (suc p.empty_streak)) (λ _. tt) (λ _. h))
      (λ _.
        checked-IsGood (raise_for_code r.rc "cnc_upload3") (raw_prefix r.length_out r.buffer) p h)

abbrev IsGoodAnswer : Answer (List (List ℕ)) → Type 0
IsGoodAnswer (returned chunks) = IsWhole (join chunks)
IsGoodAnswer (failed e) = Unit

continued-IsGood :
    (b : Bool) (rest : Progress → Run (List (List ℕ))) (t : Turn)
    → ((q : Progress) → Counts q → IsGoodAnswer (rest q).1)
    → IsGood t
    → IsGoodAnswer (continued b rest t).1
continued-IsGood b rest (again q) h good = h q good
continued-IsGood b rest (done chunks) h good = good
continued-IsGood b rest (fails e) h good = tt

loop-IsGood :
    (upload : ℕ → Reply) (left i : ℕ) (p : Progress)
    → Counts p
    → IsGoodAnswer (loop upload left i p).1
unfolding loop
loop-IsGood upload zero i p h = tt
loop-IsGood upload (suc left) i p h =
    continued-IsGood (is_busy (upload i).rc) (λ q. loop upload left (suc i) q) (turn (upload i) p)
      (λ q. loop-IsGood upload left (suc i) q) (turn-IsGood (upload i) p h)

abbrev IsGoodText : Answer (List ℕ) → Type 0
IsGoodText (returned text) = IsWhole text
IsGoodText (failed e) = Unit

joined-IsGood : (a : Answer (List (List ℕ))) → IsGoodAnswer a → IsGoodText (joined a)
joined-IsGood (returned chunks) h = h
joined-IsGood (failed e) h = tt

started-IsGood : (c : Control) (n : ℕ) (r : Raised) → IsGoodText (started c n r).1
unfolding join
started-IsGood c n (raised e) = tt
started-IsGood c n passed =
    joined-IsGood (loop c.upload max_calls 0 start).1 (loop-IsGood c.upload max_calls 0 start refl)

read_program_text-IsGood :
    (c : Control) (o_number : ℤ) → IsGoodText (read_program_text c o_number).1
unfolding read_program_text
read_program_text-IsGood c (negsuc n) = tt
read_program_text-IsGood c (pos zero) = tt
read_program_text-IsGood c (pos (suc n)) =
    started-IsGood c (suc n) (raise_for_code (c.upstart (suc n)) "cnc_upstart3")

-- A text that the upload returns, whatever the control answered, has more than one byte and at most
-- 2,000,000, and ends with `%` once its trailing white space is off.
pub read_program_text-IsWhole :
    (c : Control) (o_number : ℤ) (text : List ℕ)
    → (read_program_text c o_number).1 ≡ returned text
    → IsWhole text
read_program_text-IsWhole c o_number text h =
    subst IsGoodText h (read_program_text-IsGood c o_number)
