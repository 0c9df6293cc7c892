-- ===== src/Focas/Programs/Faithful.antt =====
-- What the upload returns of a control that sends its program, and of one that never does.
use pottracker.Prelude.{
  ℕ, zero, suc, ◌+◌, ◌≤◌, ◌<◌, ◌≡◌, refl, ◌∙◌, ap, Bool, true, false, ◌&&◌, List, [], ◌∷◌, ◌++◌,
  append_assoc, ltb, arith, length,
}
use pottracker.Decimal.{pos}
use pottracker.Focas.{raise_for_code}
use pottracker.Focas.Programs.{
  Reply, Control, Progress, Turn, again, done, turn, loop, start, max_calls, max_bytes,
  read_program_text, is_busy, returned, failed, no_data, continued, joined, join, rstrip,
  ends_with_percent, raw_prefix, max_empty_streak, ew_buffer,
}

-- What a control sends in one reply: nothing yet, or some bytes.
pub data Chunk : Type 0 where
  busy : Chunk
  bytes : List ℕ → Chunk

abbrev pub Sends : Reply → Chunk → Type 0
Sends r busy = r.rc ≡ pos ew_buffer
Sends r (bytes got) = (r.rc ≡ pos 0) × (raw_prefix r.length_out r.buffer ≡ got)

-- The control's replies from the i-th on.
unfoldable pub Answers : (ℕ → Reply) → ℕ → List Chunk → Type 0
Answers upload i [] = Unit
Answers upload i (c ∷ cs) = Sends (upload i) c × Answers upload (suc i) cs

unfoldable pub data_of : List Chunk → List (List ℕ)
data_of [] = []
data_of (busy ∷ cs) = data_of cs
data_of (bytes got ∷ cs) = got ∷ data_of cs

abbrev pub looks_whole : ℕ → List ℕ → Bool
looks_whole total got = ltb 1 total && ends_with_percent (rstrip got)

-- A program as the control sends it, after so many bytes and so many empty replies in a row: no more
-- than 250 of these in a row, no more than 2,000,000 bytes, and the last chunk is the first that ends
-- with `%`.
unfoldable pub IsProgram : ℕ → ℕ → List Chunk → Type 0
IsProgram total streak [] = ⊥
IsProgram total streak (busy ∷ cs) = (streak < max_empty_streak) × IsProgram total (suc streak) cs
IsProgram total streak (bytes got ∷ []) =
    (total + length got ≤ max_bytes) × (looks_whole (total + length got) got ≡ true)
IsProgram total streak (bytes got ∷ c ∷ cs) =
    (total + length got ≤ max_bytes)
    × (looks_whole (total + length got) got ≡ false)
    × IsProgram (total + length got) 0 (c ∷ cs)

abbrev later : Progress → List ℕ → Progress
later p got = record {
  chunks = p.chunks ++ (got ∷ []);
  total = p.total + length got;
  empty_streak = 0;
}

in_streak : (n : ℕ) → n < max_empty_streak → ltb max_empty_streak (suc n) ≡ false
in_streak n h = ground arith

in_size : (n : ℕ) → n ≤ max_bytes → ltb max_bytes n ≡ false
in_size n h = ground arith

turn_busy :
    (r : Reply) (p : Progress)
    → r.rc ≡ pos ew_buffer
    → p.empty_streak < max_empty_streak
    → turn r p ≡ again (record p { empty_streak = suc p.empty_streak })
unfolding turn
turn_busy r p e h = rw (e, in_streak p.empty_streak h) refl

turn_more :
    (r : Reply) (p : Progress) (got : List ℕ)
    → Sends r (bytes got)
    → p.total + length got ≤ max_bytes
    → looks_whole (p.total + length got) got ≡ false
    → turn r p ≡ again (later p got)
unfolding turn raise_for_code
turn_more r p got s h more = rw (s.0, s.1, in_size _ h, more) refl

turn_last :
    (r : Reply) (p : Progress) (got : List ℕ)
    → Sends r (bytes got)
    → p.total + length got ≤ max_bytes
    → looks_whole (p.total + length got) got ≡ true
    → turn r p ≡ done (p.chunks ++ (got ∷ []))
unfolding turn raise_for_code
turn_last r p got s h last = rw (s.0, s.1, in_size _ h, last) refl

-- The loop after a turn that goes on, and after one that ends it.
loop_again :
    (upload : ℕ → Reply) (left i : ℕ) (p q : Progress)
    → turn (upload i) p ≡ again q
    → (loop upload (suc left) i p).1 ≡ (loop upload left (suc i) q).1
unfolding loop
loop_again upload left i p q h =
    ap (λ t. (continued (is_busy (upload i).rc) (λ q. loop upload left (suc i) q) t).1) h

loop_done :
    (upload : ℕ → Reply) (left i : ℕ) (p : Progress) (chunks : List (List ℕ))
    → turn (upload i) p ≡ done chunks
    → (loop upload (suc left) i p).1 ≡ returned chunks
unfolding loop
loop_done upload left i p chunks h =
    ap (λ t. (continued (is_busy (upload i).rc) (λ q. loop upload left (suc i) q) t).1) h

loop-Answers :
    (upload : ℕ → Reply) (cs : List Chunk) (left i : ℕ) (p : Progress)
    → Answers upload i cs
    → IsProgram p.total p.empty_streak cs
    → length cs ≤ left
    → (loop upload left i p).1 ≡ returned (p.chunks ++ data_of cs)
unfolding Answers IsProgram data_of
loop-Answers upload [] left i p s w h = absurd w
loop-Answers upload (c ∷ cs) zero i p s w h = absurd (omega arith)
loop-Answers upload (busy ∷ cs) (suc left) i p s w h =
    loop_again upload left i p _ (turn_busy (upload i) p s.0 w.0)
    ∙ loop-Answers upload cs left (suc i) (record p { empty_streak = suc p.empty_streak }) s.1 w.1
        (omega arith)
loop-Answers upload (bytes got ∷ []) (suc left) i p s w h =
    loop_done upload left i p _ (turn_last (upload i) p got s.0 w.0 w.1)
loop-Answers upload (bytes got ∷ c ∷ cs) (suc left) i p s w h =
    loop_again upload left i p _ (turn_more (upload i) p got s.0 w.0 w.1)
    ∙ loop-Answers upload (c ∷ cs) left (suc i) (later p got) s.1 w.2 (omega arith)
    ∙ ap returned (append_assoc p.chunks (got ∷ []) (data_of (c ∷ cs)))

started_ok :
    (c : Control) (n : ℕ)
    → c.upstart (suc n) ≡ pos 0
    → (read_program_text c (pos (suc n))).1 ≡ joined (loop c.upload max_calls 0 start).1
unfolding read_program_text raise_for_code
started_ok c n h = rw h refl

-- A control that accepts the start and sends a program in at most 5,000 replies, with no more than 250 empty
-- ones in a row and no more than 2,000,000 bytes, whose last chunk ends with `%` (white space aside) and no
-- chunk before it does once more than one byte was sent: the upload returns the bytes, all and in order.
pub read_program_text-Answers :
    (c : Control) (n : ℕ) (cs : List Chunk)
    → c.upstart (suc n) ≡ pos 0
    → Answers c.upload 0 cs
    → IsProgram 0 0 cs
    → length cs ≤ max_calls
    → (read_program_text c (pos (suc n))).1 ≡ returned (join (data_of cs))
read_program_text-Answers c n cs accepted s w h =
    started_ok c n accepted ∙ ap joined (loop-Answers c.upload cs max_calls 0 start s w h)

stuck_turn :
    (r : Reply) (p : Progress)
    → r.rc ≡ pos ew_buffer
    → p.empty_streak ≡ max_empty_streak
    → turn r p ≡ Turn.fails (no_data 251)
unfolding turn
stuck_turn r p e full = rw (e, full) refl

loop_stuck :
    (upload : ℕ → Reply) (stuck : (i : ℕ) → (upload i).rc ≡ pos ew_buffer) (room left i : ℕ)
    (p : Progress)
    → p.empty_streak + room ≡ max_empty_streak
    → room < left
    → (loop upload left i p).1 ≡ failed (no_data 251)
unfolding loop
loop_stuck upload stuck room zero i p h more = absurd (omega arith)
loop_stuck upload stuck zero (suc left) i p h more =
    ap (λ t. (continued (is_busy (upload i).rc) (λ q. loop upload left (suc i) q) t).1)
      (stuck_turn (upload i) p (stuck i) (omega arith))
loop_stuck upload stuck (suc room) (suc left) i p h more =
    loop_again upload left i p _ (turn_busy (upload i) p (stuck i) (omega arith))
    ∙ loop_stuck upload stuck room left (suc i) (record p { empty_streak = suc p.empty_streak })
        (omega arith) (omega arith)

-- A control that accepts the start and then never has data is given up after 251 empty replies.
read_program_text_stuck :
    (c : Control) (n : ℕ)
    → c.upstart (suc n) ≡ pos 0
    → ((i : ℕ) → (c.upload i).rc ≡ pos ew_buffer)
    → (read_program_text c (pos (suc n))).1 ≡ failed (no_data 251)
read_program_text_stuck c n accepted stuck =
    started_ok c n accepted
    ∙ ap joined (loop_stuck c.upload stuck max_empty_streak max_calls 0 start refl (omega arith))
