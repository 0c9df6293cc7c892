-- ===== src/Focas/Programs.antt =====
-- shared/focas/programs.py: the upload of a program's text. A byte is a number.
use Prim.Native.Nat.{◌*◌, ◌^◌}
use pottracker.Prelude.{
  ℕ, zero, suc, ◌+◌, ◌-◌, String, Bool, true, false, ◌&&◌, ◌||◌, List, [], ◌∷◌, ◌++◌, if◌then◌else◌,
  ltb, leb, eqb, length, any_of,
}
use pottracker.Decimal.{ℤ, pos, negsuc}
use pottracker.Focas.{FocasError, Raised, passed, raised, raise_for_code}
pub mod Bytes
pub mod Closes
pub mod Faithful
pub mod Bounded

-- What a call of `cnc_upload3` gives: its return code, the length it stores and the buffer it filled.
pub record Reply : Type 0 where
  pub rc : ℤ
  pub length_out : ℤ
  pub buffer : List ℕ

-- The control: the return code of `cnc_upstart3`, and the reply of each call of `cnc_upload3`, by how many
-- came before it.
pub record Control : Type 0 where
  pub upstart : ℕ → ℤ
  pub upload : ℕ → Reply

pub data Call : Type 0 where
  cnc_upstart3 : ℕ → Call
  cnc_upload3 cnc_upend3 sleep : Call

pub data UploadError : Type 0 where
  bad_o_number too_long : UploadError
  focas_error : FocasError → UploadError
  no_data : ℕ → UploadError
  call_cap : UploadError

pub data Answer {ℓ} (A : Type ℓ) : Type ℓ where
  returned : A → Answer A
  failed : UploadError → Answer A

abbrev pub ew_buffer : ℕ
ew_buffer = 10

abbrev pub max_bytes : ℕ
max_bytes = 2000000

abbrev pub max_calls : ℕ
max_calls = 5000

abbrev pub max_empty_streak : ℕ
max_empty_streak = 250

-- Python's `xs[:n]`: a negative bound counts from the end.
abbrev take : ℕ → List ℕ → List ℕ
take zero xs = []
take (suc n) [] = []
take (suc n) (x ∷ xs) = x ∷ take n xs

unfoldable pub raw_prefix : ℤ → List ℕ → List ℕ
raw_prefix (pos n) xs = take n xs
raw_prefix (negsuc n) xs = take (length xs - suc n) xs

abbrev pub is_space : ℕ → Bool
is_space c = (leb 9 c && leb c 13) || eqb c 32

abbrev pub is_nil : List ℕ → Bool
is_nil [] = true
is_nil (x ∷ xs) = false

-- `bytes.rstrip`.
unfoldable pub rstrip : List ℕ → List ℕ
rstrip [] = []
rstrip (c ∷ cs) = let rest = rstrip cs in if is_nil rest && is_space c then [] else c ∷ rest

-- `endswith(b"%")`.
unfoldable pub ends_with_percent : List ℕ → Bool
ends_with_percent [] = false
ends_with_percent (c ∷ cs) = if is_nil cs then eqb c 37 else ends_with_percent cs

-- `b"".join`.
unfoldable pub join : List (List ℕ) → List ℕ
join [] = []
join (c ∷ cs) = c ++ join cs

abbrev pub is_busy : ℤ → Bool
is_busy (pos n) = eqb n ew_buffer
is_busy (negsuc n) = false

pub record Progress : Type 0 where
  pub chunks : List (List ℕ)
  pub total : ℕ
  pub empty_streak : ℕ

-- What one pass of the loop decides.
pub data Turn : Type 0 where
  again : Progress → Turn
  done : List (List ℕ) → Turn
  fails : UploadError → Turn

abbrev received : List ℕ → Progress → Turn
received got p =
    let chunks = p.chunks ++ (got ∷ []) in
    let total = p.total + length got in
    if ltb max_bytes total
    then fails too_long
    else if ltb 1 total && ends_with_percent (rstrip got)
    then done chunks
    else again (record { chunks = chunks; total = total; empty_streak = 0 })

abbrev checked : Raised → List ℕ → Progress → Turn
checked (raised e) got p = fails (focas_error e)
checked passed got p = received got p

-- The body of the loop.
unfoldable pub turn : Reply → Progress → Turn
unfolding raw_prefix rstrip ends_with_percent raise_for_code
turn r p =
    let streak = suc p.empty_streak in
    if is_busy r.rc
    then if ltb max_empty_streak streak
      then fails (no_data streak)
      else again (record p { empty_streak = streak })
    else checked (raise_for_code r.rc "cnc_upload3") (raw_prefix r.length_out r.buffer) p

abbrev pub Run {ℓ} : Type ℓ → Type ℓ
Run A = List Call × Answer A

abbrev pub slept : Bool → List Call → List Call
slept b calls = if b then sleep ∷ calls else calls

-- A turn, and the rest of the loop after one that goes on.
abbrev pub continued : Bool → (Progress → Run (List (List ℕ))) → Turn → Run (List (List ℕ))
continued busy rest (again q) = (cnc_upload3 ∷ slept busy (rest q).0, (rest q).1)
continued busy rest (done chunks) = (cnc_upload3 ∷ [], returned chunks)
continued busy rest (fails e) = (cnc_upload3 ∷ [], failed e)

-- The loop with the calls that are left and the number of those made: the calls it makes, with its
-- sleeps, and its answer.
unfoldable pub loop : (ℕ → Reply) → ℕ → ℕ → Progress → Run (List (List ℕ))
unfolding turn
loop upload zero i p = ([], failed call_cap)
loop upload (suc left) i p =
    continued (is_busy (upload i).rc) (λ q. loop upload left (suc i) q) (turn (upload i) p)

abbrev pub start : Progress
start = record { chunks = []; total = 0; empty_streak = 0 }

abbrev pub joined : Answer (List (List ℕ)) → Answer (List ℕ)
joined (returned chunks) = returned (join chunks)
joined (failed e) = failed e

-- `_bind` only declares the types of the calls.
abbrev pub started : Control → ℕ → Raised → Run (List ℕ)
started c n (raised e) = (cnc_upstart3 n ∷ [], failed (focas_error e))
started c n passed =
    let body = loop c.upload max_calls 0 start in
    (cnc_upstart3 n ∷ (body.0 ++ (cnc_upend3 ∷ [])), joined body.1)

unfoldable pub read_program_text : Control → ℤ → Run (List ℕ)
unfolding loop join raise_for_code
read_program_text c (negsuc n) = ([], failed bad_o_number)
read_program_text c (pos zero) = ([], failed bad_o_number)
read_program_text c (pos (suc n)) =
    started c (suc n) (raise_for_code (c.upstart (suc n)) "cnc_upstart3")
