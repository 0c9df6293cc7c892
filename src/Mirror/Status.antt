-- ===== src/Mirror/Status.antt =====
-- The memory of the last tool of a lathe: last_real_t_word and the COALESCE of _upsert_status.
use pottracker.Prelude.{
  ℕ, ◌≡◌, refl, ap, ◌/◌, ◌%◌, ◌&&◌, ltb, if◌then◌else◌, arith, Option, none, some, List, [], ◌∷◌,
}
use pottracker.Model.{MachineSnapshot}
use pottracker.Mirror.Rows.{StatusRow, Mirror}
use pottracker.Mirror.Domains.{last_real_t_word, diff_status}
use pottracker.Mirror.Persist.{persist, upsert_status}

-- The polls of a machine, one after another.
pub persist_all : List MachineSnapshot → Mirror → Mirror
persist_all [] m = m
persist_all (s ∷ rest) m = persist_all rest (persist s m).1

-- A T word Tnnww carries a tool when its station nn is not zero and its offset ww is not: T1200 cancels.
abbrev pub tool_word : Option ℕ → Option ℕ
tool_word none = none
tool_word (some t_word) = if ltb 0 (t_word / 100) && ltb 0 (t_word % 100) then some t_word else none

-- The last T word with station and offset digits that the polls read, and when.
abbrev pub last_real : List MachineSnapshot → Option (ℕ × ℕ) → Option (ℕ × ℕ)
last_real [] before = before
last_real (s ∷ rest) before = last_real rest (elim (tool_word s.status.current_t_number) [
  | none ↦ before
  | some t_word ↦ some (t_word, s.polled_at)
])

-- What a row remembers.
abbrev pub Remembers : Option StatusRow → Option (ℕ × ℕ) → Type 0
Remembers none memory = memory ≡ none
Remembers (some row) none = (row.last_tool_t_word ≡ none) × (row.last_tool_at ≡ none)
Remembers (some row) (some (t_word, t)) =
    (row.last_tool_t_word ≡ some t_word) × (row.last_tool_at ≡ some t)

recall :
    (real : Option ℕ) (t : ℕ) (param : StatusRow) (row : Option StatusRow) (before : Option (ℕ × ℕ))
    → param.last_tool_t_word ≡ real
    → param.last_tool_at ≡ elim real [ none ↦ none | some _ ↦ some t ]
    → Remembers row before
    → Remembers
        (some (upsert_status param row))
        (elim real [ none ↦ before | some t_word ↦ some (t_word, t) ])
unfolding upsert_status
recall none t param none before p q h = rw h (p, q)
recall none t param (some row) none p q h = rw (p, q) h
recall none t param (some row) (some memory) p q h = rw (p, q) h
recall (some t_word) t param none before p q h = (p, q)
recall (some t_word) t param (some row) before p q h = rw (p, q) (refl, refl)

last_real_t_word-tool_word : (t : Option ℕ) → last_real_t_word t ≡ tool_word t
unfolding last_real_t_word
last_real_t_word-tool_word none = refl
last_real_t_word-tool_word (some t_word) = ground arith

persist-Remembers :
    (s : MachineSnapshot) (m : Mirror) (before : Option (ℕ × ℕ))
    → Remembers m.status before
    → Remembers (persist s m).1.status (last_real (s ∷ []) before)
unfolding persist diff_status
persist-Remembers s m before h =
    recall (tool_word s.status.current_t_number) s.polled_at _ m.status before
      (last_real_t_word-tool_word s.status.current_t_number)
      (ap (λ (real : Option ℕ). elim real [ none ↦ none | some _ ↦ some s.polled_at ])
        (last_real_t_word-tool_word s.status.current_t_number))
      h

-- After any polls the mirror remembers the last T word with station and offset digits that one of them read,
-- with that poll's time, and what it remembered before when none did: no cancel (Tnn00) erases it.
pub persist_all-Remembers :
    (polls : List MachineSnapshot) (m : Mirror) (before : Option (ℕ × ℕ))
    → Remembers m.status before
    → Remembers (persist_all polls m).status (last_real polls before)
unfolding persist_all
persist_all-Remembers [] m before h = h
persist_all-Remembers (s ∷ rest) m before h =
    persist_all-Remembers rest (persist s m).1 (last_real (s ∷ []) before)
      (persist-Remembers s m before h)
