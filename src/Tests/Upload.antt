-- ===== src/Tests/Upload.antt =====
-- Uploads of a program.
use pottracker.Prelude.{◌≡◌, refl, ℕ, zero, suc, List, [], ◌∷◌, arith}
use pottracker.Decimal.{pos}
use pottracker.Focas.Programs.{
  Reply, Control, read_program_text, returned, raw_prefix, join, rstrip, ends_with_percent,
}
use pottracker.Focas.Programs.Closes.{IsClosed, read_program_text-IsClosed}
use pottracker.Focas.Programs.Bounded.{IsWhole, read_program_text-IsWhole}
use pottracker.Focas.Programs.Faithful.{
  Chunk, Answers, IsProgram, data_of, read_program_text-Answers,
}

-- `%`, a line and `%`, in two chunks with an empty reply between, the buffer longer than what is stored.
abbrev reply : ℕ → Reply
reply zero = record { rc = pos 0; length_out = pos 4; buffer = 37 ∷ 10 ∷ 79 ∷ 49 ∷ 0 ∷ 0 ∷ [] }
reply (suc zero) = record { rc = pos 10; length_out = pos 0; buffer = [] }
reply (suc (suc i)) = record { rc = pos 0; length_out = pos 3; buffer = 10 ∷ 37 ∷ 10 ∷ 0 ∷ 0 ∷ [] }

abbrev control : Control
control = record { upstart = λ n. pos 0; upload = reply }

abbrev program : List Chunk
program = Chunk.bytes (37 ∷ 10 ∷ 79 ∷ 49 ∷ []) ∷ Chunk.busy ∷ Chunk.bytes (10 ∷ 37 ∷ 10 ∷ []) ∷ []

abbrev text : List ℕ
text = 37 ∷ 10 ∷ 79 ∷ 49 ∷ 10 ∷ 37 ∷ 10 ∷ []

uploaded : (read_program_text control (pos 1)).1 ≡ returned text
unfolding read_program_text
uploaded = refl

-- A first chunk that is `%` and a line feed is taken for the whole program.
cut_short :
    (read_program_text
      (record {
        upstart = λ n. pos 0;
        upload = λ i. record { rc = pos 0; length_out = pos 2; buffer = 37 ∷ 10 ∷ [] };
      })
      (pos 1)).1
    ≡ returned (37 ∷ 10 ∷ [])
unfolding read_program_text
cut_short = refl

sent : Answers control.upload 0 program
unfolding Answers raw_prefix
sent = ((refl, refl), (refl, ((refl, refl), tt)))

program-IsProgram : IsProgram 0 0 program
unfolding IsProgram rstrip ends_with_percent
program-IsProgram = (omega arith, refl, (omega arith, (omega arith, refl)))

read_program_text-IsClosed_example : IsClosed (read_program_text control (pos 1)).0
read_program_text-IsClosed_example = read_program_text-IsClosed control (pos 1)

read_program_text-IsWhole_example : IsWhole text
read_program_text-IsWhole_example = read_program_text-IsWhole control (pos 1) text uploaded

read_program_text-Answers_example :
    (read_program_text control (pos 1)).1 ≡ returned (join (data_of program))
read_program_text-Answers_example =
    read_program_text-Answers control 0 program refl sent program-IsProgram (omega arith)
