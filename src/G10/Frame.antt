-- ===== src/G10/Frame.antt =====
-- What surrounds the body of a program: its header and its last lines are passed over by the parser.
use pottracker.Prelude.{
  ℕ, ◌≡◌, refl, ◌∙◌, ap, ap₂, Bool, true, false, none, some, List, [], ◌∷◌, ◌++◌, append-nil,
  if◌then◌else◌, ◌==◌, nat_eq, string_eq, any_of,
}
use pottracker.Prelude.Dict.{lookup}
use pottracker.Decimal.{Decimal}
use pottracker.Model.{RegisterType, register_type_eq}
use pottracker.G10.{
  Text, banks_of, G10Meta, codes, header, joined, unverified, comment, comment_text, coverage_note,
}
use pottracker.G10.Parse.{MachineClass, ParsedG10, parsed, clashes, steps, empty, parse_g10}
use pottracker.G10.Lines.{
  IsPassed, AllLines, AllLines-append, splitlines-joined, comment-IsPassed, program_line-IsPassed,
  percent-IsPassed, unit_line-IsPassed, m30-IsPassed,
}
use pottracker.G10.Writes.{Write, same_write, value_at, value_at-applied}
use pottracker.G10.Reached.{Reached, Reached-nil, Reached-append, Reached-passed}

abbrev pub AllPassed : List Text → Type 0
AllPassed [] = Unit
AllPassed (line ∷ lines) = IsPassed line × AllPassed lines

AllPassed-append : (xs ys : List Text) → AllPassed xs → AllPassed ys → AllPassed (xs ++ ys)
AllPassed-append [] ys h k = k
AllPassed-append (x ∷ xs) ys h k = (h.0, AllPassed-append xs ys h.1 k)

AllPassed-AllLines : (xs : List Text) → AllPassed xs → AllLines xs
AllPassed-AllLines [] h = tt
AllPassed-AllLines (x ∷ xs) h = ((h.0).line_of, AllPassed-AllLines xs h.1)

module _ (c : MachineClass) (given : ℕ → RegisterType → Decimal) where
  passed-Reached :
      (lines : List Text) (out : ParsedG10)
      → AllPassed lines
      → clashes c out.machine_class ≡ false
      → Reached c given lines out []
  passed-Reached [] out h free = Reached-nil c given out free
  passed-Reached (line ∷ lines) out h free =
      let first = Reached-passed c given line out h.0 free in
      Reached-append c given (line ∷ []) lines out [] [] first
        (passed-Reached lines first.end h.1 first.free)

  value_at-nil : (n : ℕ) (r : RegisterType) → value_at [] n r ≡ none
  unfolding value_at banks_of lookup
  value_at-nil n r = refl

  -- A program whose body writes `writes` is parsed, and its banks hold what was written.
  pub parsed_program :
      (head lines : List Text) (writes : List Write)
      → AllPassed head
      → AllLines lines
      → ((out : ParsedG10) → clashes c out.machine_class ≡ false → Reached c given lines out writes)
      → (out : ParsedG10) × (parse_g10 (joined (head ++ (lines ++ (codes "M30" ∷ codes "%" ∷ []))))
          ≡ parsed out)
        × ((n : ℕ) (r : RegisterType)
            → value_at out.rows n r
              ≡ (if any_of (same_write n r) writes then some (given n r) else none))
  unfolding parse_g10
  parsed_program head lines writes passed shaped reached =
      let ends = codes "M30" ∷ codes "%" ∷ [] in
      let ends_passed : AllPassed ends = (m30-IsPassed, (percent-IsPassed, tt)) in
      let whole = head ++ (lines ++ ends) in
      let shape : AllLines whole =
        AllLines-append head (lines ++ ends) (AllPassed-AllLines head passed)
          (AllLines-append lines ends shaped (AllPassed-AllLines ends ends_passed)) in
      let first = passed-Reached head empty passed refl in
      let second = reached first.end first.free in
      let third = passed-Reached ends second.end ends_passed second.free in
      let all =
        Reached-append c given head (lines ++ ends) empty [] (writes ++ []) first
          (Reached-append c given lines ends first.end writes [] second third) in
      (
        all.end,
        ap (λ ls. steps ls empty) (splitlines-joined whole shape) ∙ all.runs,
        λ n r.
            ap (λ rows. value_at rows n r) all.rows
            ∙ value_at-applied given (writes ++ []) [] n r
            ∙ ap₂ (λ ws old. if any_of (same_write n r) ws then some (given n r) else old)
                (append-nil writes) (value_at-nil n r),
      )

unverified-AllPassed : (upper : Text → Text) (b : Bool) → AllPassed (unverified upper b)
unverified-AllPassed upper true = tt
unverified-AllPassed upper false =
    (comment-IsPassed upper (codes "FORM UNVERIFIED ON THIS MACHINE - DO NOT RUN"), tt)

pub header-AllPassed :
    (upper : Text → Text) (meta : G10Meta) (count : ℕ) → AllPassed (header upper meta count)
unfolding header
header-AllPassed upper meta count = (
  percent-IsPassed,
  (
    program_line-IsPassed upper meta.program_number (codes "POTTRACKER OFFSET EXPORT"),
    (
      comment-IsPassed upper (codes "MACHINE " ++ meta.machine_name),
      (
        comment-IsPassed upper (codes "GENERATED " ++ meta.generated_at),
        (
          comment-IsPassed upper meta.mirror_note,
          (
            comment-IsPassed upper (coverage_note meta count),
            AllPassed-append (unverified upper meta.form_verified)
                (comment (comment_text upper (codes "UNIT " ++ codes meta.unit))
                  ∷ (if meta.unit == "inch" then codes "G20" else codes "G21")
                  ∷ [])
                (unverified-AllPassed upper meta.form_verified)
                (
                  comment-IsPassed upper (codes "UNIT " ++ codes meta.unit),
                  (unit_line-IsPassed (meta.unit == "inch"), tt),
                ),
          ),
        ),
      ),
    ),
  ),
)
