-- ===== src/G10/Parse.antt =====
-- `parse_g10` of g10.py. The patterns are read as what they match: each is deterministic.
use pottracker.Prelude.{
  ℕ, ◌-◌, Bool, true, false, ◌&&◌, ◌||◌, Option, none, some, List, [], ◌∷◌, if◌then◌else◌, ltb, leb,
  eqb, length, any_of, nat_eq,
}
use pottracker.Prelude.Dict.{insert}
use pottracker.Decimal.{Decimal}
use pottracker.Model.{
  RegisterType, h_geom, h_wear, d_geom, d_wear, x_geom, x_wear, z_geom, z_wear, r_geom, r_wear, tip,
  register_type_eq,
}
use pottracker.G10.{Text, Rows, codes, banks_of}
use pottracker.G10.Digits.{is_digit, value_from, is_nil}

-- Where `splitlines` cuts.
abbrev pub is_break : ℕ → Bool
is_break c =
    (leb 10 c && leb c 13) || (leb 28 c && leb c 30) || eqb c 133 || eqb c 8232 || eqb c 8233

abbrev pub prepend : ℕ → List Text → List Text
prepend c [] = (c ∷ []) ∷ []
prepend c (line ∷ lines) = (c ∷ line) ∷ lines

-- After a carriage return a line feed belongs to it.
unfoldable pub splitlines : Bool → Text → List Text
splitlines after_cr [] = []
splitlines after_cr (c ∷ cs) =
    let next = splitlines (eqb c 13) cs in
    if is_break c then if after_cr && eqb c 10 then next else [] ∷ next else prepend c next

-- `str.isspace`.
abbrev pub is_space : ℕ → Bool
is_space c =
    (leb 9 c && leb c 13)
    || (leb 28 c && leb c 32)
    || (leb 8192 c && leb c 8202)
    || any_of (λ s. eqb c s) (133 ∷ 160 ∷ 5760 ∷ 8232 ∷ 8233 ∷ 8239 ∷ 8287 ∷ 12288 ∷ [])

unfoldable pub lstrip : Text → Text
lstrip [] = []
lstrip (c ∷ cs) = let rest = lstrip cs in if is_space c then rest else c ∷ cs

unfoldable pub rstrip : Text → Text
rstrip [] = []
rstrip (c ∷ cs) = let rest = rstrip cs in if is_nil rest && is_space c then [] else c ∷ rest

unfoldable pub strip : Text → Text
unfolding lstrip rstrip
strip line = rstrip (lstrip line)

abbrev pub same_text : Text → Text → Bool
same_text [] [] = true
same_text (c ∷ cs) (d ∷ ds) = eqb c d && same_text cs ds
same_text _ _ = false

-- What is left after a literal.
abbrev pub lit : Text → Text → Option Text
lit [] s = some s
lit (c ∷ cs) [] = none
lit (c ∷ cs) (d ∷ ds) = if eqb c d then lit cs ds else none

-- The digits at the front, as many as there are, and what is left.
unfoldable pub span_digits : Text → Text × Text
span_digits [] = ([], [])
span_digits (c ∷ cs) =
    let rest = span_digits cs in if is_digit c then (c ∷ rest.0, rest.1) else ([], c ∷ cs)

infixl 1 ◌>>=◌
abbrev pub ◌>>=◌ {ℓ κ} : {A : Type ℓ} {B : Type κ} → Option A → (A → Option B) → Option B
none >>= f = none
some a >>= f = f a

-- `\d+`.
abbrev pub some_digits : Text → Text → Option (Text × Text)
some_digits [] rest = none
some_digits (c ∷ cs) rest = some (c ∷ cs, rest)

unfoldable pub digits : Text → Option (Text × Text)
unfolding span_digits
digits s = some_digits (span_digits s).0 (span_digits s).1

abbrev pub minus : Text → Bool × Text
minus [] = (false, [])
minus (c ∷ cs) = if eqb c 45 then (true, cs) else (false, c ∷ cs)

-- `-?\d+\.\d+`, as the `Decimal` of its text.
abbrev pub unsigned : Bool → Text → Option (Decimal × Text)
unsigned negative s = do
  whole ← digits s
  after ← lit (46 ∷ []) whole.1
  places ← digits after
  some (
    (record {
      negative = negative;
      digits = value_from (value_from 0 whole.0) places.0;
      places = length places.0;
    }),
    places.1,
  )

unfoldable pub decimal : Text → Option (Decimal × Text)
unfolding digits value_from
decimal s = let (negative, rest) = minus s in unsigned negative rest

abbrev pub at_end : Text → Option (Unit {0})
at_end [] = some tt
at_end (c ∷ cs) = none

-- The L codes, by their last digit.
unfoldable pub mill_type : ℕ → Option RegisterType
mill_type l =
    if eqb l 48
    then some h_geom
    else if eqb l 49
    then some h_wear
    else if eqb l 50
    then some d_geom
    else if eqb l 51
    then some d_wear
    else none

abbrev pub one : Text → Option (ℕ × Text)
one [] = none
one (c ∷ cs) = some (c, cs)

-- `_MILL_RE`: the bank, the register and the value.
unfoldable pub mill_block : Text → Option (RegisterType × ℕ × Decimal)
unfolding codes mill_type digits decimal value_from
mill_block s = do
  s₁ ← lit (codes "G10 L1") s
  l ← one s₁
  r ← mill_type l.0
  s₂ ← lit (codes " P") l.1
  n ← digits s₂
  s₃ ← lit (codes " R") n.1
  v ← decimal s₃
  _ ← at_end v.1
  some (r, value_from 0 n.0, v.0)

pub record LatheBlock : Type 0 where
  pub p_number : ℕ
  pub first : Decimal
  pub second : Decimal
  pub third : Decimal
  pub q : Option ℕ

-- `(?: Q(\d+))?$`.
abbrev pub optional_q : Text → Option (Option ℕ)
optional_q [] = some none
optional_q (c ∷ cs) = do
  s ← lit (codes " Q") (c ∷ cs)
  q ← digits s
  _ ← at_end q.1
  some (some (value_from 0 q.0))

-- `_LATHE_RE`.
unfoldable pub lathe_block : Text → Option LatheBlock
unfolding codes digits decimal value_from
lathe_block s = do
  s₁ ← lit (codes "G10 P") s
  n ← digits s₁
  s₂ ← lit (codes " X") n.1
  a ← decimal s₂
  s₃ ← lit (codes " Z") a.1
  b ← decimal s₃
  s₄ ← lit (codes " R") b.1
  c ← decimal s₄
  q ← optional_q c.1
  some (record { p_number = value_from 0 n.0; first = a.0; second = b.0; third = c.0; q = q })

-- `\(.*\)`: a line holds no line feed.
abbrev pub ends_paren : Text → Bool
ends_paren [] = false
ends_paren (c ∷ cs) = if is_nil cs then eqb c 41 else ends_paren cs

abbrev pub is_comment : Text → Bool
is_comment [] = false
is_comment (c ∷ cs) = eqb c 40 && ends_paren cs

abbrev pub after_digits : Option (Text × Text) → Bool
after_digits none = false
after_digits (some (ds, rest)) = is_comment rest

abbrev pub is_program_number : Text → Bool
is_program_number [] = false
is_program_number (c ∷ cs) = eqb c 79 && after_digits (digits cs)

-- `_PASSTHROUGH`.
unfoldable pub is_passthrough : Text → Bool
unfolding codes digits
is_passthrough line =
    same_text line (codes "%")
    || is_program_number line
    || is_comment line
    || same_text line (codes "G20")
    || same_text line (codes "G21")
    || same_text line (codes "G90")
    || same_text line (codes "M30")

pub data MachineClass : Type 0 where
  mill lathe : MachineClass

pub record ParsedG10 : Type 0 where
  pub rows : Rows
  pub machine_class : Option MachineClass

-- The `ValueError`s.
pub data ParseError : Type 0 where
  unrecognized mixed_forms missing_q unexpected_q : Text → ParseError

pub data Parsed {ℓ} (A : Type ℓ) : Type ℓ where
  parsed : A → Parsed A
  failed : ParseError → Parsed A

abbrev pub clashes : MachineClass → Option MachineClass → Bool
clashes c none = false
clashes mill (some mill) = false
clashes mill (some lathe) = true
clashes lathe (some mill) = true
clashes lathe (some lathe) = false

-- `_set_class`.
unfoldable pub set_class : MachineClass → Text → ParsedG10 → Parsed ParsedG10
set_class c line out =
    if clashes c out.machine_class
    then failed (mixed_forms line)
    else parsed (record out { machine_class = some c })

-- `out.rows.setdefault(register, {})[register_type] = value`.
unfoldable pub set_bank : ℕ → RegisterType → Decimal → Rows → Rows
unfolding banks_of insert
set_bank n r v rows = insert n (insert r v (banks_of rows n)) rows

abbrev pub then_do : Parsed ParsedG10 → (ParsedG10 → Parsed ParsedG10) → Parsed ParsedG10
then_do (failed e) f = failed e
then_do (parsed out) f = f out

abbrev pub put_rows : (Rows → Rows) → ParsedG10 → ParsedG10
put_rows f out = record out { rows = f out.rows }

abbrev pub tip_value : ℕ → Decimal
tip_value q = record { negative = false; digits = q; places = 0 }

-- A wear line carries no Q, and a geometry line carries one.
abbrev pub wear_q : Option ℕ → Text → ParsedG10 → Parsed ParsedG10
wear_q none line out = parsed out
wear_q (some q) line out = failed (unexpected_q line)

abbrev pub geom_q : ℕ → Option ℕ → Text → ParsedG10 → Parsed ParsedG10
geom_q n none line out = failed (missing_q line)
geom_q n (some q) line out = parsed (put_rows (set_bank n tip (tip_value q)) out)

abbrev pub three : ℕ → RegisterType → RegisterType → RegisterType → LatheBlock → Rows → Rows
three n a b c block rows =
    set_bank n c block.third (set_bank n b block.second (set_bank n a block.first rows))

abbrev pub lathe_banks : LatheBlock → Text → ParsedG10 → Parsed ParsedG10
lathe_banks block line out =
    let n = block.p_number - 10000 in
    if ltb 10000 block.p_number
    then geom_q n block.q line (put_rows (three n x_geom z_geom r_geom block) out)
    else wear_q block.q line (put_rows (three block.p_number x_wear z_wear r_wear block) out)

abbrev pub lathe_or_fail : Option LatheBlock → Text → ParsedG10 → Parsed ParsedG10
lathe_or_fail none line out = failed (unrecognized line)
lathe_or_fail (some block) line out = then_do (set_class lathe line out) (lathe_banks block line)

abbrev pub mill_or_else : Option (RegisterType × ℕ × Decimal) → Text → ParsedG10 → Parsed ParsedG10
mill_or_else none line out = lathe_or_fail (lathe_block line) line out
mill_or_else (some (r, n, v)) line out =
    then_do (set_class mill line out) (λ out. parsed (put_rows (set_bank n r v) out))

-- The body of the loop, for a line that was stripped.
unfoldable pub step : Text → ParsedG10 → Parsed ParsedG10
unfolding is_passthrough mill_block lathe_block set_class set_bank
step line out =
    if is_nil line || is_passthrough line
    then parsed out
    else mill_or_else (mill_block line) line out

unfoldable pub steps : List Text → ParsedG10 → Parsed ParsedG10
unfolding step strip
steps [] out = parsed out
steps (raw ∷ lines) out = then_do (step (strip raw) out) (steps lines)

abbrev pub empty : ParsedG10
empty = record { rows = []; machine_class = none }

unfoldable pub parse_g10 : Text → Parsed ParsedG10
unfolding steps splitlines
parse_g10 text = steps (splitlines false text) empty
