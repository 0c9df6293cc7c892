-- ===== src/G10/Lines.antt =====
-- The lines of a program: how they are cut, stripped and passed over.
use pottracker.Prelude.{
  ℕ, zero, suc, ◌-◌, ◌≡◌, refl, ◌∙◌, ap, Bool, true, false, ◌&&◌, ◌||◌, not, List, [], ◌∷◌, ◌++◌,
  if◌then◌else◌, if_elim, leb, eqb, arith, length,
}
use pottracker.G10.{Text, codes, punched, is_punched, comment, comment_text, padded, zeros, joined}
use pottracker.G10.Digits.{
  is_digit, is_nil, show_nat, all_of, all_of-append, show_nat-is_digit, show_nat-some,
}
use pottracker.G10.Parse.{
  is_break, is_space, splitlines, strip, lstrip, rstrip, ends_paren, is_passthrough, step, parsed,
  ParsedG10,
}
use pottracker.G10.Numbers.{digits-append}

-- Printable ASCII.
abbrev pub is_plain : ℕ → Bool
is_plain c = leb 32 c && leb c 126

abbrev pub starts_solid : Text → Bool
starts_solid [] = false
starts_solid (c ∷ cs) = not (is_space c)

abbrev pub ends_solid : Text → Bool
ends_solid [] = false
ends_solid (c ∷ cs) = if is_nil cs then not (is_space c) else ends_solid cs

-- A line as the program writes them.
pub record IsLine (line : Text) : Type 0 where
  pub plain : all_of is_plain line ≡ true
  pub first : starts_solid line ≡ true
  pub last : ends_solid line ≡ true

both : (a b : Bool) → (a && b) ≡ true → (a ≡ true) × (b ≡ true)
both a b h = ground arith

no_break : (c : ℕ) → is_plain c ≡ true → is_break c ≡ false
no_break c h = ground arith

no_cr : (c : ℕ) → is_plain c ≡ true → eqb c 13 ≡ false
no_cr c h = ground arith

splitlines-plain :
    (line rest : Text)
    → all_of is_plain line ≡ true
    → splitlines false (line ++ (10 ∷ rest)) ≡ line ∷ splitlines false rest
unfolding splitlines all_of
splitlines-plain [] rest h = refl
splitlines-plain (c ∷ line) rest h =
    let hs = both (is_plain c) (all_of is_plain line) h in
    rw (no_break c hs.0, no_cr c hs.0, splitlines-plain line rest hs.1) refl

abbrev pub AllLines : List Text → Type 0
AllLines [] = Unit
AllLines (line ∷ lines) = IsLine line × AllLines lines

pub AllLines-append : (xs ys : List Text) → AllLines xs → AllLines ys → AllLines (xs ++ ys)
AllLines-append [] ys h k = k
AllLines-append (x ∷ xs) ys h k = (h.0, AllLines-append xs ys h.1 k)

-- What was joined is cut into its lines again.
pub splitlines-joined :
    (lines : List Text) → AllLines lines → splitlines false (joined lines) ≡ lines
unfolding joined splitlines
splitlines-joined [] h = refl
splitlines-joined (line ∷ lines) h =
    splitlines-plain line (joined lines) (h.0).plain
    ∙ ap (λ ls. line ∷ ls) (splitlines-joined lines h.1)

solid : (c : ℕ) → not (is_space c) ≡ true → is_space c ≡ false
solid c h = ground arith

lstrip-solid : (line : Text) → starts_solid line ≡ true → lstrip line ≡ line
unfolding lstrip
lstrip-solid [] h = refl
lstrip-solid (c ∷ cs) h = rw (solid c h) refl

keeps :
    (c d : ℕ) (cs : Text)
    → (if is_nil (d ∷ cs) && is_space c then [] else c ∷ (d ∷ cs)) ≡ c ∷ (d ∷ cs)
keeps c d cs = refl

rstrip-solid : (line : Text) → ends_solid line ≡ true → rstrip line ≡ line
unfolding rstrip
rstrip-solid [] h = refl
rstrip-solid (c ∷ []) h = rw (solid c h) refl
rstrip-solid (c ∷ d ∷ cs) h =
    ap (λ rest. if is_nil rest && is_space c then [] else c ∷ rest) (rstrip-solid (d ∷ cs) h)

pub strip-IsLine : (line : Text) → IsLine line → strip line ≡ line
unfolding strip
strip-IsLine line h = ap rstrip (lstrip-solid line h.first) ∙ rstrip-solid line h.last

pub ends_solid-append : (xs ys : Text) → ends_solid ys ≡ true → ends_solid (xs ++ ys) ≡ true
ends_solid-append [] ys h = h
ends_solid-append (x ∷ []) [] h = ground arith
ends_solid-append (x ∷ []) (y ∷ ys) h = h
ends_solid-append (x ∷ w ∷ xs) ys h = ends_solid-append (w ∷ xs) ys h

ends_paren-append : (xs : Text) → ends_paren (xs ++ (41 ∷ [])) ≡ true
ends_paren-append [] = refl
ends_paren-append (x ∷ []) = refl
ends_paren-append (x ∷ w ∷ xs) = ends_paren-append (w ∷ xs)

punched_plain : (c : ℕ) → is_punched c ≡ true → is_plain c ≡ true
punched_plain c h = ground arith

plain_punched : (c : ℕ) → is_plain (if is_punched c then c else 45) ≡ true
plain_punched c =
    if_elim (λ (d : ℕ). is_plain d ≡ true) (is_punched c) (punched_plain c) (λ _. refl)

punched-plain : (text : Text) → all_of is_plain (punched text) ≡ true
unfolding punched all_of
punched-plain [] = refl
punched-plain (c ∷ cs) = rw (plain_punched c, punched-plain cs) refl

comment-IsLine : (upper : Text → Text) (text : Text) → IsLine (comment (comment_text upper text))
unfolding comment_text all_of
comment-IsLine upper text = record {
  plain = all_of-append is_plain (punched (upper text)) (41 ∷ []) (punched-plain (upper text)) refl;
  first = refl;
  last = ends_solid-append (40 ∷ punched (upper text)) (41 ∷ []) refl;
}

-- A line that is passed over.
pub record IsPassed (line : Text) : Type 0 where
  pub line_of : IsLine line
  pub passed : is_passthrough line ≡ true

pub comment-IsPassed :
    (upper : Text → Text) (text : Text) → IsPassed (comment (comment_text upper text))
unfolding is_passthrough
comment-IsPassed upper text = record {
  line_of = comment-IsLine upper text;
  passed = rw (ends_paren-append (comment_text upper text)) refl;
}

digit_plain : (c : ℕ) → is_digit c ≡ true → is_plain c ≡ true
digit_plain c h = ground arith

digit_solid : (c : ℕ) → is_digit c ≡ true → not (is_space c) ≡ true
digit_solid c h = ground arith

pub digits-plain : (xs : Text) → all_of is_digit xs ≡ true → all_of is_plain xs ≡ true
unfolding all_of
digits-plain [] h = refl
digits-plain (c ∷ cs) h =
    let hs = both (is_digit c) (all_of is_digit cs) h in
    rw (digit_plain c hs.0, digits-plain cs hs.1) refl

pub digits-ends_solid :
    (xs : Text) → all_of is_digit xs ≡ true → is_nil xs ≡ false → ends_solid xs ≡ true
unfolding all_of
digits-ends_solid [] h k = ground arith
digits-ends_solid (c ∷ []) h k = digit_solid c (both (is_digit c) true h).0
digits-ends_solid (c ∷ d ∷ cs) h k =
    digits-ends_solid (d ∷ cs) (both (is_digit c) (all_of is_digit (d ∷ cs)) h).1 refl

zeros-is_digit : (n : ℕ) → all_of is_digit (zeros n) ≡ true
unfolding all_of
zeros-is_digit zero = refl
zeros-is_digit (suc n) = zeros-is_digit n

padded-is_digit : (n : ℕ) → all_of is_digit (padded (show_nat n)) ≡ true
padded-is_digit n =
    all_of-append is_digit (zeros (4 - length (show_nat n))) (show_nat n)
      (zeros-is_digit (4 - length (show_nat n))) (show_nat-is_digit n)

longer : (xs ys : Text) → is_nil ys ≡ false → is_nil (xs ++ ys) ≡ false
longer [] ys h = h
longer (x ∷ xs) ys h = refl

pub program_line-IsPassed :
    (upper : Text → Text) (n : ℕ) (text : Text)
    → IsPassed (79 ∷ (padded (show_nat n) ++ comment (comment_text upper text)))
unfolding is_passthrough all_of
program_line-IsPassed upper n text =
    let ds = padded (show_nat n) in
    let body = comment_text upper text in
    record {
      line_of = record {
        plain =
            all_of-append is_plain ds (comment body) (digits-plain ds (padded-is_digit n))
              (comment-IsLine upper text).plain;
        first = refl;
        last = ends_solid-append (79 ∷ ds) (comment body) (comment-IsLine upper text).last;
      };
      passed =
          rw
            (
              digits-append ds (comment body) (padded-is_digit n)
                  (longer (zeros (4 - length (show_nat n))) (show_nat n) (show_nat-some n)) refl,
              ends_paren-append body,
            )
            refl;
    }

pub percent-IsPassed : IsPassed (codes "%")
unfolding codes is_passthrough all_of
percent-IsPassed = record {
  line_of = record { plain = refl; first = refl; last = refl };
  passed = refl;
}

pub unit_line-IsPassed : (b : Bool) → IsPassed (if b then codes "G20" else codes "G21")
unfolding codes is_passthrough all_of
unit_line-IsPassed true = record {
  line_of = record { plain = refl; first = refl; last = refl };
  passed = refl;
}
unit_line-IsPassed false = record {
  line_of = record { plain = refl; first = refl; last = refl };
  passed = refl;
}

pub g90-IsPassed : IsPassed (codes "G90")
unfolding codes is_passthrough all_of
g90-IsPassed = record {
  line_of = record { plain = refl; first = refl; last = refl };
  passed = refl;
}

pub m30-IsPassed : IsPassed (codes "M30")
unfolding codes is_passthrough all_of
m30-IsPassed = record {
  line_of = record { plain = refl; first = refl; last = refl };
  passed = refl;
}

passes : {A : Type 0} (a b : A) (c : Bool) → (if c || true then a else b) ≡ a
passes a b true = refl
passes a b false = refl

-- A line that is passed over leaves what was parsed before.
pub step-IsPassed :
    (line : Text) (out : ParsedG10) → IsPassed line → step (strip line) out ≡ parsed out
unfolding step
step-IsPassed line out h =
    ap (λ l. step l out) (strip-IsLine line h.line_of)
    ∙ rw h.passed (passes (parsed out) _ (is_nil line))
