-- ===== src/G10/MillLines.antt =====
-- The lines of a mill's program, parsed.
use pottracker.Prelude.{
  ℕ, suc, ◌≡◌, refl, ◌∙◌, ap, Bool, true, false, Option, some, List, [], ◌∷◌, ◌++◌, nat_eq,
}
use pottracker.Prelude.Dict.{lookup}
use pottracker.Decimal.{Decimal}
use pottracker.Model.{RegisterType, register_type_eq}
use pottracker.G10.{
  Text, Rows, banks_of, codes, print_value, format_value, rounded, sign, mill_line, mill_lines,
  mill_register, mill_banks,
}
use pottracker.G10.Digits.{
  show_nat, fixed, shifted, all_of, all_of-append, show_nat-is_digit, fixed-is_digit, fixed-some,
}
use pottracker.G10.Parse.{
  mill, ParsedG10, parsed, mill_block, mill_type, mill_or_else, set_class, set_bank, clashes,
  is_passthrough, step,
}
use pottracker.G10.Blocks.{mill_block-mill_line}
use pottracker.G10.Lines.{
  is_plain, ends_solid, IsLine, AllLines, AllLines-append, digits-plain, digits-ends_solid,
  ends_solid-append,
}
use pottracker.G10.Writes.{Write, applied}
use pottracker.G10.Reached.{Reached, Reached-nil, Reached-append, Reached-line}

sign-plain : (b : Bool) → all_of is_plain (sign b) ≡ true
unfolding all_of
sign-plain true = refl
sign-plain false = refl

pub format_value-plain : (p : ℕ) (v : Option Decimal) → all_of is_plain (format_value p v) ≡ true
unfolding format_value print_value
format_value-plain p v =
    let d = rounded p v in
    let after =
      all_of-append is_plain (46 ∷ []) (fixed p d.digits) (unfold all_of in refl)
        (digits-plain (fixed p d.digits) (fixed-is_digit p d.digits)) in
    all_of-append is_plain (sign d.negative)
      (show_nat (shifted p d.digits) ++ (46 ∷ fixed p d.digits)) (sign-plain d.negative)
      (all_of-append is_plain (show_nat (shifted p d.digits)) (46 ∷ fixed p d.digits)
        (digits-plain (show_nat (shifted p d.digits)) (show_nat-is_digit (shifted p d.digits)))
        after)

pub format_value-ends : (k : ℕ) (v : Option Decimal) → ends_solid (format_value (suc k) v) ≡ true
unfolding format_value print_value
format_value-ends k v =
    let p = suc k in
    let d = rounded p v in
    let whole = show_nat (shifted p d.digits) in
    ends_solid-append (sign d.negative) (whole ++ (46 ∷ fixed p d.digits)) (
      ends_solid-append whole (46 ∷ fixed p d.digits) (
        ends_solid-append (46 ∷ []) (fixed p d.digits) (
          digits-ends_solid (fixed p d.digits) (fixed-is_digit p d.digits)
            (fixed-some k d.digits))))

pub show_nat-plain : (n : ℕ) → all_of is_plain (show_nat n) ≡ true
show_nat-plain n = digits-plain (show_nat n) (show_nat-is_digit n)

mill_line-IsLine :
    (l n : ℕ) (value : Text)
    → is_plain l ≡ true
    → all_of is_plain value ≡ true
    → ends_solid value ≡ true
    → IsLine (mill_line l n value)
unfolding mill_line codes all_of
mill_line-IsLine l n value h plain ends = record {
  plain =
      rw (h, all_of-append is_plain (show_nat n) (32 ∷ 82 ∷ value) (show_nat-plain n) plain) refl;
  first = refl;
  last =
      ends_solid-append (71 ∷ 49 ∷ 48 ∷ 32 ∷ 76 ∷ 49 ∷ l ∷ 32 ∷ 80 ∷ [])
        (show_nat n ++ (32 ∷ 82 ∷ value))
        (ends_solid-append (show_nat n) (32 ∷ 82 ∷ value)
          (ends_solid-append (32 ∷ 82 ∷ []) value ends));
}

-- Not one of the lines that are passed over.
step-mill_line :
    (l n : ℕ) (value : Text) (r : RegisterType) (v : Decimal) (out : ParsedG10)
    → mill_block (mill_line l n value) ≡ some (r, n, v)
    → clashes mill out.machine_class ≡ false
    → step (mill_line l n value) out
      ≡ parsed (record { rows = set_bank n r v out.rows; machine_class = some mill })
unfolding step mill_line codes is_passthrough set_class
step-mill_line l n value r v out e free =
    ap (λ m. mill_or_else m (mill_line l n value) out) e ∙ rw free refl

module _ (k : ℕ) (rows : Rows) where
  -- The value that is printed for a bank.
  abbrev pub printed : ℕ → RegisterType → Decimal
  printed n r = rounded (suc k) (lookup r (banks_of rows n))

  abbrev pub bank_writes : ℕ → List (RegisterType × ℕ) → List Write
  bank_writes n [] = []
  bank_writes n ((r, l) ∷ bs) = (n, r) ∷ bank_writes n bs

  abbrev pub mill_writes : List ℕ → List Write
  mill_writes [] = []
  mill_writes (n ∷ ns) = bank_writes n mill_banks ++ mill_writes ns

  -- The L codes that are printed are plain and read as their banks.
  abbrev AreBanks : List (RegisterType × ℕ) → Type 0
  AreBanks [] = Unit
  AreBanks ((r, l) ∷ bs) = ((is_plain l ≡ true) × (mill_type l ≡ some r)) × AreBanks bs

  mill_banks-AreBanks : AreBanks mill_banks
  unfolding mill_type
  mill_banks-AreBanks = ((refl, refl), ((refl, refl), ((refl, refl), ((refl, refl), tt))))

  abbrev bank_line : ℕ → RegisterType → ℕ → Text
  bank_line n r l = mill_line l n (format_value (suc k) (lookup r (banks_of rows n)))

  bank_line-IsLine : (n l : ℕ) (r : RegisterType) → is_plain l ≡ true → IsLine (bank_line n r l)
  bank_line-IsLine n l r h =
      let v = lookup r (banks_of rows n) in
      mill_line-IsLine l n (format_value (suc k) v) h (format_value-plain (suc k) v)
        (format_value-ends k v)

  bank_line-Reached :
      (n l : ℕ) (r : RegisterType) (out : ParsedG10)
      → is_plain l ≡ true
      → mill_type l ≡ some r
      → clashes mill out.machine_class ≡ false
      → Reached mill printed (bank_line n r l ∷ []) out ((n, r) ∷ [])
  unfolding applied
  bank_line-Reached n l r out h e free =
      let v = lookup r (banks_of rows n) in
      Reached-line mill printed (bank_line n r l) out
        (record { rows = set_bank n r (printed n r) out.rows; machine_class = some mill })
        ((n, r) ∷ []) (bank_line-IsLine n l r h)
        (step-mill_line l n (format_value (suc k) v) r (printed n r) out
          (mill_block-mill_line k l n r v e) free)
        refl refl

  mill_register-Reached :
      (n : ℕ) (bs : List (RegisterType × ℕ)) (out : ParsedG10)
      → AreBanks bs
      → clashes mill out.machine_class ≡ false
      → Reached mill printed (mill_register (suc k) n (banks_of rows n) bs) out (bank_writes n bs)
  mill_register-Reached n [] out h free = Reached-nil mill printed out free
  mill_register-Reached n ((r, l) ∷ bs) out h free =
      let first = bank_line-Reached n l r out (h.0).0 (h.0).1 free in
      Reached-append mill printed (bank_line n r l ∷ [])
        (mill_register (suc k) n (banks_of rows n) bs) out ((n, r) ∷ []) (bank_writes n bs) first
        (mill_register-Reached n bs first.end h.1 first.free)

  pub mill_lines-Reached :
      (ns : List ℕ) (out : ParsedG10)
      → clashes mill out.machine_class ≡ false
      → Reached mill printed (mill_lines (suc k) rows ns) out (mill_writes ns)
  unfolding mill_lines
  mill_lines-Reached [] out free = Reached-nil mill printed out free
  mill_lines-Reached (n ∷ ns) out free =
      let first = mill_register-Reached n mill_banks out mill_banks-AreBanks free in
      Reached-append mill printed (mill_register (suc k) n (banks_of rows n) mill_banks)
        (mill_lines (suc k) rows ns) out (bank_writes n mill_banks) (mill_writes ns) first
        (mill_lines-Reached ns first.end first.free)

  mill_register-AllLines :
      (n : ℕ) (bs : List (RegisterType × ℕ))
      → AreBanks bs
      → AllLines (mill_register (suc k) n (banks_of rows n) bs)
  mill_register-AllLines n [] h = tt
  mill_register-AllLines n ((r, l) ∷ bs) h =
      (bank_line-IsLine n l r (h.0).0, mill_register-AllLines n bs h.1)

  pub mill_lines-AllLines : (ns : List ℕ) → AllLines (mill_lines (suc k) rows ns)
  unfolding mill_lines
  mill_lines-AllLines [] = tt
  mill_lines-AllLines (n ∷ ns) =
      AllLines-append (mill_register (suc k) n (banks_of rows n) mill_banks)
        (mill_lines (suc k) rows ns) (mill_register-AllLines n mill_banks mill_banks-AreBanks)
        (mill_lines-AllLines ns)
