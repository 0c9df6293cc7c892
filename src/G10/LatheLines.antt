-- ===== src/G10/LatheLines.antt =====
-- The lines of a lathe's program, parsed.
use pottracker.Prelude.{
  ℕ, suc, ◌+◌, ◌-◌, ◌≤◌, ◌<◌, ◌≡◌, refl, sym, ◌∙◌, ap, subst, true, false, Option, none, some, List,
  [], ◌∷◌, ◌++◌, append-nil, ltb, arith, All,
}
use pottracker.Prelude.Dict.{lookup}
use pottracker.Decimal.{Decimal}
use pottracker.Model.{
  RegisterType, x_geom, x_wear, z_geom, z_wear, r_geom, r_wear, tip, register_type_eq,
}
use pottracker.G10.{
  Text, Rows, banks_of, codes, format_value, rounded, lathe_line, wear_line, geom_line, lathe_lines,
  tip_text, tip_number, tip_negative,
}
use pottracker.G10.Digits.{show_nat, all_of, all_of-append, show_nat-is_digit, show_nat-some}
use pottracker.G10.Parse.{
  lathe, ParsedG10, mill_block, lathe_block, LatheBlock, lathe_or_fail, lathe_banks, set_class,
  set_bank, clashes, is_passthrough, step, tip_value, three,
}
use pottracker.G10.Blocks.{lathe_block-lathe_line, optional_q-show_nat}
use pottracker.G10.Lines.{
  is_plain, ends_solid, IsLine, AllLines, digits-ends_solid, ends_solid-append,
}
use pottracker.G10.MillLines.{format_value-plain, format_value-ends, show_nat-plain}
use pottracker.G10.Writes.{Write, applied}
use pottracker.G10.Reached.{Reached, Reached-nil, Reached-append, Reached-line}

lathe_line-IsLine :
    (n : ℕ) (a b c : Text)
    → all_of is_plain a ≡ true
    → all_of is_plain b ≡ true
    → all_of is_plain c ≡ true
    → ends_solid c ≡ true
    → IsLine (lathe_line n a b c)
unfolding lathe_line codes all_of
lathe_line-IsLine n a b c ha hb hc ends =
    let end_c : Text = 32 ∷ 82 ∷ c in
    let end_b : Text = 32 ∷ 90 ∷ (b ++ end_c) in
    let end_a : Text = 32 ∷ 88 ∷ (a ++ end_b) in
    record {
      plain =
          all_of-append is_plain (show_nat n) end_a (show_nat-plain n)
            (all_of-append is_plain a end_b ha (all_of-append is_plain b end_c hb hc));
      first = refl;
      last = ends_solid-append (71 ∷ 49 ∷ 48 ∷ 32 ∷ 80 ∷ []) (show_nat n ++ end_a) (
          ends_solid-append (show_nat n) end_a (
            ends_solid-append (32 ∷ 88 ∷ a) end_b
              (ends_solid-append (32 ∷ 90 ∷ b) end_c (ends_solid-append (32 ∷ 82 ∷ []) c ends))));
    }

step-lathe_line :
    (n : ℕ) (a b c : Text) (block : LatheBlock) (out : ParsedG10)
    → lathe_block (lathe_line n a b c) ≡ some block
    → clashes lathe out.machine_class ≡ false
    → step (lathe_line n a b c) out
      ≡ lathe_banks block (lathe_line n a b c) (record out { machine_class = some lathe })
unfolding step lathe_line codes is_passthrough set_class mill_block
step-lathe_line n a b c block out e free =
    ap (λ m. lathe_or_fail m (lathe_line n a b c) out) e ∙ rw free refl

wear_number : (n : ℕ) → n ≤ 10000 → ltb 10000 n ≡ false
wear_number n h = ground arith

geom_number : (n : ℕ) → 0 < n → ltb 10000 (10000 + n) ≡ true
geom_number n h = ground arith

module _ (k : ℕ) (rows : Rows) where
  value : ℕ → RegisterType → Option Decimal
  value n r = lookup r (banks_of rows n)

  -- The value that is printed for a bank.
  unfoldable pub printed : ℕ → RegisterType → Decimal
  unfolding lookup banks_of
  printed n tip = tip_value (tip_number (lookup tip (banks_of rows n)))
  printed n r = rounded (suc k) (lookup r (banks_of rows n))

  abbrev pub wear_writes : ℕ → List Write
  wear_writes n = (n, x_wear) ∷ (n, z_wear) ∷ (n, r_wear) ∷ []

  abbrev pub geom_writes : ℕ → List Write
  geom_writes n = (n, x_geom) ∷ (n, z_geom) ∷ (n, r_geom) ∷ (n, tip) ∷ []

  abbrev pub lathe_writes : List ℕ → List Write
  lathe_writes [] = []
  lathe_writes (n ∷ ns) = wear_writes n ++ (geom_writes n ++ lathe_writes ns)

  -- A register number that a G10 line can carry, and a tip code.
  pub record IsLatheRegister (n : ℕ) : Type 0 where
    pub positive : 0 < n
    pub small : n ≤ 10000
    pub tip_code : tip_negative (lookup tip (banks_of rows n)) ≡ false

  wear_line-IsLine : (n : ℕ) → IsLine (wear_line (suc k) n (banks_of rows n))
  wear_line-IsLine n =
      let a = lookup x_wear (banks_of rows n) in
      let b = lookup z_wear (banks_of rows n) in
      let c = lookup r_wear (banks_of rows n) in
      lathe_line-IsLine n (format_value (suc k) a) (format_value (suc k) b) (format_value (suc k) c)
        (format_value-plain (suc k) a) (format_value-plain (suc k) b) (format_value-plain (suc k) c)
        (format_value-ends k c)

  wear_block : ℕ → LatheBlock
  wear_block n = record {
    p_number = n;
    first = rounded (suc k) (lookup x_wear (banks_of rows n));
    second = rounded (suc k) (lookup z_wear (banks_of rows n));
    third = rounded (suc k) (lookup r_wear (banks_of rows n));
    q = none;
  }

  lathe_block-wear_line :
      (n : ℕ) → lathe_block (wear_line (suc k) n (banks_of rows n)) ≡ some (wear_block n)
  unfolding wear_block
  lathe_block-wear_line n =
      let a = lookup x_wear (banks_of rows n) in
      let b = lookup z_wear (banks_of rows n) in
      let c = lookup r_wear (banks_of rows n) in
      ap (λ t. lathe_block (lathe_line n (format_value (suc k) a) (format_value (suc k) b) t))
        (sym (append-nil (format_value (suc k) c)))
      ∙ lathe_block-lathe_line k n a b c [] none refl refl

  wear_line-Reached :
      (n : ℕ) (out : ParsedG10)
      → n ≤ 10000
      → clashes lathe out.machine_class ≡ false
      → Reached lathe printed (wear_line (suc k) n (banks_of rows n) ∷ []) out (wear_writes n)
  unfolding applied printed wear_block
  wear_line-Reached n out h free =
      let line = wear_line (suc k) n (banks_of rows n) in
      Reached-line lathe printed line out
        (record {
          rows = three n x_wear z_wear r_wear (wear_block n) out.rows;
          machine_class = some lathe;
        })
        (wear_writes n) (wear_line-IsLine n)
        (step-lathe_line n _ _ _ (wear_block n) out (lathe_block-wear_line n) free
          ∙ rw (wear_number n h) refl)
        refl refl

  -- ` Qn` after the geometry.
  abbrev q_tail : ℕ → Text
  q_tail n = codes " Q" ++ show_nat (tip_number (lookup tip (banks_of rows n)))

  tip_text-show_nat :
      (n : ℕ)
      → tip_negative (lookup tip (banks_of rows n)) ≡ false
      → tip_text (lookup tip (banks_of rows n))
        ≡ show_nat (tip_number (lookup tip (banks_of rows n)))
  unfolding tip_text
  tip_text-show_nat n h = rw h refl

  abbrev geom_tailed : ℕ → Text → Text
  geom_tailed n tail =
      lathe_line (10000 + n) (format_value (suc k) (lookup x_geom (banks_of rows n)))
        (format_value (suc k) (lookup z_geom (banks_of rows n)))
        (format_value (suc k) (lookup r_geom (banks_of rows n)) ++ tail)

  geom_line-tailed :
      (n : ℕ)
      → tip_negative (lookup tip (banks_of rows n)) ≡ false
      → geom_line (suc k) n (banks_of rows n) ≡ geom_tailed n (q_tail n)
  geom_line-tailed n h = ap (λ t. geom_tailed n (codes " Q" ++ t)) (tip_text-show_nat n h)

  geom_tailed-IsLine : (n : ℕ) → IsLine (geom_tailed n (q_tail n))
  unfolding codes all_of
  geom_tailed-IsLine n =
      let a = lookup x_geom (banks_of rows n) in
      let b = lookup z_geom (banks_of rows n) in
      let c = lookup r_geom (banks_of rows n) in
      let q = tip_number (lookup tip (banks_of rows n)) in
      let tail : Text = 32 ∷ 81 ∷ show_nat q in
      lathe_line-IsLine (10000 + n) (format_value (suc k) a) (format_value (suc k) b)
        (format_value (suc k) c ++ tail) (format_value-plain (suc k) a)
        (format_value-plain (suc k) b)
        (all_of-append is_plain (format_value (suc k) c) tail (format_value-plain (suc k) c)
          (show_nat-plain q))
        (ends_solid-append (format_value (suc k) c) tail (
          ends_solid-append (32 ∷ 81 ∷ []) (show_nat q)
            (digits-ends_solid (show_nat q) (show_nat-is_digit q) (show_nat-some q))))

  geom_block : ℕ → LatheBlock
  geom_block n = record {
    p_number = 10000 + n;
    first = rounded (suc k) (lookup x_geom (banks_of rows n));
    second = rounded (suc k) (lookup z_geom (banks_of rows n));
    third = rounded (suc k) (lookup r_geom (banks_of rows n));
    q = some (tip_number (lookup tip (banks_of rows n)));
  }

  lathe_block-geom_tailed : (n : ℕ) → lathe_block (geom_tailed n (q_tail n)) ≡ some (geom_block n)
  unfolding geom_block codes
  lathe_block-geom_tailed n =
      lathe_block-lathe_line k (10000 + n) (lookup x_geom (banks_of rows n))
        (lookup z_geom (banks_of rows n)) (lookup r_geom (banks_of rows n)) (q_tail n)
        (some (tip_number (lookup tip (banks_of rows n)))) refl
        (optional_q-show_nat (tip_number (lookup tip (banks_of rows n))))

  restored : (n : ℕ) → 10000 + n - 10000 ≡ n
  restored n = omega arith

  geom_rows : ℕ → Rows → Rows
  geom_rows n old =
      set_bank n tip (tip_value (tip_number (lookup tip (banks_of rows n))))
        (three n x_geom z_geom r_geom (geom_block n) old)

  geom_tailed-Reached :
      (n : ℕ) (out : ParsedG10)
      → 0 < n
      → clashes lathe out.machine_class ≡ false
      → Reached lathe printed (geom_tailed n (q_tail n) ∷ []) out (geom_writes n)
  unfolding applied printed geom_block geom_rows
  geom_tailed-Reached n out h free =
      Reached-line lathe printed (geom_tailed n (q_tail n)) out
        (record { rows = geom_rows n out.rows; machine_class = some lathe }) (geom_writes n)
        (geom_tailed-IsLine n)
        (step-lathe_line (10000 + n) _ _ _ (geom_block n) out (lathe_block-geom_tailed n) free
          ∙ rw (geom_number n h, restored n) refl)
        refl refl

  geom_line-Reached :
      (n : ℕ) (out : ParsedG10)
      → IsLatheRegister n
      → clashes lathe out.machine_class ≡ false
      → Reached lathe printed (geom_line (suc k) n (banks_of rows n) ∷ []) out (geom_writes n)
  geom_line-Reached n out h free =
      subst (λ l. Reached lathe printed (l ∷ []) out (geom_writes n))
        (sym (geom_line-tailed n h.tip_code)) (geom_tailed-Reached n out h.positive free)

  pub lathe_lines-Reached :
      (ns : List ℕ) (out : ParsedG10)
      → All IsLatheRegister ns
      → clashes lathe out.machine_class ≡ false
      → Reached lathe printed (lathe_lines (suc k) rows ns) out (lathe_writes ns)
  unfolding lathe_lines
  lathe_lines-Reached [] out h free = Reached-nil lathe printed out free
  lathe_lines-Reached (n ∷ ns) out h free =
      let wear = wear_line (suc k) n (banks_of rows n) in
      let geom = geom_line (suc k) n (banks_of rows n) in
      let rest = lathe_lines (suc k) rows ns in
      let first = wear_line-Reached n out (h.0).small free in
      let second = geom_line-Reached n first.end h.0 first.free in
      Reached-append lathe printed (wear ∷ []) (geom ∷ rest) out (wear_writes n)
        (geom_writes n ++ lathe_writes ns) first
        (Reached-append lathe printed (geom ∷ []) rest first.end (geom_writes n) (lathe_writes ns)
          second (lathe_lines-Reached ns second.end h.1 second.free))

  pub lathe_lines-AllLines :
      (ns : List ℕ) → All IsLatheRegister ns → AllLines (lathe_lines (suc k) rows ns)
  unfolding lathe_lines
  lathe_lines-AllLines [] h = tt
  lathe_lines-AllLines (n ∷ ns) h = (
    wear_line-IsLine n,
    (
      subst IsLine (sym (geom_line-tailed n (h.0).tip_code)) (geom_tailed-IsLine n),
      lathe_lines-AllLines ns h.1,
    ),
  )
