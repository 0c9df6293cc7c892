-- ===== src/G10/RoundTrip.antt =====
-- A program that was built is parsed back.
use pottracker.Prelude.{
  ℕ, suc, ◌≡◌, refl, ◌∙◌, ap, Bool, ◌&&◌, ◌||◌, none, some, List, [], ◌∷◌, ◌++◌, if◌then◌else◌,
  ◌==◌, nat_eq, string_eq, string_dec, string_dec, any_of, arith, All, length,
}
use pottracker.Decimal.{Decimal}
use pottracker.Model.{
  RegisterType, h_geom, h_wear, d_geom, d_wear, x_geom, x_wear, z_geom, z_wear, r_geom, r_wear, tip,
  register_type_eq,
}
use pottracker.G10.{
  Text, Rows, G10Meta, Built, built, codes, header, body, finished, joined, build_g10,
  select_registers, unit_decimals, mill_lines, lathe_lines,
}
use pottracker.G10.Parse.{mill, lathe, ParsedG10, parsed, parse_g10}
use pottracker.G10.Lines.{g90-IsPassed}
use pottracker.G10.Writes.{same_write, value_at}
use pottracker.G10.Reached.{Reached-append, Reached-passed}
use pottracker.G10.MillLines
use pottracker.G10.MillLines.{mill_writes, mill_lines-Reached, mill_lines-AllLines}
use pottracker.G10.LatheLines
use pottracker.G10.LatheLines.{
  lathe_writes, lathe_lines-Reached, lathe_lines-AllLines, IsLatheRegister,
}
use pottracker.G10.Frame.{parsed_program, header-AllPassed}

abbrev pub is_mill_bank : RegisterType → Bool
is_mill_bank r = (r == h_geom) || (r == h_wear) || (r == d_geom) || (r == d_wear)

four :
    (m a b c d here : Bool)
    → (m && a || (m && b || (m && c || (m && d || (here && (a || b || c || d))))))
      ≡ ((m || here) && (a || b || c || d))
four m a b c d here = ground arith

mill_writes-any :
    (k : ℕ) (rows : Rows) (n : ℕ) (r : RegisterType) (ns : List ℕ)
    → any_of (same_write n r) (mill_writes k rows ns) ≡ (any_of (λ m. n == m) ns && is_mill_bank r)
mill_writes-any k rows n r [] = refl
mill_writes-any k rows n r (m ∷ ns) = rw (mill_writes-any k rows n r ns) (
    four (n == m) (r == h_geom) (r == h_wear) (r == d_geom) (r == d_wear) (any_of (λ m. n == m) ns))

abbrev pub is_lathe_bank : RegisterType → Bool
is_lathe_bank r =
    (r == x_wear)
    || (r == z_wear)
    || (r == r_wear)
    || (r == x_geom)
    || (r == z_geom)
    || (r == r_geom)
    || (r == tip)

seven :
    (m a b c d e f g here : Bool)
    → (m && a
        || (m && b
            || (m && c
                || (m && d
                    || (m && e
                        || (m && f || (m && g || (here && (a || b || c || d || e || f || g)))))))))
      ≡ ((m || here) && (a || b || c || d || e || f || g))
seven m a b c d e f g here = ground arith

lathe_writes-any :
    (k : ℕ) (rows : Rows) (n : ℕ) (r : RegisterType) (ns : List ℕ)
    → any_of (same_write n r) (lathe_writes k rows ns)
      ≡ (any_of (λ m. n == m) ns && is_lathe_bank r)
lathe_writes-any k rows n r [] = refl
lathe_writes-any k rows n r (m ∷ ns) = rw (lathe_writes-any k rows n r ns) (
    seven (n == m) (r == x_wear) (r == z_wear) (r == r_wear) (r == x_geom) (r == z_geom)
      (r == r_geom) (r == tip) (any_of (λ m. n == m) ns))

-- What a program that was built for the selected registers is parsed to: it builds, it parses, and
-- exactly the banks of `kind` of the selected registers are there, each with its value.
pub record ParsesBack (program : Built Text) (ns : List ℕ) (kind : RegisterType → Bool)
    (value : ℕ → RegisterType → Decimal) : Type 0 where
  pub text : Text
  pub out : ParsedG10
  pub builds : program ≡ built text
  pub parses : parse_g10 text ≡ parsed out
  pub banks :
      (n : ℕ) (r : RegisterType)
      → value_at out.rows n r
        ≡ (if any_of (λ m. n == m) ns && kind r then some (value n r) else none)

module _ (upper : Text → Text) (rows : Rows) (meta : G10Meta) (k : ℕ) where
  mill_body :
      meta.machine_class ≡ "mill"
      → unit_decimals meta.unit ≡ some (suc k)
      → body rows meta (select_registers rows meta.sparse meta.register_count)
        ≡ built (
            codes "G90"
            ∷ mill_lines (suc k) rows (select_registers rows meta.sparse meta.register_count))
  unfolding body string_dec
  mill_body c u = rw (c, u) refl

  -- A mill's program builds for a known unit and parses back: the four mill banks of exactly the
  -- registers that were selected are there, each with the mirror's value rounded to the unit's decimals,
  -- or zero where the mirror has none.
  pub parse_g10-build_g10_mill :
      meta.machine_class ≡ "mill"
      → unit_decimals meta.unit ≡ some (suc k)
      → ParsesBack
          (build_g10 upper rows meta)
          (select_registers rows meta.sparse meta.register_count)
          is_mill_bank
          (MillLines.printed k rows)
  unfolding build_g10
  parse_g10-build_g10_mill c u =
      let ns = select_registers rows meta.sparse meta.register_count in
      let head = header upper meta (length ns) in
      let lines = codes "G90" ∷ mill_lines (suc k) rows ns in
      let back =
        parsed_program mill (MillLines.printed k rows) head lines (mill_writes k rows ns)
          (header-AllPassed upper meta (length ns))
          (g90-IsPassed.line_of, mill_lines-AllLines k rows ns)
          (λ out free.
            let first =
              Reached-passed mill (MillLines.printed k rows) (codes "G90") out g90-IsPassed free in
            Reached-append mill (MillLines.printed k rows) (codes "G90" ∷ [])
              (mill_lines (suc k) rows ns) out [] (mill_writes k rows ns) first
              (mill_lines-Reached k rows ns first.end first.free)) in
      record {
        text = joined (head ++ (lines ++ (codes "M30" ∷ codes "%" ∷ [])));
        out = back.0;
        builds = ap (finished head) (mill_body c u);
        parses = back.1;
        banks = λ n r.
            back.2 n r
            ∙ ap (λ b. if b then some (MillLines.printed k rows n r) else none)
                (mill_writes-any k rows n r ns);
      }

  lathe_body :
      meta.machine_class ≡ "lathe"
      → unit_decimals meta.unit ≡ some (suc k)
      → body rows meta (select_registers rows meta.sparse meta.register_count)
        ≡ built (lathe_lines (suc k) rows (select_registers rows meta.sparse meta.register_count))
  unfolding body string_dec
  lathe_body c u = rw (c, u) refl

  -- A lathe's program builds for a known unit and parses back, when the selected registers are from 1 to
  -- 10,000 and their tips no negative codes: the six distances and the tip of exactly the registers that
  -- were selected are there, each distance rounded to the unit's decimals and each tip whole, or zero
  -- where the mirror has none.
  pub parse_g10-build_g10_lathe :
      meta.machine_class ≡ "lathe"
      → unit_decimals meta.unit ≡ some (suc k)
      → All (IsLatheRegister k rows) (select_registers rows meta.sparse meta.register_count)
      → ParsesBack
          (build_g10 upper rows meta)
          (select_registers rows meta.sparse meta.register_count)
          is_lathe_bank
          (LatheLines.printed k rows)
  unfolding build_g10
  parse_g10-build_g10_lathe c u small =
      let ns = select_registers rows meta.sparse meta.register_count in
      let head = header upper meta (length ns) in
      let lines = lathe_lines (suc k) rows ns in
      let back =
        parsed_program lathe (LatheLines.printed k rows) head lines (lathe_writes k rows ns)
          (header-AllPassed upper meta (length ns)) (lathe_lines-AllLines k rows ns small)
          (λ out free. lathe_lines-Reached k rows ns out small free) in
      record {
        text = joined (head ++ (lines ++ (codes "M30" ∷ codes "%" ∷ [])));
        out = back.0;
        builds = ap (finished head) (lathe_body c u);
        parses = back.1;
        banks = λ n r.
            back.2 n r
            ∙ ap (λ b. if b then some (LatheLines.printed k rows n r) else none)
                (lathe_writes-any k rows n r ns);
      }
