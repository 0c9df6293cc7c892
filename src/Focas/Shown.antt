-- ===== src/Focas/Shown.antt =====
-- What a snapshot of the mill shows of each bank of each register, said by the control's replies.
use pottracker.Prelude.{
  ℕ, zero, suc, ◌+◌, ◌*◌, ◌≤◌, ◌<◌, ◌≡◌, refl, sym, ◌∙◌, ap, inl, inr, Bool, true, false, not,
  Option, none, some, List, [], ◌∷◌, ◌++◌, All, All-mono, Bool-cases, eqb, eqb_iff, arith, subst,
}
use pottracker.Decimal.{Decimal, ℤ, pos, negsuc, quantize, half_even}
use pottracker.Model.{RegisterType, OffsetRegister, MachineSnapshot, register_key_eq}
use pottracker.Decoders.{decode_offset}
use pottracker.Mirror.Loop.{seen}
use pottracker.Focas.Library.{Library}
use pottracker.Focas.Reads.{
  Client, returned, Cell, TypeMap, banks_of, cells, upward, dispatched, read_cell, answered, is_ok,
  positive,
}
use pottracker.Focas.Client.{read_snapshot}
use pottracker.Focas.Swept.{offset_key, cell_key, EchoesOffsets}
use pottracker.Focas.Snapshot.{snapshot_cells}

module _ (P : Cell → Type 0) where
  left : (xs ys : List Cell) → All P (xs ++ ys) → All P xs
  left [] ys h = tt
  left (x ∷ xs) ys h = (h.0, left xs ys h.1)

  right : (xs ys : List Cell) → All P (xs ++ ys) → All P ys
  right [] ys h = h
  right (x ∷ xs) ys h = right xs ys h.1

  at_register :
      (count start num : ℕ) (types : TypeMap)
      → start ≤ num
      → num < start + count
      → All P (cells (upward count start) types)
      → All P (banks_of num types)
  unfolding cells upward
  at_register zero start num types low high h = absurd (omega arith)
  at_register (suc count) start num types low high h = elim (Bool-cases (eqb start num)) [
    | inl same ↦
        subst (λ n. All P (banks_of n types)) ((eqb_iff start num).0 same)
          (left (banks_of start types) (cells (upward count (suc start)) types) h)
    | inr other ↦
        at_register count (suc start) num types (ground arith) (omega arith)
          (right (banks_of start types) (cells (upward count (suc start)) types) h)
  ]

  of_types :
      (num : ℕ) (types : TypeMap)
      → All P (banks_of num types)
      → All (λ t. P (record { num = num; type_code = t.0; register_type = t.1 })) types
  of_types num [] h = tt
  of_types num (t ∷ types) h = (h.0, of_types num types h.1)

-- So many counts of an increment.
abbrev pub counts_of : ℤ → Decimal → Decimal
counts_of (pos n) inc = record inc { digits = n * inc.digits }
counts_of (negsuc n) inc = record inc { negative = not inc.negative; digits = suc n * inc.digits }

-- A bank shows the counts of its call in millimetres, if the call went well and answered for the
-- register, and nothing if not.
abbrev pub Shows : ℤ × ℤ × ℤ → ℕ → RegisterType → Decimal → Option OffsetRegister → Type 0
Shows reply num r inc shown =
    ((reply.0 ≡ pos 0) × (reply.1 ≡ pos num)
      → shown
        ≡ some (record {
          register_number = num;
          register_type = r;
          value_mm = quantize half_even (counts_of reply.2 inc) 4;
        }))
    × (((reply.0 ≡ pos 0) × (reply.1 ≡ pos num) → ⊥) → shown ≡ none)

decoded :
    (num : ℕ) (raw : ℤ) (r : RegisterType) (inc : Decimal)
    → decode_offset num raw r inc ≡ record {
      register_number = num;
      register_type = r;
      value_mm = quantize half_even (counts_of raw inc) 4;
    }
unfolding decode_offset
decoded num (pos n) r inc = refl
decoded num (negsuc n) r inc = refl

zero_pos : (k : ℕ) → Path ℤ (pos 0) (pos (suc k)) → ⊥
zero_pos k h = ground arith

pos_zero : (k : ℕ) → Path ℤ (pos (suc k)) (pos 0) → ⊥
pos_zero k h = ground arith

negsuc_pos : (d n : ℕ) → Path ℤ (negsuc d) (pos n) → ⊥
negsuc_pos d n h = ground arith

suc_not_ok : (c : ℕ) → is_ok (pos (suc c)) ≡ false
suc_not_ok c = ground arith

answered-failed :
    (b : Bool) (a : Option ℕ) (raw : ℤ) (r : RegisterType) (inc : Decimal)
    → b ≡ false
    → answered b a raw r inc ≡ none
answered-failed true a raw r inc h = ground arith
answered-failed false a raw r inc h = refl

answered-Shows :
    (rc datano raw : ℤ) (k : ℕ) (r : RegisterType) (inc : Decimal)
    → ((d : ℕ) → is_ok rc ≡ true → positive datano ≡ some d → d ≡ suc k)
    → Shows (rc, datano, raw) (suc k) r inc (answered (is_ok rc) (positive datano) raw r inc)
answered-Shows (pos zero) (pos (suc d)) raw k r inc echo =
    let same : suc d ≡ suc k = echo (suc d) refl refl in
    (
      λ h. ap some (ap (λ n. decode_offset n raw r inc) same ∙ decoded (suc k) raw r inc),
      λ h. absurd (h (refl, ap pos same)),
    )
answered-Shows (pos zero) (pos zero) raw k r inc echo = (λ h. absurd (zero_pos k h.1), λ h. refl)
answered-Shows (pos zero) (negsuc d) raw k r inc echo =
    (λ h. absurd (negsuc_pos d (suc k) h.1), λ h. refl)
answered-Shows (pos (suc c)) datano raw k r inc echo = (
  λ h. absurd (pos_zero c h.0),
  λ h. answered-failed (is_ok (pos (suc c))) (positive datano) raw r inc (suc_not_ok c),
)
answered-Shows (negsuc c) datano raw k r inc echo =
    (λ h. absurd (negsuc_pos c 0 h.0), λ h. answered-failed false (positive datano) raw r inc refl)

module _ (lib : Library) where
  read_cell-Shows :
      (num code : ℕ) (r : RegisterType) (inc : Decimal)
      → EchoesOffsets lib
      → 1 ≤ num
      → Shows
          (lib.cnc_rdtofs num code)
          num
          r
          inc
          (read_cell lib inc (record { num = num; type_code = code; register_type = r }))
  unfolding read_cell
  read_cell-Shows zero code r inc echo low = absurd (omega arith)
  read_cell-Shows (suc k) code r inc echo low =
      let reply = lib.cnc_rdtofs (suc k) code in
      answered-Shows reply.0 reply.1 reply.2 k r inc (echo (suc k) code)

  -- For a control that answers an offset read with the register it was asked for, and whose layout has
  -- `count` registers and a type with a map: in a snapshot that the client returns, each bank of the map is
  -- shown for each register from 1 to `count` with the counts that its own call gave, in the client's
  -- increment and rounded to four places, when that call went well and carried the register's number; and
  -- it is absent when not. No other bank's failure hides it.
  pub read_snapshot-Shows :
      (polled_at : ℕ) (client : Client) (r : Client × MachineSnapshot) (count : ℕ) (types : TypeMap)
      → EchoesOffsets lib
      → read_snapshot lib polled_at client ≡ returned r
      → (r.0).offset_use_no ≡ some (pos count)
      → dispatched (r.0).ofs_type ≡ some types
      → (num : ℕ) → 1 ≤ num
      → num ≤ count
      → All
          (λ t.
            Shows
              (lib.cnc_rdtofs num t.0)
              num
              t.1
              (r.0).offset_increment
              (seen offset_key (num, t.1) (r.1).offsets))
          types
  read_snapshot-Shows polled_at client r count types echo h n t num low high =
      let inc = (r.0).offset_increment in
      let shown : Cell → Type 0 =
        λ c. seen offset_key (cell_key c) (r.1).offsets ≡ read_cell lib inc c in
      All-mono _ _
        (λ u e.
          subst (Shows (lib.cnc_rdtofs num u.0) num u.1 inc) (sym e)
            (read_cell-Shows num u.0 u.1 inc echo low))
        types
        (of_types shown num types (
          at_register shown count 1 num types low (omega arith)
            (snapshot_cells lib polled_at client r (pos count) types echo h n t)))
