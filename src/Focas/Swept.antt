-- ===== src/Focas/Swept.antt =====
-- What a whole snapshot of the mill says of the control.
use pottracker.Prelude.{
  ℕ, zero, suc, ◌≤◌, ◌≡◌, refl, sym, ◌∙◌, ap, Bool, true, false, Option, none, some, List, [], ◌∷◌,
  All, All-mono, arith,
}
use pottracker.Prelude.Search.{some_inj}
use pottracker.Decimal.{Decimal, ℤ}
use pottracker.Model.{
  RegisterType, h_geom, h_wear, d_geom, d_wear, x_geom, x_wear, z_geom, z_wear, r_geom, r_wear, tip,
  OffsetRegister, RegisterKey, register_key_eq,
}
use pottracker.Decoders.{decode_offset}
use pottracker.Mirror.Diff.{offset_domain}
use pottracker.Focas.Library.{Library}
use pottracker.Focas.Sweep.{
  Distinct, Distinct-append, All-append, is_distinct, Distinct-is_distinct, Echoes,
}
use pottracker.Focas.Reads.{
  Cell, TypeMap, banks_of, cells, upward, is_ok, positive, read_cell, answered,
}

pub not_some : {A : Type 0} {x : A} → Path (Option A) none (some x) → ⊥
not_some h = ground arith

abbrev pub cell_key : Cell → RegisterKey
cell_key c = (c.num, c.register_type)

abbrev pub offset_key : OffsetRegister → RegisterKey
offset_key = (offset_domain false).key

-- No type stands under two codes.
abbrev pub DistinctTypes : TypeMap → Type 0
DistinctTypes types = Distinct (λ (t : ℕ × RegisterType). t.1) types

-- A rank of the types, to tell them apart.
abbrev pub type_rank : RegisterType → ℕ
type_rank h_geom = 0
type_rank h_wear = 1
type_rank d_geom = 2
type_rank d_wear = 3
type_rank x_geom = 4
type_rank x_wear = 5
type_rank z_geom = 6
type_rank z_wear = 7
type_rank r_geom = 8
type_rank r_wear = 9
type_rank tip = 10

pub types_apart :
    (types : TypeMap)
    → is_distinct type_rank (λ (t : ℕ × RegisterType). t.1) types ≡ true
    → DistinctTypes types
types_apart types h = Distinct-is_distinct type_rank (λ (t : ℕ × RegisterType). t.1) types h

banks_differ :
    (num : ℕ) (r : RegisterType) (types : TypeMap)
    → All (λ u. u.1 ≡ r → ⊥) types
    → All (λ c. cell_key c ≡ (num, r) → ⊥) (banks_of num types)
banks_differ num r [] h = tt
banks_differ num r (t ∷ types) h = (λ p. h.0 (ap (λ k. k.1) p), banks_differ num r types h.1)

banks-Distinct :
    (num : ℕ) (types : TypeMap) → DistinctTypes types → Distinct cell_key (banks_of num types)
banks-Distinct num [] u = tt
banks-Distinct num (t ∷ types) u = (banks_differ num t.1 types u.0, banks-Distinct num types u.1)

banks_num : (num : ℕ) (types : TypeMap) → All (λ c. c.num ≡ num) (banks_of num types)
banks_num num [] = tt
banks_num num (t ∷ types) = (refl, banks_num num types)

cells_above :
    (count start : ℕ) (types : TypeMap)
    → All (λ c. start ≤ c.num) (cells (upward count start) types)
unfolding cells upward
cells_above zero start types = tt
cells_above (suc count) start types =
    All-append (λ c. start ≤ c.num) (banks_of start types) (cells (upward count (suc start)) types)
      (All-mono (λ c. c.num ≡ start) (λ c. start ≤ c.num) (λ c e. omega arith)
        (banks_of start types) (banks_num start types))
      (All-mono (λ c. suc start ≤ c.num) (λ c. start ≤ c.num) (λ c e. omega arith)
        (cells (upward count (suc start)) types) (cells_above count (suc start) types))

later_differ :
    (start : ℕ) (c : Cell) (ds : List Cell)
    → c.num ≡ start
    → All (λ d. suc start ≤ d.num) ds
    → All (λ d. cell_key d ≡ cell_key c → ⊥) ds
later_differ start c ds e h =
    All-mono (λ d. suc start ≤ d.num) (λ d. cell_key d ≡ cell_key c → ⊥)
      (λ d above same. absurd (omega (arith, ap (λ k. k.0) same, e, above))) ds h

pub cells-Distinct :
    (count start : ℕ) (types : TypeMap)
    → DistinctTypes types
    → Distinct cell_key (cells (upward count start) types)
unfolding cells upward
cells-Distinct zero start types u = tt
cells-Distinct (suc count) start types u =
    let rest = cells (upward count (suc start)) types in
    Distinct-append cell_key (banks_of start types) rest (banks-Distinct start types u)
      (cells-Distinct count (suc start) types u)
      (All-mono (λ c. c.num ≡ start) (λ c. All (λ d. cell_key d ≡ cell_key c → ⊥) rest)
        (λ c e. later_differ start c rest e (cells_above count (suc start) types))
        (banks_of start types) (banks_num start types))

module _ (lib : Library) where
  -- A successful read of an offset that carries a register number carries the one that was asked for.
  abbrev pub EchoesOffsets : Type 0
  EchoesOffsets =
      (num code datano : ℕ)
      → is_ok (lib.cnc_rdtofs num code).0 ≡ true
      → positive (lib.cnc_rdtofs num code).1 ≡ some datano
      → datano ≡ num

  answered-key :
      (b : Bool) (a : Option ℕ) (raw : ℤ) (c : Cell) (increment : Decimal) (x : OffsetRegister)
      → ((datano : ℕ) → b ≡ true → a ≡ some datano → datano ≡ c.num)
      → answered b a raw c.register_type increment ≡ some x
      → offset_key x ≡ cell_key c
  unfolding decode_offset
  answered-key true (some d) raw c increment x echo h =
      sym (ap offset_key (some_inj h)) ∙ ap (λ n. (n, c.register_type)) (echo d refl refl)
  answered-key true none raw c increment x echo h = absurd (not_some h)
  answered-key false a raw c increment x echo h = absurd (not_some h)

  pub read_cell-Echoes :
      (increment : Decimal) → EchoesOffsets → Echoes offset_key cell_key (read_cell lib increment)
  unfolding read_cell
  read_cell-Echoes increment echo c x h =
      answered-key (is_ok (lib.cnc_rdtofs c.num c.type_code).0)
        (positive (lib.cnc_rdtofs c.num c.type_code).1) (lib.cnc_rdtofs c.num c.type_code).2 c
        increment x (echo c.num c.type_code) h
