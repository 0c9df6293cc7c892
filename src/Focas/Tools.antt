-- ===== src/Focas/Tools.antt =====
-- The tool life of a mill, read slot by slot.
use pottracker.Prelude.{
  ℕ, zero, suc, ◌≤◌, ◌≡◌, refl, sym, ◌∙◌, ap, Bool, true, false, Option, none, some, List, [], ◌∷◌,
  ◌++◌, All, All-mono, arith, nat_eq, ==_ne, if_elim, subst, if◌then◌else◌,
}
use pottracker.Prelude.Dict.{lookup}
use pottracker.Decimal.{ℤ}
use pottracker.Model.{ToolLife}
use pottracker.Mirror.Domains.{life_domain}
use pottracker.Mirror.Loop.{seen, keyed, Unique}
use pottracker.Focas.Library.{Library}
use pottracker.Focas.Sweep.{All-append}
use pottracker.Focas.Reads.{
  is_ok, positive, upward, count_of_range, decode_tool_life, read_slots, read_group, read_groups,
  read_tool_life,
}

-- Entries that are not about a key do not show it.
unseen :
    (k : ℕ) (xs : List ToolLife)
    → All (λ x. x.t_number ≡ k → ⊥) xs
    → seen life_domain.key k xs ≡ none
unfolding seen keyed lookup
unseen k [] h = refl
unseen k (x ∷ xs) h = rw (==_ne k x.t_number (λ e. h.0 (sym e))) (unseen k xs h.1)

seen-append :
    (k : ℕ) (xs ys : List ToolLife)
    → seen life_domain.key k xs ≡ none
    → seen life_domain.key k ys ≡ none
    → seen life_domain.key k (xs ++ ys) ≡ none
unfolding seen keyed lookup
seen-append k [] ys h g = g
seen-append k (x ∷ xs) ys h g = ground (arith, seen-append k xs ys)

Unique-append :
    (xs ys : List ToolLife)
    → Unique life_domain.key xs
    → Unique life_domain.key ys
    → All (λ x. seen life_domain.key x.t_number ys ≡ none) xs
    → Unique life_domain.key (xs ++ ys)
unfolding Unique
Unique-append [] ys u v h = v
Unique-append (x ∷ xs) ys u v h =
    (seen-append x.t_number xs ys u.0 h.0, Unique-append xs ys u.1 v h.1)

module _ (lib : Library) where
  -- The control lists this tool in a slot of a group, by the group's index.
  pub record Lists (index slot tool : ℕ) : Type 0 where
    pub group_read : is_ok (lib.cnc_rdgrpid index).0 ≡ true
    pub slot_read : is_ok (lib.cnc_rd1tlifedata (lib.cnc_rdgrpid index).1 slot).0 ≡ true
    pub number : positive (lib.cnc_rd1tlifedata (lib.cnc_rdgrpid index).1 slot).1 ≡ some tool

  -- No tool is listed in two slots.
  abbrev pub ListsOnce : Type 0
  ListsOnce =
      (i j slot other tool : ℕ) → Lists i slot tool → Lists j other tool → (i ≡ j) × (slot ≡ other)

  -- Where the entries of a group come from.
  record From (index slot : ℕ) (x : ToolLife) : Type 0 where
    at : ℕ
    late : slot ≤ at
    listed : Lists index at x.t_number

  earlier : (index slot : ℕ) (x : ToolLife) → From index (suc slot) x → From index slot x
  earlier index slot x f = record { at = f.at; late = omega (arith, f.late); listed = f.listed }

  module _ (index : ℕ) (open_ : is_ok (lib.cnc_rdgrpid index).0 ≡ true) where
    abbrev group : ℤ
    group = (lib.cnc_rdgrpid index).1

    -- One slot, and the entries of the slots behind it.
    slot_entries : Bool → Option ℕ → List ToolLife → List ToolLife
    slot_entries true (some t) rest = decode_tool_life lib t ∷ rest
    slot_entries true none rest = []
    slot_entries false tool rest = []

    slot_entries-From :
        (slot : ℕ) (well : Bool) (tool : Option ℕ) (rest : List ToolLife)
        → is_ok (lib.cnc_rd1tlifedata group slot).0 ≡ well
        → positive (lib.cnc_rd1tlifedata group slot).1 ≡ tool
        → All (From index (suc slot)) rest
        → All (From index slot) (slot_entries well tool rest)
    unfolding slot_entries
    slot_entries-From slot true (some t) rest p q h = (
      record {
        at = slot;
        late = omega arith;
        listed = record { group_read = open_; slot_read = p; number = q };
      },
      All-mono (From index (suc slot)) (From index slot) (earlier index slot) rest h,
    )
    slot_entries-From slot true none rest p q h = tt
    slot_entries-From slot false tool rest p q h = tt

    slot_entries-Unique :
        (once : ListsOnce) (slot : ℕ) (well : Bool) (tool : Option ℕ) (rest : List ToolLife)
        → is_ok (lib.cnc_rd1tlifedata group slot).0 ≡ well
        → positive (lib.cnc_rd1tlifedata group slot).1 ≡ tool
        → All (From index (suc slot)) rest
        → Unique life_domain.key rest
        → Unique life_domain.key (slot_entries well tool rest)
    unfolding slot_entries Unique
    slot_entries-Unique once slot true (some t) rest p q h u = (
      unseen t rest (
          All-mono (From index (suc slot)) (λ x. x.t_number ≡ t → ⊥)
            (λ x f e. absurd (
              omega (
                arith,
                f.late,
                (once index index f.at slot x.t_number f.listed
                    (record { group_read = open_; slot_read = p; number = q ∙ ap some (sym e) })).1,
              )))
            rest h),
      u,
    )
    slot_entries-Unique once slot true none rest p q h u = tt
    slot_entries-Unique once slot false tool rest p q h u = tt

    entries_of :
        (well : Bool) (tool : Option ℕ) (rest : List ToolLife)
        → slot_entries well tool rest
          ≡ (if well then elim tool [ none ↦ [] | some t ↦ decode_tool_life lib t ∷ rest ] else [])
    unfolding slot_entries
    entries_of true (some t) rest = refl
    entries_of true none rest = refl
    entries_of false tool rest = refl

    read_slots-suc :
        (left slot : ℕ)
        → slot_entries
            (is_ok (lib.cnc_rd1tlifedata group slot).0)
            (positive (lib.cnc_rd1tlifedata group slot).1)
            (read_slots lib group left (suc slot))
          ≡ read_slots lib group (suc left) slot
    unfolding read_slots
    read_slots-suc left slot =
        entries_of (is_ok (lib.cnc_rd1tlifedata group slot).0)
          (positive (lib.cnc_rd1tlifedata group slot).1) (read_slots lib group left (suc slot))

    read_slots-From : (left slot : ℕ) → All (From index slot) (read_slots lib group left slot)
    unfolding read_slots
    read_slots-From zero slot = tt
    read_slots-From (suc left) slot = subst (All (From index slot)) (read_slots-suc left slot) (
        slot_entries-From slot (is_ok (lib.cnc_rd1tlifedata group slot).0)
          (positive (lib.cnc_rd1tlifedata group slot).1) (read_slots lib group left (suc slot)) refl
          refl (read_slots-From left (suc slot)))

    read_slots-Unique :
        ListsOnce → (left slot : ℕ) → Unique life_domain.key (read_slots lib group left slot)
    unfolding read_slots Unique
    read_slots-Unique once zero slot = tt
    read_slots-Unique once (suc left) slot =
        subst (Unique life_domain.key) (read_slots-suc left slot) (
          slot_entries-Unique once slot (is_ok (lib.cnc_rd1tlifedata group slot).0)
            (positive (lib.cnc_rd1tlifedata group slot).1) (read_slots lib group left (suc slot))
            refl refl (read_slots-From left (suc slot)) (read_slots-Unique once left (suc slot)))

  -- The entries of a group, and of the groups from an index on.
  read_group-From : (index : ℕ) → All (From index 1) (read_group lib index)
  read_group-From index =
      if_elim (All (From index 1)) (is_ok (lib.cnc_rdgrpid index).0)
        (λ open_. read_slots-From index open_ 64 1) (λ _. tt)

  read_group-Unique : ListsOnce → (index : ℕ) → Unique life_domain.key (read_group lib index)
  unfolding Unique
  read_group-Unique once index =
      if_elim (Unique life_domain.key) (is_ok (lib.cnc_rdgrpid index).0)
        (λ open_. read_slots-Unique index open_ once 64 1) (λ _. tt)

  -- An entry of a group at an index or a later one.
  record Later (index : ℕ) (x : ToolLife) : Type 0 where
    group_index : ℕ
    behind : index ≤ group_index
    origin : From group_index 1 x

  read_groups-Later : (count index : ℕ) → All (Later index) (read_groups lib (upward count index))
  unfolding read_groups upward
  read_groups-Later zero index = tt
  read_groups-Later (suc count) index =
      All-append (Later index) (read_group lib index) (read_groups lib (upward count (suc index)))
        (All-mono (From index 1) (Later index)
          (λ x f. record { group_index = index; behind = omega arith; origin = f })
          (read_group lib index) (read_group-From index))
        (All-mono (Later (suc index)) (Later index)
          (λ x l. record {
            group_index = l.group_index;
            behind = omega (arith, l.behind);
            origin = l.origin;
          })
          (read_groups lib (upward count (suc index))) (read_groups-Later count (suc index)))

  read_groups-Unique :
      ListsOnce → (count index : ℕ) → Unique life_domain.key (read_groups lib (upward count index))
  unfolding read_groups upward Unique
  read_groups-Unique once zero index = tt
  read_groups-Unique once (suc count) index =
      let rest = read_groups lib (upward count (suc index)) in
      Unique-append (read_group lib index) rest (read_group-Unique once index)
        (read_groups-Unique once count (suc index))
        (All-mono (From index 1) (λ x. seen life_domain.key x.t_number rest ≡ none)
          (λ x f. unseen x.t_number rest (
            All-mono (Later (suc index)) (λ y. y.t_number ≡ x.t_number → ⊥)
              (λ y l e. absurd (
                omega (
                  arith,
                  l.behind,
                  (once l.group_index index l.origin.at f.at x.t_number
                      (subst (Lists l.group_index l.origin.at) e l.origin.listed) f.listed).0,
                )))
              rest (read_groups-Later count (suc index))))
          (read_group lib index) (read_group-From index))

  pub read_tool_life-Unique : ListsOnce → Unique life_domain.key (read_tool_life lib)
  unfolding read_tool_life Unique
  read_tool_life-Unique once =
      if_elim (Unique life_domain.key) (is_ok lib.cnc_rdngrp.0)
        (λ _. read_groups-Unique once (count_of_range lib.cnc_rdngrp.1) 1) (λ _. tt)
