-- ===== src/Mirror/Observed.antt =====
-- snapshot.py: what the mirror shows after a poll.
use pottracker.Prelude.{
  ℕ, ◌≡◌, refl, ◌∙◌, ap, Bool, false, Option, none, some, List, Eq, ◌==◌, arith, if◌then◌else◌,
  nat_eq, option_eq,
}
use pottracker.Prelude.Dict.{Dict, lookup}
use pottracker.Decimal.{dec_eq}
use pottracker.Model.{RegisterKey, ToolLife, MachineSnapshot, register_key_eq}
use pottracker.OffsetWrite.Defs.{numeric_10_4}
use pottracker.Mirror.Rows.{Tracked, Mirror, LifeRow, WorkKey, work_key_eq}
use pottracker.Mirror.Upsert.{upsert, after_upsert, lookup-upsert}
use pottracker.Mirror.Diff.{
  Domain, diff, diff_offsets, diff_pots, offset_domain, pot_domain, same_nullable, advance,
  tracked_row,
}
use pottracker.Mirror.Domains.{
  diff_macros, diff_work_offsets, diff_tool_life, macro_domain, work_domain, life_domain,
}
use pottracker.Mirror.Persist.{persist, presetter_active}
use pottracker.Mirror.Loop.{seen, Unique, mapped, lookup-upsert_params, upsert_params-NodupKeys}

-- The row of a key, from what the snapshot says of it and the row before.
abbrev pub refreshed :
    {V : Type 0} → (V → V → Bool) → ℕ → Option V → Option (Tracked V) → Option (Tracked V)
refreshed same t none old = old
refreshed same t (some v) none =
    some (record { value = v; last_polled_at = t; last_changed_at = t })
refreshed same t (some v) (some old) = some (record {
  value = v;
  last_polled_at = t;
  last_changed_at = if same old.value v then old.last_changed_at else t;
})

abbrev pub refreshed_life : Option LifeRow → Option LifeRow → Option LifeRow
refreshed_life none old = old
refreshed_life (some row) old = some row

abbrev pub life_row : ToolLife → ℕ → LifeRow
life_row tl t = record {
  life = record { life_count = tl.life_count; life_max = tl.life_max; status = tl.status };
  last_polled_at = t;
}

-- A snapshot that reads nothing twice: the validators of the model refuse a register, pot or variable
-- that stands twice, and a sweep asks once for each work offset and tool.
pub record IsSweep (s : MachineSnapshot) : Type 0 where
  pub unique_offsets : Unique (offset_domain false).key s.offsets
  pub unique_pots : Unique pot_domain.key s.pots
  pub unique_macros : Unique macro_domain.key s.macros
  pub unique_work_offsets : Unique work_domain.key s.work_offsets
  pub unique_tool_life : Unique life_domain.key s.tool_life

module _ {E K V R : Type 0} ⦃e : Eq K⦄ (domain : Domain E K V R) where
  pub lookup-upsert-diff :
      (k : K) (current : Dict K V) (xs : List E) (t : ℕ) (table : Dict K R)
      → Unique domain.key xs
      → lookup k (upsert domain.update (diff domain current xs t).upsert_params table)
        ≡ after_upsert domain.update
            (mapped (λ x. domain.row (domain.value_of x) t) (seen domain.key k xs))
            (lookup k table)
  lookup-upsert-diff k current xs t table u =
      lookup-upsert domain.update k _ table (upsert_params-NodupKeys domain current xs t u)
      ∙ ap (λ row. after_upsert domain.update row (lookup k table))
          (lookup-upsert_params domain k current xs t)

-- The row of a tracked table.
module _ {E V : Type 0} (same : V → V → Bool) (column : V → V) (value_of : E → V) (t : ℕ) where
  after_upsert-refreshed :
      (x : Option E) (old : Option (Tracked V))
      → after_upsert (advance same) (mapped (λ x. tracked_row column (value_of x) t) x) old
        ≡ refreshed same t (mapped (λ x. column (value_of x)) x) old
  after_upsert-refreshed none old = refl
  after_upsert-refreshed (some x) none = refl
  after_upsert-refreshed (some x) (some old) = ground arith

after_upsert-refreshed_life :
    (t : ℕ) (x : Option ToolLife) (old : Option LifeRow)
    → after_upsert life_domain.update (mapped (λ x. life_row x t) x) old
      ≡ refreshed_life (mapped (λ x. life_row x t) x) old
after_upsert-refreshed_life t none old = refl
after_upsert-refreshed_life t (some x) none = refl
after_upsert-refreshed_life t (some x) (some old) = refl

module _ (s : MachineSnapshot) (m : Mirror) (u : IsSweep s) where
  -- After a poll of a snapshot that reads nothing twice, every table holds, for each register, pot,
  -- variable, work offset and tool that was read, the value read (four places of an offset's) with this
  -- poll's time; the last_changed_at of all but a tool's is this poll's when there was no row or the new
  -- value differs, else what it was; and what was not read keeps its row.
  pub persist-refreshed :
      ((k : RegisterKey)
        → lookup k (persist s m).1.offsets
          ≡ refreshed dec_eq s.polled_at
              (mapped
                (λ off. numeric_10_4 off.value_mm)
                (seen (offset_domain false).key k s.offsets))
              (lookup k m.offsets))
      × ((k : ℕ)
          → lookup k (persist s m).1.pots
            ≡ refreshed
                (λ a b. a == b)
                s.polled_at
                (mapped (λ p. p.t_number) (seen pot_domain.key k s.pots))
                (lookup k m.pots))
      × ((k : ℕ)
          → lookup k (persist s m).1.macros
            ≡ refreshed same_nullable s.polled_at
                (mapped (λ v. v.value) (seen macro_domain.key k s.macros))
                (lookup k m.macros))
      × ((k : WorkKey)
          → lookup k (persist s m).1.work_offsets
            ≡ refreshed dec_eq s.polled_at
                (mapped (λ w. numeric_10_4 w.value) (seen work_domain.key k s.work_offsets))
                (lookup k m.work_offsets))
      × ((k : ℕ)
          → lookup k (persist s m).1.tool_life
            ≡ refreshed_life
                (mapped (λ tl. life_row tl s.polled_at) (seen life_domain.key k s.tool_life))
                (lookup k m.tool_life))
  unfolding persist diff_offsets diff_pots diff_macros diff_work_offsets diff_tool_life
  persist-refreshed = (
    (λ k.
        lookup-upsert-diff (offset_domain (presetter_active s m)) k _ s.offsets s.polled_at
          m.offsets u.unique_offsets
        ∙ after_upsert-refreshed dec_eq numeric_10_4 (λ off. off.value_mm) s.polled_at _
            (lookup k m.offsets)),
    (λ k.
        lookup-upsert-diff pot_domain k _ s.pots s.polled_at m.pots u.unique_pots
        ∙ after_upsert-refreshed (λ a b. a == b) (λ v. v) (λ p. p.t_number) s.polled_at _
            (lookup k m.pots)),
    (λ k.
        lookup-upsert-diff macro_domain k _ s.macros s.polled_at m.macros u.unique_macros
        ∙ after_upsert-refreshed same_nullable (λ v. v) (λ v. v.value) s.polled_at _
            (lookup k m.macros)),
    (λ k.
        lookup-upsert-diff work_domain k _ s.work_offsets s.polled_at m.work_offsets
          u.unique_work_offsets
        ∙ after_upsert-refreshed dec_eq numeric_10_4 (λ w. w.value) s.polled_at _
            (lookup k m.work_offsets)),
    (λ k.
        lookup-upsert-diff life_domain k _ s.tool_life s.polled_at m.tool_life u.unique_tool_life
        ∙ after_upsert-refreshed_life s.polled_at _ (lookup k m.tool_life)),
  )
