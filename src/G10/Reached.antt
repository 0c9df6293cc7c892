-- ===== src/G10/Reached.antt =====
-- Where the parser stands after some lines.
use pottracker.Prelude.{ℕ, ◌≡◌, refl, sym, ◌∙◌, ap, false, List, [], ◌∷◌, ◌++◌}
use pottracker.Decimal.{Decimal}
use pottracker.Model.{RegisterType}
use pottracker.G10.{Text}
use pottracker.G10.Parse.{
  MachineClass, ParsedG10, Parsed, parsed, failed, clashes, step, steps, strip, then_do,
}
use pottracker.G10.Lines.{IsPassed, step-IsPassed, IsLine, strip-IsLine}
use pottracker.G10.Writes.{Write, applied, applied-append}

then_do_assoc :
    (x : Parsed ParsedG10) (f g : ParsedG10 → Parsed ParsedG10)
    → then_do (then_do x f) g ≡ then_do x (λ out. then_do (f out) g)
then_do_assoc (parsed out) f g = refl
then_do_assoc (failed e) f g = refl

then_do_cong :
    (x : Parsed ParsedG10) (f g : ParsedG10 → Parsed ParsedG10)
    → ((out : ParsedG10) → f out ≡ g out)
    → then_do x f ≡ then_do x g
then_do_cong (parsed out) f g h = h out
then_do_cong (failed e) f g h = refl

steps-append :
    (xs ys : List Text) (out : ParsedG10) → steps (xs ++ ys) out ≡ then_do (steps xs out) (steps ys)
unfolding steps
steps-append [] ys out = refl
steps-append (x ∷ xs) ys out =
    then_do_cong (step (strip x) out) (steps (xs ++ ys)) _ (λ o. steps-append xs ys o)
    ∙ sym (then_do_assoc (step (strip x) out) (steps xs) (steps ys))

module _ (c : MachineClass) (given : ℕ → RegisterType → Decimal) where
  -- The lines are read, what they write stands in the rows, and the class is still one of `c`.
  pub record Reached (lines : List Text) (out : ParsedG10) (writes : List Write) : Type 0 where
    pub end : ParsedG10
    pub runs : steps lines out ≡ parsed end
    pub rows : end.rows ≡ applied given writes out.rows
    pub free : clashes c end.machine_class ≡ false

  pub Reached-nil : (out : ParsedG10) → clashes c out.machine_class ≡ false → Reached [] out []
  unfolding steps applied
  Reached-nil out h = record { end = out; runs = refl; rows = refl; free = h }

  pub Reached-append :
      (xs ys : List Text) (out : ParsedG10) (us vs : List Write) (h : Reached xs out us)
      → Reached ys h.end vs
      → Reached (xs ++ ys) out (us ++ vs)
  Reached-append xs ys out us vs h k = record {
    end = k.end;
    runs = steps-append xs ys out ∙ ap (λ p. then_do p (steps ys)) h.runs ∙ k.runs;
    rows = k.rows ∙ ap (applied given vs) h.rows ∙ sym (applied-append given us vs out.rows);
    free = k.free;
  }

  pub Reached-line :
      (line : Text) (out next : ParsedG10) (writes : List Write)
      → IsLine line
      → step line out ≡ parsed next
      → next.rows ≡ applied given writes out.rows
      → clashes c next.machine_class ≡ false
      → Reached (line ∷ []) out writes
  unfolding steps
  Reached-line line out next writes h e rows free = record {
    end = next;
    runs =
        ap (λ l. then_do (step l out) (steps [])) (strip-IsLine line h)
        ∙ ap (λ p. then_do p (steps [])) e;
    rows = rows;
    free = free;
  }

  pub Reached-passed :
      (line : Text) (out : ParsedG10)
      → IsPassed line
      → clashes c out.machine_class ≡ false
      → Reached (line ∷ []) out []
  unfolding steps applied
  Reached-passed line out h free = record {
    end = out;
    runs = ap (λ p. then_do p (steps [])) (step-IsPassed line out h);
    rows = refl;
    free = free;
  }
