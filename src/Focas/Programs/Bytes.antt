-- ===== src/Focas/Programs/Bytes.antt =====
-- The end of a text of bytes, as `rstrip` and `endswith` see it.
use pottracker.Prelude.{
  ℕ, ◌≡◌, sym, ap, ◌∙◌, true, ◌&&◌, List, [], ◌∷◌, ◌++◌, append_assoc, append-nil, if◌then◌else◌,
  arith, length, length-append, ◌+◌,
}
use pottracker.Focas.Programs.{is_nil, is_space, rstrip, ends_with_percent, join}

ends_longer :
    (c : ℕ) (rest : List ℕ)
    → ends_with_percent rest ≡ true
    → ends_with_percent (if is_nil rest && is_space c then [] else c ∷ rest) ≡ true
unfolding ends_with_percent
ends_longer c [] h = ground arith
ends_longer c (x ∷ xs) h = h

-- What comes before does not change how a text ends.
pub ends-append :
    (xs ys : List ℕ)
    → ends_with_percent (rstrip ys) ≡ true
    → ends_with_percent (rstrip (xs ++ ys)) ≡ true
unfolding rstrip
ends-append [] ys h = h
ends-append (x ∷ xs) ys h = ends_longer x (rstrip (xs ++ ys)) (ends-append xs ys h)

pub join-append : (cs : List (List ℕ)) (d : List ℕ) → join (cs ++ (d ∷ [])) ≡ join cs ++ d
unfolding join
join-append [] d = append-nil d
join-append (c ∷ cs) d = ap (λ r. c ++ r) (join-append cs d) ∙ sym (append_assoc c (join cs) d)

pub length-join :
    (cs : List (List ℕ)) (d : List ℕ) → length (join (cs ++ (d ∷ []))) ≡ length (join cs) + length d
length-join cs d = ap length (join-append cs d) ∙ length-append (join cs) d
