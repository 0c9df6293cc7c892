-- ===== src/Tests/Lock.antt =====
-- Two processes and one lockfile, with a stale entry.
use pottracker.Prelude.{ℕ, ◌≡◌, refl, true, false, some, List, [], ◌∷◌, eqb, arith}
use pottracker.Service.Lock.{
  Lockfile, Event, spawned, died, looking, writing, releasing, look, write, release, step, steps,
}
use pottracker.Service.Exclusion.{StartsApart, steps-Exclusive}

-- The file names process 4, which is gone.
abbrev stale : Lockfile
stale = record {
  file = some (some 4);
  alive = λ p. eqb p 7;
  acquired = λ p. false;
  passed = λ p. false;
}

-- Process 7 takes the lock over, 8 is refused, 7 is killed and 8 reclaims it.
abbrev events : List Event
events =
    looking 7
    ∷ writing 7
    ∷ spawned 8
    ∷ looking 8
    ∷ writing 8
    ∷ died 7
    ∷ looking 8
    ∷ writing 8
    ∷ releasing 7 true
    ∷ []

apart : StartsApart stale events
unfolding StartsApart step look write release
apart = (λ q h. ground arith, (λ q h. ground arith, (λ q h. ground arith, tt)))

steps-Exclusive_example :
    ((steps stale events).alive 8 ≡ true)
    × ((steps stale events).file ≡ some (some 8))
    × (◌≡◌ {A = ℕ} 8 8)
unfolding steps step look write release
steps-Exclusive_example = steps-Exclusive stale events 8 8 (λ r. (refl, refl)) apart refl refl

-- Two processes that look before either has written both have the lock.
abbrev at_once : List Event
at_once = spawned 8 ∷ looking 7 ∷ looking 8 ∷ writing 7 ∷ writing 8 ∷ []

both : ((steps stale at_once).acquired 7 ≡ true) × ((steps stale at_once).acquired 8 ≡ true)
unfolding steps step look write
both = (refl, refl)
