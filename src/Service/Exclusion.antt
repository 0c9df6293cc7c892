-- ===== src/Service/Exclusion.antt =====
-- Who holds a lock, where no two processes start at once.
use pottracker.Prelude.{
  ℕ, ◌≡◌, refl, Bool, true, false, Option, none, some, List, [], ◌∷◌, eqb, eqb_iff, arith,
  Bool-cases, inl, inr, ◌⊎◌, if_elim, if◌then◌else◌, ap, sym, ◌∙◌,
}
use pottracker.Service.Lock.{
  Lockfile, Event, spawned, died, looking, writing, releasing, look, write, acquire, release, step,
  steps, is_taken, read_pid, set_at,
}

-- A process that looks at the file is the only one between its look and its writing.
unfoldable pub StartsApart : Lockfile → List Event → Type 0
StartsApart l [] = Unit
StartsApart l (looking pid ∷ es) =
    ((q : ℕ) → l.passed q ≡ true → q ≡ pid) × StartsApart (step l (looking pid)) es
StartsApart l (spawned pid ∷ es) = StartsApart (step l (spawned pid)) es
StartsApart l (died pid ∷ es) = StartsApart (step l (died pid)) es
StartsApart l (writing pid ∷ es) = StartsApart (step l (writing pid)) es
StartsApart l (releasing pid unlinks ∷ es) = StartsApart (step l (releasing pid unlinks)) es

-- A process that acquired the lock is alive, and the file names it; one past its look is the only one,
-- and no other has the lock.
pub record IsOwned (l : Lockfile) : Type 0 where
  pub lives : (p : ℕ) → l.acquired p ≡ true → l.alive p ≡ true
  pub named : (p : ℕ) → l.acquired p ≡ true → l.file ≡ some (some p)
  pub alone : (p q : ℕ) → l.passed p ≡ true → l.passed q ≡ true → p ≡ q
  pub apart : (p q : ℕ) → l.passed p ≡ true → l.acquired q ≡ true → p ≡ q

one_owner : (f : Option (Option ℕ)) (p q : ℕ) → f ≡ some (some p) → f ≡ some (some q) → p ≡ q
one_owner f p q h k = ground arith

-- What a changed flag says.
set_at-true : (f : ℕ → Bool) (pid p : ℕ) → set_at f pid true p ≡ true → (p ≡ pid) ⊎ (f p ≡ true)
set_at-true f pid p h = ground arith

set_at-false :
    (f : ℕ → Bool) (pid p : ℕ) → set_at f pid false p ≡ true → (eqb p pid ≡ false) × (f p ≡ true)
set_at-false f pid p h = ground arith

-- A process that holds the lock keeps the others from it.
is_taken-other :
    (l : Lockfile) (pid q : ℕ)
    → IsOwned l
    → l.acquired q ≡ true
    → eqb q pid ≡ false
    → is_taken l.alive pid (read_pid l.file) ≡ true
is_taken-other l pid q o held other = rw (o.named q held, o.lives q held, other) refl

holder :
    (l : Lockfile) (pid q : ℕ)
    → IsOwned l
    → is_taken l.alive pid (read_pid l.file) ≡ false
    → l.acquired q ≡ true
    → q ≡ pid
holder l pid q o free held = elim (Bool-cases (eqb q pid)) [
  | inl same ↦ (eqb_iff q pid).0 same
  | inr other ↦ ground (arith, is_taken-other l pid q o held other)
]

look-IsOwned :
    (l : Lockfile) (pid : ℕ)
    → ((q : ℕ) → l.passed q ≡ true → q ≡ pid)
    → IsOwned l
    → IsOwned (look l pid)
unfolding look
look-IsOwned l pid only o = elim (Bool-cases (is_taken l.alive pid (read_pid l.file))) [
  | inl taken ↦ rw taken o
  | inr free ↦
      let is_pid : (p : ℕ) → set_at l.passed pid true p ≡ true → p ≡ pid =
        λ p h. elim (set_at-true l.passed pid p h) [ inl same ↦ same | inr was ↦ only p was ] in
      rw free (record {
        lives = o.lives;
        named = o.named;
        alone = λ p q h k. is_pid p h ∙ sym (is_pid q k);
        apart = λ p q h k. is_pid p h ∙ sym (holder l pid q o free k);
      })
]

write-IsOwned : (l : Lockfile) (pid : ℕ) → l.alive pid ≡ true → IsOwned l → IsOwned (write l pid)
unfolding write
write-IsOwned l pid live o = elim (Bool-cases (l.passed pid)) [
  | inl past ↦
      let is_pid : (p : ℕ) → set_at l.acquired pid true p ≡ true → p ≡ pid = λ p h.
        elim (set_at-true l.acquired pid p h) [
          | inl same ↦ same
          | inr held ↦ sym (o.apart pid p past held)
        ] in
      rw past (record {
        lives = λ p h. rw (is_pid p h) live;
        named = λ p h. ap (λ q. some (some q)) (sym (is_pid p h));
        alone = λ p q h k.
            o.alone p q (set_at-false l.passed pid p h).1 (set_at-false l.passed pid q k).1;
        apart = λ p q h k. o.alone p pid (set_at-false l.passed pid p h).1 past ∙ sym (is_pid q k);
      })
  | inr idle ↦ rw idle o
]

release-IsOwned :
    (l : Lockfile) (pid : ℕ) (unlinks : Bool) → IsOwned l → IsOwned (release l pid unlinks)
unfolding release
release-IsOwned l pid unlinks o = elim (Bool-cases (l.acquired pid)) [
  | inl held ↦
      let none_left : (p : ℕ) → set_at l.acquired pid false p ≡ true → ⊥ = λ p h.
        let was = set_at-false l.acquired pid p h in
        other_than p pid was.0 (one_owner l.file p pid (o.named p was.1) (o.named pid held)) in
      rw held (record {
        lives = λ p h. absurd (none_left p h);
        named = λ p h. absurd (none_left p h);
        alone = o.alone;
        apart = λ p q h k. absurd (none_left q k);
      })
  | inr idle ↦ rw idle o
]
  where
    other_than : (p q : ℕ) → eqb p q ≡ false → p ≡ q → ⊥
    other_than p q h e = ground arith

spawned-IsOwned : (l : Lockfile) (pid : ℕ) → IsOwned l → IsOwned (step l (spawned pid))
unfolding step
spawned-IsOwned l pid o = record {
  lives = λ p h. (let k = o.lives p h in ground arith);
  named = o.named;
  alone = o.alone;
  apart = o.apart;
}

died-IsOwned : (l : Lockfile) (pid : ℕ) → IsOwned l → IsOwned (step l (died pid))
unfolding step
died-IsOwned l pid o = record {
  lives = λ p h. (let k = o.lives p in ground arith);
  named = λ p h. o.named p (set_at-false l.acquired pid p h).1;
  alone =
      λ p q h k. o.alone p q (set_at-false l.passed pid p h).1 (set_at-false l.passed pid q k).1;
  apart =
      λ p q h k. o.apart p q (set_at-false l.passed pid p h).1 (set_at-false l.acquired pid q k).1;
}

while_alive :
    (l t : Lockfile) (pid : ℕ)
    → (l.alive pid ≡ true → IsOwned t)
    → IsOwned l
    → IsOwned (if l.alive pid then t else l)
while_alive l t pid h o = if_elim IsOwned (l.alive pid) h (λ _. o)

steps-IsOwned :
    (l : Lockfile) (es : List Event) → StartsApart l es → IsOwned l → IsOwned (steps l es)
unfolding steps StartsApart step
steps-IsOwned l [] a o = o
steps-IsOwned l (spawned pid ∷ es) a o =
    steps-IsOwned (step l (spawned pid)) es a (spawned-IsOwned l pid o)
steps-IsOwned l (died pid ∷ es) a o = steps-IsOwned (step l (died pid)) es a (died-IsOwned l pid o)
steps-IsOwned l (looking pid ∷ es) a o =
    steps-IsOwned (step l (looking pid)) es a.1
      (while_alive l (look l pid) pid (λ _. look-IsOwned l pid a.0 o) o)
steps-IsOwned l (writing pid ∷ es) a o =
    steps-IsOwned (step l (writing pid)) es a
      (while_alive l (write l pid) pid (λ live. write-IsOwned l pid live o) o)
steps-IsOwned l (releasing pid unlinks ∷ es) a o =
    steps-IsOwned (step l (releasing pid unlinks)) es a
      (while_alive l (release l pid unlinks) pid (λ _. release-IsOwned l pid unlinks o) o)

-- From a lockfile with whatever content that no process has acquired or is acquiring, where no process looks
-- at the file while another one is between its look and its writing, after processes came to life, ended
-- at whatever point, acquired and released it in any other order, the unlinking failing or not: a process
-- that has the lock is alive and is the one that the file names, so at most one process has it.
pub steps-Exclusive :
    (l : Lockfile) (es : List Event) (p q : ℕ)
    → ((r : ℕ) → (l.acquired r ≡ false) × (l.passed r ≡ false))
    → StartsApart l es
    → (steps l es).acquired p ≡ true
    → (steps l es).acquired q ≡ true
    → ((steps l es).alive p ≡ true) × ((steps l es).file ≡ some (some p)) × (p ≡ q)
steps-Exclusive l es p q i a held also =
    let unset : (b : Bool) → b ≡ false → b ≡ true → ⊥ = λ b h k. ground arith in
    let o = steps-IsOwned l es a (record {
      lives = λ r h. absurd (unset _ (i r).0 h);
      named = λ r h. absurd (unset _ (i r).0 h);
      alone = λ r s h k. absurd (unset _ (i r).1 h);
      apart = λ r s h k. absurd (unset _ (i r).1 h);
    }) in
    (
      o.lives p held,
      o.named p held,
      one_owner (steps l es).file p q (o.named p held) (o.named q also),
    )

-- A process beside which no other is alive is not refused, whatever the file says.
is_taken-alone :
    (alive : ℕ → Bool) (pid : ℕ) (found : Option ℕ)
    → ((q : ℕ) → eqb q pid ≡ false → alive q ≡ false)
    → is_taken alive pid found ≡ false
is_taken-alone alive pid none h = refl
is_taken-alone alive pid (some existing) h = elim (Bool-cases (eqb existing pid)) [
  | inl own ↦ rw own refl
  | inr other ↦ rw (other, h existing other) refl
]

eqb_refl : (n : ℕ) → eqb n n ≡ true
eqb_refl n = ground arith

-- So a stale file never keeps it from the lock.
acquire-alone :
    (l : Lockfile) (pid : ℕ)
    → ((q : ℕ) → eqb q pid ≡ false → l.alive q ≡ false)
    → (acquire l pid).acquired pid ≡ true
unfolding acquire look write
acquire-alone l pid h =
    rw (is_taken-alone l.alive pid (read_pid l.file) h) (rw (eqb_refl pid) (rw (eqb_refl pid) refl))
