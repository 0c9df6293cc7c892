-- ===== src/Service/Lock.antt =====
-- `SingleInstanceLock` of shared/focas/service.py: one lockfile, and the processes that use it. `acquire`
-- looks at the file and then writes it, and other processes may act between the two; the writing succeeds.
use pottracker.Prelude.{
  ℕ, Bool, true, false, not, ◌&&◌, Option, none, some, List, [], ◌∷◌, eqb, if◌then◌else◌,
}

-- The lockfile, which may be absent or name no process, the processes that are alive, those whose lock has
-- `_acquired`, and those that are in `acquire`, past its look at the file.
pub record Lockfile : Type 0 where
  pub file : Option (Option ℕ)
  pub alive : ℕ → Bool
  pub acquired : ℕ → Bool
  pub passed : ℕ → Bool

abbrev pub set_at : (ℕ → Bool) → ℕ → Bool → ℕ → Bool
set_at f pid b q = if eqb q pid then b else f q

-- `_read_pid`.
abbrev pub read_pid : Option (Option ℕ) → Option ℕ
read_pid none = none
read_pid (some content) = content

-- Whether `acquire` raises AlreadyRunningError.
abbrev pub is_taken : (ℕ → Bool) → ℕ → Option ℕ → Bool
is_taken alive pid none = false
is_taken alive pid (some existing) = not (eqb existing pid) && alive existing

-- The look of `acquire` at the file.
unfoldable pub look : Lockfile → ℕ → Lockfile
look l pid =
    if is_taken l.alive pid (read_pid l.file)
    then l
    else record l { passed = set_at l.passed pid true }

-- The rest of `acquire`.
unfoldable pub write : Lockfile → ℕ → Lockfile
write l pid =
    if l.passed pid
    then record l {
      file = some (some pid);
      acquired = set_at l.acquired pid true;
      passed = set_at l.passed pid false;
    }
    else l

-- `acquire` with nothing between.
unfoldable pub acquire : Lockfile → ℕ → Lockfile
unfolding look write
acquire l pid = write (look l pid) pid

abbrev pub is_own : ℕ → Option ℕ → Bool
is_own pid none = false
is_own pid (some existing) = eqb existing pid

-- The errors of the unlinking are suppressed, so it may leave the file.
unfoldable pub release : Lockfile → ℕ → Bool → Lockfile
release l pid unlinks =
    if l.acquired pid
    then record l {
      file = if is_own pid (read_pid l.file) && unlinks then none else l.file;
      acquired = set_at l.acquired pid false;
    }
    else l

-- What happens: a process comes to life or ends, at whatever point, or one that is alive does a step.
pub data Event : Type 0 where
  spawned died looking writing : ℕ → Event
  releasing : ℕ → Bool → Event

unfoldable pub step : Lockfile → Event → Lockfile
unfolding look write release
step l (spawned pid) = record l { alive = set_at l.alive pid true }
step l (died pid) = record l {
  alive = set_at l.alive pid false;
  acquired = set_at l.acquired pid false;
  passed = set_at l.passed pid false;
}
step l (looking pid) = if l.alive pid then look l pid else l
step l (writing pid) = if l.alive pid then write l pid else l
step l (releasing pid unlinks) = if l.alive pid then release l pid unlinks else l

unfoldable pub steps : Lockfile → List Event → Lockfile
unfolding step
steps l [] = l
steps l (e ∷ es) = steps (step l e) es
