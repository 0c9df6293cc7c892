-- ===== src/Mirror.antt =====
-- The mirror of one machine in the database: shared/focas/snapshot_diff.py (what changed) and
-- shared/focas/snapshot.py (the upserts and the audit rows of one poll).
pub mod Rows
pub mod Upsert
pub mod Diff
pub mod Domains
pub mod Loop
pub mod Persist
pub mod Observed
pub mod NewRows
pub mod Logged
pub mod Repeat
pub mod Attribution
pub mod Credit
pub mod Status
