-- ===== src/Lib.antt =====
-- The tool tracker of a machine shop: what it reads from the controls, what it keeps, and what it may
-- write back. A poll reads a whole control into a snapshot, which is mirrored in the database with an
-- audit row for each change; tools are assigned to the registers of a machine; an offset is written in
-- two stages, a request and its execution behind a gate.
--
-- The parts and their files:
-- - Decimal: Python's Decimal as sign, digits and places, with comparison, quantize and subtraction.
-- - Text: str.strip.
-- - Model: the shapes of shared/focas/models.py.
-- - OffsetMath: shared/focas/offset_math.py, one function for each of its functions; OffsetMath/Conversion
--   has the round trip and the rounding, OffsetMath/Policy what may be written and what is large.
-- - Decoders: shared/focas/decoders.py, the decoders of status, offsets, pots and macros.
-- - Api: the errors of apps/tooling/api/errors.py and the row of a machine.
-- - WriteSafety: apps/tooling/api/services/write_safety.py; WriteSafety/Gate says when it permits.
-- - OffsetWrite: apps/tooling/api/services/offset_write.py. OffsetWrite/Defs has create_request and
--   execute_request over an OffsetWriteTarget, a record of a read and a write on a memory of any type;
--   OffsetWrite/Mock is the target of shared/focas/mock.py. OffsetWrite/Run lists the ten ways an
--   execution can end as a relation, with which the files beside it are proved.
-- - Mirror: shared/focas/snapshot_diff.py (Mirror/Diff, Mirror/Domains) and shared/focas/snapshot.py
--   (Mirror/Upsert, Mirror/Persist). The five lists of a snapshot are diffed by one loop, `diff`, over a
--   record Domain with what each has of its own. Mirror/Attribution and Mirror/Credit are about whom a poll
--   credits with a change, Mirror/Status about the memory of the last tool.
-- - Service: the loop of shared/focas/service.py, with connects and reads as inputs; Service/Breaker has
--   its circuit breaker. Service/Lock is the lockfile of a machine and the processes that use it, and
--   Service/Exclusion is about who holds it.
-- - Focas: the reads of a control over its library, which is a parameter (Focas/Library): a record of what
--   each call returns. Focas/Reads is shared/focas/client_reads.py, Focas/Client is
--   shared/focas/client.py and Focas/Lathe is shared/focas/lathe.py; Focas/Sweep is about asking a list of
--   requests one by one, and Focas/Swept, Focas/Snapshot, Focas/Shown, Focas/Tools and
--   Focas/LatheSnapshot are about the snapshots that are handed to the mirror. Focas/Programs is
--   shared/focas/programs.py, the upload of a program, and Focas/Params is shared/focas/params.py, the
--   units of a control, with Focas/Units about its increment.
-- - Poller: shared/focas/poller.py as a machine of events: cycles, snapshots taken by the consumer and
--   stops, in any order and also while a cycle awaits. Poller/Polled and Poller/Fresh are about its
--   bounded queue, Poller/Lossless about a consumer that keeps up, and Poller/Breaker about its counters.
-- - G10: apps/tooling/api/services/g10.py: the builder in G10, the parser in G10/Parse. The files beside
--   them go from digits (G10/Digits, G10/Numbers) to blocks and lines (G10/Blocks, G10/Lines,
--   G10/MillLines, G10/LatheLines), to what the parser holds after some lines (G10/Reached, G10/Writes),
--   to a whole program (G10/RoundTrip).
-- - Assignments: apps/tooling/api/services/assignments.py; Assignments/Unique states the rule of
--   the active assignments, and Assignments/Preserved is about the operations.
-- - Occupancy: apps/tooling/api/services/occupancy.py, over the mirror and the assignments;
--   Occupancy/Presence is about when a tool is claimed to be there.
-- - Tests: concrete runs.
--
-- How the state is modelled: a session is the tables that a service reads and writes, and an operation
-- returns its answer with the next session, an error being an answer. Ids and times are numbers, the id
-- that the database makes and the current time are arguments. A table is an association list with
-- unique keys, in which INSERT … ON CONFLICT DO UPDATE is `upsert`. In Mirror the tables are those of one
-- machine, since every query of a poll names the machine.
--
-- Bounds: all loops are structural recursion, so no fuel is needed but for the upload of a program, whose
-- loop is bounded by the 5,000 calls of the source, and for the digits of a number n, for which n + 1 steps
-- are enough. Decimals do not reach the 28 digits
-- of Python's context (offsets have ten at most), so the operations are exact; NUMERIC(10, 4) rounds half
-- away from zero. A negative commanded T word is read
-- as none into a status.
--
-- The library of a control is a function of the arguments of its calls: a sweep makes no call twice with the
-- same arguments. A client whose snapshot fails is not returned, so a layout that it cached before is not
-- kept; it is read again.
--
-- Not modelled: the vendor library and its bindings, the HTTP layer, SQL transactions (a poll commits
-- once), logging, threads, the web front end, the range checks that the models of a reading make, and the
-- fast status tier of the service.
pub mod Api
pub mod Assignments
pub mod Decimal
pub mod Decoders
pub mod Focas
pub mod G10
pub mod Mirror
pub mod Model
pub mod Occupancy
pub mod OffsetMath
pub mod OffsetWrite
pub mod Poller
pub mod Prelude
pub mod Service
pub mod Tests
pub mod Text
pub mod WriteSafety
