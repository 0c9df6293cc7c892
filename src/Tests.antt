-- ===== src/Tests.antt =====
-- The theorems applied to concrete runs of the program, with the data of these runs.
mod Arithmetic
mod Write
mod Poll
mod Supervisor
mod Allocation
mod Poller
mod Upload
mod Reads
mod Export
mod Units
mod Lock
