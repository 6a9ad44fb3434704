-- ===== src/Lib.antt =====
-- A verification library of Scryntic, a collector and archive of market data (src/scryntic).
--
-- The program's parts and the files that model them:
--
--   Prelude and its children: lists, Python's integers over the native numbers, exceptions as
--     values, methods that change an object and may raise, text, sorting. They model no file.
--   Domain: src/scryntic/domain. Identifiers, digests, times, identities and raw records, as far as
--     the other parts use them.
--   Clock: src/scryntic/clock. Contracts has the values of src/scryntic/application/clock.py and
--     src/scryntic/configuration/clock.py, Policy the comparisons of clock/policy.py, Evidence the
--     state of `ClockMonitor` and its judgement of one reading, Monitor its `sample`.
--   Ingestion: src/scryntic/ingestion/sqlite_spool.py. Metadata has the recovery rows, Stored the
--     columns of a raw record and its way into them and back, Intake `accept`, `records_after`, the
--     closing and the opening of the spool.
--   Normalization.Runner: the reading of src/scryntic/normalization/runner.py.
--   Recovery.Budget: src/scryntic/recovery/budget.py, shared by the live and the backfill lane.
--   Recovery.Coverage: src/scryntic/recovery/coverage.py. Contracts has the dataclasses, Ledger the
--     state of `CoverageLedger` with its opening, `_save`, `begin`, `finish` and `loss`, Query its
--     `coverage`, Observe its `observed`, Repair its pages, Book its order books, and Calls any
--     sequence of these calls.
--   Recovery.Supervisor: src/scryntic/recovery/supervisor.py. The file itself has the live side,
--     `ingest` with what it calls, Repair has `repair_once` and the tasks of the event loop.
--   Jobs: src/scryntic/jobs. Records has the rows of the table `jobs`, the records read from them and
--     the interface `Kind` of what a subclass of `DurableJobStore` gives; Store the transaction with
--     `submit` and `get`; its child Change the other calls, the opening and any sequence of them.
--   Daemon.Health: src/scryntic/daemon/health.py. Snapshot has the values and their constructors,
--     Health itself the cache that the daemon's owner publishes to and its readers read.
--   Research.Targets: src/scryntic/research/targets.py. Series has the bars, their versions and the
--     selection of one as of a cutoff, Record the records and the loop over the hours, Resample and
--     Origin the methods of `HourlySeries` that these are named for, Origin also `outcome`.
--   Tests: the theorems at concrete inputs.
--
-- How they interact: each record that is received carries a sample of the clock; the ledger of a
-- stream is told of each record, keeps the spans of time in which data may be missing, and writes
-- its state through the spool's compare-and-swap before it shows it. The supervisor of a source takes
-- from the shared budget, has the spool accept a record and tells the ledger of it; its repair rounds
-- fetch what is missing, while the live side goes on: at each wait for the spool, the lock or the
-- source other tasks run, and a call that begins in a wait also ends in it.
--
-- How the code is translated: a method is a function from its object to its outcome and the object
-- after it, also where it raises, since what was assigned before an exception stays assigned. A
-- private method has the public name of the step that it does. An integer that a constructor holds
-- to be at least 0 is a natural number, any other one is an integer; neither has a bound, as in
-- Python. A type annotation is the type; the run-time tests of types are left out.
--
-- Loops go over lists; only the repeated reading of Normalization.Runner has fuel, for which one more
-- than the number of rows is enough (read_all_ends). The limits (64 spans, 256 candles, 61440 and
-- 65536 bytes, 64 streams) are those of the source.
--
-- Not modelled: the host's clocks and the synchronization daemon, whose readings are arguments of
-- `sample`; `json`, which is the parameter `Codec`; the library's SHA-256, which is the parameter
-- `sha256` of the spool's records; the hash of canonical JSON and the logarithm and text of a
-- decimal, which are the parameter `Kit`; SQLite, of which a transaction is one step that commits
-- or leaves the tables as they were; logging; threads, since one supervisor owns a ledger and one
-- event loop a budget; and the program's other parts: sources, the rest of normalization,
-- archive, publication, admission and runners of jobs, the rest of research, models and the rest
-- of the daemon.
pub mod Prelude
pub mod Domain
pub mod Clock
pub mod Ingestion
pub mod Normalization
pub mod Jobs
pub mod Recovery
pub mod Daemon
pub mod Research
pub mod Tests
