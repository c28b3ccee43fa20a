-- ===== src/Lib.antt =====
-- The control plane of lance-etl: the transactions of src/lance_etl/state/repository.py on its
-- PostgreSQL tables, as functions from a database to a result and a database, and the reconciler
-- of src/lance_etl/reconciler, whose cycle calls them.
--
-- The program turns Iceberg snapshots into served Lance datasets. The planner enqueues a
-- snapshot of a source, with one INGEST row of work for each dataset it touches. Workers claim
-- due rows under a lease with a fence epoch, move them through their phases, and end them:
-- `complete_ingest` advances the dataset and enqueues a PUBLISH row, `publish_dataset` moves the
-- serving pointer, and `resolve_serving_dataset` reads it. A snapshot that cannot be applied is
-- blocked, which closes its source until an operator reopens it; each block and each repair
-- moves the planning epoch, so that older plans are refused.
--
-- The parts:
--   * Common: results and errors, SQL over a table held as a list of rows, keys, integers.
--   * Types (Ids, Plan, Evidence): src/lance_etl/state/types.py and routing.py.
--   * Db: src/lance_etl/state/tables.py, the rows and the unique indexes of `dataset_work`.
--   * Sources: the validation of a source that is read from its row, in state/types.py.
--   * Queue: the predicates of the queue. Lease: renew, advance, retry, block. Claim: the claim
--     transaction, with Run (the loop as a relation), Batch and Fresh (what a batch is). Ingest
--     and Publish: the two ends of work. Fencing: calls under a lost claim. Evolution: how rows
--     may change. Completion, Serving, Agreement: what the operations leave behind.
--   * Planning (Enqueue, Gate): snapshots and gates; Lineage, Guards, Routes, Stale and
--     Progress have the proofs. Specs: specification revisions and rebuilds.
--   * Control: the transactions of the parts above that write, as one type of calls (`Call`),
--     and histories of them. Registration, the creation of drafts, and the deletions of cleanup
--     and audit are not among them; `History` of the reconciler adds the two deletions.
--   * Retention: the floor of source retention, the status counts, and what cleanup and audit
--     delete. Floor, Status, Cleanup, Deletion and Audit have the proofs.
--   * Settings: src/lance_etl/state/settings.py.
--   * Iceberg (Lineage, Manifests): the walk along a table's history and the classification of
--     snapshots, src/lance_etl/source/lineage.py, manifests.py and models.py.
--   * Mutations: src/lance_etl/etl/mutation.py, the collapse of a snapshot's rows to one terminal
--     mutation for each key; digests are parameters.
--   * Reconciler: src/lance_etl/reconciler/service.py, planning.py, results.py, retention.py. Its
--     operations are steps from a world (a database and the number of calls made) to an answer
--     and a world. Results, Dispatch, Planning, Sweep and Application are the code; the others
--     are proofs: Histories, on which Fences stands, takes a cycle for a history of transactions.
--   * Text, Examples: a small control plane that is run through a generation's life.
--
-- How the code corresponds: each method of ControlPlaneRepository is a function of the same
-- name; a method that is long has helpers for its parts, named in their comments. A raised
-- exception is an `err` and carries no database, since the transaction is rolled back. A
-- method that returns whether it did something returns that Bool beside the new database. `now`
-- is an argument. UUIDs are numbers; `uuid5`, the text of a UUID and of an integer are the
-- record `Uuids`, and no property asks anything of them. SELECT … FOR UPDATE is a lookup: one
-- transaction runs at a time, except that a claim skips the rows that others have locked, which
-- are two arguments, as are the tokens that it draws. Numbers that the code checks for their
-- sign are integers; a duration is a count of the clock's ticks.
--
-- A step of the reconciler that calls the repository is one transaction. The record `Environment`
-- says what happens around the n-th call: the time, the rows that others have locked, the tokens
-- drawn, and `others`, which is what other processes do to the database before it. A worker is
-- a function from a claim to a result or an exception; the planner of a source, and the removal of
-- a pin and an artifact, are functions of the same kind.
--
-- Loops run along a list, with two exceptions. The dispatcher drains at most `max_drain_batches`
-- batches, and recurses on that number as the code's loop does. The walk along an Iceberg
-- history follows parents with fuel: one more than the number of indexed snapshots is enough,
-- since a snapshot that is visited twice ends it.
--
-- A constraint of the tables that a transition can violate is an error of that transition: the
-- unique indexes of work, of publications, of routes and of source order, and the order of
-- publication and retirement. Foreign keys and checks on the form of a column are not modelled.
--
-- Not modelled: registration of sources and drafts, specification documents and their validation
-- when a revision is loaded, reads that only report, heartbeats and polling, the workers, Spark,
-- Lance and storage code, indexing, maintenance and recall jobs, the search service, the DDL of the
-- migrations, and the rounding of floats. Python's `str.strip` is modelled for ASCII white space
-- where the code asks whether a text is blank; followed by `str.lower` it is a parameter.
pub mod Common
pub mod Types
pub mod Db
pub mod Sources
pub mod Queue
pub mod Planning
pub mod Specs
pub mod Retention
pub mod Settings
pub mod Iceberg
pub mod Mutations
pub mod Reconciler
pub mod Control
pub mod Text
pub mod Examples
