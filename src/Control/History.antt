-- ===== src/Control/History.antt =====
-- What every history of the control plane keeps.
use lance_etl.Common.{ℕ, ◌≡◌, ◌<◌, find_row-Evolves, some, Bool, arith, Result, ok, >>=-eq-ok}
use lance_etl.Types.{WorkClaim}
use lance_etl.Types.Ids.{Uuids}
use lance_etl.Db.{Work, Dataset, Database, find_dataset, find_work}
use lance_etl.Queue.Lease.{retry_blocked_work}
use lance_etl.Queue.Claim.{claim_due_work}
use lance_etl.Queue.Fencing.{
  WorkerCall, renew, advance, retry, block, complete, publish, perform, perform_superseded,
}
use lance_etl.Queue.Evolution.{RowStep, IsLeased}
use lance_etl.Queue.Evolution.Progress.{
  Progress, Progress-refl, Progress-trans, IsKeyed, DatasetStep, Anything,
}
use lance_etl.Queue.Evolution.Calls.{
  renew_lease-Progress, advance_phase-Progress, retry_work-Progress, block_work-Progress,
}
use lance_etl.Queue.Evolution.Terminal.{complete_ingest-Progress, publish_dataset-Progress}
use lance_etl.Queue.Evolution.Claims.{claim_due_work-Progress}
use lance_etl.Planning.Enqueue.{enqueue_source_snapshot, enqueue_blocked_source_snapshot}
use lance_etl.Planning.Gate.{block_source_snapshot, retry_blocked_source_snapshot}
use lance_etl.Planning.Progress.{
  retry_blocked_work-Progress, block_source_snapshot-Progress,
  retry_blocked_source_snapshot-Progress,
}
use lance_etl.Planning.Progress.Enqueue.{
  enqueue_source_snapshot-Progress, enqueue_blocked_source_snapshot-Progress,
}
use lance_etl.Specs.{enqueue_rebuild, assign_dataset_spec_revision}
use lance_etl.Specs.Progress.{
  enqueue_rebuild-Progress, assign_dataset_spec_revision-Progress, set_source_default_spec-Progress,
  activate_spec_revision-Progress,
}
use lance_etl.Control.{
  Call, claim_due, worker, retry_blocked, enqueue_snapshot, enqueue_blocked, block_snapshot,
  retry_snapshot, rebuild, assign_revision, default_spec, activate, transact, Reach, start, commit,
  state_of,
}

perform-Progress :
    (u : Uuids) (claim : WorkClaim) (call : WorkerCall) (now : ℕ) (db : Database)
    {r : Bool × Database}
    → IsKeyed db
    → perform u claim call now db ≡ ok r
    → Progress db r.1
unfolding perform
perform-Progress u claim (renew duration) now db k e =
    renew_lease-Progress claim now db k duration e
perform-Progress u claim (advance phase c) now db k e =
    advance_phase-Progress claim now db k phase c e
perform-Progress u claim (retry delay code message bound) now db k e =
    retry_work-Progress claim now db k delay code message bound e
perform-Progress u claim (block code message) now db k e =
    block_work-Progress claim now db k code message e
perform-Progress u claim (complete version rows digest) now db k e =
    complete_ingest-Progress claim now db k u version rows digest e
perform-Progress u claim (publish uri version manifest digest evidence) now db k e =
    publish_dataset-Progress claim now db k u uri version manifest digest evidence e

state_of-eq-ok {ℓ} :
    {A : Type ℓ} (m : Result (A × Database)) {x : Database}
    → state_of m ≡ ok x
    → (a : A) × (m ≡ ok (a, x))
state_of-eq-ok m {x} e =
    let (r, done, e1) = >>=-eq-ok m (λ y. ok y.1) e in let q : r.1 ≡ x = cc in (r.0, rw (← q) done)

pub transact-Progress :
    (u : Uuids) (call : Call) (now : ℕ) (db : Database) {db' : Database}
    → IsKeyed db
    → transact u call now db ≡ ok db'
    → Progress db db'
unfolding transact
transact-Progress u (claim_due token lw ld limit lease) now db k e =
    let (a, e1) = state_of-eq-ok (claim_due_work token lw ld limit lease now db) e in
    claim_due_work-Progress token lw ld limit lease now db k e1
transact-Progress u (worker claim call) now db k e =
    let (a, e1) = state_of-eq-ok (perform u claim call now db) e in
    perform-Progress u claim call now db k e1
transact-Progress u (retry_blocked id) now db k e =
    let (a, e1) = state_of-eq-ok (retry_blocked_work id now db) e in
    retry_blocked_work-Progress id now db k e1
transact-Progress u (enqueue_snapshot plan plans) now db k e =
    let (a, e1) = state_of-eq-ok (enqueue_source_snapshot u plan plans now db) e in
    enqueue_source_snapshot-Progress db k u plan plans now e1
transact-Progress u (enqueue_blocked plan code message) now db k e =
    let (a, e1) = state_of-eq-ok (enqueue_blocked_source_snapshot plan code message now db) e in
    enqueue_blocked_source_snapshot-Progress db k plan code message now e1
transact-Progress u (block_snapshot seq code message epoch) now db k e =
    let (a, e1) = state_of-eq-ok (block_source_snapshot seq code message epoch now db) e in
    block_source_snapshot-Progress db k seq code message epoch now e1
transact-Progress u (retry_snapshot seq) now db k e =
    let (a, e1) = state_of-eq-ok (retry_blocked_source_snapshot seq db) e in
    retry_blocked_source_snapshot-Progress db k seq e1
transact-Progress u (rebuild identity request) now db k e =
    let (a, e1) = state_of-eq-ok (enqueue_rebuild u identity request now db) e in
    enqueue_rebuild-Progress u db k identity request now e1
transact-Progress u (assign_revision id revision) now db k e =
    let (a, e1) = state_of-eq-ok (assign_dataset_spec_revision u id revision now db) e in
    assign_dataset_spec_revision-Progress u id revision now db k e1
transact-Progress u (default_spec source_id spec_id) now db k e =
    set_source_default_spec-Progress source_id spec_id db k e
transact-Progress u (activate revision) now db k e =
    activate_spec_revision-Progress revision now db k e

-- Whatever the history of the transactions of `Call`, from a database whose primary keys are
-- unique: the rows of work, of datasets, of snapshots and of sources stay, in their order, with
-- new rows after them. A row of work keeps its identity, is never written again once it has
-- succeeded, never takes its phase or its attempts back, and holds a lease exactly while it runs
-- if it did at the start; new rows hold leases so too. Fence epochs and planning epochs never
-- fall, a snapshot's lineage never changes, and the primary keys stay unique.
pub Reach-Progress : (u : Uuids) (db db' : Database) → IsKeyed db → Reach u db db' → Progress db db'
Reach-Progress u db db' k start = Progress-refl db k
Reach-Progress u db db' k (commit {db1 = db1} call now e rest) =
    let p = transact-Progress u call now db k e in
    Progress-trans db db1 db' p (Reach-Progress u db1 db' p.keyed rest)

pub find_dataset-Progress :
    (id : ℕ) (db db' : Database) {d : Dataset}
    → Progress db db'
    → find_dataset id db ≡ some d
    → (e : Dataset) × (find_dataset id db' ≡ some e) × DatasetStep d e
unfolding find_dataset
find_dataset-Progress id db db' p f =
    find_row-Evolves DatasetStep Anything (λ d. d.dataset_id) (λ x y s. s.dataset_id) id db.datasets
      db'.datasets p.datasets f

find_work-Progress :
    (id : ℕ) (db db' : Database) {w : Work}
    → Progress db db'
    → find_work id db ≡ some w
    → (v : Work) × (find_work id db' ≡ some v) × RowStep w v
unfolding find_work
find_work-Progress id db db' p f =
    find_row-Evolves RowStep IsLeased (λ w. w.work_id) (λ x y s. s.identity.work_id) id db.works
      db'.works p.works f

-- Once the fence epoch of a dataset is above that of a claim, then after any history of the
-- transactions of `Call`, each call under that claim raises or leaves the database as it is: a worker that
-- has lost its lease to a later claim can never write again, whatever else happens.
pub perform_superseded_forever :
    (u : Uuids) (db db' : Database) (claim : WorkClaim) (call : WorkerCall) (now : ℕ) (d : Dataset)
    {r : Bool × Database}
    → IsKeyed db
    → find_dataset claim.dataset_id db ≡ some d
    → claim.fence_epoch < d.fence_epoch
    → Reach u db db'
    → perform u claim call now db' ≡ ok r
    → r.1 ≡ db'
perform_superseded_forever u db db' claim call now d k f later reach e =
    let (d', f', step) =
      find_dataset-Progress claim.dataset_id db db' (Reach-Progress u db db' k reach) f in
    let fence = step.fence in perform_superseded u claim call now db' (rw f' (ground arith)) e
