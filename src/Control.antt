-- ===== src/Control.antt =====
-- state/repository.py: the transactions of the queue, the planner, the operator and the
-- specifications, one after the other. A transaction that raises is rolled back, so it is not a
-- step. Registration, the creation of drafts, and the deletions of cleanup and audit are no calls.
pub mod History
use lance_etl.Common.{ℕ, String, Bool, Option, none, some, List, Result, ok, ◌>>=◌, ◌≡◌, ℤ}
use lance_etl.Types.{RoutingIdentity, WorkClaim}
use lance_etl.Types.Ids.{Uuids}
use lance_etl.Types.Plan.{SourceSnapshotPlan}
use lance_etl.Db.{Database}
use lance_etl.Queue.Lease.{retry_blocked_work}
use lance_etl.Queue.Claim.{claim_due_work}
use lance_etl.Queue.Fencing.{WorkerCall, perform}
use lance_etl.Planning.Enqueue.{enqueue_source_snapshot, enqueue_blocked_source_snapshot}
use lance_etl.Planning.Gate.{block_source_snapshot, retry_blocked_source_snapshot}
use lance_etl.Specs.{
  enqueue_rebuild, assign_dataset_spec_revision, set_source_default_spec, activate_spec_revision,
}

-- One call of these that writes, with its arguments. A claim takes the tokens that it
-- draws, and the rows that other transactions have locked (SKIP LOCKED).
pub data Call : Type 0 where
  claim_due : (ℕ → ℕ) → (ℕ → Bool) → (ℕ → Bool) → ℤ → ℤ → Call
  worker : WorkClaim → WorkerCall → Call
  retry_blocked : ℕ → Call
  enqueue_snapshot : SourceSnapshotPlan → List RoutingIdentity → Call
  enqueue_blocked : SourceSnapshotPlan → String → Option String → Call
  block_snapshot : ℕ → String → Option String → Option ℕ → Call
  retry_snapshot : ℕ → Call
  rebuild : RoutingIdentity → ℕ → Call
  assign_revision : ℕ → ℕ → Call
  default_spec : ℕ → ℕ → Call
  activate : ℕ → Call

abbrev pub state_of {ℓ} : {A : Type ℓ} → Result (A × Database) → Result Database
state_of r = r >>= λ x. ok x.1

unfoldable pub transact : Uuids → Call → ℕ → Database → Result Database
transact u (claim_due token locked_work locked_dataset limit lease) now db =
    state_of (claim_due_work token locked_work locked_dataset limit lease now db)
transact u (worker claim call) now db = state_of (perform u claim call now db)
transact u (retry_blocked id) now db = state_of (retry_blocked_work id now db)
transact u (enqueue_snapshot plan plans) now db =
    state_of (enqueue_source_snapshot u plan plans now db)
transact u (enqueue_blocked plan code message) now db =
    state_of (enqueue_blocked_source_snapshot plan code message now db)
transact u (block_snapshot seq code message epoch) now db =
    state_of (block_source_snapshot seq code message epoch now db)
transact u (retry_snapshot seq) now db = state_of (retry_blocked_source_snapshot seq db)
transact u (rebuild identity request) now db = state_of (enqueue_rebuild u identity request now db)
transact u (assign_revision id revision) now db =
    state_of (assign_dataset_spec_revision u id revision now db)
transact u (default_spec source_id spec_id) now db = set_source_default_spec source_id spec_id db
transact u (activate revision) now db = activate_spec_revision revision now db

-- The databases that a history of committed transactions leads to, clocks in any order.
pub data Reach (u : Uuids) : Database → Database → Type 0 where
  start : {db : Database} → Reach u db db
  commit :
      {db db1 db' : Database} (call : Call) (now : ℕ)
      → transact u call now db ≡ ok db1
      → Reach u db1 db'
      → Reach u db db'
