-- ===== src/Planning/Gate.antt =====
-- state/repository.py: `block_source_snapshot` and `retry_blocked_source_snapshot`.
use lance_etl.Common.{
  ℕ, String, Bool, true, false, ◌&&◌, not, Option, none, some, Result, ok, state_transition,
  stale_source_plan, raise_if, ◌>>=◌, ◌>>◌, ◌==◌, leb, update_rows, if◌then◌else◌,
}
use lance_etl.Types.{SourceSnapshotState, is_ingest, is_waiting, is_gated, is_rejected}
use lance_etl.Db.{Snapshot, Work, Database, find_snapshot}
use lance_etl.Queue.Lease.{blocked_by, bounded_error, error_code_limit, error_message_limit}
use lance_etl.Queue.Ingest.{incomplete_ingest}
use lance_etl.Planning.{lock_source_for_planning, advance_epoch}
use lance_etl.Planning.Enqueue.{same_evidence}

abbrev pub marked : SourceSnapshotState → Option String → Option String → Snapshot → Snapshot
marked state code message s = record s { state = state; error_code = code; error_message = message }

abbrev pub is_seq : ℕ → Snapshot → Bool
is_seq seq s = s.source_snapshot_seq == seq

-- The waiting INGEST rows that a block of `seq` stops.
abbrev pub gated_row : ℕ → ℕ → Work → Bool
gated_row source_id seq w =
    w.source_id == source_id
    && leb seq w.source_snapshot_seq
    && is_ingest w.kind
    && is_waiting w.state

-- The two UPDATEs of `block_source_snapshot` before the epoch moves.
unfoldable pub close_gate : Snapshot → String → Option String → ℕ → Database → Database
unfolding bounded_error
close_gate row error_code error_message current db =
    let code = bounded_error (some error_code) error_code_limit in
    let message = bounded_error error_message error_message_limit in
    record db {
      works =
          update_rows (gated_row row.source_id row.source_snapshot_seq)
            (blocked_by code message current) db.works;
      snapshots =
          update_rows (is_seq row.source_snapshot_seq)
            (marked SourceSnapshotState.blocked code message) db.snapshots;
    }

abbrev expected_epoch_differs : Option ℕ → ℕ → Bool
expected_epoch_differs none epoch = false
expected_epoch_differs (some expected) epoch = not (epoch == expected)

unfoldable pub block_locked_snapshot :
    Snapshot → String → Option String → Option ℕ → ℕ → Database → Result (Bool × Database)
unfolding close_gate lock_source_for_planning advance_epoch same_evidence
block_locked_snapshot row error_code error_message expected_planning_epoch current db = do
  source ← lock_source_for_planning row.source_id db
  let same_block = same_evidence row (some error_code) error_message
  raise_if (expected_epoch_differs expected_planning_epoch source.planning_epoch && not same_block)
      (stale_source_plan "source planning epoch changed before gate")
  raise_if (is_gated row.state && not same_block)
      (state_transition "blocked source snapshot carries different evidence")
  let db' = close_gate row error_code error_message current db
  ok (true, if is_gated row.state then db' else advance_epoch row.source_id db')

unfoldable pub block_source_snapshot :
    ℕ → String → Option String → Option ℕ → ℕ → Database → Result (Bool × Database)
unfolding find_snapshot block_locked_snapshot
block_source_snapshot seq error_code error_message expected_planning_epoch current db =
    elim (find_snapshot seq db) [
      | none ↦ ok (false, db)
      | some row ↦
          block_locked_snapshot row error_code error_message expected_planning_epoch current db
    ]

-- SEALED while INGEST work is left, COMPLETE otherwise.
abbrev pub restored_state : Bool → SourceSnapshotState
restored_state true = SourceSnapshotState.sealed
restored_state false = SourceSnapshotState.complete

unfoldable pub reopen_snapshot : Snapshot → Database → Result (Bool × Database)
unfolding incomplete_ingest advance_epoch
reopen_snapshot row db = if not (is_gated row.state) then ok (false, db) else do
  raise_if (is_rejected row.kind)
      (state_transition "rejected source snapshot evidence cannot be retried")
  let state = restored_state (incomplete_ingest row.source_snapshot_seq db)
  ok (
    true,
    advance_epoch row.source_id (record db {
      snapshots =
          update_rows (is_seq row.source_snapshot_seq) (marked state none none) db.snapshots;
    }),
  )

unfoldable pub retry_blocked_source_snapshot : ℕ → Database → Result (Bool × Database)
unfolding find_snapshot lock_source_for_planning reopen_snapshot
retry_blocked_source_snapshot seq db = elim (find_snapshot seq db) [
  | none ↦ ok (false, db)
  | some row ↦ do _ ← lock_source_for_planning row.source_id db; reopen_snapshot row db
]

unfoldable pub can_retry_blocked_source_snapshot : ℕ → Database → Result Bool
unfolding find_snapshot
can_retry_blocked_source_snapshot seq db = elim (find_snapshot seq db) [
  | none ↦ ok false
  | some row ↦ if not (is_gated row.state) then ok false else do
    raise_if (is_rejected row.kind)
        (state_transition "rejected source snapshot evidence cannot be retried")
    ok true
]
