-- ===== src/Planning.antt =====
-- state/repository.py: source snapshots. A source's snapshots form one chain, which a BLOCKED
-- snapshot closes for new ones, and which an epoch guards against plans made before a repair.
pub mod Enqueue
pub mod Gate
pub mod Progress
pub mod Lineage
pub mod Guards
pub mod Routes
pub mod Stale
use lance_etl.Common.{
  ℕ, suc, ◌+◌, String, Bool, true, false, ◌&&◌, ◌||◌, not, Option, none, some, List, [], ◌∷◌, ◌++◌,
  Result, ok, err, value_error, state_transition, stale_source_plan, integrity, one, raise_if,
  ◌>>=◌, ◌>>◌, ◌==◌, ltb, leb, nat_eq, str_eq, opt_eq, select, find_row, update_rows, exists_row,
  if◌then◌else◌, ℤ, pos_part,
}
use lance_etl.Types.{
  SourceSnapshotKind, SourceSnapshotState, is_active_source, is_baseline, is_rejected,
  is_maintenance, is_gated,
}
use lance_etl.Types.Plan.{SourceSnapshotPlan}
use lance_etl.Db.{Source, Snapshot, Database, find_source}
use lance_etl.Queue.{source_gated}
use lance_etl.Queue.Lease.{bounded_error, error_code_limit, error_message_limit}

unfoldable pub lock_source_for_planning : ℕ → Database → Result Source
unfolding find_source
lock_source_for_planning source_id db = one (find_source source_id db)

abbrev pub is_snapshot : ℕ → ℕ → Snapshot → Bool
is_snapshot source_id snapshot_id s = s.source_id == source_id && s.snapshot_id == snapshot_id

unfoldable pub known_snapshot : ℕ → ℕ → Database → Bool
known_snapshot source_id snapshot_id db =
    exists_row (is_snapshot source_id snapshot_id) db.snapshots

unfoldable pub assert_source_gate_allows_snapshot : ℕ → ℕ → Database → Result (Unit {0})
unfolding source_gated known_snapshot
assert_source_gate_allows_snapshot source_id snapshot_id db =
    raise_if (source_gated db source_id && not (known_snapshot source_id snapshot_id db))
      (state_transition "source has a blocked checkpoint")

-- ORDER BY iceberg_sequence_number DESC LIMIT 1
abbrev pub later_of : Snapshot → Option Snapshot → Snapshot
later_of s none = s
later_of s (some t) = if ltb s.iceberg_sequence_number t.iceberg_sequence_number then t else s

unfoldable pub latest_of : List Snapshot → Option Snapshot
latest_of [] = none
latest_of (s ∷ ss) = some (later_of s (latest_of ss))

unfoldable pub source_head : ℕ → Database → Option Snapshot
unfolding latest_of
source_head source_id db =
    latest_of (select (λ (s : Snapshot). s.source_id == source_id) db.snapshots)

abbrev pub column : Option ℤ → Option ℕ
column none = none
column (some n) = some (pos_part n)

-- The checks of a new plan against the head of its source.
unfoldable pub extends_head : SourceSnapshotPlan → Option Snapshot → Result (Unit {0})
extends_head plan none =
    raise_if (not (is_baseline plan.kind || is_rejected plan.kind))
      (state_transition "first source checkpoint must be a baseline or rejected baseline")
extends_head plan (some latest) = do
  raise_if (is_baseline plan.kind)
      (state_transition "BASELINE is valid only for the first source checkpoint")
  raise_if
      (not (is_rejected plan.kind)
        && not (pos_part plan.partition_spec_id == latest.partition_spec_id))
      (state_transition "accepted source snapshot changed the partition specification")
  raise_if
      (not (opt_eq nat_eq (column plan.parent_snapshot_id) (some latest.snapshot_id))
        || leb (pos_part plan.iceberg_sequence_number) latest.iceberg_sequence_number)
      (state_transition "new source snapshot does not extend the durable head")

unfoldable pub assert_new_snapshot_extends_latest :
    SourceSnapshotPlan → Database → Result (Unit {0})
unfolding known_snapshot source_head extends_head
assert_new_snapshot_extends_latest plan db =
    if known_snapshot plan.source_id (pos_part plan.snapshot_id) db
    then ok tt
    else extends_head plan (source_head plan.source_id db)

abbrev kind_code : SourceSnapshotKind → ℕ
kind_code SourceSnapshotKind.baseline = 0
kind_code SourceSnapshotKind.append = 1
kind_code SourceSnapshotKind.trusted_maintenance = 2
kind_code SourceSnapshotKind.rejected = 3

-- The immutable metadata of a stored snapshot is that of the plan.
unfoldable pub same_metadata : Snapshot → SourceSnapshotPlan → Bool
same_metadata row plan =
    opt_eq nat_eq row.parent_snapshot_id (column plan.parent_snapshot_id)
    && row.iceberg_sequence_number == pos_part plan.iceberg_sequence_number
    && row.partition_spec_id == pos_part plan.partition_spec_id
    && row.committed_at == plan.committed_at
    && str_eq row.iceberg_operation plan.iceberg_operation
    && kind_code row.kind == kind_code plan.kind

unfoldable pub snapshot_row :
    SourceSnapshotPlan → SourceSnapshotState → Option String → Option String → ℕ → ℕ → Snapshot
unfolding bounded_error
snapshot_row plan state error_code error_message seq current = record {
  source_snapshot_seq = seq;
  source_id = plan.source_id;
  snapshot_id = pos_part plan.snapshot_id;
  parent_snapshot_id = column plan.parent_snapshot_id;
  iceberg_sequence_number = pos_part plan.iceberg_sequence_number;
  partition_spec_id = pos_part plan.partition_spec_id;
  committed_at = plan.committed_at;
  iceberg_operation = plan.iceberg_operation;
  kind = plan.kind;
  state = state;
  error_code = bounded_error error_code error_code_limit;
  error_message = bounded_error error_message error_message_limit;
  created_at = current;
}

-- What the insertion returns: the sequence, whether a row was inserted, and the database.
pub record Inserted : Type 0 where
  pub seq : ℕ
  pub inserted : Bool
  pub db : Database

abbrev pub appended : Snapshot → Database → Inserted
appended row db = record {
  seq = db.next_seq;
  inserted = true;
  db = record db { snapshots = db.snapshots ++ row ∷ []; next_seq = db.next_seq + 1 };
}

abbrev pub insert_or_validate :
    SourceSnapshotPlan
    → SourceSnapshotState
    → Option String
    → Option String
    → ℕ
    → Database
    → Option Snapshot
    → Result Inserted
insert_or_validate plan state error_code error_message current db (some row) = do
  raise_if (not (same_metadata row plan))
      (state_transition "source snapshot idempotency key carries different metadata")
  ok (record { seq = row.source_snapshot_seq; inserted = false; db = db })
insert_or_validate plan state error_code error_message current db none = do
  raise_if
      (exists_row
        (λ (s : Snapshot).
          s.source_id == plan.source_id
          && s.iceberg_sequence_number == pos_part plan.iceberg_sequence_number)
        db.snapshots)
      (integrity "uq_source_snapshots_source_sequence")
  ok (appended (snapshot_row plan state error_code error_message db.next_seq current) db)

unfoldable pub insert_or_validate_snapshot :
    SourceSnapshotPlan
    → SourceSnapshotState
    → Option String
    → Option String
    → ℕ
    → Database
    → Result Inserted
unfolding same_metadata snapshot_row
insert_or_validate_snapshot plan state error_code error_message current db =
    insert_or_validate plan state error_code error_message current db
      (find_row (is_snapshot plan.source_id (pos_part plan.snapshot_id)) db.snapshots)

abbrev pub bump_epoch : Source → Source
bump_epoch s = record s { planning_epoch = s.planning_epoch + 1 }

unfoldable pub advance_epoch : ℕ → Database → Database
advance_epoch source_id db = record db {
  sources = update_rows (λ (s : Source). s.source_id == source_id) bump_epoch db.sources;
}

abbrev epoch_differs : Option ℤ → ℕ → Bool
epoch_differs none epoch = false
epoch_differs (some planned) epoch = not (pos_part planned == epoch)

-- A plan for a new snapshot must have been made in the current planning epoch.
unfoldable pub epoch_is_stale : SourceSnapshotPlan → Source → Database → Bool
unfolding known_snapshot
epoch_is_stale plan source db =
    not (known_snapshot plan.source_id (pos_part plan.snapshot_id) db)
    && epoch_differs plan.source_planning_epoch source.planning_epoch

-- The checks that both ways to enqueue a snapshot share, on the locked source.
unfoldable pub admit_plan : SourceSnapshotPlan → Source → Database → Result (Unit {0})
unfolding epoch_is_stale
admit_plan plan source db = do
  raise_if (not (is_active_source source.lifecycle_state))
      (state_transition "source must be ACTIVE before planning")
  raise_if (epoch_is_stale plan source db)
      (stale_source_plan "source planning epoch changed before enqueue")
  assert_source_gate_allows_snapshot plan.source_id (pos_part plan.snapshot_id) db
  assert_new_snapshot_extends_latest plan db
