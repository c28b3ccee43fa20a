-- ===== src/Planning/Enqueue.antt =====
-- state/repository.py: `enqueue_source_snapshot` and `enqueue_blocked_source_snapshot`.
use lance_etl.Common.{
  ℕ, String, Bool, true, false, ◌&&◌, not, Option, none, some, List, [], ◌∷◌, ◌++◌, Result, ok, err,
  value_error, state_transition, integrity, one, raise_if, ◌>>=◌, ◌>>◌, ◌==◌, nat_eq, str_eq,
  opt_eq, select, find_row, same_dict, update_rows, exists_row, if◌then◌else◌,
}
use lance_etl.Types.{
  RoutingIdentity, SourceSnapshotState, DatasetLifecycleState, WorkState, WorkKind, WorkPhase,
  is_ingest, is_gated, is_rejected, is_maintenance, is_active,
}
use lance_etl.Types.Ids.{
  Uuids, deterministic_dataset_id, deterministic_ingest_work_id, ingest_uri, validate_identity,
}
use lance_etl.Types.Plan.{SourceSnapshotPlan, validate_plan}
use lance_etl.Sources.{source_from_row}
use lance_etl.Db.{
  Source, Snapshot, Dataset, Work, SpecRevision, SpecRevisionState, Database, find_dataset,
  find_work, find_snapshot, insert_work, kind_eq,
}
use lance_etl.Queue.{frozen_expectations}
use lance_etl.Queue.Ingest.{completed_snapshot}
use lance_etl.Queue.Lease.{bounded_error, error_code_limit, error_message_limit}
use lance_etl.Queue.Publish.{same_route}
use lance_etl.Planning.{
  Inserted, lock_source_for_planning, admit_plan, insert_or_validate_snapshot, advance_epoch,
}

abbrev pub is_active_revision : SpecRevisionState → Bool
is_active_revision SpecRevisionState.active = true
is_active_revision _ = false

abbrev revision_id : Option SpecRevision → Result ℕ
revision_id none = err (state_transition "source default specification has no active revision")
revision_id (some r) = ok r.spec_revision_id

unfoldable pub active_spec_revision_id : ℕ → Database → Result ℕ
active_spec_revision_id spec_id db = revision_id (
    find_row (λ (r : SpecRevision). r.spec_id == spec_id && is_active_revision r.state)
      db.revisions)

unfoldable pub dataset_row : ℕ → ℕ → RoutingIdentity → ℕ → String → Dataset
dataset_row dataset_id source_id identity revision uri = record {
  dataset_id = dataset_id;
  source_id = source_id;
  identity = identity;
  lifecycle_state = DatasetLifecycleState.active;
  desired_spec_revision_id = revision;
  materialized_spec_revision_id = none;
  last_applied_source_snapshot_seq = none;
  ingest_lance_uri = uri;
  ingest_lance_version = none;
  active_publication_id = none;
  fence_epoch = 0;
}

-- INSERT … ON CONFLICT (dataset_id) DO NOTHING, with uq_datasets_routing_identity.
unfoldable pub insert_dataset : Dataset → Database → Result Database
insert_dataset row db =
    if exists_row (λ (d : Dataset). d.dataset_id == row.dataset_id) db.datasets
    then ok db
    else if exists_row (λ (d : Dataset). same_route d.identity row.identity) db.datasets
    then err (integrity "uq_datasets_routing_identity")
    else ok (record db { datasets = db.datasets ++ row ∷ [] })

unfoldable pub insert_or_validate_dataset :
    Uuids → Source → RoutingIdentity → ℕ → Database → Result (Dataset × Database)
unfolding dataset_row insert_dataset
insert_or_validate_dataset u source identity default_revision_id db = do
  let dataset_id = deterministic_dataset_id u source.source_id identity
  uri ← ingest_uri u source.lance_base_uri dataset_id
  db' ← insert_dataset (dataset_row dataset_id source.source_id identity default_revision_id uri) db
  row ← one (find_dataset dataset_id db')
  raise_if (not (row.source_id == source.source_id && same_route row.identity identity))
      (state_transition "deterministic dataset identity conflicts with durable configuration")
  raise_if (not (is_active row.lifecycle_state)) (state_transition "touched dataset must be ACTIVE")
  ok (row, db')

unfoldable pub ingest_row : ℕ → Dataset → ℕ → ℕ → Work
unfolding frozen_expectations
ingest_row work_id d snapshot_seq current = record {
  work_id = work_id;
  dataset_id = d.dataset_id;
  source_id = d.source_id;
  source_snapshot_seq = snapshot_seq;
  spec_revision_id = d.desired_spec_revision_id;
  kind = WorkKind.ingest;
  state = WorkState.pending;
  phase = WorkPhase.ingest;
  lease_token = none;
  lease_expires_at = none;
  attempt_count = 0;
  next_attempt_at = current;
  expected_ingest_lance_uri = d.ingest_lance_uri;
  expected_ingest_lance_version = d.ingest_lance_version;
  expected_active_publication_id = d.active_publication_id;
  candidate_lance_uri = none;
  candidate_lance_version = none;
  source_applied_at = none;
  source_row_count = none;
  source_digest = none;
  artifact_manifest_uri = none;
  artifact_digest = none;
  error_code = none;
  error_message = none;
  created_at = current;
  updated_at = current;
}

-- The frozen inputs of a stored row are those of the row that was to be inserted.
unfoldable pub same_frozen_inputs : Work → Work → Bool
same_frozen_inputs row values =
    row.dataset_id == values.dataset_id
    && row.source_id == values.source_id
    && row.source_snapshot_seq == values.source_snapshot_seq
    && row.spec_revision_id == values.spec_revision_id
    && kind_eq row.kind values.kind
    && str_eq row.expected_ingest_lance_uri values.expected_ingest_lance_uri
    && opt_eq nat_eq row.expected_ingest_lance_version values.expected_ingest_lance_version
    && opt_eq nat_eq row.expected_active_publication_id values.expected_active_publication_id

unfoldable pub insert_ingest_work : Uuids → Dataset → ℕ → ℕ → Database → Result Database
unfolding ingest_row insert_work same_frozen_inputs
insert_ingest_work u d snapshot_seq current db = do
  work_id ← deterministic_ingest_work_id u d.dataset_id snapshot_seq
  db' ← insert_work (ingest_row work_id d snapshot_seq current) db
  row ← one (find_work work_id db')
  raise_if (not (same_frozen_inputs row (ingest_row work_id d snapshot_seq current)))
      (state_transition "INGEST work idempotency key carries different frozen inputs")
  ok db'

-- `dataset_plan.validate()` for each plan
unfoldable pub validate_all : List RoutingIdentity → Result (Unit {0})
validate_all [] = ok tt
validate_all (plan ∷ plans) = do _ ← validate_identity plan; validate_all plans

-- The loop over the validated plans of a new snapshot.
unfoldable pub insert_lanes :
    Uuids → Source → ℕ → ℕ → ℕ → List RoutingIdentity → Database → Result Database
insert_lanes u source revision seq current [] db = ok db
insert_lanes u source revision seq current (plan ∷ plans) db = do
  _ ← source_from_row source
  (row, db1) ← insert_or_validate_dataset u source plan revision db
  db2 ← insert_ingest_work u row seq current db1
  insert_lanes u source revision seq current plans db2

-- `if not expected_dataset_ids`: a snapshot with no dataset is complete at once.
unfoldable pub complete_if_empty : List RoutingIdentity → ℕ → Database → Database
complete_if_empty (plan ∷ plans) seq db = db
complete_if_empty [] seq db = record db {
  snapshots =
      update_rows (λ (s : Snapshot). s.source_snapshot_seq == seq && not (is_gated s.state))
        completed_snapshot db.snapshots;
}

-- The datasets of the INGEST work of a snapshot are those of the plans.
unfoldable pub same_dataset_set : Uuids → ℕ → ℕ → List RoutingIdentity → Database → Bool
same_dataset_set u source_id seq plans db =
    same_dict (λ (w : Work) plan. w.dataset_id == deterministic_dataset_id u source_id plan)
      (select (λ (w : Work). w.source_snapshot_seq == seq && is_ingest w.kind) db.works) plans

-- A replay of a known snapshot, and the work of a new one.
unfoldable pub replay_snapshot : Uuids → ℕ → List RoutingIdentity → Inserted → Result (ℕ × Database)
unfolding same_dataset_set complete_if_empty
replay_snapshot u source_id plans i = do
  raise_if (not (same_dataset_set u source_id i.seq plans i.db))
      (state_transition "source snapshot was replayed with a different dataset set")
  ok (i.seq, complete_if_empty plans i.seq i.db)

unfoldable pub fill_new_snapshot :
    Uuids → Source → ℕ → List RoutingIdentity → Inserted → Result (ℕ × Database)
unfolding complete_if_empty insert_lanes
fill_new_snapshot u source current plans i = do
  revision ← active_spec_revision_id source.default_spec_id i.db
  db ← insert_lanes u source revision i.seq current plans i.db
  ok (i.seq, complete_if_empty plans i.seq db)

-- What follows the insertion of the snapshot.
unfoldable pub fill_snapshot :
    Uuids → Source → ℕ → List RoutingIdentity → Inserted → Result (ℕ × Database)
unfolding replay_snapshot fill_new_snapshot
fill_snapshot u source current plans i =
    if i.inserted
    then fill_new_snapshot u source current plans i
    else replay_snapshot u source.source_id plans i

abbrev is_empty : List RoutingIdentity → Bool
is_empty [] = true
is_empty (plan ∷ plans) = false

unfoldable pub enqueue_source_snapshot :
    Uuids → SourceSnapshotPlan → List RoutingIdentity → ℕ → Database → Result (ℕ × Database)
unfolding lock_source_for_planning
enqueue_source_snapshot u plan plans current db = do
  _ ← validate_plan plan
  raise_if (is_rejected plan.kind)
      (value_error "rejected snapshots require enqueue_blocked_source_snapshot")
  validate_all plans
  raise_if (is_maintenance plan.kind && not (is_empty plans))
      (state_transition "trusted maintenance checkpoints cannot carry dataset work")
  source ← lock_source_for_planning plan.source_id db
  admit_plan plan source db
  i ← insert_or_validate_snapshot plan SourceSnapshotState.sealed none none current db
  fill_snapshot u source current plans i

-- The stored evidence of a rejected snapshot is that of the request.
unfoldable pub same_evidence : Snapshot → Option String → Option String → Bool
unfolding bounded_error
same_evidence row error_code error_message =
    is_gated row.state
    && opt_eq str_eq row.error_code (bounded_error error_code error_code_limit)
    && opt_eq str_eq row.error_message (bounded_error error_message error_message_limit)

unfoldable pub gate_inserted : ℕ → String → Option String → Inserted → Result (ℕ × Database)
unfolding advance_epoch same_evidence
gate_inserted source_id error_code error_message i =
    if i.inserted then ok (i.seq, advance_epoch source_id i.db) else do
      row ← one (find_snapshot i.seq i.db)
      raise_if (not (same_evidence row (some error_code) error_message))
          (state_transition "rejected snapshot replay differs from durable state")
      ok (i.seq, i.db)

unfoldable pub enqueue_blocked_source_snapshot :
    SourceSnapshotPlan → String → Option String → ℕ → Database → Result (ℕ × Database)
unfolding lock_source_for_planning gate_inserted
enqueue_blocked_source_snapshot plan error_code error_message current db = do
  _ ← validate_plan plan
  raise_if (not (is_rejected plan.kind))
      (value_error "blocked source snapshots must use REJECTED kind")
  source ← lock_source_for_planning plan.source_id db
  admit_plan plan source db
  i ←
      insert_or_validate_snapshot plan SourceSnapshotState.blocked (some error_code) error_message
        current db
  gate_inserted plan.source_id error_code error_message i
