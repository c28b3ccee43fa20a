-- ===== src/Queue/Ingest.antt =====
-- state/repository.py: the completion of INGEST work.
use lance_etl.Common.{
  ℕ, String, Bool, true, false, ◌&&◌, ◌||◌, not, Option, none, some, Result, ok, value_error,
  state_transition, raise_if, ◌>>=◌, ◌>>◌, ◌==◌, ltb, nat_eq, opt_eq, list_eq, length, update_rows,
  exists_row, if◌then◌else◌, ℤ, is_negative, pos_part,
}
use lance_etl.Types.{
  Bytes, WorkState, WorkKind, WorkPhase, SourceSnapshotState, WorkClaim, is_ingest, is_succeeded,
  is_gated,
}
use lance_etl.Types.Ids.{Uuids, deterministic_publish_work_id}
use lance_etl.Db.{
  Work, Dataset, Snapshot, Database, find_work, find_dataset, insert_work, is_open_publish,
}
use lance_etl.Queue.{assert_expectations_match, locked_lease_matches}

abbrev pub bytes_eq : Bytes → Bytes → Bool
bytes_eq a b = list_eq nat_eq a b

-- last_applied_seq is None or last_applied_seq < source_snapshot_seq
abbrev pub not_applied : Option ℕ → ℕ → Bool
not_applied none seq = true
not_applied (some applied) seq = ltb applied seq

unfoldable pub completed_ingest_matches : Work → Dataset → ℕ → ℕ → Bytes → Result Bool
completed_ingest_matches w d ingest_lance_version source_row_count source_digest =
    if not (is_succeeded w.state) then ok false else do
      raise_if
          (not (
              opt_eq nat_eq w.candidate_lance_version (some ingest_lance_version)
              && opt_eq nat_eq w.source_row_count (some source_row_count)
              && opt_eq bytes_eq w.source_digest (some source_digest))
            || not_applied d.last_applied_source_snapshot_seq w.source_snapshot_seq)
          (state_transition "completed INGEST replay differs from durable output")
      ok true

-- The row that `enqueue_publish_work` inserts.
unfoldable pub publish_row : ℕ → ℕ → ℕ → ℕ → ℕ → String → ℕ → Option ℕ → ℕ → Work
publish_row work_id dataset_id source_id seq spec_revision_id uri version active_publication_id
      current =
    record {
      work_id = work_id;
      dataset_id = dataset_id;
      source_id = source_id;
      source_snapshot_seq = seq;
      spec_revision_id = spec_revision_id;
      kind = WorkKind.publish;
      state = WorkState.pending;
      phase = WorkPhase.compact;
      lease_token = none;
      lease_expires_at = none;
      attempt_count = 0;
      next_attempt_at = current;
      expected_ingest_lance_uri = uri;
      expected_ingest_lance_version = some version;
      expected_active_publication_id = active_publication_id;
      candidate_lance_uri = some uri;
      candidate_lance_version = some version;
      source_applied_at = none;
      source_row_count = none;
      source_digest = none;
      artifact_manifest_uri = none;
      artifact_digest = none;
      error_code = none;
      error_message = none;
      created_at = current;
      updated_at = current;
    }

-- An open publication of the dataset, in `enqueue_publish_work` and `has_open_publication`.
unfoldable pub has_open_publication : ℕ → Database → Bool
has_open_publication dataset_id db =
    exists_row (λ (w : Work). w.dataset_id == dataset_id && is_open_publish w) db.works

unfoldable pub enqueue_publish_work :
    Uuids → ℕ → ℕ → ℕ → ℕ → String → ℕ → Option ℕ → ℕ → Database → Result Database
unfolding has_open_publication publish_row insert_work
enqueue_publish_work u dataset_id source_id seq spec_revision_id uri version active_publication_id
      current db =
    do
      raise_if (has_open_publication dataset_id db)
          (state_transition "dataset already has an open publication generation")
      let work_id = deterministic_publish_work_id u dataset_id seq spec_revision_id
      insert_work
          (publish_row work_id dataset_id source_id seq spec_revision_id uri version
            active_publication_id current)
          db

-- An INGEST row of the snapshot that has not succeeded.
unfoldable pub incomplete_ingest : ℕ → Database → Bool
incomplete_ingest seq db =
    exists_row
      (λ (w : Work). w.source_snapshot_seq == seq && is_ingest w.kind && not (is_succeeded w.state))
      db.works

abbrev pub completed_snapshot : Snapshot → Snapshot
completed_snapshot s = record s { state = SourceSnapshotState.complete }

unfoldable pub complete_snapshot_if_applied : ℕ → Database → Database
unfolding incomplete_ingest
complete_snapshot_if_applied seq db = record db {
  snapshots =
      update_rows
        (λ (s : Snapshot).
          s.source_snapshot_seq == seq && not (is_gated s.state) && not (incomplete_ingest seq db))
        completed_snapshot db.snapshots;
}

abbrev pub applied : Work → ℕ → Dataset → Dataset
applied w version d = record d {
  materialized_spec_revision_id = some w.spec_revision_id;
  last_applied_source_snapshot_seq = some w.source_snapshot_seq;
  ingest_lance_uri = w.expected_ingest_lance_uri;
  ingest_lance_version = some version;
}

abbrev pub ingested : Work → ℕ → ℕ → Bytes → ℕ → Work → Work
ingested row version source_row_count source_digest current w = record w {
  state = WorkState.succeeded;
  lease_token = none;
  lease_expires_at = none;
  source_applied_at = some current;
  source_row_count = some source_row_count;
  source_digest = some source_digest;
  candidate_lance_uri = some row.expected_ingest_lance_uri;
  candidate_lance_version = some version;
  updated_at = current;
}

-- The two UPDATEs of `complete_ingest`.
unfoldable pub apply_ingest : WorkClaim → Work → ℕ → ℕ → Bytes → ℕ → Database → Database
apply_ingest claim w version source_row_count source_digest current db = record db {
  datasets =
      update_rows (λ (d : Dataset). d.dataset_id == claim.dataset_id) (applied w version)
        db.datasets;
  works =
      update_rows (λ (v : Work). v.work_id == claim.work_id)
        (ingested w version source_row_count source_digest current) db.works;
}

-- What follows the check for a replay.
unfoldable pub complete_live_ingest :
    Uuids → WorkClaim → Work → Dataset → ℕ → ℕ → Bytes → ℕ → Database → Result (Bool × Database)
unfolding apply_ingest
complete_live_ingest u claim w d version source_row_count source_digest current db =
    if not (locked_lease_matches w d claim current) then ok (false, db) else do
      assert_expectations_match w d "INGEST work expectations no longer match dataset state"
      db' ←
          enqueue_publish_work u claim.dataset_id w.source_id w.source_snapshot_seq
            w.spec_revision_id w.expected_ingest_lance_uri version d.active_publication_id current
            (apply_ingest claim w version source_row_count source_digest current db)
      ok (true, complete_snapshot_if_applied w.source_snapshot_seq db')

-- The body of the transaction, on the locked rows.
unfoldable pub complete_locked_ingest :
    Uuids → WorkClaim → Work → Dataset → ℕ → ℕ → Bytes → ℕ → Database → Result (Bool × Database)
unfolding completed_ingest_matches
complete_locked_ingest u claim w d version source_row_count source_digest current db = do
  completed ← completed_ingest_matches w d version source_row_count source_digest
  if completed
      then ok (true, db)
      else complete_live_ingest u claim w d version source_row_count source_digest current db

abbrev pub with_locked {ℓ} :
    {A : Type ℓ} → Option Work → Option Dataset → A → (Work → Dataset → A) → A
with_locked none d absent body = absent
with_locked (some w) none absent body = absent
with_locked (some w) (some d) absent body = body w d

unfoldable pub complete_ingest :
    Uuids → WorkClaim → ℤ → ℤ → Bytes → ℕ → Database → Result (Bool × Database)
complete_ingest u claim ingest_lance_version source_row_count source_digest current db = do
  raise_if (not (is_ingest claim.kind)) (value_error "complete_ingest requires an INGEST claim")
  raise_if
      (is_negative ingest_lance_version
        || is_negative source_row_count
        || not (length source_digest == 32))
      (value_error "ingest completion requires non-negative values and a 32-byte digest")
  with_locked (find_work claim.work_id db) (find_dataset claim.dataset_id db) (ok (false, db))
      (λ w d.
        complete_locked_ingest u claim w d (pos_part ingest_lance_version)
          (pos_part source_row_count) source_digest current db)
