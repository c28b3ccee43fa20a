-- ===== src/Planning/Progress.antt =====
-- The transactions of the planner and of the operator keep the relation `Progress`.
pub mod Enqueue
use lance_etl.Common.{
  ℕ, ◌≡◌, refl, Option, none, some, Bool, false, arith, List, [], ◌∷◌, ◌++◌, String, ok, one,
  >>=-eq-ok, raise_if-eq-ok, Evolves-update_rows, Evolves-append, Keyed-update_rows, Keyed-insert,
  update_rows, exists_row, ◌==◌, Bool-cases, Option-cases, inl, inr,
}
use lance_etl.Types.{SourceSnapshotState, RoutingIdentity, is_gated, WorkState}
use lance_etl.Types.Ids.{Uuids, deterministic_dataset_id, deterministic_ingest_work_id, ingest_uri}
use lance_etl.Types.Plan.{SourceSnapshotPlan, validate_plan}
use lance_etl.Db.{
  Dataset, Snapshot, Source, Database, find_work, find_dataset, find_snapshot, insert_work,
  store_works,
}
use lance_etl.Queue.Lease.{
  retry_blocked_work, retryable, released, bounded_error, error_code_limit, error_message_limit,
}
use lance_etl.Queue.Ingest.{completed_snapshot, incomplete_ingest}
use lance_etl.Queue.Evolution.{IsLeased, RowStep, RowStep-refl}
use lance_etl.Queue.Evolution.Steps.{released-RowStep}
use lance_etl.Queue.Evolution.Progress.{
  Progress, Progress-refl, Progress-works, Progress-trans, DatasetStep, SnapshotStep,
  SnapshotStep-refl, SourceStep, SourceStep-refl, Anything, work_key, dataset_key, IsKeyed,
  works_same, datasets_same, snapshots_same, sources_same,
}
use lance_etl.Queue.Evolution.Terminal.{store_works-Progress, insert_work-Progress}
use lance_etl.Planning.{
  Inserted, insert_or_validate, insert_or_validate_snapshot, appended, snapshot_row, advance_epoch,
  bump_epoch, lock_source_for_planning, admit_plan,
}
use lance_etl.Planning.Enqueue.{
  insert_dataset, insert_or_validate_dataset, dataset_row, ingest_row, insert_ingest_work,
  insert_lanes, complete_if_empty, replay_snapshot, fill_new_snapshot, fill_snapshot,
  enqueue_source_snapshot, gate_inserted, enqueue_blocked_source_snapshot, validate_all,
  active_spec_revision_id,
}
use lance_etl.Planning.Gate.{
  close_gate, gated_row, is_seq, marked, block_locked_snapshot, block_source_snapshot,
  reopen_snapshot, retry_blocked_source_snapshot, restored_state,
}

-- A change of the snapshots alone, and of the sources alone.
pub Progress-snapshots :
    (db : Database) (p : Snapshot → Bool) (f : Snapshot → Snapshot)
    → ((s : Snapshot) → SnapshotStep s (f s))
    → IsKeyed db
    → Progress db (record db { snapshots = update_rows p f db.snapshots })
Progress-snapshots db p f step k = record {
  works = works_same db.works;
  datasets = datasets_same db.datasets;
  snapshots =
      Evolves-update_rows SnapshotStep Anything p f SnapshotStep-refl (λ s e. step s) db.snapshots;
  sources = sources_same db.sources;
  keyed = record { works = k.works; datasets = k.datasets };
}

pub advance_epoch-Progress :
    (source_id : ℕ) (db : Database) → IsKeyed db → Progress db (advance_epoch source_id db)
unfolding advance_epoch
advance_epoch-Progress source_id db k = record {
  works = works_same db.works;
  datasets = datasets_same db.datasets;
  snapshots = snapshots_same db.snapshots;
  sources =
      Evolves-update_rows SourceStep Anything _ bump_epoch SourceStep-refl (λ s e. ground arith)
        db.sources;
  keyed = record { works = k.works; datasets = k.datasets };
}

pub retry_blocked_work-Progress :
    (id now : ℕ) (db : Database) {r : Bool × Database}
    → IsKeyed db
    → retry_blocked_work id now db ≡ ok r
    → Progress db r.1
unfolding retry_blocked_work
retry_blocked_work-Progress id now db {r} k e =
    let ws =
      update_rows (retryable id db) (released WorkState.pending now none none now) db.works in
    let (db1, put, done) = >>=-eq-ok (store_works ws db) _ e in
    let q : r.1 ≡ db1 = cc in
    rw q (
      store_works-Progress db ws
        (Progress-works db ws k
          (Evolves-update_rows RowStep IsLeased (retryable id db) _ RowStep-refl
            (λ w h.
              released-RowStep WorkState.pending now none none now w
                (unfold retryable in ground arith) refl)
            db.works)
          (Keyed-update_rows work_key (retryable id db) _ (λ w. refl) db.works k.works))
        put)

close_gate-Progress :
    (row : Snapshot) (code : String) (message : Option String) (now : ℕ) (db : Database)
    → IsKeyed db
    → Progress db (close_gate row code message now db)
unfolding close_gate
close_gate-Progress row code message now db k = record {
  works =
      Evolves-update_rows RowStep IsLeased (gated_row row.source_id row.source_snapshot_seq) _
        RowStep-refl
        (λ w h. released-RowStep WorkState.blocked w.next_attempt_at _ _ now w (ground arith) refl)
        db.works;
  datasets = datasets_same db.datasets;
  snapshots =
      Evolves-update_rows SnapshotStep Anything (is_seq row.source_snapshot_seq)
        (marked SourceSnapshotState.blocked (bounded_error (some code) error_code_limit)
          (bounded_error message error_message_limit))
        SnapshotStep-refl (λ s e. ground arith) db.snapshots;
  sources = sources_same db.sources;
  keyed = record {
    works =
        Keyed-update_rows work_key (gated_row row.source_id row.source_snapshot_seq) _ (λ w. refl)
          db.works k.works;
    datasets = k.datasets;
  };
}

module _ (db : Database) (k : IsKeyed db) where
  block_locked_snapshot-Progress :
      (row : Snapshot) (code : String) (message : Option String) (expected : Option ℕ) (now : ℕ)
      {r : Bool × Database}
      → block_locked_snapshot row code message expected now db ≡ ok r
      → Progress db r.1
  unfolding block_locked_snapshot
  block_locked_snapshot-Progress row code message expected now {r} e =
      let p1 = close_gate-Progress row code message now db k in
      let p2 = advance_epoch-Progress row.source_id (close_gate row code message now db) p1.keyed in
      let p3 = Progress-trans db _ _ p1 p2 in
      let (source, found, e1) = >>=-eq-ok (lock_source_for_planning row.source_id db) _ e in
      elim (Bool-cases (is_gated row.state)) [
        | inl t ↦ let q : r.1 ≡ close_gate row code message now db = ground arith in rw q p1
        | inr t ↦
            let q : r.1 ≡ advance_epoch row.source_id (close_gate row code message now db) =
              ground arith in
            rw q p3
      ]

  pub block_source_snapshot-Progress :
      (seq : ℕ) (code : String) (message : Option String) (expected : Option ℕ) (now : ℕ)
      {r : Bool × Database}
      → block_source_snapshot seq code message expected now db ≡ ok r
      → Progress db r.1
  unfolding block_source_snapshot
  block_source_snapshot-Progress seq code message expected now {r} e =
      elim (Option-cases (find_snapshot seq db)) [
        | inl t ↦
            let e' = rw (t, block_source_snapshot) at e in
            let q : r ≡ (false, db) = cc in rw q (Progress-refl db k)
        | inr (row, t) ↦
            block_locked_snapshot-Progress row code message expected now
              (rw (t, block_source_snapshot) at e)
      ]

  reopen_snapshot-Progress :
      (row : Snapshot) {r : Bool × Database} → reopen_snapshot row db ≡ ok r → Progress db r.1
  unfolding reopen_snapshot
  reopen_snapshot-Progress row {r} e = elim (Bool-cases (is_gated row.state)) [
    | inr t ↦ let e' = rw t at e in let q : r ≡ (false, db) = cc in rw q (Progress-refl db k)
    | inl t ↦
        let f = marked (restored_state (incomplete_ingest row.source_snapshot_seq db)) none none in
        let db1 : Database = record db {
          snapshots = update_rows (is_seq row.source_snapshot_seq) f db.snapshots;
        } in
        let q : r.1 ≡ advance_epoch row.source_id db1 = ground arith in
        let p1 = Progress-snapshots db (is_seq row.source_snapshot_seq) f (λ s. ground arith) k in
        rw q (Progress-trans db db1 _ p1 (advance_epoch-Progress row.source_id db1 p1.keyed))
  ]

  pub retry_blocked_source_snapshot-Progress :
      (seq : ℕ) {r : Bool × Database}
      → retry_blocked_source_snapshot seq db ≡ ok r
      → Progress db r.1
  unfolding retry_blocked_source_snapshot
  retry_blocked_source_snapshot-Progress seq {r} e = elim (Option-cases (find_snapshot seq db)) [
    | inl t ↦
        let e' = rw (t, retry_blocked_source_snapshot) at e in
        let q : r ≡ (false, db) = cc in rw q (Progress-refl db k)
    | inr (row, t) ↦
        let (s, found, e1) =
          >>=-eq-ok (lock_source_for_planning row.source_id db) (λ _. reopen_snapshot row db)
            (rw (t, retry_blocked_source_snapshot) at e) in
        reopen_snapshot-Progress row e1
  ]
