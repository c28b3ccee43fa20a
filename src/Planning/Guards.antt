-- ===== src/Planning/Guards.antt =====
-- The two ways to enqueue a snapshot keep every source's lineage a chain.
use lance_etl.Common.{
  ℕ, ◌≡◌, ◌∙◌, Option, none, some, ◌&&◌, not, arith, List, [], ◌∷◌, String, ok, >>=-eq-ok,
  raise_if-eq-ok, ◌==◌, Bool-cases, inl, inr,
}
use lance_etl.Types.{SourceSnapshotState, RoutingIdentity, is_gated}
use lance_etl.Types.Ids.{Uuids}
use lance_etl.Types.Plan.{SourceSnapshotPlan, validate_plan}
use lance_etl.Sources.{source_from_row}
use lance_etl.Db.{Source, Snapshot, Dataset, Database, insert_work, store_works}
use lance_etl.Queue.Ingest.{completed_snapshot}
use lance_etl.Queue.Evolution.Progress.{SnapshotStep}
use lance_etl.Planning.{
  Inserted, lock_source_for_planning, admit_plan, insert_or_validate_snapshot, advance_epoch,
}
use lance_etl.Planning.Enqueue.{
  insert_dataset, insert_or_validate_dataset, insert_ingest_work, insert_lanes, complete_if_empty,
  fill_snapshot, fill_new_snapshot, replay_snapshot, enqueue_source_snapshot, gate_inserted,
  enqueue_blocked_source_snapshot, validate_all, active_spec_revision_id,
}
use lance_etl.Planning.Lineage.{
  IsLineage, lineage, select-update_rows, IsChain-update_rows, insert_or_validate-IsLineage,
}

insert_dataset-snapshots :
    (row : Dataset) (db : Database) {db' : Database}
    → insert_dataset row db ≡ ok db'
    → db'.snapshots ≡ db.snapshots
unfolding insert_dataset
insert_dataset-snapshots row db e = ground arith

insert_or_validate_dataset-snapshots :
    (u : Uuids) (source : Source) (plan : RoutingIdentity) (revision : ℕ) (db : Database)
    {r : Dataset × Database}
    → insert_or_validate_dataset u source plan revision db ≡ ok r
    → r.1.snapshots ≡ db.snapshots
unfolding insert_or_validate_dataset insert_dataset
insert_or_validate_dataset-snapshots u source plan revision db e = ground arith

insert_ingest_work-snapshots :
    (u : Uuids) (d : Dataset) (seq now : ℕ) (db : Database) {db' : Database}
    → insert_ingest_work u d seq now db ≡ ok db'
    → db'.snapshots ≡ db.snapshots
unfolding insert_ingest_work insert_work store_works
insert_ingest_work-snapshots u d seq now db e = ground arith

insert_lanes-snapshots :
    (u : Uuids) (source : Source) (revision seq now : ℕ) (plans : List RoutingIdentity)
    (db : Database) {db' : Database}
    → insert_lanes u source revision seq now plans db ≡ ok db'
    → db'.snapshots ≡ db.snapshots
unfolding insert_lanes
insert_lanes-snapshots u source revision seq now [] db e = ground arith
insert_lanes-snapshots u source revision seq now (plan ∷ plans) db e =
    let (_, _, e0) = >>=-eq-ok (source_from_row source) _ e in
    let ((row, db1), a, e1) =
      >>=-eq-ok (insert_or_validate_dataset u source plan revision db) _ e0 in
    let (db2, b, e2) = >>=-eq-ok (insert_ingest_work u row seq now db1) _ e1 in
    insert_lanes-snapshots u source revision seq now plans db2 e2
    ∙ insert_ingest_work-snapshots u row seq now db1 b
    ∙ insert_or_validate_dataset-snapshots u source plan revision db a

same-IsLineage : (db db' : Database) → db'.snapshots ≡ db.snapshots → IsLineage db → IsLineage db'
same-IsLineage db db' q h source_id = rw q (h source_id)

complete_if_empty-IsLineage :
    (plans : List RoutingIdentity) (seq : ℕ) (db : Database)
    → IsLineage db
    → IsLineage (complete_if_empty plans seq db)
unfolding complete_if_empty
complete_if_empty-IsLineage (plan ∷ plans) seq db h = h
complete_if_empty-IsLineage [] seq db h = λ source_id.
    let p = λ (s : Snapshot). s.source_snapshot_seq == seq && not (is_gated s.state) in
    let same : (s : Snapshot) → SnapshotStep s (completed_snapshot s) = λ s. ground arith in
    rw (select-update_rows p completed_snapshot same source_id db.snapshots)
      (IsChain-update_rows p completed_snapshot same (lineage source_id db) (h source_id))

fill_snapshot-IsLineage :
    (u : Uuids) (source : Source) (now : ℕ) (plans : List RoutingIdentity) (i : Inserted)
    {r : ℕ × Database}
    → fill_snapshot u source now plans i ≡ ok r
    → IsLineage i.db
    → IsLineage r.1
unfolding fill_snapshot fill_new_snapshot replay_snapshot
fill_snapshot-IsLineage u source now plans i {r} e h = elim (Bool-cases i.inserted) [
  | inl t ↦
      let e0 = rw (t, fill_snapshot) at e in
      let (revision, a, e1) =
        >>=-eq-ok (active_spec_revision_id source.default_spec_id i.db) _ e0 in
      let (db, b, e2) = >>=-eq-ok (insert_lanes u source revision i.seq now plans i.db) _ e1 in
      let q : r.1 ≡ complete_if_empty plans i.seq db = ground arith in
      rw q (
        complete_if_empty-IsLineage plans i.seq db (
          same-IsLineage i.db db (insert_lanes-snapshots u source revision i.seq now plans i.db b)
            h))
  | inr t ↦
      let e0 = rw (t, fill_snapshot) at e in
      let q : r.1 ≡ complete_if_empty plans i.seq i.db = ground arith in
      rw q (complete_if_empty-IsLineage plans i.seq i.db h)
]

module _ (plan : SourceSnapshotPlan) (now : ℕ) (db : Database) {r : ℕ × Database} where
  -- Where every source has its snapshots in one chain, each naming the one before it as its parent
  -- and later in the source's order, an enqueued snapshot keeps it so, for every source.
  pub enqueue_source_snapshot-IsLineage :
      (u : Uuids) (plans : List RoutingIdentity)
      → enqueue_source_snapshot u plan plans now db ≡ ok r
      → IsLineage db
      → IsLineage r.1
  unfolding enqueue_source_snapshot
  enqueue_source_snapshot-IsLineage u plans e h =
      let (_, _, e1) = >>=-eq-ok (validate_plan plan) _ e in
      let (_, e2) = raise_if-eq-ok _ _ _ e1 in
      let (_, _, e3) = >>=-eq-ok (validate_all plans) _ e2 in
      let (_, e4) = raise_if-eq-ok _ _ _ e3 in
      let (source, _, e5) = >>=-eq-ok (lock_source_for_planning plan.source_id db) _ e4 in
      let (_, admitted, e6) = >>=-eq-ok (admit_plan plan source db) _ e5 in
      let (i, put, e7) =
        >>=-eq-ok (insert_or_validate_snapshot plan SourceSnapshotState.sealed none none now db) _
          e6 in
      fill_snapshot-IsLineage u source now plans i e7 (
        insert_or_validate-IsLineage plan db source SourceSnapshotState.sealed none none now
          admitted put h)

  -- The same of a snapshot that is enqueued as rejected.
  pub enqueue_blocked_source_snapshot-IsLineage :
      (code : String) (message : Option String)
      → enqueue_blocked_source_snapshot plan code message now db ≡ ok r
      → IsLineage db
      → IsLineage r.1
  unfolding enqueue_blocked_source_snapshot
  enqueue_blocked_source_snapshot-IsLineage code message e h =
      let (_, _, e1) = >>=-eq-ok (validate_plan plan) _ e in
      let (_, e2) = raise_if-eq-ok _ _ _ e1 in
      let (source, _, e5) = >>=-eq-ok (lock_source_for_planning plan.source_id db) _ e2 in
      let (_, admitted, e6) = >>=-eq-ok (admit_plan plan source db) _ e5 in
      let (i, put, e7) =
        >>=-eq-ok
          (insert_or_validate_snapshot plan SourceSnapshotState.blocked (some code) message now db)
          _ e6 in
      gate_inserted-IsLineage code message i e7 (
        insert_or_validate-IsLineage plan db source SourceSnapshotState.blocked (some code) message
          now admitted put h)
    where
      gate_inserted-IsLineage :
          (code : String) (message : Option String) (i : Inserted)
          → gate_inserted plan.source_id code message i ≡ ok r
          → IsLineage i.db
          → IsLineage r.1
      gate_inserted-IsLineage code message i e h =
          same-IsLineage i.db r.1 (unfold gate_inserted advance_epoch in ground arith) h
