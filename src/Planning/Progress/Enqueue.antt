-- ===== src/Planning/Progress/Enqueue.antt =====
-- The transactions that enqueue a snapshot keep the relation `Progress`.
use lance_etl.Common.{
  ℕ, ◌≡◌, refl, Option, none, some, arith, List, [], ◌∷◌, ◌++◌, String, ok, one, >>=-eq-ok,
  raise_if-eq-ok, Evolves-append, Keyed-insert, exists_row, ◌==◌, Bool-cases, inl, inr,
}
use lance_etl.Types.{SourceSnapshotState, RoutingIdentity}
use lance_etl.Types.Ids.{Uuids, deterministic_dataset_id, deterministic_ingest_work_id, ingest_uri}
use lance_etl.Types.Plan.{SourceSnapshotPlan, validate_plan}
use lance_etl.Sources.{source_from_row}
use lance_etl.Db.{
  Dataset, Snapshot, Source, Database, find_work, find_dataset, find_snapshot, insert_work,
}
use lance_etl.Queue.Ingest.{completed_snapshot}
use lance_etl.Queue.Evolution.Progress.{
  Progress, Progress-refl, Progress-trans, DatasetStep, SnapshotStep, Anything, dataset_key,
  IsKeyed, works_same, datasets_same, snapshots_same, sources_same,
}
use lance_etl.Queue.Evolution.Terminal.{insert_work-Progress}
use lance_etl.Planning.{
  Inserted, insert_or_validate, insert_or_validate_snapshot, appended, snapshot_row, advance_epoch,
  lock_source_for_planning, admit_plan,
}
use lance_etl.Planning.Enqueue.{
  insert_dataset, insert_or_validate_dataset, dataset_row, ingest_row, insert_ingest_work,
  insert_lanes, complete_if_empty, replay_snapshot, fill_new_snapshot, fill_snapshot,
  enqueue_source_snapshot, gate_inserted, enqueue_blocked_source_snapshot, validate_all,
  active_spec_revision_id,
}
use lance_etl.Planning.Progress.{Progress-snapshots, advance_epoch-Progress}

module _ (db : Database) (k : IsKeyed db) where
  appended-Progress : (row : Snapshot) → Progress db (appended row db).db
  appended-Progress row = record {
    works = works_same db.works;
    datasets = datasets_same db.datasets;
    snapshots =
        Evolves-append SnapshotStep Anything db.snapshots db.snapshots (row ∷ [])
          (snapshots_same db.snapshots) (tt, tt);
    sources = sources_same db.sources;
    keyed = record { works = k.works; datasets = k.datasets };
  }

  insert_or_validate-Progress :
      (plan : SourceSnapshotPlan) (state : SourceSnapshotState) (code message : Option String)
      (now : ℕ) (found : Option Snapshot) {i : Inserted}
      → insert_or_validate plan state code message now db found ≡ ok i
      → Progress db i.db
  insert_or_validate-Progress plan state code message now (some row) {i} e =
      let q : i.db ≡ db = ground arith in rw q (Progress-refl db k)
  insert_or_validate-Progress plan state code message now none {i} e =
      let row = snapshot_row plan state code message db.next_seq now in
      let q : i.db ≡ (appended row db).db = ground arith in rw q (appended-Progress row)

  insert_dataset-Progress :
      (row : Dataset) {db' : Database} → insert_dataset row db ≡ ok db' → Progress db db'
  unfolding insert_dataset
  insert_dataset-Progress row {db'} e =
      elim (Bool-cases (exists_row (λ (d : Dataset). d.dataset_id == row.dataset_id) db.datasets)) [
        | inl t ↦ let e' = rw t at e in let q : db' ≡ db = cc in rw q (Progress-refl db k)
        | inr t ↦
            let q : db' ≡ record db { datasets = db.datasets ++ row ∷ [] } = ground arith in
            rw q (record {
              works = works_same db.works;
              datasets =
                  Evolves-append DatasetStep Anything db.datasets db.datasets (row ∷ [])
                    (datasets_same db.datasets) (tt, tt);
              snapshots = snapshots_same db.snapshots;
              sources = sources_same db.sources;
              keyed = record {
                works = k.works;
                datasets = Keyed-insert dataset_key db.datasets row t k.datasets;
              };
            })
      ]

insert_or_validate_dataset-Progress :
    (u : Uuids) (source : Source) (plan : RoutingIdentity) (revision : ℕ) (db : Database)
    {r : Dataset × Database}
    → IsKeyed db
    → insert_or_validate_dataset u source plan revision db ≡ ok r
    → Progress db r.1
unfolding insert_or_validate_dataset
insert_or_validate_dataset-Progress u source plan revision db {r} k e =
    let id = deterministic_dataset_id u source.source_id plan in
    let (uri, a, e1) = >>=-eq-ok (ingest_uri u source.lance_base_uri id) _ e in
    let (db1, put, e2) =
      >>=-eq-ok (insert_dataset (dataset_row id source.source_id plan revision uri) db) _ e1 in
    let (row, b, e3) = >>=-eq-ok (one (find_dataset id db1)) _ e2 in
    let q : r.1 ≡ db1 = ground arith in
    rw q (insert_dataset-Progress db k (dataset_row id source.source_id plan revision uri) put)

insert_ingest_work-Progress :
    (u : Uuids) (d : Dataset) (seq now : ℕ) (db : Database) {db' : Database}
    → IsKeyed db
    → insert_ingest_work u d seq now db ≡ ok db'
    → Progress db db'
unfolding insert_ingest_work
insert_ingest_work-Progress u d seq now db {db'} k e =
    let (id, a, e1) = >>=-eq-ok (deterministic_ingest_work_id u d.dataset_id seq) _ e in
    let (db1, put, e2) = >>=-eq-ok (insert_work (ingest_row id d seq now) db) _ e1 in
    let (row, b, e3) = >>=-eq-ok (one (find_work id db1)) _ e2 in
    let q : db' ≡ db1 = ground arith in
    rw q (
      insert_work-Progress (ingest_row id d seq now) db
        (unfold ingest_row in record { token = refl; expiry = refl }) k put)

insert_lanes-Progress :
    (u : Uuids) (source : Source) (revision seq now : ℕ) (plans : List RoutingIdentity)
    (db : Database) {db' : Database}
    → IsKeyed db
    → insert_lanes u source revision seq now plans db ≡ ok db'
    → Progress db db'
unfolding insert_lanes
insert_lanes-Progress u source revision seq now [] db {db'} k e =
    let q : db' ≡ db = ground arith in rw q (Progress-refl db k)
insert_lanes-Progress u source revision seq now (plan ∷ plans) db {db'} k e =
    let (_, _, e0) = >>=-eq-ok (source_from_row source) _ e in
    let ((row, db1), a, e1) =
      >>=-eq-ok (insert_or_validate_dataset u source plan revision db) _ e0 in
    let (db2, b, e2) = >>=-eq-ok (insert_ingest_work u row seq now db1) _ e1 in
    let p1 = insert_or_validate_dataset-Progress u source plan revision db k a in
    let p2 = insert_ingest_work-Progress u row seq now db1 p1.keyed b in
    Progress-trans db db1 db' p1 (
      Progress-trans db1 db2 db' p2
        (insert_lanes-Progress u source revision seq now plans db2 p2.keyed e2))

complete_if_empty-Progress :
    (plans : List RoutingIdentity) (seq : ℕ) (db : Database)
    → IsKeyed db
    → Progress db (complete_if_empty plans seq db)
unfolding complete_if_empty
complete_if_empty-Progress (plan ∷ plans) seq db k = Progress-refl db k
complete_if_empty-Progress [] seq db k =
    Progress-snapshots db _ completed_snapshot (λ s. ground arith) k

fill_snapshot-Progress :
    (u : Uuids) (source : Source) (now : ℕ) (plans : List RoutingIdentity) (i : Inserted)
    {r : ℕ × Database}
    → IsKeyed i.db
    → fill_snapshot u source now plans i ≡ ok r
    → Progress i.db r.1
unfolding fill_snapshot fill_new_snapshot replay_snapshot
fill_snapshot-Progress u source now plans i {r} k e = elim (Bool-cases i.inserted) [
  | inl t ↦
      let e0 = rw (t, fill_snapshot) at e in
      let (revision, a, e1) =
        >>=-eq-ok (active_spec_revision_id source.default_spec_id i.db) _ e0 in
      let (db, b, e2) = >>=-eq-ok (insert_lanes u source revision i.seq now plans i.db) _ e1 in
      let p1 = insert_lanes-Progress u source revision i.seq now plans i.db k b in
      let q : r.1 ≡ complete_if_empty plans i.seq db = ground arith in
      rw q (Progress-trans i.db db _ p1 (complete_if_empty-Progress plans i.seq db p1.keyed))
  | inr t ↦
      let e0 = rw (t, fill_snapshot) at e in
      let q : r.1 ≡ complete_if_empty plans i.seq i.db = ground arith in
      rw q (complete_if_empty-Progress plans i.seq i.db k)
]

gate_inserted-Progress :
    (source_id : ℕ) (code : String) (message : Option String) (i : Inserted) {r : ℕ × Database}
    → IsKeyed i.db
    → gate_inserted source_id code message i ≡ ok r
    → Progress i.db r.1
unfolding gate_inserted
gate_inserted-Progress source_id code message i {r} k e = elim (Bool-cases i.inserted) [
  | inl t ↦
      let q : r.1 ≡ advance_epoch source_id i.db = ground arith in
      rw q (advance_epoch-Progress source_id i.db k)
  | inr t ↦
      let e1 = rw (t, gate_inserted) at e in
      let (row, _, e2) = >>=-eq-ok (one (find_snapshot i.seq i.db)) _ e1 in
      let q : r.1 ≡ i.db = ground arith in rw q (Progress-refl i.db k)
]

module _ (db : Database) (k : IsKeyed db) where
  pub enqueue_source_snapshot-Progress :
      (u : Uuids) (plan : SourceSnapshotPlan) (plans : List RoutingIdentity) (now : ℕ)
      {r : ℕ × Database}
      → enqueue_source_snapshot u plan plans now db ≡ ok r
      → Progress db r.1
  unfolding enqueue_source_snapshot insert_or_validate_snapshot
  enqueue_source_snapshot-Progress u plan plans now {r} e =
      let (a, _, e1) = >>=-eq-ok (validate_plan plan) _ e in
      let (_, e2) = raise_if-eq-ok _ _ _ e1 in
      let (_, _, e3) = >>=-eq-ok (validate_all plans) _ e2 in
      let (_, e4) = raise_if-eq-ok _ _ _ e3 in
      let (source, _, e5) = >>=-eq-ok (lock_source_for_planning plan.source_id db) _ e4 in
      let (_, _, e6) = >>=-eq-ok (admit_plan plan source db) _ e5 in
      let (i, put, e7) =
        >>=-eq-ok (insert_or_validate_snapshot plan SourceSnapshotState.sealed none none now db) _
          e6 in
      let p1 =
        insert_or_validate-Progress db k plan SourceSnapshotState.sealed none none now _ put in
      Progress-trans db i.db _ p1 (fill_snapshot-Progress u source now plans i p1.keyed e7)

  pub enqueue_blocked_source_snapshot-Progress :
      (plan : SourceSnapshotPlan) (code : String) (message : Option String) (now : ℕ)
      {r : ℕ × Database}
      → enqueue_blocked_source_snapshot plan code message now db ≡ ok r
      → Progress db r.1
  unfolding enqueue_blocked_source_snapshot insert_or_validate_snapshot
  enqueue_blocked_source_snapshot-Progress plan code message now {r} e =
      let (a, _, e1) = >>=-eq-ok (validate_plan plan) _ e in
      let (_, e2) = raise_if-eq-ok _ _ _ e1 in
      let (source, _, e5) = >>=-eq-ok (lock_source_for_planning plan.source_id db) _ e2 in
      let (_, _, e6) = >>=-eq-ok (admit_plan plan source db) _ e5 in
      let (i, put, e7) =
        >>=-eq-ok
          (insert_or_validate_snapshot plan SourceSnapshotState.blocked (some code) message now db)
          _ e6 in
      let p1 =
        insert_or_validate-Progress db k plan SourceSnapshotState.blocked (some code) message now _
          put in
      Progress-trans db i.db _ p1 (gate_inserted-Progress plan.source_id code message i p1.keyed e7)
