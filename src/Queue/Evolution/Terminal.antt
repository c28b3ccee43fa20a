-- ===== src/Queue/Evolution/Terminal.antt =====
-- The transitions that end work, and the insertion of new work, keep the relation `Progress`.
use lance_etl.Common.{
  ℕ, ◌≡◌, refl, sym, ◌∙◌, Option, none, some, Bool, true, false, arith, String, ◌++◌, [], ◌∷◌, ok,
  >>=-eq-ok, raise_if-eq-ok, Evolves-update_rows, Evolves-update_known, Evolves-append,
  Keyed-update_rows, Keyed-insert, IsCurrent, find_row-IsCurrent, update_rows, exists_row, ◌==◌,
  Bool-cases, inl, inr, ℤ, pos_part, List, ==→eq,
}
use lance_etl.Types.{Bytes, WorkClaim, is_running}
use lance_etl.Types.Ids.{Uuids, deterministic_publication_id, deterministic_publish_work_id}
use lance_etl.Types.Evidence.{PublicationEvidence}
use lance_etl.Db.{
  Work, Dataset, Publication, Database, find_work, find_dataset, find_publication, insert_work,
  store_works, indexes_hold,
}
use lance_etl.Queue.{locked_lease_matches, assert_expectations_match}
use lance_etl.Queue.Ingest.{
  complete_ingest, complete_locked_ingest, complete_live_ingest, completed_ingest_matches,
  with_locked, enqueue_publish_work, publish_row, apply_ingest, applied, ingested,
  complete_snapshot_if_applied, completed_snapshot,
}
use lance_etl.Queue.Publish.{
  Candidate, publish_dataset, publish_live, publish_locked, validate_completed_publication,
  validate_publication_request, validate_live_publication, validate_publication_indexes,
  swap_pointer, served, published,
}
use lance_etl.Queue.Evolution.{IsLeased, RowStep, RowStep-refl}
use lance_etl.Queue.Evolution.Steps.{ingested-RowStep, published-RowStep}
use lance_etl.Queue.Evolution.Progress.{
  Progress, Progress-refl, Progress-works, Progress-trans, DatasetStep, DatasetStep-refl,
  SnapshotStep, SnapshotStep-refl, Anything, work_key, dataset_key, IsKeyed, works_same,
  datasets_same, snapshots_same, sources_same,
}

pub store_works-Progress :
    (db : Database) (ws : List Work) {db' : Database}
    → Progress db (record db { works = ws })
    → store_works ws db ≡ ok db'
    → Progress db db'
unfolding store_works
store_works-Progress db ws {db'} p e = elim (Bool-cases (indexes_hold ws)) [
  | inl t ↦ let e' = rw t at e in let q : db' ≡ record db { works = ws } = cc in rw q p
  | inr t ↦ let e' = rw t at e in cc
]

pub insert_work-Progress :
    (w : Work) (db : Database) {db' : Database}
    → IsLeased w
    → IsKeyed db
    → insert_work w db ≡ ok db'
    → Progress db db'
unfolding insert_work
insert_work-Progress w db {db'} l k e =
    elim (Bool-cases (exists_row (λ v. v.work_id == w.work_id) db.works)) [
      | inl t ↦ let e' = rw t at e in let q : db' ≡ db = cc in rw q (Progress-refl db k)
      | inr t ↦
          store_works-Progress db (db.works ++ w ∷ [])
            (Progress-works db (db.works ++ w ∷ []) k
              (Evolves-append RowStep IsLeased db.works db.works (w ∷ []) (works_same db.works)
                (l, tt))
              (Keyed-insert work_key db.works w t k.works))
            (rw t at e)
    ]

pub complete_snapshot-Progress :
    (seq : ℕ) (db : Database) → IsKeyed db → Progress db (complete_snapshot_if_applied seq db)
unfolding complete_snapshot_if_applied
complete_snapshot-Progress seq db k = record {
  works = works_same db.works;
  datasets = datasets_same db.datasets;
  snapshots =
      Evolves-update_rows SnapshotStep Anything _ completed_snapshot SnapshotStep-refl
        (λ s h. ground arith) db.snapshots;
  sources = sources_same db.sources;
  keyed = record { works = k.works; datasets = k.datasets };
}

module _ (claim : WorkClaim) (now : ℕ) (db : Database) (k : IsKeyed db) where
  -- The locked row is the only one of its key, and it runs.
  module _ (w : Work) (d : Dataset) (f : find_work claim.work_id db ≡ some w)
      (held : locked_lease_matches w d claim now ≡ true) where
    locked_runs : is_running w.state ≡ true
    unfolding locked_lease_matches
    locked_runs = ground arith

    locked_row :
        (x : Work) → (x.work_id ≡ w.work_id → x ≡ w) → (x.work_id == claim.work_id) ≡ true → x ≡ w
    unfolding find_work
    locked_row x h e =
        let (id, current) = find_row-IsCurrent work_key claim.work_id db.works w k.works f in
        h (==→eq _ _ e ∙ sym id)

    locked-IsCurrent : IsCurrent work_key w db.works
    unfolding find_work
    locked-IsCurrent = (find_row-IsCurrent work_key claim.work_id db.works w k.works f).1

    apply_ingest-Progress :
        (version rows : ℕ) (digest : Bytes)
        → Progress db (apply_ingest claim w version rows digest now db)
    unfolding apply_ingest
    apply_ingest-Progress version rows digest = record {
      works =
          Evolves-update_known RowStep IsLeased (λ x. x.work_id ≡ w.work_id → x ≡ w) _
            (ingested w version rows digest now) RowStep-refl
            (λ x h e.
              let q = locked_row x h e in
              let run = locked_runs in
              ingested-RowStep w version rows digest now x (rw q (ground arith)))
            db.works locked-IsCurrent;
      datasets =
          Evolves-update_rows DatasetStep Anything _ (applied w version) DatasetStep-refl
            (λ x e. ground arith) db.datasets;
      snapshots = snapshots_same db.snapshots;
      sources = sources_same db.sources;
      keyed = record {
        works =
            Keyed-update_rows work_key _ (ingested w version rows digest now) (λ x. refl) db.works
              k.works;
        datasets =
            Keyed-update_rows dataset_key _ (applied w version) (λ x. refl) db.datasets k.datasets;
      };
    }

    swap_pointer-Progress :
        (id seq : ℕ) (c : Candidate) {db' : Database}
        → swap_pointer claim w d id seq c now db ≡ ok db'
        → Progress db db'
    unfolding swap_pointer
    swap_pointer-Progress id seq c {db'} e =
        let ws : db'.works
            ≡ update_rows (λ (v : Work). v.work_id == claim.work_id) (published c now) db.works =
          ground arith in
        let ds : db'.datasets
            ≡ update_rows (λ (x : Dataset). x.dataset_id == claim.dataset_id) (served claim w c id)
                db.datasets =
          ground arith in
        let ss : db'.snapshots ≡ db.snapshots = ground arith in
        let os : db'.sources ≡ db.sources = ground arith in
        record {
          works = rw ws (
              Evolves-update_known RowStep IsLeased (λ x. x.work_id ≡ w.work_id → x ≡ w) _
                (published c now) RowStep-refl
                (λ x h e.
                  let q = locked_row x h e in
                  let run = locked_runs in published-RowStep c now x (rw q (ground arith)))
                db.works locked-IsCurrent);
          datasets = rw ds (
              Evolves-update_rows DatasetStep Anything _ (served claim w c id) DatasetStep-refl
                (λ x e. unfold served in ground arith) db.datasets);
          snapshots = rw ss (snapshots_same db.snapshots);
          sources = rw os (sources_same db.sources);
          keyed = record {
            works =
                rw ws (Keyed-update_rows work_key _ (published c now) (λ x. refl) db.works k.works);
            datasets = rw ds (
                Keyed-update_rows dataset_key _ (served claim w c id)
                  (λ x. unfold served in ground arith) db.datasets k.datasets);
          };
        }

  publish_row-IsLeased :
      (id ds src seq spec : ℕ) (uri : String) (version : ℕ) (active : Option ℕ)
      → IsLeased (publish_row id ds src seq spec uri version active now)
  unfolding publish_row
  publish_row-IsLeased id ds src seq spec uri version active = record {
    token = refl;
    expiry = refl;
  }

  enqueue_publish_work-Progress :
      (u : Uuids) (ds src seq spec : ℕ) (uri : String) (version : ℕ) (active : Option ℕ)
      (x : Database) {db' : Database}
      → IsKeyed x
      → enqueue_publish_work u ds src seq spec uri version active now x ≡ ok db'
      → Progress x db'
  unfolding enqueue_publish_work
  enqueue_publish_work-Progress u ds src seq spec uri version active x kx e =
      let id = deterministic_publish_work_id u ds seq spec in
      insert_work-Progress (publish_row id ds src seq spec uri version active now) x
        (publish_row-IsLeased id ds src seq spec uri version active) kx (raise_if-eq-ok _ _ _ e).1

  complete_live_ingest-Progress :
      (u : Uuids) (w : Work) (d : Dataset) (version rows : ℕ) (digest : Bytes) {r : Bool × Database}
      → find_work claim.work_id db ≡ some w
      → complete_live_ingest u claim w d version rows digest now db ≡ ok r
      → Progress db r.1
  unfolding complete_live_ingest
  complete_live_ingest-Progress u w d version rows digest {r} f e =
      elim (Bool-cases (locked_lease_matches w d claim now)) [
        | inr lost ↦
            let e' = rw lost at e in let q : r ≡ (false, db) = cc in rw q (Progress-refl db k)
        | inl held ↦
            let e' = rw held at e in
            let (a, _, e1) =
              >>=-eq-ok
                (assert_expectations_match w d
                  "INGEST work expectations no longer match dataset state")
                _ e' in
            let db1 = apply_ingest claim w version rows digest now db in
            let (db2, put, e2) =
              >>=-eq-ok
                (enqueue_publish_work u claim.dataset_id w.source_id w.source_snapshot_seq
                  w.spec_revision_id w.expected_ingest_lance_uri version d.active_publication_id now
                  db1)
                (λ x. ok (true, complete_snapshot_if_applied w.source_snapshot_seq x)) e1 in
            let q : r ≡ (true, complete_snapshot_if_applied w.source_snapshot_seq db2) = cc in
            let p1 = apply_ingest-Progress w d f held version rows digest in
            let p2 =
              enqueue_publish_work-Progress u claim.dataset_id w.source_id w.source_snapshot_seq
                w.spec_revision_id w.expected_ingest_lance_uri version d.active_publication_id db1
                p1.keyed put in
            rw q (
              Progress-trans db db2 _ (Progress-trans db db1 db2 p1 p2)
                (complete_snapshot-Progress w.source_snapshot_seq db2 p2.keyed))
      ]

  complete_locked_ingest-Progress :
      (u : Uuids) (version rows : ℕ) (digest : Bytes) (ow : Option Work) (od : Option Dataset)
      {r : Bool × Database}
      → find_work claim.work_id db ≡ ow
      → with_locked ow od
          (ok (false, db))
          (λ w d. complete_locked_ingest u claim w d version rows digest now db)
        ≡ ok r
      → Progress db r.1
  unfolding complete_locked_ingest
  complete_locked_ingest-Progress u version rows digest none od {r} f e =
      let q : r ≡ (false, db) = cc in rw q (Progress-refl db k)
  complete_locked_ingest-Progress u version rows digest (some w) none {r} f e =
      let q : r ≡ (false, db) = cc in rw q (Progress-refl db k)
  complete_locked_ingest-Progress u version rows digest (some w) (some d) {r} f e =
      let (done, _, e1) = >>=-eq-ok (completed_ingest_matches w d version rows digest) _ e in
      elim (Bool-cases done) [
        | inl t ↦ let e2 = rw t at e1 in let q : r ≡ (true, db) = cc in rw q (Progress-refl db k)
        | inr t ↦ complete_live_ingest-Progress u w d version rows digest f (rw t at e1)
      ]

  pub complete_ingest-Progress :
      (u : Uuids) (version rows : ℤ) (digest : Bytes) {r : Bool × Database}
      → complete_ingest u claim version rows digest now db ≡ ok r
      → Progress db r.1
  unfolding complete_ingest
  complete_ingest-Progress u version rows digest {r} e =
      let body : with_locked (find_work claim.work_id db) (find_dataset claim.dataset_id db)
            (ok (false, db))
            (λ w d.
              complete_locked_ingest u claim w d (pos_part version) (pos_part rows) digest now db)
          ≡ ok r =
        ground arith in
      complete_locked_ingest-Progress u (pos_part version) (pos_part rows) digest
        (find_work claim.work_id db) (find_dataset claim.dataset_id db) refl body

  publish_live-Progress :
      (u : Uuids) (w : Work) (d : Dataset) (id : ℕ) (c : Candidate) {r : Bool × Database}
      → find_work claim.work_id db ≡ some w
      → publish_live u claim w d id c now db ≡ ok r
      → Progress db r.1
  unfolding publish_live
  publish_live-Progress u w d id c {r} f e =
      elim (Bool-cases (locked_lease_matches w d claim now)) [
        | inr lost ↦
            let e' = rw lost at e in let q : r ≡ (false, db) = cc in rw q (Progress-refl db k)
        | inl held ↦
            let e' = rw held at e in
            let (seq, _, e1) =
              >>=-eq-ok (validate_live_publication u claim w d c.lance_uri c.lance_version db) _
                e' in
            let (a, _, e2) =
              >>=-eq-ok (validate_publication_indexes w.spec_revision_id c.evidence db) _ e1 in
            let (db1, swap, e3) =
              >>=-eq-ok (swap_pointer claim w d id seq c now db) (λ x. ok (true, x)) e2 in
            let q : r ≡ (true, db1) = cc in rw q (swap_pointer-Progress w d f held id seq c swap)
      ]

  publish_locked-Progress :
      (u : Uuids) (id : ℕ) (c : Candidate) (op : Option Publication) (ow : Option Work)
      (od : Option Dataset) {r : Bool × Database}
      → find_work claim.work_id db ≡ ow
      → with_locked ow od (ok (false, db)) (λ w d. publish_locked u claim w d id op c now db) ≡ ok r
      → Progress db r.1
  publish_locked-Progress u id c op none od {r} f e =
      let q : r ≡ (false, db) = cc in rw q (Progress-refl db k)
  publish_locked-Progress u id c op (some w) none {r} f e =
      let q : r ≡ (false, db) = cc in rw q (Progress-refl db k)
  publish_locked-Progress u id c none (some w) (some d) f e = publish_live-Progress u w d id c f e
  publish_locked-Progress u id c (some p) (some w) (some d) {r} f e =
      let (x, _, e1) = >>=-eq-ok (validate_completed_publication p d c db) (λ _. ok (true, db)) e in
      let q : r ≡ (true, db) = cc in rw q (Progress-refl db k)

  pub publish_dataset-Progress :
      (u : Uuids) (uri : String) (version : ℤ) (manifest : String) (digest : Bytes)
      (evidence : PublicationEvidence) {r : Bool × Database}
      → publish_dataset u claim uri version manifest digest evidence now db ≡ ok r
      → Progress db r.1
  unfolding publish_dataset
  publish_dataset-Progress u uri version manifest digest evidence e =
      let (x, _, e1) =
        >>=-eq-ok (validate_publication_request claim version manifest digest evidence) _ e in
      let id = deterministic_publication_id u claim.work_id in
      publish_locked-Progress u id
        (record {
          lance_uri = uri;
          lance_version = pos_part version;
          manifest_uri = manifest;
          manifest_digest = digest;
          evidence = evidence;
        })
        (find_publication id db) (find_work claim.work_id db) (find_dataset claim.dataset_id db)
        refl e1
