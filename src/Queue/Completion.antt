-- ===== src/Queue/Completion.antt =====
-- What a completed INGEST leaves behind, and its replay.
use lance_etl.Common.{
  ℕ, ◌≡◌, refl, ap, ◌∙◌, Option, none, some, Bool, true, false, ◌||◌, not, arith, [], ◌∷◌, ◌++◌,
  Result, ok, value_error, >>=-eq-ok, raise_if-eq-ok, exists_row, find_row-update_rows,
  find_row-append, ◌==◌, ==_refl, Bool-cases, inl, inr, length, ℤ, pos_part, is_negative,
}
use lance_etl.Types.{Bytes, WorkClaim, is_ingest}
use lance_etl.Types.Ids.{Uuids}
use lance_etl.Db.{Work, Dataset, Database, find_work, find_dataset, insert_work, store_works}
use lance_etl.Queue.{locked_lease_matches, assert_expectations_match}
use lance_etl.Queue.Ingest.{
  completed_ingest_matches, enqueue_publish_work, complete_snapshot_if_applied, applied, ingested,
  apply_ingest, complete_live_ingest, complete_locked_ingest, with_locked, complete_ingest,
  bytes_eq,
}
use lance_etl.Queue.Evolution.Progress.{work_key, dataset_key}

-- The claimed row and its dataset carry the outputs of the completion.
pub record IsCompleted (claim : WorkClaim) (version rows : ℕ) (digest : Bytes) (db : Database)
    : Type 0 where
  pub work : Work
  pub dataset : Dataset
  pub found_work : find_work claim.work_id db ≡ some work
  pub found_dataset : find_dataset claim.dataset_id db ≡ some dataset
  pub matches : completed_ingest_matches work dataset version rows digest ≡ ok true

bytes_eq_refl : (b : Bytes) → bytes_eq b b ≡ true
bytes_eq_refl [] = refl
bytes_eq_refl (x ∷ b) = let h = bytes_eq_refl b in ground (arith, h)

pub insert_work-keeps :
    (id : ℕ) (row : Work) (db : Database) {db1 : Database} {w : Work}
    → insert_work row db ≡ ok db1
    → find_work id db ≡ some w
    → (find_work id db1 ≡ some w) × (db1.datasets ≡ db.datasets)
unfolding insert_work find_work store_works
insert_work-keeps id row db {db1} {w} e f =
    elim (Bool-cases (exists_row (λ v. v.work_id == row.work_id) db.works)) [
      | inl t ↦ let q : db1 ≡ db = ground arith in rw q (f, refl)
      | inr t ↦
          let ws : db1.works ≡ db.works ++ row ∷ [] = ground arith in
          let ds : db1.datasets ≡ db.datasets = ground arith in
          (
            rw ws
                (find_row-append work_key id (λ (x : Work). x.work_id == id) db.works (row ∷ []) f),
            ds,
          )
    ]

state_same :
    (b : Bool) (x y : Database) → ◌≡◌ {A = Result (Bool × Database)} (ok (b, x)) (ok (b, y)) → y ≡ x
state_same b x y e = cc

module _ (u : Uuids) (claim : WorkClaim) (version rows : ℕ) (digest : Bytes) where
  module _ (w : Work) (d : Dataset) (now : ℕ) where
    ingested-matches :
        completed_ingest_matches
          (ingested w version rows digest now w)
          (applied w version d)
          version
          rows
          digest
        ≡ ok true
    unfolding completed_ingest_matches
    ingested-matches =
        let same = bytes_eq_refl digest in
        let self = ==_refl version in let self' = ==_refl rows in ground (arith, same, self, self')

  -- The row is found as written whatever row is inserted after it.
  stored-IsCompleted :
      (w : Work) (d : Dataset) (now seq : ℕ) (row : Work) (db db3 : Database)
      → find_work claim.work_id db ≡ some w
      → find_dataset claim.dataset_id db ≡ some d
      → insert_work row (apply_ingest claim w version rows digest now db) ≡ ok db3
      → IsCompleted claim version rows digest (complete_snapshot_if_applied seq db3)
  unfolding apply_ingest complete_snapshot_if_applied find_work find_dataset
  stored-IsCompleted w d now seq row db db3 fw fd put =
      let (found, same) =
        insert_work-keeps claim.work_id row (apply_ingest claim w version rows digest now db) put (
          find_row-update_rows work_key claim.work_id (ingested w version rows digest now) db.works
            (λ x. refl) fw) in
      record {
        work = ingested w version rows digest now w;
        dataset = applied w version d;
        found_work = found;
        found_dataset = rw same (
            find_row-update_rows dataset_key claim.dataset_id (applied w version) db.datasets
              (λ x. refl) fd);
        matches = ingested-matches w d now;
      }

  enqueued-insert :
      (w : Work) (d : Dataset) (now : ℕ) (db db3 : Database)
      → enqueue_publish_work u claim.dataset_id w.source_id w.source_snapshot_seq w.spec_revision_id
          w.expected_ingest_lance_uri version d.active_publication_id now db
        ≡ ok db3
      → (row : Work) × (insert_work row db ≡ ok db3)
  unfolding enqueue_publish_work
  enqueued-insert w d now db db3 e = let (_, e1) = raise_if-eq-ok _ _ _ e in (_, e1)

  complete_live_ingest-IsCompleted :
      (w : Work) (d : Dataset) (now : ℕ) (db : Database) {db1 : Database}
      → find_work claim.work_id db ≡ some w
      → find_dataset claim.dataset_id db ≡ some d
      → complete_live_ingest u claim w d version rows digest now db ≡ ok (true, db1)
      → IsCompleted claim version rows digest db1
  unfolding complete_live_ingest
  complete_live_ingest-IsCompleted w d now db {db1} fw fd e =
      elim (Bool-cases (locked_lease_matches w d claim now)) [
        | inr t ↦ absurd (ground (arith, t))
        | inl t ↦
            let db2 = apply_ingest claim w version rows digest now db in
            let e1 = rw (t, complete_live_ingest) at e in
            let (_, _, e2) =
              >>=-eq-ok
                (assert_expectations_match w d
                  "INGEST work expectations no longer match dataset state")
                _ e1 in
            let (db3, put, e3) =
              >>=-eq-ok
                (enqueue_publish_work u claim.dataset_id w.source_id w.source_snapshot_seq
                  w.spec_revision_id w.expected_ingest_lance_uri version d.active_publication_id now
                  db2)
                _ e2 in
            let (row, put') = enqueued-insert w d now db2 db3 put in
            let q : db1 ≡ complete_snapshot_if_applied w.source_snapshot_seq db3 =
              state_same _ _ _ e3 in
            rw q (stored-IsCompleted w d now w.source_snapshot_seq row db db3 fw fd put')
      ]

  complete_locked_ingest-IsCompleted :
      (now : ℕ) (db : Database) (ow : Option Work) (od : Option Dataset) {db1 : Database}
      → find_work claim.work_id db ≡ ow
      → find_dataset claim.dataset_id db ≡ od
      → with_locked ow od
          (ok (false, db))
          (λ w d. complete_locked_ingest u claim w d version rows digest now db)
        ≡ ok (true, db1)
      → IsCompleted claim version rows digest db1
  unfolding complete_locked_ingest
  complete_locked_ingest-IsCompleted now db none od fw fd e = absurd (ground arith)
  complete_locked_ingest-IsCompleted now db (some w) none fw fd e = absurd (ground arith)
  complete_locked_ingest-IsCompleted now db (some w) (some d) {db1} fw fd e =
      let (done, m, e1) = >>=-eq-ok (completed_ingest_matches w d version rows digest) _ e in
      elim (Bool-cases done) [
        | inl t ↦
            let e2 = rw t at e1 in
            rw (state_same true db db1 e2) (record {
              work = w;
              dataset = d;
              found_work = fw;
              found_dataset = fd;
              matches = m ∙ ap ok t;
            })
        | inr t ↦ complete_live_ingest-IsCompleted w d now db fw fd (rw t at e1)
      ]

-- A completion that returns true leaves the claimed row SUCCEEDED with the outputs of the call, and
-- its dataset at the row's snapshot or past it.
pub complete_ingest-IsCompleted :
    (u : Uuids) (claim : WorkClaim) (version rows : ℤ) (digest : Bytes) (now : ℕ) (db : Database)
    {db1 : Database}
    → complete_ingest u claim version rows digest now db ≡ ok (true, db1)
    → IsCompleted claim (pos_part version) (pos_part rows) digest db1
unfolding complete_ingest
complete_ingest-IsCompleted u claim version rows digest now db {db1} e =
    let (_, e1) =
      raise_if-eq-ok (not (is_ingest claim.kind))
        (value_error "complete_ingest requires an INGEST claim") _ e in
    let (_, e2) =
      raise_if-eq-ok (is_negative version || is_negative rows || not (length digest == 32))
        (value_error "ingest completion requires non-negative values and a 32-byte digest") _ e1 in
    complete_locked_ingest-IsCompleted u claim (pos_part version) (pos_part rows) digest now db
      (find_work claim.work_id db) (find_dataset claim.dataset_id db) refl refl e2

-- A completion that returned true can be sent again, at any time and with the lease gone: on the
-- database that it left, the same call returns true and changes nothing.
pub complete_ingest_replay :
    (u : Uuids) (claim : WorkClaim) (version rows : ℤ) (digest : Bytes) (now later : ℕ)
    (db : Database) {db1 : Database}
    → complete_ingest u claim version rows digest now db ≡ ok (true, db1)
    → complete_ingest u claim version rows digest later db1 ≡ ok (true, db1)
unfolding complete_ingest complete_locked_ingest
complete_ingest_replay u claim version rows digest now later db {db1} e =
    let c = complete_ingest-IsCompleted u claim version rows digest now db e in
    let (g1, e1) =
      raise_if-eq-ok (not (is_ingest claim.kind))
        (value_error "complete_ingest requires an INGEST claim") _ e in
    let (g2, e2) =
      raise_if-eq-ok (is_negative version || is_negative rows || not (length digest == 32))
        (value_error "ingest completion requires non-negative values and a 32-byte digest") _ e1 in
    let fw = c.found_work in
    let fd = c.found_dataset in let m = c.matches in rw (g1, g2, fw, fd, m) refl
