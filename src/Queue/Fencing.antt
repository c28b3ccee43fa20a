-- ===== src/Queue/Fencing.antt =====
-- A claim whose dataset has moved to another fence epoch no longer acts on the database.
use lance_etl.Common.{
  ℕ, ◌≡◌, ap, String, Option, none, some, Bool, true, false, arith, Result, ok, >>=-eq-ok,
  raise_if-eq-ok, exists_row, update_rows, count_rows, exists_row-of-none, update_rows-of-none,
  count_rows-of-none, ℤ, pos_part, Bool-cases, inl, inr, ◌==◌, ltb,
}
use lance_etl.Types.{Bytes, WorkPhase, WorkClaim, phase_order}
use lance_etl.Types.Ids.{Uuids, deterministic_publication_id}
use lance_etl.Types.Evidence.{PublicationEvidence}
use lance_etl.Db.{Work, Dataset, Publication, Database, find_work, find_dataset, find_publication}
use lance_etl.Queue.{holds_fence, lease_is_current, locked_lease_matches}
use lance_etl.Queue.Lease.{
  update_work, renew_lease, Checkpoint, advance_row, advance_phase, retry_work, block_work,
}
use lance_etl.Queue.Ingest.{
  complete_ingest, complete_locked_ingest, complete_live_ingest, with_locked,
}
use lance_etl.Queue.Publish.{
  Candidate, publish_dataset, publish_live, publish_locked, validate_completed_publication,
  validate_publication_request,
}

-- The transitions that a worker asks for under a claim.
pub data WorkerCall : Type 0 where
  renew : ℤ → WorkerCall
  advance : WorkPhase → Checkpoint → WorkerCall
  retry : ℤ → String → String → ℕ → WorkerCall
  block : String → String → WorkerCall
  complete : ℤ → ℤ → Bytes → WorkerCall
  publish : String → ℤ → String → Bytes → PublicationEvidence → WorkerCall

unfoldable pub perform : Uuids → WorkClaim → WorkerCall → ℕ → Database → Result (Bool × Database)
perform u claim (renew duration) now db = renew_lease claim duration now db
perform u claim (advance phase c) now db = advance_phase claim phase c now db
perform u claim (retry delay code message bound) now db =
    retry_work claim delay code message bound now db
perform u claim (block code message) now db = block_work claim code message now db
perform u claim (complete version rows digest) now db =
    complete_ingest u claim version rows digest now db
perform u claim (publish uri version manifest digest evidence) now db =
    publish_dataset u claim uri version manifest digest evidence now db

update_work-of-none :
    (p : Work → Bool) (f : Work → Work) (db : Database) {r : Bool × Database}
    → exists_row p db.works ≡ false
    → update_work p f db ≡ ok r
    → r ≡ (false, db)
unfolding update_work
update_work-of-none p f db {r} h e =
    let n = count_rows-of-none p db.works h in
    let same = update_rows-of-none p f db.works h in
    let q : r ≡ (count_rows p db.works == 1, record db { works = update_rows p f db.works }) = cc in
    rw (q, n, same)

module _ (claim : WorkClaim) (now : ℕ) (db : Database) where
  -- No row is leased to the claim.
  abbrev pub IsFencedOff : Type 0
  IsFencedOff = exists_row (lease_is_current claim now db) db.works ≡ false

  pub renew_lease-IsFencedOff :
      (duration : ℤ) {r : Bool × Database}
      → IsFencedOff
      → renew_lease claim duration now db ≡ ok r
      → r ≡ (false, db)
  unfolding renew_lease
  renew_lease-IsFencedOff duration h e = update_work-of-none _ _ db h (raise_if-eq-ok _ _ _ e).1

  pub retry_work-IsFencedOff :
      (delay : ℤ) (code message : String) (bound : ℕ) {r : Bool × Database}
      → IsFencedOff
      → retry_work claim delay code message bound now db ≡ ok r
      → r ≡ (false, db)
  unfolding retry_work
  retry_work-IsFencedOff delay code message bound h e =
      update_work-of-none _ _ db h (raise_if-eq-ok _ _ _ e).1

  pub block_work-IsFencedOff :
      (code message : String) {r : Bool × Database}
      → IsFencedOff
      → block_work claim code message now db ≡ ok r
      → r ≡ (false, db)
  unfolding block_work
  block_work-IsFencedOff code message h e = update_work-of-none _ _ db h e

  advance_row-IsFencedOff :
      (phase : WorkPhase) (c : Checkpoint) (row : Option Work) {r : Bool × Database}
      → IsFencedOff
      → advance_row claim phase c now db row ≡ ok r
      → r ≡ (false, db)
  unfolding advance_row
  advance_row-IsFencedOff phase c none h e = cc
  advance_row-IsFencedOff phase c (some row) h e =
      elim (Bool-cases (ltb (phase_order phase) (phase_order row.phase))) [
        | inl back ↦ let q = rw back at e in cc
        | inr forth ↦ update_work-of-none _ _ db h (rw forth at e)
      ]

  pub advance_phase-IsFencedOff :
      (phase : WorkPhase) (c : Checkpoint) {r : Bool × Database}
      → IsFencedOff
      → advance_phase claim phase c now db ≡ ok r
      → r ≡ (false, db)
  unfolding advance_phase
  advance_phase-IsFencedOff phase c {r} h e =
      ground (arith, advance_row-IsFencedOff phase c (find_work claim.work_id db) {r = r} h)

  IsFencedOff-of-fence : holds_fence claim (find_dataset claim.dataset_id db) ≡ false → IsFencedOff
  unfolding lease_is_current
  IsFencedOff-of-fence h =
      exists_row-of-none (lease_is_current claim now db) db.works (λ w. ground arith)

  complete_live_ingest-lost :
      (u : Uuids) (w : Work) (d : Dataset) (version rows : ℕ) (digest : Bytes) {r : Bool × Database}
      → (d.fence_epoch == claim.fence_epoch) ≡ false
      → complete_live_ingest u claim w d version rows digest now db ≡ ok r
      → r ≡ (false, db)
  unfolding complete_live_ingest locked_lease_matches
  complete_live_ingest-lost u w d version rows digest lost e = ground arith

  complete_locked_ingest-lost :
      (u : Uuids) (version rows : ℕ) (digest : Bytes) (ow : Option Work) (od : Option Dataset)
      {r : Bool × Database}
      → holds_fence claim od ≡ false
      → with_locked ow od
          (ok (false, db))
          (λ w d. complete_locked_ingest u claim w d version rows digest now db)
        ≡ ok r
      → r.1 ≡ db
  unfolding complete_locked_ingest
  complete_locked_ingest-lost u version rows digest none od lost e = cc
  complete_locked_ingest-lost u version rows digest (some w) none lost e = cc
  complete_locked_ingest-lost u version rows digest (some w) (some d) {r} lost e =
      ground (arith, complete_live_ingest-lost u w d version rows digest {r = r} lost)

  complete_ingest-lost :
      (u : Uuids) (version rows : ℤ) (digest : Bytes) {r : Bool × Database}
      → holds_fence claim (find_dataset claim.dataset_id db) ≡ false
      → complete_ingest u claim version rows digest now db ≡ ok r
      → r.1 ≡ db
  unfolding complete_ingest
  complete_ingest-lost u version rows digest {r} lost e = ground (
    arith,
    complete_locked_ingest-lost u (pos_part version) (pos_part rows) digest
        (find_work claim.work_id db) (find_dataset claim.dataset_id db) {r = r} lost,
  )

  publish_live-lost :
      (u : Uuids) (w : Work) (d : Dataset) (id : ℕ) (c : Candidate) {r : Bool × Database}
      → (d.fence_epoch == claim.fence_epoch) ≡ false
      → publish_live u claim w d id c now db ≡ ok r
      → r ≡ (false, db)
  unfolding publish_live locked_lease_matches
  publish_live-lost u w d id c lost e = ground arith

  publish_locked-lost :
      (u : Uuids) (id : ℕ) (c : Candidate) (op : Option Publication) (ow : Option Work)
      (od : Option Dataset) {r : Bool × Database}
      → holds_fence claim od ≡ false
      → with_locked ow od (ok (false, db)) (λ w d. publish_locked u claim w d id op c now db) ≡ ok r
      → r.1 ≡ db
  publish_locked-lost u id c op none od lost e = cc
  publish_locked-lost u id c op (some w) none lost e = cc
  publish_locked-lost u id c none (some w) (some d) {r} lost e =
      ground (arith, publish_live-lost u w d id c {r = r} lost)
  publish_locked-lost u id c (some p) (some w) (some d) {r} lost e =
      let (x, q, k) = >>=-eq-ok (validate_completed_publication p d c db) (λ _. ok (true, db)) e in
      cc

  publish_dataset-lost :
      (u : Uuids) (uri : String) (version : ℤ) (manifest : String) (digest : Bytes)
      (evidence : PublicationEvidence) {r : Bool × Database}
      → holds_fence claim (find_dataset claim.dataset_id db) ≡ false
      → publish_dataset u claim uri version manifest digest evidence now db ≡ ok r
      → r.1 ≡ db
  unfolding publish_dataset
  publish_dataset-lost u uri version manifest digest evidence {r} lost e =
      let (x, q, k) =
        >>=-eq-ok (validate_publication_request claim version manifest digest evidence) _ e in
      let id = deterministic_publication_id u claim.work_id in
      publish_locked-lost u id
        (record {
          lance_uri = uri;
          lance_version = pos_part version;
          manifest_uri = manifest;
          manifest_digest = digest;
          evidence = evidence;
        })
        (find_publication id db) (find_work claim.work_id db) (find_dataset claim.dataset_id db)
        lost k

-- Once the dataset of a claim has another fence epoch, no call under that claim changes the
-- database: each one raises, or returns with the database as it was.
pub perform_superseded :
    (u : Uuids) (claim : WorkClaim) (call : WorkerCall) (now : ℕ) (db : Database)
    {r : Bool × Database}
    → holds_fence claim (find_dataset claim.dataset_id db) ≡ false
    → perform u claim call now db ≡ ok r
    → r.1 ≡ db
unfolding perform
perform_superseded u claim (renew duration) now db lost e =
    ap (λ r. r.1)
      (renew_lease-IsFencedOff claim now db duration (IsFencedOff-of-fence claim now db lost) e)
perform_superseded u claim (advance phase c) now db lost e =
    ap (λ r. r.1)
      (advance_phase-IsFencedOff claim now db phase c (IsFencedOff-of-fence claim now db lost) e)
perform_superseded u claim (retry delay code message bound) now db lost e =
    ap (λ r. r.1)
      (retry_work-IsFencedOff claim now db delay code message bound
        (IsFencedOff-of-fence claim now db lost) e)
perform_superseded u claim (block code message) now db lost e =
    ap (λ r. r.1)
      (block_work-IsFencedOff claim now db code message (IsFencedOff-of-fence claim now db lost) e)
perform_superseded u claim (complete version rows digest) now db lost e =
    complete_ingest-lost claim now db u version rows digest lost e
perform_superseded u claim (publish uri version manifest digest evidence) now db lost e =
    publish_dataset-lost claim now db u uri version manifest digest evidence lost e
