-- ===== src/Queue/Agreement.antt =====
-- What the dry runs of an operator's retry say, against what the retries do; and what a retry
-- leaves alone.
use lance_etl.Common.{
  ℕ, ◌≡◌, refl, none, Bool, false, arith, ok, >>=-eq-ok, count_rows-eq-exists_row, update_rows,
  count_rows, ◌==◌, Option-cases, inl, inr,
}
use lance_etl.Types.{WorkState}
use lance_etl.Db.{Database, find_snapshot, store_works}
use lance_etl.Queue.Lease.{released, retryable, retry_blocked_work, can_retry_blocked_work}
use lance_etl.Queue.Evolution.Progress.{work_key, IsKeyed}
use lance_etl.Planning.{lock_source_for_planning}
use lance_etl.Planning.Gate.{
  reopen_snapshot, retry_blocked_source_snapshot, can_retry_blocked_source_snapshot,
}

-- When a retry of BLOCKED work returns, it returns what the dry run says on the same database.
pub retry_blocked_work_agrees :
    (id now : ℕ) (db : Database) {b : Bool} {db' : Database}
    → IsKeyed db
    → retry_blocked_work id now db ≡ ok (b, db')
    → b ≡ can_retry_blocked_work id db
unfolding retry_blocked_work can_retry_blocked_work
retry_blocked_work_agrees id now db {b} {db'} k e =
    let ws =
      update_rows (retryable id db) (released WorkState.pending now none none now) db.works in
    let (db1, put, done) =
      >>=-eq-ok (store_works ws db) (λ x. ok (count_rows (retryable id db) db.works == 1, x)) e in
    let q : b ≡ (count_rows (retryable id db) db.works == 1) = cc in
    rw q (
      count_rows-eq-exists_row work_key (retryable id db) id db.works
        (λ w h. unfold retryable in ground arith) k.works)

-- When a retry of a BLOCKED snapshot returns, the dry run returns the same answer.
pub retry_blocked_source_snapshot_agrees :
    (seq : ℕ) (db : Database) {b : Bool} {db' : Database}
    → retry_blocked_source_snapshot seq db ≡ ok (b, db')
    → can_retry_blocked_source_snapshot seq db ≡ ok b
unfolding retry_blocked_source_snapshot can_retry_blocked_source_snapshot reopen_snapshot
retry_blocked_source_snapshot_agrees seq db {b} {db'} e =
    elim (Option-cases (find_snapshot seq db)) [
      | inl t ↦
          let e1 = rw (t, retry_blocked_source_snapshot) at e in
          let q : b ≡ false = cc in rw (t, can_retry_blocked_source_snapshot) (rw q refl)
      | inr (row, t) ↦
          let e1 = rw (t, retry_blocked_source_snapshot) at e in
          let (s, _, e2) =
            >>=-eq-ok (lock_source_for_planning row.source_id db) (λ _. reopen_snapshot row db)
              e1 in
          rw (t, can_retry_blocked_source_snapshot) (ground arith)
    ]
