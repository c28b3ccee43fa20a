-- ===== src/Reconciler/Isolation.antt =====
-- A worker that raises, and the health that the reconciler reports.
use Prim.Native.String.{◌++◌ as append}
use lance_etl.Common.{
  ℕ, suc, ◌+◌, ◌≤◌, ◌≡◌, refl, ◌∙◌, ap, String, Bool, true, false, none, some, ok, arith, leb, ltb,
  update_rows, find_row-update_hit, find_row-hit, count_rows-eq-exists_row, pos, pos_part,
  if◌then◌else◌,
}
use lance_etl.Types.{Bytes, WorkClaim, WorkState}
use lance_etl.Types.Ids.{Uuids}
use lance_etl.Db.{Work, Database, find_work}
use lance_etl.Queue.{lease_is_current}
use lance_etl.Queue.Lease.{
  update_work, retry_work, released, bounded_error, error_code_limit, error_message_limit,
}
use lance_etl.Queue.Fencing.{perform}
use lance_etl.Queue.Evolution.Progress.{work_key, IsKeyed}
use lance_etl.Settings.{ReconcilerSettings, retry_delay, retry_cap, sampled}
use lance_etl.Reconciler.{World, Environment, met}
use lance_etl.Reconciler.Results.{validate_result}
use lance_etl.Reconciler.Dispatch.{
  Counts, Executed, raised, process_claim, execute_isolated, reconcile, reconcile_kind, call_worker,
  settle_claim,
}

-- Where a failed attempt leaves its row.
unfoldable pub exhausted : ReconcilerSettings → WorkClaim → WorkState
exhausted settings claim =
    if leb (pos_part settings.max_attempts) claim.attempt_count
    then WorkState.blocked
    else WorkState.retry_wait

-- An UPDATE of the only row of its key writes that row, and counts one.
pub update_current :
    (p : Work → Bool) (f : Work → Work) (id : ℕ) (db : Database) (row : Work)
    → IsKeyed db
    → ((w : Work) → p w ≡ true → w.work_id ≡ id)
    → ((w : Work) → (f w).work_id ≡ w.work_id)
    → find_work id db ≡ some row
    → p row ≡ true
    → (update_work p f db ≡ ok (true, record db { works = update_rows p f db.works }))
      × (find_work id (record db { works = update_rows p f db.works }) ≡ some (f row))
unfolding update_work find_work
update_current p f id db row k only keep found hit =
    let there = find_row-hit work_key id p db.works found hit in
    let once = count_rows-eq-exists_row work_key p id db.works only k.works ∙ there in
    (
      ap (λ b. ok (b, record db { works = update_rows p f db.works })) once,
      find_row-update_hit work_key id p f db.works keep found hit,
    )

-- A retry under a current lease writes its row, and says so.
pub retry_current :
    (claim : WorkClaim) (delay bound : ℕ) (code message : String) (now : ℕ) (db : Database)
    (row : Work)
    → IsKeyed db
    → find_work claim.work_id db ≡ some row
    → lease_is_current claim now db row ≡ true
    → (db' : Database) × (row' : Work) × ((retry_work claim (pos delay) code message bound now db
          ≡ ok (true, db'))
        × (find_work claim.work_id db' ≡ some row')
        × (row'.state
            ≡ (if leb bound claim.attempt_count then WorkState.blocked else WorkState.retry_wait))
        × (row'.lease_token ≡ none))
unfolding retry_work update_work find_work
retry_current claim delay bound code message now db row k found current =
    let p = lease_is_current claim now db in
    let only : (w : Work) → p w ≡ true → w.work_id ≡ claim.work_id =
      λ w h. unfold lease_is_current in ground arith in
    let state = if leb bound claim.attempt_count then WorkState.blocked else WorkState.retry_wait in
    let written =
      released state (if leb bound claim.attempt_count then now else now + delay)
        (bounded_error
          (some (if leb bound claim.attempt_count then "MAX_ATTEMPTS_EXHAUSTED" else code))
          error_code_limit)
        (bounded_error
          (some
            (if leb bound claim.attempt_count then append code (append ": " message) else message))
          error_message_limit)
        now in
    let (done, new) =
      update_current p written claim.work_id db row k only (λ w. refl) found current in
    (record db { works = update_rows p written db.works }, written row, (done, new, refl, refl))

-- A worker that raises under a current lease: its claim is counted as retried, and its row of work
-- is released, to wait for a retry or, once its attempts are used up, blocked.
pub raised_claim_retries :
    (u : Uuids) (sha256 : String → Bytes) (env : Environment) (settings : ReconcilerSettings)
    (execute : ℕ → WorkClaim → Executed) (claim : WorkClaim) (c : Counts) (w : World)
    (message : String) (row : Work)
    → IsKeyed (met env w).database
    → execute w.calls claim ≡ raised message
    → 1 ≤ claim.attempt_count
    → find_work claim.work_id (met env w).database ≡ some row
    → lease_is_current claim (env.clock w.calls) (met env w).database row ≡ true
    → ((process_claim u sha256 env settings execute claim c w).0
        ≡ record c { retried = suc c.retried })
      × ((row' : Work) × ((find_work claim.work_id
                (process_claim u sha256 env settings execute claim c w).1.database
              ≡ some row')
            × (row'.state ≡ exhausted settings claim)
            × (row'.lease_token ≡ none)))
unfolding process_claim settle_claim execute_isolated reconcile reconcile_kind call_worker perform
    validate_result exhausted retry_delay
raised_claim_retries u sha256 env settings execute claim c w message row k fails first found
      current =
    let fresh : ltb claim.attempt_count 1 ≡ false = ground arith in
    let delay =
      sampled (retry_cap settings claim.attempt_count) (
        sha256
          (append (u.uuid_text claim.work_id) (append ":" (u.int_text claim.attempt_count)))) in
    let (db', row', (done, new, state, token)) =
      retry_current claim delay (pos_part settings.max_attempts) "UNEXPECTED_WORKER_FAILURE" message
        (env.clock w.calls) (met env w).database row k found current in
    rw (fails) (rw (fresh) (rw (done) (refl, (row', (new, state, token)))))
