-- ===== src/Reconciler/Blocking.antt =====
-- reconciler/service.py: the two ways in which the dispatcher blocks a claim.
use lance_etl.Common.{
  ℕ, suc, ◌≡◌, refl, String, true, false, Option, none, some, ok, err, arith, str_eq,
  state_transition, update_rows,
}
use lance_etl.Types.{Bytes, WorkClaim, WorkState}
use lance_etl.Types.Ids.{Uuids}
use lance_etl.Db.{Work, Database, find_work}
use lance_etl.Queue.{lease_is_current}
use lance_etl.Queue.Lease.{
  block_work, blocked_by, bounded_error, truncate, error_code_limit, error_message_limit,
}
use lance_etl.Queue.Fencing.{perform}
use lance_etl.Queue.Evolution.Progress.{IsKeyed}
use lance_etl.Settings.{ReconcilerSettings}
use lance_etl.Reconciler.{World, Environment, met}
use lance_etl.Reconciler.Results.{ResultKind, WorkResult, validate_result, text_or_empty}
use lance_etl.Reconciler.Dispatch.{
  Counts, Executed, returned, process_claim, execute_isolated, reconcile, reconcile_kind,
  call_worker, settle_claim, diverge, block_diverged_claim,
}
use lance_etl.Reconciler.Isolation.{update_current}

-- The row of the claim is blocked and released, with this error code.
unfoldable pub IsBlockedWith : Option String → WorkClaim → Database → Type 0
IsBlockedWith code claim db =
    (row : Work) × ((find_work claim.work_id db ≡ some row)
      × (row.state ≡ WorkState.blocked)
      × (row.lease_token ≡ none)
      × (row.lease_expires_at ≡ none)
      × (row.error_code ≡ code))

-- A block under a current lease writes its row, and says so.
block_current :
    (claim : WorkClaim) (code message : String) (now : ℕ) (db : Database) (row : Work)
    → IsKeyed db
    → find_work claim.work_id db ≡ some row
    → lease_is_current claim now db row ≡ true
    → (db' : Database) × ((block_work claim code message now db ≡ ok (true, db'))
        × IsBlockedWith (bounded_error (some code) error_code_limit) claim db')
unfolding block_work IsBlockedWith
block_current claim code message now db row k found current =
    let p = lease_is_current claim now db in
    let only : (w : Work) → p w ≡ true → w.work_id ≡ claim.work_id =
      λ w h. unfold lease_is_current in ground arith in
    let written =
      blocked_by (bounded_error (some code) error_code_limit)
        (bounded_error (some message) error_message_limit) now in
    let (done, new) =
      update_current p written claim.work_id db row k only (λ w. refl) found current in
    (
      record db { works = update_rows p written db.works },
      (done, (written row, (new, refl, refl, refl, refl))),
    )

module _ (u : Uuids) (sha256 : String → Bytes) (env : Environment) (settings : ReconcilerSettings)
    (execute : ℕ → WorkClaim → Executed) (claim : WorkClaim) (c : Counts) (w : World)
    (row : Work) where
  -- A worker that answers with an error code, under a current lease, that its claim cannot be done,
  -- where primary keys are unique: the claim is counted as blocked, and its row of work is blocked
  -- and released, with the error code cut to the length that its column holds.
  pub blocked_claim_blocks :
      (result : WorkResult) (code : String)
      → IsKeyed (met env w).database
      → execute w.calls claim ≡ returned result
      → result.claim ≡ claim
      → result.kind ≡ ResultKind.blocked
      → result.error_code ≡ some code
      → str_eq code "" ≡ false
      → find_work claim.work_id (met env w).database ≡ some row
      → lease_is_current claim (env.clock w.calls) (met env w).database row ≡ true
      → ((process_claim u sha256 env settings execute claim c w).0
          ≡ record c { blocked = suc c.blocked })
        × IsBlockedWith
            (bounded_error (some code) error_code_limit)
            claim
            (process_claim u sha256 env settings execute claim c w).1.database
  unfolding process_claim settle_claim execute_isolated reconcile reconcile_kind call_worker perform
      validate_result
  blocked_claim_blocks result code k answers own kind coded filled found current =
      let (db', (done, blocked)) =
        block_current claim code (text_or_empty result.error_message) (env.clock w.calls)
          (met env w).database row k found current in
      rw answers (rw (kind, coded, filled, own, done) (refl, blocked))

  -- A result that is refused with StateTransitionError, under a lease that is still current after
  -- it, where primary keys are unique: the claim is counted as diverged, and its row of work is
  -- blocked and released, with the code STATE_DIVERGENCE.
  pub diverged_claim_blocks :
      (message : String) (w' : World)
      → reconcile u sha256 env settings (execute_isolated claim (execute w.calls claim)) w
        ≡ (err (state_transition message), w')
      → IsKeyed (met env w').database
      → find_work claim.work_id (met env w').database ≡ some row
      → lease_is_current claim (env.clock w'.calls) (met env w').database row ≡ true
      → ((process_claim u sha256 env settings execute claim c w).0
          ≡ record c { diverged = suc c.diverged })
        × IsBlockedWith
            (some "STATE_DIVERGENCE")
            claim
            (process_claim u sha256 env settings execute claim c w).1.database
  unfolding process_claim settle_claim diverge block_diverged_claim call_worker perform
      bounded_error truncate
  diverged_claim_blocks message w' refused k found current =
      let (db', (done, blocked)) =
        block_current claim "STATE_DIVERGENCE" message (env.clock w'.calls) (met env w').database
          row k found current in
      rw refused (rw done (refl, blocked))
