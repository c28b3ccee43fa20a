-- ===== src/Reconciler/Dispatch.antt =====
-- reconciler/service.py: the reconciliation of one result, and the bounded drain of the queue. The
-- worker that executes a claim is a parameter: it returns a result or raises.
use lance_etl.Common.{
  ℕ, zero, suc, ◌+◌, String, Bool, true, false, Option, none, some, List, [], ◌∷◌, Result, ok, err,
  Error, value_error, state_transition, stale_source_plan, ltb, length, if◌then◌else◌, ℤ, pos,
  pos_part,
}
use lance_etl.Types.{Bytes, WorkClaim, WorkPhase}
use lance_etl.Types.Ids.{Uuids}
use lance_etl.Queue.Lease.{Checkpoint}
use lance_etl.Queue.Claim.{claim_due_work}
use lance_etl.Queue.Fencing.{WorkerCall, advance, retry, block, complete, publish, perform}
use lance_etl.Settings.{ReconcilerSettings, retry_delay}
use lance_etl.Reconciler.{World, Step, Environment, and_then, pure, lift, transaction}
use lance_etl.Reconciler.Results.{
  ResultKind, WorkResult, validate_result, required_int, required_bytes, required_str,
  required_publication_evidence, text_or_empty, DispatchSummary,
}

-- What a worker does with a claim.
pub data Executed : Type 0 where
  returned : WorkResult → Executed
  raised : String → Executed

-- The outcome counts of `run`.
pub record Counts : Type 0 where
  pub claimed : ℕ
  pub ingests : ℕ
  pub publishes : ℕ
  pub retried : ℕ
  pub blocked : ℕ
  pub stale : ℕ
  pub diverged : ℕ

abbrev pub no_counts : Counts
no_counts = record {
  claimed = 0;
  ingests = 0;
  publishes = 0;
  retried = 0;
  blocked = 0;
  stale = 0;
  diverged = 0;
}

-- counts[result.kind] += 1
abbrev pub count_kind : ResultKind → Counts → Counts
count_kind ResultKind.ingest_succeeded c = record c { ingests = suc c.ingests }
count_kind ResultKind.publish_succeeded c = record c { publishes = suc c.publishes }
count_kind ResultKind.retry_later c = record c { retried = suc c.retried }
count_kind ResultKind.blocked c = record c { blocked = suc c.blocked }

abbrev pub count_stale : Bool → Counts → Counts
count_stale true c = c
count_stale false c = record c { stale = suc c.stale }

abbrev pub count_diverged : Counts → Counts
count_diverged c = record c { diverged = suc c.diverged }

abbrev pub failed_result : WorkClaim → String → WorkResult
failed_result claim message = record {
  claim = claim;
  kind = ResultKind.retry_later;
  data_lance_version = none;
  indexed_lance_version = none;
  source_row_count = none;
  source_digest = none;
  candidate_lance_uri = none;
  manifest_uri = none;
  manifest_digest = none;
  publication_evidence = none;
  error_code = some "UNEXPECTED_WORKER_FAILURE";
  error_message = some message;
}

unfoldable pub execute_isolated : WorkClaim → Executed → WorkResult
execute_isolated claim (returned result) = result
execute_isolated claim (raised message) = failed_result claim message

-- phases[phases.index(phase) + 1 :], which raises for a phase that is not among the four
abbrev pub phases_after : WorkPhase → Result (List WorkPhase)
phases_after WorkPhase.ingest = err (value_error "tuple.index(x): x not in tuple")
phases_after WorkPhase.compact = ok (WorkPhase.index ∷ WorkPhase.validate ∷ WorkPhase.prewarm ∷ [])
phases_after WorkPhase.index = ok (WorkPhase.validate ∷ WorkPhase.prewarm ∷ [])
phases_after WorkPhase.validate = ok (WorkPhase.prewarm ∷ [])
phases_after WorkPhase.prewarm = ok []
phases_after WorkPhase.publish = err (value_error "tuple.index(x): x not in tuple")

abbrev pub version_of : Option ℤ → Option ℕ
version_of none = none
version_of (some n) = some (pos_part n)

abbrev pub checkpoint_of : WorkResult → Checkpoint
checkpoint_of r = record {
  candidate_lance_uri = r.candidate_lance_uri;
  candidate_lance_version = version_of r.indexed_lance_version;
  artifact_manifest_uri = r.manifest_uri;
  artifact_digest = r.manifest_digest;
}

module _ (u : Uuids) (sha256 : String → Bytes) (env : Environment)
    (settings : ReconcilerSettings) where
  -- One call of the repository under a claim.
  unfoldable pub call_worker : WorkClaim → WorkerCall → Step Bool
  call_worker claim call = transaction env (λ n now db. perform u claim call now db)

  -- The loop over the phases; `return False` at the first that is not accepted.
  unfoldable pub advance_phases : WorkResult → List WorkPhase → Step Bool
  advance_phases r [] = pure true
  advance_phases r (phase ∷ phases) =
      and_then (call_worker r.claim (advance phase (checkpoint_of r)))
        (λ accepted. if accepted then advance_phases r phases else pure false)

  unfoldable pub advance_publish_phases : WorkResult → Step Bool
  advance_publish_phases r =
      and_then (lift (phases_after r.claim.phase)) (λ ps. advance_phases r ps)

  unfoldable pub publish_result : WorkResult → Bool → Step Bool
  publish_result r false = pure false
  publish_result r true = and_then (lift (required_str r.candidate_lance_uri)) (λ uri.
      and_then (lift (required_int r.indexed_lance_version)) (λ version.
        and_then (lift (required_str r.manifest_uri)) (λ manifest.
          and_then (lift (required_bytes r.manifest_digest)) (λ digest.
            and_then (lift (required_publication_evidence r.publication_evidence))
              (λ evidence. call_worker r.claim (publish uri version manifest digest evidence))))))

  unfoldable pub reconcile_kind : WorkResult → ResultKind → Step Bool
  reconcile_kind r ResultKind.ingest_succeeded =
      and_then (lift (required_int r.data_lance_version)) (λ version.
        and_then (lift (required_int r.source_row_count)) (λ rows.
          and_then (lift (required_bytes r.source_digest))
            (λ digest. call_worker r.claim (complete version rows digest))))
  reconcile_kind r ResultKind.publish_succeeded =
      and_then (advance_publish_phases r) (publish_result r)
  reconcile_kind r ResultKind.retry_later =
      and_then (lift (retry_delay u sha256 settings r.claim.attempt_count (some r.claim.work_id)))
        (λ delay. and_then (lift (required_str r.error_code)) (λ code. call_worker r.claim (
          retry (pos delay) code (text_or_empty r.error_message) (pos_part settings.max_attempts))))
  reconcile_kind r ResultKind.blocked =
      and_then (lift (required_str r.error_code))
        (λ code. call_worker r.claim (block code (text_or_empty r.error_message)))

  unfoldable pub reconcile : WorkResult → Step Bool
  reconcile r = and_then (lift (validate_result r)) (λ checked. reconcile_kind r r.kind)

  -- Best effort: what the block returns or raises is passed over.
  unfoldable pub block_diverged_claim : WorkClaim → String → World → World
  block_diverged_claim claim message w = (call_worker claim (block "STATE_DIVERGENCE" message) w).1

  -- A StateTransitionError, or its subclass for stale plans, blocks the claim.
  unfoldable pub diverge : WorkClaim → Error → World → World
  diverge claim (state_transition message) w = block_diverged_claim claim message w
  diverge claim (stale_source_plan message) w = block_diverged_claim claim message w
  diverge claim e w = w

  unfoldable pub settle_claim :
      WorkClaim → ResultKind → Counts → Result Bool × World → Counts × World
  settle_claim claim kind c (ok accepted, w) = (count_stale accepted (count_kind kind c), w)
  settle_claim claim kind c (err e, w) = (count_diverged c, diverge claim e w)

  module _ (execute : ℕ → WorkClaim → Executed) where
    unfoldable pub process_claim : WorkClaim → Counts → World → Counts × World
    process_claim claim c w =
        let result = execute_isolated claim (execute w.calls claim) in
        settle_claim claim result.kind c (reconcile result w)

    unfoldable pub process_claims : List WorkClaim → Counts → World → Counts × World
    process_claims [] c w = (c, w)
    process_claims (claim ∷ claims) c w =
        let r = process_claim claim c w in process_claims claims r.0 r.1

    unfoldable pub claim_batch : Step (List WorkClaim)
    claim_batch = transaction env (λ n now db.
        claim_due_work (env.token n) (env.locked_work n) (env.locked_dataset n)
          settings.claim_batch_size settings.lease_duration now db)

    abbrev pub plus_claimed : ℕ → Counts → Counts
    plus_claimed n c = record c { claimed = c.claimed + n }

    -- What follows the claims of one batch: none, and the loop ends; fewer than asked for, and
    -- this was the last batch.
    unfoldable pub after_claims : (Counts → Step Counts) → Counts → List WorkClaim → Step Counts
    after_claims rest c [] w = (ok c, w)
    after_claims rest c (claim ∷ claims) w =
        let r = process_claims (claim ∷ claims) (plus_claimed (length (claim ∷ claims)) c) w in
        if ltb (length (claim ∷ claims)) (pos_part settings.claim_batch_size)
        then (ok r.0, r.1)
        else rest r.0 r.1

    -- The loop over the batches that are left.
    unfoldable pub drain : ℕ → Counts → Step Counts
    drain zero c = pure c
    drain (suc n) c = and_then claim_batch (after_claims (drain n) c)

    abbrev pub summary_of : Counts → DispatchSummary
    summary_of c = record {
      claimed = c.claimed;
      succeeded = c.ingests + c.publishes;
      advanced = 0;
      retried = c.retried;
      blocked = c.blocked + c.diverged;
      stale = c.stale;
    }

    unfoldable pub run : Step DispatchSummary
    unfolding drain
    run =
        and_then (drain (pos_part settings.max_drain_batches) no_counts) (λ c. pure (summary_of c))
