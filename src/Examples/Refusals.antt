-- ===== src/Examples/Refusals.antt =====
-- A worker that answers that its claim cannot be done, and one whose candidate lies outside the
-- source's root, which the repository refuses.
use lance_etl.Common.{◌≡◌, refl, pos, none, some, [], ◌∷◌, err, true, state_transition, arith}
use lance_etl.Types.{WorkClaim, WorkPhase, WorkState}
use lance_etl.Db.{Work, find_work}
use lance_etl.Queue.{lease_is_current}
use lance_etl.Queue.Lease.{bounded_error, error_code_limit}
use lance_etl.Queue.Evolution.Progress.{IsKeyed}
use lance_etl.Reconciler.{World, met}
use lance_etl.Reconciler.Results.{ResultKind, WorkResult}
use lance_etl.Reconciler.Dispatch.{
  no_counts, Counts, returned, Executed, process_claim, reconcile, execute_isolated,
}
use lance_etl.Reconciler.Blocking.{IsBlockedWith, blocked_claim_blocks, diverged_claim_blocks}
use lance_etl.Examples.{uuids, digest, evidence}
use lance_etl.Examples.Rows.{ingest_done_work, ingest_claimed_work, publish_claimed_work}
use lance_etl.Examples.Runs.{ingest_claim, publish_claim, publish_claimed}
use lance_etl.Examples.Reconciling.{
  alone, half, two_at_once, leased, claimed_found, claimed_current,
}
use lance_etl.Examples.Steps

abbrev hopeless : WorkResult
hopeless = record {
  claim = ingest_claim;
  kind = ResultKind.blocked;
  data_lance_version = none;
  indexed_lance_version = none;
  source_row_count = none;
  source_digest = none;
  candidate_lance_uri = none;
  manifest_uri = none;
  manifest_digest = none;
  publication_evidence = none;
  error_code = some "SCHEMA";
  error_message = none;
}

blocked_claim_blocks_example :
    ((process_claim uuids half alone two_at_once
        (λ n claim. returned hopeless)
        ingest_claim
        no_counts
        leased).0
      ≡ record no_counts { blocked = 1 })
    × IsBlockedWith
        (bounded_error (some "SCHEMA") error_code_limit)
        ingest_claim
        (process_claim uuids half alone two_at_once
          (λ n claim. returned hopeless)
          ingest_claim
          no_counts
          leased).1.database
blocked_claim_blocks_example =
    blocked_claim_blocks uuids half alone two_at_once (λ n claim. returned hopeless) ingest_claim
      no_counts leased ingest_claimed_work hopeless "SCHEMA" Steps.ingest_claimed-IsKeyed refl refl
      refl refl refl claimed_found claimed_current

abbrev elsewhere : WorkResult
elsewhere = record hopeless {
  claim = publish_claim;
  kind = ResultKind.publish_succeeded;
  indexed_lance_version = some (pos 1);
  candidate_lance_uri = some "s3://other/d.lance";
  manifest_uri = some "s3://lake/m";
  manifest_digest = some digest;
  publication_evidence = some evidence;
  error_code = none;
}

abbrev publishing : World
publishing = record { database = publish_claimed; calls = 2 }

abbrev prewarmed_work : Work
prewarmed_work = record publish_claimed_work {
  phase = WorkPhase.prewarm;
  candidate_lance_uri = some "s3://other/d.lance";
  candidate_lance_version = some 1;
  artifact_manifest_uri = some "s3://lake/m";
  artifact_digest = some digest;
  updated_at = 15;
}

abbrev refusing_world : World
refusing_world = record {
  database = record publish_claimed { works = ingest_done_work ∷ prewarmed_work ∷ [] };
  calls = 6;
}

refused_run :
    reconcile uuids half alone two_at_once
      (execute_isolated publish_claim (returned elsewhere))
      publishing
    ≡ (
      err (state_transition "candidate URI is outside the source-owned Lance root"),
      refusing_world,
    )
unfolding lance_etl.Db.find_dataset lance_etl.Db.find_publication lance_etl.Db.find_source
    lance_etl.Db.find_work lance_etl.Db.indexes_hold lance_etl.Db.insert_work
    lance_etl.Db.store_works lance_etl.Queue.Fencing.perform lance_etl.Queue.Ingest.apply_ingest
    lance_etl.Queue.Ingest.complete_ingest lance_etl.Queue.Ingest.complete_live_ingest
    lance_etl.Queue.Ingest.complete_locked_ingest
    lance_etl.Queue.Ingest.complete_snapshot_if_applied
    lance_etl.Queue.Ingest.completed_ingest_matches lance_etl.Queue.Ingest.enqueue_publish_work
    lance_etl.Queue.Ingest.has_open_publication lance_etl.Queue.Ingest.incomplete_ingest
    lance_etl.Queue.Ingest.publish_row lance_etl.Queue.Lease.advance_phase
    lance_etl.Queue.Lease.advance_row lance_etl.Queue.Lease.block_work
    lance_etl.Queue.Lease.bounded_error lance_etl.Queue.Lease.renew_lease
    lance_etl.Queue.Lease.retry_work lance_etl.Queue.Lease.truncate
    lance_etl.Queue.Lease.update_work lance_etl.Queue.Publish.publication_row
    lance_etl.Queue.Publish.publish_dataset lance_etl.Queue.Publish.publish_live
    lance_etl.Queue.Publish.retire_previous lance_etl.Queue.Publish.served
    lance_etl.Queue.Publish.source_for_dataset lance_etl.Queue.Publish.swap_pointer
    lance_etl.Queue.Publish.validate_completed_publication
    lance_etl.Queue.Publish.validate_live_publication
    lance_etl.Queue.Publish.validate_publication_indexes
    lance_etl.Queue.Publish.validate_publication_request lance_etl.Queue.assert_expectations_match
    lance_etl.Queue.frozen_expectations_match_dataset lance_etl.Queue.lease_is_current
    lance_etl.Queue.locked_lease_matches lance_etl.Reconciler.Dispatch.advance_phases
    lance_etl.Reconciler.Dispatch.advance_publish_phases lance_etl.Reconciler.Dispatch.call_worker
    lance_etl.Reconciler.Dispatch.execute_isolated lance_etl.Reconciler.Dispatch.publish_result
    lance_etl.Reconciler.Dispatch.reconcile lance_etl.Reconciler.Dispatch.reconcile_kind
    lance_etl.Reconciler.Isolation.exhausted lance_etl.Reconciler.Results.validate_result
    lance_etl.Settings.from_bytes lance_etl.Settings.retry_cap lance_etl.Settings.retry_delay
    lance_etl.Settings.round_half_even lance_etl.Settings.sampled
    lance_etl.Types.Evidence.validate_evidence lance_etl.Types.Evidence.validate_index
    lance_etl.Types.Evidence.validate_indexes lance_etl.Types.Ids.dataset_uri_matches_root
    lance_etl.Types.Ids.deterministic_publication_id
    lance_etl.Types.Ids.deterministic_publish_work_id lance_etl.Types.Ids.ingest_uri
    lance_etl.Types.Ids.strip_slashes
refused_run = refl

refusing-IsKeyed : IsKeyed refusing_world.database
refusing-IsKeyed = ground arith

refused_found : find_work publish_claim.work_id refusing_world.database ≡ some prewarmed_work
unfolding lance_etl.Db.find_work
refused_found = refl

refused_current : lease_is_current publish_claim 17 refusing_world.database prewarmed_work ≡ true
unfolding lance_etl.Db.find_dataset lance_etl.Queue.lease_is_current
refused_current = refl

diverged_claim_blocks_example :
    ((process_claim uuids half alone two_at_once
        (λ n claim. returned elsewhere)
        publish_claim
        no_counts
        publishing).0
      ≡ record no_counts { diverged = 1 })
    × IsBlockedWith
        (some "STATE_DIVERGENCE")
        publish_claim
        (process_claim uuids half alone two_at_once
          (λ n claim. returned elsewhere)
          publish_claim
          no_counts
          publishing).1.database
diverged_claim_blocks_example =
    diverged_claim_blocks uuids half alone two_at_once (λ n claim. returned elsewhere) publish_claim
      no_counts publishing prewarmed_work "candidate URI is outside the source-owned Lance root"
      refusing_world refused_run refusing-IsKeyed refused_found refused_current
