-- ===== src/Examples/Reconciling.antt =====
-- The reconciler on the small control plane: its settings, one cycle, and a worker that raises.
use lance_etl.Common.{
  ℕ, String, ◌≡◌, ◌≤◌, ◌+◌, ◌*◌, ◌⊎◌, ◌↔◌, refl, arith, pos, pos_part, none, some, Option, true,
  false, Bool, All, exists_row, [], ◌∷◌, ok, err, value_error,
}
use lance_etl.Types.{Bytes, WorkClaim, RoutingIdentity}
use lance_etl.Db.{Work, Publication, Database, find_work}
use lance_etl.Queue.{lease_is_current}
use lance_etl.Control.{start}
use lance_etl.Retention.{PublicationCleanup, control_plane_status}
use lance_etl.Settings.{
  ReconcilerSettings, default_settings, validate_settings, retry_delay, retry_cap,
}
use lance_etl.Settings.Bounds.{IsPositive, IsValid, validate_settings-IsValid, retry_delay_bounded}
use lance_etl.Iceberg.{SourcePlan, WindowPlan, WindowKind, SnapshotRecord}
use lance_etl.Reconciler.{World, Environment, met}
use lance_etl.Reconciler.Results.{ResultKind, WorkResult, DispatchSummary, ReconcileSummary}
use lance_etl.Reconciler.Dispatch.{
  Counts, no_counts, Executed, returned, raised, run, process_claim,
}
use lance_etl.Reconciler.Planning.{RegisteredSource, enqueue_window}
use lance_etl.Reconciler.Application.{evaluate_slo, run_once}
use lance_etl.Reconciler.Accounting.{run_accounts}
use lance_etl.Reconciler.Fences.{run_once_superseded}
use lance_etl.Reconciler.Sweep.{sweep}
use lance_etl.Reconciler.Deletions.{kept, sweep_serves}
use lance_etl.Queue.Publish.{resolve_serving_dataset}
use lance_etl.Queue.Fencing.{perform, renew}
use lance_etl.Reconciler.Isolation.{exhausted, raised_claim_retries}
use lance_etl.Reconciler.Health.{IsWithinBudget, evaluate_slo_healthy}
use lance_etl.Reconciler.Routes.{Unrepeated, place, enqueue_window-IsFed}
use lance_etl.Planning.Routes.{feeds}
use lance_etl.Examples.{empty_plane, uuids, digest, tenant}
use lance_etl.Examples.Rows.{ingest_claimed_work, live_dataset}
use lance_etl.Examples.Runs.{token, unlocked, ingest_claim, planned, ingest_claimed, live}
use lance_etl.Examples.Steps

abbrev pub half : String → Bytes
half text = 128 ∷ []

abbrev pub alone : Environment
alone = record {
  clock = λ n. n + 11;
  others = λ n db. db;
  token = λ n. token;
  locked_work = λ n. unlocked;
  locked_dataset = λ n. unlocked;
}

abbrev pub two_at_once : ReconcilerSettings
two_at_once = record default_settings { claim_batch_size = pos 2; lease_duration = pos 60 }

abbrev ingesting : WorkClaim → Executed
ingesting claim = returned (record {
  claim = claim;
  kind = ResultKind.ingest_succeeded;
  data_lance_version = some (pos 1);
  indexed_lance_version = none;
  source_row_count = some (pos 10);
  source_digest = some digest;
  candidate_lance_uri = none;
  manifest_uri = none;
  manifest_digest = none;
  publication_evidence = none;
  error_code = none;
  error_message = none;
})

abbrev at_work : World
at_work = record { database = planned; calls = 0 }

abbrev registered : RegisteredSource
registered = record { source_id = 1; table_uuid = 0 }

abbrev nothing_new : SourcePlan
nothing_new = record {
  table_uuid = "";
  pinned_head_snapshot_id = none;
  windows = [];
  planning_epoch = none;
  rejection = none;
}

abbrev pins : ℕ → String
pins id = "0123456789abcdef0123456789abcdef"

abbrev as_read : Publication → Publication → Bool
as_read p q = false

abbrev removed : ℕ → PublicationCleanup → Option String
removed n c = none

abbrev after_serving : World
after_serving = record { database = live; calls = 0 }

default-IsValid : IsValid default_settings
unfolding IsPositive
default-IsValid = record {
  claim_batch_size = (0, refl);
  max_drain_batches = (63, refl);
  max_snapshots_per_plan = (31, refl);
  max_attempts = (9, refl);
  max_due_work = (9_999, refl);
  cleanup_batch_size = (127, refl);
  poll_interval = (29_999_999, refl);
  lease_duration = (899_999_999, refl);
  lease_heartbeat_interval = (299_999_999, refl);
  max_open_work_age = (3_599_999_999, refl);
  max_retention_age = (86_399_999_999, refl);
  audit_retention = (2_591_999_999_999, refl);
  retry_base_delay = (29_999_999, refl);
  heartbeat = omega arith;
  retries = omega arith;
}

validate_settings-IsValid_example :
    ((validate_settings default_settings ≡ ok default_settings) × IsValid default_settings)
    ⊎ ((message : String) × ((validate_settings default_settings ≡ err (value_error message))
          × (¬ IsValid default_settings)))
validate_settings-IsValid_example = validate_settings-IsValid default_settings

retry_delay_bounded_example :
    ((delay : ℕ) × ((retry_delay uuids half default_settings 3 (some 28) ≡ ok delay)
        × (delay ≤ retry_cap default_settings 3)))
    × ((pos_part default_settings.retry_base_delay ≤ retry_cap default_settings 3)
        × (retry_cap default_settings 3 ≤ retry_cap default_settings 20)
        × (retry_cap default_settings 20 ≤ pos_part default_settings.retry_max_delay))
retry_delay_bounded_example =
    retry_delay_bounded uuids half default_settings 3 20 (some 28) default-IsValid
      (λ text. (omega arith, tt)) (omega arith) (omega arith)

late_after_cycle :
    perform uuids ingest_claim
      (renew (pos 5))
      15
      (run_once uuids half alone two_at_once registered
        (λ n. ingesting)
        (λ n limit. ok nothing_new)
        (sweep alone two_at_once pins as_read removed)
        after_serving).1.database
    ≡ ok (false, live)
unfolding lance_etl.Db.find_dataset lance_etl.Db.find_publication lance_etl.Db.find_snapshot
    lance_etl.Db.find_source lance_etl.Db.find_work lance_etl.Db.indexes_hold
    lance_etl.Db.insert_work lance_etl.Db.store_works
    lance_etl.Planning.Enqueue.active_spec_revision_id lance_etl.Planning.Enqueue.complete_if_empty
    lance_etl.Planning.Enqueue.dataset_row
    lance_etl.Planning.Enqueue.enqueue_blocked_source_snapshot
    lance_etl.Planning.Enqueue.enqueue_source_snapshot lance_etl.Planning.Enqueue.fill_new_snapshot
    lance_etl.Planning.Enqueue.fill_snapshot lance_etl.Planning.Enqueue.gate_inserted
    lance_etl.Planning.Enqueue.ingest_row lance_etl.Planning.Enqueue.insert_dataset
    lance_etl.Planning.Enqueue.insert_ingest_work lance_etl.Planning.Enqueue.insert_lanes
    lance_etl.Planning.Enqueue.insert_or_validate_dataset lance_etl.Planning.Enqueue.replay_snapshot
    lance_etl.Planning.Enqueue.same_dataset_set lance_etl.Planning.Enqueue.same_evidence
    lance_etl.Planning.Enqueue.same_frozen_inputs lance_etl.Planning.Enqueue.validate_all
    lance_etl.Planning.admit_plan lance_etl.Planning.advance_epoch
    lance_etl.Planning.assert_new_snapshot_extends_latest
    lance_etl.Planning.assert_source_gate_allows_snapshot lance_etl.Planning.epoch_is_stale
    lance_etl.Planning.extends_head lance_etl.Planning.insert_or_validate_snapshot
    lance_etl.Planning.known_snapshot lance_etl.Planning.latest_of
    lance_etl.Planning.lock_source_for_planning lance_etl.Planning.same_metadata
    lance_etl.Planning.snapshot_row lance_etl.Planning.source_head lance_etl.Queue.Claim.after_row
    lance_etl.Queue.Claim.claim_due_work lance_etl.Queue.Claim.claim_locked_row
    lance_etl.Queue.Claim.claim_row lance_etl.Queue.Claim.claim_rows
    lance_etl.Queue.Claim.comes_before lance_etl.Queue.Claim.insert_ordered
    lance_etl.Queue.Claim.is_claimable lance_etl.Queue.Claim.is_stale
    lance_etl.Queue.Claim.order_rows lance_etl.Queue.Claim.release_expired_leases
    lance_etl.Queue.Claim.started lance_etl.Queue.Claim.sweep_stale_work
    lance_etl.Queue.Fencing.perform lance_etl.Queue.Ingest.apply_ingest
    lance_etl.Queue.Ingest.complete_ingest lance_etl.Queue.Ingest.complete_live_ingest
    lance_etl.Queue.Ingest.complete_locked_ingest
    lance_etl.Queue.Ingest.complete_snapshot_if_applied
    lance_etl.Queue.Ingest.completed_ingest_matches lance_etl.Queue.Ingest.enqueue_publish_work
    lance_etl.Queue.Ingest.has_open_publication lance_etl.Queue.Ingest.incomplete_ingest
    lance_etl.Queue.Ingest.publish_row lance_etl.Queue.Lease.advance_phase
    lance_etl.Queue.Lease.advance_row lance_etl.Queue.Lease.block_work
    lance_etl.Queue.Lease.bounded_error lance_etl.Queue.Lease.renew_lease
    lance_etl.Queue.Lease.retry_work lance_etl.Queue.Lease.truncate
    lance_etl.Queue.Lease.update_work lance_etl.Queue.Publish.publication_row
    lance_etl.Queue.Publish.publish_dataset lance_etl.Queue.Publish.publish_live
    lance_etl.Queue.Publish.retire_previous lance_etl.Queue.Publish.served
    lance_etl.Queue.Publish.source_for_dataset lance_etl.Queue.Publish.swap_pointer
    lance_etl.Queue.Publish.validate_completed_publication
    lance_etl.Queue.Publish.validate_live_publication
    lance_etl.Queue.Publish.validate_publication_indexes
    lance_etl.Queue.Publish.validate_publication_request lance_etl.Queue.assert_expectations_match
    lance_etl.Queue.expected_state lance_etl.Queue.frozen_expectations
    lance_etl.Queue.frozen_expectations_match_dataset lance_etl.Queue.gates_lane
    lance_etl.Queue.is_due lance_etl.Queue.lane_order lance_etl.Queue.lease_is_current
    lance_etl.Queue.locked_lease_matches lance_etl.Queue.precedes lance_etl.Queue.source_gated
    lance_etl.Queue.source_snapshot_allows_work lance_etl.Reconciler.Application.age_seconds
    lance_etl.Reconciler.Application.emit_slo_status lance_etl.Reconciler.Application.evaluate_slo
    lance_etl.Reconciler.Application.gate_source_retention
    lance_etl.Reconciler.Application.plan_and_enqueue_snapshots
    lance_etl.Reconciler.Application.report lance_etl.Reconciler.Application.run_once
    lance_etl.Reconciler.Dispatch.advance_phases
    lance_etl.Reconciler.Dispatch.advance_publish_phases lance_etl.Reconciler.Dispatch.after_claims
    lance_etl.Reconciler.Dispatch.block_diverged_claim lance_etl.Reconciler.Dispatch.call_worker
    lance_etl.Reconciler.Dispatch.claim_batch lance_etl.Reconciler.Dispatch.diverge
    lance_etl.Reconciler.Dispatch.drain lance_etl.Reconciler.Dispatch.execute_isolated
    lance_etl.Reconciler.Dispatch.process_claim lance_etl.Reconciler.Dispatch.process_claims
    lance_etl.Reconciler.Dispatch.publish_result lance_etl.Reconciler.Dispatch.reconcile
    lance_etl.Reconciler.Dispatch.reconcile_kind lance_etl.Reconciler.Dispatch.run
    lance_etl.Reconciler.Dispatch.settle_claim lance_etl.Reconciler.Isolation.exhausted
    lance_etl.Reconciler.Planning.enqueue lance_etl.Reconciler.Planning.enqueue_rejection
    lance_etl.Reconciler.Planning.enqueue_window lance_etl.Reconciler.Planning.enqueue_windows
    lance_etl.Reconciler.Planning.map_datasets lance_etl.Reconciler.Planning.map_rejection
    lance_etl.Reconciler.Planning.map_snapshot lance_etl.Reconciler.Planning.map_targets
    lance_etl.Reconciler.Results.validate_result lance_etl.Reconciler.Sweep.claim_cleanups
    lance_etl.Reconciler.Sweep.finalize_all lance_etl.Reconciler.Sweep.sweep
    lance_etl.Reconciler.Sweep.sweep_claimed lance_etl.Retention.candidate_pin_name
    lance_etl.Retention.candidate_sequences lance_etl.Retention.claim_publication_cleanup
    lance_etl.Retention.cleanup_of lance_etl.Retention.cleanups_of
    lance_etl.Retention.control_plane_status lance_etl.Retention.delete_completed_audit
    lance_etl.Retention.delete_publication lance_etl.Retention.finalize_publication_cleanup
    lance_etl.Retention.in_replay_horizon lance_etl.Retention.is_prunable
    lance_etl.Retention.is_removable lance_etl.Retention.is_served lance_etl.Retention.matches_pin
    lance_etl.Retention.publication_rank lance_etl.Retention.ranked_before
    lance_etl.Retention.retention_decision lance_etl.Retention.revision_of
    lance_etl.Retention.select_retention_floor lance_etl.Retention.status_with
    lance_etl.Settings.retry_cap lance_etl.Settings.retry_delay
    lance_etl.Types.Evidence.validate_evidence lance_etl.Types.Evidence.validate_index
    lance_etl.Types.Evidence.validate_indexes lance_etl.Types.Ids.canonical
    lance_etl.Types.Ids.dataset_uri_matches_root lance_etl.Types.Ids.deterministic_dataset_id
    lance_etl.Types.Ids.deterministic_ingest_work_id
    lance_etl.Types.Ids.deterministic_publication_id
    lance_etl.Types.Ids.deterministic_publish_work_id lance_etl.Types.Ids.ingest_uri
    lance_etl.Types.Ids.strip_prefix lance_etl.Types.Ids.strip_slashes
    lance_etl.Types.Ids.validate_identity lance_etl.Types.Ids.validate_routing_segment
    lance_etl.Types.Plan.validate_plan
late_after_cycle = refl

run_once_superseded_example :
    live
    ≡ (run_once uuids half alone two_at_once registered
        (λ n. ingesting)
        (λ n limit. ok nothing_new)
        (sweep alone two_at_once pins as_read removed)
        after_serving).1.database
run_once_superseded_example =
    run_once_superseded uuids alone half two_at_once registered (λ n. ingesting)
      (λ n limit. ok nothing_new) pins as_read removed after_serving ingest_claim (renew (pos 5)) 15
      live_dataset (λ n db. start) Steps.live-IsKeyed Steps.live_found (omega arith)
      late_after_cycle

sweep_serves_example :
    resolve_serving_dataset tenant
      (sweep alone two_at_once pins as_read removed after_serving).1.database
    ≡ resolve_serving_dataset tenant live
sweep_serves_example =
    sweep_serves alone two_at_once pins as_read removed after_serving tenant (λ n db. kept)

abbrev one_ingested : DispatchSummary
one_ingested = record {
  claimed = 1;
  succeeded = 1;
  advanced = 0;
  retried = 0;
  blocked = 0;
  stale = 0;
}

drained_run : (run uuids half alone two_at_once (λ n. ingesting) at_work).0 ≡ ok one_ingested
unfolding lance_etl.Db.find_dataset lance_etl.Db.find_publication lance_etl.Db.find_source
    lance_etl.Db.find_work lance_etl.Db.indexes_hold lance_etl.Db.insert_work
    lance_etl.Db.store_works lance_etl.Queue.Claim.after_row lance_etl.Queue.Claim.claim_due_work
    lance_etl.Queue.Claim.claim_locked_row lance_etl.Queue.Claim.claim_row
    lance_etl.Queue.Claim.claim_rows lance_etl.Queue.Claim.comes_before
    lance_etl.Queue.Claim.insert_ordered lance_etl.Queue.Claim.is_claimable
    lance_etl.Queue.Claim.is_stale lance_etl.Queue.Claim.order_rows
    lance_etl.Queue.Claim.release_expired_leases lance_etl.Queue.Claim.started
    lance_etl.Queue.Claim.sweep_stale_work lance_etl.Queue.Fencing.perform
    lance_etl.Queue.Ingest.apply_ingest lance_etl.Queue.Ingest.complete_ingest
    lance_etl.Queue.Ingest.complete_live_ingest lance_etl.Queue.Ingest.complete_locked_ingest
    lance_etl.Queue.Ingest.complete_snapshot_if_applied
    lance_etl.Queue.Ingest.completed_ingest_matches lance_etl.Queue.Ingest.enqueue_publish_work
    lance_etl.Queue.Ingest.has_open_publication lance_etl.Queue.Ingest.incomplete_ingest
    lance_etl.Queue.Ingest.publish_row lance_etl.Queue.Lease.advance_phase
    lance_etl.Queue.Lease.advance_row lance_etl.Queue.Lease.block_work
    lance_etl.Queue.Lease.bounded_error lance_etl.Queue.Lease.renew_lease
    lance_etl.Queue.Lease.retry_work lance_etl.Queue.Lease.truncate
    lance_etl.Queue.Lease.update_work lance_etl.Queue.Publish.publication_row
    lance_etl.Queue.Publish.publish_dataset lance_etl.Queue.Publish.publish_live
    lance_etl.Queue.Publish.retire_previous lance_etl.Queue.Publish.served
    lance_etl.Queue.Publish.source_for_dataset lance_etl.Queue.Publish.swap_pointer
    lance_etl.Queue.Publish.validate_completed_publication
    lance_etl.Queue.Publish.validate_live_publication
    lance_etl.Queue.Publish.validate_publication_indexes
    lance_etl.Queue.Publish.validate_publication_request lance_etl.Queue.assert_expectations_match
    lance_etl.Queue.expected_state lance_etl.Queue.frozen_expectations
    lance_etl.Queue.frozen_expectations_match_dataset lance_etl.Queue.gates_lane
    lance_etl.Queue.is_due lance_etl.Queue.lane_order lance_etl.Queue.lease_is_current
    lance_etl.Queue.locked_lease_matches lance_etl.Queue.precedes lance_etl.Queue.source_gated
    lance_etl.Queue.source_snapshot_allows_work lance_etl.Reconciler.Dispatch.advance_phases
    lance_etl.Reconciler.Dispatch.advance_publish_phases lance_etl.Reconciler.Dispatch.after_claims
    lance_etl.Reconciler.Dispatch.block_diverged_claim lance_etl.Reconciler.Dispatch.call_worker
    lance_etl.Reconciler.Dispatch.claim_batch lance_etl.Reconciler.Dispatch.diverge
    lance_etl.Reconciler.Dispatch.drain lance_etl.Reconciler.Dispatch.execute_isolated
    lance_etl.Reconciler.Dispatch.process_claim lance_etl.Reconciler.Dispatch.process_claims
    lance_etl.Reconciler.Dispatch.publish_result lance_etl.Reconciler.Dispatch.reconcile
    lance_etl.Reconciler.Dispatch.reconcile_kind lance_etl.Reconciler.Dispatch.run
    lance_etl.Reconciler.Dispatch.settle_claim lance_etl.Reconciler.Isolation.exhausted
    lance_etl.Reconciler.Results.validate_result lance_etl.Settings.retry_cap
    lance_etl.Settings.retry_delay lance_etl.Types.Evidence.validate_evidence
    lance_etl.Types.Evidence.validate_index lance_etl.Types.Evidence.validate_indexes
    lance_etl.Types.Ids.dataset_uri_matches_root lance_etl.Types.Ids.deterministic_publication_id
    lance_etl.Types.Ids.deterministic_publish_work_id lance_etl.Types.Ids.ingest_uri
    lance_etl.Types.Ids.strip_slashes
drained_run = refl

run_accounts_example : (◌≡◌ {A = ℕ} 1 1) × (0 ≤ 1) × (1 ≤ 64 * 2)
run_accounts_example =
    run_accounts uuids half alone two_at_once (λ n. ingesting) at_work drained_run

abbrev pub leased : World
leased = record { database = ingest_claimed; calls = 1 }

pub claimed_found : find_work ingest_claim.work_id ingest_claimed ≡ some ingest_claimed_work
unfolding lance_etl.Db.find_work
claimed_found = refl

pub claimed_current : lease_is_current ingest_claim 12 ingest_claimed ingest_claimed_work ≡ true
unfolding lance_etl.Db.find_dataset lance_etl.Queue.lease_is_current
claimed_current = refl

raised_claim_retries_example :
    ((process_claim uuids half alone two_at_once
        (λ n claim. raised "lost")
        ingest_claim
        no_counts
        leased).0
      ≡ record no_counts { retried = 1 })
    × ((row' : Work) × ((find_work ingest_claim.work_id
              (process_claim uuids half alone two_at_once
                (λ n claim. raised "lost")
                ingest_claim
                no_counts
                leased).1.database
            ≡ some row')
          × (row'.state ≡ exhausted two_at_once ingest_claim)
          × (row'.lease_token ≡ none)))
raised_claim_retries_example =
    raised_claim_retries uuids half alone two_at_once (λ n claim. raised "lost") ingest_claim
      no_counts leased "lost" ingest_claimed_work Steps.ingest_claimed-IsKeyed refl (omega arith)
      claimed_found claimed_current

evaluate_slo_healthy_example :
    ((evaluate_slo (control_plane_status 90 planned) default_settings 90).healthy ≡ true)
    ↔ IsWithinBudget (control_plane_status 90 planned) default_settings 90
evaluate_slo_healthy_example =
    evaluate_slo_healthy (control_plane_status 90 planned) default_settings 90

abbrev first_record : SnapshotRecord
first_record = record {
  table_uuid = "t";
  snapshot_id = pos 100;
  parent_snapshot_id = none;
  sequence_number = pos 1;
  committed_at_ms = 5;
  operation = "append";
  partition_spec_id = pos 0;
  summary = [];
}

abbrev window : WindowPlan
window = record {
  snapshot = first_record;
  kind = WindowKind.baseline;
  targets = record { tenant_id = "t"; namespace = "n"; org_id = "o" } ∷ [];
}

abbrev unplanned : World
unplanned = record { database = empty_plane; calls = 0 }

window_run : (enqueue_window uuids alone default_settings registered none window unplanned).0 ≡ ok 1
unfolding lance_etl.Db.find_dataset lance_etl.Db.find_snapshot lance_etl.Db.find_source
    lance_etl.Db.find_work lance_etl.Db.indexes_hold lance_etl.Db.insert_work
    lance_etl.Db.store_works lance_etl.Planning.Enqueue.active_spec_revision_id
    lance_etl.Planning.Enqueue.complete_if_empty lance_etl.Planning.Enqueue.dataset_row
    lance_etl.Planning.Enqueue.enqueue_blocked_source_snapshot
    lance_etl.Planning.Enqueue.enqueue_source_snapshot lance_etl.Planning.Enqueue.fill_new_snapshot
    lance_etl.Planning.Enqueue.fill_snapshot lance_etl.Planning.Enqueue.gate_inserted
    lance_etl.Planning.Enqueue.ingest_row lance_etl.Planning.Enqueue.insert_dataset
    lance_etl.Planning.Enqueue.insert_ingest_work lance_etl.Planning.Enqueue.insert_lanes
    lance_etl.Planning.Enqueue.insert_or_validate_dataset lance_etl.Planning.Enqueue.replay_snapshot
    lance_etl.Planning.Enqueue.same_dataset_set lance_etl.Planning.Enqueue.same_evidence
    lance_etl.Planning.Enqueue.same_frozen_inputs lance_etl.Planning.Enqueue.validate_all
    lance_etl.Planning.admit_plan lance_etl.Planning.advance_epoch
    lance_etl.Planning.assert_new_snapshot_extends_latest
    lance_etl.Planning.assert_source_gate_allows_snapshot lance_etl.Planning.epoch_is_stale
    lance_etl.Planning.extends_head lance_etl.Planning.insert_or_validate_snapshot
    lance_etl.Planning.known_snapshot lance_etl.Planning.latest_of
    lance_etl.Planning.lock_source_for_planning lance_etl.Planning.same_metadata
    lance_etl.Planning.snapshot_row lance_etl.Planning.source_head
    lance_etl.Queue.Lease.bounded_error lance_etl.Queue.Lease.truncate
    lance_etl.Queue.frozen_expectations lance_etl.Queue.source_gated
    lance_etl.Reconciler.Planning.enqueue lance_etl.Reconciler.Planning.enqueue_rejection
    lance_etl.Reconciler.Planning.enqueue_window lance_etl.Reconciler.Planning.enqueue_windows
    lance_etl.Reconciler.Planning.map_datasets lance_etl.Reconciler.Planning.map_rejection
    lance_etl.Reconciler.Planning.map_snapshot lance_etl.Reconciler.Planning.map_targets
    lance_etl.Types.Ids.canonical lance_etl.Types.Ids.deterministic_dataset_id
    lance_etl.Types.Ids.deterministic_ingest_work_id lance_etl.Types.Ids.ingest_uri
    lance_etl.Types.Ids.strip_slashes lance_etl.Types.Ids.validate_identity
    lance_etl.Types.Ids.validate_routing_segment lance_etl.Types.Plan.validate_plan
window_run = refl

enqueue_window-IsFed_example :
    Unrepeated window.targets
    × All
        (λ t.
          exists_row
            (feeds uuids registered.source_id 1 (place t))
            (enqueue_window uuids alone default_settings registered none window
              unplanned).1.database.works
          ≡ true)
        window.targets
enqueue_window-IsFed_example =
    enqueue_window-IsFed uuids alone default_settings registered none window unplanned 1 refl
      window_run
