-- ===== src/Examples/Steps.antt =====
-- What the runs return, computed.
use lance_etl.Common.{◌≡◌, refl, arith, pos, none, some, true, false, [], ◌∷◌, ok}
use lance_etl.Db.{find_dataset, find_work, find_snapshot, find_source}
use lance_etl.Queue.{holds_fence, source_gated}
use lance_etl.Queue.Lease.{retry_blocked_work}
use lance_etl.Queue.Ingest.{complete_ingest}
use lance_etl.Queue.Publish.{publish_dataset, resolve_serving_dataset, on_route}
use lance_etl.Queue.Fencing.{renew, complete, publish, perform}
use lance_etl.Queue.Evolution.Progress.{IsKeyed}
use lance_etl.Planning.Enqueue.{enqueue_source_snapshot, enqueue_blocked_source_snapshot}
use lance_etl.Planning.Gate.{block_source_snapshot, retry_blocked_source_snapshot}
use lance_etl.Specs.{activate_spec_revision}
use lance_etl.Examples.{uuids, tenant, empty_plane, baseline, digest, evidence}
use lance_etl.Control.{transact, worker, claim_due, retry_snapshot}
use lance_etl.Examples.Rows.{
  planned_snapshot, planned_source, gated_source, publish_claimed_dataset, live_dataset,
  live_publication, ingest_done_work,
}
use lance_etl.Examples.Runs.{
  token, unlocked, claim_at, ingest_claim, publish_claim, second, refused, planned, ingest_claimed,
  ingest_done, publish_claimed, live, gated, reopened, work_blocked, work_retried, extended,
  refusing, drafted, activated,
}

pub planned_run :
    enqueue_source_snapshot uuids baseline (tenant ∷ []) 10 empty_plane ≡ ok (1, planned)
unfolding lance_etl.Db.find_dataset lance_etl.Db.find_snapshot lance_etl.Db.find_source
    lance_etl.Db.find_work lance_etl.Db.indexes_hold lance_etl.Db.insert_work
    lance_etl.Db.store_works lance_etl.Planning.Enqueue.active_spec_revision_id
    lance_etl.Planning.Enqueue.complete_if_empty lance_etl.Planning.Enqueue.dataset_row
    lance_etl.Planning.Enqueue.enqueue_blocked_source_snapshot
    lance_etl.Planning.Enqueue.enqueue_source_snapshot lance_etl.Planning.Enqueue.fill_new_snapshot
    lance_etl.Planning.Enqueue.fill_snapshot lance_etl.Planning.Enqueue.gate_inserted
    lance_etl.Planning.Enqueue.ingest_row lance_etl.Planning.Enqueue.insert_dataset
    lance_etl.Planning.Enqueue.insert_ingest_work lance_etl.Planning.Enqueue.insert_lanes
    lance_etl.Planning.Enqueue.insert_or_validate_dataset lance_etl.Planning.Enqueue.replay_snapshot
    lance_etl.Planning.Enqueue.same_dataset_set lance_etl.Planning.Enqueue.same_evidence
    lance_etl.Planning.Enqueue.same_frozen_inputs lance_etl.Planning.Enqueue.validate_all
    lance_etl.Planning.admit_plan lance_etl.Planning.advance_epoch
    lance_etl.Planning.assert_new_snapshot_extends_latest
    lance_etl.Planning.assert_source_gate_allows_snapshot lance_etl.Planning.epoch_is_stale
    lance_etl.Planning.extends_head lance_etl.Planning.insert_or_validate_snapshot
    lance_etl.Planning.known_snapshot lance_etl.Planning.latest_of
    lance_etl.Planning.lock_source_for_planning lance_etl.Planning.same_metadata
    lance_etl.Planning.snapshot_row lance_etl.Planning.source_head
    lance_etl.Queue.Lease.bounded_error lance_etl.Queue.Lease.truncate
    lance_etl.Queue.frozen_expectations lance_etl.Queue.source_gated lance_etl.Types.Ids.canonical
    lance_etl.Types.Ids.deterministic_dataset_id lance_etl.Types.Ids.deterministic_ingest_work_id
    lance_etl.Types.Ids.ingest_uri lance_etl.Types.Ids.strip_slashes
    lance_etl.Types.Ids.validate_identity lance_etl.Types.Ids.validate_routing_segment
    lance_etl.Types.Plan.validate_plan
planned_run = refl

pub ingest_claimed_run : claim_at 11 planned ≡ ok (ingest_claim ∷ [], ingest_claimed)
unfolding lance_etl.Db.find_dataset lance_etl.Db.indexes_hold lance_etl.Db.store_works
    lance_etl.Queue.Claim.after_row lance_etl.Queue.Claim.claim_due_work
    lance_etl.Queue.Claim.claim_locked_row lance_etl.Queue.Claim.claim_row
    lance_etl.Queue.Claim.claim_rows lance_etl.Queue.Claim.comes_before
    lance_etl.Queue.Claim.insert_ordered lance_etl.Queue.Claim.is_claimable
    lance_etl.Queue.Claim.is_stale lance_etl.Queue.Claim.order_rows
    lance_etl.Queue.Claim.release_expired_leases lance_etl.Queue.Claim.started
    lance_etl.Queue.Claim.sweep_stale_work lance_etl.Queue.Lease.bounded_error
    lance_etl.Queue.Lease.truncate lance_etl.Queue.expected_state
    lance_etl.Queue.frozen_expectations lance_etl.Queue.frozen_expectations_match_dataset
    lance_etl.Queue.gates_lane lance_etl.Queue.is_due lance_etl.Queue.lane_order
    lance_etl.Queue.precedes lance_etl.Queue.source_gated
    lance_etl.Queue.source_snapshot_allows_work
ingest_claimed_run = refl

pub ingest_done_run :
    complete_ingest uuids ingest_claim (pos 1) (pos 10) digest 12 ingest_claimed
    ≡ ok (true, ingest_done)
unfolding lance_etl.Db.find_dataset lance_etl.Db.find_work lance_etl.Db.indexes_hold
    lance_etl.Db.insert_work lance_etl.Db.store_works lance_etl.Queue.Ingest.apply_ingest
    lance_etl.Queue.Ingest.complete_ingest lance_etl.Queue.Ingest.complete_live_ingest
    lance_etl.Queue.Ingest.complete_locked_ingest
    lance_etl.Queue.Ingest.complete_snapshot_if_applied
    lance_etl.Queue.Ingest.completed_ingest_matches lance_etl.Queue.Ingest.enqueue_publish_work
    lance_etl.Queue.Ingest.has_open_publication lance_etl.Queue.Ingest.incomplete_ingest
    lance_etl.Queue.Ingest.publish_row lance_etl.Queue.assert_expectations_match
    lance_etl.Queue.frozen_expectations_match_dataset lance_etl.Queue.locked_lease_matches
    lance_etl.Types.Ids.deterministic_publish_work_id
ingest_done_run = refl

pub publish_claimed_run : claim_at 13 ingest_done ≡ ok (publish_claim ∷ [], publish_claimed)
unfolding lance_etl.Db.find_dataset lance_etl.Db.indexes_hold lance_etl.Db.store_works
    lance_etl.Queue.Claim.after_row lance_etl.Queue.Claim.claim_due_work
    lance_etl.Queue.Claim.claim_locked_row lance_etl.Queue.Claim.claim_row
    lance_etl.Queue.Claim.claim_rows lance_etl.Queue.Claim.comes_before
    lance_etl.Queue.Claim.insert_ordered lance_etl.Queue.Claim.is_claimable
    lance_etl.Queue.Claim.is_stale lance_etl.Queue.Claim.order_rows
    lance_etl.Queue.Claim.release_expired_leases lance_etl.Queue.Claim.started
    lance_etl.Queue.Claim.sweep_stale_work lance_etl.Queue.Lease.bounded_error
    lance_etl.Queue.Lease.truncate lance_etl.Queue.expected_state
    lance_etl.Queue.frozen_expectations lance_etl.Queue.frozen_expectations_match_dataset
    lance_etl.Queue.gates_lane lance_etl.Queue.is_due lance_etl.Queue.lane_order
    lance_etl.Queue.precedes lance_etl.Queue.source_gated
    lance_etl.Queue.source_snapshot_allows_work
publish_claimed_run = refl

pub live_run :
    publish_dataset uuids publish_claim publish_claim.ingest_lance_uri
      (pos 1)
      "s3://lake/m"
      digest
      evidence
      14
      publish_claimed
    ≡ ok (true, live)
unfolding lance_etl.Db.find_dataset lance_etl.Db.find_publication lance_etl.Db.find_source
    lance_etl.Db.find_work lance_etl.Queue.Publish.publication_row
    lance_etl.Queue.Publish.publish_dataset lance_etl.Queue.Publish.publish_live
    lance_etl.Queue.Publish.retire_previous lance_etl.Queue.Publish.served
    lance_etl.Queue.Publish.source_for_dataset lance_etl.Queue.Publish.swap_pointer
    lance_etl.Queue.Publish.validate_completed_publication
    lance_etl.Queue.Publish.validate_live_publication
    lance_etl.Queue.Publish.validate_publication_indexes
    lance_etl.Queue.Publish.validate_publication_request lance_etl.Queue.assert_expectations_match
    lance_etl.Queue.frozen_expectations_match_dataset lance_etl.Queue.locked_lease_matches
    lance_etl.Types.Evidence.validate_evidence lance_etl.Types.Evidence.validate_index
    lance_etl.Types.Evidence.validate_indexes lance_etl.Types.Ids.dataset_uri_matches_root
    lance_etl.Types.Ids.deterministic_publication_id lance_etl.Types.Ids.ingest_uri
    lance_etl.Types.Ids.strip_slashes
live_run = refl

pub gated_run : block_source_snapshot 1 "SCHEMA" none none 15 planned ≡ ok (true, gated)
unfolding lance_etl.Db.find_snapshot lance_etl.Db.find_source
    lance_etl.Planning.Enqueue.same_evidence lance_etl.Planning.Gate.block_locked_snapshot
    lance_etl.Planning.Gate.block_source_snapshot lance_etl.Planning.Gate.close_gate
    lance_etl.Planning.advance_epoch lance_etl.Planning.lock_source_for_planning
    lance_etl.Queue.Lease.bounded_error lance_etl.Queue.Lease.truncate
gated_run = refl

pub reopened_run : retry_blocked_source_snapshot 1 gated ≡ ok (true, reopened)
unfolding lance_etl.Db.find_snapshot lance_etl.Db.find_source
    lance_etl.Planning.Gate.reopen_snapshot lance_etl.Planning.Gate.retry_blocked_source_snapshot
    lance_etl.Planning.advance_epoch lance_etl.Planning.lock_source_for_planning
    lance_etl.Queue.Ingest.incomplete_ingest
reopened_run = refl

pub work_retried_run : retry_blocked_work 28 13 work_blocked ≡ ok (true, work_retried)
unfolding lance_etl.Db.indexes_hold lance_etl.Db.store_works
    lance_etl.Queue.Lease.retry_blocked_work lance_etl.Queue.Lease.retryable
    lance_etl.Queue.source_gated lance_etl.Queue.source_snapshot_allows_work
work_retried_run = refl

pub extended_run : enqueue_source_snapshot uuids second (tenant ∷ []) 16 planned ≡ ok (2, extended)
unfolding lance_etl.Db.find_dataset lance_etl.Db.find_snapshot lance_etl.Db.find_source
    lance_etl.Db.find_work lance_etl.Db.indexes_hold lance_etl.Db.insert_work
    lance_etl.Db.store_works lance_etl.Planning.Enqueue.active_spec_revision_id
    lance_etl.Planning.Enqueue.complete_if_empty lance_etl.Planning.Enqueue.dataset_row
    lance_etl.Planning.Enqueue.enqueue_blocked_source_snapshot
    lance_etl.Planning.Enqueue.enqueue_source_snapshot lance_etl.Planning.Enqueue.fill_new_snapshot
    lance_etl.Planning.Enqueue.fill_snapshot lance_etl.Planning.Enqueue.gate_inserted
    lance_etl.Planning.Enqueue.ingest_row lance_etl.Planning.Enqueue.insert_dataset
    lance_etl.Planning.Enqueue.insert_ingest_work lance_etl.Planning.Enqueue.insert_lanes
    lance_etl.Planning.Enqueue.insert_or_validate_dataset lance_etl.Planning.Enqueue.replay_snapshot
    lance_etl.Planning.Enqueue.same_dataset_set lance_etl.Planning.Enqueue.same_evidence
    lance_etl.Planning.Enqueue.same_frozen_inputs lance_etl.Planning.Enqueue.validate_all
    lance_etl.Planning.admit_plan lance_etl.Planning.advance_epoch
    lance_etl.Planning.assert_new_snapshot_extends_latest
    lance_etl.Planning.assert_source_gate_allows_snapshot lance_etl.Planning.epoch_is_stale
    lance_etl.Planning.extends_head lance_etl.Planning.insert_or_validate_snapshot
    lance_etl.Planning.known_snapshot lance_etl.Planning.latest_of
    lance_etl.Planning.lock_source_for_planning lance_etl.Planning.same_metadata
    lance_etl.Planning.snapshot_row lance_etl.Planning.source_head
    lance_etl.Queue.Lease.bounded_error lance_etl.Queue.Lease.truncate
    lance_etl.Queue.frozen_expectations lance_etl.Queue.source_gated lance_etl.Types.Ids.canonical
    lance_etl.Types.Ids.deterministic_dataset_id lance_etl.Types.Ids.deterministic_ingest_work_id
    lance_etl.Types.Ids.ingest_uri lance_etl.Types.Ids.strip_slashes
    lance_etl.Types.Ids.validate_identity lance_etl.Types.Ids.validate_routing_segment
    lance_etl.Types.Plan.validate_plan
extended_run = refl

pub refusing_run :
    enqueue_blocked_source_snapshot refused "DELETE" none 16 planned ≡ ok (2, refusing)
unfolding lance_etl.Db.find_snapshot lance_etl.Db.find_source
    lance_etl.Planning.Enqueue.enqueue_blocked_source_snapshot
    lance_etl.Planning.Enqueue.gate_inserted lance_etl.Planning.Enqueue.same_evidence
    lance_etl.Planning.admit_plan lance_etl.Planning.advance_epoch
    lance_etl.Planning.assert_new_snapshot_extends_latest
    lance_etl.Planning.assert_source_gate_allows_snapshot lance_etl.Planning.epoch_is_stale
    lance_etl.Planning.extends_head lance_etl.Planning.insert_or_validate_snapshot
    lance_etl.Planning.known_snapshot lance_etl.Planning.latest_of
    lance_etl.Planning.lock_source_for_planning lance_etl.Planning.same_metadata
    lance_etl.Planning.snapshot_row lance_etl.Planning.source_head
    lance_etl.Queue.Lease.bounded_error lance_etl.Queue.Lease.truncate lance_etl.Queue.source_gated
    lance_etl.Types.Plan.validate_plan
refusing_run = refl

pub replayed_run : enqueue_source_snapshot uuids baseline (tenant ∷ []) 17 gated ≡ ok (1, gated)
unfolding lance_etl.Db.find_dataset lance_etl.Db.find_snapshot lance_etl.Db.find_source
    lance_etl.Db.find_work lance_etl.Db.indexes_hold lance_etl.Db.insert_work
    lance_etl.Db.store_works lance_etl.Planning.Enqueue.active_spec_revision_id
    lance_etl.Planning.Enqueue.complete_if_empty lance_etl.Planning.Enqueue.dataset_row
    lance_etl.Planning.Enqueue.enqueue_blocked_source_snapshot
    lance_etl.Planning.Enqueue.enqueue_source_snapshot lance_etl.Planning.Enqueue.fill_new_snapshot
    lance_etl.Planning.Enqueue.fill_snapshot lance_etl.Planning.Enqueue.gate_inserted
    lance_etl.Planning.Enqueue.ingest_row lance_etl.Planning.Enqueue.insert_dataset
    lance_etl.Planning.Enqueue.insert_ingest_work lance_etl.Planning.Enqueue.insert_lanes
    lance_etl.Planning.Enqueue.insert_or_validate_dataset lance_etl.Planning.Enqueue.replay_snapshot
    lance_etl.Planning.Enqueue.same_dataset_set lance_etl.Planning.Enqueue.same_evidence
    lance_etl.Planning.Enqueue.same_frozen_inputs lance_etl.Planning.Enqueue.validate_all
    lance_etl.Planning.admit_plan lance_etl.Planning.advance_epoch
    lance_etl.Planning.assert_new_snapshot_extends_latest
    lance_etl.Planning.assert_source_gate_allows_snapshot lance_etl.Planning.epoch_is_stale
    lance_etl.Planning.extends_head lance_etl.Planning.insert_or_validate_snapshot
    lance_etl.Planning.known_snapshot lance_etl.Planning.latest_of
    lance_etl.Planning.lock_source_for_planning lance_etl.Planning.same_metadata
    lance_etl.Planning.snapshot_row lance_etl.Planning.source_head
    lance_etl.Queue.Lease.bounded_error lance_etl.Queue.Lease.truncate
    lance_etl.Queue.frozen_expectations lance_etl.Queue.source_gated lance_etl.Types.Ids.canonical
    lance_etl.Types.Ids.deterministic_dataset_id lance_etl.Types.Ids.deterministic_ingest_work_id
    lance_etl.Types.Ids.ingest_uri lance_etl.Types.Ids.strip_slashes
    lance_etl.Types.Ids.validate_identity lance_etl.Types.Ids.validate_routing_segment
    lance_etl.Types.Plan.validate_plan
replayed_run = refl

pub activated_run : activate_spec_revision 6 17 drafted ≡ ok activated
unfolding lance_etl.Specs.activate_found lance_etl.Specs.activate_spec_revision
    lance_etl.Specs.swap_active
activated_run = refl

pub resolved_run :
    resolve_serving_dataset tenant live
    ≡ ok (
        some (record {
          dataset_id = 31;
          identity = tenant;
          lance_uri = live_publication.lance_uri;
          lance_version = 1;
          publication_id = live_publication.publication_id;
        }))
unfolding lance_etl.Db.find_source lance_etl.Queue.Publish.on_route
    lance_etl.Queue.Publish.resolve_serving_dataset lance_etl.Queue.Publish.serving_result
    lance_etl.Queue.Publish.serving_rows lance_etl.Types.Ids.validate_identity
    lance_etl.Types.Ids.validate_routing_segment
resolved_run = refl

pub late_run : perform uuids ingest_claim (renew (pos 5)) 15 live ≡ ok (false, live)
unfolding lance_etl.Db.find_dataset lance_etl.Db.find_publication lance_etl.Db.find_source
    lance_etl.Db.find_work lance_etl.Db.indexes_hold lance_etl.Db.insert_work
    lance_etl.Db.store_works lance_etl.Queue.Fencing.perform lance_etl.Queue.Ingest.apply_ingest
    lance_etl.Queue.Ingest.complete_ingest lance_etl.Queue.Ingest.complete_live_ingest
    lance_etl.Queue.Ingest.complete_locked_ingest
    lance_etl.Queue.Ingest.complete_snapshot_if_applied
    lance_etl.Queue.Ingest.completed_ingest_matches lance_etl.Queue.Ingest.enqueue_publish_work
    lance_etl.Queue.Ingest.has_open_publication lance_etl.Queue.Ingest.incomplete_ingest
    lance_etl.Queue.Ingest.publish_row lance_etl.Queue.Lease.advance_phase
    lance_etl.Queue.Lease.advance_row lance_etl.Queue.Lease.block_work
    lance_etl.Queue.Lease.bounded_error lance_etl.Queue.Lease.renew_lease
    lance_etl.Queue.Lease.retry_work lance_etl.Queue.Lease.truncate
    lance_etl.Queue.Lease.update_work lance_etl.Queue.Publish.publication_row
    lance_etl.Queue.Publish.publish_dataset lance_etl.Queue.Publish.publish_live
    lance_etl.Queue.Publish.retire_previous lance_etl.Queue.Publish.served
    lance_etl.Queue.Publish.source_for_dataset lance_etl.Queue.Publish.swap_pointer
    lance_etl.Queue.Publish.validate_completed_publication
    lance_etl.Queue.Publish.validate_live_publication
    lance_etl.Queue.Publish.validate_publication_indexes
    lance_etl.Queue.Publish.validate_publication_request lance_etl.Queue.assert_expectations_match
    lance_etl.Queue.frozen_expectations_match_dataset lance_etl.Queue.lease_is_current
    lance_etl.Queue.locked_lease_matches lance_etl.Types.Evidence.validate_evidence
    lance_etl.Types.Evidence.validate_index lance_etl.Types.Evidence.validate_indexes
    lance_etl.Types.Ids.dataset_uri_matches_root lance_etl.Types.Ids.deterministic_publication_id
    lance_etl.Types.Ids.deterministic_publish_work_id lance_etl.Types.Ids.ingest_uri
    lance_etl.Types.Ids.strip_slashes
late_run = refl

pub fence_lost : holds_fence ingest_claim (find_dataset ingest_claim.dataset_id live) ≡ false
unfolding lance_etl.Db.find_dataset
fence_lost = refl

pub fenced_found :
    find_dataset ingest_claim.dataset_id publish_claimed ≡ some publish_claimed_dataset
unfolding lance_etl.Db.find_dataset
fenced_found = refl

pub live_found : find_dataset 31 live ≡ some live_dataset
unfolding lance_etl.Db.find_dataset
live_found = refl

pub live_routed : on_route tenant live live_dataset ≡ true
unfolding lance_etl.Db.find_source lance_etl.Queue.Publish.on_route
live_routed = refl

pub ingested_found : find_work 28 ingest_done ≡ some ingest_done_work
unfolding lance_etl.Db.find_work
ingested_found = refl

pub snapshot_found : find_snapshot 1 planned ≡ some planned_snapshot
unfolding lance_etl.Db.find_snapshot
snapshot_found = refl

pub source_found : find_source 1 planned ≡ some planned_source
unfolding lance_etl.Db.find_source
source_found = refl

pub gated_source_found : find_source 1 gated ≡ some gated_source
unfolding lance_etl.Db.find_source
gated_source_found = refl

pub source_is_gated : source_gated gated 1 ≡ true
unfolding lance_etl.Queue.source_gated
source_is_gated = refl

pub transact-ingest_done :
    transact uuids (worker ingest_claim (complete (pos 1) (pos 10) digest)) 12 ingest_claimed
    ≡ ok ingest_done
unfolding lance_etl.Control.transact lance_etl.Db.find_dataset lance_etl.Db.find_publication
    lance_etl.Db.find_snapshot lance_etl.Db.find_source lance_etl.Db.find_work
    lance_etl.Db.indexes_hold lance_etl.Db.insert_work lance_etl.Db.store_works
    lance_etl.Planning.Enqueue.active_spec_revision_id lance_etl.Planning.Enqueue.complete_if_empty
    lance_etl.Planning.Enqueue.dataset_row
    lance_etl.Planning.Enqueue.enqueue_blocked_source_snapshot
    lance_etl.Planning.Enqueue.enqueue_source_snapshot lance_etl.Planning.Enqueue.fill_new_snapshot
    lance_etl.Planning.Enqueue.fill_snapshot lance_etl.Planning.Enqueue.gate_inserted
    lance_etl.Planning.Enqueue.ingest_row lance_etl.Planning.Enqueue.insert_dataset
    lance_etl.Planning.Enqueue.insert_ingest_work lance_etl.Planning.Enqueue.insert_lanes
    lance_etl.Planning.Enqueue.insert_or_validate_dataset lance_etl.Planning.Enqueue.replay_snapshot
    lance_etl.Planning.Enqueue.same_dataset_set lance_etl.Planning.Enqueue.same_evidence
    lance_etl.Planning.Enqueue.same_frozen_inputs lance_etl.Planning.Enqueue.validate_all
    lance_etl.Planning.Gate.block_locked_snapshot lance_etl.Planning.Gate.block_source_snapshot
    lance_etl.Planning.Gate.close_gate lance_etl.Planning.Gate.reopen_snapshot
    lance_etl.Planning.Gate.retry_blocked_source_snapshot lance_etl.Planning.admit_plan
    lance_etl.Planning.advance_epoch lance_etl.Planning.assert_new_snapshot_extends_latest
    lance_etl.Planning.assert_source_gate_allows_snapshot lance_etl.Planning.epoch_is_stale
    lance_etl.Planning.extends_head lance_etl.Planning.insert_or_validate_snapshot
    lance_etl.Planning.known_snapshot lance_etl.Planning.latest_of
    lance_etl.Planning.lock_source_for_planning lance_etl.Planning.same_metadata
    lance_etl.Planning.snapshot_row lance_etl.Planning.source_head lance_etl.Queue.Claim.after_row
    lance_etl.Queue.Claim.claim_due_work lance_etl.Queue.Claim.claim_locked_row
    lance_etl.Queue.Claim.claim_row lance_etl.Queue.Claim.claim_rows
    lance_etl.Queue.Claim.comes_before lance_etl.Queue.Claim.insert_ordered
    lance_etl.Queue.Claim.is_claimable lance_etl.Queue.Claim.is_stale
    lance_etl.Queue.Claim.order_rows lance_etl.Queue.Claim.release_expired_leases
    lance_etl.Queue.Claim.started lance_etl.Queue.Claim.sweep_stale_work
    lance_etl.Queue.Fencing.perform lance_etl.Queue.Ingest.apply_ingest
    lance_etl.Queue.Ingest.complete_ingest lance_etl.Queue.Ingest.complete_live_ingest
    lance_etl.Queue.Ingest.complete_locked_ingest
    lance_etl.Queue.Ingest.complete_snapshot_if_applied
    lance_etl.Queue.Ingest.completed_ingest_matches lance_etl.Queue.Ingest.enqueue_publish_work
    lance_etl.Queue.Ingest.has_open_publication lance_etl.Queue.Ingest.incomplete_ingest
    lance_etl.Queue.Ingest.publish_row lance_etl.Queue.Lease.advance_phase
    lance_etl.Queue.Lease.advance_row lance_etl.Queue.Lease.block_work
    lance_etl.Queue.Lease.bounded_error lance_etl.Queue.Lease.renew_lease
    lance_etl.Queue.Lease.retry_blocked_work lance_etl.Queue.Lease.retry_work
    lance_etl.Queue.Lease.retryable lance_etl.Queue.Lease.truncate lance_etl.Queue.Lease.update_work
    lance_etl.Queue.Publish.on_route lance_etl.Queue.Publish.publication_row
    lance_etl.Queue.Publish.publish_dataset lance_etl.Queue.Publish.publish_live
    lance_etl.Queue.Publish.retire_previous lance_etl.Queue.Publish.served
    lance_etl.Queue.Publish.source_for_dataset lance_etl.Queue.Publish.swap_pointer
    lance_etl.Queue.Publish.validate_completed_publication
    lance_etl.Queue.Publish.validate_live_publication
    lance_etl.Queue.Publish.validate_publication_indexes
    lance_etl.Queue.Publish.validate_publication_request lance_etl.Queue.assert_expectations_match
    lance_etl.Queue.expected_state lance_etl.Queue.frozen_expectations
    lance_etl.Queue.frozen_expectations_match_dataset lance_etl.Queue.gates_lane
    lance_etl.Queue.is_due lance_etl.Queue.lane_order lance_etl.Queue.lease_is_current
    lance_etl.Queue.locked_lease_matches lance_etl.Queue.precedes lance_etl.Queue.source_gated
    lance_etl.Queue.source_snapshot_allows_work lance_etl.Specs.activate_found
    lance_etl.Specs.activate_spec_revision lance_etl.Specs.assign_dataset_spec_revision
    lance_etl.Specs.converge lance_etl.Specs.dataset_and_state_for_identity
    lance_etl.Specs.desire_revision lance_etl.Specs.enqueue_rebuild lance_etl.Specs.materialized_seq
    lance_etl.Specs.rebuild_row lance_etl.Specs.set_source_default_spec lance_etl.Specs.sole_row
    lance_etl.Specs.swap_active lance_etl.Types.Evidence.validate_evidence
    lance_etl.Types.Evidence.validate_index lance_etl.Types.Evidence.validate_indexes
    lance_etl.Types.Ids.canonical lance_etl.Types.Ids.dataset_uri_matches_root
    lance_etl.Types.Ids.deterministic_dataset_id lance_etl.Types.Ids.deterministic_ingest_work_id
    lance_etl.Types.Ids.deterministic_publication_id
    lance_etl.Types.Ids.deterministic_publish_work_id
    lance_etl.Types.Ids.deterministic_rebuild_work_id lance_etl.Types.Ids.ingest_uri
    lance_etl.Types.Ids.rebuild_uri lance_etl.Types.Ids.strip_slashes
    lance_etl.Types.Ids.validate_identity lance_etl.Types.Ids.validate_routing_segment
    lance_etl.Types.Plan.validate_plan
transact-ingest_done = refl

pub transact-publish_claimed :
    transact uuids (claim_due token unlocked unlocked (pos 2) (pos 60)) 13 ingest_done
    ≡ ok publish_claimed
unfolding lance_etl.Control.transact lance_etl.Db.find_dataset lance_etl.Db.find_publication
    lance_etl.Db.find_snapshot lance_etl.Db.find_source lance_etl.Db.find_work
    lance_etl.Db.indexes_hold lance_etl.Db.insert_work lance_etl.Db.store_works
    lance_etl.Planning.Enqueue.active_spec_revision_id lance_etl.Planning.Enqueue.complete_if_empty
    lance_etl.Planning.Enqueue.dataset_row
    lance_etl.Planning.Enqueue.enqueue_blocked_source_snapshot
    lance_etl.Planning.Enqueue.enqueue_source_snapshot lance_etl.Planning.Enqueue.fill_new_snapshot
    lance_etl.Planning.Enqueue.fill_snapshot lance_etl.Planning.Enqueue.gate_inserted
    lance_etl.Planning.Enqueue.ingest_row lance_etl.Planning.Enqueue.insert_dataset
    lance_etl.Planning.Enqueue.insert_ingest_work lance_etl.Planning.Enqueue.insert_lanes
    lance_etl.Planning.Enqueue.insert_or_validate_dataset lance_etl.Planning.Enqueue.replay_snapshot
    lance_etl.Planning.Enqueue.same_dataset_set lance_etl.Planning.Enqueue.same_evidence
    lance_etl.Planning.Enqueue.same_frozen_inputs lance_etl.Planning.Enqueue.validate_all
    lance_etl.Planning.Gate.block_locked_snapshot lance_etl.Planning.Gate.block_source_snapshot
    lance_etl.Planning.Gate.close_gate lance_etl.Planning.Gate.reopen_snapshot
    lance_etl.Planning.Gate.retry_blocked_source_snapshot lance_etl.Planning.admit_plan
    lance_etl.Planning.advance_epoch lance_etl.Planning.assert_new_snapshot_extends_latest
    lance_etl.Planning.assert_source_gate_allows_snapshot lance_etl.Planning.epoch_is_stale
    lance_etl.Planning.extends_head lance_etl.Planning.insert_or_validate_snapshot
    lance_etl.Planning.known_snapshot lance_etl.Planning.latest_of
    lance_etl.Planning.lock_source_for_planning lance_etl.Planning.same_metadata
    lance_etl.Planning.snapshot_row lance_etl.Planning.source_head lance_etl.Queue.Claim.after_row
    lance_etl.Queue.Claim.claim_due_work lance_etl.Queue.Claim.claim_locked_row
    lance_etl.Queue.Claim.claim_row lance_etl.Queue.Claim.claim_rows
    lance_etl.Queue.Claim.comes_before lance_etl.Queue.Claim.insert_ordered
    lance_etl.Queue.Claim.is_claimable lance_etl.Queue.Claim.is_stale
    lance_etl.Queue.Claim.order_rows lance_etl.Queue.Claim.release_expired_leases
    lance_etl.Queue.Claim.started lance_etl.Queue.Claim.sweep_stale_work
    lance_etl.Queue.Fencing.perform lance_etl.Queue.Ingest.apply_ingest
    lance_etl.Queue.Ingest.complete_ingest lance_etl.Queue.Ingest.complete_live_ingest
    lance_etl.Queue.Ingest.complete_locked_ingest
    lance_etl.Queue.Ingest.complete_snapshot_if_applied
    lance_etl.Queue.Ingest.completed_ingest_matches lance_etl.Queue.Ingest.enqueue_publish_work
    lance_etl.Queue.Ingest.has_open_publication lance_etl.Queue.Ingest.incomplete_ingest
    lance_etl.Queue.Ingest.publish_row lance_etl.Queue.Lease.advance_phase
    lance_etl.Queue.Lease.advance_row lance_etl.Queue.Lease.block_work
    lance_etl.Queue.Lease.bounded_error lance_etl.Queue.Lease.renew_lease
    lance_etl.Queue.Lease.retry_blocked_work lance_etl.Queue.Lease.retry_work
    lance_etl.Queue.Lease.retryable lance_etl.Queue.Lease.truncate lance_etl.Queue.Lease.update_work
    lance_etl.Queue.Publish.on_route lance_etl.Queue.Publish.publication_row
    lance_etl.Queue.Publish.publish_dataset lance_etl.Queue.Publish.publish_live
    lance_etl.Queue.Publish.retire_previous lance_etl.Queue.Publish.served
    lance_etl.Queue.Publish.source_for_dataset lance_etl.Queue.Publish.swap_pointer
    lance_etl.Queue.Publish.validate_completed_publication
    lance_etl.Queue.Publish.validate_live_publication
    lance_etl.Queue.Publish.validate_publication_indexes
    lance_etl.Queue.Publish.validate_publication_request lance_etl.Queue.assert_expectations_match
    lance_etl.Queue.expected_state lance_etl.Queue.frozen_expectations
    lance_etl.Queue.frozen_expectations_match_dataset lance_etl.Queue.gates_lane
    lance_etl.Queue.is_due lance_etl.Queue.lane_order lance_etl.Queue.lease_is_current
    lance_etl.Queue.locked_lease_matches lance_etl.Queue.precedes lance_etl.Queue.source_gated
    lance_etl.Queue.source_snapshot_allows_work lance_etl.Specs.activate_found
    lance_etl.Specs.activate_spec_revision lance_etl.Specs.assign_dataset_spec_revision
    lance_etl.Specs.converge lance_etl.Specs.dataset_and_state_for_identity
    lance_etl.Specs.desire_revision lance_etl.Specs.enqueue_rebuild lance_etl.Specs.materialized_seq
    lance_etl.Specs.rebuild_row lance_etl.Specs.set_source_default_spec lance_etl.Specs.sole_row
    lance_etl.Specs.swap_active lance_etl.Types.Evidence.validate_evidence
    lance_etl.Types.Evidence.validate_index lance_etl.Types.Evidence.validate_indexes
    lance_etl.Types.Ids.canonical lance_etl.Types.Ids.dataset_uri_matches_root
    lance_etl.Types.Ids.deterministic_dataset_id lance_etl.Types.Ids.deterministic_ingest_work_id
    lance_etl.Types.Ids.deterministic_publication_id
    lance_etl.Types.Ids.deterministic_publish_work_id
    lance_etl.Types.Ids.deterministic_rebuild_work_id lance_etl.Types.Ids.ingest_uri
    lance_etl.Types.Ids.rebuild_uri lance_etl.Types.Ids.strip_slashes
    lance_etl.Types.Ids.validate_identity lance_etl.Types.Ids.validate_routing_segment
    lance_etl.Types.Plan.validate_plan
transact-publish_claimed = refl

pub transact-live :
    transact uuids
      (worker publish_claim
        (publish publish_claim.ingest_lance_uri (pos 1) "s3://lake/m" digest evidence))
      14
      publish_claimed
    ≡ ok live
unfolding lance_etl.Control.transact lance_etl.Db.find_dataset lance_etl.Db.find_publication
    lance_etl.Db.find_snapshot lance_etl.Db.find_source lance_etl.Db.find_work
    lance_etl.Db.indexes_hold lance_etl.Db.insert_work lance_etl.Db.store_works
    lance_etl.Planning.Enqueue.active_spec_revision_id lance_etl.Planning.Enqueue.complete_if_empty
    lance_etl.Planning.Enqueue.dataset_row
    lance_etl.Planning.Enqueue.enqueue_blocked_source_snapshot
    lance_etl.Planning.Enqueue.enqueue_source_snapshot lance_etl.Planning.Enqueue.fill_new_snapshot
    lance_etl.Planning.Enqueue.fill_snapshot lance_etl.Planning.Enqueue.gate_inserted
    lance_etl.Planning.Enqueue.ingest_row lance_etl.Planning.Enqueue.insert_dataset
    lance_etl.Planning.Enqueue.insert_ingest_work lance_etl.Planning.Enqueue.insert_lanes
    lance_etl.Planning.Enqueue.insert_or_validate_dataset lance_etl.Planning.Enqueue.replay_snapshot
    lance_etl.Planning.Enqueue.same_dataset_set lance_etl.Planning.Enqueue.same_evidence
    lance_etl.Planning.Enqueue.same_frozen_inputs lance_etl.Planning.Enqueue.validate_all
    lance_etl.Planning.Gate.block_locked_snapshot lance_etl.Planning.Gate.block_source_snapshot
    lance_etl.Planning.Gate.close_gate lance_etl.Planning.Gate.reopen_snapshot
    lance_etl.Planning.Gate.retry_blocked_source_snapshot lance_etl.Planning.admit_plan
    lance_etl.Planning.advance_epoch lance_etl.Planning.assert_new_snapshot_extends_latest
    lance_etl.Planning.assert_source_gate_allows_snapshot lance_etl.Planning.epoch_is_stale
    lance_etl.Planning.extends_head lance_etl.Planning.insert_or_validate_snapshot
    lance_etl.Planning.known_snapshot lance_etl.Planning.latest_of
    lance_etl.Planning.lock_source_for_planning lance_etl.Planning.same_metadata
    lance_etl.Planning.snapshot_row lance_etl.Planning.source_head lance_etl.Queue.Claim.after_row
    lance_etl.Queue.Claim.claim_due_work lance_etl.Queue.Claim.claim_locked_row
    lance_etl.Queue.Claim.claim_row lance_etl.Queue.Claim.claim_rows
    lance_etl.Queue.Claim.comes_before lance_etl.Queue.Claim.insert_ordered
    lance_etl.Queue.Claim.is_claimable lance_etl.Queue.Claim.is_stale
    lance_etl.Queue.Claim.order_rows lance_etl.Queue.Claim.release_expired_leases
    lance_etl.Queue.Claim.started lance_etl.Queue.Claim.sweep_stale_work
    lance_etl.Queue.Fencing.perform lance_etl.Queue.Ingest.apply_ingest
    lance_etl.Queue.Ingest.complete_ingest lance_etl.Queue.Ingest.complete_live_ingest
    lance_etl.Queue.Ingest.complete_locked_ingest
    lance_etl.Queue.Ingest.complete_snapshot_if_applied
    lance_etl.Queue.Ingest.completed_ingest_matches lance_etl.Queue.Ingest.enqueue_publish_work
    lance_etl.Queue.Ingest.has_open_publication lance_etl.Queue.Ingest.incomplete_ingest
    lance_etl.Queue.Ingest.publish_row lance_etl.Queue.Lease.advance_phase
    lance_etl.Queue.Lease.advance_row lance_etl.Queue.Lease.block_work
    lance_etl.Queue.Lease.bounded_error lance_etl.Queue.Lease.renew_lease
    lance_etl.Queue.Lease.retry_blocked_work lance_etl.Queue.Lease.retry_work
    lance_etl.Queue.Lease.retryable lance_etl.Queue.Lease.truncate lance_etl.Queue.Lease.update_work
    lance_etl.Queue.Publish.on_route lance_etl.Queue.Publish.publication_row
    lance_etl.Queue.Publish.publish_dataset lance_etl.Queue.Publish.publish_live
    lance_etl.Queue.Publish.retire_previous lance_etl.Queue.Publish.served
    lance_etl.Queue.Publish.source_for_dataset lance_etl.Queue.Publish.swap_pointer
    lance_etl.Queue.Publish.validate_completed_publication
    lance_etl.Queue.Publish.validate_live_publication
    lance_etl.Queue.Publish.validate_publication_indexes
    lance_etl.Queue.Publish.validate_publication_request lance_etl.Queue.assert_expectations_match
    lance_etl.Queue.expected_state lance_etl.Queue.frozen_expectations
    lance_etl.Queue.frozen_expectations_match_dataset lance_etl.Queue.gates_lane
    lance_etl.Queue.is_due lance_etl.Queue.lane_order lance_etl.Queue.lease_is_current
    lance_etl.Queue.locked_lease_matches lance_etl.Queue.precedes lance_etl.Queue.source_gated
    lance_etl.Queue.source_snapshot_allows_work lance_etl.Specs.activate_found
    lance_etl.Specs.activate_spec_revision lance_etl.Specs.assign_dataset_spec_revision
    lance_etl.Specs.converge lance_etl.Specs.dataset_and_state_for_identity
    lance_etl.Specs.desire_revision lance_etl.Specs.enqueue_rebuild lance_etl.Specs.materialized_seq
    lance_etl.Specs.rebuild_row lance_etl.Specs.set_source_default_spec lance_etl.Specs.sole_row
    lance_etl.Specs.swap_active lance_etl.Types.Evidence.validate_evidence
    lance_etl.Types.Evidence.validate_index lance_etl.Types.Evidence.validate_indexes
    lance_etl.Types.Ids.canonical lance_etl.Types.Ids.dataset_uri_matches_root
    lance_etl.Types.Ids.deterministic_dataset_id lance_etl.Types.Ids.deterministic_ingest_work_id
    lance_etl.Types.Ids.deterministic_publication_id
    lance_etl.Types.Ids.deterministic_publish_work_id
    lance_etl.Types.Ids.deterministic_rebuild_work_id lance_etl.Types.Ids.ingest_uri
    lance_etl.Types.Ids.rebuild_uri lance_etl.Types.Ids.strip_slashes
    lance_etl.Types.Ids.validate_identity lance_etl.Types.Ids.validate_routing_segment
    lance_etl.Types.Plan.validate_plan
transact-live = refl

pub transact-reopened : transact uuids (retry_snapshot 1) 16 gated ≡ ok reopened
unfolding lance_etl.Control.transact lance_etl.Db.find_dataset lance_etl.Db.find_publication
    lance_etl.Db.find_snapshot lance_etl.Db.find_source lance_etl.Db.find_work
    lance_etl.Db.indexes_hold lance_etl.Db.insert_work lance_etl.Db.store_works
    lance_etl.Planning.Enqueue.active_spec_revision_id lance_etl.Planning.Enqueue.complete_if_empty
    lance_etl.Planning.Enqueue.dataset_row
    lance_etl.Planning.Enqueue.enqueue_blocked_source_snapshot
    lance_etl.Planning.Enqueue.enqueue_source_snapshot lance_etl.Planning.Enqueue.fill_new_snapshot
    lance_etl.Planning.Enqueue.fill_snapshot lance_etl.Planning.Enqueue.gate_inserted
    lance_etl.Planning.Enqueue.ingest_row lance_etl.Planning.Enqueue.insert_dataset
    lance_etl.Planning.Enqueue.insert_ingest_work lance_etl.Planning.Enqueue.insert_lanes
    lance_etl.Planning.Enqueue.insert_or_validate_dataset lance_etl.Planning.Enqueue.replay_snapshot
    lance_etl.Planning.Enqueue.same_dataset_set lance_etl.Planning.Enqueue.same_evidence
    lance_etl.Planning.Enqueue.same_frozen_inputs lance_etl.Planning.Enqueue.validate_all
    lance_etl.Planning.Gate.block_locked_snapshot lance_etl.Planning.Gate.block_source_snapshot
    lance_etl.Planning.Gate.close_gate lance_etl.Planning.Gate.reopen_snapshot
    lance_etl.Planning.Gate.retry_blocked_source_snapshot lance_etl.Planning.admit_plan
    lance_etl.Planning.advance_epoch lance_etl.Planning.assert_new_snapshot_extends_latest
    lance_etl.Planning.assert_source_gate_allows_snapshot lance_etl.Planning.epoch_is_stale
    lance_etl.Planning.extends_head lance_etl.Planning.insert_or_validate_snapshot
    lance_etl.Planning.known_snapshot lance_etl.Planning.latest_of
    lance_etl.Planning.lock_source_for_planning lance_etl.Planning.same_metadata
    lance_etl.Planning.snapshot_row lance_etl.Planning.source_head lance_etl.Queue.Claim.after_row
    lance_etl.Queue.Claim.claim_due_work lance_etl.Queue.Claim.claim_locked_row
    lance_etl.Queue.Claim.claim_row lance_etl.Queue.Claim.claim_rows
    lance_etl.Queue.Claim.comes_before lance_etl.Queue.Claim.insert_ordered
    lance_etl.Queue.Claim.is_claimable lance_etl.Queue.Claim.is_stale
    lance_etl.Queue.Claim.order_rows lance_etl.Queue.Claim.release_expired_leases
    lance_etl.Queue.Claim.started lance_etl.Queue.Claim.sweep_stale_work
    lance_etl.Queue.Fencing.perform lance_etl.Queue.Ingest.apply_ingest
    lance_etl.Queue.Ingest.complete_ingest lance_etl.Queue.Ingest.complete_live_ingest
    lance_etl.Queue.Ingest.complete_locked_ingest
    lance_etl.Queue.Ingest.complete_snapshot_if_applied
    lance_etl.Queue.Ingest.completed_ingest_matches lance_etl.Queue.Ingest.enqueue_publish_work
    lance_etl.Queue.Ingest.has_open_publication lance_etl.Queue.Ingest.incomplete_ingest
    lance_etl.Queue.Ingest.publish_row lance_etl.Queue.Lease.advance_phase
    lance_etl.Queue.Lease.advance_row lance_etl.Queue.Lease.block_work
    lance_etl.Queue.Lease.bounded_error lance_etl.Queue.Lease.renew_lease
    lance_etl.Queue.Lease.retry_blocked_work lance_etl.Queue.Lease.retry_work
    lance_etl.Queue.Lease.retryable lance_etl.Queue.Lease.truncate lance_etl.Queue.Lease.update_work
    lance_etl.Queue.Publish.on_route lance_etl.Queue.Publish.publication_row
    lance_etl.Queue.Publish.publish_dataset lance_etl.Queue.Publish.publish_live
    lance_etl.Queue.Publish.retire_previous lance_etl.Queue.Publish.served
    lance_etl.Queue.Publish.source_for_dataset lance_etl.Queue.Publish.swap_pointer
    lance_etl.Queue.Publish.validate_completed_publication
    lance_etl.Queue.Publish.validate_live_publication
    lance_etl.Queue.Publish.validate_publication_indexes
    lance_etl.Queue.Publish.validate_publication_request lance_etl.Queue.assert_expectations_match
    lance_etl.Queue.expected_state lance_etl.Queue.frozen_expectations
    lance_etl.Queue.frozen_expectations_match_dataset lance_etl.Queue.gates_lane
    lance_etl.Queue.is_due lance_etl.Queue.lane_order lance_etl.Queue.lease_is_current
    lance_etl.Queue.locked_lease_matches lance_etl.Queue.precedes lance_etl.Queue.source_gated
    lance_etl.Queue.source_snapshot_allows_work lance_etl.Specs.activate_found
    lance_etl.Specs.activate_spec_revision lance_etl.Specs.assign_dataset_spec_revision
    lance_etl.Specs.converge lance_etl.Specs.dataset_and_state_for_identity
    lance_etl.Specs.desire_revision lance_etl.Specs.enqueue_rebuild lance_etl.Specs.materialized_seq
    lance_etl.Specs.rebuild_row lance_etl.Specs.set_source_default_spec lance_etl.Specs.sole_row
    lance_etl.Specs.swap_active lance_etl.Types.Evidence.validate_evidence
    lance_etl.Types.Evidence.validate_index lance_etl.Types.Evidence.validate_indexes
    lance_etl.Types.Ids.canonical lance_etl.Types.Ids.dataset_uri_matches_root
    lance_etl.Types.Ids.deterministic_dataset_id lance_etl.Types.Ids.deterministic_ingest_work_id
    lance_etl.Types.Ids.deterministic_publication_id
    lance_etl.Types.Ids.deterministic_publish_work_id
    lance_etl.Types.Ids.deterministic_rebuild_work_id lance_etl.Types.Ids.ingest_uri
    lance_etl.Types.Ids.rebuild_uri lance_etl.Types.Ids.strip_slashes
    lance_etl.Types.Ids.validate_identity lance_etl.Types.Ids.validate_routing_segment
    lance_etl.Types.Plan.validate_plan
transact-reopened = refl

pub reopened_replay :
    enqueue_source_snapshot uuids baseline (tenant ∷ []) 17 reopened ≡ ok (1, reopened)
unfolding lance_etl.Db.find_dataset lance_etl.Db.find_snapshot lance_etl.Db.find_source
    lance_etl.Db.find_work lance_etl.Db.indexes_hold lance_etl.Db.insert_work
    lance_etl.Db.store_works lance_etl.Planning.Enqueue.active_spec_revision_id
    lance_etl.Planning.Enqueue.complete_if_empty lance_etl.Planning.Enqueue.dataset_row
    lance_etl.Planning.Enqueue.enqueue_blocked_source_snapshot
    lance_etl.Planning.Enqueue.enqueue_source_snapshot lance_etl.Planning.Enqueue.fill_new_snapshot
    lance_etl.Planning.Enqueue.fill_snapshot lance_etl.Planning.Enqueue.gate_inserted
    lance_etl.Planning.Enqueue.ingest_row lance_etl.Planning.Enqueue.insert_dataset
    lance_etl.Planning.Enqueue.insert_ingest_work lance_etl.Planning.Enqueue.insert_lanes
    lance_etl.Planning.Enqueue.insert_or_validate_dataset lance_etl.Planning.Enqueue.replay_snapshot
    lance_etl.Planning.Enqueue.same_dataset_set lance_etl.Planning.Enqueue.same_evidence
    lance_etl.Planning.Enqueue.same_frozen_inputs lance_etl.Planning.Enqueue.validate_all
    lance_etl.Planning.admit_plan lance_etl.Planning.advance_epoch
    lance_etl.Planning.assert_new_snapshot_extends_latest
    lance_etl.Planning.assert_source_gate_allows_snapshot lance_etl.Planning.epoch_is_stale
    lance_etl.Planning.extends_head lance_etl.Planning.insert_or_validate_snapshot
    lance_etl.Planning.known_snapshot lance_etl.Planning.latest_of
    lance_etl.Planning.lock_source_for_planning lance_etl.Planning.same_metadata
    lance_etl.Planning.snapshot_row lance_etl.Planning.source_head
    lance_etl.Queue.Lease.bounded_error lance_etl.Queue.Lease.truncate
    lance_etl.Queue.frozen_expectations lance_etl.Queue.source_gated lance_etl.Types.Ids.canonical
    lance_etl.Types.Ids.deterministic_dataset_id lance_etl.Types.Ids.deterministic_ingest_work_id
    lance_etl.Types.Ids.ingest_uri lance_etl.Types.Ids.strip_slashes
    lance_etl.Types.Ids.validate_identity lance_etl.Types.Ids.validate_routing_segment
    lance_etl.Types.Plan.validate_plan
reopened_replay = refl

pub ingest_claimed-IsKeyed : IsKeyed ingest_claimed
ingest_claimed-IsKeyed = ground arith

pub ingest_done-IsKeyed : IsKeyed ingest_done
ingest_done-IsKeyed = ground arith

pub publish_claimed-IsKeyed : IsKeyed publish_claimed
publish_claimed-IsKeyed = ground arith

pub gated-IsKeyed : IsKeyed gated
gated-IsKeyed = ground arith

pub work_blocked-IsKeyed : IsKeyed work_blocked
work_blocked-IsKeyed = ground arith

pub live-IsKeyed : IsKeyed live
live-IsKeyed = ground arith
