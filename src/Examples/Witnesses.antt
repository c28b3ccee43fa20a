-- ===== src/Examples/Witnesses.antt =====
-- The theorems, applied to the runs.
use lance_etl.Common.{
  ◌≡◌, refl, pos, none, some, true, false, [], ◌∷◌, ok, arith, All, exists_row, if◌then◌else◌,
}
use lance_etl.Types.{is_gated}
use lance_etl.Db.{find_source}
use lance_etl.Queue.{source_gated}
use lance_etl.Queue.Lease.{can_retry_blocked_work}
use lance_etl.Queue.Ingest.{complete_ingest}
use lance_etl.Queue.Fencing.{renew, complete, publish, perform_superseded}
use lance_etl.Queue.Claim.Fresh.{IsFresh, claim_due_work-IsFresh}
use lance_etl.Queue.Completion.{IsCompleted, complete_ingest-IsCompleted, complete_ingest_replay}
use lance_etl.Queue.Serving.{Serves, publish_dataset-Serves, resolve_serving_dataset_exact}
use lance_etl.Queue.Agreement.{retry_blocked_work_agrees, retry_blocked_source_snapshot_agrees}
use lance_etl.Queue.Evolution.Progress.{Progress}
use lance_etl.Planning.{known_snapshot, bump_epoch}
use lance_etl.Planning.Gate.{can_retry_blocked_source_snapshot, gated_row}
use lance_etl.Planning.Lineage.{IsLineage}
use lance_etl.Planning.Guards.{
  enqueue_source_snapshot-IsLineage, enqueue_blocked_source_snapshot-IsLineage,
}
use lance_etl.Planning.Stale.{
  enqueue_source_snapshot_gated, enqueue_source_snapshot_stale, block_source_snapshot_closes,
}
use lance_etl.Specs.Activation.{IsSole, is_active_id, activate_spec_revision-IsSole}
use lance_etl.Types.Ids.{deterministic_publication_id}
use lance_etl.Control.{claim_due, worker, retry_snapshot, Reach, start, commit}
use lance_etl.Control.History.{Reach-Progress, perform_superseded_forever}
use lance_etl.Examples.{uuids, tenant, empty_plane, baseline, digest, evidence}
use lance_etl.Examples.Rows.{
  planned_snapshot, planned_source, gated_source, publish_claimed_dataset, live_dataset,
  live_publication, drafted_revision,
}
use lance_etl.Examples.Runs.{
  token, unlocked, ingest_claim, publish_claim, second, refused, planned, ingest_claimed,
  ingest_done, publish_claimed, live, gated, reopened, work_blocked, extended, refusing, drafted,
  activated, resolved,
}
use lance_etl.Examples.Steps

published_history : Reach uuids publish_claimed live
published_history =
    commit
      (worker publish_claim
        (publish publish_claim.ingest_lance_uri (pos 1) "s3://lake/m" digest evidence))
      14 Steps.transact-live start

later_history : Reach uuids ingest_done live
later_history =
    commit (claim_due token unlocked unlocked (pos 2) (pos 60)) 13 Steps.transact-publish_claimed
      published_history

full_history : Reach uuids ingest_claimed live
full_history =
    commit (worker ingest_claim (complete (pos 1) (pos 10) digest)) 12 Steps.transact-ingest_done
      later_history

repair_history : Reach uuids gated reopened
repair_history = commit (retry_snapshot 1) 16 Steps.transact-reopened start

planned-IsLineage : IsLineage planned
planned-IsLineage =
    enqueue_source_snapshot-IsLineage baseline 10 empty_plane uuids (tenant ∷ []) Steps.planned_run
      (λ source_id. tt)

Reach-Progress_example : Progress ingest_claimed live
Reach-Progress_example =
    Reach-Progress uuids ingest_claimed live Steps.ingest_claimed-IsKeyed full_history

perform_superseded_forever_example : live ≡ live
perform_superseded_forever_example =
    perform_superseded_forever uuids publish_claimed live ingest_claim (renew (pos 5)) 15
      publish_claimed_dataset Steps.publish_claimed-IsKeyed Steps.fenced_found (omega arith)
      published_history Steps.late_run

perform_superseded_example : live ≡ live
perform_superseded_example =
    perform_superseded uuids ingest_claim (renew (pos 5)) 15 live Steps.fence_lost Steps.late_run

complete_ingest-IsCompleted_example : IsCompleted ingest_claim 1 10 digest ingest_done
complete_ingest-IsCompleted_example =
    complete_ingest-IsCompleted uuids ingest_claim (pos 1) (pos 10) digest 12 ingest_claimed
      Steps.ingest_done_run

complete_ingest_replay_example :
    complete_ingest uuids ingest_claim (pos 1) (pos 10) digest 99 ingest_done
    ≡ ok (true, ingest_done)
complete_ingest_replay_example =
    complete_ingest_replay uuids ingest_claim (pos 1) (pos 10) digest 12 99 ingest_claimed
      Steps.ingest_done_run

publish_dataset-Serves_example :
    Serves
      (deterministic_publication_id uuids publish_claim.work_id)
      31
      publish_claim.ingest_lance_uri
      1
      live
publish_dataset-Serves_example =
    publish_dataset-Serves uuids publish_claim publish_claim.ingest_lance_uri (pos 1) "s3://lake/m"
      digest evidence 14 publish_claimed Steps.live_run

resolve_serving_dataset_exact_example : some resolved ≡ some resolved
resolve_serving_dataset_exact_example =
    resolve_serving_dataset_exact tenant live 31 live_dataset live_publication Steps.live_found
      Steps.live_routed refl Steps.resolved_run

enqueue_source_snapshot_stale_example : known_snapshot 1 100 reopened ≡ true
enqueue_source_snapshot_stale_example =
    enqueue_source_snapshot_stale uuids gated reopened baseline (tenant ∷ []) 17 (pos 2)
      gated_source Steps.gated-IsKeyed Steps.gated_source_found refl (omega arith) repair_history
      Steps.reopened_replay

block_source_snapshot_closes_example :
    (source_gated gated 1 ≡ true)
    × (exists_row (gated_row 1 1) gated.works ≡ false)
    × (find_source 1 gated
        ≡ some
            (if is_gated planned_snapshot.state then planned_source else bump_epoch planned_source))
block_source_snapshot_closes_example =
    block_source_snapshot_closes 1 "SCHEMA" none none 15 planned planned_snapshot planned_source
      Steps.snapshot_found Steps.source_found Steps.gated_run

enqueue_source_snapshot-IsLineage_example : IsLineage extended
enqueue_source_snapshot-IsLineage_example =
    enqueue_source_snapshot-IsLineage second 16 planned uuids (tenant ∷ []) Steps.extended_run
      planned-IsLineage

enqueue_blocked_source_snapshot-IsLineage_example : IsLineage refusing
enqueue_blocked_source_snapshot-IsLineage_example =
    enqueue_blocked_source_snapshot-IsLineage refused 16 planned "DELETE" none Steps.refusing_run
      planned-IsLineage

enqueue_source_snapshot_gated_example : known_snapshot 1 100 gated ≡ true
enqueue_source_snapshot_gated_example =
    enqueue_source_snapshot_gated uuids baseline (tenant ∷ []) 17 gated Steps.source_is_gated
      Steps.replayed_run

retry_blocked_work_agrees_example : true ≡ can_retry_blocked_work 28 work_blocked
retry_blocked_work_agrees_example =
    retry_blocked_work_agrees 28 13 work_blocked Steps.work_blocked-IsKeyed Steps.work_retried_run

retry_blocked_source_snapshot_agrees_example : can_retry_blocked_source_snapshot 1 gated ≡ ok true
retry_blocked_source_snapshot_agrees_example =
    retry_blocked_source_snapshot_agrees 1 gated Steps.reopened_run

activate_spec_revision-IsSole_example :
    All (IsSole 3 6) activated.revisions × (exists_row (is_active_id 6) activated.revisions ≡ true)
activate_spec_revision-IsSole_example =
    activate_spec_revision-IsSole 6 17 drafted drafted_revision refl refl Steps.activated_run

claim_due_work-IsFresh_example : All (IsFresh planned ingest_claimed) (ingest_claim ∷ [])
claim_due_work-IsFresh_example =
    claim_due_work-IsFresh token unlocked unlocked (pos 2) (pos 60) 11 planned
      Steps.ingest_claimed_run
