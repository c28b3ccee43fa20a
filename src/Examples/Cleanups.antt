-- ===== src/Examples/Cleanups.antt =====
-- A database with a retired publication and an old row of audit: its cleanup, and what retention
-- says of it.
use lance_etl.Common.{
  ℕ, String, ◌≡◌, ◌≤◌, ◌+◌, refl, arith, pos, none, some, Bool, true, false, [], ◌∷◌, ok, All,
  Keyed, count_rows,
}
use lance_etl.Db.{Work, Publication, Database, find_work, find_publication, find_snapshot}
use lance_etl.Types.{WorkState, RoutingIdentity}
use lance_etl.Queue.Publish.{resolve_serving_dataset}
use lance_etl.Queue.Evolution.Progress.{work_key}
use lance_etl.Retention.{
  PublicationCleanup, claim_publication_cleanup, finalize_publication_cleanup,
  delete_completed_audit, select_retention_floor, retention_decision, control_plane_status,
  is_unfinished,
}
use lance_etl.Retention.Floor.{is_needed, HasSnapshots, IsFloor, select_retention_floor-IsFloor}
use lance_etl.Retention.Status.{in_state, control_plane_status_counts}
use lance_etl.Retention.Cleanup.{
  publication_key, IsDisposable, claim_publication_cleanup-IsDisposable,
}
use lance_etl.Retention.Deletion.{claimed_cleanup_finalizes, finalize_publication_cleanup_serves}
use lance_etl.Retention.Audit.{IsPruned, delete_completed_audit-IsPruned}
use lance_etl.Examples.Rows.{planned_snapshot, live_publication, live_work, planned_work}
use lance_etl.Examples.Runs.{live}

abbrev old_publication : Publication
old_publication = record live_publication {
  publication_id = 58;
  work_id = 4;
  published_at = 3;
  retired_at = some 14;
}

abbrev old_work : Work
old_work = record live_work { work_id = 6; updated_at = 1 }

abbrev aged : Database
aged = record live {
  works = old_work ∷ live_work ∷ [];
  publications = old_publication ∷ live_publication ∷ [];
}

-- A database whose snapshot is not applied yet.
abbrev waiting : Database
waiting = record live { snapshots = planned_snapshot ∷ []; works = planned_work ∷ [] }

abbrev pin_hex : ℕ → String
pin_hex id = "0123456789abcdef0123456789abcdef"

abbrev as_read : Publication → Publication → Bool
as_read p q = false

abbrev old_cleanup : PublicationCleanup
old_cleanup = record {
  publication_id = 58;
  work_id = 4;
  dataset_id = 31;
  lance_uri = live_publication.lance_uri;
  lance_version = 1;
  manifest_uri = "s3://lake/m";
  pin_name = "candidate-0123456789abcdef0123456789abcdef";
}

abbrev cleaned : Database
cleaned = record aged { publications = live_publication ∷ [] }

abbrev pruned : Database
pruned = record aged { works = live_work ∷ [] }

aged-Keyed : Keyed publication_key aged.publications
aged-Keyed = (((λ e. omega arith), tt), (tt, tt))

aged_works-Keyed : Keyed work_key aged.works
aged_works-Keyed = (((λ e. omega arith), tt), (tt, tt))

claimed_run : claim_publication_cleanup as_read pin_hex 20 (pos 5) aged ≡ ok (old_cleanup ∷ [])
unfolding lance_etl.Retention.candidate_pin_name lance_etl.Retention.claim_publication_cleanup
    lance_etl.Retention.cleanup_of lance_etl.Retention.cleanups_of lance_etl.Retention.is_removable
    lance_etl.Retention.is_served lance_etl.Retention.matches_pin
    lance_etl.Retention.publication_rank lance_etl.Retention.ranked_before
    lance_etl.Retention.revision_of lance_etl.Types.Ids.strip_prefix
claimed_run = refl

finalized_run : finalize_publication_cleanup old_cleanup aged ≡ ok (true, cleaned)
unfolding lance_etl.Db.find_publication lance_etl.Retention.delete_publication
    lance_etl.Retention.finalize_publication_cleanup lance_etl.Retention.is_served
finalized_run = refl

pruned_run : delete_completed_audit 10 (pos 5) aged ≡ ok ((1, 0), pruned)
unfolding lance_etl.Retention.delete_completed_audit lance_etl.Retention.is_prunable
pruned_run = refl

waiting-HasSnapshots : HasSnapshots waiting
unfolding lance_etl.Retention.Floor.HasSnapshots
waiting-HasSnapshots = (refl, tt)

needed_run : is_needed 90 waiting 1 ≡ true
unfolding lance_etl.Db.find_source lance_etl.Retention.Floor.is_needed
    lance_etl.Retention.in_replay_horizon
needed_run = refl

select_retention_floor-IsFloor_example : IsFloor 90 waiting (select_retention_floor 90 waiting)
select_retention_floor-IsFloor_example =
    select_retention_floor-IsFloor 90 waiting waiting-HasSnapshots

control_plane_status_counts_example :
    (((control_plane_status 90 waiting).pending_work
        ≡ count_rows (in_state WorkState.pending) waiting.works)
      × ((control_plane_status 90 waiting).running_work
          ≡ count_rows (in_state WorkState.running) waiting.works)
      × ((control_plane_status 90 waiting).retry_wait_work
          ≡ count_rows (in_state WorkState.retry_wait) waiting.works)
      × ((control_plane_status 90 waiting).blocked_work
          ≡ count_rows (in_state WorkState.blocked) waiting.works))
    × (((control_plane_status 90 waiting).pending_work
            + (control_plane_status 90 waiting).running_work
            + (control_plane_status 90 waiting).retry_wait_work
            + (control_plane_status 90 waiting).blocked_work
          ≡ count_rows is_unfinished waiting.works)
        × ((control_plane_status 90 waiting).due_work
            ≤ (control_plane_status 90 waiting).pending_work
              + (control_plane_status 90 waiting).retry_wait_work))
control_plane_status_counts_example = control_plane_status_counts 90 waiting

claim_publication_cleanup-IsDisposable_example :
    (1 ≤ 5) × All (IsDisposable as_read 20 aged) (old_cleanup ∷ [])
claim_publication_cleanup-IsDisposable_example =
    claim_publication_cleanup-IsDisposable as_read 20 aged pin_hex (pos 5) aged-Keyed claimed_run

claimed_cleanup_finalizes_example :
    All
      (λ c.
        (db' : Database) × ((finalize_publication_cleanup c aged ≡ ok (true, db'))
          × (find_publication c.publication_id db' ≡ none)))
      (old_cleanup ∷ [])
claimed_cleanup_finalizes_example =
    claimed_cleanup_finalizes as_read pin_hex 20 (pos 5) aged aged-Keyed claimed_run

finalize_publication_cleanup_serves_example :
    ((identity : RoutingIdentity)
      → resolve_serving_dataset identity cleaned ≡ resolve_serving_dataset identity aged)
    × (true ≡ true → find_publication 58 cleaned ≡ none)
finalize_publication_cleanup_serves_example =
    finalize_publication_cleanup_serves old_cleanup aged finalized_run

delete_completed_audit-IsPruned_example : ◌≡◌ {A = ℕ} 0 0 × IsPruned 10 5 aged 1 pruned
delete_completed_audit-IsPruned_example =
    delete_completed_audit-IsPruned 10 (pos 5) aged aged_works-Keyed pruned_run
