-- ===== src/Queue.antt =====
-- state/repository.py: the predicates of the work queue. A `WHERE` clause that joins `datasets`
-- takes the joined row `d`; the columns compared as `IS NOT DISTINCT FROM` are optional.
pub mod Lease
pub mod Claim
pub mod Ingest
pub mod Publish
pub mod Evolution
pub mod Fencing
pub mod Agreement
pub mod Completion
pub mod Serving
use lance_etl.Common.{
  ℕ, String, Bool, true, false, ◌&&◌, ◌||◌, not, Option, none, some, List, Result, ok,
  state_transition, raise_if, ◌==◌, ltb, leb, str_eq, opt_eq, nat_eq, exists_row, if◌then◌else◌,
}
use lance_etl.Types.{
  WorkKind, WorkState, WorkClaim, is_ingest, is_running, is_succeeded, is_waiting, is_active,
  is_gated,
}
use lance_etl.Db.{Work, Dataset, Snapshot, Database, find_dataset}

unfoldable pub is_due : ℕ → Work → Bool
is_due current w = is_waiting w.state && leb w.next_attempt_at current

unfoldable pub source_gated : Database → ℕ → Bool
source_gated db source_id =
    exists_row (λ (s : Snapshot). s.source_id == source_id && is_gated s.state) db.snapshots

unfoldable pub source_snapshot_allows_work : Database → Work → Bool
unfolding source_gated
source_snapshot_allows_work db w = not (is_ingest w.kind) || not (source_gated db w.source_id)

unfoldable pub frozen_expectations_match_dataset : Work → Dataset → Bool
frozen_expectations_match_dataset w d =
    str_eq w.expected_ingest_lance_uri d.ingest_lance_uri
    && opt_eq nat_eq w.expected_ingest_lance_version d.ingest_lance_version
    && opt_eq nat_eq w.expected_active_publication_id d.active_publication_id

-- The three columns of `frozen_expectations`, written on a row.
unfoldable pub frozen_expectations : Dataset → Work → Work
frozen_expectations d w = record w {
  expected_ingest_lance_uri = d.ingest_lance_uri;
  expected_ingest_lance_version = d.ingest_lance_version;
  expected_active_publication_id = d.active_publication_id;
}

abbrev pub kind_rank : WorkKind → ℕ
kind_rank WorkKind.ingest = 0
kind_rank _ = 1

unfoldable pub precedes : Work → Work → Bool
precedes earlier w =
    ltb earlier.source_snapshot_seq w.source_snapshot_seq
    || (earlier.source_snapshot_seq == w.source_snapshot_seq
        && ltb (kind_rank earlier.kind) (kind_rank w.kind))

-- An earlier row of the lane that `w` has to wait for.
unfoldable pub gates_lane : Dataset → Work → Work → Bool
unfolding precedes frozen_expectations_match_dataset
gates_lane d w earlier =
    earlier.dataset_id == w.dataset_id
    && not (earlier.work_id == w.work_id)
    && not (is_succeeded earlier.state)
    && (is_ingest earlier.kind || frozen_expectations_match_dataset earlier d)
    && precedes earlier w

unfoldable pub lane_order : Database → Dataset → Work → Bool
unfolding gates_lane
lane_order db d w = not (exists_row (gates_lane d w) db.works)

unfoldable pub expected_state : Dataset → Work → Bool
unfolding frozen_expectations_match_dataset
expected_state d w = is_ingest w.kind || frozen_expectations_match_dataset w d

unfoldable pub assert_expectations_match : Work → Dataset → String → Result (Unit {0})
unfolding frozen_expectations_match_dataset
assert_expectations_match w d message =
    raise_if (not (frozen_expectations_match_dataset w d)) (state_transition message)

-- lease_expires_at > current, on a nullable column
abbrev pub expires_after : Option ℕ → ℕ → Bool
expires_after none current = false
expires_after (some t) current = ltb current t

-- lease_expires_at <= current, on a nullable column
abbrev pub expired_at : Option ℕ → ℕ → Bool
expired_at none current = false
expired_at (some t) current = leb t current

abbrev pub holds_fence : WorkClaim → Option Dataset → Bool
holds_fence claim none = false
holds_fence claim (some d) = d.fence_epoch == claim.fence_epoch

unfoldable pub lease_is_current : WorkClaim → ℕ → Database → Work → Bool
unfolding find_dataset
lease_is_current claim current db w =
    w.work_id == claim.work_id
    && w.dataset_id == claim.dataset_id
    && is_running w.state
    && opt_eq nat_eq w.lease_token (some claim.lease_token)
    && expires_after w.lease_expires_at current
    && holds_fence claim (find_dataset claim.dataset_id db)

unfoldable pub locked_lease_matches : Work → Dataset → WorkClaim → ℕ → Bool
locked_lease_matches w d claim current =
    is_running w.state
    && opt_eq nat_eq w.lease_token (some claim.lease_token)
    && d.fence_epoch == claim.fence_epoch
    && expires_after w.lease_expires_at current
