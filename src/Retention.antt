-- ===== src/Retention.antt =====
-- state/repository.py: what Iceberg expiration must keep, and the deletion of retired publications
-- and of old audit rows; ControlPlaneStatus and PublicationCleanup of state/types.py; the
-- retention decision of reconciler/service.py. The order of rows that a window's ORDER BY leaves
-- tied is the database's (`tie`); `uuid.UUID.hex` is `hex`.
pub mod Floor
pub mod Status
pub mod Cleanup
pub mod Deletion
pub mod Audit
use Prim.Native.String.{◌++◌ as append}
use lance_etl.Common.{
  ℕ, ◌+◌, String, Bool, true, false, ◌&&◌, ◌||◌, not, Option, none, some, List, [], ◌∷◌, ◌++◌, map,
  Result, ok, value_error, state_transition, raise_if, ◌>>=◌, ◌>>◌, ◌==◌, ltb, leb, nat_eq, str_eq,
  opt_eq, take, select, find_row, exists_row, count_rows, min_of, sort_by, if◌then◌else◌, ℤ,
  is_nonpositive, pos_part,
}
use lance_etl.Types.{
  SourceSnapshotState, WorkState, is_gated, is_succeeded, is_running, is_blocked, is_publish,
}
use lance_etl.Types.Ids.{str_len, all_chars, strip_prefix}
use lance_etl.Types.Plan.{is_none}
use lance_etl.Db.{
  Work, Snapshot, Source, Publication, PublicationIndex, SpecRevision, Database, find_source,
  find_snapshot, find_publication,
}
use lance_etl.Queue.{is_due}

-- created_at >= current - replay_horizon, with the joined source
abbrev pub replayable_from : ℕ → Snapshot → Option Source → Bool
replayable_from current s none = false
replayable_from current s (some source) = leb current (s.created_at + source.replay_horizon)

unfoldable pub in_replay_horizon : ℕ → Database → Snapshot → Bool
unfolding find_source
in_replay_horizon current db s = replayable_from current s (find_source s.source_id db)

abbrev pub is_blocked_snapshot : Snapshot → Bool
is_blocked_snapshot s = is_gated s.state

abbrev pub is_unfinished : Work → Bool
is_unfinished w = not (is_succeeded w.state)

-- The UNION ALL of the three selections.
unfoldable pub candidate_sequences : ℕ → Database → List ℕ
unfolding in_replay_horizon
candidate_sequences current db =
    map (λ (s : Snapshot). s.source_snapshot_seq) (select is_blocked_snapshot db.snapshots)
    ++ (map (λ (w : Work). w.source_snapshot_seq) (select is_unfinished db.works)
        ++ map (λ (s : Snapshot). s.source_snapshot_seq)
            (select (in_replay_horizon current db) db.snapshots))

abbrev pub floor_row : Database → Option ℕ → Option Snapshot
floor_row db none = none
floor_row db (some seq) = find_snapshot seq db

unfoldable pub select_retention_floor : ℕ → Database → Option Snapshot
unfolding candidate_sequences find_snapshot
select_retention_floor current db = floor_row db (min_of (candidate_sequences current db))

unfoldable pub retention_floor : ℕ → Database → Option Snapshot
unfolding select_retention_floor
retention_floor now db = select_retention_floor now db

pub record ControlPlaneStatus : Type 0 where
  pub pending_work : ℕ
  pub running_work : ℕ
  pub retry_wait_work : ℕ
  pub blocked_work : ℕ
  pub due_work : ℕ
  pub blocked_source_snapshots : ℕ
  pub oldest_open_work_at : Option ℕ
  pub retention_source_snapshot_seq : Option ℕ
  pub retention_snapshot_id : Option ℕ
  pub retention_parent_snapshot_id : Option ℕ
  pub retention_state : Option SourceSnapshotState
  pub retention_created_at : Option ℕ

abbrev pub is_pending : WorkState → Bool
is_pending WorkState.pending = true
is_pending _ = false

abbrev pub is_retry_wait : WorkState → Bool
is_retry_wait WorkState.retry_wait = true
is_retry_wait _ = false

-- A field of the floor, if there is one.
abbrev pub floor_field : {A : Type 0} → (Snapshot → A) → Option Snapshot → Option A
floor_field f none = none
floor_field f (some row) = some (f row)

abbrev pub floor_parent : Option Snapshot → Option ℕ
floor_parent none = none
floor_parent (some row) = row.parent_snapshot_id

-- The counts of a state come from a GROUP BY over the rows that have not succeeded.
unfoldable pub status_with : ℕ → Database → Option Snapshot → ControlPlaneStatus
unfolding is_due
status_with current db floor =
    let open_rows = select is_unfinished db.works in
    record {
      pending_work = count_rows (λ (w : Work). is_pending w.state) open_rows;
      running_work = count_rows (λ (w : Work). is_running w.state) open_rows;
      retry_wait_work = count_rows (λ (w : Work). is_retry_wait w.state) open_rows;
      blocked_work = count_rows (λ (w : Work). is_blocked w.state) open_rows;
      due_work = count_rows (is_due current) db.works;
      blocked_source_snapshots = count_rows is_blocked_snapshot db.snapshots;
      oldest_open_work_at = min_of (map (λ (w : Work). w.created_at) open_rows);
      retention_source_snapshot_seq = floor_field (λ row. row.source_snapshot_seq) floor;
      retention_snapshot_id = floor_field (λ row. row.snapshot_id) floor;
      retention_parent_snapshot_id = floor_parent floor;
      retention_state = floor_field (λ row. row.state) floor;
      retention_created_at = floor_field (λ row. row.created_at) floor;
    }

unfoldable pub control_plane_status : ℕ → Database → ControlPlaneStatus
unfolding select_retention_floor status_with
control_plane_status current db = status_with current db (select_retention_floor current db)

pub record RetentionDecision : Type 0 where
  pub retention_held : Bool
  pub source_snapshot_seq : Option ℕ
  pub retain_snapshot_id : Option ℕ
  pub state : Option SourceSnapshotState

-- Python's `or` on optional integers: 0 counts as absent.
abbrev pub or_nonzero : Option ℕ → Option ℕ → Option ℕ
or_nonzero none other = other
or_nonzero (some n) other = if n == 0 then other else some n

unfoldable pub retention_decision : ControlPlaneStatus → RetentionDecision
retention_decision status =
    if is_none status.retention_source_snapshot_seq
    then record {
      retention_held = false;
      source_snapshot_seq = none;
      retain_snapshot_id = none;
      state = none;
    }
    else record {
      retention_held = true;
      source_snapshot_seq = status.retention_source_snapshot_seq;
      retain_snapshot_id =
          or_nonzero status.retention_parent_snapshot_id status.retention_snapshot_id;
      state = status.retention_state;
    }

pub record PublicationCleanup : Type 0 where
  pub publication_id : ℕ
  pub work_id : ℕ
  pub dataset_id : ℕ
  pub lance_uri : String
  pub lance_version : ℕ
  pub manifest_uri : String
  pub pin_name : String

abbrev pub hex_digit : ℕ → Bool
hex_digit c = leb b'0' c && leb c b'9' || (leb b'a' c && leb c b'f')

abbrev pub pin_tail : Option String → Bool
pin_tail none = false
pin_tail (some tail) = all_chars hex_digit tail && str_len tail == 32

-- PIN_PATTERN.fullmatch
unfoldable pub matches_pin : String → Bool
unfolding strip_prefix
matches_pin name = pin_tail (strip_prefix "candidate-" name)

-- SELECT … FROM datasets WHERE active_publication_id = publication_id
unfoldable pub is_served : Database → ℕ → Bool
is_served db publication_id =
    exists_row (λ d. opt_eq nat_eq d.active_publication_id (some publication_id)) db.datasets

-- The spec revision that a publication is joined with.
unfoldable pub revision_of : Database → Publication → Option SpecRevision
revision_of db p =
    find_row (λ (r : SpecRevision). r.spec_revision_id == p.spec_revision_id) db.revisions

-- retired_at + artifact_retention_seconds <= current, on a nullable column
abbrev pub retention_over : Option ℕ → ℕ → ℕ → Bool
retention_over none retention current = false
retention_over (some retired_at) retention current = leb (retired_at + retention) current

abbrev pub retired_time : Option ℕ → ℕ
retired_time none = 0
retired_time (some t) = t

-- ORDER BY retired_at, publication_id
abbrev pub retired_before : Publication → Publication → Bool
retired_before p q =
    ltb (retired_time p.retired_at) (retired_time q.retired_at)
    || (retired_time p.retired_at == retired_time q.retired_at
        && ltb p.publication_id q.publication_id)

-- The columns that the row must share with the cleanup.
abbrev pub same_cleanup : PublicationCleanup → Publication → Bool
same_cleanup cleanup row =
    row.work_id == cleanup.work_id
    && row.dataset_id == cleanup.dataset_id
    && str_eq row.lance_uri cleanup.lance_uri
    && row.lance_version == cleanup.lance_version
    && str_eq row.manifest_uri cleanup.manifest_uri

-- The two deletions, both under `~active`, and the row count of the second.
unfoldable pub delete_publication : ℕ → Database → Bool × Database
unfolding is_served
delete_publication publication_id db =
    let active = is_served db publication_id in
    let doomed = λ (p : Publication). p.publication_id == publication_id && not active in
    let doomed_index = λ (i : PublicationIndex). i.publication_id == publication_id && not active in
    (
      count_rows doomed db.publications == 1,
      record db {
        publication_indexes = select (λ i. not (doomed_index i)) db.publication_indexes;
        publications = select (λ p. not (doomed p)) db.publications;
      },
    )

-- A publication that is gone has been cleaned up.
abbrev pub finalize_row :
    PublicationCleanup → Database → Option Publication → Result (Bool × Database)
finalize_row cleanup db none = ok (true, db)
finalize_row cleanup db (some row) = do
  raise_if (not (same_cleanup cleanup row) || is_none row.retired_at)
      (state_transition "publication cleanup identity differs from durable state")
  ok (delete_publication cleanup.publication_id db)

unfoldable pub finalize_publication_cleanup :
    PublicationCleanup → Database → Result (Bool × Database)
unfolding find_publication delete_publication
finalize_publication_cleanup cleanup db =
    finalize_row cleanup db (find_publication cleanup.publication_id db)

-- ORDER BY updated_at, work_id
abbrev pub updated_before : Work → Work → Bool
updated_before v w =
    ltb v.updated_at w.updated_at || (v.updated_at == w.updated_at && ltb v.work_id w.work_id)

-- The `WHERE` clause of the audit query.
unfoldable pub is_prunable : ℕ → Database → Work → Bool
is_prunable completed_before db w =
    is_succeeded w.state
    && is_publish w.kind
    && ltb w.updated_at completed_before
    && not (exists_row (λ (p : Publication). p.work_id == w.work_id) db.publications)

unfoldable pub delete_completed_audit : ℕ → ℤ → Database → Result ((ℕ × ℕ) × Database)
unfolding is_prunable
delete_completed_audit completed_before limit db = do
  raise_if (is_nonpositive limit) (value_error "audit deletion limit must be positive")
  let rows =
      take (pos_part limit)
        (sort_by updated_before (select (is_prunable completed_before db) db.works))
  let doomed = λ (w : Work). exists_row (λ (v : Work). v.work_id == w.work_id) rows
  ok ((count_rows doomed db.works, 0), record db { works = select (λ w. not (doomed w)) db.works })

module _ (hex : ℕ → String) where
  unfoldable pub candidate_pin_name : ℕ → Result String
  unfolding matches_pin
  candidate_pin_name work_id = do
    let name = append "candidate-" (hex work_id)
    raise_if (not (matches_pin name)) (value_error "invalid candidate publication pin")
    ok name

  unfoldable pub cleanup_of : Publication → Result PublicationCleanup
  unfolding candidate_pin_name
  cleanup_of row = do
    pin ← candidate_pin_name row.work_id
    ok (record {
      publication_id = row.publication_id;
      work_id = row.work_id;
      dataset_id = row.dataset_id;
      lance_uri = row.lance_uri;
      lance_version = row.lance_version;
      manifest_uri = row.manifest_uri;
      pin_name = pin;
    })

  unfoldable pub cleanups_of : List Publication → Result (List PublicationCleanup)
  unfolding cleanup_of
  cleanups_of [] = ok []
  cleanups_of (row ∷ rows) = do
    cleanup ← cleanup_of row
    cleanups ← cleanups_of rows
    ok (cleanup ∷ cleanups)

module _ (tie : Publication → Publication → Bool) where
  -- The window's order: published_at DESC.
  abbrev pub published_after : Publication → Publication → Bool
  published_after q p =
      ltb p.published_at q.published_at || (q.published_at == p.published_at && tie q p)

  -- The rows of the window that come before `p`.
  unfoldable pub ranked_before : Database → Publication → Publication → Bool
  unfolding revision_of
  ranked_before db p q =
      q.dataset_id == p.dataset_id && not (is_none (revision_of db q)) && published_after q p

  unfoldable pub publication_rank : Database → Publication → ℕ
  unfolding ranked_before
  publication_rank db p = 1 + count_rows (ranked_before db p) db.publications

  abbrev pub removable_under : ℕ → Database → Publication → Option SpecRevision → Bool
  removable_under current db p none = false
  removable_under current db p (some r) =
      retention_over p.retired_at r.artifact_retention current
      && ltb r.retained_publications (publication_rank db p)
      && not (is_served db p.publication_id)

  unfoldable pub is_removable : ℕ → Database → Publication → Bool
  unfolding revision_of publication_rank is_served
  is_removable current db p = removable_under current db p (revision_of db p)

  unfoldable pub claim_publication_cleanup :
      (ℕ → String) → ℕ → ℤ → Database → Result (List PublicationCleanup)
  unfolding is_removable cleanups_of
  claim_publication_cleanup hex current limit db = do
    raise_if (is_nonpositive limit) (value_error "cleanup limit must be positive")
    let rows =
        take (pos_part limit)
          (sort_by retired_before (select (is_removable current db) db.publications))
    cleanups_of hex rows
