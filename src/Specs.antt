-- ===== src/Specs.antt =====
-- state/repository.py: specification revisions, and the REBUILD work that converges a dataset.
pub mod Progress
pub mod Activation
use lance_etl.Common.{
  ℕ, String, Bool, true, false, ◌&&◌, ◌||◌, not, Option, none, some, List, [], ◌∷◌, Result, ok, err,
  state_transition, integrity, one, raise_if, ◌>>=◌, ◌>>◌, ◌==◌, nat_eq, str_eq, opt_eq, select,
  find_row, update_rows, exists_row, count_rows, if◌then◌else◌,
}
use lance_etl.Types.{RoutingIdentity, WorkState, WorkKind, WorkPhase, is_active}
use lance_etl.Types.Plan.{is_none}
use lance_etl.Types.Ids.{Uuids, deterministic_rebuild_work_id, rebuild_uri, validate_identity}
use lance_etl.Sources.{source_from_row}
use lance_etl.Db.{
  Source, Dataset, Work, SpecRevision, SpecRevisionState, Database, find_dataset, find_source,
  find_work, insert_work,
}
use lance_etl.Queue.Ingest.{has_open_publication}
use lance_etl.Queue.Publish.{source_for_dataset, on_route}
use lance_etl.Planning.Enqueue.{is_active_revision, active_spec_revision_id, same_frozen_inputs}

-- The REBUILD row that `enqueue_rebuild` and `assign_dataset_spec_revision` insert.
unfoldable pub rebuild_row : ℕ → Dataset → ℕ → ℕ → String → ℕ → Work
rebuild_row work_id d seq spec_revision_id candidate_uri current = record {
  work_id = work_id;
  dataset_id = d.dataset_id;
  source_id = d.source_id;
  source_snapshot_seq = seq;
  spec_revision_id = spec_revision_id;
  kind = WorkKind.rebuild;
  state = WorkState.pending;
  phase = WorkPhase.compact;
  lease_token = none;
  lease_expires_at = none;
  attempt_count = 0;
  next_attempt_at = current;
  expected_ingest_lance_uri = d.ingest_lance_uri;
  expected_ingest_lance_version = d.ingest_lance_version;
  expected_active_publication_id = d.active_publication_id;
  candidate_lance_uri = some candidate_uri;
  candidate_lance_version = some 0;
  source_applied_at = none;
  source_row_count = none;
  source_digest = none;
  artifact_manifest_uri = none;
  artifact_digest = none;
  error_code = none;
  error_message = none;
  created_at = current;
  updated_at = current;
}

-- The sole active dataset of a route.
unfoldable pub sole_row : List Dataset → Result Dataset
sole_row (d ∷ []) = ok d
sole_row _ = err (state_transition "dataset route is absent or ambiguous")

unfoldable pub dataset_and_state_for_identity : RoutingIdentity → Database → Result Dataset
unfolding sole_row
dataset_and_state_for_identity identity db = sole_row (select (on_route identity db) db.datasets)

-- The sequence that a dataset has materialized.
unfoldable pub materialized_seq : Dataset → Option ℕ
materialized_seq d =
    if is_none d.ingest_lance_version then none else d.last_applied_source_snapshot_seq

abbrev or_raise : Option ℕ → Result ℕ
or_raise none = err (state_transition "dataset has no materialized source state to rebuild")
or_raise (some seq) = ok seq

unfoldable pub enqueue_rebuild : Uuids → RoutingIdentity → ℕ → ℕ → Database → Result (ℕ × Database)
enqueue_rebuild u identity request_id current db = do
  _ ← validate_identity identity
  d ← dataset_and_state_for_identity identity db
  seq ← or_raise (materialized_seq d)
  raise_if (has_open_publication d.dataset_id db)
      (state_transition "cannot enqueue rebuild while a publication generation is open")
  let work_id = deterministic_rebuild_work_id u d.dataset_id request_id
  source ← source_for_dataset d db
  uri ← rebuild_uri u source.lance_base_uri d.dataset_id work_id
  db' ← insert_work (rebuild_row work_id d seq d.desired_spec_revision_id uri current) db
  ok (work_id, db')

abbrev pub desiring : ℕ → Dataset → Dataset
desiring revision_id d = record d { desired_spec_revision_id = revision_id }

unfoldable pub desire_revision : ℕ → ℕ → Database → Database
desire_revision dataset_id revision_id db = record db {
  datasets =
      update_rows (λ (d : Dataset). d.dataset_id == dataset_id) (desiring revision_id) db.datasets;
}

abbrev revision_active : Option SpecRevision → Bool
revision_active none = false
revision_active (some r) = is_active_revision r.state

-- The REBUILD of an assignment, on the dataset row read before the pointer moved.
unfoldable pub converge :
    Uuids → Dataset → ℕ → Option ℕ → ℕ → Database → Result (Option ℕ × Database)
unfolding rebuild_row
converge u d revision_id none current db = ok (none, db)
converge u d revision_id (some seq) current db =
    if has_open_publication d.dataset_id db then ok (none, db) else do
      let work_id = deterministic_rebuild_work_id u d.dataset_id revision_id
      source ← source_for_dataset d db
      uri ← rebuild_uri u source.lance_base_uri d.dataset_id work_id
      let row = rebuild_row work_id d seq revision_id uri current
      db' ← insert_work row db
      stored ← one (find_work work_id db')
      raise_if
          (not
            (same_frozen_inputs stored row && opt_eq str_eq stored.candidate_lance_uri (some uri)))
          (state_transition "dataset revision assignment rebuild carries different frozen inputs")
      ok (some work_id, db')

abbrev or_missing : Option Dataset → Result Dataset
or_missing none = err (state_transition "dataset is missing")
or_missing (some d) = ok d

unfoldable pub assign_dataset_spec_revision :
    Uuids → ℕ → ℕ → ℕ → Database → Result (Option ℕ × Database)
assign_dataset_spec_revision u dataset_id revision_id current db = do
  d ← or_missing (find_dataset dataset_id db)
  raise_if
      (not (
        revision_active
          (find_row (λ (r : SpecRevision). r.spec_revision_id == revision_id) db.revisions)))
      (state_transition "desired dataset specification revision must be ACTIVE")
  let db1 = desire_revision dataset_id revision_id db
  if opt_eq nat_eq d.materialized_spec_revision_id (some revision_id)
      then ok (none, db1)
      else converge u d revision_id (materialized_seq d) current db1

abbrev pub retire_active : SpecRevision → SpecRevision
retire_active r = record r { state = SpecRevisionState.retired }

abbrev pub activate_draft : ℕ → SpecRevision → SpecRevision
activate_draft current r = record r {
  state = SpecRevisionState.active;
  activated_at = some current;
}

abbrev pub is_draft : SpecRevisionState → Bool
is_draft SpecRevisionState.draft = true
is_draft _ = false

abbrev pub active_in : ℕ → SpecRevision → Bool
active_in spec_id r = r.spec_id == spec_id && is_active_revision r.state

abbrev pub draft_with : ℕ → SpecRevision → Bool
draft_with revision_id r = r.spec_revision_id == revision_id && is_draft r.state

-- The two UPDATEs of an activation.
unfoldable pub swap_active : ℕ → ℕ → ℕ → List SpecRevision → List SpecRevision
swap_active spec_id revision_id current rows =
    update_rows (draft_with revision_id) (activate_draft current)
      (update_rows (active_in spec_id) retire_active rows)

unfoldable pub activate_found : Option SpecRevision → ℕ → ℕ → Database → Result Database
unfolding swap_active
activate_found none revision_id current db =
    err (state_transition "dataset specification revision is missing")
activate_found (some candidate) revision_id current db =
    if is_active_revision candidate.state then ok db else do
      raise_if (not (is_draft candidate.state))
          (state_transition "only a DRAFT specification revision may be activated")
      raise_if (not (count_rows (draft_with revision_id) db.revisions == 1))
          (state_transition "draft activation lost its lifecycle fence")
      ok (record db { revisions = swap_active candidate.spec_id revision_id current db.revisions })

unfoldable pub activate_spec_revision : ℕ → ℕ → Database → Result Database
unfolding activate_found
activate_spec_revision revision_id current db =
    activate_found (find_row (λ (r : SpecRevision). r.spec_revision_id == revision_id) db.revisions)
      revision_id current db

abbrev pub defaulting : ℕ → Source → Source
defaulting spec_id s = record s { default_spec_id = spec_id }

abbrev or_no_source : Option Source → Result Source
or_no_source none = err (state_transition "Iceberg source is missing")
or_no_source (some s) = ok s

unfoldable pub set_source_default_spec : ℕ → ℕ → Database → Result Database
set_source_default_spec source_id spec_id db = do
  _ ← or_no_source (find_source source_id db)
  _ ← active_spec_revision_id spec_id db
  let db' = record db {
    sources =
        update_rows (λ (s : Source). s.source_id == source_id) (defaulting spec_id) db.sources;
  }
  updated ← one (find_source source_id db')
  _ ← source_from_row updated
  ok db'
