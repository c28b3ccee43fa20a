-- ===== src/Db.antt =====
-- state/tables.py: the rows of the control plane, and the partial unique indexes of `dataset_work`.
-- A table is the list of its rows in the order of insertion. Columns that only record when a row
-- was last touched (`updated_at`, except on `dataset_work`) and `launcher_kind`, which has one
-- value, are left out.
use lance_etl.Common.{
  ℕ, String, Bool, true, ◌&&◌, ◌||◌, not, Option, List, [], ◌∷◌, ◌++◌, Result, ok, err, integrity,
  ◌==◌, if◌then◌else◌, exists_row, find_row,
}
use lance_etl.Types.{
  Bytes, SourceLifecycleState, DatasetLifecycleState, SourceSnapshotKind, SourceSnapshotState,
  WorkKind, WorkState, WorkPhase, RoutingIdentity, is_rebuild, is_running, is_publish, is_open,
  is_ingest,
}
use lance_etl.Types.Evidence.{IndexType, PublicationIndexEvidence}

-- iceberg_sources
pub record Source : Type 0 where
  pub source_id : ℕ
  pub source_name : String
  pub spark_catalog : String
  pub table_namespace : String
  pub table_name : String
  pub lance_base_uri : String
  pub lifecycle_state : SourceLifecycleState
  pub default_spec_id : ℕ
  pub replay_horizon : ℕ
  pub planning_epoch : ℕ

-- source_snapshots
pub record Snapshot : Type 0 where
  pub source_snapshot_seq : ℕ
  pub source_id : ℕ
  pub snapshot_id : ℕ
  pub parent_snapshot_id : Option ℕ
  pub iceberg_sequence_number : ℕ
  pub partition_spec_id : ℕ
  pub committed_at : ℕ
  pub iceberg_operation : String
  pub kind : SourceSnapshotKind
  pub state : SourceSnapshotState
  pub error_code : Option String
  pub error_message : Option String
  pub created_at : ℕ

-- datasets
pub record Dataset : Type 0 where
  pub dataset_id : ℕ
  pub source_id : ℕ
  pub identity : RoutingIdentity
  pub lifecycle_state : DatasetLifecycleState
  pub desired_spec_revision_id : ℕ
  pub materialized_spec_revision_id : Option ℕ
  pub last_applied_source_snapshot_seq : Option ℕ
  pub ingest_lance_uri : String
  pub ingest_lance_version : Option ℕ
  pub active_publication_id : Option ℕ
  pub fence_epoch : ℕ

-- dataset_work
pub record Work : Type 0 where
  pub work_id : ℕ
  pub dataset_id : ℕ
  pub source_id : ℕ
  pub source_snapshot_seq : ℕ
  pub spec_revision_id : ℕ
  pub kind : WorkKind
  pub state : WorkState
  pub phase : WorkPhase
  pub lease_token : Option ℕ
  pub lease_expires_at : Option ℕ
  pub attempt_count : ℕ
  pub next_attempt_at : ℕ
  pub expected_ingest_lance_uri : String
  pub expected_ingest_lance_version : Option ℕ
  pub expected_active_publication_id : Option ℕ
  pub candidate_lance_uri : Option String
  pub candidate_lance_version : Option ℕ
  pub source_applied_at : Option ℕ
  pub source_row_count : Option ℕ
  pub source_digest : Option Bytes
  pub artifact_manifest_uri : Option String
  pub artifact_digest : Option Bytes
  pub error_code : Option String
  pub error_message : Option String
  pub created_at : ℕ
  pub updated_at : ℕ

-- dataset_publications
pub record Publication : Type 0 where
  pub publication_id : ℕ
  pub dataset_id : ℕ
  pub work_id : ℕ
  pub spec_revision_id : ℕ
  pub source_snapshot_seq : ℕ
  pub lance_uri : String
  pub lance_version : ℕ
  pub schema_digest : Bytes
  pub total_row_count : ℕ
  pub distinct_row_count : ℕ
  pub live_row_count : ℕ
  pub distinct_live_row_count : ℕ
  pub fragment_count : ℕ
  pub manifest_uri : String
  pub manifest_digest : Bytes
  pub published_at : ℕ
  pub retired_at : Option ℕ

-- publication_indexes
pub record PublicationIndex : Type 0 where
  pub publication_id : ℕ
  pub spec_revision_id : ℕ
  pub evidence : PublicationIndexEvidence

pub data SpecRevisionState : Type 0 where
  draft active retired : SpecRevisionState

-- dataset_spec_revisions, less the options that only workers read
pub record SpecRevision : Type 0 where
  pub spec_revision_id : ℕ
  pub spec_id : ℕ
  pub state : SpecRevisionState
  pub activated_at : Option ℕ
  pub retained_publications : ℕ
  pub artifact_retention : ℕ

-- index_definitions, less the options that only workers read
pub record IndexRow : Type 0 where
  pub spec_revision_id : ℕ
  pub index_definition_id : ℕ
  pub index_type : IndexType

pub record Database : Type 0 where
  pub sources : List Source
  pub snapshots : List Snapshot
  pub datasets : List Dataset
  pub works : List Work
  pub publications : List Publication
  pub publication_indexes : List PublicationIndex
  pub revisions : List SpecRevision
  pub index_definitions : List IndexRow
  -- the next value of the identity column `source_snapshot_seq`
  pub next_seq : ℕ

-- A unique index over the rows where `p` holds; `same` compares the indexed columns.
abbrev pub is_unique : (Work → Bool) → (Work → Work → Bool) → List Work → Bool
is_unique p same [] = true
is_unique p same (w ∷ ws) = not (p w && exists_row (λ v. p v && same w v) ws) && is_unique p same ws

abbrev pub same_dataset : Work → Work → Bool
same_dataset w v = w.dataset_id == v.dataset_id

abbrev pub kind_eq : WorkKind → WorkKind → Bool
kind_eq a b =
    is_ingest a && is_ingest b || (is_publish a && is_publish b) || (is_rebuild a && is_rebuild b)

abbrev pub is_running_row : Work → Bool
is_running_row w = is_running w.state

abbrev pub is_open_publish : Work → Bool
is_open_publish w = is_publish w.kind && is_open w.state

-- uq_dataset_work_source_kind, uq_dataset_work_running_dataset and uq_dataset_work_open_publish
unfoldable pub indexes_hold : List Work → Bool
indexes_hold works =
    is_unique (λ w. not (is_rebuild w.kind))
      (λ w v.
        same_dataset w v && w.source_snapshot_seq == v.source_snapshot_seq && kind_eq w.kind v.kind)
      works
    && is_unique is_running_row same_dataset works
    && is_unique is_open_publish same_dataset works

-- The end of a statement that may bring a row into one of the indexes.
unfoldable pub store_works : List Work → Database → Result Database
store_works works db =
    if indexes_hold works
    then ok (record db { works = works })
    else err (integrity "unique index of dataset_work")

unfoldable pub find_work : ℕ → Database → Option Work
find_work work_id db = find_row (λ w. w.work_id == work_id) db.works

unfoldable pub find_dataset : ℕ → Database → Option Dataset
find_dataset dataset_id db = find_row (λ d. d.dataset_id == dataset_id) db.datasets

unfoldable pub find_source : ℕ → Database → Option Source
find_source source_id db = find_row (λ s. s.source_id == source_id) db.sources

unfoldable pub find_snapshot : ℕ → Database → Option Snapshot
find_snapshot seq db = find_row (λ s. s.source_snapshot_seq == seq) db.snapshots

unfoldable pub find_publication : ℕ → Database → Option Publication
find_publication publication_id db =
    find_row (λ p. p.publication_id == publication_id) db.publications

-- INSERT … ON CONFLICT (work_id) DO NOTHING
unfoldable pub insert_work : Work → Database → Result Database
unfolding store_works
insert_work w db =
    if exists_row (λ v. v.work_id == w.work_id) db.works
    then ok db
    else store_works (db.works ++ w ∷ []) db
