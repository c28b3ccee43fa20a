-- ===== src/Examples.antt =====
-- A small control plane, run through its life: one source, one dataset, one specification.
pub mod Rows
pub mod Runs
pub mod Steps
pub mod Cleanups
pub mod Reconciling
pub mod Refusals
pub mod Lineages
pub mod Collapses
pub mod Witnesses
use lance_etl.Text.{strokes, count, hash}
use lance_etl.Common.{
  ℕ, zero, suc, ◌+◌, ◌*◌, ◌/◌, ◌%◌, String, Bool, true, false, Option, none, some, List, [], ◌∷◌,
  Result, ok, err, ◌==◌, if◌then◌else◌, ℤ, pos, take,
}
use lance_etl.Types.{
  Bytes, SourceLifecycleState, SourceSnapshotKind, RoutingIdentity, WorkClaim, WorkKind, WorkPhase,
}
use lance_etl.Types.Ids.{Uuids}
use lance_etl.Types.Plan.{SourceSnapshotPlan}
use lance_etl.Types.Evidence.{IndexType, PublicationIndexEvidence, PublicationEvidence}
use lance_etl.Db.{Source, SpecRevision, SpecRevisionState, IndexRow, Database}

abbrev pub uuids : Uuids
uuids = record {
  uuid5 = λ namespace name. hash (namespace % 89) name;
  uuid_text = strokes;
  parse_uuid = λ s. some (count s);
  int_text = strokes;
}

abbrev pub tenant : RoutingIdentity
tenant = record { tenant_id = "t"; namespace = "n"; org_id = "o" }

abbrev pub source_row : Source
source_row = record {
  source_id = 1;
  source_name = "events";
  spark_catalog = "lake";
  table_namespace = "db.raw";
  table_name = "rows";
  lance_base_uri = "s3://lake/";
  lifecycle_state = SourceLifecycleState.active;
  default_spec_id = 3;
  replay_horizon = 1;
  planning_epoch = 2;
}

abbrev revision : SpecRevision
revision = record {
  spec_revision_id = 5;
  spec_id = 3;
  state = SpecRevisionState.active;
  activated_at = some 0;
  retained_publications = 1;
  artifact_retention = 1;
}

abbrev index_row : IndexRow
index_row = record { spec_revision_id = 5; index_definition_id = 7; index_type = IndexType.btree }

abbrev pub empty_plane : Database
empty_plane = record {
  sources = source_row ∷ [];
  snapshots = [];
  datasets = [];
  works = [];
  publications = [];
  publication_indexes = [];
  revisions = revision ∷ [];
  index_definitions = index_row ∷ [];
  next_seq = 1;
}

abbrev pub plan_of : ℕ → Option ℤ → ℕ → SourceSnapshotKind → ℤ → SourceSnapshotPlan
plan_of snapshot parent order kind epoch = record {
  source_id = 1;
  snapshot_id = pos snapshot;
  parent_snapshot_id = parent;
  iceberg_sequence_number = pos order;
  partition_spec_id = pos 0;
  committed_at = 9;
  zoned = true;
  iceberg_operation = "append";
  kind = kind;
  source_planning_epoch = some epoch;
}

abbrev pub baseline : SourceSnapshotPlan
baseline = plan_of 100 none 1 SourceSnapshotKind.baseline (pos 2)

abbrev bytes : ℕ → Bytes
bytes zero = []
bytes (suc n) = 7 ∷ bytes n

abbrev pub digest : Bytes
digest = bytes 32

abbrev pub evidence : PublicationEvidence
evidence = record {
  schema_digest = digest;
  total_row_count = pos 10;
  distinct_row_count = pos 10;
  live_row_count = pos 10;
  distinct_live_row_count = pos 10;
  fragment_count = pos 1;
  indexes =
      (record {
        index_definition_id = 7;
        actual_index_type = IndexType.btree;
        indexed_fragment_count = pos 1;
        unindexed_fragment_count = pos 0;
        artifact_generation_digest = none;
      })
      ∷ [];
}
