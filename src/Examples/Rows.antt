-- ===== src/Examples/Rows.antt =====
-- The rows that the runs meet, as the runs compute them.
use lance_etl.Common.{none, some, pos}
use lance_etl.Types.{
  SourceLifecycleState, DatasetLifecycleState, SourceSnapshotKind, SourceSnapshotState, WorkKind,
  WorkState, WorkPhase,
}
use lance_etl.Types.Evidence.{IndexType}
use lance_etl.Db.{
  Source, Snapshot, Dataset, Work, Publication, PublicationIndex, SpecRevision, SpecRevisionState,
  IndexRow,
}
use lance_etl.Examples.{tenant, digest}

abbrev pub planned_source : Source
planned_source = record {
  source_id = 1;
  source_name = "events";
  spark_catalog = "lake";
  table_namespace = "db.raw";
  table_name = "rows";
  lance_base_uri = "s3://lake/";
  lifecycle_state = SourceLifecycleState.active;
  default_spec_id = 3;
  replay_horizon = 1;
  planning_epoch = 2;
}

abbrev pub planned_snapshot : Snapshot
planned_snapshot = record {
  source_snapshot_seq = 1;
  source_id = 1;
  snapshot_id = 100;
  parent_snapshot_id = none;
  iceberg_sequence_number = 1;
  partition_spec_id = 0;
  committed_at = 9;
  iceberg_operation = "append";
  kind = SourceSnapshotKind.baseline;
  state = SourceSnapshotState.sealed;
  error_code = none;
  error_message = none;
  created_at = 10;
}

abbrev pub planned_dataset : Dataset
planned_dataset = record {
  dataset_id = 31;
  source_id = 1;
  identity = tenant;
  lifecycle_state = DatasetLifecycleState.active;
  desired_spec_revision_id = 5;
  materialized_spec_revision_id = none;
  last_applied_source_snapshot_seq = none;
  ingest_lance_uri = "s3://lake/|||||||||||||||||||||||||||||||.lance";
  ingest_lance_version = none;
  active_publication_id = none;
  fence_epoch = 0;
}

abbrev pub planned_work : Work
planned_work = record {
  work_id = 28;
  dataset_id = 31;
  source_id = 1;
  source_snapshot_seq = 1;
  spec_revision_id = 5;
  kind = WorkKind.ingest;
  state = WorkState.pending;
  phase = WorkPhase.ingest;
  lease_token = none;
  lease_expires_at = none;
  attempt_count = 0;
  next_attempt_at = 10;
  expected_ingest_lance_uri = "s3://lake/|||||||||||||||||||||||||||||||.lance";
  expected_ingest_lance_version = none;
  expected_active_publication_id = none;
  candidate_lance_uri = none;
  candidate_lance_version = none;
  source_applied_at = none;
  source_row_count = none;
  source_digest = none;
  artifact_manifest_uri = none;
  artifact_digest = none;
  error_code = none;
  error_message = none;
  created_at = 10;
  updated_at = 10;
}

abbrev pub planned_revision : SpecRevision
planned_revision = record {
  spec_revision_id = 5;
  spec_id = 3;
  state = SpecRevisionState.active;
  activated_at = some 0;
  retained_publications = 1;
  artifact_retention = 1;
}

abbrev pub planned_index_row : IndexRow
planned_index_row = record {
  spec_revision_id = 5;
  index_definition_id = 7;
  index_type = IndexType.btree;
}

abbrev pub ingest_claimed_dataset : Dataset
ingest_claimed_dataset = record {
  dataset_id = 31;
  source_id = 1;
  identity = tenant;
  lifecycle_state = DatasetLifecycleState.active;
  desired_spec_revision_id = 5;
  materialized_spec_revision_id = none;
  last_applied_source_snapshot_seq = none;
  ingest_lance_uri = "s3://lake/|||||||||||||||||||||||||||||||.lance";
  ingest_lance_version = none;
  active_publication_id = none;
  fence_epoch = 1;
}

abbrev pub ingest_claimed_work : Work
ingest_claimed_work = record {
  work_id = 28;
  dataset_id = 31;
  source_id = 1;
  source_snapshot_seq = 1;
  spec_revision_id = 5;
  kind = WorkKind.ingest;
  state = WorkState.running;
  phase = WorkPhase.ingest;
  lease_token = some 2;
  lease_expires_at = some 71;
  attempt_count = 1;
  next_attempt_at = 10;
  expected_ingest_lance_uri = "s3://lake/|||||||||||||||||||||||||||||||.lance";
  expected_ingest_lance_version = none;
  expected_active_publication_id = none;
  candidate_lance_uri = none;
  candidate_lance_version = none;
  source_applied_at = none;
  source_row_count = none;
  source_digest = none;
  artifact_manifest_uri = none;
  artifact_digest = none;
  error_code = none;
  error_message = none;
  created_at = 10;
  updated_at = 11;
}

abbrev pub ingest_done_snapshot : Snapshot
ingest_done_snapshot = record {
  source_snapshot_seq = 1;
  source_id = 1;
  snapshot_id = 100;
  parent_snapshot_id = none;
  iceberg_sequence_number = 1;
  partition_spec_id = 0;
  committed_at = 9;
  iceberg_operation = "append";
  kind = SourceSnapshotKind.baseline;
  state = SourceSnapshotState.complete;
  error_code = none;
  error_message = none;
  created_at = 10;
}

abbrev pub ingest_done_dataset : Dataset
ingest_done_dataset = record {
  dataset_id = 31;
  source_id = 1;
  identity = tenant;
  lifecycle_state = DatasetLifecycleState.active;
  desired_spec_revision_id = 5;
  materialized_spec_revision_id = some 5;
  last_applied_source_snapshot_seq = some 1;
  ingest_lance_uri = "s3://lake/|||||||||||||||||||||||||||||||.lance";
  ingest_lance_version = some 1;
  active_publication_id = none;
  fence_epoch = 1;
}

abbrev pub ingest_done_work : Work
ingest_done_work = record {
  work_id = 28;
  dataset_id = 31;
  source_id = 1;
  source_snapshot_seq = 1;
  spec_revision_id = 5;
  kind = WorkKind.ingest;
  state = WorkState.succeeded;
  phase = WorkPhase.ingest;
  lease_token = none;
  lease_expires_at = none;
  attempt_count = 1;
  next_attempt_at = 10;
  expected_ingest_lance_uri = "s3://lake/|||||||||||||||||||||||||||||||.lance";
  expected_ingest_lance_version = none;
  expected_active_publication_id = none;
  candidate_lance_uri = some "s3://lake/|||||||||||||||||||||||||||||||.lance";
  candidate_lance_version = some 1;
  source_applied_at = some 12;
  source_row_count = some 10;
  source_digest = some (digest);
  artifact_manifest_uri = none;
  artifact_digest = none;
  error_code = none;
  error_message = none;
  created_at = 10;
  updated_at = 12;
}

abbrev pub ingest_done_work_2 : Work
ingest_done_work_2 = record {
  work_id = 5;
  dataset_id = 31;
  source_id = 1;
  source_snapshot_seq = 1;
  spec_revision_id = 5;
  kind = WorkKind.publish;
  state = WorkState.pending;
  phase = WorkPhase.compact;
  lease_token = none;
  lease_expires_at = none;
  attempt_count = 0;
  next_attempt_at = 12;
  expected_ingest_lance_uri = "s3://lake/|||||||||||||||||||||||||||||||.lance";
  expected_ingest_lance_version = some 1;
  expected_active_publication_id = none;
  candidate_lance_uri = some "s3://lake/|||||||||||||||||||||||||||||||.lance";
  candidate_lance_version = some 1;
  source_applied_at = none;
  source_row_count = none;
  source_digest = none;
  artifact_manifest_uri = none;
  artifact_digest = none;
  error_code = none;
  error_message = none;
  created_at = 12;
  updated_at = 12;
}

abbrev pub publish_claimed_dataset : Dataset
publish_claimed_dataset = record {
  dataset_id = 31;
  source_id = 1;
  identity = tenant;
  lifecycle_state = DatasetLifecycleState.active;
  desired_spec_revision_id = 5;
  materialized_spec_revision_id = some 5;
  last_applied_source_snapshot_seq = some 1;
  ingest_lance_uri = "s3://lake/|||||||||||||||||||||||||||||||.lance";
  ingest_lance_version = some 1;
  active_publication_id = none;
  fence_epoch = 2;
}

abbrev pub publish_claimed_work : Work
publish_claimed_work = record {
  work_id = 5;
  dataset_id = 31;
  source_id = 1;
  source_snapshot_seq = 1;
  spec_revision_id = 5;
  kind = WorkKind.publish;
  state = WorkState.running;
  phase = WorkPhase.compact;
  lease_token = some 2;
  lease_expires_at = some 73;
  attempt_count = 1;
  next_attempt_at = 12;
  expected_ingest_lance_uri = "s3://lake/|||||||||||||||||||||||||||||||.lance";
  expected_ingest_lance_version = some 1;
  expected_active_publication_id = none;
  candidate_lance_uri = some "s3://lake/|||||||||||||||||||||||||||||||.lance";
  candidate_lance_version = some 1;
  source_applied_at = none;
  source_row_count = none;
  source_digest = none;
  artifact_manifest_uri = none;
  artifact_digest = none;
  error_code = none;
  error_message = none;
  created_at = 12;
  updated_at = 13;
}

abbrev pub live_dataset : Dataset
live_dataset = record {
  dataset_id = 31;
  source_id = 1;
  identity = tenant;
  lifecycle_state = DatasetLifecycleState.active;
  desired_spec_revision_id = 5;
  materialized_spec_revision_id = some 5;
  last_applied_source_snapshot_seq = some 1;
  ingest_lance_uri = "s3://lake/|||||||||||||||||||||||||||||||.lance";
  ingest_lance_version = some 1;
  active_publication_id = some 59;
  fence_epoch = 2;
}

abbrev pub live_work : Work
live_work = record {
  work_id = 5;
  dataset_id = 31;
  source_id = 1;
  source_snapshot_seq = 1;
  spec_revision_id = 5;
  kind = WorkKind.publish;
  state = WorkState.succeeded;
  phase = WorkPhase.publish;
  lease_token = none;
  lease_expires_at = none;
  attempt_count = 1;
  next_attempt_at = 12;
  expected_ingest_lance_uri = "s3://lake/|||||||||||||||||||||||||||||||.lance";
  expected_ingest_lance_version = some 1;
  expected_active_publication_id = none;
  candidate_lance_uri = some "s3://lake/|||||||||||||||||||||||||||||||.lance";
  candidate_lance_version = some 1;
  source_applied_at = none;
  source_row_count = none;
  source_digest = none;
  artifact_manifest_uri = some "s3://lake/m";
  artifact_digest = some (digest);
  error_code = none;
  error_message = none;
  created_at = 12;
  updated_at = 14;
}

abbrev pub live_publication : Publication
live_publication = record {
  publication_id = 59;
  dataset_id = 31;
  work_id = 5;
  spec_revision_id = 5;
  source_snapshot_seq = 1;
  lance_uri = "s3://lake/|||||||||||||||||||||||||||||||.lance";
  lance_version = 1;
  schema_digest = digest;
  total_row_count = 10;
  distinct_row_count = 10;
  live_row_count = 10;
  distinct_live_row_count = 10;
  fragment_count = 1;
  manifest_uri = "s3://lake/m";
  manifest_digest = digest;
  published_at = 14;
  retired_at = none;
}

abbrev pub live_index : PublicationIndex
live_index = record {
  publication_id = 59;
  spec_revision_id = 5;
  evidence = record {
    index_definition_id = 7;
    actual_index_type = IndexType.btree;
    indexed_fragment_count = pos 1;
    unindexed_fragment_count = pos 0;
    artifact_generation_digest = none;
  };
}

abbrev pub gated_source : Source
gated_source = record {
  source_id = 1;
  source_name = "events";
  spark_catalog = "lake";
  table_namespace = "db.raw";
  table_name = "rows";
  lance_base_uri = "s3://lake/";
  lifecycle_state = SourceLifecycleState.active;
  default_spec_id = 3;
  replay_horizon = 1;
  planning_epoch = 3;
}

abbrev pub gated_snapshot : Snapshot
gated_snapshot = record {
  source_snapshot_seq = 1;
  source_id = 1;
  snapshot_id = 100;
  parent_snapshot_id = none;
  iceberg_sequence_number = 1;
  partition_spec_id = 0;
  committed_at = 9;
  iceberg_operation = "append";
  kind = SourceSnapshotKind.baseline;
  state = SourceSnapshotState.blocked;
  error_code = some "SCHEMA";
  error_message = none;
  created_at = 10;
}

abbrev pub gated_work : Work
gated_work = record {
  work_id = 28;
  dataset_id = 31;
  source_id = 1;
  source_snapshot_seq = 1;
  spec_revision_id = 5;
  kind = WorkKind.ingest;
  state = WorkState.blocked;
  phase = WorkPhase.ingest;
  lease_token = none;
  lease_expires_at = none;
  attempt_count = 0;
  next_attempt_at = 10;
  expected_ingest_lance_uri = "s3://lake/|||||||||||||||||||||||||||||||.lance";
  expected_ingest_lance_version = none;
  expected_active_publication_id = none;
  candidate_lance_uri = none;
  candidate_lance_version = none;
  source_applied_at = none;
  source_row_count = none;
  source_digest = none;
  artifact_manifest_uri = none;
  artifact_digest = none;
  error_code = some "SCHEMA";
  error_message = none;
  created_at = 10;
  updated_at = 15;
}

abbrev pub reopened_source : Source
reopened_source = record {
  source_id = 1;
  source_name = "events";
  spark_catalog = "lake";
  table_namespace = "db.raw";
  table_name = "rows";
  lance_base_uri = "s3://lake/";
  lifecycle_state = SourceLifecycleState.active;
  default_spec_id = 3;
  replay_horizon = 1;
  planning_epoch = 4;
}

abbrev pub work_blocked_work : Work
work_blocked_work = record {
  work_id = 28;
  dataset_id = 31;
  source_id = 1;
  source_snapshot_seq = 1;
  spec_revision_id = 5;
  kind = WorkKind.ingest;
  state = WorkState.blocked;
  phase = WorkPhase.ingest;
  lease_token = none;
  lease_expires_at = none;
  attempt_count = 1;
  next_attempt_at = 10;
  expected_ingest_lance_uri = "s3://lake/|||||||||||||||||||||||||||||||.lance";
  expected_ingest_lance_version = none;
  expected_active_publication_id = none;
  candidate_lance_uri = none;
  candidate_lance_version = none;
  source_applied_at = none;
  source_row_count = none;
  source_digest = none;
  artifact_manifest_uri = none;
  artifact_digest = none;
  error_code = some "SCHEMA";
  error_message = some "bad column";
  created_at = 10;
  updated_at = 12;
}

abbrev pub work_retried_work : Work
work_retried_work = record {
  work_id = 28;
  dataset_id = 31;
  source_id = 1;
  source_snapshot_seq = 1;
  spec_revision_id = 5;
  kind = WorkKind.ingest;
  state = WorkState.pending;
  phase = WorkPhase.ingest;
  lease_token = none;
  lease_expires_at = none;
  attempt_count = 1;
  next_attempt_at = 13;
  expected_ingest_lance_uri = "s3://lake/|||||||||||||||||||||||||||||||.lance";
  expected_ingest_lance_version = none;
  expected_active_publication_id = none;
  candidate_lance_uri = none;
  candidate_lance_version = none;
  source_applied_at = none;
  source_row_count = none;
  source_digest = none;
  artifact_manifest_uri = none;
  artifact_digest = none;
  error_code = none;
  error_message = none;
  created_at = 10;
  updated_at = 13;
}

abbrev pub extended_snapshot : Snapshot
extended_snapshot = record {
  source_snapshot_seq = 2;
  source_id = 1;
  snapshot_id = 101;
  parent_snapshot_id = some 100;
  iceberg_sequence_number = 2;
  partition_spec_id = 0;
  committed_at = 9;
  iceberg_operation = "append";
  kind = SourceSnapshotKind.append;
  state = SourceSnapshotState.sealed;
  error_code = none;
  error_message = none;
  created_at = 16;
}

abbrev pub extended_work : Work
extended_work = record {
  work_id = 22;
  dataset_id = 31;
  source_id = 1;
  source_snapshot_seq = 2;
  spec_revision_id = 5;
  kind = WorkKind.ingest;
  state = WorkState.pending;
  phase = WorkPhase.ingest;
  lease_token = none;
  lease_expires_at = none;
  attempt_count = 0;
  next_attempt_at = 16;
  expected_ingest_lance_uri = "s3://lake/|||||||||||||||||||||||||||||||.lance";
  expected_ingest_lance_version = none;
  expected_active_publication_id = none;
  candidate_lance_uri = none;
  candidate_lance_version = none;
  source_applied_at = none;
  source_row_count = none;
  source_digest = none;
  artifact_manifest_uri = none;
  artifact_digest = none;
  error_code = none;
  error_message = none;
  created_at = 16;
  updated_at = 16;
}

abbrev pub refusing_snapshot : Snapshot
refusing_snapshot = record {
  source_snapshot_seq = 2;
  source_id = 1;
  snapshot_id = 101;
  parent_snapshot_id = some 100;
  iceberg_sequence_number = 2;
  partition_spec_id = 0;
  committed_at = 9;
  iceberg_operation = "append";
  kind = SourceSnapshotKind.rejected;
  state = SourceSnapshotState.blocked;
  error_code = some "DELETE";
  error_message = none;
  created_at = 16;
}

abbrev pub drafted_revision : SpecRevision
drafted_revision = record {
  spec_revision_id = 6;
  spec_id = 3;
  state = SpecRevisionState.draft;
  activated_at = none;
  retained_publications = 1;
  artifact_retention = 1;
}

abbrev pub activated_revision : SpecRevision
activated_revision = record {
  spec_revision_id = 5;
  spec_id = 3;
  state = SpecRevisionState.retired;
  activated_at = some 0;
  retained_publications = 1;
  artifact_retention = 1;
}

abbrev pub activated_revision_2 : SpecRevision
activated_revision_2 = record {
  spec_revision_id = 6;
  spec_id = 3;
  state = SpecRevisionState.active;
  activated_at = some 17;
  retained_publications = 1;
  artifact_retention = 1;
}
