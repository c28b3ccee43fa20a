-- ===== src/Examples/Runs.antt =====
-- The life of one generation: a snapshot is enqueued, its INGEST is claimed and completed, the
-- PUBLISH that follows is claimed and published; and what a block, a repair, a second snapshot and
-- an activation make of it.
use lance_etl.Common.{ℕ, pos, none, some, Bool, false, List, [], ◌∷◌, Result}
use lance_etl.Types.{WorkClaim, WorkKind, WorkPhase, SourceSnapshotKind}
use lance_etl.Types.Plan.{SourceSnapshotPlan}
use lance_etl.Db.{Database}
use lance_etl.Queue.Claim.{claim_due_work}
use lance_etl.Queue.Publish.{ServingDataset}
use lance_etl.Examples.{plan_of, tenant}
use lance_etl.Examples.Rows.{
  activated_revision, activated_revision_2, drafted_revision, extended_snapshot, extended_work,
  gated_snapshot, gated_source, gated_work, ingest_claimed_dataset, ingest_claimed_work,
  ingest_done_dataset, ingest_done_snapshot, ingest_done_work, ingest_done_work_2, live_dataset,
  live_index, live_publication, live_work, planned_dataset, planned_index_row, planned_revision,
  planned_snapshot, planned_source, planned_work, publish_claimed_dataset, publish_claimed_work,
  refusing_snapshot, reopened_source, work_blocked_work, work_retried_work,
}

abbrev pub token : ℕ → ℕ
token n = n

abbrev pub unlocked : ℕ → Bool
unlocked id = false

abbrev pub claim_at : ℕ → Database → Result (List WorkClaim × Database)
claim_at now db = claim_due_work token unlocked unlocked (pos 2) (pos 60) now db

abbrev pub second : SourceSnapshotPlan
second = plan_of 101 (some (pos 100)) 2 SourceSnapshotKind.append (pos 2)

abbrev pub refused : SourceSnapshotPlan
refused = plan_of 101 (some (pos 100)) 2 SourceSnapshotKind.rejected (pos 2)

abbrev pub ingest_claim : WorkClaim
ingest_claim = record {
  work_id = 28;
  dataset_id = 31;
  kind = WorkKind.ingest;
  phase = WorkPhase.ingest;
  lease_token = 2;
  fence_epoch = 1;
  attempt_count = 1;
  source_snapshot_seq = 1;
  spec_revision_id = 5;
  ingest_lance_uri = "s3://lake/|||||||||||||||||||||||||||||||.lance";
  ingest_lance_version = none;
  lease_expires_at = some 71;
}

abbrev pub publish_claim : WorkClaim
publish_claim = record {
  work_id = 5;
  dataset_id = 31;
  kind = WorkKind.publish;
  phase = WorkPhase.compact;
  lease_token = 2;
  fence_epoch = 2;
  attempt_count = 1;
  source_snapshot_seq = 1;
  spec_revision_id = 5;
  ingest_lance_uri = "s3://lake/|||||||||||||||||||||||||||||||.lance";
  ingest_lance_version = some 1;
  lease_expires_at = some 73;
}

abbrev pub planned : Database
planned = record {
  sources = planned_source ∷ [];
  snapshots = planned_snapshot ∷ [];
  datasets = planned_dataset ∷ [];
  works = planned_work ∷ [];
  publications = [];
  publication_indexes = [];
  revisions = planned_revision ∷ [];
  index_definitions = planned_index_row ∷ [];
  next_seq = 2;
}

abbrev pub ingest_claimed : Database
ingest_claimed = record {
  sources = planned_source ∷ [];
  snapshots = planned_snapshot ∷ [];
  datasets = ingest_claimed_dataset ∷ [];
  works = ingest_claimed_work ∷ [];
  publications = [];
  publication_indexes = [];
  revisions = planned_revision ∷ [];
  index_definitions = planned_index_row ∷ [];
  next_seq = 2;
}

abbrev pub ingest_done : Database
ingest_done = record {
  sources = planned_source ∷ [];
  snapshots = ingest_done_snapshot ∷ [];
  datasets = ingest_done_dataset ∷ [];
  works = ingest_done_work ∷ ingest_done_work_2 ∷ [];
  publications = [];
  publication_indexes = [];
  revisions = planned_revision ∷ [];
  index_definitions = planned_index_row ∷ [];
  next_seq = 2;
}

abbrev pub publish_claimed : Database
publish_claimed = record {
  sources = planned_source ∷ [];
  snapshots = ingest_done_snapshot ∷ [];
  datasets = publish_claimed_dataset ∷ [];
  works = ingest_done_work ∷ publish_claimed_work ∷ [];
  publications = [];
  publication_indexes = [];
  revisions = planned_revision ∷ [];
  index_definitions = planned_index_row ∷ [];
  next_seq = 2;
}

abbrev pub live : Database
live = record {
  sources = planned_source ∷ [];
  snapshots = ingest_done_snapshot ∷ [];
  datasets = live_dataset ∷ [];
  works = ingest_done_work ∷ live_work ∷ [];
  publications = live_publication ∷ [];
  publication_indexes = live_index ∷ [];
  revisions = planned_revision ∷ [];
  index_definitions = planned_index_row ∷ [];
  next_seq = 2;
}

abbrev pub gated : Database
gated = record {
  sources = gated_source ∷ [];
  snapshots = gated_snapshot ∷ [];
  datasets = planned_dataset ∷ [];
  works = gated_work ∷ [];
  publications = [];
  publication_indexes = [];
  revisions = planned_revision ∷ [];
  index_definitions = planned_index_row ∷ [];
  next_seq = 2;
}

abbrev pub reopened : Database
reopened = record {
  sources = reopened_source ∷ [];
  snapshots = planned_snapshot ∷ [];
  datasets = planned_dataset ∷ [];
  works = gated_work ∷ [];
  publications = [];
  publication_indexes = [];
  revisions = planned_revision ∷ [];
  index_definitions = planned_index_row ∷ [];
  next_seq = 2;
}

abbrev pub work_blocked : Database
work_blocked = record {
  sources = planned_source ∷ [];
  snapshots = planned_snapshot ∷ [];
  datasets = ingest_claimed_dataset ∷ [];
  works = work_blocked_work ∷ [];
  publications = [];
  publication_indexes = [];
  revisions = planned_revision ∷ [];
  index_definitions = planned_index_row ∷ [];
  next_seq = 2;
}

abbrev pub work_retried : Database
work_retried = record {
  sources = planned_source ∷ [];
  snapshots = planned_snapshot ∷ [];
  datasets = ingest_claimed_dataset ∷ [];
  works = work_retried_work ∷ [];
  publications = [];
  publication_indexes = [];
  revisions = planned_revision ∷ [];
  index_definitions = planned_index_row ∷ [];
  next_seq = 2;
}

abbrev pub extended : Database
extended = record {
  sources = planned_source ∷ [];
  snapshots = planned_snapshot ∷ extended_snapshot ∷ [];
  datasets = planned_dataset ∷ [];
  works = planned_work ∷ extended_work ∷ [];
  publications = [];
  publication_indexes = [];
  revisions = planned_revision ∷ [];
  index_definitions = planned_index_row ∷ [];
  next_seq = 3;
}

abbrev pub refusing : Database
refusing = record {
  sources = gated_source ∷ [];
  snapshots = planned_snapshot ∷ refusing_snapshot ∷ [];
  datasets = planned_dataset ∷ [];
  works = planned_work ∷ [];
  publications = [];
  publication_indexes = [];
  revisions = planned_revision ∷ [];
  index_definitions = planned_index_row ∷ [];
  next_seq = 3;
}

abbrev pub drafted : Database
drafted = record {
  sources = planned_source ∷ [];
  snapshots = [];
  datasets = [];
  works = [];
  publications = [];
  publication_indexes = [];
  revisions = planned_revision ∷ drafted_revision ∷ [];
  index_definitions = planned_index_row ∷ [];
  next_seq = 1;
}

abbrev pub activated : Database
activated = record {
  sources = planned_source ∷ [];
  snapshots = [];
  datasets = [];
  works = [];
  publications = [];
  publication_indexes = [];
  revisions = activated_revision ∷ activated_revision_2 ∷ [];
  index_definitions = planned_index_row ∷ [];
  next_seq = 1;
}

abbrev pub resolved : ServingDataset
resolved = record {
  dataset_id = 31;
  identity = tenant;
  lance_uri = live_publication.lance_uri;
  lance_version = 1;
  publication_id = live_publication.publication_id;
}
