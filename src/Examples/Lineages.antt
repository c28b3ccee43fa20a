-- ===== src/Examples/Lineages.antt =====
-- A baseline, the append that follows it, and its manifest.
use lance_etl.Common.{
  String, ◌≡◌, ◌⊎◌, refl, pos, none, some, Option, List, [], ◌∷◌, ok, err, Error, ℤ,
}
use lance_etl.Iceberg.{
  SnapshotRecord, WindowKind, ManifestStatus, ManifestContent, ManifestEntry, TargetKey, target_key,
}
use lance_etl.Iceberg.Lineage.{walk_snapshot_lineage, index_snapshots, lookup}
use lance_etl.Iceberg.Lineage.Walk.{walk_snapshot_lineage_ends}
use lance_etl.Iceberg.Lineage.Chain.{Linked, Increasing, walk_snapshot_lineage-Linked}
use lance_etl.Iceberg.Manifests.{
  classify_snapshot, accept, is_added_data, is_live_data, discover_added_targets,
  discover_baseline_targets,
}
use lance_etl.Iceberg.Manifests.Accepted.{IsAccepted, classify_snapshot-IsAccepted}
use lance_etl.Iceberg.Manifests.Targets.{member, touched, discover_targets_exact}

abbrev recorded : SnapshotRecord
recorded = record {
  table_uuid = "t";
  snapshot_id = pos 100;
  parent_snapshot_id = none;
  sequence_number = pos 1;
  committed_at_ms = 4;
  operation = "append";
  partition_spec_id = pos 0;
  summary = [];
}

abbrev next_record : SnapshotRecord
next_record = record recorded {
  snapshot_id = pos 101;
  parent_snapshot_id = some (pos 100);
  sequence_number = pos 2;
}

abbrev added_file : ManifestEntry
added_file = record {
  snapshot_id = pos 101;
  partition_spec_id = pos 0;
  status = ManifestStatus.added;
  content = ManifestContent.data_file;
  partition = record { tenant_id = "t"; namespace = "n"; org_id = "o"; ts_hour = pos 7 };
}

abbrev zero_of : String → Option ℤ
zero_of s = some (pos 0)

abbrev as_is : String → String
as_is s = s

walked_run :
    walk_snapshot_lineage (recorded ∷ next_record ∷ []) (pos 101) (pos 100) "t" (pos 0)
    ≡ ok (some (next_record ∷ []))
unfolding lance_etl.Iceberg.Lineage.check_first lance_etl.Iceberg.Lineage.check_order
    lance_etl.Iceberg.Lineage.finish_walk lance_etl.Iceberg.Lineage.index_from
    lance_etl.Iceberg.Lineage.index_snapshots lance_etl.Iceberg.Lineage.validate_snapshot_identity
    lance_etl.Iceberg.Lineage.walk lance_etl.Iceberg.Lineage.walk_snapshot_lineage
    lance_etl.Iceberg.eq_snapshot
walked_run = refl

accepted_run :
    classify_snapshot zero_of as_is next_record (added_file ∷ []) none ≡ accept WindowKind.append
unfolding lance_etl.Iceberg.Manifests.classify_snapshot
    lance_etl.Iceberg.Manifests.declared_nonempty
    lance_etl.Iceberg.Manifests.validate_append_entries lance_etl.Iceberg.Manifests.validate_entries
    lance_etl.Iceberg.Manifests.validate_trusted_rewrite
accepted_run = refl

walk_snapshot_lineage_ends_example :
    ((path : List SnapshotRecord) × (walk_snapshot_lineage
          (recorded ∷ next_record ∷ [])
          (pos 101)
          (pos 100)
          "t"
          (pos 0)
        ≡ ok (some path)))
    ⊎ ((e : Error) × (walk_snapshot_lineage
            (recorded ∷ next_record ∷ [])
            (pos 101)
            (pos 100)
            "t"
            (pos 0)
          ≡ err e))
walk_snapshot_lineage_ends_example =
    walk_snapshot_lineage_ends (recorded ∷ next_record ∷ []) (pos 101) (pos 100) "t" (pos 0)

walk_snapshot_lineage-Linked_example :
    (indexed : List SnapshotRecord) × (stop : SnapshotRecord) × ((index_snapshots
          (recorded ∷ next_record ∷ [])
        ≡ ok indexed)
      × (lookup (pos 100) indexed ≡ some stop)
      × Linked "t" (pos 0) indexed (pos 100) (pos 101) (next_record ∷ [])
      × Increasing stop.sequence_number (next_record ∷ []))
walk_snapshot_lineage-Linked_example =
    walk_snapshot_lineage-Linked (recorded ∷ next_record ∷ []) (pos 101) (pos 100) "t" (pos 0)
      walked_run

classify_snapshot-IsAccepted_example :
    IsAccepted next_record "append" (added_file ∷ []) none WindowKind.append
classify_snapshot-IsAccepted_example =
    classify_snapshot-IsAccepted zero_of as_is next_record (added_file ∷ []) none WindowKind.append
      accepted_run

discover_targets_exact_example :
    (discover_added_targets next_record (added_file ∷ [])
        ≡ accept (target_key added_file.partition ∷ [])
      → member (target_key added_file.partition) (target_key added_file.partition ∷ [])
        ≡ touched is_added_data (target_key added_file.partition) (added_file ∷ []))
    × (discover_baseline_targets next_record (added_file ∷ [])
          ≡ accept (target_key added_file.partition ∷ [])
        → member (target_key added_file.partition) (target_key added_file.partition ∷ [])
          ≡ touched is_live_data (target_key added_file.partition) (added_file ∷ []))
discover_targets_exact_example =
    discover_targets_exact next_record (added_file ∷ []) (target_key added_file.partition)
      (target_key added_file.partition ∷ [])
