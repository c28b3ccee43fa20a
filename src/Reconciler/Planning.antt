-- ===== src/Reconciler/Planning.antt =====
-- reconciler/planning.py: from a plan pinned to an Iceberg head to rows of the control plane. The
-- timestamp of a commit, in milliseconds, becomes microseconds; `uuid.UUID` of a text is a field
-- of `Uuids`. A slice is taken with a bound that the settings have shown to be positive.
use lance_etl.Common.{
  ℕ, ◌*◌, Bool, true, false, not, Option, none, some, List, [], ◌∷◌, Result, ok, err, value_error,
  raise_if, ◌>>=◌, ◌>>◌, ◌==◌, ltb, length, take, exists_row, if◌then◌else◌, ℤ, pos_part,
}
use lance_etl.Types.{RoutingIdentity, SourceSnapshotKind}
use lance_etl.Types.Ids.{Uuids}
use lance_etl.Types.Plan.{SourceSnapshotPlan}
use lance_etl.Planning.Enqueue.{enqueue_source_snapshot, enqueue_blocked_source_snapshot}
use lance_etl.Settings.{ReconcilerSettings}
use lance_etl.Iceberg.{
  SnapshotRecord, TargetKey, WindowKind, WindowPlan, SourceSnapshotRejection, SourcePlan, eq_target,
}
use lance_etl.Reconciler.{Step, Environment, and_then, pure, lift, transaction}

pub record EnqueueSummary : Type 0 where
  pub pinned_head_snapshot_id : Option ℤ
  pub planned_snapshots : ℕ
  pub enqueued_snapshots : ℕ
  pub source_snapshot_sequences : List ℕ
  pub truncated : Bool

-- The fields of IcebergSource that the enqueuer reads.
pub record RegisteredSource : Type 0 where
  pub source_id : ℕ
  pub table_uuid : ℕ

abbrev pub kind_of : WindowKind → SourceSnapshotKind
kind_of WindowKind.baseline = SourceSnapshotKind.baseline
kind_of WindowKind.append = SourceSnapshotKind.append
kind_of WindowKind.trusted_maintenance = SourceSnapshotKind.trusted_maintenance

abbrev pub plan_of_record : ℕ → SnapshotRecord → SourceSnapshotKind → Option ℤ → SourceSnapshotPlan
plan_of_record source_id snapshot kind epoch = record {
  source_id = source_id;
  snapshot_id = snapshot.snapshot_id;
  parent_snapshot_id = snapshot.parent_snapshot_id;
  iceberg_sequence_number = snapshot.sequence_number;
  partition_spec_id = snapshot.partition_spec_id;
  committed_at = snapshot.committed_at_ms * 1000;
  zoned = true;
  iceberg_operation = snapshot.operation;
  kind = kind;
  source_planning_epoch = epoch;
}

unfoldable pub map_snapshot : ℕ → WindowPlan → Option ℤ → SourceSnapshotPlan
map_snapshot source_id window epoch =
    plan_of_record source_id window.snapshot (kind_of window.kind) epoch

unfoldable pub map_rejection : ℕ → SourceSnapshotRejection → Option ℤ → SourceSnapshotPlan
map_rejection source_id rejection epoch =
    plan_of_record source_id rejection.snapshot SourceSnapshotKind.rejected epoch

abbrev pub route_of : TargetKey → RoutingIdentity
route_of t = record { tenant_id = t.tenant_id; namespace = t.namespace; org_id = t.org_id }

-- The loop over the targets, with those seen so far.
unfoldable pub map_targets : List TargetKey → List TargetKey → Result (List RoutingIdentity)
map_targets seen [] = ok []
map_targets seen (t ∷ ts) = do
  raise_if (exists_row (eq_target t) seen)
      (value_error "source window contains a duplicate target identity")
  rest ← map_targets (t ∷ seen) ts
  ok (route_of t ∷ rest)

abbrev pub is_maintenance_window : WindowKind → Bool
is_maintenance_window WindowKind.trusted_maintenance = true
is_maintenance_window _ = false

unfoldable pub map_datasets : WindowPlan → Result (List RoutingIdentity)
unfolding map_targets
map_datasets window =
    if is_maintenance_window window.kind then ok [] else map_targets [] window.targets

module _ (u : Uuids) (env : Environment) (settings : ReconcilerSettings)
    (source : RegisteredSource) where
  -- One window: its datasets are mapped before its transaction begins.
  unfoldable pub enqueue_window : Option ℤ → WindowPlan → Step ℕ
  unfolding map_datasets map_snapshot
  enqueue_window epoch window = and_then (lift (map_datasets window)) (λ datasets.
      transaction env (λ n now db.
        enqueue_source_snapshot u (map_snapshot source.source_id window epoch) datasets now db))

  unfoldable pub enqueue_windows : Option ℤ → List WindowPlan → Step (List ℕ)
  unfolding enqueue_window
  enqueue_windows epoch [] = pure []
  enqueue_windows epoch (window ∷ windows) =
      and_then (enqueue_window epoch window)
        (λ seq. and_then (enqueue_windows epoch windows) (λ rest. pure (seq ∷ rest)))

  -- The rejection, if every window before it was enqueued.
  unfoldable pub enqueue_rejection :
      Option ℤ → Bool → Option SourceSnapshotRejection → Step (Unit {0})
  unfolding map_rejection
  enqueue_rejection epoch false rejection = pure tt
  enqueue_rejection epoch true none = pure tt
  enqueue_rejection epoch true (some rejection) =
      and_then
        (transaction env (λ n now db.
          enqueue_blocked_source_snapshot (map_rejection source.source_id rejection epoch)
            rejection.error_code none now db))
        (λ seq. pure tt)

  abbrev pub checked_uuid : Option ℕ → Result (Unit {0})
  checked_uuid none = err (value_error "badly formed hexadecimal UUID string")
  checked_uuid (some table_uuid) =
      raise_if (not (table_uuid == source.table_uuid))
        (value_error "source plan table UUID differs from the registered Iceberg source")

  unfoldable pub enqueue : SourcePlan → Step EnqueueSummary
  unfolding enqueue_windows enqueue_rejection
  enqueue plan =
      let selected = take (pos_part settings.max_snapshots_per_plan) plan.windows in
      and_then (lift (checked_uuid (u.parse_uuid plan.table_uuid))) (λ checked.
        and_then (enqueue_windows plan.planning_epoch selected) (λ sequences.
          and_then
            (enqueue_rejection plan.planning_epoch (length selected == length plan.windows)
              plan.rejection)
            (λ done. pure (record {
              pinned_head_snapshot_id = plan.pinned_head_snapshot_id;
              planned_snapshots = length plan.windows;
              enqueued_snapshots = length selected;
              source_snapshot_sequences = sequences;
              truncated = ltb (length selected) (length plan.windows);
            }))))
