-- ===== src/Types/Plan.antt =====
-- SourceSnapshotPlan of state/types.py. Its numbers may be negative until `validate` is passed.
use Prim.Native.Char.{code}
use Prim.Native.String.{[], ◌∷◌}
use lance_etl.Common.{
  ℕ, String, Bool, true, false, ◌&&◌, ◌||◌, not, Option, none, some, Result, ok, value_error,
  raise_if, ◌>>◌, ◌==◌, leb, ℤ, is_negative,
}
use lance_etl.Types.{SourceSnapshotKind, is_baseline, is_rejected}

pub record SourceSnapshotPlan : Type 0 where
  pub source_id : ℕ
  pub snapshot_id : ℤ
  pub parent_snapshot_id : Option ℤ
  pub iceberg_sequence_number : ℤ
  pub partition_spec_id : ℤ
  pub committed_at : ℕ
  pub zoned : Bool
  pub iceberg_operation : String
  pub kind : SourceSnapshotKind
  pub source_planning_epoch : Option ℤ

abbrev pub opt_negative : Option ℤ → Bool
opt_negative none = false
opt_negative (some n) = is_negative n

abbrev pub is_none {ℓ} : {A : Type ℓ} → Option A → Bool
is_none none = true
is_none (some a) = false

-- not value.strip(), for ASCII white space
abbrev pub is_space : ℕ → Bool
is_space c = c == 32 || (leb 9 c && leb c 13) || (leb 28 c && leb c 31)

abbrev pub is_blank : String → Bool
is_blank [] = true
is_blank (c ∷ s) = is_space (code c) && is_blank s

unfoldable pub validate_plan : SourceSnapshotPlan → Result SourceSnapshotPlan
validate_plan plan = do
  raise_if
      (is_negative plan.snapshot_id
        || is_negative plan.iceberg_sequence_number
        || is_negative plan.partition_spec_id)
      (value_error "snapshot, sequence, and partition specification IDs must be non-negative")
  raise_if (opt_negative plan.parent_snapshot_id)
      (value_error "parent_snapshot_id must be non-negative")
  raise_if (opt_negative plan.source_planning_epoch)
      (value_error "source_planning_epoch must be non-negative")
  raise_if (not (is_baseline plan.kind || is_rejected plan.kind) && is_none plan.parent_snapshot_id)
      (value_error "only BASELINE or REJECTED snapshots may omit their parent")
  raise_if (is_blank plan.iceberg_operation) (value_error "iceberg_operation must be non-empty")
  raise_if (not plan.zoned) (value_error "committed_at must be timezone-aware")
  ok plan
