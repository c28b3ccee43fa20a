-- ===== src/Iceberg.antt =====
-- source/models.py: the records of Iceberg metadata that the planner works on. Integers may be
-- negative as far as these modules go; a commit's timestamp is a count of milliseconds.
pub mod Lineage
pub mod Manifests
use Prim.Native.Char.{code}
use Prim.Native.String.{[], ◌∷◌}
use lance_etl.Common.{
  ℕ, String, Bool, true, false, ◌&&◌, ◌||◌, Option, none, some, List, ℤ, pos, negsuc, ltb, str_eq,
  list_eq, opt_eq, ◌==◌,
}
use lance_etl.Types.Evidence.{eq_ℤ}

pub data WindowKind : Type 0 where
  baseline append trusted_maintenance : WindowKind

pub data ManifestStatus : Type 0 where
  added existing deleted : ManifestStatus

pub data ManifestContent : Type 0 where
  data_file position_deletes equality_deletes : ManifestContent

pub record SnapshotRecord : Type 0 where
  pub table_uuid : String
  pub snapshot_id : ℤ
  pub parent_snapshot_id : Option ℤ
  pub sequence_number : ℤ
  pub committed_at_ms : ℕ
  pub operation : String
  pub partition_spec_id : ℤ
  pub summary : List (String × String)

pub record TargetKey : Type 0 where
  pub tenant_id : String
  pub namespace : String
  pub org_id : String

pub record PartitionValues : Type 0 where
  pub tenant_id : String
  pub namespace : String
  pub org_id : String
  pub ts_hour : ℤ

abbrev pub target_key : PartitionValues → TargetKey
target_key p = record { tenant_id = p.tenant_id; namespace = p.namespace; org_id = p.org_id }

pub record ManifestEntry : Type 0 where
  pub snapshot_id : ℤ
  pub partition_spec_id : ℤ
  pub status : ManifestStatus
  pub content : ManifestContent
  pub partition : PartitionValues

pub record MaintenanceTrust : Type 0 where
  pub writer_identity : Option String
  pub writer_authenticated : Bool
  pub writer_allowlisted : Bool
  pub logical_change : Option Bool
  pub manifest_invariants_match : Bool

pub record WindowPlan : Type 0 where
  pub snapshot : SnapshotRecord
  pub kind : WindowKind
  pub targets : List TargetKey

pub record SourceSnapshotRejection : Type 0 where
  pub snapshot : SnapshotRecord
  pub error_code : String

pub record SourcePlan : Type 0 where
  pub table_uuid : String
  pub pinned_head_snapshot_id : Option ℤ
  pub windows : List WindowPlan
  pub planning_epoch : Option ℤ
  pub rejection : Option SourceSnapshotRejection

abbrev pub eq_target : TargetKey → TargetKey → Bool
eq_target a b =
    str_eq a.tenant_id b.tenant_id && str_eq a.namespace b.namespace && str_eq a.org_id b.org_id

-- a < b on Python integers
abbrev pub lt_ℤ : ℤ → ℤ → Bool
lt_ℤ (pos a) (pos b) = ltb a b
lt_ℤ (pos a) (negsuc b) = false
lt_ℤ (negsuc a) (pos b) = true
lt_ℤ (negsuc a) (negsuc b) = ltb b a

abbrev same_pair : String × String → String × String → Bool
same_pair a b = str_eq a.0 b.0 && str_eq a.1 b.1

-- Python's `==` on two records
unfoldable pub eq_snapshot : SnapshotRecord → SnapshotRecord → Bool
eq_snapshot a b =
    str_eq a.table_uuid b.table_uuid
    && eq_ℤ a.snapshot_id b.snapshot_id
    && opt_eq eq_ℤ a.parent_snapshot_id b.parent_snapshot_id
    && eq_ℤ a.sequence_number b.sequence_number
    && a.committed_at_ms == b.committed_at_ms
    && str_eq a.operation b.operation
    && eq_ℤ a.partition_spec_id b.partition_spec_id
    && list_eq same_pair a.summary b.summary

-- a < b on texts, by code points
unfoldable pub str_lt : String → String → Bool
str_lt s [] = false
str_lt [] (d ∷ t) = true
str_lt (c ∷ s) (d ∷ t) = ltb (code c) (code d) || (code c == code d && str_lt s t)
