-- ===== src/Types.antt =====
-- state/types.py: the values that the control plane stores, and the claims that workers hold.
-- A UUID is a number, a timestamp or duration a number of microseconds, `bytes` a list of bytes.
pub mod Ids
pub mod Plan
pub mod Evidence
use lance_etl.Common.{ℕ, String, Bool, true, false, Option, List}

pub data SourceLifecycleState : Type 0 where
  draft active paused : SourceLifecycleState

pub data DatasetLifecycleState : Type 0 where
  active paused blocked : DatasetLifecycleState

pub data SourceSnapshotKind : Type 0 where
  baseline append trusted_maintenance rejected : SourceSnapshotKind

pub data SourceSnapshotState : Type 0 where
  sealed complete blocked : SourceSnapshotState

pub data WorkKind : Type 0 where
  ingest publish rebuild : WorkKind

pub data WorkState : Type 0 where
  pending running retry_wait succeeded blocked : WorkState

pub data WorkPhase : Type 0 where
  ingest compact index validate prewarm publish : WorkPhase

-- PHASE_ORDER
abbrev pub phase_order : WorkPhase → ℕ
phase_order WorkPhase.ingest = 0
phase_order WorkPhase.compact = 1
phase_order WorkPhase.index = 2
phase_order WorkPhase.validate = 3
phase_order WorkPhase.prewarm = 4
phase_order WorkPhase.publish = 5

-- Python's `==` on the enumerations, and the membership tests that the queries write.
abbrev pub is_ingest : WorkKind → Bool
is_ingest WorkKind.ingest = true
is_ingest _ = false

abbrev pub is_publish : WorkKind → Bool
is_publish WorkKind.publish = true
is_publish _ = false

abbrev pub is_rebuild : WorkKind → Bool
is_rebuild WorkKind.rebuild = true
is_rebuild _ = false

abbrev pub is_running : WorkState → Bool
is_running WorkState.running = true
is_running _ = false

abbrev pub is_succeeded : WorkState → Bool
is_succeeded WorkState.succeeded = true
is_succeeded _ = false

abbrev pub is_blocked : WorkState → Bool
is_blocked WorkState.blocked = true
is_blocked _ = false

-- state IN (PENDING, RETRY_WAIT)
abbrev pub is_waiting : WorkState → Bool
is_waiting WorkState.pending = true
is_waiting WorkState.retry_wait = true
is_waiting _ = false

-- state IN (PENDING, RUNNING, RETRY_WAIT)
abbrev pub is_open : WorkState → Bool
is_open WorkState.pending = true
is_open WorkState.running = true
is_open WorkState.retry_wait = true
is_open _ = false

abbrev pub is_active : DatasetLifecycleState → Bool
is_active DatasetLifecycleState.active = true
is_active _ = false

abbrev pub is_active_source : SourceLifecycleState → Bool
is_active_source SourceLifecycleState.active = true
is_active_source _ = false

abbrev pub is_gated : SourceSnapshotState → Bool
is_gated SourceSnapshotState.blocked = true
is_gated _ = false

abbrev pub is_baseline : SourceSnapshotKind → Bool
is_baseline SourceSnapshotKind.baseline = true
is_baseline _ = false

abbrev pub is_rejected : SourceSnapshotKind → Bool
is_rejected SourceSnapshotKind.rejected = true
is_rejected _ = false

abbrev pub is_maintenance : SourceSnapshotKind → Bool
is_maintenance SourceSnapshotKind.trusted_maintenance = true
is_maintenance _ = false

abbrev pub Bytes : Type 0
Bytes = List ℕ

pub record RoutingIdentity : Type 0 where
  pub tenant_id : String
  pub namespace : String
  pub org_id : String

-- The fenced lease returned to one local worker.
pub record WorkClaim : Type 0 where
  pub work_id : ℕ
  pub dataset_id : ℕ
  pub kind : WorkKind
  pub phase : WorkPhase
  pub lease_token : ℕ
  pub fence_epoch : ℕ
  pub attempt_count : ℕ
  pub source_snapshot_seq : ℕ
  pub spec_revision_id : ℕ
  pub ingest_lance_uri : String
  pub ingest_lance_version : Option ℕ
  pub lease_expires_at : Option ℕ
