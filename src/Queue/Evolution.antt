-- ===== src/Queue/Evolution.antt =====
-- How the rows of `dataset_work` change under the statements of the queue.
pub mod Steps
pub mod Progress
pub mod Calls
pub mod Terminal
pub mod Claims
use lance_etl.Common.{ℕ, ◌≤◌, ◌≡◌, refl, Option, none, some, Bool, true, false, arith}
use lance_etl.Types.{WorkState, phase_order, is_running, is_succeeded}
use lance_etl.Db.{Work}

abbrev pub is_some {ℓ} : {A : Type ℓ} → Option A → Bool
is_some none = false
is_some (some a) = true

-- ck_dataset_work_lease_state: a row holds a lease exactly while it runs.
pub record IsLeased (w : Work) : Type 0 where
  pub token : is_some w.lease_token ≡ is_running w.state
  pub expiry : is_some w.lease_expires_at ≡ is_running w.state

-- The columns that no statement changes.
pub record SameIdentity (w v : Work) : Type 0 where
  pub work_id : v.work_id ≡ w.work_id
  pub dataset_id : v.dataset_id ≡ w.dataset_id
  pub source_id : v.source_id ≡ w.source_id
  pub seq : v.source_snapshot_seq ≡ w.source_snapshot_seq
  pub spec : v.spec_revision_id ≡ w.spec_revision_id
  pub kind : v.kind ≡ w.kind
  pub created_at : v.created_at ≡ w.created_at

-- One row before and after a statement.
pub record RowStep (w v : Work) : Type 0 where
  pub identity : SameIdentity w v
  pub final : w.state ≡ WorkState.succeeded → v ≡ w
  pub phase : phase_order w.phase ≤ phase_order v.phase
  pub attempts : w.attempt_count ≤ v.attempt_count
  pub leased : IsLeased w → IsLeased v

pub RowStep-refl : (w : Work) → RowStep w w
RowStep-refl w = ground arith

pub RowStep-trans : (w v x : Work) → RowStep w v → RowStep v x → RowStep w x
RowStep-trans w v x h k = record {
  identity = ground arith;
  final = λ e. let p = h.final e in ground (arith, p, k.final (rw p e));
  phase = ground arith;
  attempts = ground arith;
  leased = λ l. k.leased (h.leased l);
}
