-- ===== src/Reconciler/Application.antt =====
-- reconciler/service.py: the health of the control plane, one cycle of the application, and the
-- repairs of an operator. The plan provider is a parameter, and so is the sweep of external results, which is a step; an
-- age is a number of microseconds.
use lance_etl.Common.{
  ℕ, ◌-◌, String, Bool, true, false, ◌&&◌, Option, none, some, List, [], ◌∷◌, ◌++◌, Result, ok, err,
  stale_source_plan, ltb, ℤ, pos_part,
}
use lance_etl.Types.{Bytes, RoutingIdentity, SourceSnapshotState, WorkClaim}
use lance_etl.Types.Ids.{Uuids, validate_identity}
use lance_etl.Db.{Database}
use lance_etl.Queue.Lease.{retry_blocked_work, can_retry_blocked_work}
use lance_etl.Planning.Gate.{retry_blocked_source_snapshot, can_retry_blocked_source_snapshot}
use lance_etl.Specs.{enqueue_rebuild}
use lance_etl.Retention.{
  ControlPlaneStatus, control_plane_status, RetentionDecision, retention_decision,
}
use lance_etl.Settings.{ReconcilerSettings}
use lance_etl.Iceberg.{SourcePlan}
use lance_etl.Reconciler.{World, Step, Environment, and_then, pure, lift, transaction}
use lance_etl.Reconciler.Results.{DispatchSummary, ReconcileSummary}
use lance_etl.Reconciler.Dispatch.{Executed, run}
use lance_etl.Reconciler.Planning.{EnqueueSummary, RegisteredSource, enqueue}

pub record SloStatus : Type 0 where
  pub healthy : Bool
  pub reasons : List String
  pub due_work : ℕ
  pub blocked_work : ℕ
  pub blocked_source_snapshots : ℕ
  pub oldest_open_age : ℕ
  pub retention_age : ℕ

-- max(0, now - value): subtraction stops at 0.
unfoldable pub age_seconds : Option ℕ → ℕ → ℕ
age_seconds none now = 0
age_seconds (some value) now = now - value

abbrev pub not_complete : Option SourceSnapshotState → Bool
not_complete (some SourceSnapshotState.complete) = false
not_complete _ = true

abbrev pub reason_if : Bool → String → List String
reason_if true reason = reason ∷ []
reason_if false reason = []

abbrev pub no_reasons {ℓ} : {A : Type ℓ} → List A → Bool
no_reasons [] = true
no_reasons (x ∷ xs) = false

unfoldable pub evaluate_slo : ControlPlaneStatus → ReconcilerSettings → ℕ → SloStatus
unfolding age_seconds
evaluate_slo status settings current =
    let oldest_age = age_seconds status.oldest_open_work_at current in
    let retention_age = age_seconds status.retention_created_at current in
    let reasons =
      reason_if (ltb 0 status.blocked_work) "blocked_work"
      ++ (reason_if (ltb 0 status.blocked_source_snapshots) "blocked_source_snapshot"
          ++ (reason_if (ltb (pos_part settings.max_due_work) status.due_work)
                "due_queue_over_budget"
              ++ (reason_if (ltb (pos_part settings.max_open_work_age) oldest_age)
                    "open_work_age_over_budget"
                  ++ reason_if
                      (not_complete status.retention_state
                        && ltb (pos_part settings.max_retention_age) retention_age)
                      "source_retention_age_over_budget"))) in
    record {
      healthy = no_reasons reasons;
      reasons = reasons;
      due_work = status.due_work;
      blocked_work = status.blocked_work;
      blocked_source_snapshots = status.blocked_source_snapshots;
      oldest_open_age = oldest_age;
      retention_age = retention_age;
    }

pub record RunOnceSummary : Type 0 where
  pub planning : EnqueueSummary
  pub dispatch : DispatchSummary
  pub reconciliation : ReconcileSummary
  pub retention : RetentionDecision
  pub slo : SloStatus

abbrev pub no_plan : EnqueueSummary
no_plan = record {
  pinned_head_snapshot_id = none;
  planned_snapshots = 0;
  enqueued_snapshots = 0;
  source_snapshot_sequences = [];
  truncated = true;
}

-- except StaleSourcePlanError
abbrev pub or_stale : Result EnqueueSummary × World → Result EnqueueSummary × World
or_stale (err (stale_source_plan message), w) = (ok no_plan, w)
or_stale r = r

module _ (env : Environment) where
  -- A transaction that only reads.
  abbrev pub read : {A : Type 0} → (ℕ → Database → A) → Step A
  read query = transaction env (λ n now db. ok (query now db, db))

  unfoldable pub gate_source_retention : Step RetentionDecision
  gate_source_retention =
      and_then (read control_plane_status) (λ status. pure (retention_decision status))

  unfoldable pub emit_slo_status : ReconcilerSettings → Step SloStatus
  emit_slo_status settings =
      and_then (read control_plane_status)
        (λ status w. (ok (evaluate_slo status settings (env.clock w.calls)), w))

  unfoldable pub repair_blocked_work : ℕ → Bool → Step Bool
  repair_blocked_work work_id true = read (λ now db. can_retry_blocked_work work_id db)
  repair_blocked_work work_id false =
      transaction env (λ n now db. retry_blocked_work work_id now db)

  unfoldable pub repair_blocked_source_snapshot : ℕ → Bool → Step Bool
  repair_blocked_source_snapshot seq true =
      and_then (read (λ now db. can_retry_blocked_source_snapshot seq db)) (λ answer. lift answer)
  repair_blocked_source_snapshot seq false =
      transaction env (λ n now db. retry_blocked_source_snapshot seq db)

  unfoldable pub repair_rebuild : Uuids → RoutingIdentity → ℕ → Bool → Step (Option ℕ)
  repair_rebuild u identity request_id true =
      and_then (lift (validate_identity identity)) (λ i. pure none)
  repair_rebuild u identity request_id false = and_then (lift (validate_identity identity)) (λ i.
      and_then (transaction env (λ n now db. enqueue_rebuild u identity request_id now db))
        (λ work_id. pure (some work_id)))

module _ (u : Uuids) (sha256 : String → Bytes) (env : Environment) (settings : ReconcilerSettings)
    (source : RegisteredSource) (execute : ℕ → WorkClaim → Executed)
    (plan : ℕ → ℤ → Result SourcePlan) (sweep : Step ReconcileSummary) where
  unfoldable pub plan_and_enqueue_snapshots : Step EnqueueSummary
  plan_and_enqueue_snapshots w = or_stale (
      and_then (lift (plan w.calls settings.max_snapshots_per_plan)) (enqueue u env settings source)
        w)

  abbrev pub summarize :
      EnqueueSummary
      → DispatchSummary
      → ReconcileSummary
      → RetentionDecision
      → SloStatus
      → RunOnceSummary
  summarize planning dispatch reconciliation retention slo = record {
    planning = planning;
    dispatch = dispatch;
    reconciliation = reconciliation;
    retention = retention;
    slo = slo;
  }

  -- The two reads that end a cycle.
  unfoldable pub report : EnqueueSummary → DispatchSummary → ReconcileSummary → Step RunOnceSummary
  unfolding gate_source_retention emit_slo_status
  report planning dispatch reconciliation = and_then (gate_source_retention env) (λ retention.
      and_then (emit_slo_status env settings)
        (λ slo. pure (summarize planning dispatch reconciliation retention slo)))

  unfoldable pub run_once : Step RunOnceSummary
  unfolding plan_and_enqueue_snapshots report
  run_once = and_then plan_and_enqueue_snapshots (λ planning.
      and_then (run u sha256 env settings execute)
        (λ dispatch. and_then sweep (report planning dispatch)))
