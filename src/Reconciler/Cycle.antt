-- ===== src/Reconciler/Cycle.antt =====
-- A drain, and a whole cycle of the reconciler, as histories of the transactions of `Call`.
use lance_etl.Common.{
  ℕ, zero, suc, ◌==◌, take, ◌≡◌, String, Bool, true, false, Option, none, some, List, [], ◌∷◌,
  Result, ok, err, Error, value_error, state_transition, stale_source_plan, no_result, integrity,
  Bool-cases, inl, inr, ltb, length, pos_part, ℤ,
}
use lance_etl.Types.{Bytes, WorkClaim}
use lance_etl.Types.Ids.{Uuids}
use lance_etl.Db.{Database}
use lance_etl.Queue.Claim.{claim_due_work}
use lance_etl.Queue.Fencing.{block}
use lance_etl.Planning.Enqueue.{enqueue_source_snapshot, enqueue_blocked_source_snapshot}
use lance_etl.Retention.{control_plane_status, retention_decision}
use lance_etl.Settings.{ReconcilerSettings}
use lance_etl.Control.{claim_due, enqueue_snapshot, enqueue_blocked, transact, Reach, start}
use lance_etl.Iceberg.{SourcePlan, WindowPlan, SourceSnapshotRejection}
use lance_etl.Reconciler.{World, Step, Environment, and_then, pure, lift, transaction}
use lance_etl.Reconciler.Results.{ResultKind, ReconcileSummary, DispatchSummary}
use lance_etl.Reconciler.Dispatch.{
  Counts, Executed, reconcile, block_diverged_claim, diverge, settle_claim, process_claim,
  process_claims, claim_batch, after_claims, drain, run, execute_isolated, plus_claimed, no_counts,
  summary_of,
}
use lance_etl.Types.Plan.{SourceSnapshotPlan}
use lance_etl.Reconciler.Planning.{
  checked_uuid, RegisteredSource, EnqueueSummary, enqueue_window, enqueue_windows,
  enqueue_rejection, enqueue, map_snapshot, map_rejection, map_datasets,
}
use lance_etl.Reconciler.Application.{
  evaluate_slo, summarize, report, plan_and_enqueue_snapshots, read, gate_source_retention,
  emit_slo_status,
}
use lance_etl.Reconciler.History.{
  Commits, Commits-and_then, Commits-lift_then, Commits-pure, Commits-or_stale, Commits-transaction,
  Commits-read, Commits-reconcile, Commits-call_worker, state_of-ok, Reach-append,
}

module _ (u : Uuids) (env : Environment)
    (apart : (n : ℕ) (db : Database) → Reach u db (env.others n db)) (sha256 : String → Bytes)
    (settings : ReconcilerSettings) where
  diverge-Reach :
      (claim : WorkClaim) (e : Error) (w : World)
      → Reach u w.database (diverge u sha256 env settings claim e w).database
  unfolding diverge block_diverged_claim Commits
  diverge-Reach claim (state_transition message) w =
      Commits-call_worker u env apart sha256 settings claim (block "STATE_DIVERGENCE" message) w
  diverge-Reach claim (stale_source_plan message) w =
      Commits-call_worker u env apart sha256 settings claim (block "STATE_DIVERGENCE" message) w
  diverge-Reach claim (value_error message) w = start
  diverge-Reach claim no_result w = start
  diverge-Reach claim (integrity message) w = start

  settle_claim-Reach :
      (claim : WorkClaim) (kind : ResultKind) (c : Counts) (w : World) (r : Result Bool × World)
      → Reach u w.database r.1.database
      → Reach u w.database (settle_claim u sha256 env settings claim kind c r).1.database
  unfolding settle_claim
  settle_claim-Reach claim kind c w (ok accepted, w1) h = h
  settle_claim-Reach claim kind c w (err e, w1) h =
      Reach-append u w.database w1.database (diverge u sha256 env settings claim e w1).database h
        (diverge-Reach claim e w1)

  module _ (execute : ℕ → WorkClaim → Executed) where
    process_claim-Reach :
        (claim : WorkClaim) (c : Counts) (w : World)
        → Reach u w.database (process_claim u sha256 env settings execute claim c w).1.database
    unfolding process_claim Commits
    process_claim-Reach claim c w =
        let result = execute_isolated claim (execute w.calls claim) in
        settle_claim-Reach claim result.kind c w (reconcile u sha256 env settings result w)
          (Commits-reconcile u env apart sha256 settings result w)

    process_claims-Reach :
        (claims : List WorkClaim) (c : Counts) (w : World)
        → Reach u w.database (process_claims u sha256 env settings execute claims c w).1.database
    unfolding process_claims
    process_claims-Reach [] c w = start
    process_claims-Reach (claim ∷ claims) c w =
        let r = process_claim u sha256 env settings execute claim c w in
        Reach-append u w.database r.1.database
          (process_claims u sha256 env settings execute claims r.0 r.1).1.database
          (process_claim-Reach claim c w) (process_claims-Reach claims r.0 r.1)

    claim_due-ok :
        (n now : ℕ) (db : Database) (a : List WorkClaim) (db' : Database)
        → claim_due_work
            (env.token n)
            (env.locked_work n)
            (env.locked_dataset n)
            settings.claim_batch_size
            settings.lease_duration
            now
            db
          ≡ ok (a, db')
        → transact u
            (claim_due
              (env.token n)
              (env.locked_work n)
              (env.locked_dataset n)
              settings.claim_batch_size
              settings.lease_duration)
            now
            db
          ≡ ok db'
    unfolding transact
    claim_due-ok n now db a db' e = state_of-ok _ e

    Commits-claim_batch : Commits u (claim_batch u sha256 env settings execute)
    unfolding claim_batch
    Commits-claim_batch =
        Commits-transaction u env apart
          (λ n now db.
            claim_due_work (env.token n) (env.locked_work n) (env.locked_dataset n)
              settings.claim_batch_size settings.lease_duration now db)
          (λ n.
            claim_due (env.token n) (env.locked_work n) (env.locked_dataset n)
              settings.claim_batch_size settings.lease_duration)
          claim_due-ok

    Commits-after_claims :
        (rest : Counts → Step Counts) (c : Counts) (claims : List WorkClaim)
        → ((c1 : Counts) → Commits u (rest c1))
        → Commits u (after_claims u sha256 env settings execute rest c claims)
    unfolding after_claims Commits
    Commits-after_claims rest c [] h w = start
    Commits-after_claims rest c (claim ∷ claims) h w =
        let c1 = plus_claimed u sha256 env settings execute (length (claim ∷ claims)) c in
        let r = process_claims u sha256 env settings execute (claim ∷ claims) c1 w in
        let done = process_claims-Reach (claim ∷ claims) c1 w in
        elim (Bool-cases (ltb (length (claim ∷ claims)) (pos_part settings.claim_batch_size))) [
          | inl t ↦ rw t done
          | inr t ↦
              rw t
                (Reach-append u w.database r.1.database (rest r.0 r.1).1.database done (h r.0 r.1))
        ]

    Commits-drain : (n : ℕ) (c : Counts) → Commits u (drain u sha256 env settings execute n c)
    unfolding drain
    Commits-drain zero c = Commits-pure u c
    Commits-drain (suc n) c =
        Commits-and_then u (claim_batch u sha256 env settings execute)
          (after_claims u sha256 env settings execute (drain u sha256 env settings execute n) c)
          Commits-claim_batch
          (λ claims.
            Commits-after_claims (drain u sha256 env settings execute n) c claims
              (λ c1. Commits-drain n c1))

    pub Commits-run : Commits u (run u sha256 env settings execute)
    unfolding run
    Commits-run =
        Commits-and_then u
          (drain u sha256 env settings execute (pos_part settings.max_drain_batches) no_counts)
          (λ c. pure (summary_of u sha256 env settings execute c))
          (Commits-drain (pos_part settings.max_drain_batches) no_counts)
          (λ c. Commits-pure u (summary_of u sha256 env settings execute c))

  module _ (source : RegisteredSource) where
    Commits-enqueue_window :
        (epoch : Option ℤ) (window : WindowPlan)
        → Commits u (enqueue_window u env settings source epoch window)
    unfolding enqueue_window transact
    Commits-enqueue_window epoch window = Commits-lift_then u (map_datasets window) _ (λ datasets.
        Commits-transaction u env apart
          (λ n now db.
            enqueue_source_snapshot u (map_snapshot source.source_id window epoch) datasets now db)
          (λ n. enqueue_snapshot (map_snapshot source.source_id window epoch) datasets)
          (λ n now db a db' e. state_of-ok _ e))

    Commits-enqueue_windows :
        (epoch : Option ℤ) (windows : List WindowPlan)
        → Commits u (enqueue_windows u env settings source epoch windows)
    unfolding enqueue_windows
    Commits-enqueue_windows epoch [] = Commits-pure u []
    Commits-enqueue_windows epoch (window ∷ windows) =
        Commits-and_then u (enqueue_window u env settings source epoch window)
          (λ seq.
            and_then (enqueue_windows u env settings source epoch windows)
              (λ rest. pure (seq ∷ rest)))
          (Commits-enqueue_window epoch window)
          (λ seq.
            Commits-and_then u (enqueue_windows u env settings source epoch windows)
              (λ rest. pure (seq ∷ rest)) (Commits-enqueue_windows epoch windows)
              (λ rest. Commits-pure u (seq ∷ rest)))

    blocked-ok :
        (plan : SourceSnapshotPlan) (code : String) (message : Option String) (now : ℕ)
        (db : Database) {a : ℕ} {db' : Database}
        → enqueue_blocked_source_snapshot plan code message now db ≡ ok (a, db')
        → transact u (enqueue_blocked plan code message) now db ≡ ok db'
    unfolding transact
    blocked-ok plan code message now db e =
        state_of-ok (enqueue_blocked_source_snapshot plan code message now db) e

    Commits-enqueue_rejection :
        (epoch : Option ℤ) (whole : Bool) (rejection : Option SourceSnapshotRejection)
        → Commits u (enqueue_rejection u env settings source epoch whole rejection)
    unfolding enqueue_rejection
    Commits-enqueue_rejection epoch false rejection = Commits-pure u tt
    Commits-enqueue_rejection epoch true none = Commits-pure u tt
    Commits-enqueue_rejection epoch true (some rejection) =
        let plan = map_rejection source.source_id rejection epoch in
        Commits-and_then u
          (transaction env
            (λ n now db. enqueue_blocked_source_snapshot plan rejection.error_code none now db))
          (λ seq. pure tt)
          (Commits-transaction u env apart
            (λ n now db. enqueue_blocked_source_snapshot plan rejection.error_code none now db)
            (λ n. enqueue_blocked plan rejection.error_code none)
            (λ n now db a db' e. blocked-ok plan rejection.error_code none now db e))
          (λ seq. Commits-pure u tt)

    Commits-enqueue : (plan : SourcePlan) → Commits u (enqueue u env settings source plan)
    unfolding enqueue
    Commits-enqueue plan =
        let selected = take (pos_part settings.max_snapshots_per_plan) plan.windows in
        let whole = length selected == length plan.windows in
        let summary : List ℕ → EnqueueSummary = λ sequences. record {
          pinned_head_snapshot_id = plan.pinned_head_snapshot_id;
          planned_snapshots = length plan.windows;
          enqueued_snapshots = length selected;
          source_snapshot_sequences = sequences;
          truncated = ltb (length selected) (length plan.windows);
        } in
        Commits-lift_then u (checked_uuid u env settings source (u.parse_uuid plan.table_uuid)) _
          (λ checked.
            Commits-and_then u (enqueue_windows u env settings source plan.planning_epoch selected)
              (λ sequences.
                and_then
                  (enqueue_rejection u env settings source plan.planning_epoch whole plan.rejection)
                  (λ done. pure (summary sequences)))
              (Commits-enqueue_windows plan.planning_epoch selected)
              (λ sequences.
                Commits-and_then u
                  (enqueue_rejection u env settings source plan.planning_epoch whole plan.rejection)
                  (λ done. pure (summary sequences))
                  (Commits-enqueue_rejection plan.planning_epoch whole plan.rejection)
                  (λ done. Commits-pure u (summary sequences))))

    Commits-gate : Commits u (gate_source_retention env)
    unfolding gate_source_retention
    Commits-gate =
        Commits-and_then u (read env control_plane_status)
          (λ status. pure (retention_decision status))
          (Commits-read u env apart control_plane_status)
          (λ status. Commits-pure u (retention_decision status))

    Commits-emit : Commits u (emit_slo_status env settings)
    unfolding emit_slo_status Commits
    Commits-emit =
        Commits-and_then u (read env control_plane_status)
          (λ status w. (ok (evaluate_slo status settings (env.clock w.calls)), w))
          (Commits-read u env apart control_plane_status) (λ status w. start)

    module _ (execute : ℕ → WorkClaim → Executed) (plan : ℕ → ℤ → Result SourcePlan)
        (sweep : Step ReconcileSummary) where
      pub Commits-plan :
          Commits u (plan_and_enqueue_snapshots u sha256 env settings source execute plan sweep)
      unfolding plan_and_enqueue_snapshots Commits
      Commits-plan =
          Commits-or_stale u
            (λ w.
              and_then (lift (plan w.calls settings.max_snapshots_per_plan))
                (enqueue u env settings source) w)
            (λ w.
              Commits-lift_then u (plan w.calls settings.max_snapshots_per_plan)
                (enqueue u env settings source) Commits-enqueue w)

      pub Commits-report :
          (planning : EnqueueSummary) (dispatch : DispatchSummary)
          (reconciliation : ReconcileSummary)
          → Commits u (
              report u sha256 env settings source execute plan sweep planning dispatch
                reconciliation)
      unfolding report
      Commits-report planning dispatch reconciliation =
          let summary =
            summarize u sha256 env settings source execute plan sweep planning dispatch
              reconciliation in
          Commits-and_then u (gate_source_retention env)
            (λ retention.
              and_then (emit_slo_status env settings) (λ slo. pure (summary retention slo)))
            Commits-gate
            (λ retention.
              Commits-and_then u (emit_slo_status env settings)
                (λ slo. pure (summary retention slo)) Commits-emit
                (λ slo. Commits-pure u (summary retention slo)))
