-- ===== src/Reconciler/History.antt =====
-- What the reconciler does to the database is a history of the transactions of `Call`.
use lance_etl.Common.{
  String, some, ℕ, ◌≡◌, refl, Bool, true, false, List, [], ◌∷◌, Result, ok, err, value_error,
  state_transition, stale_source_plan, no_result, integrity, pos_part, pos, if◌then◌else◌,
}
use lance_etl.Types.{Bytes, WorkClaim, WorkPhase}
use lance_etl.Types.Ids.{Uuids}
use lance_etl.Db.{Database}
use lance_etl.Queue.Fencing.{WorkerCall, perform, advance, retry, block, complete, publish}
use lance_etl.Settings.{ReconcilerSettings, retry_delay}
use lance_etl.Control.{Call, worker, transact, Reach, start, commit, state_of}
use lance_etl.Reconciler.{
  World, Step, Environment, after, and_then, pure, lift, settle, met, transaction,
}
use lance_etl.Reconciler.Results.{
  ResultKind, WorkResult, validate_result, required_str, required_int, required_bytes,
  required_publication_evidence, text_or_empty,
}
use lance_etl.Reconciler.Dispatch.{
  call_worker, advance_phases, advance_publish_phases, publish_result, reconcile_kind, reconcile,
  phases_after, checkpoint_of,
}
use lance_etl.Reconciler.Planning.{EnqueueSummary}
use lance_etl.Reconciler.Application.{or_stale, read}

pub Reach-append : (u : Uuids) (a b c : Database) → Reach u a b → Reach u b c → Reach u a c
Reach-append u a b c start k = k
Reach-append u a b c (commit {db1 = db1} call now e rest) k =
    commit call now e (Reach-append u db1 b c rest k)

pub state_of-ok :
    {A : Type 0} (m : Result (A × Database)) {a : A} {db : Database}
    → m ≡ ok (a, db)
    → state_of m ≡ ok db
state_of-ok m e = rw e refl

module _ (u : Uuids) where
  -- From any world, the step leads to the end of a history.
  unfoldable pub Commits : {A : Type 0} → Step A → Type 0
  Commits m = (w : World) → Reach u w.database (m w).1.database

  pub Commits-and_then :
      {A B : Type 0} (m : Step A) (f : A → Step B)
      → Commits m
      → ((a : A) → Commits (f a))
      → Commits (and_then m f)
  unfolding Commits
  Commits-and_then {A = A} m f hm hf w = go (m w) (hm w)
    where
      go :
          (r : Result A × World)
          → Reach u w.database r.1.database
          → Reach u w.database (after r f).1.database
      go (err e, w1) h = h
      go (ok a, w1) h = Reach-append u w.database w1.database (f a w1).1.database h (hf a w1)

  pub Commits-lift : {A : Type 0} (r : Result A) → Commits (lift r)
  unfolding Commits
  Commits-lift r w = start

  pub Commits-lift_then :
      {A B : Type 0} (r : Result A) (f : A → Step B)
      → ((a : A) → Commits (f a))
      → Commits (and_then (lift r) f)
  unfolding Commits
  Commits-lift_then (err e) f h w = start
  Commits-lift_then (ok a) f h w = h a w

  pub Commits-pure : {A : Type 0} (a : A) → Commits (pure a)
  unfolding Commits
  Commits-pure a w = start

  worker-ok :
      (claim : WorkClaim) (call : WorkerCall) (now : ℕ) (db : Database) {a : Bool} {db' : Database}
      → perform u claim call now db ≡ ok (a, db')
      → transact u (worker claim call) now db ≡ ok db'
  unfolding transact
  worker-ok claim call now db e = state_of-ok (perform u claim call now db) e

  -- A step whose result is replaced.
  pub Commits-or_stale : (m : Step EnqueueSummary) → Commits m → Commits (λ w. or_stale (m w))
  unfolding Commits
  Commits-or_stale m h w = go (m w) (h w)
    where
      go :
          (r : Result EnqueueSummary × World)
          → Reach u w.database r.1.database
          → Reach u w.database (or_stale r).1.database
      go (err (stale_source_plan message), w1) k = k
      go (err (state_transition message), w1) k = k
      go (err (value_error message), w1) k = k
      go (err no_result, w1) k = k
      go (err (integrity message), w1) k = k
      go (ok a, w1) k = k

  module _ (env : Environment)
      (apart : (n : ℕ) (db : Database) → Reach u db (env.others n db)) where
    pub Commits-transaction :
        {A : Type 0} (body : ℕ → ℕ → Database → Result (A × Database)) (call : ℕ → Call)
        → ((n now : ℕ) (db : Database) (a : A) (db' : Database)
            → body n now db ≡ ok (a, db')
            → transact u (call n) now db ≡ ok db')
        → Commits (transaction env body)
    unfolding Commits
    Commits-transaction {A = A} body call same w =
        go (body w.calls (env.clock w.calls) (env.others w.calls w.database)) refl
      where
        go :
            (r : Result (A × Database))
            → body w.calls (env.clock w.calls) (env.others w.calls w.database) ≡ r
            → Reach u w.database (settle (met env w) r).1.database
        go (err e) q = apart w.calls w.database
        go (ok (a, db')) q =
            Reach-append u w.database (env.others w.calls w.database) db' (apart w.calls w.database)
              (commit (call w.calls) (env.clock w.calls)
                (same w.calls (env.clock w.calls) (env.others w.calls w.database) a db' q) start)

    pub Commits-read : {A : Type 0} (query : ℕ → Database → A) → Commits (read env query)
    unfolding Commits
    Commits-read query w = apart w.calls w.database

    module _ (sha256 : String → Bytes) (settings : ReconcilerSettings) where
      pub Commits-call_worker :
          (claim : WorkClaim) (call : WorkerCall)
          → Commits (call_worker u sha256 env settings claim call)
      unfolding call_worker
      Commits-call_worker claim call =
          Commits-transaction (λ n now db. perform u claim call now db) (λ n. worker claim call)
            (λ n now db a db' e. worker-ok claim call now db e)

      pub Commits-advance_phases :
          (r : WorkResult) (phases : List WorkPhase)
          → Commits (advance_phases u sha256 env settings r phases)
      unfolding advance_phases
      Commits-advance_phases r [] = Commits-pure true
      Commits-advance_phases r (phase ∷ phases) =
          Commits-and_then
            (call_worker u sha256 env settings r.claim (advance phase (checkpoint_of r)))
            (λ accepted.
              if accepted then advance_phases u sha256 env settings r phases else pure false)
            (Commits-call_worker r.claim (advance phase (checkpoint_of r)))
            (λ accepted. either accepted (Commits-advance_phases r phases))
        where
          either :
              (accepted : Bool)
              → Commits (advance_phases u sha256 env settings r phases)
              → Commits
                  (if accepted then advance_phases u sha256 env settings r phases else pure false)
          either true h = h
          either false h = Commits-pure false

      pub Commits-publish_result :
          (r : WorkResult) (accepted : Bool)
          → Commits (publish_result u sha256 env settings r accepted)
      unfolding publish_result
      Commits-publish_result r false = Commits-pure false
      Commits-publish_result r true =
          Commits-lift_then (required_str r.candidate_lance_uri) _ (λ uri.
            Commits-lift_then (required_int r.indexed_lance_version) _ (λ version.
              Commits-lift_then (required_str r.manifest_uri) _ (λ manifest.
                Commits-lift_then (required_bytes r.manifest_digest) _ (λ digest.
                  Commits-lift_then (required_publication_evidence r.publication_evidence) _
                    (λ evidence.
                      Commits-call_worker r.claim
                        (publish uri version manifest digest evidence))))))

      pub Commits-reconcile_kind :
          (r : WorkResult) (kind : ResultKind)
          → Commits (reconcile_kind u sha256 env settings r kind)
      unfolding reconcile_kind advance_publish_phases
      Commits-reconcile_kind r ResultKind.ingest_succeeded =
          Commits-lift_then (required_int r.data_lance_version) _ (λ version.
            Commits-lift_then (required_int r.source_row_count) _ (λ rows.
              Commits-lift_then (required_bytes r.source_digest) _
                (λ digest. Commits-call_worker r.claim (complete version rows digest))))
      Commits-reconcile_kind r ResultKind.publish_succeeded =
          Commits-and_then (advance_publish_phases u sha256 env settings r)
            (publish_result u sha256 env settings r)
            (Commits-lift_then (phases_after r.claim.phase) _
              (λ phases. Commits-advance_phases r phases))
            (Commits-publish_result r)
      Commits-reconcile_kind r ResultKind.retry_later =
          Commits-lift_then
            (retry_delay u sha256 settings r.claim.attempt_count (some r.claim.work_id)) _
            (λ delay. Commits-lift_then (required_str r.error_code) _ (λ code.
              Commits-call_worker r.claim (
                retry (pos delay) code (text_or_empty r.error_message)
                  (pos_part settings.max_attempts))))
      Commits-reconcile_kind r ResultKind.blocked =
          Commits-lift_then (required_str r.error_code) _
            (λ code. Commits-call_worker r.claim (block code (text_or_empty r.error_message)))

      pub Commits-reconcile : (r : WorkResult) → Commits (reconcile u sha256 env settings r)
      unfolding reconcile
      Commits-reconcile r =
          Commits-lift_then (validate_result r) _ (λ checked. Commits-reconcile_kind r r.kind)
