-- ===== src/Reconciler/Histories.antt =====
-- A cycle of the reconciler with its sweep: transactions of `Call`, and the sweep's deletions.
use lance_etl.Common.{
  ℕ, ◌≡◌, refl, sym, ◌∙◌, ap, String, Bool, Option, Result, ok, ℤ, raise_if-eq-ok, not, ◌||◌,
  Option-cases, inl, inr, state_transition,
}
use lance_etl.Types.{Bytes, WorkClaim}
use lance_etl.Types.Ids.{Uuids}
use lance_etl.Types.Plan.{is_none}
use lance_etl.Db.{Publication, Database, find_publication}
use lance_etl.Control.{Reach}
use lance_etl.Retention.{
  PublicationCleanup, finalize_publication_cleanup, finalize_row, delete_publication, same_cleanup,
  delete_completed_audit,
}
use lance_etl.Settings.{ReconcilerSettings}
use lance_etl.Iceberg.{SourcePlan}
use lance_etl.Reconciler.{World, Step, Environment, and_then}
use lance_etl.Reconciler.Dispatch.{Executed, run}
use lance_etl.Reconciler.Planning.{RegisteredSource}
use lance_etl.Reconciler.Application.{run_once, plan_and_enqueue_snapshots, report}
use lance_etl.Reconciler.History.{Commits}
use lance_etl.Reconciler.Cycle.{Commits-run, Commits-plan, Commits-report}
use lance_etl.Reconciler.Follows.{Follows, Follows-and_then, Follows-sweep}
use lance_etl.Reconciler.Sweep.{sweep}

-- Transactions of `Call`, cleanups that are finalized, and prunings of the audit, in any order.
pub data History (u : Uuids) : Database → Database → Type 0 where
  begin : {db : Database} → History u db db
  transacted : {db db1 db' : Database} → Reach u db db1 → History u db1 db' → History u db db'
  finalized :
      {db db1 db' : Database} (c : PublicationCleanup) (b : Bool)
      → finalize_publication_cleanup c db ≡ ok (b, db1)
      → History u db1 db'
      → History u db db'
  audited :
      {db db1 db' : Database} (cutoff : ℕ) (limit : ℤ) (counts : ℕ × ℕ)
      → delete_completed_audit cutoff limit db ≡ ok (counts, db1)
      → History u db1 db'
      → History u db db'

History-append : (u : Uuids) (a b c : Database) → History u a b → History u b c → History u a c
History-append u a b c begin k = k
History-append u a b c (transacted {db1 = x} reach rest) k =
    transacted reach (History-append u x b c rest k)
History-append u a b c (finalized {db1 = x} cleanup done e rest) k =
    finalized cleanup done e (History-append u x b c rest k)
History-append u a b c (audited {db1 = x} cutoff limit counts e rest) k =
    audited cutoff limit counts e (History-append u x b c rest k)

module _ (u : Uuids) (env : Environment)
    (apart : (n : ℕ) (db : Database) → Reach u db (env.others n db)) (sha256 : String → Bytes)
    (settings : ReconcilerSettings) (source : RegisteredSource) (execute : ℕ → WorkClaim → Executed)
    (plan : ℕ → ℤ → Result SourcePlan) (hex : ℕ → String) (tie : Publication → Publication → Bool)
    (removal : ℕ → PublicationCleanup → Option String) where
  as_history : (n : ℕ) (db : Database) → History u db (env.others n db)
  as_history n db = transacted (apart n db) begin

  of_Commits :
      {A : Type 0} (m : Step A)
      → Commits u m
      → Follows (History u) (λ db. begin) (History-append u) env as_history m
  unfolding Commits Follows
  of_Commits m h w = transacted (h w) begin

  -- One cycle of the reconciler with its sweep, whether it returns or raises, and whatever its
  -- workers, its plan provider and the removal of artifacts answer: where the other processes only
  -- commit transactions of `Call`, the database it ends with is reached from the one it began with
  -- by transactions of `Call`, finalized cleanups and prunings of the audit.
  pub run_once-History :
      (w : World)
      → History u w.database
          (run_once u sha256 env settings source execute plan
            (sweep env settings hex tie removal)
            w).1.database
  unfolding run_once Follows
  run_once-History =
      let swept = sweep env settings hex tie removal in
      let planned = plan_and_enqueue_snapshots u sha256 env settings source execute plan swept in
      let drained = run u sha256 env settings execute in
      let told = report u sha256 env settings source execute plan swept in
      let join = History-append u in
      Follows-and_then (History u) (λ db. begin) join env as_history planned
        (λ planning. and_then drained (λ dispatch. and_then swept (told planning dispatch)))
        (of_Commits planned (Commits-plan u env apart sha256 settings source execute plan swept))
        (λ planning.
          Follows-and_then (History u) (λ db. begin) join env as_history drained
            (λ dispatch. and_then swept (told planning dispatch))
            (of_Commits drained (Commits-run u env apart sha256 settings execute))
            (λ dispatch.
              Follows-and_then (History u) (λ db. begin) join env as_history swept
                (told planning dispatch)
                (Follows-sweep (History u) (λ db. begin) join env as_history
                  (λ c b db db1 e. finalized c b e begin)
                  (λ cutoff limit counts db db1 e. audited cutoff limit counts e begin) settings hex
                  tie removal)
                (λ reconciliation. of_Commits (told planning dispatch reconciliation) (
                  Commits-report u env apart sha256 settings source execute plan swept planning
                    dispatch reconciliation))))

deleted_works : (id : ℕ) (db : Database) → (delete_publication id db).1.works ≡ db.works
unfolding delete_publication
deleted_works id db = refl

deleted_datasets : (id : ℕ) (db : Database) → (delete_publication id db).1.datasets ≡ db.datasets
unfolding delete_publication
deleted_datasets id db = refl

-- What a cleanup and a pruning leave: the datasets, and work with unique keys.
pub finalize-tables :
    (c : PublicationCleanup) (db : Database) {b : Bool} {db' : Database}
    → finalize_publication_cleanup c db ≡ ok (b, db')
    → (db'.datasets ≡ db.datasets) × (db'.works ≡ db.works)
unfolding finalize_publication_cleanup
finalize-tables c db {b} {db'} e = elim (Option-cases (find_publication c.publication_id db)) [
  | inl t ↦
      let e1 = rw (t, finalize_row) at e in
      let q : db ≡ db' = cc in (ap (λ x. x.datasets) (sym q), ap (λ x. x.works) (sym q))
  | inr (row, t) ↦
      let e1 = rw (t, finalize_row) at e in
      let done =
        (raise_if-eq-ok (not (same_cleanup c row) || is_none row.retired_at)
          (state_transition "publication cleanup identity differs from durable state")
          (ok (delete_publication c.publication_id db)) e1).1 in
      let q : delete_publication c.publication_id db ≡ (b, db') = cc in
      let q1 = ap (λ r. r.1) q in
      (
        ap (λ x. x.datasets) (sym q1) ∙ deleted_datasets c.publication_id db,
        ap (λ x. x.works) (sym q1) ∙ deleted_works c.publication_id db,
      )
]
