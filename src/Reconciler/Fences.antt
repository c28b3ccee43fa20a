-- ===== src/Reconciler/Fences.antt =====
-- What a cycle of the reconciler, with its sweep, never undoes.
use lance_etl.Common.{
  ℕ, ◌≡◌, ◌<◌, sym, ◌∙◌, ap, subst, String, Bool, Option, some, Result, ok, arith, ℤ, Keyed,
  Keyed-select, find_row, ◌==◌,
}
use lance_etl.Types.{Bytes, WorkClaim}
use lance_etl.Types.Ids.{Uuids}
use lance_etl.Db.{Dataset, Publication, Database, find_dataset}
use lance_etl.Queue.Fencing.{WorkerCall, perform, perform_superseded}
use lance_etl.Queue.Evolution.Progress.{IsKeyed, work_key, dataset_key}
use lance_etl.Control.{Reach}
use lance_etl.Control.History.{Reach-Progress, find_dataset-Progress}
use lance_etl.Retention.{PublicationCleanup, delete_completed_audit}
use lance_etl.Settings.{ReconcilerSettings}
use lance_etl.Iceberg.{SourcePlan}
use lance_etl.Reconciler.{World, Environment}
use lance_etl.Reconciler.Dispatch.{Executed}
use lance_etl.Reconciler.Planning.{RegisteredSource}
use lance_etl.Reconciler.Application.{run_once}
use lance_etl.Reconciler.Sweep.{sweep}
use lance_etl.Reconciler.Deletions.{audit-select}
use lance_etl.Reconciler.Histories.{
  History, begin, transacted, finalized, audited, finalize-tables, run_once-History,
}

audit-tables :
    (cutoff : ℕ) (limit : ℤ) (db : Database) {counts : ℕ × ℕ} {db' : Database}
    → IsKeyed db
    → delete_completed_audit cutoff limit db ≡ ok (counts, db')
    → (db'.datasets ≡ db.datasets) × IsKeyed db'
audit-tables cutoff limit db {counts} {db'} k e =
    let (p, q) = audit-select cutoff limit db e in
    (
      ap (λ x. x.datasets) (sym q),
      subst IsKeyed q
          (record { works = Keyed-select work_key p db.works k.works; datasets = k.datasets }),
    )

kept_tables : (a b : Database) → b.datasets ≡ a.datasets → b.works ≡ a.works → IsKeyed a → IsKeyed b
kept_tables a b d w k = record {
  works = subst (λ ws. Keyed work_key ws) (sym w) k.works;
  datasets = subst (λ ds. Keyed dataset_key ds) (sym d) k.datasets;
}

same_dataset_found :
    (id : ℕ) (a b : Database) {d : Dataset}
    → b.datasets ≡ a.datasets
    → find_dataset id a ≡ some d
    → find_dataset id b ≡ some d
unfolding find_dataset
same_dataset_found id a b q f = ap (λ ds. find_row (λ (x : Dataset). x.dataset_id == id) ds) q ∙ f

-- A dataset stays, and its fence epoch never falls.
History-fence :
    (u : Uuids) (db db' : Database) (id n : ℕ) (d : Dataset)
    → IsKeyed db
    → find_dataset id db ≡ some d
    → n < d.fence_epoch
    → History u db db'
    → (e : Dataset) × ((find_dataset id db' ≡ some e) × (n < e.fence_epoch))
History-fence u db db' id n d k f later begin = (d, (f, later))
History-fence u db db' id n d k f later (transacted {db1 = x} reach rest) =
    let p = Reach-Progress u db x k reach in
    let (e, g, step) = find_dataset-Progress id db x p f in
    let fence = step.fence in
    History-fence u x db' id n e p.keyed g (omega (arith, later, fence)) rest
History-fence u db db' id n d k f later (finalized {db1 = x} c b done rest) =
    let (ds, ws) = finalize-tables c db done in
    History-fence u x db' id n d (kept_tables db x ds ws k) (same_dataset_found id db x ds f) later
      rest
History-fence u db db' id n d k f later (audited {db1 = x} cutoff limit counts done rest) =
    let (ds, k') = audit-tables cutoff limit db k done in
    History-fence u x db' id n d k' (same_dataset_found id db x ds f) later rest

-- A worker whose claim was superseded before a cycle of the reconciler, planning, drain and sweep
-- included, can never write after it, whatever the cycle's workers, its plan provider and the other
-- processes did: each call under its claim raises or leaves the database as it is.
pub run_once_superseded :
    (u : Uuids) (env : Environment) (sha256 : String → Bytes) (settings : ReconcilerSettings)
    (source : RegisteredSource) (execute : ℕ → WorkClaim → Executed)
    (plan : ℕ → ℤ → Result SourcePlan) (hex : ℕ → String) (tie : Publication → Publication → Bool)
    (removal : ℕ → PublicationCleanup → Option String) (w : World) (claim : WorkClaim)
    (call : WorkerCall) (now : ℕ) (d : Dataset) {r : Bool × Database}
    → ((n : ℕ) (db : Database) → Reach u db (env.others n db))
    → IsKeyed w.database
    → find_dataset claim.dataset_id w.database ≡ some d
    → claim.fence_epoch < d.fence_epoch
    → perform u claim call now
        (run_once u sha256 env settings source execute plan
          (sweep env settings hex tie removal)
          w).1.database
      ≡ ok r
    → r.1
      ≡ (run_once u sha256 env settings source execute plan
          (sweep env settings hex tie removal)
          w).1.database
run_once_superseded u env sha256 settings source execute plan hex tie removal w claim call now d
      apart k f later e =
    let end =
      (run_once u sha256 env settings source execute plan (sweep env settings hex tie removal)
        w).1.database in
    let (d', (g, fence)) =
      History-fence u w.database end claim.dataset_id claim.fence_epoch d k f later
        (run_once-History u env apart sha256 settings source execute plan hex tie removal w) in
    perform_superseded u claim call now end (rw g (ground (arith, fence))) e
