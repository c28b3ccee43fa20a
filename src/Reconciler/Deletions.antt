-- ===== src/Reconciler/Deletions.antt =====
-- The sweep deletes, and changes nothing else; what is served stays.
use lance_etl.Common.{
  ℕ, ◌≡◌, refl, sym, ◌∙◌, ap, String, Bool, Option, List, [], ◌∷◌, Result, ok, ◌>>=◌,
  raise_if-eq-ok, Option-cases, inl, inr, find_row, ℤ, select, is_nonpositive,
}
use lance_etl.Types.{RoutingIdentity}
use lance_etl.Types.Ids.{validate_identity}
use lance_etl.Db.{Work, Dataset, Publication, Database, find_source}
use lance_etl.Queue.Publish.{
  resolve_serving_dataset, serving_rows, serving_result, points_at, on_route,
}
use lance_etl.Retention.{PublicationCleanup, finalize_publication_cleanup, delete_completed_audit}
use lance_etl.Retention.Deletion.{finalize_publication_cleanup_serves}
use lance_etl.Settings.{ReconcilerSettings}
use lance_etl.Reconciler.{World, Environment}
use lance_etl.Reconciler.Sweep.{sweep}
use lance_etl.Reconciler.Follows.{Follows, Follows-sweep}

-- Deletions that a sweep has committed, one after the other.
pub data Deletes : Database → Database → Type 0 where
  kept : {db : Database} → Deletes db db
  cleaned :
      {db db1 db' : Database} (c : PublicationCleanup) (b : Bool)
      → finalize_publication_cleanup c db ≡ ok (b, db1)
      → Deletes db1 db'
      → Deletes db db'
  pruned :
      {db db1 db' : Database} (cutoff : ℕ) (limit : ℤ) (counts : ℕ × ℕ)
      → delete_completed_audit cutoff limit db ≡ ok (counts, db1)
      → Deletes db1 db'
      → Deletes db db'

pub Deletes-append : (a b c : Database) → Deletes a b → Deletes b c → Deletes a c
Deletes-append a b c kept k = k
Deletes-append a b c (cleaned {db1 = x} cleanup done e rest) k =
    cleaned cleanup done e (Deletes-append x b c rest k)
Deletes-append a b c (pruned {db1 = x} cutoff limit counts e rest) k =
    pruned cutoff limit counts e (Deletes-append x b c rest k)

pair-eq-ok :
    {A B : Type 0} (a c : A) (x y : B) → ◌≡◌ {A = Result (A × B)} (ok (a, x)) (ok (c, y)) → x ≡ y
pair-eq-ok a c x y q = cc

-- A pruning selects from the rows of work.
pub audit-select :
    (cutoff : ℕ) (limit : ℤ) (db : Database) {counts : ℕ × ℕ} {db' : Database}
    → delete_completed_audit cutoff limit db ≡ ok (counts, db')
    → (p : Work → Bool) × (record db { works = select p db.works } ≡ db')
unfolding delete_completed_audit
audit-select cutoff limit db {counts} {db'} e =
    let (_, done) = raise_if-eq-ok (is_nonpositive limit) _ _ e in
    (_, pair-eq-ok _ counts _ db' done)

works-rows :
    (ws : List Work) (db : Database) (identity : RoutingIdentity) (ds : List Dataset)
    → serving_rows identity (record db { works = ws }) ds ≡ serving_rows identity db ds
unfolding serving_rows on_route find_source
works-rows ws db identity [] = refl
works-rows ws db identity (d ∷ ds) =
    let rest = works-rows ws db identity ds in
    elim (Option-cases (find_row (points_at d) db.publications)) [
      | inl q ↦ rw (q, rest) refl
      | inr (p, q) ↦ rw (q, rest) refl
    ]

-- A table of work is no part of what is served.
works-serve :
    (ws : List Work) (db : Database) (identity : RoutingIdentity)
    → resolve_serving_dataset identity (record db { works = ws })
      ≡ resolve_serving_dataset identity db
unfolding resolve_serving_dataset
works-serve ws db identity =
    ap (λ rows. validate_identity identity >>= λ _. serving_result identity rows)
      (works-rows ws db identity db.datasets)

-- No deletion changes what any route resolves to.
pub Deletes-serves :
    (db db' : Database) (identity : RoutingIdentity)
    → Deletes db db'
    → resolve_serving_dataset identity db' ≡ resolve_serving_dataset identity db
Deletes-serves db db' identity kept = refl
Deletes-serves db db' identity (cleaned {db1 = x} c b e rest) =
    Deletes-serves x db' identity rest ∙ (finalize_publication_cleanup_serves c db e).0 identity
Deletes-serves db db' identity (pruned {db1 = x} cutoff limit counts e rest) =
    let (p, q) = audit-select cutoff limit db e in
    Deletes-serves x db' identity rest
    ∙ (ap (λ y. resolve_serving_dataset identity y) (sym q)
        ∙ works-serve (select p db.works) db identity)

-- A sweep that no other process interrupts, except with deletions of its kind, never changes what is
-- served: every route resolves after it, whether it returned or raised, as it did before.
pub sweep_serves :
    (env : Environment) (settings : ReconcilerSettings) (hex : ℕ → String)
    (tie : Publication → Publication → Bool) (removal : ℕ → PublicationCleanup → Option String)
    (w : World) (identity : RoutingIdentity)
    → ((n : ℕ) (db : Database) → Deletes db (env.others n db))
    → resolve_serving_dataset identity (sweep env settings hex tie removal w).1.database
      ≡ resolve_serving_dataset identity w.database
unfolding Follows
sweep_serves env settings hex tie removal w identity apart =
    Deletes-serves w.database (sweep env settings hex tie removal w).1.database identity (
      Follows-sweep Deletes (λ db. kept) Deletes-append env apart
        (λ c b db db1 e. cleaned c b e kept)
        (λ cutoff limit counts db db1 e. pruned cutoff limit counts e kept) settings hex tie removal
        w)
