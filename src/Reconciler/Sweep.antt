-- ===== src/Reconciler/Sweep.antt =====
-- reconciler/retention.py: the sweep that ends each cycle. It claims retired publications, has their
-- pins and artifacts removed, deletes their rows, and prunes old audit rows. What the removal on an
-- executor answers for a cleanup, an error or none, is a parameter, as are the names of pins and
-- the order in which the database reads tied rows.
use lance_etl.Common.{
  ℕ, suc, ◌+◌, ◌-◌, String, Bool, true, false, Option, none, some, List, [], ◌∷◌, ok, ◌>>=◌, length,
  pos_part,
}
use lance_etl.Db.{Publication}
use lance_etl.Retention.{
  PublicationCleanup, claim_publication_cleanup, finalize_publication_cleanup,
  delete_completed_audit,
}
use lance_etl.Settings.{ReconcilerSettings}
use lance_etl.Reconciler.{Step, Environment, and_then, pure, transaction}
use lance_etl.Reconciler.Results.{ReconcileSummary}

-- reconciled and deferred
pub record SweepCounts : Type 0 where
  pub reconciled : ℕ
  pub deferred : ℕ

abbrev pub count_removed : Bool → SweepCounts → SweepCounts
count_removed true c = record c { reconciled = suc c.reconciled }
count_removed false c = record c { deferred = suc c.deferred }

module _ (env : Environment) (settings : ReconcilerSettings) (hex : ℕ → String)
    (tie : Publication → Publication → Bool)
    (removal : ℕ → PublicationCleanup → Option String) where
  abbrev pub finalize_one : PublicationCleanup → SweepCounts → Option String → Step SweepCounts
  finalize_one cleanup c (some error) = pure (record c { deferred = suc c.deferred })
  finalize_one cleanup c none =
      and_then (transaction env (λ n now db. finalize_publication_cleanup cleanup db))
        (λ absent. pure (count_removed absent c))

  -- The loop over the outcomes; `n` is the call at which the sweep began.
  unfoldable pub finalize_all : ℕ → List PublicationCleanup → SweepCounts → Step SweepCounts
  finalize_all n [] c = pure c
  finalize_all n (cleanup ∷ cleanups) c =
      and_then (finalize_one cleanup c (removal n cleanup)) (λ c'. finalize_all n cleanups c')

  unfoldable pub claim_cleanups : ℕ → Step (List PublicationCleanup)
  claim_cleanups current = transaction env (λ n now db.
      claim_publication_cleanup tie hex current settings.cleanup_batch_size db >>= λ claims.
      ok (claims, db))

  abbrev pub sweep_summary : ℕ → SweepCounts → ℕ × ℕ → ReconcileSummary
  sweep_summary inspected c deleted = record {
    inspected = inspected;
    reconciled = c.reconciled + deleted.0 + deleted.1;
    deferred = c.deferred;
  }

  -- What follows the claims.
  unfoldable pub sweep_claimed : ℕ → ℕ → List PublicationCleanup → Step ReconcileSummary
  unfolding finalize_all
  sweep_claimed n current claims =
      and_then (finalize_all n claims (record { reconciled = 0; deferred = 0 })) (λ c.
        and_then
          (transaction env (λ m now db.
            delete_completed_audit (current - pos_part settings.audit_retention)
              settings.cleanup_batch_size db))
          (λ deleted. pure (sweep_summary (length claims) c deleted)))

  unfoldable pub sweep : Step ReconcileSummary
  unfolding claim_cleanups sweep_claimed
  sweep w =
      and_then (claim_cleanups (env.clock w.calls)) (sweep_claimed w.calls (env.clock w.calls)) w
