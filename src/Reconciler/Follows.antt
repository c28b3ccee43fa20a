-- ===== src/Reconciler/Follows.antt =====
-- Steps whose database goes along a relation: one cycle's sweep goes along its deletions.
use lance_etl.Common.{
  ℕ, suc, ◌-◌, ◌≡◌, refl, String, Bool, Option, none, some, List, [], ◌∷◌, Result, ok, err, ◌>>=◌,
  length, pos_part, ℤ,
}
use lance_etl.Db.{Publication, Database}
use lance_etl.Retention.{
  PublicationCleanup, claim_publication_cleanup, finalize_publication_cleanup,
  delete_completed_audit,
}
use lance_etl.Settings.{ReconcilerSettings}
use lance_etl.Reconciler.{World, Step, Environment, after, and_then, pure, transaction, settle, met}
use lance_etl.Reconciler.Sweep.{
  SweepCounts, finalize_one, finalize_all, claim_cleanups, sweep_claimed, sweep, sweep_summary,
  count_removed,
}

-- Steps whose database goes along a relation that composes.
module _ (R : Database → Database → Type 0) (same : (db : Database) → R db db)
    (join : (a b c : Database) → R a b → R b c → R a c) (env : Environment)
    (apart : (n : ℕ) (db : Database) → R db (env.others n db)) where
  unfoldable pub Follows : {A : Type 0} → Step A → Type 0
  Follows m = (w : World) → R w.database (m w).1.database

  pub Follows-and_then :
      {A B : Type 0} (m : Step A) (f : A → Step B)
      → Follows m
      → ((a : A) → Follows (f a))
      → Follows (and_then m f)
  unfolding Follows
  Follows-and_then {A = A} m f hm hf w = go (m w) (hm w)
    where
      go : (r : Result A × World) → R w.database r.1.database → R w.database (after r f).1.database
      go (err e, w1) h = h
      go (ok a, w1) h = join w.database w1.database (f a w1).1.database h (hf a w1)

  pub Follows-pure : {A : Type 0} (a : A) → Follows (pure a)
  unfolding Follows
  Follows-pure a w = same w.database

  pub Follows-transaction :
      {A : Type 0} (body : ℕ → ℕ → Database → Result (A × Database))
      → ((n now : ℕ) (db : Database) (a : A) (db' : Database)
          → body n now db ≡ ok (a, db')
          → R db db')
      → Follows (transaction env body)
  unfolding Follows
  Follows-transaction {A = A} body step w =
      go (body w.calls (env.clock w.calls) (env.others w.calls w.database)) refl
    where
      go :
          (r : Result (A × Database))
          → body w.calls (env.clock w.calls) (env.others w.calls w.database) ≡ r
          → R w.database (settle (met env w) r).1.database
      go (err e) q = apart w.calls w.database
      go (ok (a, db')) q =
          join w.database (env.others w.calls w.database) db' (apart w.calls w.database)
            (step w.calls (env.clock w.calls) (env.others w.calls w.database) a db' q)

  module _
      (clean : (c : PublicationCleanup) (b : Bool) (db db1 : Database)
        → finalize_publication_cleanup c db ≡ ok (b, db1)
        → R db db1)
      (prune : (cutoff : ℕ) (limit : ℤ) (counts : ℕ × ℕ) (db db1 : Database)
        → delete_completed_audit cutoff limit db ≡ ok (counts, db1)
        → R db db1)
      (settings : ReconcilerSettings) (hex : ℕ → String) (tie : Publication → Publication → Bool)
      (removal : ℕ → PublicationCleanup → Option String) where
    Follows-finalize_one :
        (c : PublicationCleanup) (counts : SweepCounts) (o : Option String)
        → Follows (finalize_one env settings hex tie removal c counts o)
    Follows-finalize_one c counts (some error) =
        Follows-pure (record counts { deferred = suc counts.deferred })
    Follows-finalize_one c counts none =
        Follows-and_then (transaction env (λ n now db. finalize_publication_cleanup c db))
          (λ absent. pure (count_removed absent counts))
          (Follows-transaction (λ n now db. finalize_publication_cleanup c db)
            (λ n now db b db1 e. clean c b db db1 e))
          (λ absent. Follows-pure (count_removed absent counts))

    Follows-finalize_all :
        (n : ℕ) (cs : List PublicationCleanup) (counts : SweepCounts)
        → Follows (finalize_all env settings hex tie removal n cs counts)
    unfolding finalize_all
    Follows-finalize_all n [] counts = Follows-pure counts
    Follows-finalize_all n (c ∷ cs) counts =
        Follows-and_then (finalize_one env settings hex tie removal c counts (removal n c))
          (λ counts'. finalize_all env settings hex tie removal n cs counts')
          (Follows-finalize_one c counts (removal n c))
          (λ counts'. Follows-finalize_all n cs counts')

    claim-same :
        {A : Type 0} (m : Result A) (db : Database) (a : A) (db' : Database)
        → ◌≡◌ {A = Result (A × Database)}
            (◌>>=◌ {B = A × Database} m (λ x. ok (x, db)))
            (ok (a, db'))
        → R db db'
    claim-same (err e) db a db' h = cc
    claim-same (ok x) db a db' h = let q : db ≡ db' = cc in rw (← q) (same db)

    Follows-claim : (current : ℕ) → Follows (claim_cleanups env settings hex tie removal current)
    unfolding claim_cleanups
    Follows-claim current =
        Follows-transaction {A = List PublicationCleanup}
          (λ n now db.
            claim_publication_cleanup tie hex current settings.cleanup_batch_size db >>= λ claims.
            ok (claims, db))
          (λ n now db a db' e.
            claim-same (claim_publication_cleanup tie hex current settings.cleanup_batch_size db) db
              a db' e)

    Follows-audit :
        (cutoff : ℕ)
        → Follows (
            transaction env
              (λ m now db. delete_completed_audit cutoff settings.cleanup_batch_size db))
    Follows-audit cutoff =
        Follows-transaction {A = ℕ × ℕ}
          (λ m now db. delete_completed_audit cutoff settings.cleanup_batch_size db)
          (λ n now db counts db1 e. prune cutoff settings.cleanup_batch_size counts db db1 e)

    Follows-claimed :
        (n current : ℕ) (claims : List PublicationCleanup)
        → Follows (sweep_claimed env settings hex tie removal n current claims)
    unfolding sweep_claimed
    Follows-claimed n current claims =
        let zeros : SweepCounts = record { reconciled = 0; deferred = 0 } in
        let cutoff = current - pos_part settings.audit_retention in
        let audit =
          transaction env
            (λ m now db. delete_completed_audit cutoff settings.cleanup_batch_size db) in
        let last = sweep_summary env settings hex tie removal (length claims) in
        Follows-and_then (finalize_all env settings hex tie removal n claims zeros)
          (λ c. and_then audit (λ deleted. pure (last c deleted)))
          (Follows-finalize_all n claims zeros)
          (λ c.
            Follows-and_then audit (λ deleted. pure (last c deleted)) (Follows-audit cutoff)
              (λ deleted. Follows-pure (last c deleted)))

    -- Whatever a sweep answers, its database follows the deletions that it commits.
    pub Follows-sweep : Follows (sweep env settings hex tie removal)
    unfolding sweep Follows
    Follows-sweep w =
        Follows-and_then (claim_cleanups env settings hex tie removal (env.clock w.calls))
          (sweep_claimed env settings hex tie removal w.calls (env.clock w.calls))
          (Follows-claim (env.clock w.calls)) (Follows-claimed w.calls (env.clock w.calls)) w
