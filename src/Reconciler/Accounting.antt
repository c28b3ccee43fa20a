-- ===== src/Reconciler/Accounting.antt =====
-- The counts of one bounded drain.
use lance_etl.Common.{
  String, ℕ, zero, suc, ◌+◌, ◌*◌, ◌≤◌, ◌≡◌, refl, Bool, true, false, List, [], ◌∷◌, Result, ok, err,
  arith, Bool-cases, inl, inr, length, ltb, pos_part,
}
use lance_etl.Types.{Bytes, WorkClaim}
use lance_etl.Types.Ids.{Uuids}
use lance_etl.Db.{Database}
use lance_etl.Settings.{ReconcilerSettings}
use lance_etl.Queue.Claim.Batch.{claim_due_work_batch}
use lance_etl.Reconciler.{World, Environment, settle, after, pure}
use lance_etl.Reconciler.Results.{ResultKind, DispatchSummary}
use lance_etl.Reconciler.Dispatch.{
  Counts, no_counts, count_kind, count_stale, Executed, settle_claim, process_claim, process_claims,
  claim_batch, after_claims, drain, run, execute_isolated, reconcile, summary_of, plus_claimed,
}

abbrev outcomes : Counts → ℕ
outcomes c = c.ingests + c.publishes + c.retried + c.blocked + c.diverged

-- Outcomes that `n` more claims have brought, of which those that did not diverge may be stale.
record Grows (n : ℕ) (c c' : Counts) : Type 0 where
  claimed : c'.claimed ≡ c.claimed
  outcomes : outcomes c' ≡ outcomes c + n
  stale : c'.stale + c'.diverged ≤ c.stale + c.diverged + n

counted :
    (kind : ResultKind) (accepted : Bool) (c : Counts)
    → Grows 1 c (count_stale accepted (count_kind kind c))
counted ResultKind.ingest_succeeded true c = ground arith
counted ResultKind.ingest_succeeded false c = ground arith
counted ResultKind.publish_succeeded true c = ground arith
counted ResultKind.publish_succeeded false c = ground arith
counted ResultKind.retry_later true c = ground arith
counted ResultKind.retry_later false c = ground arith
counted ResultKind.blocked true c = ground arith
counted ResultKind.blocked false c = ground arith

Grows-suc : (n : ℕ) (c c1 c2 : Counts) → Grows 1 c c1 → Grows n c1 c2 → Grows (suc n) c c2
Grows-suc n c c1 c2 g h = ground (arith, g, h)

-- Every claim has one outcome, and only those that did not diverge may be stale.
record IsBalanced (c : Counts) : Type 0 where
  claimed : c.claimed ≡ outcomes c
  stale : c.stale + c.diverged ≤ outcomes c

settle-eq-ok :
    {A : Type 0} (w : World) (r : Result (A × Database)) {a : A}
    → (settle w r).0 ≡ ok a
    → (db : Database) × (r ≡ ok (a, db))
settle-eq-ok w (err e) h = cc
settle-eq-ok w (ok (b, db)) h = (db, ground arith)

module _ (u : Uuids) (sha256 : String → Bytes) (env : Environment)
    (settings : ReconcilerSettings) where
  settle_claim-Grows :
      (claim : WorkClaim) (kind : ResultKind) (c : Counts) (r : Result Bool) (w : World)
      → Grows 1 c (settle_claim u sha256 env settings claim kind c (r, w)).0
  unfolding settle_claim
  settle_claim-Grows claim kind c (ok accepted) w = counted kind accepted c
  settle_claim-Grows claim kind c (err e) w = ground arith

  module _ (execute : ℕ → WorkClaim → Executed) where
    process_claims-Grows :
        (claims : List WorkClaim) (c : Counts) (w : World)
        → Grows (length claims) c (process_claims u sha256 env settings execute claims c w).0
    unfolding process_claims process_claim
    process_claims-Grows [] c w = ground arith
    process_claims-Grows (claim ∷ claims) c w =
        let result = execute_isolated claim (execute w.calls claim) in
        let r = reconcile u sha256 env settings result w in
        let first = settle_claim-Grows claim result.kind c r.0 r.1 in
        let one = process_claim u sha256 env settings execute claim c w in
        Grows-suc (length claims) c one.0 _ first (process_claims-Grows claims one.0 one.1)

    -- The work of one batch.
    batch-IsBalanced :
        (claim : WorkClaim) (claims : List WorkClaim) (c : Counts) (w : World)
        → IsBalanced c
        → IsBalanced
            (process_claims u sha256 env settings execute
              (claim ∷ claims)
              (plus_claimed u sha256 env settings execute (length (claim ∷ claims)) c)
              w).0
          × ((process_claims u sha256 env settings execute
                (claim ∷ claims)
                (plus_claimed u sha256 env settings execute (length (claim ∷ claims)) c)
                w).0.claimed
              ≡ c.claimed + length (claim ∷ claims))
    batch-IsBalanced claim claims c w b =
        let g =
          process_claims-Grows (claim ∷ claims)
            (plus_claimed u sha256 env settings execute (length (claim ∷ claims)) c) w in
        ground (arith, g, b)

    claims_bound :
        (w : World) (claims : List WorkClaim)
        → (claim_batch u sha256 env settings execute w).0 ≡ ok claims
        → length claims ≤ pos_part settings.claim_batch_size
    unfolding claim_batch
    claims_bound w claims e =
        let (db', done) = settle-eq-ok _ _ e in
        (claim_due_work_batch (env.token w.calls) (env.locked_work w.calls)
          (env.locked_dataset w.calls) settings.claim_batch_size settings.lease_duration _ _ done).0

    drain-IsBalanced :
        (n : ℕ) (c : Counts) (w : World) {c' : Counts}
        → IsBalanced c
        → (drain u sha256 env settings execute n c w).0 ≡ ok c'
        → IsBalanced c' × (c'.claimed ≤ c.claimed + n * pos_part settings.claim_batch_size)
    unfolding drain after_claims
    drain-IsBalanced zero c w {c'} b e = let q : c ≡ c' = cc in rw (← q) (b, omega arith)
    drain-IsBalanced (suc n) c w {c'} b e =
        of_batch (claim_batch u sha256 env settings execute w) (claims_bound w)
          (λ c1 w1 c2. drain-IsBalanced n c1 w1 {c' = c2}) e
      where
        of_batch :
            (r : Result (List WorkClaim) × World)
            → ((claims : List WorkClaim)
                → r.0 ≡ ok claims
                → length claims ≤ pos_part settings.claim_batch_size)
            → ((c1 : Counts) (w1 : World) (c2 : Counts)
                → IsBalanced c1
                → (drain u sha256 env settings execute n c1 w1).0 ≡ ok c2
                → IsBalanced c2
                  × (c2.claimed ≤ c1.claimed + n * pos_part settings.claim_batch_size))
            → (after r (
                after_claims u sha256 env settings execute
                  (drain u sha256 env settings execute n)
                  c)).0
              ≡ ok c'
            → IsBalanced c' × (c'.claimed ≤ c.claimed + suc n * pos_part settings.claim_batch_size)
        of_batch (err raised, w1) bound rest h = cc
        of_batch (ok [], w1) bound rest h = let q : c ≡ c' = cc in rw (← q) (b, omega arith)
        of_batch (ok (claim ∷ claims), w1) bound rest h =
            let (b1, q) = batch-IsBalanced claim claims c w1 b in
            let size = bound (claim ∷ claims) refl in
            let r =
              process_claims u sha256 env settings execute (claim ∷ claims)
                (plus_claimed u sha256 env settings execute (length (claim ∷ claims)) c) w1 in
            elim (Bool-cases (ltb (length (claim ∷ claims)) (pos_part settings.claim_batch_size))) [
              | inl t ↦ let h1 = rw t at h in let q1 : r.0 ≡ c' = cc in rw (← q1) (b1, omega arith)
              | inr t ↦
                  let h1 = rw t at h in
                  let (b2, bound2) = rest r.0 r.1 c' b1 h1 in (b2, omega arith)
            ]

    -- The counts of a drain that returns: each claim succeeded, is to be retried, or is blocked; at
    -- most that many were stale; and there were at most `max_drain_batches * claim_batch_size`.
    pub run_accounts :
        (w : World) {s : DispatchSummary}
        → (run u sha256 env settings execute w).0 ≡ ok s
        → (s.claimed ≡ s.succeeded + s.retried + s.blocked)
          × (s.stale ≤ s.claimed)
          × (s.claimed ≤ pos_part settings.max_drain_batches * pos_part settings.claim_batch_size)
    unfolding run
    run_accounts w {s} e =
        of_drain
          (drain u sha256 env settings execute (pos_part settings.max_drain_batches) no_counts w)
          (λ c h.
            drain-IsBalanced (pos_part settings.max_drain_batches) no_counts w {c' = c}
              (ground arith) h)
          e
      where
        of_drain :
            (r : Result Counts × World)
            → ((c : Counts)
                → r.0 ≡ ok c
                → IsBalanced c
                  × (c.claimed
                      ≤ 0
                        + pos_part settings.max_drain_batches * pos_part settings.claim_batch_size))
            → (after r (λ c. pure (summary_of u sha256 env settings execute c))).0 ≡ ok s
            → (s.claimed ≡ s.succeeded + s.retried + s.blocked)
              × (s.stale ≤ s.claimed)
              × (s.claimed
                  ≤ pos_part settings.max_drain_batches * pos_part settings.claim_batch_size)
        of_drain (err raised, w1) balanced h = cc
        of_drain (ok c, w1) balanced h =
            let (b, bound) = balanced c refl in
            let q : summary_of u sha256 env settings execute c ≡ s = cc in
            rw (← q) (ground (arith, b, bound))
