-- ===== src/Reconciler/Health.antt =====
-- reconciler/service.py: when the control plane is healthy.
use lance_etl.Common.{
  ℕ, String, ◌≤◌, ◌≡◌, ◌↔◌, ◌⊎◌, inl, inr, refl, Bool, true, false, ◌&&◌, ◌++◌, arith, ltb,
  pos_part,
}
use lance_etl.Retention.{ControlPlaneStatus}
use lance_etl.Settings.{ReconcilerSettings}
use lance_etl.Reconciler.Application.{
  evaluate_slo, age_seconds, not_complete, reason_if, no_reasons,
}

-- Nothing is blocked, and the queue, its oldest work and the retention floor are within budget; the
-- floor's age does not count if its snapshot is complete.
pub record IsWithinBudget (status : ControlPlaneStatus) (settings : ReconcilerSettings) (now : ℕ)
    : Type 0 where
  pub blocked : status.blocked_work ≡ 0
  pub gated : status.blocked_source_snapshots ≡ 0
  pub due : status.due_work ≤ pos_part settings.max_due_work
  pub oldest : age_seconds status.oldest_open_work_at now ≤ pos_part settings.max_open_work_age
  pub retained :
      (not_complete status.retention_state ≡ false)
      ⊎ (age_seconds status.retention_created_at now ≤ pos_part settings.max_retention_age)

reasons_empty :
    (a b c d e : Bool) (s1 s2 s3 s4 s5 : String)
    → no_reasons (
        reason_if a s1
        ++ (reason_if b s2 ++ (reason_if c s3 ++ (reason_if d s4 ++ reason_if e s5))))
      ≡ true
    → (a ≡ false) × (b ≡ false) × (c ≡ false) × (d ≡ false) × (e ≡ false)
reasons_empty true b c d e s1 s2 s3 s4 s5 h = cc
reasons_empty false true c d e s1 s2 s3 s4 s5 h = cc
reasons_empty false false true d e s1 s2 s3 s4 s5 h = cc
reasons_empty false false false true e s1 s2 s3 s4 s5 h = cc
reasons_empty false false false false true s1 s2 s3 s4 s5 h = cc
reasons_empty false false false false false s1 s2 s3 s4 s5 h = (refl, refl, refl, refl, refl)

and_false : (a b : Bool) → (a && b) ≡ false → (a ≡ false) ⊎ (b ≡ false)
and_false true b h = inr h
and_false false b h = inl refl

kept : (b : Bool) (age limit : ℕ) → (b ≡ false) ⊎ (age ≤ limit) → (b && ltb limit age) ≡ false
kept false age limit h = refl
kept true age limit (inl h) = cc
kept true age limit (inr h) = ground arith

-- A status is reported healthy exactly if it is within budget.
pub evaluate_slo_healthy :
    (status : ControlPlaneStatus) (settings : ReconcilerSettings) (now : ℕ)
    → ((evaluate_slo status settings now).healthy ≡ true) ↔ IsWithinBudget status settings now
unfolding evaluate_slo
evaluate_slo_healthy status settings now =
    ((λ h. within (reasons_empty _ _ _ _ _ _ _ _ _ _ h)), (λ b. healthy_by b))
  where
    within :
        (ltb 0 status.blocked_work ≡ false)
          × (ltb 0 status.blocked_source_snapshots ≡ false)
          × (ltb (pos_part settings.max_due_work) status.due_work ≡ false)
          × (ltb (pos_part settings.max_open_work_age) (age_seconds status.oldest_open_work_at now)
              ≡ false)
          × ((not_complete status.retention_state
                && ltb
                    (pos_part settings.max_retention_age)
                    (age_seconds status.retention_created_at now))
              ≡ false)
        → IsWithinBudget status settings now
    within h =
        let (h1, h2, h3, h4, h5) = h in
        record {
          blocked = ground (arith, h1);
          gated = ground (arith, h2);
          due = ground (arith, h3);
          oldest = ground (arith, h4);
          retained = elim (and_false _ _ h5) [
            | inl complete ↦ inl complete
            | inr young ↦ inr (ground (arith, young))
          ];
        }

    healthy_by :
        IsWithinBudget status settings now → (evaluate_slo status settings now).healthy ≡ true
    healthy_by b =
        let b1 = b.blocked in
        let b2 = b.gated in
        let b3 = b.due in
        let b4 = b.oldest in
        let h1 : ltb 0 status.blocked_work ≡ false = ground (arith, b1) in
        let h2 : ltb 0 status.blocked_source_snapshots ≡ false = ground (arith, b2) in
        let h3 : ltb (pos_part settings.max_due_work) status.due_work ≡ false =
          ground (arith, b3) in
        let h4 : ltb (pos_part settings.max_open_work_age)
              (age_seconds status.oldest_open_work_at now)
            ≡ false =
          ground (arith, b4) in
        let h5 : (not_complete status.retention_state
              && ltb (pos_part settings.max_retention_age)
                  (age_seconds status.retention_created_at now))
            ≡ false =
          kept _ _ _ b.retained in
        rw (h1, h2, h3, h4, h5) refl
