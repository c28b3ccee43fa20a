-- ===== src/Queue/Evolution/Claims.antt =====
-- The claim transaction keeps the relation `Progress`.
use lance_etl.Common.{
  ℕ, ◌+◌, ◌≡◌, refl, sym, ap, ◌∙◌, some, Bool, true, false, arith, List, [], ◌∷◌, ok,
  Evolves-update_rows, Evolves-update_known, All, All-map, All-zip, All-take, All-select_of,
  Keyed-IsCurrent, All-update_known, Keyed-update_rows, IsCurrent, find_row-IsCurrent, exists_row,
  nat_eq, ==→eq, ℤ,
}
use lance_etl.Types.{WorkClaim, WorkState}
use lance_etl.Db.{Work, Dataset, Database, find_dataset}
use lance_etl.Queue.Claim.{
  release_expired_leases, sweep_stale_work, is_stale, claim_due_work, fenced, same_waiting_row,
  lease_expired,
}
use lance_etl.Queue.Claim.Run.{ClaimRun, Claimed, no_rows, full, pass, take_row}
use lance_etl.Queue.Claim.Batch.{swept, claim_due_work-ClaimRun, All-order_rows}
use lance_etl.Queue.Evolution.{IsLeased, RowStep, RowStep-refl}
use lance_etl.Queue.Evolution.Steps.{released-RowStep, started-RowStep, started-work_id}
use lance_etl.Queue.Evolution.Progress.{
  Progress, Progress-refl, Progress-works, Progress-trans, DatasetStep, DatasetStep-refl, Anything,
  work_key, dataset_key, IsKeyed, snapshots_same, sources_same,
}

pub release_expired_leases-Progress :
    (now : ℕ) (db : Database) → IsKeyed db → Progress db (release_expired_leases now db)
unfolding release_expired_leases
release_expired_leases-Progress now db k =
    Progress-works db _ k
      (Evolves-update_rows RowStep IsLeased (lease_expired now) _ RowStep-refl
        (λ w h. released-RowStep WorkState.retry_wait now _ _ now w (ground arith) refl) db.works)
      (Keyed-update_rows work_key (lease_expired now) _ (λ w. refl) db.works k.works)

pub sweep_stale_work-Progress :
    (now : ℕ) (db : Database) → IsKeyed db → Progress db (sweep_stale_work now db)
unfolding sweep_stale_work
sweep_stale_work-Progress now db k =
    Progress-works db _ k
      (Evolves-update_rows RowStep IsLeased (is_stale db) _ RowStep-refl
        (λ w h.
          released-RowStep WorkState.blocked w.next_attempt_at _ _ now w
            (unfold is_stale in ground arith) refl)
        db.works)
      (Keyed-update_rows work_key (is_stale db) _ (λ w. refl) db.works k.works)

-- A row that is still to be visited, and whose dataset is free, is unchanged.
abbrev StillCurrent : List ℕ → List Work → Work → Type 0
StillCurrent claimed works w =
    exists_row (nat_eq w.dataset_id) claimed ≡ false → IsCurrent work_key w works

module _ {token now lease : ℕ} {w : Work} {d : Dataset} {db : Database} {c : WorkClaim}
    {db1 : Database} (what : Claimed token w d now lease db c db1) (k : IsKeyed db)
    (found : find_dataset w.dataset_id db ≡ some d) (current : IsCurrent work_key w db.works) where
  is_row :
      (x : Work) → (x.work_id ≡ w.work_id → x ≡ w) → same_waiting_row w.work_id x ≡ true → x ≡ w
  is_row x h e = h (ground arith)

  Claimed-Progress : Progress db db1
  unfolding find_dataset
  Claimed-Progress =
      let (id, only) = find_row-IsCurrent dataset_key w.dataset_id db.datasets d k.datasets found in
      record {
        works = rw what.works (
            Evolves-update_known RowStep IsLeased (λ x. x.work_id ≡ w.work_id → x ≡ w)
              (same_waiting_row w.work_id) _ RowStep-refl
              (λ x h e.
                rw (← is_row x h e) (started-RowStep token (now + lease) d now x (ground arith)))
              db.works current);
        datasets = rw what.datasets (
            Evolves-update_known DatasetStep Anything (λ x. x.dataset_id ≡ d.dataset_id → x ≡ d) _
              (fenced (d.fence_epoch + 1)) DatasetStep-refl
              (λ x h e.
                let q : x ≡ d = h (==→eq _ _ e ∙ sym id) in
                let q' : x.fence_epoch ≡ d.fence_epoch = ap (λ y. y.fence_epoch) q in
                record {
                  dataset_id = refl;
                  source_id = refl;
                  identity = refl;
                  fence = omega arith;
                })
              db.datasets only);
        snapshots = rw what.snapshots (snapshots_same db.snapshots);
        sources = rw what.sources (sources_same db.sources);
        keyed = record {
          works =
              rw what.works (
                Keyed-update_rows work_key _ _ (λ x. started-work_id _ _ _ _ _ x) db.works k.works);
          datasets =
              rw what.datasets
                (Keyed-update_rows dataset_key _ _ (λ x. refl) db.datasets k.datasets);
        };
      }

  Claimed-StillCurrent :
      (claimed : List ℕ) (v : Work)
      → exists_row (nat_eq w.dataset_id) claimed ≡ false
      → StillCurrent claimed db.works v
      → StillCurrent (w.dataset_id ∷ claimed) db1.works v
  Claimed-StillCurrent claimed v free h apart = rw what.works (
      All-update_known (λ x. (x.work_id ≡ v.work_id → x ≡ v) × (x.work_id ≡ w.work_id → x ≡ w))
        (λ x. x.work_id ≡ v.work_id → x ≡ v) (same_waiting_row w.work_id) _
        (λ x p e id.
          let q : x ≡ w = is_row x p.1 e in
          let q' : x ≡ v = p.0 (sym (started-work_id _ _ _ _ _ x) ∙ id) in
          let same : w.dataset_id ≡ v.dataset_id = ap (λ y. y.dataset_id) (sym q ∙ q') in
          absurd (ground arith))
        (λ x p e. p.0) db.works (All-zip _ _ db.works (h (ground arith)) current))

module _ {token : ℕ → ℕ} {locked_work locked_dataset : ℕ → Bool} {now lease : ℕ} where
  ClaimRun-Progress :
      {ws : List Work} {n : ℕ} {claimed : List ℕ} {db db' : Database} {claims : List WorkClaim}
      → ClaimRun token locked_work locked_dataset now lease ws n claimed db claims db'
      → IsKeyed db
      → All (StillCurrent claimed db.works) ws
      → Progress db db'
  ClaimRun-Progress (no_rows n claimed db) k h = Progress-refl db k
  ClaimRun-Progress (full w ws claimed db) k h = Progress-refl db k
  ClaimRun-Progress (pass r) k h = ClaimRun-Progress r k h.1
  ClaimRun-Progress (take_row {w} {ws} {n} {claimed} {db} {db1} {db'} d free found what r) k h =
      let current = h.0 free in
      let p = Claimed-Progress what k found current in
      Progress-trans db db1 db' p (
        ClaimRun-Progress r p.keyed (
          All-map (StillCurrent claimed db.works) (StillCurrent (w.dataset_id ∷ claimed) db1.works)
            (λ v s. Claimed-StillCurrent what k found current claimed v free s) ws h.1))

pub swept-Progress : (now : ℕ) (db : Database) → IsKeyed db → Progress db (swept now db)
unfolding swept
swept-Progress now db k =
    let p = release_expired_leases-Progress now db k in
    Progress-trans db (release_expired_leases now db) _ p
      (sweep_stale_work-Progress now (release_expired_leases now db) p.keyed)

pub claim_due_work-Progress :
    (token : ℕ → ℕ) (locked_work locked_dataset : ℕ → Bool) (limit lease : ℤ) (now : ℕ)
    (db : Database) {claims : List WorkClaim} {db' : Database}
    → IsKeyed db
    → claim_due_work token locked_work locked_dataset limit lease now db ≡ ok (claims, db')
    → Progress db db'
claim_due_work-Progress token locked_work locked_dataset limit lease now db {claims} {db'} k e =
    let p = swept-Progress now db k in
    let rows = (swept now db).works in
    let all : All (StillCurrent [] rows) rows =
      All-map (λ w. IsCurrent work_key w rows) (StillCurrent [] rows) (λ w c _. c) rows
        (Keyed-IsCurrent work_key rows p.keyed.works) in
    Progress-trans db (swept now db) db' p (
      ClaimRun-Progress
        (claim_due_work-ClaimRun token locked_work locked_dataset limit lease now db e) p.keyed
        (All-take (StillCurrent [] rows) _ _ (
          All-order_rows (StillCurrent [] rows) _
            (All-select_of (StillCurrent [] rows) _ rows all))))
