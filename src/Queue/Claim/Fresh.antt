-- ===== src/Queue/Claim/Fresh.antt =====
-- Every claim of a batch holds the next fence epoch of its dataset.
use lance_etl.Common.{
  ℕ, ◌+◌, ◌≡◌, refl, sym, ap, ◌∙◌, some, Bool, true, false, List, [], ◌∷◌, arith, ok, All, All-map,
  exists_row, find_row, find_row-update_rows, update_rows, nat_eq, ◌==◌, ==_refl, ==→eq, Bool-cases,
  inl, inr, ℤ,
}
use lance_etl.Types.{WorkClaim}
use lance_etl.Db.{Work, Dataset, Database, find_dataset}
use lance_etl.Queue.Claim.{claim_due_work, fenced, release_expired_leases, sweep_stale_work}
use lance_etl.Queue.Claim.Run.{ClaimRun, no_rows, full, pass, take_row}
use lance_etl.Queue.Claim.Batch.{swept, claim_due_work-ClaimRun}

-- The claim's dataset before and after: the epoch has moved on by one, to that of the claim.
pub record IsFresh (db db' : Database) (c : WorkClaim) : Type 0 where
  pub before : Dataset
  pub after : Dataset
  pub found_before : find_dataset c.dataset_id db ≡ some before
  pub found_after : find_dataset c.dataset_id db' ≡ some after
  pub next : c.fence_epoch ≡ before.fence_epoch + 1
  pub current : after.fence_epoch ≡ c.fence_epoch

find_row-other :
    (j k epoch : ℕ) (xs : List Dataset)
    → (k == j) ≡ false
    → find_row
        (λ (x : Dataset). x.dataset_id == k)
        (update_rows (λ (x : Dataset). x.dataset_id == j) (fenced epoch) xs)
      ≡ find_row (λ (x : Dataset). x.dataset_id == k) xs
find_row-other j k epoch [] h = refl
find_row-other j k epoch (x ∷ xs) h = elim (Bool-cases (x.dataset_id == j)) [
  | inl t ↦
      let miss : (x.dataset_id == k) ≡ false = ground (arith, t) in
      rw (t, miss) (find_row-other j k epoch xs h)
  | inr t ↦ let rest = find_row-other j k epoch xs h in rw t (ground (arith, rest))
]

module _ {token : ℕ → ℕ} {locked_work locked_dataset : ℕ → Bool} {now lease : ℕ} where
  -- A dataset that has been claimed is not touched again.
  kept :
      {ws : List Work} {n : ℕ} {claimed : List ℕ} {db db' : Database} {claims : List WorkClaim}
      → ClaimRun token locked_work locked_dataset now lease ws n claimed db claims db'
      → (k : ℕ) → exists_row (nat_eq k) claimed ≡ true
      → find_dataset k db' ≡ find_dataset k db
  unfolding find_dataset
  kept (no_rows n claimed db) k h = refl
  kept (full w ws claimed db) k h = refl
  kept (pass r) k h = kept r k h
  kept (take_row {w} {claimed = claimed} {db} {db1} d free found what r) k h =
      let apart : (k == w.dataset_id) ≡ false = elim (Bool-cases (k == w.dataset_id)) [
        | inr t ↦ t
        | inl t ↦ let q = ==→eq k w.dataset_id t in absurd (ground (arith, free, h, q))
      ] in
      kept r k (ground arith)
      ∙ ap (λ xs. find_row (λ (x : Dataset). x.dataset_id == k) xs) what.datasets
      ∙ find_row-other w.dataset_id k (d.fence_epoch + 1) db.datasets apart

  ClaimRun-IsFresh :
      {ws : List Work} {n : ℕ} {claimed : List ℕ} {db db' : Database} {claims : List WorkClaim}
      → ClaimRun token locked_work locked_dataset now lease ws n claimed db claims db'
      → All (λ c. (exists_row (nat_eq c.dataset_id) claimed ≡ false) × IsFresh db db' c) claims
  unfolding find_dataset
  ClaimRun-IsFresh (no_rows n claimed db) = tt
  ClaimRun-IsFresh (full w ws claimed db) = tt
  ClaimRun-IsFresh (pass r) = ClaimRun-IsFresh r
  ClaimRun-IsFresh
        (take_row {w} {claimed = claimed} {db} {db1} {db'} {c} {claims} d free found what r) =
      let id = what.dataset_id in
      let self = ==_refl w.dataset_id in
      let after =
        find_row-update_rows (λ (x : Dataset). x.dataset_id) w.dataset_id
          (fenced (d.fence_epoch + 1)) db.datasets (λ x. refl) found in
      (
        (
          rw id free,
          record {
            before = d;
            after = fenced (d.fence_epoch + 1) d;
            found_before = rw id found;
            found_after = rw id (
                kept r w.dataset_id (ground arith)
                ∙ ap (λ xs. find_row (λ (x : Dataset). x.dataset_id == w.dataset_id) xs)
                    what.datasets
                ∙ after);
            next = what.fence;
            current = sym what.fence;
          },
        ),
        All-map _ _ (λ v p. (ground arith, earlier v p)) claims (ClaimRun-IsFresh r),
      )
    where
      earlier :
          (v : WorkClaim)
          → (exists_row (nat_eq v.dataset_id) (w.dataset_id ∷ claimed) ≡ false) × IsFresh db1 db' v
          → IsFresh db db' v
      earlier v p =
          let apart : (v.dataset_id == w.dataset_id) ≡ false = ground arith in
          record {
            before = p.1.before;
            after = p.1.after;
            found_before =
                sym (find_row-other w.dataset_id v.dataset_id (d.fence_epoch + 1) db.datasets apart)
                ∙ ap (λ xs. find_row (λ (x : Dataset). x.dataset_id == v.dataset_id) xs)
                    (sym what.datasets)
                ∙ p.1.found_before;
            found_after = p.1.found_after;
            next = p.1.next;
            current = p.1.current;
          }

-- Each claim of a batch carries the fence epoch that its dataset has when the batch returns, which
-- is one above the epoch it had before: all earlier claims on the dataset are superseded.
pub claim_due_work-IsFresh :
    (token : ℕ → ℕ) (locked_work locked_dataset : ℕ → Bool) (limit lease : ℤ) (now : ℕ)
    (db : Database) {claims : List WorkClaim} {db' : Database}
    → claim_due_work token locked_work locked_dataset limit lease now db ≡ ok (claims, db')
    → All (IsFresh db db') claims
unfolding swept release_expired_leases sweep_stale_work find_dataset
claim_due_work-IsFresh token locked_work locked_dataset limit lease now db {claims} {db'} e =
    All-map _ (IsFresh db db')
      (λ c p. record {
        before = p.1.before;
        after = p.1.after;
        found_before = p.1.found_before;
        found_after = p.1.found_after;
        next = p.1.next;
        current = p.1.current;
      })
      claims
      (ClaimRun-IsFresh
        (claim_due_work-ClaimRun token locked_work locked_dataset limit lease now db e))
