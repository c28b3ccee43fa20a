-- ===== src/Queue/Claim/Run.antt =====
-- The loop of `claim_due_work` as a derivation: which rows are passed over, which are claimed.
use lance_etl.Common.{
  ℕ, zero, suc, ◌+◌, ◌≡◌, refl, Option, none, some, Bool, true, false, List, [], ◌∷◌, arith, ok,
  >>=-eq-ok, exists_row, update_rows, nat_eq, Bool-cases, inl, inr, ◌==◌,
}
use lance_etl.Types.{WorkClaim, is_waiting}
use lance_etl.Db.{Work, Dataset, Database, find_dataset, store_works}
use lance_etl.Queue.Claim.{
  claim_locked_row, claim_joined, claim_row, claim_rows, after_row, fenced, started,
  same_waiting_row,
}

-- What the claim of the row `w` did.
pub record Claimed (token : ℕ) (w : Work) (d : Dataset) (now lease : ℕ) (db : Database)
    (c : WorkClaim) (db' : Database) : Type 0 where
  pub waiting : is_waiting w.state ≡ true
  pub work_id : c.work_id ≡ w.work_id
  pub dataset_id : c.dataset_id ≡ w.dataset_id
  pub lease_token : c.lease_token ≡ token
  pub fence : c.fence_epoch ≡ d.fence_epoch + 1
  pub attempts : c.attempt_count ≡ w.attempt_count + 1
  pub datasets :
      db'.datasets
      ≡ update_rows (λ x. x.dataset_id == w.dataset_id) (fenced (d.fence_epoch + 1)) db.datasets
  pub works :
      db'.works
      ≡ update_rows
          (same_waiting_row w.work_id)
          (started token (now + lease) (w.attempt_count + 1) d now)
          db.works
  pub snapshots : db'.snapshots ≡ db.snapshots
  pub sources : db'.sources ≡ db.sources

module _ (t : ℕ) (w : Work) (d : Dataset) (now lease : ℕ) (db : Database) where
  pub claim_locked_row-Claimed :
      {c : WorkClaim} {db' : Database}
      → claim_locked_row t w d now lease db ≡ ok (some c, db')
      → Claimed t w d now lease db c db'
  unfolding claim_locked_row store_works
  claim_locked_row-Claimed e = ground arith

  claim_locked_row-none :
      {db' : Database} → claim_locked_row t w d now lease db ≡ ok (none, db') → db' ≡ db
  unfolding claim_locked_row
  claim_locked_row-none e = ground arith

module _ (token : ℕ → ℕ) (locked_work locked_dataset : ℕ → Bool) (now lease : ℕ) where
  -- The rows left, the claims left, the datasets claimed, and the state before and after.
  pub data ClaimRun : List Work → ℕ → List ℕ → Database → List WorkClaim → Database → Type 0 where
    no_rows : (n : ℕ) (claimed : List ℕ) (db : Database) → ClaimRun [] n claimed db [] db
    full :
        (w : Work) (ws : List Work) (claimed : List ℕ) (db : Database)
        → ClaimRun (w ∷ ws) zero claimed db [] db
    pass :
        {w : Work} {ws : List Work} {n : ℕ} {claimed : List ℕ} {db db' : Database}
        {claims : List WorkClaim}
        → ClaimRun ws (suc n) claimed db claims db'
        → ClaimRun (w ∷ ws) (suc n) claimed db claims db'
    take_row :
        {w : Work} {ws : List Work} {n : ℕ} {claimed : List ℕ} {db db1 db' : Database}
        {c : WorkClaim} {claims : List WorkClaim} (d : Dataset)
        → exists_row (nat_eq w.dataset_id) claimed ≡ false
        → find_dataset w.dataset_id db ≡ some d
        → Claimed (token (suc n)) w d now lease db c db1
        → ClaimRun ws n (w.dataset_id ∷ claimed) db1 claims db'
        → ClaimRun (w ∷ ws) (suc n) claimed db (c ∷ claims) db'

  -- The outcomes of one row.
  claim_joined-none :
      (n : ℕ) (w : Work) (od : Option Dataset) (db : Database) {db' : Database}
      → claim_joined token locked_work locked_dataset n w od now lease db ≡ ok (none, db')
      → db' ≡ db
  claim_joined-none n w none db e = ground arith
  claim_joined-none n w (some d) db {db'} e =
      ground (arith, claim_locked_row-none (token n) w d now lease db {db' = db'})

  claim_row-none :
      (n : ℕ) (w : Work) (claimed : List ℕ) (db : Database) {db' : Database}
      → claim_row token locked_work locked_dataset n w claimed now lease db ≡ ok (none, db')
      → db' ≡ db
  unfolding claim_row
  claim_row-none n w claimed db {db'} e =
      ground (arith, claim_joined-none n w (find_dataset w.dataset_id db) db {db' = db'})

  claim_joined-some :
      (n : ℕ) (w : Work) (od : Option Dataset) (db : Database) {c : WorkClaim} {db' : Database}
      → claim_joined token locked_work locked_dataset n w od now lease db ≡ ok (some c, db')
      → (d : Dataset) × (od ≡ some d) × Claimed (token n) w d now lease db c db'
  claim_joined-some n w none db e = cc
  claim_joined-some n w (some d) db e = elim (Bool-cases (locked_dataset d.dataset_id)) [
    | inl t ↦ let q = rw t at e in cc
    | inr t ↦ (d, refl, claim_locked_row-Claimed (token n) w d now lease db (rw t at e))
  ]

  claim_row-some :
      (n : ℕ) (w : Work) (claimed : List ℕ) (db : Database) {c : WorkClaim} {db' : Database}
      → claim_row token locked_work locked_dataset n w claimed now lease db ≡ ok (some c, db')
      → (exists_row (nat_eq w.dataset_id) claimed ≡ false)
        × ((d : Dataset) × (find_dataset w.dataset_id db ≡ some d)
            × Claimed (token n) w d now lease db c db')
  unfolding claim_row
  claim_row-some n w claimed db e = elim (Bool-cases (exists_row (nat_eq w.dataset_id) claimed)) [
    | inl t ↦ let q = rw t at e in cc
    | inr t ↦ (t, claim_joined-some n w (find_dataset w.dataset_id db) db (rw t at e))
  ]

  after_row-ClaimRun :
      (ws : List Work) (n : ℕ) (claimed : List ℕ) (w : Work) (db : Database) (o : Option WorkClaim)
      (db1 : Database) {claims : List WorkClaim} {db' : Database}
      → ((m : ℕ) (cs : List ℕ) (x : Database) (ys : List WorkClaim) (y : Database)
          → claim_rows token locked_work locked_dataset ws m cs now lease x ≡ ok (ys, y)
          → ClaimRun ws m cs x ys y)
      → claim_row token locked_work locked_dataset (suc n) w claimed now lease db ≡ ok (o, db1)
      → after_row
          (λ m cs x. claim_rows token locked_work locked_dataset ws m cs now lease x)
          n
          w
          claimed
          (o, db1)
        ≡ ok (claims, db')
      → ClaimRun (w ∷ ws) (suc n) claimed db claims db'
  unfolding after_row
  after_row-ClaimRun ws n claimed w db none db1 {claims} {db'} rec q k =
      pass (rec (suc n) claimed db claims db' (rw (claim_row-none (suc n) w claimed db q) at k))
  after_row-ClaimRun ws n claimed w db (some c) db1 {claims} {db'} rec q k =
      let ((cs, x), run, same) =
        >>=-eq-ok
          (claim_rows token locked_work locked_dataset ws n (w.dataset_id ∷ claimed) now lease db1)
          (λ r. ok (c ∷ r.0, r.1)) k in
      let (free, (d, found, what)) = claim_row-some (suc n) w claimed db q in
      let p : claims ≡ c ∷ cs = cc in
      let p' : db' ≡ x = cc in
      rw (p, p') (take_row d free found what (rec n (w.dataset_id ∷ claimed) db1 cs x run))

  pub claim_rows-ClaimRun :
      (ws : List Work) (n : ℕ) (claimed : List ℕ) (db : Database) (claims : List WorkClaim)
      (db' : Database)
      → claim_rows token locked_work locked_dataset ws n claimed now lease db ≡ ok (claims, db')
      → ClaimRun ws n claimed db claims db'
  unfolding claim_rows
  claim_rows-ClaimRun [] n claimed db claims db' e =
      let p : claims ≡ [] = cc in let q : db' ≡ db = cc in rw (p, q) (no_rows n claimed db)
  claim_rows-ClaimRun (w ∷ ws) zero claimed db claims db' e =
      let p : claims ≡ [] = cc in let q : db' ≡ db = cc in rw (p, q) (full w ws claimed db)
  claim_rows-ClaimRun (w ∷ ws) (suc n) claimed db claims db' e =
      let ((o, db1), q, k) =
        >>=-eq-ok (claim_row token locked_work locked_dataset (suc n) w claimed now lease db)
          (after_row (λ m cs x. claim_rows token locked_work locked_dataset ws m cs now lease x) n w
            claimed)
          e in
      after_row-ClaimRun ws n claimed w db o db1 (claim_rows-ClaimRun ws) q k
