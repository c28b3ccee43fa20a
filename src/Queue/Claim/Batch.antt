-- ===== src/Queue/Claim/Batch.antt =====
-- What a claimed batch is: its size, its datasets, and why each row of it could be claimed.
use lance_etl.Common.{
  ℕ, ◌*◌, ◌≤◌, ◌≡◌, ◌≢◌, refl, ◌∙◌, Option, none, some, Bool, true, false, ◌&&◌, ◌||◌, not, List,
  [], ◌∷◌, arith, ok, raise_if-eq-ok, exists_row, select, take, nat_eq, Bool-cases, inl, inr, All,
  All-map, All-take, All-select, Keyed, length, ℤ, pos_part,
}
use lance_etl.Types.{WorkClaim, is_ingest, is_waiting, is_succeeded, is_active}
use lance_etl.Db.{Work, Dataset, Database, find_dataset}
use lance_etl.Queue.{
  is_due, source_gated, source_snapshot_allows_work, lane_order, gates_lane, precedes,
  expected_state, frozen_expectations_match_dataset,
}
use lance_etl.Queue.Claim.{
  release_expired_leases, sweep_stale_work, is_claimable, claimable_in, comes_before,
  insert_ordered, order_rows, claim_due_work,
}
use lance_etl.Queue.Claim.Run.{ClaimRun, no_rows, full, pass, take_row, claim_rows-ClaimRun}

All-insert_ordered :
    (P : Work → Type 0) (w : Work) (ws : List Work) → P w → All P ws → All P (insert_ordered w ws)
unfolding insert_ordered
All-insert_ordered P w [] p h = (p, tt)
All-insert_ordered P w (v ∷ vs) p h = elim (Bool-cases (comes_before w v)) [
  | inl e ↦ rw e (p, h)
  | inr e ↦ rw e (h.0, All-insert_ordered P w vs p h.1)
]

pub All-order_rows : (P : Work → Type 0) (ws : List Work) → All P ws → All P (order_rows ws)
unfolding order_rows
All-order_rows P [] h = tt
All-order_rows P (w ∷ ws) h = All-insert_ordered P w (order_rows ws) h.0 (All-order_rows P ws h.1)

module _ {token : ℕ → ℕ} {locked_work locked_dataset : ℕ → Bool} {now lease : ℕ} where
  length-ClaimRun :
      {ws : List Work} {n : ℕ} {claimed : List ℕ} {db db' : Database} {claims : List WorkClaim}
      → ClaimRun token locked_work locked_dataset now lease ws n claimed db claims db'
      → length claims ≤ n
  length-ClaimRun (no_rows n claimed db) = omega arith
  length-ClaimRun (full w ws claimed db) = omega arith
  length-ClaimRun (pass r) = length-ClaimRun r
  length-ClaimRun (take_row d free found what r) = omega (arith, length-ClaimRun r)

-- A claim on none of the datasets claimed so far, and on another dataset than `k`.
free_cons :
    (k : ℕ) (claimed : List ℕ) (c : WorkClaim)
    → exists_row (nat_eq c.dataset_id) (k ∷ claimed) ≡ false
    → (exists_row (nat_eq c.dataset_id) claimed ≡ false) × (c.dataset_id ≢ k)
free_cons k claimed c h = (ground arith, λ e. ground arith)

abbrev pub dataset_of : WorkClaim → ℕ
dataset_of c = c.dataset_id

abbrev Free : List ℕ → WorkClaim → Type 0
Free claimed c = exists_row (nat_eq c.dataset_id) claimed ≡ false

module _ {token : ℕ → ℕ} {locked_work locked_dataset : ℕ → Bool} {now lease : ℕ} where
  disjoint-ClaimRun :
      {ws : List Work} {n : ℕ} {claimed : List ℕ} {db db' : Database} {claims : List WorkClaim}
      → ClaimRun token locked_work locked_dataset now lease ws n claimed db claims db'
      → All (Free claimed) claims × Keyed dataset_of claims
  disjoint-ClaimRun (no_rows n claimed db) = (tt, tt)
  disjoint-ClaimRun (full w ws claimed db) = (tt, tt)
  disjoint-ClaimRun (pass r) = disjoint-ClaimRun r
  disjoint-ClaimRun
        (take_row {w} {ws} {n} {claimed} {db} {db1} {db'} {c} {claims} d free found what r) =
      let (apart, keyed) = disjoint-ClaimRun r in
      (
        (
          rw what.dataset_id free,
          All-map (Free (w.dataset_id ∷ claimed)) (Free claimed)
              (λ x h. (free_cons w.dataset_id claimed x h).0) claims apart,
        ),
        (
          All-map (Free (w.dataset_id ∷ claimed)) (λ x. x.dataset_id ≢ c.dataset_id)
              (λ x h e. (free_cons w.dataset_id claimed x h).1 (e ∙ what.dataset_id)) claims apart,
          keyed,
        ),
      )

  rows-ClaimRun :
      (P : Work → Type 0) {ws : List Work} {n : ℕ} {claimed : List ℕ} {db db' : Database}
      {claims : List WorkClaim}
      → ClaimRun token locked_work locked_dataset now lease ws n claimed db claims db'
      → All P ws
      → All (λ c. (w : Work) × (c.work_id ≡ w.work_id) × (c.dataset_id ≡ w.dataset_id) × P w) claims
  rows-ClaimRun P (no_rows n claimed db) h = tt
  rows-ClaimRun P (full w ws claimed db) h = tt
  rows-ClaimRun P (pass r) h = rows-ClaimRun P r h.1
  rows-ClaimRun P (take_row {w} d free found what r) h =
      ((w, what.work_id, what.dataset_id, h.0), rows-ClaimRun P r h.1)

-- Why the row `w` could be claimed: it waits and is due, its dataset is active, an INGEST has an
-- open source, other work is frozen on the dataset as it is, and no unfinished INGEST of the lane,
-- nor other unfinished work frozen on the dataset as it is, comes before it.
pub record IsReady (db : Database) (now : ℕ) (w : Work) : Type 0 where
  pub dataset : Dataset
  pub found : find_dataset w.dataset_id db ≡ some dataset
  pub waiting : is_waiting w.state ≡ true
  pub due : w.next_attempt_at ≤ now
  pub active : is_active dataset.lifecycle_state ≡ true
  pub open_source : is_ingest w.kind ≡ true → source_gated db w.source_id ≡ false
  pub current_frozen : is_ingest w.kind ≡ false → frozen_expectations_match_dataset w dataset ≡ true
  pub in_order :
      All
        (λ e.
          e.dataset_id ≡ w.dataset_id
          → e.work_id ≢ w.work_id
          → is_succeeded e.state ≡ false
          → (is_ingest e.kind || frozen_expectations_match_dataset e dataset) ≡ true
          → precedes e w ≡ false)
        db.works

not-exists-All :
    (P : Work → Type 0) (p : Work → Bool) (ws : List Work)
    → ((x : Work) → p x ≡ false → P x)
    → exists_row p ws ≡ false
    → All P ws
not-exists-All P p [] f h = tt
not-exists-All P p (w ∷ ws) f h = (f w (ground arith), not-exists-All P p ws f (ground arith))

claimable_in-IsReady :
    (db : Database) (now : ℕ) (w : Work) (od : Option Dataset)
    → find_dataset w.dataset_id db ≡ od
    → claimable_in db now w od ≡ true
    → IsReady db now w
unfolding is_due source_snapshot_allows_work lane_order expected_state
claimable_in-IsReady db now w none f h = cc
claimable_in-IsReady db now w (some d) f h = record {
  dataset = d;
  found = f;
  waiting = ground arith;
  due = ground arith;
  active = ground arith;
  open_source = ground arith;
  current_frozen = ground arith;
  in_order =
      not-exists-All _ (gates_lane d w) db.works
        (unfold gates_lane in λ e g same other unfinished reach. ground arith) (ground arith);
}

is_claimable-IsReady :
    (db : Database) (now : ℕ) (w : Work) → is_claimable db now w ≡ true → IsReady db now w
unfolding is_claimable
is_claimable-IsReady db now w h =
    claimable_in-IsReady db now w (find_dataset w.dataset_id db) refl h

-- The state in which the claim query reads: leases released, stale work swept.
unfoldable pub swept : ℕ → Database → Database
swept now db = sweep_stale_work now (release_expired_leases now db)

module _ (token : ℕ → ℕ) (locked_work locked_dataset : ℕ → Bool) where
  pub claim_due_work-ClaimRun :
      (limit lease : ℤ) (now : ℕ) (db : Database) {claims : List WorkClaim} {db' : Database}
      → claim_due_work token locked_work locked_dataset limit lease now db ≡ ok (claims, db')
      → let due =
          select
            (λ w. is_claimable (swept now db) now w && not (locked_work w.work_id))
            (swept now db).works in
        ClaimRun token locked_work locked_dataset now
          (pos_part lease)
          (take (pos_part limit * 4) (order_rows due))
          (pos_part limit)
          []
          (swept now db)
          claims
          db'
  unfolding claim_due_work swept
  claim_due_work-ClaimRun limit lease now db {claims} {db'} e =
      claim_rows-ClaimRun token locked_work locked_dataset now (pos_part lease) _ (pos_part limit)
        [] (sweep_stale_work now (release_expired_leases now db)) claims db'
        (raise_if-eq-ok _ _ _ e).1

  pub claim_due_work_batch :
      (limit lease : ℤ) (now : ℕ) (db : Database) {claims : List WorkClaim} {db' : Database}
      → claim_due_work token locked_work locked_dataset limit lease now db ≡ ok (claims, db')
      → (length claims ≤ pos_part limit)
        × Keyed dataset_of claims
        × All
            (λ c.
              (w : Work) × (c.work_id ≡ w.work_id)
              × (c.dataset_id ≡ w.dataset_id)
              × IsReady (swept now db) now w)
            claims
  claim_due_work_batch limit lease now db e =
      let run = claim_due_work-ClaimRun limit lease now db e in
      (
        length-ClaimRun run,
        (disjoint-ClaimRun run).1,
        rows-ClaimRun (IsReady (swept now db) now) run (
            All-take (IsReady (swept now db) now) _ _ (
              All-order_rows (IsReady (swept now db) now) _ (
                All-select (IsReady (swept now db) now) _
                  (λ w h. is_claimable-IsReady (swept now db) now w (ground arith))
                  (swept now db).works))),
      )
