-- ===== src/Queue/Claim.antt =====
-- state/repository.py: the claim transaction. `skip_locked` passes over rows that another
-- transaction holds: which ones is given by `locked_work` and `locked_dataset`. `uuid.uuid4` is
-- given by `token`, at the number of claims that the batch has left.
pub mod Run
pub mod Batch
pub mod Fresh
use lance_etl.Common.{
  ℕ, zero, suc, ◌+◌, ◌*◌, String, Bool, true, false, ◌&&◌, ◌||◌, not, Option, none, some, List, [],
  ◌∷◌, Result, ok, err, value_error, state_transition, raise_if, ◌>>=◌, ◌>>◌, ◌==◌, ltb, nat_eq,
  take, select, update_rows, count_rows, exists_row, if◌then◌else◌, ℤ, is_nonpositive, pos_part,
}
use lance_etl.Types.{WorkState, WorkKind, WorkClaim, is_ingest, is_running, is_waiting, is_active}
use lance_etl.Db.{Work, Dataset, Database, find_dataset, store_works}
use lance_etl.Queue.{
  is_due, source_snapshot_allows_work, lane_order, expected_state, frozen_expectations,
  frozen_expectations_match_dataset, kind_rank, expired_at,
}
use lance_etl.Queue.Lease.{
  released, blocked_by, bounded_error, error_code_limit, error_message_limit,
}

abbrev pub lease_expired : ℕ → Work → Bool
lease_expired current w = is_running w.state && expired_at w.lease_expires_at current

unfoldable pub release_expired_leases : ℕ → Database → Database
release_expired_leases current db = record db {
  works =
      update_rows (lease_expired current)
        (released WorkState.retry_wait current (some "LEASE_EXPIRED")
          (some "previous worker lease expired") current)
        db.works;
}

abbrev pub stale_for : Work → Option Dataset → Bool
stale_for w none = false
stale_for w (some d) = not (frozen_expectations_match_dataset w d)

-- The rows that `sweep_stale_work` blocks, joined with their dataset.
unfoldable pub is_stale : Database → Work → Bool
unfolding frozen_expectations_match_dataset find_dataset
is_stale db w =
    not (is_ingest w.kind) && is_waiting w.state && stale_for w (find_dataset w.dataset_id db)

unfoldable pub sweep_stale_work : ℕ → Database → Database
unfolding is_stale bounded_error
sweep_stale_work current db = record db {
  works =
      update_rows (is_stale db)
        (blocked_by (bounded_error (some "EXPECTATION_STALE") error_code_limit)
          (bounded_error
            (some
              "work frozen expectations no longer match dataset state after a newer generation published")
            error_message_limit)
          current)
        db.works;
}

-- The `WHERE` clause of the claim query, with the joined dataset.
abbrev pub claimable_in : Database → ℕ → Work → Option Dataset → Bool
claimable_in db current w none = false
claimable_in db current w (some d) =
    is_due current w
    && source_snapshot_allows_work db w
    && lane_order db d w
    && expected_state d w
    && is_active d.lifecycle_state

unfoldable pub is_claimable : Database → ℕ → Work → Bool
unfolding find_dataset is_due source_snapshot_allows_work lane_order expected_state
is_claimable db current w = claimable_in db current w (find_dataset w.dataset_id db)

-- ORDER BY source_snapshot_seq, kind, created_at, work_id
unfoldable pub comes_before : Work → Work → Bool
comes_before v w =
    ltb v.source_snapshot_seq w.source_snapshot_seq
    || (v.source_snapshot_seq == w.source_snapshot_seq
        && (ltb (kind_rank v.kind) (kind_rank w.kind)
            || (kind_rank v.kind == kind_rank w.kind
                && (ltb v.created_at w.created_at
                    || (v.created_at == w.created_at && ltb v.work_id w.work_id)))))

unfoldable pub insert_ordered : Work → List Work → List Work
unfolding comes_before
insert_ordered w [] = w ∷ []
insert_ordered w (v ∷ vs) =
    let later = v ∷ insert_ordered w vs in if comes_before w v then w ∷ v ∷ vs else later

unfoldable pub order_rows : List Work → List Work
unfolding insert_ordered
order_rows [] = []
order_rows (w ∷ ws) = insert_ordered w (order_rows ws)

abbrev pub fenced : ℕ → Dataset → Dataset
fenced fence_epoch d = record d { fence_epoch = fence_epoch }

-- The columns that a claim writes on its row.
unfoldable pub started : ℕ → ℕ → ℕ → Dataset → ℕ → Work → Work
unfolding frozen_expectations
started lease_token lease_expires_at attempt_count d current w =
    let w' = record w {
      state = WorkState.running;
      lease_token = some lease_token;
      lease_expires_at = some lease_expires_at;
      attempt_count = attempt_count;
      error_code = none;
      error_message = none;
      updated_at = current;
    } in
    if is_ingest w.kind then frozen_expectations d w' else w'

abbrev pub same_waiting_row : ℕ → Work → Bool
same_waiting_row work_id w = w.work_id == work_id && is_waiting w.state

unfoldable pub claim_locked_row :
    ℕ → Work → Dataset → ℕ → ℕ → Database → Result (Option WorkClaim × Database)
unfolding started store_works
claim_locked_row lease_token w d current lease_duration db =
    if not (is_waiting w.state) then ok (none, db) else do
      let fence_epoch = d.fence_epoch + 1
      let attempt_count = w.attempt_count + 1
      let lease_expires_at = current + lease_duration
      let db1 = record db {
        datasets = update_rows (λ x. x.dataset_id == w.dataset_id) (fenced fence_epoch) db.datasets;
      }
      db2 ←
          store_works
            (update_rows (same_waiting_row w.work_id)
              (started lease_token lease_expires_at attempt_count d current) db.works)
            db1
      raise_if (not (count_rows (same_waiting_row w.work_id) db.works == 1))
          (state_transition "locked due work changed during claim")
      ok (
        some (record {
          work_id = w.work_id;
          dataset_id = w.dataset_id;
          kind = w.kind;
          phase = w.phase;
          lease_token = lease_token;
          fence_epoch = fence_epoch;
          attempt_count = attempt_count;
          source_snapshot_seq = w.source_snapshot_seq;
          spec_revision_id = w.spec_revision_id;
          ingest_lance_uri = d.ingest_lance_uri;
          ingest_lance_version = d.ingest_lance_version;
          lease_expires_at = some lease_expires_at;
        }),
        db2,
      )

-- The rest of the loop after one row, which may have been claimed.
unfoldable pub after_row :
    (ℕ → List ℕ → Database → Result (List WorkClaim × Database))
    → ℕ
    → Work
    → List ℕ
    → Option WorkClaim × Database
    → Result (List WorkClaim × Database)
after_row rest n w claimed (none, db) = rest (suc n) claimed db
after_row rest n w claimed (some claim, db) = do
  r ← rest n (w.dataset_id ∷ claimed) db
  ok (claim ∷ r.0, r.1)

module _ (token : ℕ → ℕ) (locked_work locked_dataset : ℕ → Bool) where
  abbrev pub claim_joined :
      ℕ → Work → Option Dataset → ℕ → ℕ → Database → Result (Option WorkClaim × Database)
  claim_joined n w none current lease_duration db = ok (none, db)
  claim_joined n w (some d) current lease_duration db =
      if locked_dataset d.dataset_id
      then ok (none, db)
      else claim_locked_row (token n) w d current lease_duration db

  -- One row of the loop: `continue`, or an attempt to claim. `n` is the number of claims left.
  unfoldable pub claim_row :
      ℕ → Work → List ℕ → ℕ → ℕ → Database → Result (Option WorkClaim × Database)
  unfolding find_dataset
  claim_row n w claimed_datasets current lease_duration db =
      if exists_row (nat_eq w.dataset_id) claimed_datasets
      then ok (none, db)
      else claim_joined n w (find_dataset w.dataset_id db) current lease_duration db

  -- The loop over the selected rows, with the claims left to make and the datasets claimed.
  unfoldable pub claim_rows :
      List Work → ℕ → List ℕ → ℕ → ℕ → Database → Result (List WorkClaim × Database)
  claim_rows [] n claimed current lease_duration db = ok ([], db)
  claim_rows (w ∷ ws) zero claimed current lease_duration db = ok ([], db)
  claim_rows (w ∷ ws) (suc n) claimed current lease_duration db =
      claim_row (suc n) w claimed current lease_duration db
      >>= after_row (λ n' cs x. claim_rows ws n' cs current lease_duration x) n w claimed

  unfoldable pub claim_due_work : ℤ → ℤ → ℕ → Database → Result (List WorkClaim × Database)
  unfolding release_expired_leases sweep_stale_work is_claimable order_rows claim_rows after_row
  claim_due_work limit lease_duration current db = do
    raise_if (is_nonpositive limit || is_nonpositive lease_duration)
        (value_error "claim limit and lease duration must be positive")
    let db1 = sweep_stale_work current (release_expired_leases current db)
    let due = select (λ w. is_claimable db1 current w && not (locked_work w.work_id)) db1.works
    let rows = take (pos_part limit * 4) (order_rows due)
    claim_rows rows (pos_part limit) [] current (pos_part lease_duration) db1
