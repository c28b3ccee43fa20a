-- ===== src/Queue/Lease.antt =====
-- state/repository.py: what a worker, or an operator, does to one row of the queue. An UPDATE
-- returns the rowcount test `rowcount == 1` beside the new database.
use Prim.Native.String.{[], ◌∷◌, ◌++◌}
use lance_etl.Common.{
  ℕ, zero, suc, ◌+◌, String, Bool, true, false, ◌&&◌, ◌||◌, not, Option, none, some, Result, ok,
  value_error, state_transition, raise_if, ◌>>=◌, ◌>>◌, ◌==◌, ltb, leb, length, update_rows,
  count_rows, exists_row, if◌then◌else◌, ℤ, is_negative, is_nonpositive, pos_part,
}
use lance_etl.Types.{Bytes, WorkState, WorkPhase, WorkClaim, phase_order, is_blocked}
use lance_etl.Types.Plan.{is_none}
use lance_etl.Db.{Work, Database, find_work, store_works}
use lance_etl.Queue.{lease_is_current, source_snapshot_allows_work}

abbrev pub error_code_limit : ℕ
error_code_limit = 128

abbrev pub error_message_limit : ℕ
error_message_limit = 2000

-- value[:limit]
unfoldable pub truncate : ℕ → String → String
truncate zero s = []
truncate (suc n) [] = []
truncate (suc n) (c ∷ s) = c ∷ truncate n s

unfoldable pub bounded_error : Option String → ℕ → Option String
unfolding truncate
bounded_error none limit = none
bounded_error (some value) limit = some (truncate limit value)

-- UPDATE dataset_work SET f WHERE p, for an `f` that brings no row into a unique index.
unfoldable pub update_work : (Work → Bool) → (Work → Work) → Database → Result (Bool × Database)
update_work p f db = ok (count_rows p db.works == 1, record db { works = update_rows p f db.works })

abbrev pub renewed : ℕ → ℕ → Work → Work
renewed expires current w = record w { lease_expires_at = some expires; updated_at = current }

unfoldable pub renew_lease : WorkClaim → ℤ → ℕ → Database → Result (Bool × Database)
renew_lease claim lease_duration current db = do
  raise_if (is_nonpositive lease_duration) (value_error "lease_duration must be positive")
  let lease_expires_at = current + pos_part lease_duration
  update_work (lease_is_current claim current db) (renewed lease_expires_at current) db

-- The optional outputs that a phase checkpoint may carry.
pub record Checkpoint : Type 0 where
  pub candidate_lance_uri : Option String
  pub candidate_lance_version : Option ℕ
  pub artifact_manifest_uri : Option String
  pub artifact_digest : Option Bytes

abbrev pub or_else {ℓ} : {A : Type ℓ} → Option A → Option A → Option A
or_else none old = old
or_else (some a) old = some a

-- `if candidate_lance_uri is not None` writes both columns of the candidate.
abbrev candidate_version : Checkpoint → Work → Option ℕ
candidate_version c w =
    if is_none c.candidate_lance_uri then w.candidate_lance_version else c.candidate_lance_version

abbrev pub checkpointed : WorkPhase → Checkpoint → ℕ → Work → Work
checkpointed phase c current w = record w {
  phase = phase;
  candidate_lance_uri = or_else c.candidate_lance_uri w.candidate_lance_uri;
  candidate_lance_version = candidate_version c w;
  artifact_manifest_uri = or_else c.artifact_manifest_uri w.artifact_manifest_uri;
  artifact_digest = or_else c.artifact_digest w.artifact_digest;
  updated_at = current;
}

abbrev pub xor : Bool → Bool → Bool
xor true b = not b
xor false b = b

abbrev bad_artifact : Option Bytes → Option String → Bool
bad_artifact none uri = false
bad_artifact (some digest) uri = is_none uri || not (length digest == 32)

-- The locked row, if there is one: a checkpoint never takes its phase back.
unfoldable pub advance_row :
    WorkClaim → WorkPhase → Checkpoint → ℕ → Database → Option Work → Result (Bool × Database)
advance_row claim phase c current db none = ok (false, db)
advance_row claim phase c current db (some row) =
    if ltb (phase_order phase) (phase_order row.phase)
    then ok (false, db)
    else update_work (lease_is_current claim current db) (checkpointed phase c current) db

unfoldable pub advance_phase :
    WorkClaim → WorkPhase → Checkpoint → ℕ → Database → Result (Bool × Database)
advance_phase claim phase c current db = do
  raise_if (ltb (phase_order phase) (phase_order claim.phase))
      (state_transition "work phase cannot move backward")
  raise_if (xor (is_none c.candidate_lance_uri) (is_none c.candidate_lance_version))
      (value_error "candidate URI and version must be supplied together")
  raise_if (bad_artifact c.artifact_digest c.artifact_manifest_uri)
      (value_error "artifact digest requires a manifest URI and 32 bytes")
  advance_row claim phase c current db (find_work claim.work_id db)

abbrev pub released : WorkState → ℕ → Option String → Option String → ℕ → Work → Work
released state next_attempt_at code message current w = record w {
  state = state;
  lease_token = none;
  lease_expires_at = none;
  next_attempt_at = next_attempt_at;
  error_code = code;
  error_message = message;
  updated_at = current;
}

unfoldable pub retry_work :
    WorkClaim → ℤ → String → String → ℕ → ℕ → Database → Result (Bool × Database)
unfolding bounded_error
retry_work claim delay error_code error_message max_attempts current db = do
  raise_if (is_negative delay) (value_error "retry delay must be non-negative")
  let exhausted = leb max_attempts claim.attempt_count
  let state = if exhausted then WorkState.blocked else WorkState.retry_wait
  let code = if exhausted then "MAX_ATTEMPTS_EXHAUSTED" else error_code
  let message = if exhausted then error_code ++ (": " ++ error_message) else error_message
  let next_attempt_at = if exhausted then current else current + pos_part delay
  update_work (lease_is_current claim current db)
      (released state next_attempt_at (bounded_error (some code) error_code_limit)
        (bounded_error (some message) error_message_limit) current)
      db

-- the update of `block_work`, which keeps `next_attempt_at`
abbrev pub blocked_by : Option String → Option String → ℕ → Work → Work
blocked_by code message current w =
    released WorkState.blocked w.next_attempt_at code message current w

unfoldable pub block_work : WorkClaim → String → String → ℕ → Database → Result (Bool × Database)
unfolding bounded_error
block_work claim error_code error_message current db =
    update_work (lease_is_current claim current db)
      (blocked_by (bounded_error (some error_code) error_code_limit)
        (bounded_error (some error_message) error_message_limit) current)
      db

unfoldable pub retryable : ℕ → Database → Work → Bool
unfolding source_snapshot_allows_work
retryable work_id db w =
    w.work_id == work_id && is_blocked w.state && source_snapshot_allows_work db w

-- The row may enter `uq_dataset_work_open_publish` again.
unfoldable pub retry_blocked_work : ℕ → ℕ → Database → Result (Bool × Database)
unfolding retryable store_works
retry_blocked_work work_id current db = do
  db' ←
      store_works
        (update_rows (retryable work_id db) (released WorkState.pending current none none current)
          db.works)
        db
  ok (count_rows (retryable work_id db) db.works == 1, db')

unfoldable pub can_retry_blocked_work : ℕ → Database → Bool
unfolding retryable
can_retry_blocked_work work_id db = exists_row (retryable work_id db) db.works
