-- ===== src/Queue/Evolution/Steps.antt =====
-- Each write of the queue is a step of its row.
use lance_etl.Common.{ℕ, ◌+◌, ◌≤◌, ◌≡◌, String, Option, true, false, arith}
use lance_etl.Types.{Bytes, WorkState, WorkPhase, phase_order, is_running, is_succeeded, is_waiting}
use lance_etl.Db.{Work, Dataset}
use lance_etl.Queue.Lease.{renewed, Checkpoint, checkpointed, released}
use lance_etl.Queue.Claim.{started}
use lance_etl.Queue.Ingest.{ingested}
use lance_etl.Queue.Publish.{Candidate, published}
use lance_etl.Queue.Evolution.{RowStep}

pub released-RowStep :
    (state : WorkState) (at : ℕ) (code message : Option String) (current : ℕ) (w : Work)
    → is_succeeded w.state ≡ false
    → is_running state ≡ false
    → RowStep w (released state at code message current w)
released-RowStep state at code message current w h k = ground arith

pub started-RowStep :
    (token expires : ℕ) (d : Dataset) (current : ℕ) (w : Work)
    → is_waiting w.state ≡ true
    → RowStep w (started token expires (w.attempt_count + 1) d current w)
unfolding started
started-RowStep token expires d current w h = ground arith

pub renewed-RowStep :
    (expires current : ℕ) (w : Work)
    → is_running w.state ≡ true
    → RowStep w (renewed expires current w)
renewed-RowStep expires current w h = ground arith

pub checkpointed-RowStep :
    (phase : WorkPhase) (c : Checkpoint) (current : ℕ) (w : Work)
    → is_running w.state ≡ true
    → phase_order w.phase ≤ phase_order phase
    → RowStep w (checkpointed phase c current w)
checkpointed-RowStep phase c current w h k = record {
  identity = ground arith;
  final = λ e. ground arith;
  phase = k;
  attempts = omega arith;
  leased = λ l. record { token = l.token; expiry = l.expiry };
}

pub ingested-RowStep :
    (row : Work) (version rows : ℕ) (digest : Bytes) (current : ℕ) (w : Work)
    → is_succeeded w.state ≡ false
    → RowStep w (ingested row version rows digest current w)
ingested-RowStep row version rows digest current w h = ground arith

pub published-RowStep :
    (c : Candidate) (current : ℕ) (w : Work)
    → is_succeeded w.state ≡ false
    → RowStep w (published c current w)
published-RowStep c current w h = ground arith

pub started-work_id :
    (token expires attempts : ℕ) (d : Dataset) (current : ℕ) (w : Work)
    → (started token expires attempts d current w).work_id ≡ w.work_id
unfolding started
started-work_id token expires attempts d current w = ground arith
