-- ===== src/Queue/Evolution/Calls.antt =====
-- The transitions that a worker asks for keep the relation `Progress`.
use lance_etl.Common.{
  ℕ, ◌+◌, ◌≡◌, refl, sym, ap, ◌∙◌, Option, none, some, Bool, true, false, arith, String, ok,
  raise_if-eq-ok, Evolves-update_rows, Evolves-update_known, All, Keyed-update_rows,
  find_row-IsCurrent, update_rows, count_rows, ◌==◌, ltb, leb, if◌then◌else◌, Bool-cases, inl, inr,
  ℤ, pos_part,
}
use lance_etl.Types.{WorkPhase, WorkState, WorkClaim, phase_order, is_running}
use lance_etl.Db.{Work, Database, find_work}
use lance_etl.Queue.{lease_is_current}
use lance_etl.Queue.Lease.{
  update_work, renew_lease, renewed, Checkpoint, checkpointed, advance_row, advance_phase,
  retry_work, block_work, released,
}
use lance_etl.Queue.Evolution.{IsLeased, RowStep, RowStep-refl}
use lance_etl.Queue.Evolution.Steps.{released-RowStep, renewed-RowStep, checkpointed-RowStep}
use lance_etl.Queue.Evolution.Progress.{Progress, Progress-refl, Progress-works, work_key, IsKeyed}

update_work-Progress :
    (p : Work → Bool) (f : Work → Work) (db : Database) {r : Bool × Database}
    → ((w : Work) → p w ≡ true → RowStep w (f w))
    → ((w : Work) → (f w).work_id ≡ w.work_id)
    → IsKeyed db
    → update_work p f db ≡ ok r
    → Progress db r.1
unfolding update_work
update_work-Progress p f db {r} step same k e =
    let q : r ≡ (count_rows p db.works == 1, record db { works = update_rows p f db.works }) = cc in
    rw q (
      Progress-works db (update_rows p f db.works) k
        (Evolves-update_rows RowStep IsLeased p f RowStep-refl step db.works)
        (Keyed-update_rows work_key p f same db.works k.works))

module _ (db : Database) (k : IsKeyed db) where
  -- An UPDATE whose rows are known to satisfy `P`.
  update_known-Progress :
      (p : Work → Bool) (f : Work → Work) (P : Work → Type 0) {r : Bool × Database}
      → ((w : Work) → P w → p w ≡ true → RowStep w (f w))
      → ((w : Work) → (f w).work_id ≡ w.work_id)
      → All P db.works
      → update_work p f db ≡ ok r
      → Progress db r.1
  unfolding update_work
  update_known-Progress p f P {r} step same all e =
      let q : r ≡ (count_rows p db.works == 1, record db { works = update_rows p f db.works }) =
        cc in
      rw q (
        Progress-works db (update_rows p f db.works) k
          (Evolves-update_known RowStep IsLeased P p f RowStep-refl step db.works all)
          (Keyed-update_rows work_key p f same db.works k.works))

module _ (claim : WorkClaim) (now : ℕ) (db : Database) (k : IsKeyed db) where
  leased_runs : (w : Work) → lease_is_current claim now db w ≡ true → is_running w.state ≡ true
  unfolding lease_is_current
  leased_runs w h = ground arith

  leased_id : (w : Work) → lease_is_current claim now db w ≡ true → w.work_id ≡ claim.work_id
  unfolding lease_is_current
  leased_id w h = ground arith

  pub renew_lease-Progress :
      (duration : ℤ) {r : Bool × Database}
      → renew_lease claim duration now db ≡ ok r
      → Progress db r.1
  unfolding renew_lease
  renew_lease-Progress duration e =
      update_work-Progress (lease_is_current claim now db) (renewed (now + pos_part duration) now)
        db (λ w h. renewed-RowStep (now + pos_part duration) now w (leased_runs w h)) (λ w. refl) k
        (raise_if-eq-ok _ _ _ e).1

  released-Progress :
      (state : WorkState) (at : Work → ℕ) (code message : Option String) {r : Bool × Database}
      → is_running state ≡ false
      → update_work
          (lease_is_current claim now db)
          (λ w. released state (at w) code message now w)
          db
        ≡ ok r
      → Progress db r.1
  released-Progress state at code message s e =
      update_work-Progress (lease_is_current claim now db)
        (λ w. released state (at w) code message now w) db
        (λ w h.
          let run = leased_runs w h in
          released-RowStep state (at w) code message now w (ground arith) s)
        (λ w. refl) k e

  pub retry_work-Progress :
      (delay : ℤ) (code message : String) (bound : ℕ) {r : Bool × Database}
      → retry_work claim delay code message bound now db ≡ ok r
      → Progress db r.1
  unfolding retry_work
  retry_work-Progress delay code message bound e =
      released-Progress
        (if leb bound claim.attempt_count then WorkState.blocked else WorkState.retry_wait)
        (λ w. if leb bound claim.attempt_count then now else now + pos_part delay) _ _
        (ground arith) (raise_if-eq-ok _ _ _ e).1

  pub block_work-Progress :
      (code message : String) {r : Bool × Database}
      → block_work claim code message now db ≡ ok r
      → Progress db r.1
  unfolding block_work
  block_work-Progress code message e =
      released-Progress WorkState.blocked (λ w. w.next_attempt_at) _ _ refl e

  advance_row-Progress :
      (phase : WorkPhase) (c : Checkpoint) (row : Option Work) {r : Bool × Database}
      → find_work claim.work_id db ≡ row
      → advance_row claim phase c now db row ≡ ok r
      → Progress db r.1
  unfolding advance_row find_work
  advance_row-Progress phase c none {r} f e =
      let q : r ≡ (false, db) = cc in rw q (Progress-refl db k)
  advance_row-Progress phase c (some row) {r} f e =
      elim (Bool-cases (ltb (phase_order phase) (phase_order row.phase))) [
        | inl back ↦
            let e' = rw back at e in let q : r ≡ (false, db) = cc in rw q (Progress-refl db k)
        | inr forth ↦
            let (id, current) = find_row-IsCurrent work_key claim.work_id db.works row k.works f in
            let e' = rw forth at e in
            update_known-Progress db k (lease_is_current claim now db) (checkpointed phase c now)
              (λ x. x.work_id ≡ row.work_id → x ≡ row)
              (λ w h l. checkpointed-RowStep phase c now w (leased_runs w l) (
                let q : w ≡ row = h (leased_id w l ∙ sym id) in
                let q' : phase_order w.phase ≡ phase_order row.phase =
                  ap (λ x. phase_order x.phase) q in
                ground arith))
              (λ w. refl) current e'
      ]

  pub advance_phase-Progress :
      (phase : WorkPhase) (c : Checkpoint) {r : Bool × Database}
      → advance_phase claim phase c now db ≡ ok r
      → Progress db r.1
  unfolding advance_phase
  advance_phase-Progress phase c {r} e =
      advance_row-Progress phase c (find_work claim.work_id db) {r = r} refl (ground arith)
