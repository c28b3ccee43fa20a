-- ===== src/Retention/Status.antt =====
-- The status of the control plane.
use lance_etl.Common.{
  ℕ, suc, ◌==◌, ◌∙◌, leb, ◌&&◌, if◌then◌else◌, ◌+◌, ◌≤◌, ◌≡◌, refl, Bool, true, false, not, ◌||◌,
  List, [], ◌∷◌, arith, count_rows, select, count_rows-select, All-of,
}
use lance_etl.Types.{WorkState, is_running, is_succeeded, is_blocked, is_waiting}
use lance_etl.Db.{Work, Database}
use lance_etl.Queue.{is_due}
use lance_etl.Retention.{
  control_plane_status, status_with, is_unfinished, is_pending, is_retry_wait,
}

-- The rank of a state in the enumeration.
abbrev pub state_rank : WorkState → ℕ
state_rank WorkState.pending = 0
state_rank WorkState.running = 1
state_rank WorkState.retry_wait = 2
state_rank WorkState.succeeded = 3
state_rank WorkState.blocked = 4

abbrev pub in_state : WorkState → Work → Bool
in_state s w = state_rank w.state == state_rank s

states_same :
    (s : WorkState)
    → ((is_pending s ≡ (state_rank s == 0)) × (is_running s ≡ (state_rank s == 1)))
      × ((is_retry_wait s ≡ (state_rank s == 2)) × (is_blocked s ≡ (state_rank s == 4)))
states_same WorkState.succeeded = ((refl, refl), (refl, refl))
states_same WorkState.pending = ((refl, refl), (refl, refl))
states_same WorkState.running = ((refl, refl), (refl, refl))
states_same WorkState.retry_wait = ((refl, refl), (refl, refl))
states_same WorkState.blocked = ((refl, refl), (refl, refl))

count_rows-same :
    (f : WorkState → Bool) (state : WorkState)
    → ((s : WorkState) → f s ≡ (state_rank s == state_rank state))
    → (ws : List Work) → count_rows (λ (w : Work). f w.state) ws ≡ count_rows (in_state state) ws
count_rows-same f state same [] = refl
count_rows-same f state same (w ∷ ws) =
    let rest = count_rows-same f state same ws in rw (same w.state, rest) refl

unfinished_cases :
    (s : WorkState)
    → ((is_pending s ≡ true → is_succeeded s ≡ false)
        × (is_running s ≡ true → is_succeeded s ≡ false))
      × ((is_retry_wait s ≡ true → is_succeeded s ≡ false)
          × (is_blocked s ≡ true → is_succeeded s ≡ false))
unfinished_cases WorkState.succeeded = (((λ e. cc), λ e. cc), ((λ e. cc), λ e. cc))
unfinished_cases WorkState.pending = (((λ e. refl), λ e. refl), ((λ e. refl), λ e. refl))
unfinished_cases WorkState.running = (((λ e. refl), λ e. refl), ((λ e. refl), λ e. refl))
unfinished_cases WorkState.retry_wait = (((λ e. refl), λ e. refl), ((λ e. refl), λ e. refl))
unfinished_cases WorkState.blocked = (((λ e. refl), λ e. refl), ((λ e. refl), λ e. refl))

count_rows-unfinished :
    (f : WorkState → Bool)
    → ((s : WorkState) → f s ≡ true → is_succeeded s ≡ false)
    → (ws : List Work)
    → count_rows (λ w. f w.state) (select is_unfinished ws) ≡ count_rows (λ w. f w.state) ws
count_rows-unfinished f only ws =
    count_rows-select (λ w. f w.state) is_unfinished ws
      (All-of (λ w h. rw (only w.state h) refl) ws)

states_step :
    (s : WorkState) (a b c d n : ℕ)
    → a + b + c + d ≡ n
    → (if is_pending s then suc a else a)
        + (if is_running s then suc b else b)
        + (if is_retry_wait s then suc c else c)
        + (if is_blocked s then suc d else d)
      ≡ (if not (is_succeeded s) then suc n else n)
states_step WorkState.pending a b c d n h = omega arith
states_step WorkState.running a b c d n h = omega arith
states_step WorkState.retry_wait a b c d n h = omega arith
states_step WorkState.succeeded a b c d n h = omega arith
states_step WorkState.blocked a b c d n h = omega arith

states_of_unfinished :
    (ws : List Work)
    → count_rows (λ (w : Work). is_pending w.state) ws
        + count_rows (λ (w : Work). is_running w.state) ws
        + count_rows (λ (w : Work). is_retry_wait w.state) ws
        + count_rows (λ (w : Work). is_blocked w.state) ws
      ≡ count_rows is_unfinished ws
states_of_unfinished [] = omega arith
states_of_unfinished (w ∷ ws) = states_step w.state _ _ _ _ _ (states_of_unfinished ws)

due_waits :
    (current : ℕ) (w : Work)
    → is_due current w ≡ true
    → (is_pending w.state || is_retry_wait w.state) ≡ true
unfolding is_due
due_waits current w h = waits w.state h
  where
    waits :
        (s : WorkState)
        → (is_waiting s && leb w.next_attempt_at current) ≡ true
        → (is_pending s || is_retry_wait s) ≡ true
    waits WorkState.pending e = refl
    waits WorkState.retry_wait e = refl
    waits WorkState.running e = cc
    waits WorkState.succeeded e = cc
    waits WorkState.blocked e = cc

due_count :
    (current : ℕ) (ws : List Work)
    → count_rows (is_due current) ws
      ≤ count_rows (λ (w : Work). is_pending w.state) ws
        + count_rows (λ (w : Work). is_retry_wait w.state) ws
due_count current [] = omega arith
due_count current (w ∷ ws) = ground (arith, due_waits current w, due_count current ws)

-- Each count of the status is the number of all rows of work in its state, and together they are
-- the work that has not succeeded; the due work is part of what is pending or waits for a retry.
pub control_plane_status_counts :
    (current : ℕ) (db : Database)
    → (((control_plane_status current db).pending_work
          ≡ count_rows (in_state WorkState.pending) db.works)
        × ((control_plane_status current db).running_work
            ≡ count_rows (in_state WorkState.running) db.works)
        × ((control_plane_status current db).retry_wait_work
            ≡ count_rows (in_state WorkState.retry_wait) db.works)
        × ((control_plane_status current db).blocked_work
            ≡ count_rows (in_state WorkState.blocked) db.works))
      × (((control_plane_status current db).pending_work
              + (control_plane_status current db).running_work
              + (control_plane_status current db).retry_wait_work
              + (control_plane_status current db).blocked_work
            ≡ count_rows is_unfinished db.works)
          × ((control_plane_status current db).due_work
              ≤ (control_plane_status current db).pending_work
                + (control_plane_status current db).retry_wait_work))
unfolding control_plane_status status_with
control_plane_status_counts current db =
    let p = count_rows-unfinished is_pending (λ s e. (unfinished_cases s).0.0 e) db.works in
    let r = count_rows-unfinished is_running (λ s e. (unfinished_cases s).0.1 e) db.works in
    let w = count_rows-unfinished is_retry_wait (λ s e. (unfinished_cases s).1.0 e) db.works in
    let b = count_rows-unfinished is_blocked (λ s e. (unfinished_cases s).1.1 e) db.works in
    (
      (
        p ∙ count_rows-same is_pending WorkState.pending (λ s. (states_same s).0.0) db.works,
        r ∙ count_rows-same is_running WorkState.running (λ s. (states_same s).0.1) db.works,
        w ∙ count_rows-same is_retry_wait WorkState.retry_wait (λ s. (states_same s).1.0) db.works,
        b ∙ count_rows-same is_blocked WorkState.blocked (λ s. (states_same s).1.1) db.works,
      ),
      rw (p, r, w, b) (states_of_unfinished db.works, due_count current db.works),
    )
