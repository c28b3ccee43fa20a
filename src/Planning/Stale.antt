-- ===== src/Planning/Stale.antt =====
-- The gate of a source, and plans made before it closed or opened.
use lance_etl.Common.{
  ℕ, ◌<◌, ◌≡◌, refl, ap, ◌∙◌, Option, none, some, Bool, true, false, ◌&&◌, arith, List, [], ◌∷◌,
  String, ok, >>=-eq-ok, raise_if-eq-ok, update_rows, exists_row, find_row, find_row-update_rows,
  find_row-Evolves, find_row-matches, ◌==◌, ==→eq, ==_refl, if◌then◌else◌, Bool-cases, inl, inr, ℤ,
  pos_part,
}
use lance_etl.Types.{SourceSnapshotState, RoutingIdentity, is_gated}
use lance_etl.Types.Ids.{Uuids}
use lance_etl.Types.Plan.{SourceSnapshotPlan, validate_plan}
use lance_etl.Db.{Source, Snapshot, Work, Database, find_source, find_snapshot}
use lance_etl.Queue.{source_gated}
use lance_etl.Queue.Lease.{bounded_error, error_code_limit, error_message_limit}
use lance_etl.Queue.Evolution.Progress.{Progress, IsKeyed, SourceStep, Anything}
use lance_etl.Planning.{
  lock_source_for_planning, known_snapshot, admit_plan, epoch_is_stale, epoch_differs,
  advance_epoch, bump_epoch, assert_source_gate_allows_snapshot,
}
use lance_etl.Planning.Enqueue.{enqueue_source_snapshot, validate_all}
use lance_etl.Planning.Gate.{
  close_gate, gated_row, is_seq, marked, block_locked_snapshot, block_source_snapshot,
}
use lance_etl.Control.{Reach}
use lance_etl.Control.History.{Reach-Progress}

-- A plan for an unknown snapshot is admitted only in its own epoch and while the gate is open.
admit_plan-unknown :
    (plan : SourceSnapshotPlan) (source : Source) (db : Database)
    → admit_plan plan source db ≡ ok tt
    → known_snapshot plan.source_id (pos_part plan.snapshot_id) db ≡ false
    → (epoch_differs plan.source_planning_epoch source.planning_epoch ≡ false)
      × (source_gated db plan.source_id ≡ false)
unfolding admit_plan epoch_is_stale assert_source_gate_allows_snapshot
admit_plan-unknown plan source db e unknown = (ground arith, ground arith)

module _ (u : Uuids) (plan : SourceSnapshotPlan) (plans : List RoutingIdentity) (now : ℕ)
    (db : Database) {r : ℕ × Database} where
  enqueued-admitted :
      enqueue_source_snapshot u plan plans now db ≡ ok r
      → (source : Source) × (lock_source_for_planning plan.source_id db ≡ ok source)
        × (admit_plan plan source db ≡ ok tt)
  unfolding enqueue_source_snapshot
  enqueued-admitted e =
      let (_, _, e1) = >>=-eq-ok (validate_plan plan) _ e in
      let (_, e2) = raise_if-eq-ok _ _ _ e1 in
      let (_, _, e3) = >>=-eq-ok (validate_all plans) _ e2 in
      let (_, e4) = raise_if-eq-ok _ _ _ e3 in
      let (source, locked, e5) = >>=-eq-ok (lock_source_for_planning plan.source_id db) _ e4 in
      let (_, admitted, e6) = >>=-eq-ok (admit_plan plan source db) _ e5 in
      (source, locked, admitted)

  -- Where a source has a blocked snapshot, only a snapshot that is already known can be enqueued.
  pub enqueue_source_snapshot_gated :
      source_gated db plan.source_id ≡ true
      → enqueue_source_snapshot u plan plans now db ≡ ok r
      → known_snapshot plan.source_id (pos_part plan.snapshot_id) db ≡ true
  enqueue_source_snapshot_gated gate e =
      let (source, locked, admitted) = enqueued-admitted e in
      elim (Bool-cases (known_snapshot plan.source_id (pos_part plan.snapshot_id) db)) [
        | inl t ↦ t
        | inr t ↦
            let open_gate = (admit_plan-unknown plan source db admitted t).1 in
            absurd (ground arith)
      ]

epoch_differs-of_past :
    (epoch : Option ℤ) (planned : ℤ) (current : ℕ)
    → epoch ≡ some planned
    → pos_part planned < current
    → epoch_differs epoch current ≡ true
epoch_differs-of_past none planned current e h = cc
epoch_differs-of_past (some n) planned current e h =
    let q : n ≡ planned = cc in let h' : pos_part n < current = rw q h in ground arith

find_source-Progress :
    (id : ℕ) (db db' : Database) {s : Source}
    → Progress db db'
    → find_source id db ≡ some s
    → (t : Source) × (find_source id db' ≡ some t) × SourceStep s t
unfolding find_source
find_source-Progress id db db' p f =
    find_row-Evolves SourceStep Anything (λ s. s.source_id) (λ x y s. s.source_id) id db.sources
      db'.sources p.sources f

-- Once the planning epoch of a source is past that of a plan, then after any history of the
-- transactions of `Call` the plan can be enqueued only if its snapshot is known by then: a plan made
-- before a block or a repair never brings in a new snapshot.
pub enqueue_source_snapshot_stale :
    (u : Uuids) (db db' : Database) (plan : SourceSnapshotPlan) (plans : List RoutingIdentity)
    (now : ℕ) (planned : ℤ) (s : Source) {r : ℕ × Database}
    → IsKeyed db
    → find_source plan.source_id db ≡ some s
    → plan.source_planning_epoch ≡ some planned
    → pos_part planned < s.planning_epoch
    → Reach u db db'
    → enqueue_source_snapshot u plan plans now db' ≡ ok r
    → known_snapshot plan.source_id (pos_part plan.snapshot_id) db' ≡ true
unfolding lock_source_for_planning
enqueue_source_snapshot_stale u db db' plan plans now planned s k f at later reach e =
    let (t, f', step) =
      find_source-Progress plan.source_id db db' (Reach-Progress u db db' k reach) f in
    let (source, locked, admitted) = enqueued-admitted u plan plans now db' e in
    let grown = step.epoch in
    let q : source ≡ t = ground (arith, f') in
    elim (Bool-cases (known_snapshot plan.source_id (pos_part plan.snapshot_id) db')) [
      | inl known ↦ known
      | inr unknown ↦
          let same = (admit_plan-unknown plan source db' admitted unknown).0 in
          let differs =
            epoch_differs-of_past plan.source_planning_epoch planned source.planning_epoch at
              (rw q (omega arith)) in
          absurd (ground (arith, same, differs))
    ]

-- A row that was found matches after an update which keeps the test.
exists_row-update_rows :
    (p q : Snapshot → Bool) (f : Snapshot → Snapshot) (xs : List Snapshot) {s : Snapshot}
    → find_row p xs ≡ some s
    → q (f s) ≡ true
    → exists_row q (update_rows p f xs) ≡ true
exists_row-update_rows p q f [] e h = cc
exists_row-update_rows p q f (x ∷ xs) {s} e h = elim (Bool-cases (p x)) [
  | inl t ↦
      let same : x ≡ s = ground (arith, t) in let h' : q (f x) ≡ true = rw same h in rw (t, h') refl
  | inr t ↦
      let rest = exists_row-update_rows p q f xs (ground (arith, t)) h in ground (arith, t, rest)
]

close_gate-gated :
    (row : Snapshot) (code : String) (message : Option String) (now : ℕ) (db : Database)
    → find_snapshot row.source_snapshot_seq db ≡ some row
    → source_gated (close_gate row code message now db) row.source_id ≡ true
unfolding close_gate source_gated find_snapshot
close_gate-gated row code message now db f =
    exists_row-update_rows (is_seq row.source_snapshot_seq)
      (λ (s : Snapshot). s.source_id == row.source_id && is_gated s.state)
      (marked SourceSnapshotState.blocked (bounded_error (some code) error_code_limit)
        (bounded_error message error_message_limit))
      db.snapshots f (let self = ==_refl row.source_id in ground arith)

stopped :
    (p : Work → Bool) (f : Work → Work) (ws : List Work)
    → ((w : Work) → p w ≡ true → p (f w) ≡ false)
    → exists_row p (update_rows p f ws) ≡ false
stopped p f [] h = refl
stopped p f (w ∷ ws) h = elim (Bool-cases (p w)) [
  | inl t ↦ rw (t, h w t, stopped p f ws h) refl
  | inr t ↦ rw (t, stopped p f ws h) (ground (arith, t))
]

close_gate-stopped :
    (row : Snapshot) (code : String) (message : Option String) (now : ℕ) (db : Database)
    → exists_row
        (gated_row row.source_id row.source_snapshot_seq)
        (close_gate row code message now db).works
      ≡ false
unfolding close_gate
close_gate-stopped row code message now db =
    stopped (gated_row row.source_id row.source_snapshot_seq) _ db.works (λ w t. ground arith)

found_seq :
    (seq : ℕ) (db : Database) (row : Snapshot)
    → find_snapshot seq db ≡ some row
    → (row.source_snapshot_seq == seq) ≡ true
unfolding find_snapshot
found_seq seq db row f = find_row-matches (is_seq seq) db.snapshots f

block_locked_snapshot_closes :
    (row : Snapshot) (code : String) (message : Option String) (expected : Option ℕ) (now : ℕ)
    (db : Database) (s : Source) {db' : Database}
    → find_snapshot row.source_snapshot_seq db ≡ some row
    → find_source row.source_id db ≡ some s
    → block_locked_snapshot row code message expected now db ≡ ok (true, db')
    → (source_gated db' row.source_id ≡ true)
      × (exists_row (gated_row row.source_id row.source_snapshot_seq) db'.works ≡ false)
      × (find_source row.source_id db' ≡ some (if is_gated row.state then s else bump_epoch s))
unfolding block_locked_snapshot advance_epoch source_gated find_source
block_locked_snapshot_closes row code message expected now db s {db'} f g e =
    let db1 = close_gate row code message now db in
    let gate = close_gate-gated row code message now db f in
    let stop = close_gate-stopped row code message now db in
    let ss : db'.snapshots ≡ db1.snapshots = ground arith in
    let ws : db'.works ≡ db1.works = ground arith in
    let os : db'.sources ≡ (
        if is_gated row.state
        then db.sources
        else update_rows (λ (x : Source). x.source_id == row.source_id) bump_epoch db.sources) =
      unfold close_gate in ground arith in
    (
      rw ss gate,
      rw ws stop,
      elim (Bool-cases (is_gated row.state)) [
        | inl t ↦ rw (os, t) g
        | inr t ↦
            rw (os, t)
              (find_row-update_rows (λ (x : Source). x.source_id) row.source_id bump_epoch
                db.sources (λ x. refl) g)
      ],
    )

-- A block that returns true closes the gate of the snapshot's source, leaves no waiting INGEST row
-- of that source at the snapshot or after it, and, if the snapshot was not yet blocked, moves
-- the planning epoch of the source on by one.
pub block_source_snapshot_closes :
    (seq : ℕ) (code : String) (message : Option String) (expected : Option ℕ) (now : ℕ)
    (db : Database) (row : Snapshot) (s : Source) {db' : Database}
    → find_snapshot seq db ≡ some row
    → find_source row.source_id db ≡ some s
    → block_source_snapshot seq code message expected now db ≡ ok (true, db')
    → (source_gated db' row.source_id ≡ true)
      × (exists_row (gated_row row.source_id row.source_snapshot_seq) db'.works ≡ false)
      × (find_source row.source_id db' ≡ some (if is_gated row.state then s else bump_epoch s))
unfolding block_source_snapshot
block_source_snapshot_closes seq code message expected now db row s {db'} f g e =
    let e1 = rw (f, block_source_snapshot) at e in
    let key = ==→eq _ _ (found_seq seq db row f) in
    let f' = ap (λ n. find_snapshot n db) key ∙ f in
    block_locked_snapshot_closes row code message expected now db s f' g e1
