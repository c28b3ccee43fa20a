-- ===== src/Planning/Routes.antt =====
-- state/repository.py: the INGEST work that an enqueued snapshot has.
use lance_etl.Common.{
  ℕ, ◌≡◌, refl, ◌∙◌, Bool, true, ◌&&◌, not, none, some, List, [], ◌∷◌, ◌++◌, arith, ok,
  state_transition, one, >>=-eq-ok, raise_if-eq-ok, ◌==◌, Bool-cases, inl, inr, exists_row,
  exists_row-append, find_row, find_row-matches, All, and-split, select, covers,
}
use lance_etl.Types.{RoutingIdentity, SourceSnapshotState, is_ingest}
use lance_etl.Types.Ids.{Uuids, deterministic_dataset_id, deterministic_ingest_work_id, ingest_uri}
use lance_etl.Types.Plan.{SourceSnapshotPlan, validate_plan}
use lance_etl.Sources.{source_from_row}
use lance_etl.Db.{
  Source, Dataset, Work, Database, find_dataset, find_source, find_work, insert_work, store_works,
}
use lance_etl.Planning.{Inserted, lock_source_for_planning, admit_plan, insert_or_validate_snapshot}
use lance_etl.Planning.Enqueue.{
  insert_dataset, insert_or_validate_dataset, dataset_row, ingest_row, insert_ingest_work,
  insert_lanes, complete_if_empty, fill_snapshot, fill_new_snapshot, replay_snapshot,
  enqueue_source_snapshot, same_frozen_inputs, same_dataset_set, validate_all,
  active_spec_revision_id,
}

-- The row is the INGEST work of a route for a snapshot of the source.
abbrev pub feeds : Uuids → ℕ → ℕ → RoutingIdentity → Work → Bool
feeds u source_id seq plan w =
    w.dataset_id == deterministic_dataset_id u source_id plan
    && (w.source_snapshot_seq == seq && is_ingest w.kind)

module _ (p : Work → Bool) where
  insert_work-exists :
      (w : Work) (db : Database) {db' : Database}
      → insert_work w db ≡ ok db'
      → exists_row p db.works ≡ true
      → exists_row p db'.works ≡ true
  unfolding insert_work store_works
  insert_work-exists w db {db'} e h =
      elim (Bool-cases (exists_row (λ (v : Work). v.work_id == w.work_id) db.works)) [
        | inl t ↦ let e' = rw t at e in let q : db ≡ db' = ground arith in rw (← q) h
        | inr t ↦
            let e' = rw t at e in
            let q : db'.works ≡ db.works ++ w ∷ [] = ground arith in
            rw q (exists_row-append p db.works (w ∷ []) ∙ (rw h refl))
      ]

  insert_ingest_work-exists :
      (u : Uuids) (d : Dataset) (seq now : ℕ) (db : Database) {db' : Database}
      → insert_ingest_work u d seq now db ≡ ok db'
      → exists_row p db.works ≡ true
      → exists_row p db'.works ≡ true
  unfolding insert_ingest_work
  insert_ingest_work-exists u d seq now db {db'} e h =
      let (id, a, e1) = >>=-eq-ok (deterministic_ingest_work_id u d.dataset_id seq) _ e in
      let (db1, put, e2) = >>=-eq-ok (insert_work (ingest_row id d seq now) db) _ e1 in
      let (row, b, e3) = >>=-eq-ok (one (find_work id db1)) _ e2 in
      let q : db' ≡ db1 = ground arith in
      rw q (insert_work-exists (ingest_row id d seq now) db put h)

insert_or_validate_dataset-works :
    (u : Uuids) (source : Source) (plan : RoutingIdentity) (revision : ℕ) (db : Database)
    {r : Dataset × Database}
    → insert_or_validate_dataset u source plan revision db ≡ ok r
    → (r.1.works ≡ db.works) × (r.0.dataset_id ≡ deterministic_dataset_id u source.source_id plan)
unfolding insert_or_validate_dataset insert_dataset find_dataset
insert_or_validate_dataset-works u source plan revision db {r} e =
    let id = deterministic_dataset_id u source.source_id plan in
    let (uri, a, e1) = >>=-eq-ok (ingest_uri u source.lance_base_uri id) _ e in
    let (db1, put, e2) =
      >>=-eq-ok (insert_dataset (dataset_row id source.source_id plan revision uri) db) _ e1 in
    let (row, b, e3) = >>=-eq-ok (one (find_dataset id db1)) _ e2 in
    let kept : db1.works ≡ db.works = ground arith in
    let same : row.dataset_id ≡ id =
      let named =
        find_row-matches (λ (d : Dataset). d.dataset_id == id) db1.datasets {a = row}
          (ground arith) in
      ground arith in
    let q : (row, db1) ≡ r = ground arith in rw (← q) (kept, same)

-- A row that is found, and meets another test.
found-exists :
    {A : Type 0} (p q : A → Bool) (xs : List A) {x : A}
    → find_row p xs ≡ some x
    → q x ≡ true
    → exists_row q xs ≡ true
found-exists p q [] e h = cc
found-exists p q (y ∷ ys) {x} e h = elim (Bool-cases (p y)) [
  | inl t ↦ let e' = rw t at e in let same : y ≡ x = ground arith in rw (same, h) refl
  | inr t ↦ let rest = found-exists p q ys (rw t at e) h in ground (arith, rest)
]

insert_ingest_work-feeds :
    (u : Uuids) (d : Dataset) (source_id seq now : ℕ) (plan : RoutingIdentity) (db : Database)
    {db' : Database}
    → insert_ingest_work u d seq now db ≡ ok db'
    → d.dataset_id ≡ deterministic_dataset_id u source_id plan
    → exists_row (feeds u source_id seq plan) db'.works ≡ true
unfolding insert_ingest_work
insert_ingest_work-feeds u d source_id seq now plan db {db'} e same =
    let (id, a, e1) = >>=-eq-ok (deterministic_ingest_work_id u d.dataset_id seq) _ e in
    let (db1, put, e2) = >>=-eq-ok (insert_work (ingest_row id d seq now) db) _ e1 in
    let (row, b, e3) = >>=-eq-ok (one (find_work id db1)) _ e2 in
    let (frozen, e4) =
      raise_if-eq-ok (not (same_frozen_inputs row (ingest_row id d seq now)))
        (state_transition "INGEST work idempotency key carries different frozen inputs") (ok db1)
        e3 in
    let q : db1 ≡ db' = ground arith in
    let alike : same_frozen_inputs row (ingest_row id d seq now) ≡ true = ground (arith, frozen) in
    let hit : feeds u source_id seq plan row ≡ true =
      unfold same_frozen_inputs ingest_row in ground arith in
    let found : find_work id db1 ≡ some row = ground arith in
    rw (← q) (unfold find_work in found-exists _ (feeds u source_id seq plan) db1.works found hit)

insert_lanes-exists :
    (p : Work → Bool) (u : Uuids) (source : Source) (revision seq now : ℕ)
    (plans : List RoutingIdentity) (db : Database) {db' : Database}
    → insert_lanes u source revision seq now plans db ≡ ok db'
    → exists_row p db.works ≡ true
    → exists_row p db'.works ≡ true
unfolding insert_lanes
insert_lanes-exists p u source revision seq now [] db {db'} e h =
    let q : db ≡ db' = ground arith in rw (← q) h
insert_lanes-exists p u source revision seq now (plan ∷ plans) db {db'} e h =
    let (_, _, e0) = >>=-eq-ok (source_from_row source) _ e in
    let ((row, db1), a, e1) =
      >>=-eq-ok (insert_or_validate_dataset u source plan revision db) _ e0 in
    let (db2, b, e2) = >>=-eq-ok (insert_ingest_work u row seq now db1) _ e1 in
    let (kept, _) = insert_or_validate_dataset-works u source plan revision db a in
    insert_lanes-exists p u source revision seq now plans db2 e2
      (insert_ingest_work-exists p u row seq now db1 b (rw kept h))

-- Each plan has its INGEST row.
abbrev pub Fed : Uuids → ℕ → ℕ → List RoutingIdentity → Database → Type 0
Fed u source_id seq plans db =
    All (λ plan. exists_row (feeds u source_id seq plan) db.works ≡ true) plans

insert_lanes-Fed :
    (u : Uuids) (source : Source) (revision seq now : ℕ) (plans : List RoutingIdentity)
    (db : Database) {db' : Database}
    → insert_lanes u source revision seq now plans db ≡ ok db'
    → Fed u source.source_id seq plans db'
unfolding insert_lanes
insert_lanes-Fed u source revision seq now [] db e = tt
insert_lanes-Fed u source revision seq now (plan ∷ plans) db {db'} e =
    let (_, _, e0) = >>=-eq-ok (source_from_row source) _ e in
    let ((row, db1), a, e1) =
      >>=-eq-ok (insert_or_validate_dataset u source plan revision db) _ e0 in
    let (db2, b, e2) = >>=-eq-ok (insert_ingest_work u row seq now db1) _ e1 in
    let (_, same) = insert_or_validate_dataset-works u source plan revision db a in
    let p = feeds u source.source_id seq plan in
    (
      insert_lanes-exists p u source revision seq now plans db2 e2
          (insert_ingest_work-feeds u row source.source_id seq now plan db1 b same),
      insert_lanes-Fed u source revision seq now plans db2 e2,
    )

-- What a replay compares covers the plans.
covers-exists :
    {A B : Type 0} (same : A → B → Bool) (s : A → Bool) (xs : List A) (ys : List B)
    → covers (λ y x. same x y) ys (select s xs) ≡ true
    → All (λ y. exists_row (λ x. same x y && s x) xs ≡ true) ys
covers-exists same s xs [] h = tt
covers-exists same s xs (y ∷ ys) h =
    let (here, rest) = and-split (exists_row (λ x. same x y) (select s xs)) _ h in
    (selected xs here, covers-exists same s xs ys rest)
  where
    selected :
        (zs : List _)
        → exists_row (λ x. same x y) (select s zs) ≡ true
        → exists_row (λ x. same x y && s x) zs ≡ true
    selected [] k = cc
    selected (z ∷ zs) k = elim (Bool-cases (s z)) [
      | inl t ↦ elim (Bool-cases (same z y)) [
        | inl m ↦ rw (t, m) refl
        | inr m ↦ rw m (selected zs (rw (t, m) at k))
      ]
      | inr t ↦ let rest = selected zs (rw t at k) in rw t (ground (arith, rest))
    ]

complete_if_empty-works :
    (plans : List RoutingIdentity) (seq : ℕ) (db : Database)
    → (complete_if_empty plans seq db).works ≡ db.works
unfolding complete_if_empty
complete_if_empty-works [] seq db = refl
complete_if_empty-works (plan ∷ plans) seq db = refl

fill_snapshot-Fed :
    (u : Uuids) (source : Source) (now : ℕ) (plans : List RoutingIdentity) (i : Inserted)
    {r : ℕ × Database}
    → fill_snapshot u source now plans i ≡ ok r
    → Fed u source.source_id r.0 plans r.1
unfolding fill_snapshot fill_new_snapshot replay_snapshot same_dataset_set
fill_snapshot-Fed u source now plans i {r} e = elim (Bool-cases i.inserted) [
  | inl t ↦
      let e0 = rw (t, fill_snapshot) at e in
      let (revision, a, e1) =
        >>=-eq-ok (active_spec_revision_id source.default_spec_id i.db) _ e0 in
      let (db, b, e2) = >>=-eq-ok (insert_lanes u source revision i.seq now plans i.db) _ e1 in
      let q : (i.seq, complete_if_empty plans i.seq db) ≡ r = ground arith in
      let same = complete_if_empty-works plans i.seq db in
      rw (← q, same) (insert_lanes-Fed u source revision i.seq now plans i.db b)
  | inr t ↦
      let e0 = rw (t, fill_snapshot) at e in
      let (alike, e1) =
        raise_if-eq-ok (not (same_dataset_set u source.source_id i.seq plans i.db))
          (state_transition "source snapshot was replayed with a different dataset set")
          (ok (i.seq, complete_if_empty plans i.seq i.db)) e0 in
      let q : (i.seq, complete_if_empty plans i.seq i.db) ≡ r = ground arith in
      let same = complete_if_empty-works plans i.seq i.db in
      let matched = λ (w : Work) (plan : RoutingIdentity).
        w.dataset_id == deterministic_dataset_id u source.source_id plan in
      let chosen = λ (w : Work). w.source_snapshot_seq == i.seq && is_ingest w.kind in
      let both : same_dataset_set u source.source_id i.seq plans i.db ≡ true =
        ground (arith, alike) in
      let (_, covered) =
        and-split (covers matched (select chosen i.db.works) plans)
          (covers (λ (plan : RoutingIdentity) (w : Work). matched w plan) plans
            (select chosen i.db.works))
          both in
      rw (← q, same) (covers-exists matched chosen i.db.works plans covered)
]

lock_source_for_planning-id :
    (source_id : ℕ) (db : Database) {source : Source}
    → lock_source_for_planning source_id db ≡ ok source
    → source.source_id ≡ source_id
unfolding lock_source_for_planning find_source
lock_source_for_planning-id source_id db {source} e =
    let named =
      find_row-matches (λ (s : Source). s.source_id == source_id) db.sources {a = source}
        (ground arith) in
    ground arith

-- A snapshot that is enqueued, new or replayed, has the INGEST work of each of its plans: the row of
-- the dataset of that route of that source, for the sequence that is returned.
pub enqueue_source_snapshot-Fed :
    (u : Uuids) (plan : SourceSnapshotPlan) (plans : List RoutingIdentity) (now : ℕ) (db : Database)
    {r : ℕ × Database}
    → enqueue_source_snapshot u plan plans now db ≡ ok r
    → Fed u plan.source_id r.0 plans r.1
unfolding enqueue_source_snapshot
enqueue_source_snapshot-Fed u plan plans now db {r} e =
    let (_, _, e1) = >>=-eq-ok (validate_plan plan) _ e in
    let (_, e2) = raise_if-eq-ok _ _ _ e1 in
    let (_, _, e3) = >>=-eq-ok (validate_all plans) _ e2 in
    let (_, e4) = raise_if-eq-ok _ _ _ e3 in
    let (source, locked, e5) = >>=-eq-ok (lock_source_for_planning plan.source_id db) _ e4 in
    let (_, admitted, e6) = >>=-eq-ok (admit_plan plan source db) _ e5 in
    let (i, put, e7) =
      >>=-eq-ok (insert_or_validate_snapshot plan SourceSnapshotState.sealed none none now db) _
        e6 in
    let same = lock_source_for_planning-id plan.source_id db locked in
    rw (← same) (fill_snapshot-Fed u source now plans i e7)
