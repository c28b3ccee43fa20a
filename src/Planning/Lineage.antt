-- ===== src/Planning/Lineage.antt =====
-- The snapshots of a source form one chain: each names the one before it as its parent, and comes
-- later in the source's order.
use lance_etl.Common.{
  ℕ, ◌≤◌, ◌<◌, ◌≡◌, refl, sym, ap, ◌∙◌, Option, none, some, Bool, true, false, arith, List, [], ◌∷◌,
  ◌++◌, String, ok, select, find_row, exists_row, update_rows, opt_eq, opt_nat_eq→eq, nat_eq, ◌==◌,
  ==→eq, if◌then◌else◌, Bool-cases, Option-cases, inl, inr, pos_part,
}
use lance_etl.Types.{SourceSnapshotState}
use lance_etl.Types.Plan.{SourceSnapshotPlan}
use lance_etl.Db.{Source, Snapshot, Database}
use lance_etl.Queue.Evolution.Progress.{SnapshotStep, SnapshotStep-refl}
use lance_etl.Planning.{
  Inserted, later_of, latest_of, source_head, extends_head, column, known_snapshot, is_snapshot,
  snapshot_row, appended, assert_new_snapshot_extends_latest, admit_plan,
  insert_or_validate_snapshot,
}

abbrev pub Follows : Snapshot → List Snapshot → Type 0
Follows x [] = Unit {0}
Follows x (y ∷ ys) =
    (y.parent_snapshot_id ≡ some x.snapshot_id)
    × (x.iceberg_sequence_number < y.iceberg_sequence_number)

abbrev pub IsChain : List Snapshot → Type 0
IsChain [] = Unit {0}
IsChain (x ∷ xs) = Follows x xs × IsChain xs

abbrev of_source : ℕ → Snapshot → Bool
of_source source_id s = s.source_id == source_id

-- The snapshots of a source, in the order of their insertion.
abbrev pub lineage : ℕ → Database → List Snapshot
lineage source_id db = select (of_source source_id) db.snapshots

latest_bound :
    (x : Snapshot) (xs : List Snapshot)
    → x.iceberg_sequence_number ≤ (later_of x (latest_of xs)).iceberg_sequence_number
latest_bound x xs = go (latest_of xs)
  where
    go : (o : Option Snapshot) → x.iceberg_sequence_number ≤ (later_of x o).iceberg_sequence_number
    go none = omega arith
    go (some t) = ground arith

-- A row that follows the latest of a chain makes a longer chain.
IsChain-snoc :
    (x : Snapshot) (xs : List Snapshot) (y : Snapshot)
    → IsChain (x ∷ xs)
    → y.parent_snapshot_id ≡ some (later_of x (latest_of xs)).snapshot_id
    → (later_of x (latest_of xs)).iceberg_sequence_number < y.iceberg_sequence_number
    → IsChain ((x ∷ xs) ++ y ∷ [])
unfolding latest_of
IsChain-snoc x [] y h p q = ((p, q), (tt, tt))
IsChain-snoc x (z ∷ zs) y h p q =
    let up = h.0.1 in
    let bound = latest_bound z zs in
    let same : later_of x (latest_of (z ∷ zs)) ≡ later_of z (latest_of zs) = ground arith in
    (h.0, IsChain-snoc z zs y h.1 (rw same at p) (rw same at q))

select-snoc :
    (p : Snapshot → Bool) (xs : List Snapshot) (y : Snapshot)
    → p y ≡ true
    → select p (xs ++ y ∷ []) ≡ select p xs ++ y ∷ []
select-snoc p [] y t = rw t refl
select-snoc p (x ∷ xs) y t = elim (Bool-cases (p x)) [
  | inl h ↦ rw h (ap (λ l. x ∷ l) (select-snoc p xs y t))
  | inr h ↦ rw h (select-snoc p xs y t)
]

select-snoc_other :
    (p : Snapshot → Bool) (xs : List Snapshot) (y : Snapshot)
    → p y ≡ false
    → select p (xs ++ y ∷ []) ≡ select p xs
select-snoc_other p [] y t = rw t refl
select-snoc_other p (x ∷ xs) y t = elim (Bool-cases (p x)) [
  | inl h ↦ rw h (ap (λ l. x ∷ l) (select-snoc_other p xs y t))
  | inr h ↦ rw h (select-snoc_other p xs y t)
]

-- The head that a new plan must extend, as the chain's end.
extends_head-IsChain :
    (plan : SourceSnapshotPlan) (xs : List Snapshot) (row : Snapshot)
    → row.parent_snapshot_id ≡ column plan.parent_snapshot_id
    → row.iceberg_sequence_number ≡ pos_part plan.iceberg_sequence_number
    → extends_head plan (latest_of xs) ≡ ok tt
    → IsChain xs
    → IsChain (xs ++ row ∷ [])
unfolding latest_of extends_head
extends_head-IsChain plan [] row p q e h = (tt, tt)
extends_head-IsChain plan (x ∷ xs) row p q e h =
    let l = later_of x (latest_of xs) in
    let parent : opt_eq nat_eq (column plan.parent_snapshot_id) (some l.snapshot_id) ≡ true =
      ground arith in
    IsChain-snoc x xs row h
      (p ∙ opt_nat_eq→eq (column plan.parent_snapshot_id) (some l.snapshot_id) parent)
      (ground arith)

-- An update that leaves the columns of the chain alone.
module _ (p : Snapshot → Bool) (f : Snapshot → Snapshot)
    (same : (s : Snapshot) → SnapshotStep s (f s)) where
  updated-SnapshotStep : (s : Snapshot) → SnapshotStep s (if p s then f s else s)
  updated-SnapshotStep s = elim (Bool-cases (p s)) [
    | inl t ↦ rw t (same s)
    | inr t ↦ rw t (SnapshotStep-refl s)
  ]

  pub select-update_rows :
      (source_id : ℕ) (xs : List Snapshot)
      → select (of_source source_id) (update_rows p f xs)
        ≡ update_rows p f (select (of_source source_id) xs)
  select-update_rows source_id [] = refl
  select-update_rows source_id (x ∷ xs) =
      let step = updated-SnapshotStep x in
      let q : of_source source_id (if p x then f x else x) ≡ of_source source_id x =
        ap (λ n. n == source_id) step.source_id in
      elim (Bool-cases (of_source source_id x)) [
        | inl t ↦
            rw (q, t) (ap (λ l. (if p x then f x else x) ∷ l) (select-update_rows source_id xs))
        | inr t ↦ rw (q, t) (select-update_rows source_id xs)
      ]

  pub IsChain-update_rows : (xs : List Snapshot) → IsChain xs → IsChain (update_rows p f xs)
  IsChain-update_rows [] h = tt
  IsChain-update_rows (x ∷ []) h = (tt, tt)
  IsChain-update_rows (x ∷ y ∷ ys) h =
      let a = updated-SnapshotStep x in
      let b = updated-SnapshotStep y in
      (
        (b.parent ∙ h.0.0 ∙ ap some (sym a.snapshot_id), rw (a.order, b.order) h.0.1),
        IsChain-update_rows (y ∷ ys) h.1,
      )

find_none :
    (p : Snapshot → Bool) (xs : List Snapshot) → find_row p xs ≡ none → exists_row p xs ≡ false
find_none p [] e = refl
find_none p (x ∷ xs) e = elim (Bool-cases (p x)) [
  | inl t ↦ absurd (ground (arith, t))
  | inr t ↦ rw t (find_none p xs (ground (arith, t)))
]

-- Every source of the database has a chain.
abbrev pub IsLineage : Database → Type 0
IsLineage db = (source_id : ℕ) → IsChain (lineage source_id db)

module _ (plan : SourceSnapshotPlan) (db : Database) where
  appended-IsLineage :
      (row : Snapshot)
      → row.source_id ≡ plan.source_id
      → row.parent_snapshot_id ≡ column plan.parent_snapshot_id
      → row.iceberg_sequence_number ≡ pos_part plan.iceberg_sequence_number
      → extends_head plan (source_head plan.source_id db) ≡ ok tt
      → IsLineage db
      → IsLineage (appended row db).db
  unfolding source_head extends_head
  appended-IsLineage row src p q e h source_id = elim (Bool-cases (of_source source_id row)) [
    | inr t ↦ rw (select-snoc_other (of_source source_id) db.snapshots row t) (h source_id)
    | inl t ↦
        let same : plan.source_id ≡ source_id = sym src ∙ ==→eq _ _ t in
        rw (select-snoc (of_source source_id) db.snapshots row t)
          (extends_head-IsChain plan (lineage source_id db) row p q (rw same at e) (h source_id))
  ]

  admitted-extends :
      (source : Source)
      → admit_plan plan source db ≡ ok tt
      → find_row (is_snapshot plan.source_id (pos_part plan.snapshot_id)) db.snapshots ≡ none
      → extends_head plan (source_head plan.source_id db) ≡ ok tt
  unfolding admit_plan assert_new_snapshot_extends_latest known_snapshot
  admitted-extends source e t =
      let unknown =
        find_none (is_snapshot plan.source_id (pos_part plan.snapshot_id)) db.snapshots t in
      ground arith

  pub insert_or_validate-IsLineage :
      (source : Source) (state : SourceSnapshotState) (code message : Option String) (now : ℕ)
      {i : Inserted}
      → admit_plan plan source db ≡ ok tt
      → insert_or_validate_snapshot plan state code message now db ≡ ok i
      → IsLineage db
      → IsLineage i.db
  unfolding insert_or_validate_snapshot snapshot_row
  insert_or_validate-IsLineage source state code message now {i} admitted e h =
      elim (Option-cases
        (find_row (is_snapshot plan.source_id (pos_part plan.snapshot_id)) db.snapshots)) [
          | inr (row, t) ↦
              let e1 = rw (t, insert_or_validate_snapshot) at e in
              let q : i.db ≡ db = ground arith in rw q h
          | inl t ↦
              let e1 = rw (t, insert_or_validate_snapshot) at e in
              let row = snapshot_row plan state code message db.next_seq now in
              let q : i.db ≡ (appended row db).db = ground arith in
              rw q (appended-IsLineage row refl refl refl (admitted-extends source admitted t) h)
        ]
