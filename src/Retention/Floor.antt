-- ===== src/Retention/Floor.antt =====
-- state/repository.py: what the retention floor says of the rows that may still be needed.
use lance_etl.Common.{
  ℕ, ◌≤◌, ◌≡◌, ◌⊎◌, subst, [], ◌∷◌, refl, sym, ◌∙◌, Bool, true, false, ◌&&◌, ◌||◌, Option, none,
  some, List, ◌++◌, map, All, ◌==◌, ==→eq, Bool-cases, inl, inr, Option-cases, select, exists_row,
  min_of, min_of-le, min_of-none, min_of-member, exists_row-map-select, exists_row-append,
  exists_row-map, exists_row-find_row, All-of, find_row-matches,
}
use lance_etl.Db.{Work, Snapshot, Database, find_snapshot}
use lance_etl.Retention.{
  in_replay_horizon, is_blocked_snapshot, is_unfinished, candidate_sequences,
  select_retention_floor, floor_row,
}

-- A sequence that replay, a blocked snapshot or unfinished work still needs.
unfoldable pub is_needed : ℕ → Database → ℕ → Bool
is_needed current db seq =
    exists_row (λ (s : Snapshot). is_blocked_snapshot s && s.source_snapshot_seq == seq)
      db.snapshots
    || (exists_row (λ (w : Work). is_unfinished w && w.source_snapshot_seq == seq) db.works
        || exists_row
            (λ (s : Snapshot). in_replay_horizon current db s && s.source_snapshot_seq == seq)
            db.snapshots)

-- The foreign key of `dataset_work` on `source_snapshots`.
unfoldable pub HasSnapshots : Database → Type 0
HasSnapshots db =
    All
      (λ (w : Work).
        exists_row (λ (s : Snapshot). s.source_snapshot_seq == w.source_snapshot_seq) db.snapshots
        ≡ true)
      db.works

-- No floor, and nothing is needed; or the stored row of the least sequence that is needed.
unfoldable pub IsFloor : ℕ → Database → Option Snapshot → Type 0
IsFloor current db none = (seq : ℕ) → is_needed current db seq ≡ false
IsFloor current db (some row) =
    (is_needed current db row.source_snapshot_seq ≡ true)
    × (find_snapshot row.source_snapshot_seq db ≡ some row)
    × ((seq : ℕ) → is_needed current db seq ≡ true → row.source_snapshot_seq ≤ seq)

pub exists_row-candidate_sequences :
    (current : ℕ) (db : Database) (seq : ℕ)
    → exists_row (λ n. n == seq) (candidate_sequences current db) ≡ is_needed current db seq
unfolding candidate_sequences is_needed
exists_row-candidate_sequences current db seq =
    let blocked =
      map (λ (s : Snapshot). s.source_snapshot_seq) (select is_blocked_snapshot db.snapshots) in
    let unfinished = map (λ (w : Work). w.source_snapshot_seq) (select is_unfinished db.works) in
    let replayed =
      map (λ (s : Snapshot). s.source_snapshot_seq)
        (select (in_replay_horizon current db) db.snapshots) in
    let e1 = exists_row-append (λ n. n == seq) blocked (unfinished ++ replayed) in
    let e2 = exists_row-append (λ n. n == seq) unfinished replayed in
    let b =
      exists_row-map-select is_blocked_snapshot (λ s. s.source_snapshot_seq) seq db.snapshots in
    let u = exists_row-map-select is_unfinished (λ w. w.source_snapshot_seq) seq db.works in
    let r =
      exists_row-map-select (in_replay_horizon current db) (λ s. s.source_snapshot_seq) seq
        db.snapshots in
    e1 ∙ rw (b, e2, u, r) refl

or-cases : (a b : Bool) → (a || b) ≡ true → (a ≡ true) ⊎ (b ≡ true)
or-cases true b h = inl refl
or-cases false b h = inr h

and-right : (a b : Bool) → (a && b) ≡ true → b ≡ true
and-right true b h = h
and-right false b h = cc

-- What is needed is stored.
is_needed-stored :
    (current : ℕ) (db : Database) (seq : ℕ)
    → HasSnapshots db
    → is_needed current db seq ≡ true
    → exists_row (λ (s : Snapshot). s.source_snapshot_seq == seq) db.snapshots ≡ true
unfolding is_needed HasSnapshots
is_needed-stored current db seq stored h = elim (or-cases _ _ h) [
  | inl blocked ↦ of_snapshot is_blocked_snapshot blocked
  | inr more ↦ elim (or-cases _ _ more) [
    | inl unfinished ↦ of_work db.works stored unfinished
    | inr replayed ↦ of_snapshot (in_replay_horizon current db) replayed
  ]
]
  where
    of_snapshot :
        (p : Snapshot → Bool)
        → exists_row (λ s. p s && s.source_snapshot_seq == seq) db.snapshots ≡ true
        → exists_row (λ (s : Snapshot). s.source_snapshot_seq == seq) db.snapshots ≡ true
    of_snapshot p =
        exists_row-map (λ s. p s && s.source_snapshot_seq == seq)
          (λ s. s.source_snapshot_seq == seq) db.snapshots
          (All-of (λ s. and-right (p s) (s.source_snapshot_seq == seq)) db.snapshots)

    of_work :
        (ws : List Work)
        → All
            (λ (w : Work).
              exists_row
                (λ (s : Snapshot). s.source_snapshot_seq == w.source_snapshot_seq)
                db.snapshots
              ≡ true)
            ws
        → exists_row (λ w. is_unfinished w && w.source_snapshot_seq == seq) ws ≡ true
        → exists_row (λ (s : Snapshot). s.source_snapshot_seq == seq) db.snapshots ≡ true
    of_work [] ref e = cc
    of_work (w ∷ ws) ref e = elim (Bool-cases (is_unfinished w && w.source_snapshot_seq == seq)) [
      | inl t ↦
          let q = ==→eq w.source_snapshot_seq seq (and-right _ _ t) in
          subst (λ k. exists_row (λ (s : Snapshot). s.source_snapshot_seq == k) db.snapshots ≡ true)
            q ref.0
      | inr t ↦ of_work ws ref.1 (rw t at e)
    ]

-- The floor is exact: nothing that is needed lies below it, and it is itself needed, so it holds
-- back no more than it must; there is none only if nothing is needed.
pub select_retention_floor-IsFloor :
    (current : ℕ) (db : Database)
    → HasSnapshots db
    → IsFloor current db (select_retention_floor current db)
unfolding select_retention_floor IsFloor find_snapshot
select_retention_floor-IsFloor current db stored =
    elim (Option-cases (min_of (candidate_sequences current db))) [
      | inl q ↦
          rw q (λ seq. sym (exists_row-candidate_sequences current db seq) ∙ min_of-none _ seq q)
      | inr (m, q) ↦
          let needed : is_needed current db m ≡ true =
            sym (exists_row-candidate_sequences current db m) ∙ min_of-member _ q in
          let (row, found) =
            exists_row-find_row (λ (s : Snapshot). s.source_snapshot_seq == m) db.snapshots
              (is_needed-stored current db m stored needed) in
          let same =
            find_row-matches (λ (s : Snapshot). s.source_snapshot_seq == m) db.snapshots found in
          let k = ==→eq row.source_snapshot_seq m same in
          rw (q, find_snapshot)
            (rw (found, floor_row)
              (
                rw k needed,
                rw k found,
                λ seq h. rw k (
                    min_of-le (candidate_sequences current db) seq q
                      (exists_row-candidate_sequences current db seq ∙ h)),
              ))
    ]
