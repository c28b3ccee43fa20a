-- ===== src/Retention/Audit.antt =====
-- state/repository.py: what the deletion of old audit rows leaves.
use lance_etl.Common.{
  ℕ, ◌+◌, ◌≤◌, ◌≡◌, ◌≢◌, subst, refl, sym, ◌∙◌, Bool, true, false, not, some, List, [], ◌∷◌, arith,
  ok, All-map, All-of, All-take, All-zip, All-select_of, All-select, All-sort_by, Keyed,
  find_row-IsCurrent, length, length-take, length-select, take, select, sort_by, exists_row,
  exists_row-of-All, count_rows, count_rows-or, count_rows-le-one, count_rows-of-none,
  exists_row-of-none, find_row-select, ◌==◌, ==→eq, ℤ, pos_part, raise_if-eq-ok, value_error,
  is_nonpositive,
}
use lance_etl.Db.{Work, Database, find_work}
use lance_etl.Queue.Evolution.Progress.{work_key}
use lance_etl.Retention.{is_prunable, updated_before, delete_completed_audit}

-- Rows of one table named by a list of keys are at most as many as the list.
count_named :
    (rows works : List Work)
    → Keyed work_key works
    → count_rows (λ w. exists_row (λ (v : Work). v.work_id == w.work_id) rows) works ≤ length rows
count_named [] works k =
    let none_left =
      count_rows-of-none (λ (w : Work). false) works
        (exists_row-of-none (λ w. false) works (λ w. refl)) in
    omega (arith, none_left)
count_named (v ∷ vs) works k =
    let one =
      count_rows-le-one work_key (λ w. v.work_id == w.work_id) v.work_id works
        (λ w h. sym (==→eq _ _ h)) k in
    let more =
      count_rows-or (λ w. v.work_id == w.work_id)
        (λ w. exists_row (λ (x : Work). x.work_id == w.work_id) vs) works in
    omega (arith, one, more, count_named vs works k)

-- What a pruning of the audit at a cutoff leaves of a database: at most `limit` rows of work are
-- gone, all of them prunable, and no other table has changed.
pub record IsPruned (cutoff limit : ℕ) (db : Database) (n : ℕ) (db' : Database) : Type 0 where
  pub bounded : n ≤ limit
  pub counted : length db'.works + n ≡ length db.works
  pub untouched : db' ≡ record db { works = db'.works }
  pub kept :
      (id : ℕ) (w : Work)
      → find_work id db ≡ some w
      → is_prunable cutoff db w ≡ false
      → find_work id db' ≡ some w

differs : (a b : ℕ) → a ≢ b → (a == b) ≡ false
differs a b ne = ground (arith, ne)

-- No row that is deleted has the key of a row that is not prunable.
spared :
    (cutoff : ℕ) (limit : ℕ) (db : Database) (id : ℕ) (w : Work)
    → Keyed work_key db.works
    → find_work id db ≡ some w
    → is_prunable cutoff db w ≡ false
    → exists_row
        (λ (v : Work). v.work_id == id)
        (take limit (sort_by updated_before (select (is_prunable cutoff db) db.works)))
      ≡ false
unfolding find_work
spared cutoff limit db id w k f h =
    let prunable = is_prunable cutoff db in
    let (key_w, current) = find_row-IsCurrent work_key id db.works w k f in
    let P = λ (v : Work). (prunable v ≡ true) × (v.work_id ≡ w.work_id → v ≡ w) in
    let selected =
      All-zip (λ v. prunable v ≡ true) (λ v. v.work_id ≡ w.work_id → v ≡ w)
        (select prunable db.works)
        (All-select (λ v. prunable v ≡ true) prunable (λ v t. t) db.works)
        (All-select_of (λ v. v.work_id ≡ w.work_id → v ≡ w) prunable db.works current) in
    let rows = All-take P limit _ (All-sort_by updated_before P _ selected) in
    exists_row-of-All (λ v. v.work_id == id) _
      (All-map P (λ v. (v.work_id == id) ≡ false)
        (λ v x.
          differs v.work_id id
            (λ q. let same = x.1 (q ∙ sym key_w) in not_both prunable v w x.0 same h))
        _ rows)
  where
    not_both : (p : Work → Bool) (v u : Work) → p v ≡ true → v ≡ u → p u ≡ false → ⊥
    not_both p v u t q n = let t' : p u ≡ true = subst (λ x. p x ≡ true) q t in cc

spare :
    (rows : List Work) (id : ℕ)
    → exists_row (λ (v : Work). v.work_id == id) rows ≡ false
    → (v : Work) → v.work_id ≡ id
    → not (exists_row (λ (x : Work). x.work_id == v.work_id) rows) ≡ true
spare rows id none_named v q = rw q (rw none_named refl)

-- A call that returns leaves a pruned database, under unique work keys: at most `limit` rows are
-- gone and counted, and each row of work stays unless it is SUCCEEDED PUBLISH work, last written
-- before the cutoff, that no stored publication refers to. It counts no source snapshots.
pub delete_completed_audit-IsPruned :
    (cutoff : ℕ) (limit : ℤ) (db : Database) {n z : ℕ} {db' : Database}
    → Keyed work_key db.works
    → delete_completed_audit cutoff limit db ≡ ok ((n, z), db')
    → (z ≡ 0) × IsPruned cutoff (pos_part limit) db n db'
unfolding delete_completed_audit find_work
delete_completed_audit-IsPruned cutoff limit db {n} {z} {db'} k e =
    let prunable = is_prunable cutoff db in
    let rows = take (pos_part limit) (sort_by updated_before (select prunable db.works)) in
    let doomed = λ (w : Work). exists_row (λ (v : Work). v.work_id == w.work_id) rows in
    let left = select (λ w. not (doomed w)) db.works in
    let done =
      (raise_if-eq-ok (is_nonpositive limit) (value_error "audit deletion limit must be positive")
        (ok ((count_rows doomed db.works, 0), record db { works = left })) e).1 in
    let qn : count_rows doomed db.works ≡ n = cc in
    let qz : 0 ≡ z = cc in
    let qd : (record db { works = left }) ≡ db' = cc in
    (
      sym qz,
      subst (λ x. IsPruned cutoff (pos_part limit) db n x) qd
          (subst (λ m. IsPruned cutoff (pos_part limit) db m (record db { works = left })) qn
            (record {
              bounded = omega (
                arith,
                count_named rows db.works k,
                length-take (pos_part limit) (sort_by updated_before (select prunable db.works)),
              );
              counted = length-select doomed db.works;
              untouched = refl;
              kept = λ id w f h.
                  find_row-select (λ (v : Work). v.work_id == id) (λ v. not (doomed v)) db.works
                    (All-of
                      (λ v t.
                        spare rows id (spared cutoff (pos_part limit) db id w k f h) v
                          (==→eq v.work_id id t))
                      db.works)
                  ∙ f;
            })),
    )
