-- ===== src/Retention/Deletion.antt =====
-- state/repository.py: what the end of a cleanup deletes, and what it leaves.
use lance_etl.Common.{
  ℕ, String, ◌≡◌, refl, sym, ◌∙◌, ap, Bool, true, false, not, ◌&&◌, ◌||◌, none, some, List, [], ◌∷◌,
  arith, ok, state_transition, ◌>>=◌, raise_if-eq-ok, All, All-map, All-of, Keyed, find_row,
  count_rows-eq-exists_row, find_row-select, find_row-select-none, find_row-exists, exists_row-map,
  exists_row-All, exists_row-of-none, count_rows-of-none, ◌==◌, ==→eq, Bool-cases, inl, inr,
  Option-cases, ℤ, nat_eq, opt_eq,
}
use lance_etl.Types.{RoutingIdentity}
use lance_etl.Types.Ids.{validate_identity}
use lance_etl.Types.Plan.{is_none}
use lance_etl.Db.{Dataset, Publication, Database, find_publication, find_source}
use lance_etl.Queue.Publish.{
  resolve_serving_dataset, serving_rows, serving_result, points_at, on_route,
}
use lance_etl.Retention.{
  PublicationCleanup, is_served, claim_publication_cleanup, same_cleanup,
  finalize_publication_cleanup, finalize_row, delete_publication,
}
use lance_etl.Retention.Cleanup.{
  publication_key, IsDisposable, claim_publication_cleanup-IsDisposable,
}

-- The end of a cleanup, when the row is there and agrees.
finalize_found :
    (c : PublicationCleanup) (db : Database) (row : Publication) (t : ℕ)
    → find_publication c.publication_id db ≡ some row
    → same_cleanup c row ≡ true
    → row.retired_at ≡ some t
    → finalize_publication_cleanup c db ≡ ok (delete_publication c.publication_id db)
unfolding finalize_publication_cleanup
finalize_found c db row t found same retired =
    rw (found, finalize_row) (rw (same) (rw retired refl))

-- A publication that no dataset points at is gone after its deletion.
deleted_gone :
    (id : ℕ) (db : Database)
    → is_served db id ≡ false
    → find_publication id (delete_publication id db).1 ≡ none
unfolding delete_publication find_publication
deleted_gone id db free =
    rw (free, not)
      (find_row-select-none (λ p. p.publication_id == id) _ db.publications
        (All-of (λ p h. ground (arith, h)) db.publications))

deleted_once :
    (id : ℕ) (db : Database) {row : Publication}
    → is_served db id ≡ false
    → Keyed publication_key db.publications
    → find_publication id db ≡ some row
    → (delete_publication id db).0 ≡ true
unfolding delete_publication find_publication
deleted_once id db {row} free k found =
    let doomed = λ (p : Publication). p.publication_id == id && not (is_served db id) in
    let there =
      find_row-exists (λ (p : Publication). p.publication_id == id) db.publications found in
    count_rows-eq-exists_row publication_key doomed id db.publications
      (λ p h. ==→eq p.publication_id id (ground (arith, h))) k
    ∙ exists_row-map (λ p. p.publication_id == id) doomed db.publications
        (All-of (λ p h. ground (arith, h, free)) db.publications) there

-- A row of a batch that is finalized on the database of its claim: the call returns true, and its
-- publication is gone.
pub claimed_cleanup_finalizes :
    (tie : Publication → Publication → Bool) (hex : ℕ → String) (current : ℕ) (limit : ℤ)
    (db : Database) {cs : List PublicationCleanup}
    → Keyed publication_key db.publications
    → claim_publication_cleanup tie hex current limit db ≡ ok cs
    → All
        (λ c.
          (db' : Database) × ((finalize_publication_cleanup c db ≡ ok (true, db'))
            × (find_publication c.publication_id db' ≡ none)))
        cs
claimed_cleanup_finalizes tie hex current limit db {cs} k e =
    All-map (IsDisposable tie current db) _ (λ c d. finalized c d) cs
      (claim_publication_cleanup-IsDisposable tie current db hex limit k e).1
  where
    finalized :
        (c : PublicationCleanup)
        → IsDisposable tie current db c
        → (db' : Database) × ((finalize_publication_cleanup c db ≡ ok (true, db'))
            × (find_publication c.publication_id db' ≡ none))
    finalized c d =
        let done = finalize_found c db d.row d.retired_at d.stored d.same d.retired in
        let once = deleted_once c.publication_id db d.unserved k d.stored in
        (
          (delete_publication c.publication_id db).1,
          (
            done ∙ ap (λ b. ok (b, (delete_publication c.publication_id db).1)) once,
            deleted_gone c.publication_id db d.unserved,
          ),
        )

-- A deletion leaves every row that a dataset points at.
kept_rows :
    (id : ℕ) (db : Database) (d : Dataset)
    → (opt_eq nat_eq d.active_publication_id (some id) ≡ true → is_served db id ≡ true)
    → find_row (points_at d) (delete_publication id db).1.publications
      ≡ find_row (points_at d) db.publications
unfolding delete_publication
kept_rows id db d served =
    find_row-select (points_at d) (λ p. not (p.publication_id == id && not (is_served db id)))
      db.publications (All-of (λ p h. kept p h) db.publications)
  where
    kept :
        (p : Publication)
        → points_at d p ≡ true
        → not (p.publication_id == id && not (is_served db id)) ≡ true
    kept p h = elim (Bool-cases (p.publication_id == id)) [
      | inl t ↦
          let q = ==→eq p.publication_id id t in
          let at = served (rw (← q) (ground (arith, h))) in rw (t, at) refl
      | inr t ↦ rw t refl
    ]

serving_rows_kept :
    (identity : RoutingIdentity) (id : ℕ) (db : Database) (ds : List Dataset)
    → All (λ d. opt_eq nat_eq d.active_publication_id (some id) ≡ true → is_served db id ≡ true) ds
    → serving_rows identity (delete_publication id db).1 ds ≡ serving_rows identity db ds
unfolding serving_rows delete_publication on_route find_source
serving_rows_kept identity id db [] h = refl
serving_rows_kept identity id db (d ∷ ds) h =
    let rest = serving_rows_kept identity id db ds h.1 in
    let same = kept_rows id db d h.0 in
    elim (Option-cases (find_row (points_at d) db.publications)) [
      | inl q ↦ let q' = same ∙ q in rw (q', q, rest) refl
      | inr (p, q) ↦ let q' = same ∙ q in rw (q', q, rest) refl
    ]

served_datasets :
    (k : ℕ) (x : Database)
    → All
        (λ d. opt_eq nat_eq d.active_publication_id (some k) ≡ true → is_served x k ≡ true)
        x.datasets
unfolding is_served
served_datasets k x =
    exists_row-All (λ d. opt_eq nat_eq d.active_publication_id (some k)) x.datasets

deletion_serves :
    (id : ℕ) (db : Database) (identity : RoutingIdentity)
    → resolve_serving_dataset identity (delete_publication id db).1
      ≡ resolve_serving_dataset identity db
unfolding resolve_serving_dataset delete_publication
deletion_serves id db identity =
    let same = serving_rows_kept identity id db db.datasets (served_datasets id db) in
    ap (λ rows. validate_identity identity >>= λ _. serving_result identity rows) same

true_ne_false : true ≡ false → ⊥
true_ne_false h = cc

served_stays :
    (id : ℕ) (db : Database) → is_served db id ≡ true → (delete_publication id db).0 ≡ false
unfolding delete_publication
served_stays id db t =
    let none_left =
      count_rows-of-none (λ (p : Publication). p.publication_id == id && not (is_served db id))
        db.publications
        (exists_row-of-none (λ (p : Publication). p.publication_id == id && not (is_served db id))
          db.publications (λ p. ground (arith, t))) in
    rw none_left refl

-- A deletion that returns true has found no dataset that points at the publication.
deletion_gone :
    (id : ℕ) (db : Database)
    → (delete_publication id db).0 ≡ true
    → find_publication id (delete_publication id db).1 ≡ none
deletion_gone id db h = elim (Bool-cases (is_served db id)) [
  | inl t ↦ absurd (true_ne_false (sym h ∙ served_stays id db t))
  | inr t ↦ deleted_gone id db t
]

-- The end of a cleanup never changes what is served: every route resolves as before, whether a
-- publication was deleted or a dataset still points at it. The call returns true only if the
-- publication is gone.
pub finalize_publication_cleanup_serves :
    (c : PublicationCleanup) (db : Database) {b : Bool} {db' : Database}
    → finalize_publication_cleanup c db ≡ ok (b, db')
    → ((identity : RoutingIdentity)
        → resolve_serving_dataset identity db' ≡ resolve_serving_dataset identity db)
      × (b ≡ true → find_publication c.publication_id db' ≡ none)
unfolding finalize_publication_cleanup
finalize_publication_cleanup_serves c db {b} {db'} e =
    elim (Option-cases (find_publication c.publication_id db)) [
      | inl t ↦
          let e1 = rw (t, finalize_row) at e in
          let q : db ≡ db' = cc in ((λ identity. rw (← q) refl), λ _. rw (← q) t)
      | inr (row, t) ↦
          let e1 = rw (t, finalize_row) at e in
          let done =
            (raise_if-eq-ok (not (same_cleanup c row) || is_none row.retired_at)
              (state_transition "publication cleanup identity differs from durable state")
              (ok (delete_publication c.publication_id db)) e1).1 in
          let q : delete_publication c.publication_id db ≡ (b, db') = cc in
          let q0 = ap (λ r. r.0) q in
          let q1 = ap (λ r. r.1) q in
          (
            (λ identity. rw (← q1) (deletion_serves c.publication_id db identity)),
            λ h. rw (← q1) (deletion_gone c.publication_id db (q0 ∙ h)),
          )
    ]
