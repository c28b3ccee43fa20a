-- ===== src/Retention/Cleanup.antt =====
-- state/repository.py: which publications a cleanup is given.
use lance_etl.Common.{
  ℕ, String, ◌+◌, ◌≤◌, ◌≡◌, subst, refl, Bool, true, false, Option, none, some, List, [], ◌∷◌,
  arith, ok, ◌>>=◌, >>=-eq-ok, raise_if-eq-ok, All, All-take, All-zip, All-select_of, All-select,
  All-sort_by, Keyed, Keyed-found, length, length-take, take, select, sort_by, count_rows, ==_refl,
  leb→le, str_eq_refl, ℤ, pos_part,
}
use lance_etl.Db.{Publication, SpecRevision, Database, find_publication}
use lance_etl.Retention.{
  PublicationCleanup, candidate_pin_name, cleanup_of, cleanups_of, is_removable, removable_under,
  retention_over, publication_rank, ranked_before, revision_of, is_served, retired_before,
  claim_publication_cleanup, same_cleanup,
}

abbrev pub publication_key : Publication → ℕ
publication_key p = p.publication_id

module _ (tie : Publication → Publication → Bool) (current : ℕ) (db : Database) where
  -- The stored row of the cleanup: retired for the retention of its revision, behind as many
  -- publications of its dataset as the revision retains, and no dataset's active publication.
  pub record IsDisposable (c : PublicationCleanup) : Type 0 where
    pub row : Publication
    pub revision : SpecRevision
    pub retired_at : ℕ
    pub stored : find_publication c.publication_id db ≡ some row
    pub same : same_cleanup c row ≡ true
    pub retired : row.retired_at ≡ some retired_at
    pub revised : revision_of db row ≡ some revision
    pub over : retired_at + revision.artifact_retention ≤ current
    pub behind :
        revision.retained_publications ≤ count_rows (ranked_before tie db row) db.publications
    pub unserved : is_served db c.publication_id ≡ false

  over_by :
      (o : Option ℕ) (retention : ℕ)
      → retention_over o retention current ≡ true
      → (t : ℕ) × ((o ≡ some t) × (t + retention ≤ current))
  over_by none retention h = cc
  over_by (some t) retention h = (t, (refl, leb→le _ _ h))

  IsDisposable-by :
      (p : Publication) (c : PublicationCleanup) (r : Option SpecRevision)
      → revision_of db p ≡ r
      → removable_under tie current db p r ≡ true
      → find_publication c.publication_id db ≡ some p
      → same_cleanup c p ≡ true
      → p.publication_id ≡ c.publication_id
      → IsDisposable c
  unfolding publication_rank
  IsDisposable-by p c none q h stored same k = cc
  IsDisposable-by p c (some r) q h stored same k =
      let (t, (retired, over)) = over_by p.retired_at r.artifact_retention (ground (arith, h)) in
      record {
        row = p;
        revision = r;
        retired_at = t;
        stored = stored;
        same = same;
        retired = retired;
        revised = q;
        over = over;
        behind = ground (arith, h);
        unserved = rw (← k) (ground (arith, h));
      }

  of_row :
      (hex : ℕ → String) (p : Publication) {c : PublicationCleanup}
      → is_removable tie current db p ≡ true
      → find_publication p.publication_id db ≡ some p
      → cleanup_of hex p ≡ ok c
      → IsDisposable c
  unfolding cleanup_of is_removable
  of_row hex p {c} h stored e =
      let (pin, _, made) =
        >>=-eq-ok (candidate_pin_name hex p.work_id)
          (λ pin. ok (record {
            publication_id = p.publication_id;
            work_id = p.work_id;
            dataset_id = p.dataset_id;
            lance_uri = p.lance_uri;
            lance_version = p.lance_version;
            manifest_uri = p.manifest_uri;
            pin_name = pin;
          }))
          e in
      let q : record {
        publication_id = p.publication_id;
        work_id = p.work_id;
        dataset_id = p.dataset_id;
        lance_uri = p.lance_uri;
        lance_version = p.lance_version;
        manifest_uri = p.manifest_uri;
        pin_name = pin;
      }
          ≡ c =
        cc in
      subst IsDisposable q (
        IsDisposable-by p _ (revision_of db p) refl h stored
          (rw
            (
              ==_refl p.work_id,
              ==_refl p.dataset_id,
              str_eq_refl p.lance_uri,
              ==_refl p.lance_version,
              str_eq_refl p.manifest_uri,
            )
            refl)
          refl)

  of_rows :
      (hex : ℕ → String) (ps : List Publication) {cs : List PublicationCleanup}
      → All
          (λ p.
            (is_removable tie current db p ≡ true)
            × (find_publication p.publication_id db ≡ some p))
          ps
      → cleanups_of hex ps ≡ ok cs
      → (length cs ≡ length ps) × All IsDisposable cs
  unfolding cleanups_of
  of_rows hex [] {cs} h e = let q : [] ≡ cs = cc in rw (← q) (refl, tt)
  of_rows hex (p ∷ ps) {cs} h e =
      let (c, one_made, e1) =
        >>=-eq-ok (cleanup_of hex p) (λ c. cleanups_of hex ps >>= λ rest. ok (c ∷ rest)) e in
      let (rest, made, e2) = >>=-eq-ok (cleanups_of hex ps) (λ rest. ok (c ∷ rest)) e1 in
      let q : c ∷ rest ≡ cs = cc in
      let (n, all_rest) = of_rows hex ps h.1 made in
      rw (← q) (rw n refl, (of_row hex p h.0.0 h.0.1 one_made, all_rest))

  -- A cleanup batch holds at most `limit` publications, under unique publication keys, and each is
  -- stored, no dataset's active publication, retired for at least the retention of its revision, and
  -- preceded by as many publications of its dataset as its revision retains.
  pub claim_publication_cleanup-IsDisposable :
      (hex : ℕ → String) (limit : ℤ) {cs : List PublicationCleanup}
      → Keyed publication_key db.publications
      → claim_publication_cleanup tie hex current limit db ≡ ok cs
      → (length cs ≤ pos_part limit) × All IsDisposable cs
  unfolding claim_publication_cleanup find_publication
  claim_publication_cleanup-IsDisposable hex limit {cs} k e =
      let removable = is_removable tie current db in
      let rows =
        take (pos_part limit) (sort_by retired_before (select removable db.publications)) in
      let made = (raise_if-eq-ok _ _ (cleanups_of hex rows) e).1 in
      let found = λ (p : Publication). find_publication p.publication_id db ≡ some p in
      let both = λ (p : Publication). (removable p ≡ true) × found p in
      let selected =
        All-zip (λ p. removable p ≡ true) found (select removable db.publications)
          (All-select (λ p. removable p ≡ true) removable (λ p h. h) db.publications)
          (All-select_of found removable db.publications
            (Keyed-found publication_key db.publications k)) in
      let (n, disposable) =
        of_rows hex rows
          (All-take both (pos_part limit) _ (All-sort_by retired_before both _ selected)) made in
      (
        rw n (
            length-take (pos_part limit)
              (sort_by retired_before (select removable db.publications))),
        disposable,
      )
