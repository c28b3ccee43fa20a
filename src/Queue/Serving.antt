-- ===== src/Queue/Serving.antt =====
-- What a publication serves, and what the serving catalog returns.
use lance_etl.Common.{
  ℕ, ◌≡◌, refl, ap, ◌∙◌, Option, none, some, Bool, true, false, ◌||◌, not, arith, String, List, [],
  ◌∷◌, ◌++◌, Result, ok, >>=-eq-ok, raise_if-eq-ok, update_rows, find_row, find_row-update_rows,
  find_row-snoc, find_row-matches, find_row-Evolves, Evolves, Evolves-update_rows, Evolves-refl,
  str_eq, eq_iff, opt_eq, opt_nat_eq→eq, nat_eq, ◌==◌, ==_refl, ==→eq, Bool-cases, Option-cases,
  inl, inr, ℤ, pos_part,
}
use lance_etl.Types.{Bytes, WorkClaim, RoutingIdentity}
use lance_etl.Types.Ids.{Uuids, deterministic_publication_id, validate_identity}
use lance_etl.Types.Evidence.{PublicationEvidence}
use lance_etl.Db.{Work, Dataset, Publication, Database, find_work, find_dataset, find_publication}
use lance_etl.Queue.{locked_lease_matches}
use lance_etl.Queue.Ingest.{with_locked}
use lance_etl.Queue.Publish.{
  Candidate, publication_row, retired, retire_previous, served, swap_pointer, publish_live,
  publish_locked, publish_dataset, validate_completed_publication, validate_publication_request,
  validate_live_publication, validate_publication_indexes, ServingDataset, on_route, points_at,
  same_output, serving_rows, serving_result, resolve_serving_dataset,
}
use lance_etl.Queue.Evolution.Progress.{dataset_key, Anything}

-- The dataset's pointer names a publication of exactly this generation.
pub record Serves (id dataset_id : ℕ) (uri : String) (version : ℕ) (db : Database) : Type 0 where
  pub dataset : Dataset
  pub publication : Publication
  pub found_dataset : find_dataset dataset_id db ≡ some dataset
  pub found_publication : find_publication id db ≡ some publication
  pub pointer : dataset.active_publication_id ≡ some id
  pub exact_uri : publication.lance_uri ≡ uri
  pub exact_version : publication.lance_version ≡ version

record SameOutput (p q : Publication) : Type 0 where
  publication_id : q.publication_id ≡ p.publication_id
  lance_uri : q.lance_uri ≡ p.lance_uri
  lance_version : q.lance_version ≡ p.lance_version

retire_previous-SameOutput :
    (previous : Option ℕ) (now : ℕ) (rows : List Publication) {rows' : List Publication}
    → retire_previous previous now rows ≡ ok rows'
    → Evolves SameOutput Anything rows rows'
unfolding retire_previous
retire_previous-SameOutput none now rows {rows'} e =
    let q : rows' ≡ rows = cc in rw q (Evolves-refl SameOutput Anything (λ p. ground arith) rows)
retire_previous-SameOutput (some previous) now rows {rows'} e =
    let q : rows'
        ≡ update_rows (λ (p : Publication). p.publication_id == previous) (retired now) rows =
      ground arith in
    rw q (
      Evolves-update_rows SameOutput Anything (λ (p : Publication). p.publication_id == previous)
        (retired now) (λ p. ground arith) (λ p _. ground arith) rows)

state_same :
    (b : Bool) (x y : Database) → ◌≡◌ {A = Result (Bool × Database)} (ok (b, x)) (ok (b, y)) → y ≡ x
state_same b x y e = cc

-- What the check of a replay has compared.
completed_same :
    (p : Publication) (d : Dataset) (c : Candidate) (db : Database)
    → validate_completed_publication p d c db ≡ ok tt
    → (d.active_publication_id ≡ some p.publication_id)
      × (p.lance_uri ≡ c.lance_uri)
      × (p.lance_version ≡ c.lance_version)
unfolding validate_completed_publication
completed_same p d c db e =
    let (h, _) =
      raise_if-eq-ok
        (not (same_output p c)
          || not (opt_eq nat_eq d.active_publication_id (some p.publication_id)))
        _ _ e in
    let q : str_eq p.lance_uri c.lance_uri ≡ true = ground arith in
    (opt_nat_eq→eq _ _ (ground arith), (eq_iff _ _).0 q, ground arith)

module _ (u : Uuids) (claim : WorkClaim) (id : ℕ) (c : Candidate) (now : ℕ) (db : Database) where
  swap_pointer-Serves :
      (w : Work) (d : Dataset) (seq : ℕ) {db1 : Database}
      → find_dataset claim.dataset_id db ≡ some d
      → find_publication id db ≡ none
      → swap_pointer claim w d id seq c now db ≡ ok db1
      → Serves id claim.dataset_id c.lance_uri c.lance_version db1
  unfolding swap_pointer find_dataset find_publication
  swap_pointer-Serves w d seq {db1} fd fp e =
      let row = publication_row id claim w seq c now in
      let retire : retire_previous d.active_publication_id now (db.publications ++ row ∷ [])
          ≡ ok db1.publications =
        ground arith in
      let ds : db1.datasets
          ≡ update_rows (λ (x : Dataset). x.dataset_id == claim.dataset_id) (served claim w c id)
              db.datasets =
        ground arith in
      let (p, found, same) =
        find_row-Evolves SameOutput Anything (λ p. p.publication_id) (λ x y s. s.publication_id) id
          (db.publications ++ row ∷ []) db1.publications
          (retire_previous-SameOutput d.active_publication_id now (db.publications ++ row ∷ [])
            retire)
          (find_row-snoc (λ (x : Publication). x.publication_id) id
            (λ (x : Publication). x.publication_id == id) db.publications row fp
            (unfold publication_row in ==_refl id)) in
      record {
        dataset = served claim w c id d;
        publication = p;
        found_dataset = rw ds (
            find_row-update_rows dataset_key claim.dataset_id (served claim w c id) db.datasets
              (λ x. unfold served in ground arith) fd);
        found_publication = found;
        pointer = unfold served in ground arith;
        exact_uri = unfold publication_row in same.lance_uri;
        exact_version = unfold publication_row in same.lance_version;
      }

  publish_live-Serves :
      (w : Work) (d : Dataset) {db1 : Database}
      → find_dataset claim.dataset_id db ≡ some d
      → find_publication id db ≡ none
      → publish_live u claim w d id c now db ≡ ok (true, db1)
      → Serves id claim.dataset_id c.lance_uri c.lance_version db1
  unfolding publish_live
  publish_live-Serves w d {db1} fd fp e = elim (Bool-cases (locked_lease_matches w d claim now)) [
    | inr t ↦ absurd (ground (arith, t))
    | inl t ↦
        let e1 = rw (t, publish_live) at e in
        let (seq, _, e2) =
          >>=-eq-ok (validate_live_publication u claim w d c.lance_uri c.lance_version db) _ e1 in
        let (_, _, e3) =
          >>=-eq-ok (validate_publication_indexes w.spec_revision_id c.evidence db) _ e2 in
        let (db2, swap, e4) = >>=-eq-ok (swap_pointer claim w d id seq c now db) _ e3 in
        rw (state_same true db2 db1 e4) (swap_pointer-Serves w d seq fd fp swap)
  ]

  publish_locked-Serves :
      (op : Option Publication) (ow : Option Work) (od : Option Dataset) {db1 : Database}
      → find_publication id db ≡ op
      → find_dataset claim.dataset_id db ≡ od
      → with_locked ow od (ok (false, db)) (λ w d. publish_locked u claim w d id op c now db)
        ≡ ok (true, db1)
      → Serves id claim.dataset_id c.lance_uri c.lance_version db1
  unfolding find_publication
  publish_locked-Serves op none od fp fd e = absurd (ground arith)
  publish_locked-Serves op (some w) none fp fd e = absurd (ground arith)
  publish_locked-Serves none (some w) (some d) fp fd e = publish_live-Serves w d fd fp e
  publish_locked-Serves (some p) (some w) (some d) {db1} fp fd e =
      let (_, v, e1) = >>=-eq-ok (validate_completed_publication p d c db) _ e in
      let (a, b, g) = completed_same p d c db v in
      let key =
        ==→eq _ _
          (find_row-matches (λ (x : Publication). x.publication_id == id) db.publications fp) in
      rw (state_same true db db1 e1) (record {
        dataset = d;
        publication = p;
        found_dataset = fd;
        found_publication = fp;
        pointer = a ∙ ap some key;
        exact_uri = b;
        exact_version = g;
      })

-- A publication that returns true, fresh or replayed, leaves the dataset's serving pointer on the
-- publication of the claimed work, whose generation is exactly the one of the call.
pub publish_dataset-Serves :
    (u : Uuids) (claim : WorkClaim) (uri : String) (version : ℤ) (manifest : String)
    (digest : Bytes) (evidence : PublicationEvidence) (now : ℕ) (db : Database) {db1 : Database}
    → publish_dataset u claim uri version manifest digest evidence now db ≡ ok (true, db1)
    → Serves
        (deterministic_publication_id u claim.work_id)
        claim.dataset_id
        uri
        (pos_part version)
        db1
unfolding publish_dataset
publish_dataset-Serves u claim uri version manifest digest evidence now db e =
    let (_, _, e1) =
      >>=-eq-ok (validate_publication_request claim version manifest digest evidence) _ e in
    let id = deterministic_publication_id u claim.work_id in
    publish_locked-Serves u claim id
      (record {
        lance_uri = uri;
        lance_version = pos_part version;
        manifest_uri = manifest;
        manifest_digest = digest;
        evidence = evidence;
      })
      now db (find_publication id db) (find_work claim.work_id db)
      (find_dataset claim.dataset_id db) refl refl e1

-- The served row of a route stands among the rows of the catalog.
serving_rows-holds :
    (identity : RoutingIdentity) (db : Database) (ds : List Dataset) (id : ℕ) (d : Dataset)
    (p : Publication)
    → find_row (λ (x : Dataset). x.dataset_id == id) ds ≡ some d
    → on_route identity db d ≡ true
    → find_row (points_at d) db.publications ≡ some p
    → (pre : List (Dataset × Publication)) × (post : List (Dataset × Publication)) × (serving_rows
          identity db ds
        ≡ pre ++ (d, p) ∷ post)
unfolding serving_rows
serving_rows-holds identity db [] id d p f r g = cc
serving_rows-holds identity db (x ∷ ds) id d p f r g = elim (Bool-cases (x.dataset_id == id)) [
  | inl t ↦
      let q : x ≡ d = ground (arith, t) in
      let r' : on_route identity db x ≡ true = rw q r in
      let g' : find_row (points_at x) db.publications ≡ some p = rw q g in
      rw (r', g')
        ([], serving_rows identity db ds, ap (λ y. (y, p) ∷ serving_rows identity db ds) q)
  | inr t ↦
      let (pre, post, e) = serving_rows-holds identity db ds id d p (ground (arith, t)) r g in
      elim (Bool-cases (on_route identity db x)) [
        | inr off ↦ rw off (pre, post, e)
        | inl on ↦ elim (Option-cases (find_row (points_at x) db.publications)) [
          | inl miss ↦ rw (on, miss) (pre, post, e)
          | inr (q, hit) ↦ rw (on, hit) ((x, q) ∷ pre, post, ap (λ l. (x, q) ∷ l) e)
        ]
      ]
]

one_of :
    (identity : RoutingIdentity) (pre post : List (Dataset × Publication)) (d : Dataset)
    (p : Publication) {r : Option ServingDataset}
    → serving_result identity (pre ++ (d, p) ∷ post) ≡ ok r
    → r
      ≡ some (record {
        dataset_id = d.dataset_id;
        identity = identity;
        lance_uri = p.lance_uri;
        lance_version = p.lance_version;
        publication_id = p.publication_id;
      })
unfolding serving_result
one_of identity [] [] d p e = cc
one_of identity [] (x ∷ post) d p e = absurd (ground arith)
one_of identity (x ∷ []) post d p e = absurd (ground arith)
one_of identity (x ∷ y ∷ pre) post d p e = absurd (ground arith)

-- If a dataset is on the route, active and of an active source, and its pointer names a
-- publication of its own, then a lookup of the route that returns returns exactly the generation
-- of that publication, and never nothing.
pub resolve_serving_dataset_exact :
    (identity : RoutingIdentity) (db : Database) (id : ℕ) (d : Dataset) (p : Publication)
    {r : Option ServingDataset}
    → find_dataset id db ≡ some d
    → on_route identity db d ≡ true
    → find_row (points_at d) db.publications ≡ some p
    → resolve_serving_dataset identity db ≡ ok r
    → r
      ≡ some (record {
        dataset_id = d.dataset_id;
        identity = identity;
        lance_uri = p.lance_uri;
        lance_version = p.lance_version;
        publication_id = p.publication_id;
      })
unfolding find_dataset resolve_serving_dataset
resolve_serving_dataset_exact identity db id d p f on g e =
    let (_, _, e1) = >>=-eq-ok (validate_identity identity) _ e in
    let (pre, post, q) = serving_rows-holds identity db db.datasets id d p f on g in
    one_of identity pre post d p (rw q at e1)
