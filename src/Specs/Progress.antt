-- ===== src/Specs/Progress.antt =====
-- The transactions on specifications keep the relation `Progress`.
use lance_etl.Common.{
  ℕ, String, ◌≡◌, refl, Error, raise_if, ◌>>◌, Option, none, some, Bool, true, false, arith, ok,
  one, >>=-eq-ok, raise_if-eq-ok, Evolves-update_rows, Keyed-update_rows, update_rows, ◌==◌,
  if◌then◌else◌, Bool-cases, inl, inr,
}
use lance_etl.Types.{RoutingIdentity}
use lance_etl.Types.Ids.{Uuids, deterministic_rebuild_work_id, rebuild_uri, validate_identity}
use lance_etl.Sources.{source_from_row}
use lance_etl.Db.{
  Source, Dataset, SpecRevision, Database, find_dataset, find_source, find_work, insert_work,
}
use lance_etl.Queue.Ingest.{has_open_publication}
use lance_etl.Queue.Publish.{source_for_dataset}
use lance_etl.Queue.Evolution.Progress.{
  Progress, Progress-refl, Progress-trans, DatasetStep, DatasetStep-refl, SourceStep,
  SourceStep-refl, Anything, dataset_key, IsKeyed, works_same, datasets_same, snapshots_same,
  sources_same,
}
use lance_etl.Queue.Evolution.Terminal.{insert_work-Progress}
use lance_etl.Planning.Enqueue.{active_spec_revision_id}
use lance_etl.Specs.{
  rebuild_row, materialized_seq, or_raise, dataset_and_state_for_identity, enqueue_rebuild,
  desiring, desire_revision, converge, or_missing, assign_dataset_spec_revision, defaulting,
  or_no_source, set_source_default_spec, activate_found, activate_spec_revision,
}

desire_revision-Progress :
    (id revision : ℕ) (db : Database) → IsKeyed db → Progress db (desire_revision id revision db)
unfolding desire_revision
desire_revision-Progress id revision db k = record {
  works = works_same db.works;
  datasets =
      Evolves-update_rows DatasetStep Anything _ (desiring revision) DatasetStep-refl
        (λ d e. ground arith) db.datasets;
  snapshots = snapshots_same db.snapshots;
  sources = sources_same db.sources;
  keyed = record {
    works = k.works;
    datasets =
        Keyed-update_rows dataset_key (λ (d : Dataset). d.dataset_id == id) (desiring revision)
          (λ d. refl) db.datasets k.datasets;
  };
}

module _ (u : Uuids) (db : Database) (k : IsKeyed db) where
  -- A REBUILD row that is stored, with what the transaction returns.
  rebuilt-Progress :
      (id : ℕ) (d : Dataset) (seq revision : ℕ) (uri : String) (now : ℕ) {db1 x : Database}
      → insert_work (rebuild_row id d seq revision uri now) db ≡ ok db1
      → x ≡ db1
      → Progress db x
  unfolding rebuild_row
  rebuilt-Progress id d seq revision uri now put q = rw q (
      insert_work-Progress (rebuild_row id d seq revision uri now) db
        (record { token = refl; expiry = refl }) k put)

  returned {ℓ} : {A : Type ℓ} (a : A) (x : Database) {r : A × Database} → ok (a, x) ≡ ok r → r.1 ≡ x
  returned a x e = cc

  checked {ℓ} :
      {A : Type ℓ} (b : Bool) (err : Error) (a : A) (x : Database) {r : A × Database}
      → (raise_if b err >> ok (a, x)) ≡ ok r
      → r.1 ≡ x
  checked b err a x e = let (_, e1) = raise_if-eq-ok b err _ e in cc

  pub enqueue_rebuild-Progress :
      (identity : RoutingIdentity) (request now : ℕ) {r : ℕ × Database}
      → enqueue_rebuild u identity request now db ≡ ok r
      → Progress db r.1
  unfolding enqueue_rebuild
  enqueue_rebuild-Progress identity request now {r} e =
      let (_, _, e1) = >>=-eq-ok (validate_identity identity) _ e in
      let (d, _, e2) = >>=-eq-ok (dataset_and_state_for_identity identity db) _ e1 in
      let (seq, _, e3) = >>=-eq-ok (or_raise (materialized_seq d)) _ e2 in
      let (_, e4) = raise_if-eq-ok _ _ _ e3 in
      let id = deterministic_rebuild_work_id u d.dataset_id request in
      let (source, _, e5) = >>=-eq-ok (source_for_dataset d db) _ e4 in
      let (uri, _, e6) = >>=-eq-ok (rebuild_uri u source.lance_base_uri d.dataset_id id) _ e5 in
      let (db1, put, e7) =
        >>=-eq-ok (insert_work (rebuild_row id d seq d.desired_spec_revision_id uri now) db) _ e6 in
      rebuilt-Progress id d seq d.desired_spec_revision_id uri now put (returned id db1 e7)

  converge-Progress :
      (d : Dataset) (revision : ℕ) (seq : Option ℕ) (now : ℕ) {r : Option ℕ × Database}
      → converge u d revision seq now db ≡ ok r
      → Progress db r.1
  unfolding converge
  converge-Progress d revision none now {r} e =
      let q : r ≡ (none, db) = cc in rw q (Progress-refl db k)
  converge-Progress d revision (some seq) now {r} e =
      elim (Bool-cases (has_open_publication d.dataset_id db)) [
        | inl t ↦ let e1 = rw t at e in let q : r ≡ (none, db) = cc in rw q (Progress-refl db k)
        | inr t ↦
            let e1 = rw t at e in
            let id = deterministic_rebuild_work_id u d.dataset_id revision in
            let (source, _, e5) = >>=-eq-ok (source_for_dataset d db) _ e1 in
            let (uri, _, e6) =
              >>=-eq-ok (rebuild_uri u source.lance_base_uri d.dataset_id id) _ e5 in
            let (db1, put, e7) =
              >>=-eq-ok (insert_work (rebuild_row id d seq revision uri now) db) _ e6 in
            let (stored, _, e8) = >>=-eq-ok (one (find_work id db1)) _ e7 in
            rebuilt-Progress id d seq revision uri now put (checked _ _ (some id) db1 e8)
      ]

  converge_or_keep-Progress :
      (d : Dataset) (revision now : ℕ) (same : Bool) {r : Option ℕ × Database}
      → (if same then ok (none, db) else converge u d revision (materialized_seq d) now db) ≡ ok r
      → Progress db r.1
  converge_or_keep-Progress d revision now true {r} e =
      let q : r ≡ (none, db) = cc in rw q (Progress-refl db k)
  converge_or_keep-Progress d revision now false e =
      converge-Progress d revision (materialized_seq d) now e

pub assign_dataset_spec_revision-Progress :
    (u : Uuids) (id revision now : ℕ) (db : Database) {r : Option ℕ × Database}
    → IsKeyed db
    → assign_dataset_spec_revision u id revision now db ≡ ok r
    → Progress db r.1
unfolding assign_dataset_spec_revision
assign_dataset_spec_revision-Progress u id revision now db {r} k e =
    let (d, _, e1) = >>=-eq-ok (or_missing (find_dataset id db)) _ e in
    let (_, e2) = raise_if-eq-ok _ _ _ e1 in
    let p1 = desire_revision-Progress id revision db k in
    Progress-trans db (desire_revision id revision db) _ p1
      (converge_or_keep-Progress u (desire_revision id revision db) p1.keyed d revision now _ e2)

pub set_source_default_spec-Progress :
    (source_id spec_id : ℕ) (db : Database) {db' : Database}
    → IsKeyed db
    → set_source_default_spec source_id spec_id db ≡ ok db'
    → Progress db db'
unfolding set_source_default_spec
set_source_default_spec-Progress source_id spec_id db {db'} k e =
    let (_, _, e1) = >>=-eq-ok (or_no_source (find_source source_id db)) _ e in
    let (_, _, e2) = >>=-eq-ok (active_spec_revision_id spec_id db) _ e1 in
    let db1 : Database = record db {
      sources =
          update_rows (λ (s : Source). s.source_id == source_id) (defaulting spec_id) db.sources;
    } in
    let (updated, _, e3) = >>=-eq-ok (one (find_source source_id db1)) _ e2 in
    let (_, _, e4) = >>=-eq-ok (source_from_row updated) _ e3 in
    let q : db1 ≡ db' = cc in
    rw (← q) (record {
      works = works_same db.works;
      datasets = datasets_same db.datasets;
      snapshots = snapshots_same db.snapshots;
      sources =
          Evolves-update_rows SourceStep Anything _ (defaulting spec_id) SourceStep-refl
            (λ s e. ground arith) db.sources;
      keyed = record { works = k.works; datasets = k.datasets };
    })

activate_found-Progress :
    (found : Option SpecRevision) (revision now : ℕ) (db : Database) {x : Database}
    → IsKeyed db
    → activate_found found revision now db ≡ ok x
    → Progress db x
unfolding activate_found
activate_found-Progress none revision now db k e = cc
activate_found-Progress (some candidate) revision now db {x} k e =
    let ws : x.works ≡ db.works = ground arith in
    let ds : x.datasets ≡ db.datasets = ground arith in
    let ss : x.snapshots ≡ db.snapshots = ground arith in
    let os : x.sources ≡ db.sources = ground arith in
    record {
      works = rw ws (works_same db.works);
      datasets = rw ds (datasets_same db.datasets);
      snapshots = rw ss (snapshots_same db.snapshots);
      sources = rw os (sources_same db.sources);
      keyed = record { works = rw ws k.works; datasets = rw ds k.datasets };
    }

pub activate_spec_revision-Progress :
    (revision now : ℕ) (db : Database) {db' : Database}
    → IsKeyed db
    → activate_spec_revision revision now db ≡ ok db'
    → Progress db db'
unfolding activate_spec_revision
activate_spec_revision-Progress revision now db k e = activate_found-Progress _ revision now db k e
