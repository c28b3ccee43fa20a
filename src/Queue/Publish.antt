-- ===== src/Queue/Publish.antt =====
-- state/repository.py: the publication of a qualified candidate, and the serving pointer.
use lance_etl.Common.{
  ℕ, String, Bool, true, false, ◌&&◌, ◌||◌, not, Option, none, some, List, [], ◌∷◌, ◌++◌, map,
  Result, ok, err, value_error, state_transition, integrity, one, raise_if, ◌>>=◌, ◌>>◌, ◌==◌, ltb,
  nat_eq, str_eq, opt_eq, length, select, find_row, same_dict, update_rows, exists_row,
  if◌then◌else◌, ℤ, is_negative, pos_part,
}
use lance_etl.Types.{
  Bytes, WorkState, WorkPhase, WorkClaim, RoutingIdentity, is_publish, is_rebuild, is_active,
  is_active_source,
}
use lance_etl.Types.Ids.{
  Uuids, deterministic_publication_id, dataset_uri_matches_root, validate_identity,
}
use lance_etl.Types.Evidence.{
  IndexType, PublicationIndexEvidence, PublicationEvidence, validate_evidence, eq_ℤ,
}
use lance_etl.Sources.{source_from_row}
use lance_etl.Db.{
  Work, Dataset, Source, Publication, PublicationIndex, IndexRow, Database, find_work, find_dataset,
  find_source, find_publication,
}
use lance_etl.Queue.{assert_expectations_match, locked_lease_matches}
use lance_etl.Queue.Ingest.{bytes_eq, with_locked}

abbrev type_rank : IndexType → ℕ
type_rank IndexType.btree = 0
type_rank IndexType.bitmap = 1
type_rank IndexType.zonemap = 2
type_rank IndexType.inverted = 3
type_rank IndexType.ivf_rq = 4

abbrev is_blank_text : String → Bool
is_blank_text s = str_eq s ""

unfoldable pub validate_publication_request :
    WorkClaim → ℤ → String → Bytes → PublicationEvidence → Result (Unit {0})
unfolding validate_evidence
validate_publication_request claim candidate_lance_version artifact_manifest_uri artifact_digest
      evidence =
    do
      raise_if (not (is_publish claim.kind || is_rebuild claim.kind))
          (value_error "publication requires PUBLISH or REBUILD work")
      raise_if
          (is_negative candidate_lance_version
            || is_blank_text artifact_manifest_uri
            || not (length artifact_digest == 32))
          (value_error "publication requires exact version and immutable 32-byte artifact evidence")
      _ ← validate_evidence evidence
      ok tt

abbrev configured_as : IndexRow → PublicationIndexEvidence → Bool
configured_as row item =
    row.index_definition_id == item.index_definition_id
    && type_rank row.index_type == type_rank item.actual_index_type

unfoldable pub validate_publication_indexes : ℕ → PublicationEvidence → Database → Result (Unit {0})
validate_publication_indexes spec_revision_id evidence db =
    raise_if
      (not (
        same_dict configured_as
          (select (λ (row : IndexRow). row.spec_revision_id == spec_revision_id)
            db.index_definitions)
          evidence.indexes))
      (state_transition "publication index evidence differs from the frozen specification")

abbrev stored_as : PublicationIndex → PublicationIndexEvidence → Bool
stored_as row item =
    row.evidence.index_definition_id == item.index_definition_id
    && type_rank row.evidence.actual_index_type == type_rank item.actual_index_type
    && eq_ℤ row.evidence.indexed_fragment_count item.indexed_fragment_count
    && eq_ℤ row.evidence.unindexed_fragment_count item.unindexed_fragment_count
    && opt_eq bytes_eq row.evidence.artifact_generation_digest item.artifact_generation_digest

-- The exact outputs of a qualified candidate.
pub record Candidate : Type 0 where
  pub lance_uri : String
  pub lance_version : ℕ
  pub manifest_uri : String
  pub manifest_digest : Bytes
  pub evidence : PublicationEvidence

abbrev pub same_output : Publication → Candidate → Bool
same_output row c =
    str_eq row.lance_uri c.lance_uri
    && row.lance_version == c.lance_version
    && str_eq row.manifest_uri c.manifest_uri
    && bytes_eq row.manifest_digest c.manifest_digest
    && bytes_eq row.schema_digest c.evidence.schema_digest
    && row.total_row_count == pos_part c.evidence.total_row_count
    && row.distinct_row_count == pos_part c.evidence.distinct_row_count
    && row.live_row_count == pos_part c.evidence.live_row_count
    && row.distinct_live_row_count == pos_part c.evidence.distinct_live_row_count
    && row.fragment_count == pos_part c.evidence.fragment_count

unfoldable pub validate_completed_publication :
    Publication → Dataset → Candidate → Database → Result (Unit {0})
validate_completed_publication row d c db = do
  raise_if
      (not (same_output row c)
        || not (opt_eq nat_eq d.active_publication_id (some row.publication_id)))
      (state_transition "completed publication replay differs from durable output")
  raise_if
      (not (
        same_dict stored_as
          (select (λ (i : PublicationIndex). i.publication_id == row.publication_id)
            db.publication_indexes)
          c.evidence.indexes))
      (state_transition "completed publication index evidence differs")

-- The join of `source_for_dataset`, on the locked dataset row.
unfoldable pub source_for_dataset : Dataset → Database → Result Source
source_for_dataset d db = do source ← one (find_source d.source_id db); source_from_row source

-- stored_candidate[0] is not None and stored_candidate != (uri, version)
abbrev candidate_differs : Option String → Option ℕ → String → ℕ → Bool
candidate_differs none stored uri version = false
candidate_differs (some stored_uri) stored uri version =
    not (str_eq stored_uri uri && opt_eq nat_eq stored (some version))

unfoldable pub validate_live_publication :
    Uuids → WorkClaim → Work → Dataset → String → ℕ → Database → Result ℕ
unfolding source_for_dataset
validate_live_publication u claim w d candidate_lance_uri candidate_lance_version db = do
  assert_expectations_match w d "publication expectations no longer match dataset state"
  source ← source_for_dataset d db
  owned ← dataset_uri_matches_root u source.lance_base_uri claim.dataset_id candidate_lance_uri
  raise_if (not owned) (state_transition "candidate URI is outside the source-owned Lance root")
  raise_if
      (candidate_differs w.candidate_lance_uri w.candidate_lance_version candidate_lance_uri
        candidate_lance_version)
      (state_transition "qualified candidate differs from the checkpointed generation")
  ok w.source_snapshot_seq

unfoldable pub publication_row : ℕ → WorkClaim → Work → ℕ → Candidate → ℕ → Publication
publication_row publication_id claim w seq c current = record {
  publication_id = publication_id;
  dataset_id = claim.dataset_id;
  work_id = claim.work_id;
  spec_revision_id = w.spec_revision_id;
  source_snapshot_seq = seq;
  lance_uri = c.lance_uri;
  lance_version = c.lance_version;
  schema_digest = c.evidence.schema_digest;
  total_row_count = pos_part c.evidence.total_row_count;
  distinct_row_count = pos_part c.evidence.distinct_row_count;
  live_row_count = pos_part c.evidence.live_row_count;
  distinct_live_row_count = pos_part c.evidence.distinct_live_row_count;
  fragment_count = pos_part c.evidence.fragment_count;
  manifest_uri = c.manifest_uri;
  manifest_digest = c.manifest_digest;
  published_at = current;
  retired_at = none;
}

-- uq_dataset_publications_work and uq_dataset_publications_version
abbrev clashes : Publication → Publication → Bool
clashes p q =
    p.work_id == q.work_id
    || (p.dataset_id == q.dataset_id
        && str_eq p.lance_uri q.lance_uri
        && p.lance_version == q.lance_version)

abbrev pub retired : ℕ → Publication → Publication
retired current p = record p { retired_at = some current }

-- `previous_publication_id is not None` and the UPDATE that follows, with the CHECK constraint
-- ck_dataset_publications_retired_after_publish.
unfoldable pub retire_previous : Option ℕ → ℕ → List Publication → Result (List Publication)
retire_previous none current rows = ok rows
retire_previous (some previous) current rows = do
  raise_if
      (exists_row (λ (p : Publication). p.publication_id == previous && ltb current p.published_at)
        rows)
      (integrity "ck_dataset_publications_retired_after_publish")
  ok (update_rows (λ (p : Publication). p.publication_id == previous) (retired current) rows)

-- `state_values` of `publish_dataset`: a REBUILD moves the ingest pointer too.
unfoldable pub served : WorkClaim → Work → Candidate → ℕ → Dataset → Dataset
served claim w c publication_id d =
    let d' = record d { active_publication_id = some publication_id } in
    if is_rebuild claim.kind
    then record d' {
      ingest_lance_uri = c.lance_uri;
      ingest_lance_version = some c.lance_version;
      materialized_spec_revision_id = some w.spec_revision_id;
    }
    else d'

abbrev pub published : Candidate → ℕ → Work → Work
published c current w = record w {
  state = WorkState.succeeded;
  phase = WorkPhase.publish;
  lease_token = none;
  lease_expires_at = none;
  candidate_lance_uri = some c.lance_uri;
  candidate_lance_version = some c.lance_version;
  artifact_manifest_uri = some c.manifest_uri;
  artifact_digest = some c.manifest_digest;
  updated_at = current;
}

-- The statements after the checks.
unfoldable pub swap_pointer :
    WorkClaim → Work → Dataset → ℕ → ℕ → Candidate → ℕ → Database → Result Database
unfolding publication_row retire_previous
swap_pointer claim w d publication_id seq c current db = do
  let row = publication_row publication_id claim w seq c current
  raise_if (exists_row (clashes row) db.publications)
      (integrity "unique constraint of dataset_publications")
  publications ← retire_previous d.active_publication_id current (db.publications ++ row ∷ [])
  ok (record db {
    publications = publications;
    publication_indexes =
        db.publication_indexes
        ++ map
            (λ (item : PublicationIndexEvidence).
              let i : PublicationIndex = record {
                publication_id = publication_id;
                spec_revision_id = w.spec_revision_id;
                evidence = item;
              } in
              i)
            c.evidence.indexes;
    datasets =
        update_rows (λ (x : Dataset). x.dataset_id == claim.dataset_id)
          (served claim w c publication_id) db.datasets;
    works = update_rows (λ (v : Work). v.work_id == claim.work_id) (published c current) db.works;
  })

unfoldable pub publish_live :
    Uuids → WorkClaim → Work → Dataset → ℕ → Candidate → ℕ → Database → Result (Bool × Database)
publish_live u claim w d publication_id c current db =
    if not (locked_lease_matches w d claim current) then ok (false, db) else do
      seq ← validate_live_publication u claim w d c.lance_uri c.lance_version db
      validate_publication_indexes w.spec_revision_id c.evidence db
      db' ← swap_pointer claim w d publication_id seq c current db
      ok (true, db')

abbrev pub publish_locked :
    Uuids
    → WorkClaim
    → Work
    → Dataset
    → ℕ
    → Option Publication
    → Candidate
    → ℕ
    → Database
    → Result (Bool × Database)
publish_locked u claim w d publication_id (some row) c current db = do
  validate_completed_publication row d c db
  ok (true, db)
publish_locked u claim w d publication_id none c current db =
    publish_live u claim w d publication_id c current db

unfoldable pub publish_dataset :
    Uuids
    → WorkClaim
    → String
    → ℤ
    → String
    → Bytes
    → PublicationEvidence
    → ℕ
    → Database
    → Result (Bool × Database)
publish_dataset u claim uri version manifest_uri manifest_digest evidence current db = do
  validate_publication_request claim version manifest_uri manifest_digest evidence
  let publication_id = deterministic_publication_id u claim.work_id
  let c : Candidate = record {
    lance_uri = uri;
    lance_version = pos_part version;
    manifest_uri = manifest_uri;
    manifest_digest = manifest_digest;
    evidence = evidence;
  }
  with_locked (find_work claim.work_id db) (find_dataset claim.dataset_id db) (ok (false, db))
      (λ w d.
        publish_locked u claim w d publication_id (find_publication publication_id db) c current db)

-- The exact active result of the serving catalog.
pub record ServingDataset : Type 0 where
  pub dataset_id : ℕ
  pub identity : RoutingIdentity
  pub lance_uri : String
  pub lance_version : ℕ
  pub publication_id : ℕ

abbrev pub same_route : RoutingIdentity → RoutingIdentity → Bool
same_route a b =
    str_eq a.tenant_id b.tenant_id && str_eq a.namespace b.namespace && str_eq a.org_id b.org_id

abbrev source_active : Option Source → Bool
source_active none = false
source_active (some s) = is_active_source s.lifecycle_state

-- The rows of an active dataset of an active source on the route.
unfoldable pub on_route : RoutingIdentity → Database → Dataset → Bool
unfolding find_source
on_route identity db d =
    same_route d.identity identity
    && is_active d.lifecycle_state
    && source_active (find_source d.source_id db)

abbrev pub points_at : Dataset → Publication → Bool
points_at d p =
    p.dataset_id == d.dataset_id && opt_eq nat_eq d.active_publication_id (some p.publication_id)

-- The join of `datasets` with the active row of `dataset_publications`.
unfoldable pub serving_rows :
    RoutingIdentity → Database → List Dataset → List (Dataset × Publication)
serving_rows identity db [] = []
serving_rows identity db (d ∷ ds) =
    let rest = serving_rows identity db ds in
    if on_route identity db d
    then elim (find_row (points_at d) db.publications) [ none ↦ rest | some p ↦ (d, p) ∷ rest ]
    else rest

unfoldable pub serving_result :
    RoutingIdentity → List (Dataset × Publication) → Result (Option ServingDataset)
serving_result identity [] = ok none
serving_result identity ((d, p) ∷ []) = ok (
    some (record {
      dataset_id = d.dataset_id;
      identity = identity;
      lance_uri = p.lance_uri;
      lance_version = p.lance_version;
      publication_id = p.publication_id;
    }))
serving_result identity (a ∷ b ∷ rest) =
    err (state_transition "serving route is ambiguous across active sources")

unfoldable pub resolve_serving_dataset : RoutingIdentity → Database → Result (Option ServingDataset)
unfolding serving_rows serving_result
resolve_serving_dataset identity db = do
  _ ← validate_identity identity
  serving_result identity (serving_rows identity db db.datasets)
