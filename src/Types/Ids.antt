-- ===== src/Types/Ids.antt =====
-- The identities and locations that state/types.py derives, the segments of routing.py, and the
-- URI layouts that state/repository.py accepts. `uuid.uuid5`, `str` of a UUID and of an integer,
-- and `uuid.UUID` of a text are parameters.
use Prim.Native.Char.{code}
use Prim.Native.String.{[], ◌∷◌, ◌++◌}
use lance_etl.Common.{
  ℕ, suc, String, Bool, true, false, ◌&&◌, ◌||◌, not, Option, none, some, Result, ok, value_error,
  raise_if, ◌>>=◌, ◌>>◌, ltb, leb, ◌==◌, str_eq, if◌then◌else◌,
}
use lance_etl.Types.{RoutingIdentity}

-- len(value)
abbrev pub str_len : String → ℕ
str_len [] = 0
str_len (c ∷ s) = suc (str_len s)

abbrev pub segment_char : ℕ → Bool
segment_char c =
    leb b'A' c && leb c b'Z'
    || (leb b'a' c && leb c b'z')
    || (leb b'0' c && leb c b'9')
    || c == b'_'
    || c == b'-'

abbrev pub all_chars : (ℕ → Bool) → String → Bool
all_chars p [] = true
all_chars p (c ∷ s) = p (code c) && all_chars p s

-- ROUTING_SEGMENT_PATTERN.fullmatch
abbrev pub matches_segment : String → Bool
matches_segment value =
    all_chars segment_char value && leb 1 (str_len value) && leb (str_len value) 128

unfoldable pub validate_routing_segment : String → String → Result (Unit {0})
validate_routing_segment value field_name =
    raise_if (not (matches_segment value))
      (value_error (field_name ++ " must match [A-Za-z0-9_-]{1,128}"))

unfoldable pub validate_identity : RoutingIdentity → Result RoutingIdentity
unfolding validate_routing_segment
validate_identity identity = do
  validate_routing_segment identity.tenant_id "tenant_id"
  validate_routing_segment identity.namespace "namespace"
  validate_routing_segment identity.org_id "org_id"
  ok identity

-- base_uri.rstrip("/")
unfoldable pub strip_slashes : String → String
strip_slashes [] = []
strip_slashes (c ∷ s) =
    let rest = strip_slashes s in if code c == b'/' && str_eq rest "" then [] else c ∷ rest

unfoldable pub strip_prefix : String → String → Option String
strip_prefix [] s = some s
strip_prefix (p ∷ ps) [] = none
strip_prefix (p ∷ ps) (c ∷ s) =
    let rest = strip_prefix ps s in if code p == code c then rest else none

unfoldable pub strip_suffix : String → String → Option String
strip_suffix suffix [] = if str_eq suffix "" then some "" else none
strip_suffix suffix (c ∷ s) =
    let rest : Option String = elim (strip_suffix suffix s) [
      | none ↦ none
      | some t ↦ some (c ∷ t)
    ] in
    if str_eq (c ∷ s) suffix then some "" else rest

-- "/" in value
abbrev pub has_slash : String → Bool
has_slash [] = false
has_slash (c ∷ s) = code c == b'/' || has_slash s

-- What Python's `uuid` and `str` do.
pub record Uuids : Type 0 where
  pub uuid5 : ℕ → String → ℕ
  pub uuid_text : ℕ → String
  pub parse_uuid : String → Option ℕ
  pub int_text : ℕ → String

abbrev pub dataset_id_namespace : ℕ
dataset_id_namespace = 0x8fdbb20ca9804caba544b22b699f8a4e

abbrev pub work_id_namespace : ℕ
work_id_namespace = 0xc73b952168b9479faa197f646f129091

abbrev pub publication_id_namespace : ℕ
publication_id_namespace = 0xb6348ee2861d4a42a8ae8135204f5c40

module _ (u : Uuids) where
  open u use {uuid5, uuid_text, parse_uuid, int_text}

  -- `canonical`, whose callers have validated the identity.
  unfoldable pub canonical : RoutingIdentity → String
  canonical identity =
      segment identity.tenant_id ++ (segment identity.namespace ++ segment identity.org_id)
    where
      segment : String → String
      segment value = int_text (str_len value) ++ (":" ++ value)

  unfoldable pub deterministic_dataset_id : ℕ → RoutingIdentity → ℕ
  deterministic_dataset_id source_id identity =
      uuid5 dataset_id_namespace (uuid_text source_id ++ (":" ++ canonical identity))

  unfoldable pub deterministic_ingest_work_id : ℕ → ℕ → Result ℕ
  deterministic_ingest_work_id dataset_id source_snapshot_seq = do
    raise_if (ltb source_snapshot_seq 1) (value_error "source_snapshot_seq must be positive")
    ok (
        uuid5 work_id_namespace
          ("INGEST:" ++ (uuid_text dataset_id ++ (":" ++ int_text source_snapshot_seq))))

  unfoldable pub deterministic_publish_work_id : ℕ → ℕ → ℕ → ℕ
  deterministic_publish_work_id dataset_id source_snapshot_seq spec_revision_id =
      uuid5 work_id_namespace (
        "PUBLISH:"
        ++ (uuid_text dataset_id
            ++ (":" ++ (int_text source_snapshot_seq ++ (":" ++ uuid_text spec_revision_id)))))

  unfoldable pub deterministic_rebuild_work_id : ℕ → ℕ → ℕ
  deterministic_rebuild_work_id dataset_id request_id =
      uuid5 work_id_namespace
        ("REBUILD:" ++ (uuid_text dataset_id ++ (":" ++ uuid_text request_id)))

  unfoldable pub deterministic_publication_id : ℕ → ℕ
  deterministic_publication_id work_id = uuid5 publication_id_namespace (uuid_text work_id)

  unfoldable pub ingest_uri : String → ℕ → Result String
  unfolding strip_slashes
  ingest_uri base_uri dataset_id = do
    let normalized = strip_slashes base_uri
    raise_if (str_eq normalized "") (value_error "base_uri must be non-empty")
    ok (normalized ++ ("/" ++ (uuid_text dataset_id ++ ".lance")))

  unfoldable pub rebuild_uri : String → ℕ → ℕ → Result String
  unfolding strip_slashes
  rebuild_uri base_uri dataset_id work_id = do
    let normalized = strip_slashes base_uri
    raise_if (str_eq normalized "") (value_error "base_uri must be non-empty")
    ok (
        normalized
        ++ ("/rebuild/" ++ (uuid_text dataset_id ++ ("/" ++ (uuid_text work_id ++ ".lance")))))

  is_uuid_text : String → Bool
  is_uuid_text segment = elim (parse_uuid segment) [
    | none ↦ false
    | some id ↦ str_eq (uuid_text id) segment
  ]

  rebuild_layout : String → ℕ → String → Bool
  unfolding strip_slashes strip_prefix strip_suffix is_uuid_text
  rebuild_layout base_uri dataset_id candidate_uri =
      elim (strip_prefix (strip_slashes base_uri ++ ("/rebuild/" ++ (uuid_text dataset_id ++ "/")))
        candidate_uri) [
          | none ↦ false
          | some tail ↦ elim (strip_suffix ".lance" tail) [
            | none ↦ false
            | some segment ↦ not (str_eq segment "" || has_slash segment) && is_uuid_text segment
          ]
        ]

  unfoldable pub dataset_uri_matches_root : String → ℕ → String → Result Bool
  unfolding ingest_uri rebuild_layout
  dataset_uri_matches_root base_uri dataset_id candidate_uri = do
    own ← ingest_uri base_uri dataset_id
    ok (str_eq candidate_uri own || rebuild_layout base_uri dataset_id candidate_uri)
