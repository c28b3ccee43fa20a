-- ===== src/Iceberg/Manifests.antt =====
-- source/manifests.py: the classification of a snapshot by its manifest entries, and the targets
-- that it touches. `str.strip` followed by `str.lower`, and `int` of a text, are parameters. An
-- error carries its code, and not the identity and the text that the code adds.
pub mod Accepted
pub mod Targets
use lance_etl.Common.{
  ℕ, String, Bool, true, false, ◌&&◌, ◌||◌, not, Option, none, some, List, [], ◌∷◌, ◌++◌, str_eq,
  exists_row, if◌then◌else◌, ℤ, is_nonpositive, sort_by, ltb, ◌==◌,
}
use lance_etl.Types.Plan.{is_none}
use lance_etl.Types.Evidence.{eq_ℤ}
use lance_etl.Iceberg.{
  WindowKind, ManifestStatus, ManifestContent, SnapshotRecord, TargetKey, target_key, ManifestEntry,
  MaintenanceTrust, eq_target, str_lt,
}

-- A value, or SourceSnapshotBlockedError with its code.
pub data Verdict (A : Type 0) : Type 0 where
  accept : A → Verdict A
  block : String → Verdict A

abbrev pub and_then : {A B : Type 0} → Verdict A → (A → Verdict B) → Verdict B
and_then (accept a) f = f a
and_then (block code) f = block code

abbrev pub block_if : Bool → String → Verdict (Unit {0})
block_if true code = block code
block_if false code = accept tt

abbrev pub is_added : ManifestStatus → Bool
is_added ManifestStatus.added = true
is_added _ = false

abbrev pub is_existing : ManifestStatus → Bool
is_existing ManifestStatus.existing = true
is_existing _ = false

abbrev pub is_deleted : ManifestStatus → Bool
is_deleted ManifestStatus.deleted = true
is_deleted _ = false

abbrev pub is_data : ManifestContent → Bool
is_data ManifestContent.data_file = true
is_data _ = false

-- APPEND_OPERATIONS and REWRITE_OPERATIONS
abbrev pub is_append : String → Bool
is_append operation = str_eq operation "append" || str_eq operation "fast-append"

abbrev pub is_rewrite : String → Bool
is_rewrite operation = str_eq operation "replace" || str_eq operation "overwrite"

-- dict(summary).get(name): a later pair replaces an earlier one.
abbrev pub summary_get : String → List (String × String) → Option String
summary_get name [] = none
summary_get name (pair ∷ rest) = elim (summary_get name rest) [
  | some value ↦ some value
  | none ↦ if str_eq pair.0 name then some pair.1 else none
]

abbrev pub text_or : String → Option String → String
text_or other none = other
text_or other (some s) = s

abbrev pub has_added_data : List ManifestEntry → Bool
has_added_data entries =
    exists_row (λ (e : ManifestEntry). is_added e.status && is_data e.content) entries

-- The loop over the entries of an append snapshot.
unfoldable pub validate_entries : SnapshotRecord → List ManifestEntry → Verdict (Unit {0})
validate_entries snapshot [] = accept tt
validate_entries snapshot (e ∷ es) =
    and_then
      (block_if (not (eq_ℤ e.snapshot_id snapshot.snapshot_id) && not (is_existing e.status))
        "MANIFEST_SNAPSHOT_MISMATCH")
      (λ _. and_then (block_if (is_deleted e.status) "PHYSICAL_DELETE") (λ _.
        and_then (block_if (is_added e.status && not (is_data e.content)) "DELETE_FILE")
          (λ _. validate_entries snapshot es)))

-- logical_change is False
abbrev pub is_false : Option Bool → Bool
is_false (some false) = true
is_false _ = false

abbrev pub trusts : Option MaintenanceTrust → Bool
trusts none = false
trusts (some t) =
    not (is_none t.writer_identity)
    && (t.writer_authenticated
        && (t.writer_allowlisted && (is_false t.logical_change && t.manifest_invariants_match)))

unfoldable pub validate_trusted_rewrite :
    List ManifestEntry → Option MaintenanceTrust → Verdict (Unit {0})
validate_trusted_rewrite entries trust =
    let has_delete_file = exists_row (λ (e : ManifestEntry). not (is_data e.content)) entries in
    block_if (not (trusts trust && not has_delete_file)) "UNTRUSTED_REWRITE"

module _ (parse_int : String → Option ℤ) where
  -- any(int(summary.get(name, "0")) > 0 for name in …), which stops at the first that is positive.
  unfoldable pub declared_nonempty : List (String × String) → List String → Option Bool
  declared_nonempty summary [] = some false
  declared_nonempty summary (name ∷ names) =
      elim (parse_int (text_or "0" (summary_get name summary))) [
        | none ↦ none
        | some n ↦ if is_nonpositive n then declared_nonempty summary names else some true
      ]

  abbrev pub declared_or_block : Option Bool → Verdict Bool
  declared_or_block none = block "MANIFEST_SUMMARY_INVALID"
  declared_or_block (some b) = accept b

  unfoldable pub validate_append_entries : SnapshotRecord → List ManifestEntry → Verdict (Unit {0})
  unfolding validate_entries declared_nonempty
  validate_append_entries snapshot entries =
      and_then
        (declared_or_block
          (declared_nonempty snapshot.summary ("added-data-files" ∷ "added-records" ∷ [])))
        (λ declared.
          and_then (block_if (declared && not (has_added_data entries)) "MANIFEST_EVIDENCE_MISSING")
            (λ _. validate_entries snapshot entries))

  unfoldable pub classify_snapshot :
      (String → String)
      → SnapshotRecord
      → List ManifestEntry
      → Option MaintenanceTrust
      → Verdict WindowKind
  unfolding validate_append_entries validate_trusted_rewrite
  classify_snapshot normalized snapshot entries trust =
      let operation = normalized snapshot.operation in
      if is_append operation
      then and_then (validate_append_entries snapshot entries) (λ _. accept WindowKind.append)
      else if is_rewrite operation
      then and_then (validate_trusted_rewrite entries trust)
          (λ _. accept WindowKind.trusted_maintenance)
      else if str_eq operation "delete" || str_eq operation "row_delta"
      then block "PHYSICAL_DELETE"
      else block "UNKNOWN_OPERATION"

-- the order of (tenant_id, namespace, org_id)
abbrev pub target_lt : TargetKey → TargetKey → Bool
target_lt a b =
    str_lt a.tenant_id b.tenant_id
    || (str_eq a.tenant_id b.tenant_id
        && (str_lt a.namespace b.namespace
            || (str_eq a.namespace b.namespace && str_lt a.org_id b.org_id)))

unfoldable pub sorted_targets : List TargetKey → List TargetKey
sorted_targets targets = sort_by target_lt targets

-- targets.add(target)
abbrev pub add_target : TargetKey → List TargetKey → List TargetKey
add_target t targets = if exists_row (eq_target t) targets then targets else t ∷ targets

abbrev pub validate_entry_spec : SnapshotRecord → ManifestEntry → Verdict (Unit {0})
validate_entry_spec snapshot e =
    block_if (not (eq_ℤ e.partition_spec_id snapshot.partition_spec_id)) "PARTITION_SPEC_CHANGED"

-- The loop of both discoveries: `reads` are the entries that are not passed over.
unfoldable pub collect_targets :
    (ManifestEntry → Bool)
    → SnapshotRecord
    → List TargetKey
    → List ManifestEntry
    → Verdict (List TargetKey)
collect_targets reads snapshot targets [] = accept targets
collect_targets reads snapshot targets (e ∷ es) = elim (reads e) [
  | false ↦ collect_targets reads snapshot targets es
  | true ↦
      and_then (validate_entry_spec snapshot e)
        (λ _. collect_targets reads snapshot (add_target (target_key e.partition) targets) es)
]

abbrev pub is_added_data : ManifestEntry → Bool
is_added_data e = is_added e.status && is_data e.content

abbrev pub is_live_data : ManifestEntry → Bool
is_live_data e = not (is_deleted e.status) && is_data e.content

unfoldable pub discover_added_targets :
    SnapshotRecord → List ManifestEntry → Verdict (List TargetKey)
unfolding collect_targets sorted_targets
discover_added_targets snapshot entries =
    and_then (collect_targets is_added_data snapshot [] entries) (λ ts. accept (sorted_targets ts))

unfoldable pub discover_baseline_targets :
    SnapshotRecord → List ManifestEntry → Verdict (List TargetKey)
unfolding collect_targets sorted_targets
discover_baseline_targets snapshot entries =
    and_then (collect_targets is_live_data snapshot [] entries) (λ ts. accept (sorted_targets ts))
