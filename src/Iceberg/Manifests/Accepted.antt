-- ===== src/Iceberg/Manifests/Accepted.antt =====
-- source/manifests.py: what an accepted snapshot is.
use lance_etl.Common.{
  ◌≡◌, refl, String, Bool, true, false, not, ◌&&◌, ◌||◌, Option, none, some, List, [], ◌∷◌, arith,
  All, Bool-cases, inl, inr, exists_row, str_eq, ℤ,
}
use lance_etl.Types.Evidence.{eq_ℤ}
use lance_etl.Iceberg.{WindowKind, SnapshotRecord, ManifestEntry, MaintenanceTrust}
use lance_etl.Iceberg.Lineage.Walk.{eq_ℤ→eq}
use lance_etl.Iceberg.Manifests.{
  Verdict, accept, block, and_then, block_if, is_added, is_existing, is_deleted, is_data, is_append,
  is_rewrite, trusts, has_added_data, validate_entries, validate_append_entries, declared_or_block,
  validate_trusted_rewrite, classify_snapshot,
}

-- An entry of an append: one that another snapshot left as it was, or a data file of this one.
pub record IsAppendEntry (snapshot : SnapshotRecord) (e : ManifestEntry) : Type 0 where
  pub own : is_existing e.status ≡ false → e.snapshot_id ≡ snapshot.snapshot_id
  pub kept : is_deleted e.status ≡ false
  pub file : is_added e.status ≡ true → is_data e.content ≡ true

-- What each kind of window asks of the manifest entries and the trust of its snapshot.
unfoldable pub IsAccepted :
    SnapshotRecord → String → List ManifestEntry → Option MaintenanceTrust → WindowKind → Type 0
IsAccepted snapshot operation entries trust WindowKind.baseline = ⊥
IsAccepted snapshot operation entries trust WindowKind.append =
    (is_append operation ≡ true) × All (IsAppendEntry snapshot) entries
IsAccepted snapshot operation entries trust WindowKind.trusted_maintenance =
    (is_rewrite operation ≡ true)
    × (trusts trust ≡ true)
    × (exists_row (λ (e : ManifestEntry). not (is_data e.content)) entries ≡ false)

passed :
    {A : Type 0} (b : Bool) (code : String) (k : Verdict A) {a : A}
    → and_then (block_if b code) (λ _. k) ≡ accept a
    → (b ≡ false) × (k ≡ accept a)
passed true code k h = cc
passed false code k h = (refl, h)

own_by : (a b : Bool) → (not a && not b) ≡ false → b ≡ false → a ≡ true
own_by true b h k = refl
own_by false true h k = cc
own_by false false h k = cc

data_by : (a b : Bool) → (a && not b) ≡ false → a ≡ true → b ≡ true
data_by true true h k = refl
data_by true false h k = cc
data_by false b h k = cc

entries-accept :
    (snapshot : SnapshotRecord) (es : List ManifestEntry)
    → validate_entries snapshot es ≡ accept tt
    → All (IsAppendEntry snapshot) es
unfolding validate_entries
entries-accept snapshot [] h = tt
entries-accept snapshot (e ∷ es) h =
    let (own, h1) =
      passed (not (eq_ℤ e.snapshot_id snapshot.snapshot_id) && not (is_existing e.status)) _ _ h in
    let (kept, h2) = passed (is_deleted e.status) _ _ h1 in
    let (as_data, h3) = passed (is_added e.status && not (is_data e.content)) _ _ h2 in
    (
      record {
        own = λ k. eq_ℤ→eq e.snapshot_id snapshot.snapshot_id (own_by _ _ own k);
        kept = kept;
        file = λ k. data_by _ _ as_data k;
      },
      entries-accept snapshot es h3,
    )

module _ (parse_int : String → Option ℤ) (normalized : String → String) where
  append-accept :
      (snapshot : SnapshotRecord) (entries : List ManifestEntry) (u : Unit {0})
      → validate_append_entries parse_int snapshot entries ≡ accept u
      → All (IsAppendEntry snapshot) entries
  unfolding validate_append_entries
  append-accept snapshot entries u h = go _ h
    where
      go :
          (o : Option Bool)
          → and_then (declared_or_block parse_int o) (λ declared.
            and_then
              (block_if (declared && not (has_added_data entries)) "MANIFEST_EVIDENCE_MISSING")
              (λ _. validate_entries snapshot entries))
            ≡ accept u
          → All (IsAppendEntry snapshot) entries
      go none k = cc
      go (some declared) k = entries-accept snapshot entries (passed _ _ _ k).1

  rewrite-accept :
      (entries : List ManifestEntry) (trust : Option MaintenanceTrust) (u : Unit {0})
      → validate_trusted_rewrite entries trust ≡ accept u
      → (trusts trust ≡ true)
        × (exists_row (λ (e : ManifestEntry). not (is_data e.content)) entries ≡ false)
  unfolding validate_trusted_rewrite
  rewrite-accept entries trust u h =
      go (trusts trust) (exists_row (λ (e : ManifestEntry). not (is_data e.content)) entries) h
    where
      go :
          (a b : Bool)
          → block_if (not (a && not b)) "UNTRUSTED_REWRITE" ≡ accept u
          → (a ≡ true) × (b ≡ false)
      go true true k = cc
      go true false k = (refl, refl)
      go false b k = cc

  after-accept :
      {A B : Type 0} (m : Verdict A) (b : B) {c : B}
      → and_then m (λ _. accept b) ≡ accept c
      → (a : A) × (m ≡ accept a) × (b ≡ c)
  after-accept (accept a) b h = (a, refl, ground arith)
  after-accept (block code) b h = cc

  -- A snapshot is accepted only as what it is: an append only if each entry is an unchanged one or
  -- an added data file of this very snapshot, maintenance only under full trust and with no delete
  -- file, and nothing as a baseline.
  pub classify_snapshot-IsAccepted :
      (snapshot : SnapshotRecord) (entries : List ManifestEntry) (trust : Option MaintenanceTrust)
      (kind : WindowKind)
      → classify_snapshot parse_int normalized snapshot entries trust ≡ accept kind
      → IsAccepted snapshot (normalized snapshot.operation) entries trust kind
  unfolding classify_snapshot IsAccepted
  classify_snapshot-IsAccepted snapshot entries trust kind h =
      elim (Bool-cases (is_append (normalized snapshot.operation))) [
        | inl t ↦
            let h1 = rw (t, classify_snapshot) at h in
            let (u, checked, q) =
              after-accept (validate_append_entries parse_int snapshot entries) WindowKind.append
                h1 in
            rw (← q) (t, append-accept snapshot entries u checked)
        | inr t ↦ elim (Bool-cases (is_rewrite (normalized snapshot.operation))) [
          | inl r ↦
              let h1 = rw (t, r, classify_snapshot) at h in
              let (u, checked, q) =
                after-accept (validate_trusted_rewrite entries trust) WindowKind.trusted_maintenance
                  h1 in
              let (trusted, clean) = rewrite-accept entries trust u checked in
              rw (← q) (r, trusted, clean)
          | inr r ↦
              elim (Bool-cases (
                str_eq (normalized snapshot.operation) "delete"
                || str_eq (normalized snapshot.operation) "row_delta")) [
                  | inl d ↦ let h1 = rw (t, r, d, classify_snapshot) at h in cc
                  | inr d ↦ let h1 = rw (t, r, d, classify_snapshot) at h in cc
                ]
        ]
      ]
