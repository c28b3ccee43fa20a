-- ===== src/Iceberg/Manifests/Targets.antt =====
-- source/manifests.py: which targets are discovered.
use lance_etl.Common.{
  ◌≡◌, refl, sym, ◌∙◌, ap, subst, String, Bool, true, false, not, ◌&&◌, ◌||◌, List, [], ◌∷◌, arith,
  Bool-cases, inl, inr, exists_row, str_eq, sort_by, insert_by, or_swap, or_assoc, or_false,
  and-split,
}
use lance_etl.Types.Evidence.{eq_ℤ}
use lance_etl.Iceberg.{SnapshotRecord, ManifestEntry, TargetKey, target_key, eq_target}
use lance_etl.Iceberg.Manifests.{
  Verdict, accept, block, and_then, block_if, add_target, collect_targets, is_added_data,
  is_live_data, discover_added_targets, discover_baseline_targets, sorted_targets, target_lt,
}
use text.Mathlib.TextEquality.{eq_iff}

-- Some entry that is read lies in the partition of the target.
abbrev pub touched : (ManifestEntry → Bool) → TargetKey → List ManifestEntry → Bool
touched reads t entries =
    exists_row (λ (e : ManifestEntry). reads e && eq_target (target_key e.partition) t) entries

abbrev pub member : TargetKey → List TargetKey → Bool
member t targets = exists_row (λ s. eq_target s t) targets

module _ {A : Type 0} (before : A → A → Bool) (p : A → Bool) where
  exists_row-insert_by :
      (x : A) (xs : List A) → exists_row p (insert_by before x xs) ≡ (p x || exists_row p xs)
  exists_row-insert_by x [] = refl
  exists_row-insert_by x (y ∷ ys) = elim (Bool-cases (before y x)) [
    | inl t ↦
        let rest = exists_row-insert_by x ys in
        rw t (rw rest (or_swap (p y) (p x) (exists_row p ys)))
    | inr t ↦ rw t refl
  ]

  -- Sorting keeps what exists.
  pub exists_row-sort_by : (xs : List A) → exists_row p (sort_by before xs) ≡ exists_row p xs
  exists_row-sort_by [] = refl
  exists_row-sort_by (x ∷ xs) =
      exists_row-insert_by x (sort_by before xs) ∙ ap (λ b. p x || b) (exists_row-sort_by xs)

pub eq_target→eq : (a b : TargetKey) → eq_target a b ≡ true → a ≡ b
eq_target→eq a b h =
    let (front, org) =
      and-split (str_eq a.tenant_id b.tenant_id && str_eq a.namespace b.namespace) _ h in
    let (tenant, space) = and-split (str_eq a.tenant_id b.tenant_id) _ front in
    let q1 = (eq_iff a.tenant_id b.tenant_id).0 tenant in
    let q2 = (eq_iff a.namespace b.namespace).0 space in
    let q3 = (eq_iff a.org_id b.org_id).0 org in cc

absorbed :
    (s t : TargetKey) (targets : List TargetKey)
    → exists_row (eq_target s) targets ≡ true
    → eq_target s t ≡ true
    → member t targets ≡ true
absorbed s t [] e h = cc
absorbed s t (r ∷ rs) e h = elim (Bool-cases (eq_target s r)) [
  | inl q ↦
      let same = eq_target→eq s r q in
      let hit : eq_target r t ≡ true = subst (λ x. eq_target x t ≡ true) same h in rw hit refl
  | inr q ↦ let rest = absorbed s t rs (rw q at e) h in ground (arith, rest)
]

member-add_target :
    (s t : TargetKey) (targets : List TargetKey)
    → member t (add_target s targets) ≡ (eq_target s t || member t targets)
member-add_target s t targets = elim (Bool-cases (exists_row (eq_target s) targets)) [
  | inl e ↦ rw e (elim (Bool-cases (eq_target s t)) [
    | inl h ↦ rw h (absorbed s t targets e h)
    | inr h ↦ rw h refl
  ])
  | inr e ↦ rw e refl
]

spec-accept :
    {A : Type 0} (b : Bool) (code : String) (k : Verdict A) {a : A}
    → and_then (block_if b code) (λ _. k) ≡ accept a
    → k ≡ accept a
spec-accept true code k h = cc
spec-accept false code k h = h

member-collect_targets :
    (reads : ManifestEntry → Bool) (snapshot : SnapshotRecord) (t : TargetKey)
    (targets : List TargetKey) (es : List ManifestEntry) {end : List TargetKey}
    → collect_targets reads snapshot targets es ≡ accept end
    → member t end ≡ (touched reads t es || member t targets)
unfolding collect_targets
member-collect_targets reads snapshot t targets [] {end} h = let q : targets ≡ end = cc in rw q refl
member-collect_targets reads snapshot t targets (e ∷ es) {end} h = elim (Bool-cases (reads e)) [
  | inl r ↦
      let h1 = rw (r, collect_targets) at h in
      let h2 = spec-accept (not (eq_ℤ e.partition_spec_id snapshot.partition_spec_id)) _ _ h1 in
      let rest =
        member-collect_targets reads snapshot t (add_target (target_key e.partition) targets) es
          h2 in
      let added = member-add_target (target_key e.partition) t targets in
      rw r (
        rest
        ∙ ap (λ b. touched reads t es || b) added
        ∙ sym (
            or_assoc (eq_target (target_key e.partition) t) (touched reads t es)
              (member t targets)))
  | inr r ↦
      let h1 = rw (r, collect_targets) at h in
      rw r (member-collect_targets reads snapshot t targets es h1)
]

sorted-accept :
    (m : Verdict (List TargetKey)) {ts : List TargetKey}
    → and_then m (λ found. accept (sorted_targets found)) ≡ accept ts
    → (found : List TargetKey) × (m ≡ accept found) × (sorted_targets found ≡ ts)
sorted-accept (accept found) h = (found, refl, ground arith)
sorted-accept (block code) h = cc

discovered :
    (reads : ManifestEntry → Bool) (snapshot : SnapshotRecord) (entries : List ManifestEntry)
    (t : TargetKey) {ts : List TargetKey}
    → and_then (collect_targets reads snapshot [] entries) (λ found. accept (sorted_targets found))
      ≡ accept ts
    → member t ts ≡ touched reads t entries
unfolding sorted_targets
discovered reads snapshot entries t {ts} h =
    let (found, done, q) = sorted-accept (collect_targets reads snapshot [] entries) h in
    let all = member-collect_targets reads snapshot t [] entries done in
    let kept = exists_row-sort_by target_lt (λ s. eq_target s t) found in
    ap (member t) (sym q) ∙ kept ∙ all ∙ or_false (touched reads t entries)

-- The targets that are discovered are exactly those with an entry that counts: an added data file
-- for an append, and a data file that is not deleted for a baseline.
pub discover_targets_exact :
    (snapshot : SnapshotRecord) (entries : List ManifestEntry) (t : TargetKey) (ts : List TargetKey)
    → (discover_added_targets snapshot entries ≡ accept ts
        → member t ts ≡ touched is_added_data t entries)
      × (discover_baseline_targets snapshot entries ≡ accept ts
          → member t ts ≡ touched is_live_data t entries)
unfolding discover_added_targets discover_baseline_targets
discover_targets_exact snapshot entries t ts = (
  (λ h. discovered is_added_data snapshot entries t h),
  λ h. discovered is_live_data snapshot entries t h,
)
