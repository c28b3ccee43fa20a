-- ===== src/Iceberg/Lineage/Chain.antt =====
-- source/lineage.py: what a lineage that is returned is.
use lance_etl.Common.{
  ℕ, zero, suc, ◌≡◌, refl, sym, ap, subst, String, Bool, true, false, not, Option, none, some, List,
  [], ◌∷◌, ok, arith, Bool-cases, inl, inr, raise_if, raise_if-eq-ok, >>=-eq-ok, str_eq, length, ℤ,
}
use text.Mathlib.TextEquality.{eq_iff}
use lance_etl.Types.Evidence.{eq_ℤ}
use lance_etl.Iceberg.{SnapshotRecord, lt_ℤ}
use lance_etl.Iceberg.Lineage.{
  has_id, lookup, walk, walk_snapshot_lineage, index_snapshots, validate_snapshot_identity,
  required_snapshot, required_parent, required_stop, finish_walk, check_order, check_first,
  lineage_error,
}
use lance_etl.Iceberg.Lineage.Walk.{eq_ℤ→eq}

module _ (table_uuid : String) (partition_spec_id : ℤ) (indexed : List SnapshotRecord) where
  -- From an ancestor to a head: each snapshot is the indexed one of its identity, is of the table
  -- and the partition specification, and has the one before it as its parent.
  pub Linked : ℤ → ℤ → List SnapshotRecord → Type 0
  Linked ancestor head [] = ancestor ≡ head
  Linked ancestor head (s ∷ ss) =
      (s.parent_snapshot_id ≡ some ancestor)
      × (lookup s.snapshot_id indexed ≡ some s)
      × (s.table_uuid ≡ table_uuid)
      × (s.partition_spec_id ≡ partition_spec_id)
      × Linked s.snapshot_id head ss

-- The sequence numbers increase strictly, from one below the first.
pub Increasing : ℤ → List SnapshotRecord → Type 0
Increasing previous [] = Unit
Increasing previous (s ∷ ss) =
    (lt_ℤ previous s.sequence_number ≡ true) × Increasing s.sequence_number ss

found-id :
    (cursor : ℤ) (indexed : List SnapshotRecord) {s : SnapshotRecord}
    → lookup cursor indexed ≡ some s
    → s.snapshot_id ≡ cursor
found-id cursor [] e = cc
found-id cursor (x ∷ xs) {s} e = elim (Bool-cases (has_id cursor x)) [
  | inl t ↦ let e1 = rw t at e in let q : x ≡ s = cc in eq_ℤ→eq s.snapshot_id cursor (rw (← q) t)
  | inr t ↦ found-id cursor xs (rw t at e)
]

not-false : (b : Bool) → not b ≡ false → b ≡ true
not-false true h = refl
not-false false h = cc

identity-eq-ok :
    (table_uuid : String) (partition_spec_id : ℤ) (s : SnapshotRecord)
    → validate_snapshot_identity table_uuid partition_spec_id s ≡ ok tt
    → (s.table_uuid ≡ table_uuid) × (s.partition_spec_id ≡ partition_spec_id)
unfolding validate_snapshot_identity
identity-eq-ok table_uuid partition_spec_id s e =
    let (same, e1) = raise_if-eq-ok (not (str_eq s.table_uuid table_uuid)) _ _ e in
    let (spec, e2) = raise_if-eq-ok (not (eq_ℤ s.partition_spec_id partition_spec_id)) _ _ e1 in
    ((eq_iff s.table_uuid table_uuid).0 (not-false _ same), eq_ℤ→eq _ _ (not-false _ spec))

snapshot-eq-ok :
    (o : Option SnapshotRecord) {s : SnapshotRecord} → required_snapshot o ≡ ok s → o ≡ some s
snapshot-eq-ok none e = cc
snapshot-eq-ok (some x) e = ground arith

stop-eq-ok : (o : Option SnapshotRecord) {s : SnapshotRecord} → required_stop o ≡ ok s → o ≡ some s
stop-eq-ok none e = cc
stop-eq-ok (some x) e = ground arith

parent-eq-ok : (o : Option ℤ) {p : ℤ} → required_parent o ≡ ok p → o ≡ some p
parent-eq-ok none e = cc
parent-eq-ok (some x) e = ground arith

module _ (table_uuid : String) (partition_spec_id : ℤ) (indexed : List SnapshotRecord)
    (stop head : ℤ) where
  walk-Linked :
      (fuel : ℕ) (cursor : ℤ) (visited : List ℤ) (path : List SnapshotRecord)
      {end : List SnapshotRecord}
      → Linked table_uuid partition_spec_id indexed cursor head path
      → walk table_uuid partition_spec_id indexed stop fuel cursor visited path ≡ ok (some end)
      → Linked table_uuid partition_spec_id indexed stop head end
  unfolding walk Linked
  walk-Linked zero cursor visited path h e = cc
  walk-Linked (suc fuel) cursor visited path {end} h e = elim (Bool-cases (eq_ℤ cursor stop)) [
    | inl t ↦
        let e1 = rw (t, walk) at e in
        let q : path ≡ end = cc in
        let k = eq_ℤ→eq cursor stop t in
        subst (λ c. Linked table_uuid partition_spec_id indexed c head end) k
          (subst (λ p. Linked table_uuid partition_spec_id indexed cursor head p) q h)
    | inr t ↦
        let e1 = rw (t, walk) at e in
        let (_, e2) = raise_if-eq-ok _ _ _ e1 in
        let (s, got, e3) = >>=-eq-ok (required_snapshot (lookup cursor indexed)) _ e2 in
        let (_, same, e4) =
          >>=-eq-ok (validate_snapshot_identity table_uuid partition_spec_id s) _ e3 in
        let (parent, up, e5) = >>=-eq-ok (required_parent s.parent_snapshot_id) _ e4 in
        let stored = snapshot-eq-ok (lookup cursor indexed) got in
        let id = found-id cursor indexed stored in
        let (table, spec) = identity-eq-ok table_uuid partition_spec_id s same in
        walk-Linked fuel parent (cursor ∷ visited) (s ∷ path)
          (
            parent-eq-ok s.parent_snapshot_id up,
            subst (λ c. lookup c indexed ≡ some s) (sym id) stored,
            table,
            spec,
            subst (λ c. Linked table_uuid partition_spec_id indexed c head path) (sym id) h,
          )
          e5
  ]

order-Increasing :
    (previous : ℤ) (ss : List SnapshotRecord)
    → check_order (some previous) ss ≡ ok tt
    → Increasing previous ss
unfolding check_order Increasing
order-Increasing previous [] e = tt
order-Increasing previous (s ∷ ss) e =
    let (up, e1) = raise_if-eq-ok (not (lt_ℤ previous s.sequence_number)) _ _ e in
    (not-false _ up, order-Increasing s.sequence_number ss e1)

checks-Increasing :
    (stop : SnapshotRecord) (ss : List SnapshotRecord)
    → check_order none ss ≡ ok tt
    → check_first stop ss ≡ ok tt
    → Increasing stop.sequence_number ss
unfolding check_order check_first Increasing
checks-Increasing stop [] e f = tt
checks-Increasing stop (s ∷ ss) e f =
    (first (lt_ℤ stop.sequence_number s.sequence_number) f, order-Increasing s.sequence_number ss e)
  where
    first :
        (b : Bool)
        → raise_if
            (not b)
            (lineage_error "first descendant sequence number does not follow the recorded ancestor")
          ≡ ok tt
        → b ≡ true
    first true h = refl
    first false h = cc

finish-eq-ok :
    (stop : SnapshotRecord) (r : Option (List SnapshotRecord)) {path : List SnapshotRecord}
    → finish_walk stop r ≡ ok (some path)
    → (r ≡ some path) × Increasing stop.sequence_number path
unfolding finish_walk
finish-eq-ok stop none e = cc
finish-eq-ok stop (some ordered) {path} e =
    let (_, inner, e1) = >>=-eq-ok (check_order none ordered) _ e in
    let (_, first, e2) = >>=-eq-ok (check_first stop ordered) _ e1 in
    let q : ordered ≡ path = cc in
    (
      ap some q,
      subst (λ p. Increasing stop.sequence_number p) q (checks-Increasing stop ordered inner first),
    )

whole :
    (table_uuid : String) (partition_spec_id : ℤ) (indexed : List SnapshotRecord) (head : ℤ)
    → Linked table_uuid partition_spec_id indexed head head []
unfolding Linked
whole table_uuid partition_spec_id indexed head = refl

-- A lineage that is returned leads, parent by parent, from the recorded ancestor to the pinned head,
-- through snapshots of the table and the partition specification as they are indexed, and its
-- sequence numbers increase strictly from that of the ancestor.
pub walk_snapshot_lineage-Linked :
    (snapshots : List SnapshotRecord) (pinned_head stop_id : ℤ) (table_uuid : String)
    (partition_spec_id : ℤ) {path : List SnapshotRecord}
    → walk_snapshot_lineage snapshots pinned_head stop_id table_uuid partition_spec_id
      ≡ ok (some path)
    → (indexed : List SnapshotRecord) × (stop : SnapshotRecord) × ((index_snapshots snapshots
          ≡ ok indexed)
        × (lookup stop_id indexed ≡ some stop)
        × Linked table_uuid partition_spec_id indexed stop_id pinned_head path
        × Increasing stop.sequence_number path)
unfolding walk_snapshot_lineage
walk_snapshot_lineage-Linked snapshots pinned_head stop_id table_uuid partition_spec_id {path} e =
    let (indexed, known, e1) = >>=-eq-ok (index_snapshots snapshots) _ e in
    let (stop, recorded, e2) = >>=-eq-ok (required_stop (lookup stop_id indexed)) _ e1 in
    let (_, same, e3) =
      >>=-eq-ok (validate_snapshot_identity table_uuid partition_spec_id stop) _ e2 in
    let (walked, done, e4) =
      >>=-eq-ok
        (walk table_uuid partition_spec_id indexed stop_id (suc (length indexed)) pinned_head [] [])
        (finish_walk stop) e3 in
    let (q, up) = finish-eq-ok stop walked e4 in
    (
      indexed,
      stop,
      (
        known,
        stop-eq-ok (lookup stop_id indexed) recorded,
        walk-Linked table_uuid partition_spec_id indexed stop_id pinned_head (suc (length indexed))
            pinned_head [] [] (whole table_uuid partition_spec_id indexed pinned_head)
            (subst
              (λ r.
                walk table_uuid partition_spec_id indexed stop_id (suc (length indexed)) pinned_head
                  [] []
                ≡ ok r)
              q done),
        up,
      ),
    )
