-- ===== src/Iceberg/Lineage/Walk.antt =====
-- source/lineage.py: the loop ends.
use lance_etl.Common.{
  ℕ, zero, suc, ◌≤◌, ◌<◌, ◌≡◌, ◌⊎◌, inl, inr, refl, ap, String, Bool, true, false, not, ◌||◌,
  Option, none, some, List, [], ◌∷◌, Result, Error, ok, err, arith, Bool-cases, count_rows, length,
  ==→eq, ==_refl, ◌>>=◌, ◌>>◌, raise_if, ℤ, pos, negsuc, if◌then◌else◌,
}
use lance_etl.Types.Evidence.{eq_ℤ}
use lance_etl.Iceberg.{SnapshotRecord}
use lance_etl.Iceberg.Lineage.{
  has_id, lookup, visited_one, walk, walk_snapshot_lineage, index_snapshots,
  validate_snapshot_identity, required_snapshot, required_parent, required_stop, finish_walk,
  check_order, check_first,
}

pub eq_ℤ→eq : (a b : ℤ) → eq_ℤ a b ≡ true → a ≡ b
eq_ℤ→eq (pos a) (pos b) h = ap pos (==→eq a b h)
eq_ℤ→eq (pos a) (negsuc b) h = cc
eq_ℤ→eq (negsuc a) (pos b) h = cc
eq_ℤ→eq (negsuc a) (negsuc b) h = ap negsuc (==→eq a b h)

pub eq_ℤ_refl : (a : ℤ) → eq_ℤ a a ≡ true
eq_ℤ_refl (pos a) = ==_refl a
eq_ℤ_refl (negsuc a) = ==_refl a

-- The number of indexed snapshots that the loop has not visited.
abbrev unvisited : List ℤ → List SnapshotRecord → ℕ
unvisited visited indexed = count_rows (λ s. not (visited_one s.snapshot_id visited)) indexed

unvisited-le :
    (cursor : ℤ) (visited : List ℤ) (indexed : List SnapshotRecord)
    → unvisited (cursor ∷ visited) indexed ≤ unvisited visited indexed
unvisited-le cursor visited [] = omega arith
unvisited-le cursor visited (s ∷ ss) =
    let rest = unvisited-le cursor visited ss in
    one (eq_ℤ cursor s.snapshot_id) (visited_one s.snapshot_id visited) _ _ rest
  where
    one :
        (a b : Bool) (m n : ℕ)
        → m ≤ n
        → (if not (a || b) then suc m else m) ≤ (if not b then suc n else n)
    one true true m n h = h
    one true false m n h = omega arith
    one false true m n h = h
    one false false m n h = omega arith

-- A round takes one snapshot away.
unvisited-lt :
    (cursor : ℤ) (visited : List ℤ) (indexed : List SnapshotRecord) {s : SnapshotRecord}
    → lookup cursor indexed ≡ some s
    → visited_one cursor visited ≡ false
    → unvisited (cursor ∷ visited) indexed < unvisited visited indexed
unvisited-lt cursor visited [] found fresh = cc
unvisited-lt cursor visited (x ∷ xs) {s} found fresh = elim (Bool-cases (has_id cursor x)) [
  | inl t ↦
      let q = eq_ℤ→eq x.snapshot_id cursor t in
      let below = unvisited-le cursor visited xs in
      let fresh' : visited_one x.snapshot_id visited ≡ false = rw q fresh in
      let hit : eq_ℤ cursor x.snapshot_id ≡ true = rw q (eq_ℤ_refl cursor) in
      rw (hit, fresh') (omega (arith, below))
  | inr t ↦
      let rest = unvisited-lt cursor visited xs (rw t at found) fresh in
      strict (eq_ℤ cursor x.snapshot_id) (visited_one x.snapshot_id visited) _ _ rest
]
  where
    strict :
        (a b : Bool) (m n : ℕ)
        → m < n
        → (if not (a || b) then suc m else m) < (if not b then suc n else n)
    strict true true m n h = h
    strict true false m n h = omega arith
    strict false true m n h = h
    strict false false m n h = omega arith

unvisited-nil : (indexed : List SnapshotRecord) → unvisited [] indexed ≤ length indexed
unvisited-nil [] = omega arith
unvisited-nil (s ∷ ss) = let rest = unvisited-nil ss in omega (arith, rest)

-- What a call may return that has ended by itself.
Ended : Result (Option (List SnapshotRecord)) → Type 0
Ended r = ((path : List SnapshotRecord) × (r ≡ ok (some path))) ⊎ ((e : Error) × (r ≡ err e))

passed :
    (b : Bool) (e : Error) (k : Result (Option (List SnapshotRecord)))
    → (b ≡ false → Ended k)
    → Ended (raise_if b e >> k)
unfolding Ended
passed true e k h = inr (e, refl)
passed false e k h = h refl

bound_by :
    {A : Type 0} (m : Result A) (k : A → Result (Option (List SnapshotRecord)))
    → ((a : A) → m ≡ ok a → Ended (k a))
    → Ended (m >>= k)
unfolding Ended
bound_by (err e) k h = inr (e, refl)
bound_by (ok a) k h = h a refl

required-eq-ok :
    (o : Option SnapshotRecord) {s : SnapshotRecord} → required_snapshot o ≡ ok s → o ≡ some s
required-eq-ok none e = cc
required-eq-ok (some x) e = ground arith

finished :
    (stop : SnapshotRecord) (r : Result (Option (List SnapshotRecord)))
    → Ended r
    → Ended (r >>= finish_walk stop)
unfolding Ended finish_walk
finished stop (err e) h = inr (e, refl)
finished stop (ok none) (inl (path, q)) = cc
finished stop (ok none) (inr (e, q)) = cc
finished stop (ok (some path)) h =
    bound_by (check_order none path) _
      (λ _ _. bound_by (check_first stop path) _ (λ _ _. inl (path, refl)))

module _ (table_uuid : String) (partition_spec_id : ℤ) (indexed : List SnapshotRecord)
    (stop : ℤ) where
  walk-Ended :
      (fuel : ℕ) (cursor : ℤ) (visited : List ℤ) (path : List SnapshotRecord)
      → unvisited visited indexed < fuel
      → Ended (walk table_uuid partition_spec_id indexed stop fuel cursor visited path)
  unfolding walk Ended
  walk-Ended zero cursor visited path h = absurd (omega arith)
  walk-Ended (suc fuel) cursor visited path h = elim (Bool-cases (eq_ℤ cursor stop)) [
    | inl t ↦ rw (t, walk) (inl (path, refl))
    | inr t ↦
        rw (t, walk)
          (passed (visited_one cursor visited) _ _ (λ fresh.
            bound_by (required_snapshot (lookup cursor indexed)) _ (λ s found.
              bound_by (validate_snapshot_identity table_uuid partition_spec_id s) _ (λ _ _.
                bound_by (required_parent s.parent_snapshot_id) _ (λ parent _.
                  let stored = required-eq-ok (lookup cursor indexed) found in
                  let less = unvisited-lt cursor visited indexed stored fresh in
                  walk-Ended fuel parent (cursor ∷ visited) (s ∷ path) (omega (arith, h, less)))))))
  ]

-- The call ends by itself, with a lineage or an error: the fuel, one more than the snapshots that
-- are indexed, is never used up.
pub walk_snapshot_lineage_ends :
    (snapshots : List SnapshotRecord) (pinned_head stop_id : ℤ) (table_uuid : String)
    (partition_spec_id : ℤ)
    → ((path : List SnapshotRecord) × (walk_snapshot_lineage snapshots pinned_head stop_id
            table_uuid partition_spec_id
          ≡ ok (some path)))
      ⊎ ((e : Error) × (walk_snapshot_lineage snapshots pinned_head stop_id table_uuid
              partition_spec_id
            ≡ err e))
unfolding walk_snapshot_lineage Ended
walk_snapshot_lineage_ends snapshots pinned_head stop_id table_uuid partition_spec_id =
    bound_by (index_snapshots snapshots) _ (λ indexed _.
      bound_by (required_stop (lookup stop_id indexed)) _ (λ stop _.
        bound_by (validate_snapshot_identity table_uuid partition_spec_id stop) _ (λ _ _.
          finished stop
            (walk table_uuid partition_spec_id indexed stop_id (suc (length indexed)) pinned_head []
              [])
            (let all = unvisited-nil indexed in
              walk-Ended table_uuid partition_spec_id indexed stop_id (suc (length indexed))
                pinned_head [] [] (omega (arith, all))))))
