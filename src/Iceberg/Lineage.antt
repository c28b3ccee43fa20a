-- ===== src/Iceberg/Lineage.antt =====
-- source/lineage.py: the walk from a pinned head along the parents to a recorded ancestor. The
-- dictionary of snapshots is an association list without repeated keys. The loop runs on fuel: one
-- step for each indexed snapshot and one more, after which it has ended by itself.
pub mod Walk
pub mod Chain
use lance_etl.Common.{
  ℕ, zero, suc, String, Bool, true, false, not, Option, none, some, List, [], ◌∷◌, ◌++◌, Result,
  Error, ok, err, value_error, raise_if, ◌>>=◌, ◌>>◌, str_eq, length, find_row, exists_row,
  if◌then◌else◌, ℤ,
}
use lance_etl.Types.Evidence.{eq_ℤ}
use lance_etl.Iceberg.{SnapshotRecord, eq_snapshot, lt_ℤ}

-- SourceLineageError, with a text that leaves out the identities.
abbrev pub lineage_error : String → Error
lineage_error message = value_error message

abbrev pub has_id : ℤ → SnapshotRecord → Bool
has_id id s = eq_ℤ s.snapshot_id id

-- indexed.get(snapshot_id)
abbrev pub lookup : ℤ → List SnapshotRecord → Option SnapshotRecord
lookup id indexed = find_row (has_id id) indexed

-- indexed[snapshot_id] = snapshot, where an entry that is there is equal to the new one.
abbrev pub index_one :
    SnapshotRecord → List SnapshotRecord → Option SnapshotRecord → Result (List SnapshotRecord)
index_one s indexed none = ok (indexed ++ s ∷ [])
index_one s indexed (some existing) = do
  raise_if (not (eq_snapshot existing s)) (lineage_error "conflicting metadata for snapshot")
  ok indexed

unfoldable pub index_from : List SnapshotRecord → List SnapshotRecord → Result (List SnapshotRecord)
index_from indexed [] = ok indexed
index_from indexed (s ∷ ss) = do
  next ← index_one s indexed (lookup s.snapshot_id indexed)
  index_from next ss

unfoldable pub index_snapshots : List SnapshotRecord → Result (List SnapshotRecord)
unfolding index_from
index_snapshots snapshots = index_from [] snapshots

unfoldable pub validate_snapshot_identity : String → ℤ → SnapshotRecord → Result (Unit {0})
validate_snapshot_identity table_uuid partition_spec_id s = do
  raise_if (not (str_eq s.table_uuid table_uuid)) (lineage_error "table UUID changed at snapshot")
  raise_if (not (eq_ℤ s.partition_spec_id partition_spec_id))
      (lineage_error "partition specification changed at snapshot")
  ok tt

abbrev pub visited_one : ℤ → List ℤ → Bool
visited_one cursor visited = exists_row (λ v. eq_ℤ v cursor) visited

abbrev pub required_snapshot : Option SnapshotRecord → Result SnapshotRecord
required_snapshot none = err (lineage_error "missing snapshot before recorded ancestor")
required_snapshot (some s) = ok s

abbrev pub required_parent : Option ℤ → Result ℤ
required_parent none = err (lineage_error "recorded snapshot is not an ancestor of pinned head")
required_parent (some parent) = ok parent

module _ (table_uuid : String) (partition_spec_id : ℤ) (indexed : List SnapshotRecord)
    (stop : ℤ) where
  -- The `while` loop: its fuel, `visited`, and `reverse_path`, which holds the newest first in the
  -- code and so grows at the front here, oldest first.
  unfoldable pub walk : ℕ → ℤ → List ℤ → List SnapshotRecord → Result (Option (List SnapshotRecord))
  unfolding validate_snapshot_identity
  walk zero cursor visited path = ok none
  walk (suc fuel) cursor visited path = elim (eq_ℤ cursor stop) [
    | true ↦ ok (some path)
    | false ↦ do
      raise_if (visited_one cursor visited) (lineage_error "cycle detected at snapshot")
      s ← required_snapshot (lookup cursor indexed)
      validate_snapshot_identity table_uuid partition_spec_id s
      parent ← required_parent s.parent_snapshot_id
      walk fuel parent (cursor ∷ visited) (s ∷ path)
  ]

-- snapshot.sequence_number > previous_sequence, if there is a previous one
abbrev pub follows : Option ℤ → SnapshotRecord → Bool
follows none s = true
follows (some previous) s = lt_ℤ previous s.sequence_number

-- The loop over `ordered`, with the previous sequence number.
unfoldable pub check_order : Option ℤ → List SnapshotRecord → Result (Unit {0})
check_order previous [] = ok tt
check_order previous (s ∷ ss) = do
  raise_if (not (follows previous s))
      (lineage_error "Iceberg sequence numbers are not strictly increasing along snapshot ancestry")
  check_order (some s.sequence_number) ss

-- The first descendant follows the ancestor.
unfoldable pub check_first : SnapshotRecord → List SnapshotRecord → Result (Unit {0})
check_first stop [] = ok tt
check_first stop (s ∷ ss) =
    raise_if (not (lt_ℤ stop.sequence_number s.sequence_number))
      (lineage_error "first descendant sequence number does not follow the recorded ancestor")

unfoldable pub finish_walk :
    SnapshotRecord → Option (List SnapshotRecord) → Result (Option (List SnapshotRecord))
unfolding check_order check_first
finish_walk stop none = ok none
finish_walk stop (some ordered) = do
  check_order none ordered
  check_first stop ordered
  ok (some ordered)

abbrev pub required_stop : Option SnapshotRecord → Result SnapshotRecord
required_stop none =
    err (lineage_error "recorded ancestor snapshot is missing from bounded metadata")
required_stop (some s) = ok s

-- `none` stands for a loop that has not ended within its fuel. A head that is the ancestor ends the
-- loop before its first round, with the empty lineage that the code returns for it.
unfoldable pub walk_snapshot_lineage :
    List SnapshotRecord → ℤ → ℤ → String → ℤ → Result (Option (List SnapshotRecord))
unfolding index_snapshots walk finish_walk
walk_snapshot_lineage snapshots pinned_head stop_id table_uuid partition_spec_id = do
  indexed ← index_snapshots snapshots
  stop ← required_stop (lookup stop_id indexed)
  validate_snapshot_identity table_uuid partition_spec_id stop
  path ← walk table_uuid partition_spec_id indexed stop_id (suc (length indexed)) pinned_head [] []
  finish_walk stop path
