-- ===== src/Examples/Collapses.antt =====
-- A snapshot that writes one record twice over and deletes another.
use lance_etl.Common.{
  ℕ, true, String, ◌≡◌, refl, pos, List, [], ◌∷◌, ok, ℤ, exists_row, count_rows, ◌≤◌,
}
use lance_etl.Types.{Bytes}
use lance_etl.Iceberg.{TargetKey}
use lance_etl.Mutations.{
  MutationInput, TerminalMutation, Operation, collapse_snapshot_mutations, terminal_of,
}
use lance_etl.Mutations.Unique.{has_key, collapse_snapshot_mutations_agree}
use lance_etl.Mutations.Collapse.{is_event, is_terminal, collapse_snapshot_mutations_exact}

abbrev place : TargetKey
place = record { tenant_id = "t"; namespace = "n"; org_id = "o" }

abbrev told : String → String
told s = s

abbrev op_byte : Operation → ℕ
op_byte Operation.upsert = 1
op_byte Operation.delete = 2

abbrev bytes_of : TargetKey → String → Operation → ℤ → ℕ → Bytes
bytes_of target record_id operation ts payload = op_byte operation ∷ payload ∷ []

abbrev seal : Bytes
seal = 1 ∷ 9 ∷ []

abbrev written : MutationInput ℕ
written = record { target = place; record_id = "r"; operation = "insert"; ts = pos 4; payload = 9 }

abbrev erased : MutationInput ℕ
erased = record written { record_id = "q"; operation = "d" }

abbrev collapsed : List (TerminalMutation ℕ)
collapsed =
    terminal_of told bytes_of (pos 1) (pos 2) erased Operation.delete
    ∷ terminal_of told bytes_of (pos 1) (pos 2) written Operation.upsert
    ∷ []

collapsed_run :
    collapse_snapshot_mutations told bytes_of (written ∷ erased ∷ written ∷ []) (pos 1) (pos 2)
    ≡ ok collapsed
unfolding lance_etl.Iceberg.str_lt lance_etl.Mutations.collapse_rows
    lance_etl.Mutations.collapse_snapshot_mutations lance_etl.Mutations.normalize_operation
collapsed_run = refl

collapse_snapshot_mutations_exact_example :
    exists_row (is_terminal place "r" seal) collapsed
    ≡ exists_row (is_event told bytes_of place "r" seal) (written ∷ erased ∷ written ∷ [])
collapse_snapshot_mutations_exact_example =
    collapse_snapshot_mutations_exact told bytes_of place "r" seal (written ∷ erased ∷ written ∷ [])
      (pos 1) (pos 2) collapsed collapsed_run

written_once :
    exists_row (is_event told bytes_of place "r" seal) (written ∷ erased ∷ written ∷ []) ≡ true
unfolding lance_etl.Mutations.normalize_operation
written_once = refl

collapse_snapshot_mutations_agree_example :
    (seal ≡ seal) × (count_rows (has_key place "r") collapsed ≤ 1)
collapse_snapshot_mutations_agree_example =
    collapse_snapshot_mutations_agree told bytes_of place "r" seal seal
      (written ∷ erased ∷ written ∷ []) (pos 1) (pos 2) collapsed collapsed_run written_once
      written_once
