-- ===== src/Mutations.antt =====
-- etl/mutation.py: the rows of one Iceberg snapshot, collapsed to one terminal mutation for each
-- key. A payload is of any type. `str.strip` followed by `str.lower`, the digest of an event and
-- the digest over record identities (etl/digest.py, SHA-256 of an encoding) are parameters.
pub mod Collapse
pub mod Unique
use lance_etl.Common.{
  ℕ, ◌^◌, String, Bool, true, false, ◌&&◌, ◌||◌, not, Option, none, some, List, [], ◌∷◌, map,
  Result, ok, err, value_error, raise_if, ◌>>=◌, ◌>>◌, ℤ, is_negative, pos_part, ltb, ◌==◌, str_eq,
  list_eq, if◌then◌else◌, exists_row, find_row, sort_by,
}
use lance_etl.Types.{Bytes}
use lance_etl.Iceberg.{TargetKey, eq_target, str_lt}
use lance_etl.Iceberg.Manifests.{target_lt}

pub data Operation : Type 0 where
  upsert delete : Operation

pub record MutationInput (P : Type 0) : Type 0 where
  pub target : TargetKey
  pub record_id : String
  pub operation : String
  pub ts : ℤ
  pub payload : P

pub record TerminalMutation (P : Type 0) : Type 0 where
  pub target : TargetKey
  pub record_id : String
  pub operation : Operation
  pub ts : ℤ
  pub payload : P
  pub window_seq : ℤ
  pub source_sequence : ℤ
  pub event_digest : Bytes

abbrev pub is_deleted : {P : Type 0} → TerminalMutation P → Bool
is_deleted t = elim t.operation [ upsert ↦ false | delete ↦ true ]

abbrev is_upsert_name : String → Bool
is_upsert_name s = exists_row (str_eq s) ("insert" ∷ "update" ∷ "upsert" ∷ "i" ∷ "u" ∷ [])

abbrev is_delete_name : String → Bool
is_delete_name s = exists_row (str_eq s) ("delete" ∷ "d" ∷ [])

unfoldable pub normalize_operation : (String → String) → String → Result Operation
normalize_operation normalized operation =
    if is_upsert_name (normalized operation)
    then ok upsert
    else if is_delete_name (normalized operation)
    then ok delete
    else err (value_error "unsupported mutation operation")

-- `n < 0 or n >= 1 << 63`
abbrev pub out_of_range : ℤ → Bool
out_of_range n = is_negative n || not (ltb (pos_part n) (2 ^ 63))

module _ {P : Type 0} (normalized : String → String)
    (digest : TargetKey → String → Operation → ℤ → P → Bytes) where
  abbrev pub same_key : TerminalMutation P → TerminalMutation P → Bool
  same_key a b = eq_target a.target b.target && str_eq a.record_id b.record_id

  -- terminal_by_key[key] = terminal
  abbrev pub set_terminal :
      TerminalMutation P → List (TerminalMutation P) → List (TerminalMutation P)
  set_terminal t [] = t ∷ []
  set_terminal t (x ∷ xs) =
      let rest = set_terminal t xs in if same_key x t then t ∷ xs else x ∷ rest

  abbrev pub terminal_of : ℤ → ℤ → MutationInput P → Operation → TerminalMutation P
  terminal_of window_seq source_sequence row operation = record {
    target = row.target;
    record_id = row.record_id;
    operation = operation;
    ts = row.ts;
    payload = row.payload;
    window_seq = window_seq;
    source_sequence = source_sequence;
    event_digest = digest row.target row.record_id operation row.ts row.payload;
  }

  abbrev pub conflicts : TerminalMutation P → Option (TerminalMutation P) → Bool
  conflicts t none = false
  conflicts t (some previous) = not (list_eq (λ a b. a == b) previous.event_digest t.event_digest)

  abbrev pub add_terminal :
      TerminalMutation P → List (TerminalMutation P) → Result (List (TerminalMutation P))
  add_terminal t ts =
      raise_if (conflicts t (find_row (λ x. same_key x t) ts))
        (value_error "source snapshot has distinct unordered mutations")
      >> ok (set_terminal t ts)

  -- The loop over the rows.
  unfoldable pub collapse_rows :
      ℤ
      → ℤ
      → List (TerminalMutation P)
      → List (MutationInput P)
      → Result (List (TerminalMutation P))
  unfolding normalize_operation
  collapse_rows window_seq source_sequence ts [] = ok ts
  collapse_rows window_seq source_sequence ts (row ∷ rows) =
      normalize_operation normalized row.operation >>= λ operation.
      add_terminal (terminal_of window_seq source_sequence row operation) ts >>= λ ts'.
      collapse_rows window_seq source_sequence ts' rows

  -- The order of keys.
  abbrev pub key_lt : TerminalMutation P → TerminalMutation P → Bool
  key_lt a b =
      target_lt a.target b.target || (eq_target a.target b.target && str_lt a.record_id b.record_id)

  unfoldable pub collapse_snapshot_mutations :
      List (MutationInput P) → ℤ → ℤ → Result (List (TerminalMutation P))
  unfolding collapse_rows
  collapse_snapshot_mutations rows window_seq source_sequence =
      raise_if (out_of_range window_seq) (value_error "window sequence is outside range")
      >> (raise_if (out_of_range source_sequence) (value_error "source sequence is outside range")
          >> (collapse_rows window_seq source_sequence [] rows >>= λ ts. ok (sort_by key_lt ts)))

  -- `source_digest` is canonical_source_digest.
  abbrev other_target : List (TerminalMutation P) → Bool
  other_target [] = false
  other_target (t ∷ ts) = exists_row (λ x. not (eq_target x.target t.target)) ts

  unfoldable pub terminal_source_digest :
      (List (String × ℤ × Bytes) → Result Bytes) → List (TerminalMutation P) → Result Bytes
  terminal_source_digest source_digest rows =
      raise_if (other_target rows) (value_error "source digest rows must belong to one target")
      >> source_digest (map (λ t. (t.record_id, t.source_sequence, t.event_digest)) rows)
