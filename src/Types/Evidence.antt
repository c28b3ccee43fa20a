-- ===== src/Types/Evidence.antt =====
-- PublicationIndexEvidence and PublicationEvidence of state/types.py.
use lance_etl.Common.{
  ℕ, Bool, false, ◌||◌, not, Option, none, some, List, [], ◌∷◌, Result, ok, value_error, raise_if,
  ◌>>=◌, ◌>>◌, ◌==◌, ltb, length, exists_row, ℤ, pos, negsuc, is_negative, pos_part, nat_eq,
}
use lance_etl.Types.{Bytes}

-- IndexType of state/specs.py
pub data IndexType : Type 0 where
  btree bitmap zonemap inverted ivf_rq : IndexType

pub record PublicationIndexEvidence : Type 0 where
  pub index_definition_id : ℕ
  pub actual_index_type : IndexType
  pub indexed_fragment_count : ℤ
  pub unindexed_fragment_count : ℤ
  pub artifact_generation_digest : Option Bytes

pub record PublicationEvidence : Type 0 where
  pub schema_digest : Bytes
  pub total_row_count : ℤ
  pub distinct_row_count : ℤ
  pub live_row_count : ℤ
  pub distinct_live_row_count : ℤ
  pub fragment_count : ℤ
  pub indexes : List PublicationIndexEvidence

abbrev pub eq_ℤ : ℤ → ℤ → Bool
eq_ℤ (pos a) (pos b) = a == b
eq_ℤ (pos a) (negsuc b) = false
eq_ℤ (negsuc a) (pos b) = false
eq_ℤ (negsuc a) (negsuc b) = a == b

abbrev bad_digest : Option Bytes → Bool
bad_digest none = false
bad_digest (some digest) = not (length digest == 32)

unfoldable pub validate_index : PublicationIndexEvidence → Result PublicationIndexEvidence
validate_index evidence = do
  raise_if
      (is_negative evidence.indexed_fragment_count || is_negative evidence.unindexed_fragment_count)
      (value_error "publication index fragment counts must be non-negative")
  raise_if (not (eq_ℤ evidence.unindexed_fragment_count (pos 0)))
      (value_error "a published index must cover every fragment")
  raise_if (bad_digest evidence.artifact_generation_digest)
      (value_error "artifact_generation_digest must contain 32 bytes")
  ok evidence

-- The loop over `self.indexes`, with the identities seen so far.
unfoldable pub validate_indexes : List ℕ → List PublicationIndexEvidence → Result (Unit {0})
unfolding validate_index
validate_indexes seen [] = ok tt
validate_indexes seen (evidence ∷ rest) = do
  _ ← validate_index evidence
  raise_if (exists_row (nat_eq evidence.index_definition_id) seen)
      (value_error "publication evidence repeats an index definition")
  validate_indexes (evidence.index_definition_id ∷ seen) rest

unfoldable pub validate_evidence : PublicationEvidence → Result PublicationEvidence
unfolding validate_indexes
validate_evidence evidence = do
  raise_if (not (length evidence.schema_digest == 32))
      (value_error "schema_digest must contain 32 bytes")
  raise_if
      (is_negative evidence.total_row_count
        || is_negative evidence.distinct_row_count
        || is_negative evidence.live_row_count
        || is_negative evidence.distinct_live_row_count
        || is_negative evidence.fragment_count)
      (value_error "publication counts must be non-negative")
  raise_if (not (eq_ℤ evidence.distinct_row_count evidence.total_row_count))
      (value_error "publication rows must be distinct")
  raise_if (ltb (pos_part evidence.total_row_count) (pos_part evidence.live_row_count))
      (value_error "publication live rows exceed total rows")
  raise_if (not (eq_ℤ evidence.distinct_live_row_count evidence.live_row_count))
      (value_error "publication live rows must be distinct")
  validate_indexes [] evidence.indexes
  ok evidence
