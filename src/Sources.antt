-- ===== src/Sources.antt =====
-- The source that `source_from_row` of state/repository.py decodes, and its validation in
-- state/types.py, but for the sign of the canonical baseline, a column that is left out and that a
-- constraint of the table keeps from being negative.
use Prim.Native.Char.{code}
use Prim.Native.String.{[], ◌∷◌}
use lance_etl.Common.{
  ℕ, String, Bool, false, ◌&&◌, ◌||◌, not, Result, ok, value_error, raise_if, ◌>>◌, leb, ◌==◌,
}
use lance_etl.Types.Ids.{all_chars, segment_char, str_len}
use lance_etl.Types.Plan.{is_blank}
use lance_etl.Db.{Source}

abbrev is_letter : ℕ → Bool
is_letter c = leb b'A' c && leb c b'Z' || (leb b'a' c && leb c b'z')

abbrev word_char : ℕ → Bool
word_char c = is_letter c || (leb b'0' c && leb c b'9') || c == b'_'

-- A pattern: the first character, the others, and the greatest length.
abbrev matches : (ℕ → Bool) → (ℕ → Bool) → ℕ → String → Bool
matches first rest most [] = false
matches first rest most (c ∷ s) = first (code c) && all_chars rest s && leb (str_len (c ∷ s)) most

-- SOURCE_NAME_PATTERN, IDENTIFIER_PATTERN and TABLE_NAMESPACE_PATTERN
abbrev pub matches_source_name : String → Bool
matches_source_name s = matches is_letter segment_char 128 s

abbrev pub matches_identifier : String → Bool
matches_identifier s = matches (λ c. is_letter c || c == b'_') word_char 128 s

abbrev pub matches_table_namespace : String → Bool
matches_table_namespace s =
    matches (λ c. is_letter c || c == b'_') (λ c. word_char c || c == b'.') 256 s

abbrev pub validate_source : Source → Result Source
validate_source s = do
  raise_if (not (matches_source_name s.source_name)) (value_error "source_name is invalid")
  raise_if (not (matches_identifier s.spark_catalog)) (value_error "spark_catalog is invalid")
  raise_if (not (matches_table_namespace s.table_namespace))
      (value_error "table_namespace is invalid")
  raise_if (not (matches_identifier s.table_name)) (value_error "table_name is invalid")
  raise_if (is_blank s.lance_base_uri) (value_error "lance_base_uri must be non-empty")
  raise_if (s.replay_horizon == 0) (value_error "replay_horizon must be positive")
  ok s

abbrev pub source_from_row : Source → Result Source
source_from_row s = validate_source s
