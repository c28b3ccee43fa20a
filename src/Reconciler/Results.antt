-- ===== src/Reconciler/Results.antt =====
-- reconciler/results.py: what a worker returns for a claim, and the fields that each kind requires.
use lance_etl.Common.{
  ℕ, String, Bool, false, ◌&&◌, not, Option, none, some, Result, ok, err, value_error, raise_if,
  ◌>>=◌, ◌>>◌, ◌==◌, length, str_eq, if◌then◌else◌, ℤ, is_negative, is_nonpositive,
}
use lance_etl.Types.{Bytes, WorkClaim}
use lance_etl.Types.Evidence.{PublicationEvidence, validate_evidence}
use lance_etl.Types.Plan.{is_none}

pub data ResultKind : Type 0 where
  ingest_succeeded publish_succeeded retry_later blocked : ResultKind

pub record WorkResult : Type 0 where
  pub claim : WorkClaim
  pub kind : ResultKind
  pub data_lance_version : Option ℤ
  pub indexed_lance_version : Option ℤ
  pub source_row_count : Option ℤ
  pub source_digest : Option Bytes
  pub candidate_lance_uri : Option String
  pub manifest_uri : Option String
  pub manifest_digest : Option Bytes
  pub publication_evidence : Option PublicationEvidence
  pub error_code : Option String
  pub error_message : Option String

abbrev pub positive_int : Option ℤ → Bool
positive_int none = false
positive_int (some n) = not (is_nonpositive n)

abbrev pub count_int : Option ℤ → Bool
count_int none = false
count_int (some n) = not (is_negative n)

abbrev pub digest_32 : Option Bytes → Bool
digest_32 none = false
digest_32 (some digest) = length digest == 32

-- bool(value)
abbrev pub nonempty : Option String → Bool
nonempty none = false
nonempty (some s) = not (str_eq s "")

abbrev check_evidence : WorkResult → Option PublicationEvidence → Result WorkResult
check_evidence r none = ok r
check_evidence r (some evidence) = validate_evidence evidence >>= λ _. ok r

abbrev pub validate_kind : WorkResult → ResultKind → Result WorkResult
validate_kind r ResultKind.ingest_succeeded = do
  raise_if
      (not (
        positive_int r.data_lance_version
        && (count_int r.source_row_count && digest_32 r.source_digest)))
      (value_error
        "INGEST success requires exact Lance version, row count, and 32-byte source digest")
  ok r
validate_kind r ResultKind.publish_succeeded = do
  raise_if
      (not (
        positive_int r.indexed_lance_version
        && (nonempty r.candidate_lance_uri
            && (nonempty r.manifest_uri
                && (digest_32 r.manifest_digest && not (is_none r.publication_evidence))))))
      (value_error
        "PUBLISH success requires candidate URI, exact version, manifest, and publication evidence")
  check_evidence r r.publication_evidence
validate_kind r ResultKind.retry_later = do
  raise_if (not (nonempty r.error_code))
      (value_error "failure result requires a bounded error_code")
  ok r
validate_kind r ResultKind.blocked = do
  raise_if (not (nonempty r.error_code))
      (value_error "failure result requires a bounded error_code")
  ok r

unfoldable pub validate_result : WorkResult → Result WorkResult
validate_result r = validate_kind r r.kind

-- required_int, required_bytes and required_publication_evidence
abbrev pub required {ℓ} : {A : Type ℓ} → String → Option A → Result A
required message none = err (value_error message)
required message (some a) = ok a

abbrev pub required_int : Option ℤ → Result ℤ
required_int = required "required integer result field is absent"

abbrev pub required_bytes : Option Bytes → Result Bytes
required_bytes = required "required bytes result field is absent"

abbrev pub required_publication_evidence : Option PublicationEvidence → Result PublicationEvidence
required_publication_evidence = required "required publication evidence result field is absent"

abbrev pub required_str : Option String → Result String
required_str none = err (value_error "required string result field is absent")
required_str (some s) =
    if str_eq s "" then err (value_error "required string result field is absent") else ok s

-- value or ""
abbrev pub text_or_empty : Option String → String
text_or_empty none = ""
text_or_empty (some s) = s

pub record DispatchSummary : Type 0 where
  pub claimed : ℕ
  pub succeeded : ℕ
  pub advanced : ℕ
  pub retried : ℕ
  pub blocked : ℕ
  pub stale : ℕ

pub record ReconcileSummary : Type 0 where
  pub inspected : ℕ
  pub reconciled : ℕ
  pub deferred : ℕ
