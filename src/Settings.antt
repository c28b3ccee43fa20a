-- ===== src/Settings.antt =====
-- state/settings.py: the operational settings of the reconciler. A duration is a number of
-- microseconds. The environment is a function from names to texts; Python's `int` of a text, and
-- SHA-256, are parameters. A `float` is the exact number, so its rounding is left out, and only the
-- rounding of `timedelta` to microseconds is modelled. The ranges of both are not modelled.
pub mod Bounds
use Prim.Native.String.{◌++◌}
use lance_etl.Common.{
  ℕ, suc, ◌+◌, ◌-◌, ◌*◌, ◌^◌, String, Bool, true, false, ◌||◌, Option, none, some, Result, ok, err,
  value_error, raise_if, ◌>>=◌, ◌>>◌, ltb, leb, if◌then◌else◌, ℤ, pos, negsuc, is_nonpositive,
  pos_part, List, [], ◌∷◌, ◌/◌, ◌%◌, ◌==◌, take,
}
use lance_etl.Types.{Bytes}
use lance_etl.Types.Ids.{Uuids}
use lance_etl.Types.Plan.{is_blank}

pub record ReconcilerSettings : Type 0 where
  pub poll_interval : ℤ
  pub claim_batch_size : ℤ
  pub max_drain_batches : ℤ
  pub max_snapshots_per_plan : ℤ
  pub lease_duration : ℤ
  pub lease_heartbeat_interval : ℤ
  pub retry_base_delay : ℤ
  pub retry_max_delay : ℤ
  pub max_attempts : ℤ
  pub max_due_work : ℤ
  pub max_open_work_age : ℤ
  pub max_retention_age : ℤ
  pub audit_retention : ℤ
  pub cleanup_batch_size : ℤ

-- timedelta(seconds=n)
abbrev pub seconds : ℤ → ℤ
seconds (pos n) = pos (n * 1_000_000)
seconds (negsuc n) = negsuc (n * 1_000_000 + 999_999)

abbrev pub default_settings : ReconcilerSettings
default_settings = record {
  poll_interval = pos 30_000_000;
  claim_batch_size = pos 1;
  max_drain_batches = pos 64;
  max_snapshots_per_plan = pos 32;
  lease_duration = pos 900_000_000;
  lease_heartbeat_interval = pos 300_000_000;
  retry_base_delay = pos 30_000_000;
  retry_max_delay = pos 1_800_000_000;
  max_attempts = pos 10;
  max_due_work = pos 10_000;
  max_open_work_age = pos 3_600_000_000;
  max_retention_age = pos 86_400_000_000;
  audit_retention = pos 2_592_000_000_000;
  cleanup_batch_size = pos 128;
}

-- The checks that follow the first compare durations that it has shown to be positive.
unfoldable pub validate_settings : ReconcilerSettings → Result ReconcilerSettings
validate_settings s = do
  raise_if
      (is_nonpositive s.claim_batch_size
        || (is_nonpositive s.max_drain_batches
            || (is_nonpositive s.max_snapshots_per_plan
                || (is_nonpositive s.max_attempts
                    || (is_nonpositive s.max_due_work || is_nonpositive s.cleanup_batch_size)))))
      (value_error "reconciler queue and planning counts must be positive")
  raise_if
      (is_nonpositive s.poll_interval
        || (is_nonpositive s.lease_duration
            || (is_nonpositive s.lease_heartbeat_interval
                || (is_nonpositive s.max_open_work_age
                    || (is_nonpositive s.max_retention_age || is_nonpositive s.audit_retention)))))
      (value_error "reconciler timing and SLO durations must be positive")
  raise_if (leb (pos_part s.lease_duration) (pos_part s.lease_heartbeat_interval))
      (value_error "lease heartbeat interval must be shorter than the lease duration")
  raise_if
      (is_nonpositive s.retry_base_delay
        || ltb (pos_part s.retry_max_delay) (pos_part s.retry_base_delay))
      (value_error "retry delays must be positive and monotonically bounded")
  ok s

abbrev pub min_nat : ℕ → ℕ → ℕ
min_nat a b = if leb a b then a else b

-- The cap of a retry's delay, before the jitter; subtraction stops at 0, as `max(0, …)` does.
unfoldable pub retry_cap : ReconcilerSettings → ℕ → ℕ
retry_cap s attempt_count =
    let exponent = min_nat (attempt_count - 1) 10 in
    min_nat (pos_part s.retry_base_delay * 2 ^ exponent) (pos_part s.retry_max_delay)

-- int.from_bytes(…, "big"), after the bytes that `n` stands for
unfoldable pub from_bytes : ℕ → Bytes → ℕ
from_bytes n [] = n
from_bytes n (b ∷ bs) = from_bytes (n * 256 + b) bs

-- A quotient to the nearest integer, and to the even one of two that are as near: how `timedelta`
-- rounds to microseconds.
unfoldable pub round_half_even : ℕ → ℕ → ℕ
round_half_even p q =
    let n = p / q in
    let twice = p % q * 2 in
    if ltb twice q then n else if ltb q twice then suc n else if n % 2 == 0 then n else suc n

-- `cap_seconds * sample`, the sample being the first eight bytes over the greatest number that
-- they can hold.
unfoldable pub sampled : ℕ → Bytes → ℕ
unfolding from_bytes round_half_even
sampled cap digest = round_half_even (cap * from_bytes 0 (take 8 digest)) (2 ^ 64 - 1)

module _ (u : Uuids) (sha256 : String → Bytes) where
  abbrev pub id_text : Option ℕ → String
  id_text none = "reconciler"
  id_text (some work_id) = u.uuid_text work_id

  -- `sha256` is `hashlib.sha256` of the bytes of a text.
  unfoldable pub retry_delay : ReconcilerSettings → ℕ → Option ℕ → Result ℕ
  unfolding retry_cap sampled
  retry_delay s attempt_count work_id = do
    raise_if (ltb attempt_count 1) (value_error "attempt_count must be positive")
    let seed = id_text work_id ++ (":" ++ u.int_text attempt_count)
    ok (sampled (retry_cap s attempt_count) (sha256 seed))

-- int(raw)
abbrev pub parsed : Option ℤ → Result ℤ
parsed none = err (value_error "invalid literal for int() with base 10")
parsed (some n) = ok n

module _ (parse_int : String → Option ℤ) (source : String → Option String) where
  abbrev pub int_or : Option String → ℤ → Result ℤ
  int_or none default_value = ok default_value
  int_or (some raw) default_value =
      if is_blank raw then ok default_value else parsed (parse_int raw)

  unfoldable pub env_int : String → ℤ → Result ℤ
  env_int name default_value = int_or (source name) default_value

  abbrev pub seconds_or : Option String → ℤ → Result ℤ
  seconds_or none default_value = ok default_value
  seconds_or (some raw) default_value =
      if is_blank raw then ok default_value else (parsed (parse_int raw) >>= λ n. ok (seconds n))

  unfoldable pub env_seconds : String → ℤ → Result ℤ
  env_seconds name default_value = seconds_or (source name) default_value

  unfoldable pub from_environment : Result ReconcilerSettings
  unfolding env_int env_seconds validate_settings
  from_environment = do
    poll_interval ← env_seconds "LANCE_ETL_POLL_INTERVAL_SECONDS" default_settings.poll_interval
    claim_batch_size ← env_int "LANCE_ETL_CLAIM_BATCH_SIZE" default_settings.claim_batch_size
    max_drain_batches ← env_int "LANCE_ETL_MAX_DRAIN_BATCHES" default_settings.max_drain_batches
    max_snapshots_per_plan ←
        env_int "LANCE_ETL_MAX_SNAPSHOTS_PER_PLAN" default_settings.max_snapshots_per_plan
    lease_duration ← env_seconds "LANCE_ETL_LEASE_DURATION_SECONDS" default_settings.lease_duration
    lease_heartbeat_interval ←
        env_seconds "LANCE_ETL_LEASE_HEARTBEAT_SECONDS" default_settings.lease_heartbeat_interval
    retry_base_delay ←
        env_seconds "LANCE_ETL_RETRY_BASE_DELAY_SECONDS" default_settings.retry_base_delay
    retry_max_delay ←
        env_seconds "LANCE_ETL_RETRY_MAX_DELAY_SECONDS" default_settings.retry_max_delay
    max_attempts ← env_int "LANCE_ETL_MAX_ATTEMPTS" default_settings.max_attempts
    max_due_work ← env_int "LANCE_ETL_MAX_DUE_WORK" default_settings.max_due_work
    max_open_work_age ←
        env_seconds "LANCE_ETL_MAX_OPEN_WORK_AGE_SECONDS" default_settings.max_open_work_age
    max_retention_age ←
        env_seconds "LANCE_ETL_MAX_RETENTION_AGE_SECONDS" default_settings.max_retention_age
    audit_retention ←
        env_seconds "LANCE_ETL_AUDIT_RETENTION_SECONDS" default_settings.audit_retention
    cleanup_batch_size ← env_int "LANCE_ETL_CLEANUP_BATCH_SIZE" default_settings.cleanup_batch_size
    validate_settings (record {
      poll_interval = poll_interval;
      claim_batch_size = claim_batch_size;
      max_drain_batches = max_drain_batches;
      max_snapshots_per_plan = max_snapshots_per_plan;
      lease_duration = lease_duration;
      lease_heartbeat_interval = lease_heartbeat_interval;
      retry_base_delay = retry_base_delay;
      retry_max_delay = retry_max_delay;
      max_attempts = max_attempts;
      max_due_work = max_due_work;
      max_open_work_age = max_open_work_age;
      max_retention_age = max_retention_age;
      audit_retention = audit_retention;
      cleanup_batch_size = cleanup_batch_size;
    })
