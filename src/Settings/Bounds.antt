-- ===== src/Settings/Bounds.antt =====
-- state/settings.py: which settings are accepted, and how long a retry waits.
use Prim.Native.String.{◌++◌ as append}
use lance_etl.Common.{
  ℕ, zero, suc, ◌-◌, ◌*◌, ◌^◌, ◌≤◌, ◌<◌, ◌≡◌, ◌⊎◌, inl, inr, refl, sym, ◌∙◌, String, Bool, true,
  false, ◌||◌, ok, err, value_error, arith, Bool-cases, ltb, leb, ℤ, pos, negsuc, is_nonpositive,
  pos_part, Option, [], ◌∷◌, All, length, take, length-take, ◌+◌,
}
use lance_etl.Types.{Bytes}
use lance_etl.Types.Ids.{Uuids}
use lance_etl.Settings.{
  ReconcilerSettings, validate_settings, min_nat, retry_cap, retry_delay, from_bytes,
  round_half_even, sampled, id_text,
}

unfoldable pub IsPositive : ℤ → Type 0
IsPositive z = (n : ℕ) × (z ≡ pos (suc n))

-- What the control loop asks of its settings.
pub record IsValid (s : ReconcilerSettings) : Type 0 where
  pub claim_batch_size : IsPositive s.claim_batch_size
  pub max_drain_batches : IsPositive s.max_drain_batches
  pub max_snapshots_per_plan : IsPositive s.max_snapshots_per_plan
  pub max_attempts : IsPositive s.max_attempts
  pub max_due_work : IsPositive s.max_due_work
  pub cleanup_batch_size : IsPositive s.cleanup_batch_size
  pub poll_interval : IsPositive s.poll_interval
  pub lease_duration : IsPositive s.lease_duration
  pub lease_heartbeat_interval : IsPositive s.lease_heartbeat_interval
  pub max_open_work_age : IsPositive s.max_open_work_age
  pub max_retention_age : IsPositive s.max_retention_age
  pub audit_retention : IsPositive s.audit_retention
  pub retry_base_delay : IsPositive s.retry_base_delay
  pub heartbeat : pos_part s.lease_heartbeat_interval < pos_part s.lease_duration
  pub retries : pos_part s.retry_base_delay ≤ pos_part s.retry_max_delay

IsPositive-by : (z : ℤ) → is_nonpositive z ≡ false → IsPositive z
unfolding IsPositive
IsPositive-by (pos zero) h = absurd (ground (arith, h))
IsPositive-by (pos (suc n)) h = (n, refl)
IsPositive-by (negsuc n) h = cc

IsPositive-not : (z : ℤ) → IsPositive z → is_nonpositive z ≡ false
unfolding IsPositive
IsPositive-not z (n, q) = rw q (ground arith)

or-false : (a b : Bool) → (a || b) ≡ false → (a ≡ false) × (b ≡ false)
or-false true b h = cc
or-false false b h = (refl, h)

-- The four checks, in the order of the code.
abbrev bad_counts : ReconcilerSettings → Bool
bad_counts s =
    is_nonpositive s.claim_batch_size
    || (is_nonpositive s.max_drain_batches
        || (is_nonpositive s.max_snapshots_per_plan
            || (is_nonpositive s.max_attempts
                || (is_nonpositive s.max_due_work || is_nonpositive s.cleanup_batch_size))))

abbrev bad_durations : ReconcilerSettings → Bool
bad_durations s =
    is_nonpositive s.poll_interval
    || (is_nonpositive s.lease_duration
        || (is_nonpositive s.lease_heartbeat_interval
            || (is_nonpositive s.max_open_work_age
                || (is_nonpositive s.max_retention_age || is_nonpositive s.audit_retention))))

abbrev bad_retries : ReconcilerSettings → Bool
bad_retries s =
    is_nonpositive s.retry_base_delay
    || ltb (pos_part s.retry_max_delay) (pos_part s.retry_base_delay)

abbrev bad_heartbeat : ReconcilerSettings → Bool
bad_heartbeat s = leb (pos_part s.lease_duration) (pos_part s.lease_heartbeat_interval)

IsValid-checks :
    (s : ReconcilerSettings)
    → IsValid s
    → ((bad_counts s ≡ false) × (bad_durations s ≡ false))
      × ((bad_heartbeat s ≡ false) × (bad_retries s ≡ false))
IsValid-checks s v = (
  (
    rw
        (
          IsPositive-not s.claim_batch_size v.claim_batch_size,
          IsPositive-not s.max_drain_batches v.max_drain_batches,
          IsPositive-not s.max_snapshots_per_plan v.max_snapshots_per_plan,
          IsPositive-not s.max_attempts v.max_attempts,
          IsPositive-not s.max_due_work v.max_due_work,
          IsPositive-not s.cleanup_batch_size v.cleanup_batch_size,
        )
        refl,
    rw
        (
          IsPositive-not s.poll_interval v.poll_interval,
          IsPositive-not s.lease_duration v.lease_duration,
          IsPositive-not s.lease_heartbeat_interval v.lease_heartbeat_interval,
          IsPositive-not s.max_open_work_age v.max_open_work_age,
          IsPositive-not s.max_retention_age v.max_retention_age,
          IsPositive-not s.audit_retention v.audit_retention,
        )
        refl,
  ),
  (
    (let h = v.heartbeat in ground (arith, h)),
    (let h = v.retries in
        rw (IsPositive-not s.retry_base_delay v.retry_base_delay) (ground (arith, h))),
  ),
)

checks-IsValid :
    (s : ReconcilerSettings)
    → bad_counts s ≡ false
    → bad_durations s ≡ false
    → bad_heartbeat s ≡ false
    → bad_retries s ≡ false
    → IsValid s
checks-IsValid s counts durations heartbeat retries =
    let c1 = or-false _ _ counts in
    let c2 = or-false _ _ c1.1 in
    let c3 = or-false _ _ c2.1 in
    let c4 = or-false _ _ c3.1 in
    let c5 = or-false _ _ c4.1 in
    let d1 = or-false _ _ durations in
    let d2 = or-false _ _ d1.1 in
    let d3 = or-false _ _ d2.1 in
    let d4 = or-false _ _ d3.1 in
    let d5 = or-false _ _ d4.1 in
    let r = or-false _ _ retries in
    let r1 = r.1 in
    record {
      claim_batch_size = IsPositive-by _ c1.0;
      max_drain_batches = IsPositive-by _ c2.0;
      max_snapshots_per_plan = IsPositive-by _ c3.0;
      max_attempts = IsPositive-by _ c4.0;
      max_due_work = IsPositive-by _ c5.0;
      cleanup_batch_size = IsPositive-by _ c5.1;
      poll_interval = IsPositive-by _ d1.0;
      lease_duration = IsPositive-by _ d2.0;
      lease_heartbeat_interval = IsPositive-by _ d3.0;
      max_open_work_age = IsPositive-by _ d4.0;
      max_retention_age = IsPositive-by _ d5.0;
      audit_retention = IsPositive-by _ d5.1;
      retry_base_delay = IsPositive-by _ r.0;
      heartbeat = ground (arith, heartbeat);
      retries = ground (arith, r1);
    }

true_ne_false : true ≡ false → ⊥
true_ne_false h = cc

-- Settings are accepted, unchanged, exactly if they are valid; others raise ValueError.
pub validate_settings-IsValid :
    (s : ReconcilerSettings)
    → ((validate_settings s ≡ ok s) × IsValid s)
      ⊎ ((message : String) × ((validate_settings s ≡ err (value_error message)) × (¬ IsValid s)))
unfolding validate_settings
validate_settings-IsValid s = elim (Bool-cases (bad_counts s)) [
  | inl t ↦ inr (
    "reconciler queue and planning counts must be positive",
    (rw t refl, λ v. true_ne_false (sym t ∙ (IsValid-checks s v).0.0)),
  )
  | inr counts ↦ elim (Bool-cases (bad_durations s)) [
    | inl t ↦ inr (
      "reconciler timing and SLO durations must be positive",
      (rw (counts, t) refl, λ v. true_ne_false (sym t ∙ (IsValid-checks s v).0.1)),
    )
    | inr durations ↦ elim (Bool-cases (bad_heartbeat s)) [
      | inl t ↦ inr (
        "lease heartbeat interval must be shorter than the lease duration",
        (rw (counts, durations, t) refl, λ v. true_ne_false (sym t ∙ (IsValid-checks s v).1.0)),
      )
      | inr heartbeat ↦ elim (Bool-cases (bad_retries s)) [
        | inl t ↦ inr (
          "retry delays must be positive and monotonically bounded",
          (
            rw (counts, durations, heartbeat, t) refl,
            λ v. true_ne_false (sym t ∙ (IsValid-checks s v).1.1),
          ),
        )
        | inr retries ↦ inl (
          rw (counts, durations, heartbeat, retries) refl,
          checks-IsValid s counts durations heartbeat retries,
        )
      ]
    ]
  ]
]

pow_pos : (e : ℕ) → 1 ≤ 2 ^ e
pow_pos zero = omega arith
pow_pos (suc e) = omega (arith, pow_pos e)

pow_mono : (a b : ℕ) → a ≤ b → 2 ^ a ≤ 2 ^ b
pow_mono zero b h = pow_pos b
pow_mono (suc a) zero h = absurd (omega arith)
pow_mono (suc a) (suc b) h = omega (arith, pow_mono a b (omega arith))

min-le : (a b c d : ℕ) → a ≤ c → b ≤ d → min_nat a b ≤ min_nat c d
min-le a b c d h k = ground arith

min-bounds : (a b : ℕ) → (min_nat a b ≤ a) × (min_nat a b ≤ b)
min-bounds a b = ground arith

at_least : (b a m : ℕ) → b ≤ a → b ≤ m → b ≤ min_nat a m
at_least b a m h k = ground arith

times_mono : (k a b : ℕ) → a ≤ b → k * a ≤ k * b
times_mono k a b h = grind arith

-- What SHA-256 returns is a list of bytes.
abbrev pub IsBytes : Bytes → Type 0
IsBytes bs = All (λ b. b < 256) bs

widened : (y z p : ℕ) {x : ℕ} → y ≤ z * 256 → x ≤ y * p → x ≤ z * (256 * p)
widened y z p {x} h k =
    let grown : p * y ≤ p * (z * 256) = times_mono p y (z * 256) h in grind (arith, grown, k)

from_bytes-lt :
    (n k : ℕ) (bs : Bytes) → IsBytes bs → length bs ≤ k → suc (from_bytes n bs) ≤ suc n * 256 ^ k
unfolding from_bytes
from_bytes-lt n zero [] h l = omega arith
from_bytes-lt n (suc k) [] h l =
    let rest : suc n ≤ suc n * 256 ^ k = from_bytes-lt n k [] h (omega arith) in grind (arith, rest)
from_bytes-lt n zero (b ∷ bs) h l = absurd (omega (arith, l))
from_bytes-lt n (suc k) (b ∷ bs) h l =
    let rest = from_bytes-lt (n * 256 + b) k bs h.1 (omega (arith, l)) in
    let small : suc (n * 256 + b) ≤ suc n * 256 = omega (arith, h.0) in
    let step : 256 * 256 ^ k ≡ 256 ^ suc k = omega arith in
    rw (← step) (widened (suc (n * 256 + b)) (suc n) (256 ^ k) small rest)

take-IsBytes : (k : ℕ) (bs : Bytes) → IsBytes bs → IsBytes (take k bs)
take-IsBytes zero bs h = tt
take-IsBytes (suc k) [] h = tt
take-IsBytes (suc k) (b ∷ bs) h = (h.0, take-IsBytes k bs h.1)

round_half_even-le :
    (cap p : ℕ) → p ≤ cap * 18_446_744_073_709_551_615 → round_half_even p (2 ^ 64 - 1) ≤ cap
unfolding round_half_even
round_half_even-le cap p h = ground arith

-- A sample of the cap never exceeds it.
sampled-le : (cap : ℕ) (digest : Bytes) → IsBytes digest → sampled cap digest ≤ cap
unfolding sampled
sampled-le cap digest h =
    let n = from_bytes 0 (take 8 digest) in
    let small : suc n ≤ 18_446_744_073_709_551_616 =
      from_bytes-lt 0 8 (take 8 digest) (take-IsBytes 8 digest h) (length-take 8 digest) in
    let part = times_mono cap n 18_446_744_073_709_551_615 (omega (arith, small)) in
    round_half_even-le cap (cap * n) part

-- For valid settings, and a hash that returns bytes, the delay of any attempt from the first on is
-- defined and at most the attempt's cap; the cap lies between the two configured delays, and a
-- later attempt never has a smaller cap.
pub retry_delay_bounded :
    (u : Uuids) (sha256 : String → Bytes) (s : ReconcilerSettings) (attempt later : ℕ)
    (work_id : Option ℕ)
    → IsValid s
    → ((text : String) → IsBytes (sha256 text))
    → 1 ≤ attempt
    → attempt ≤ later
    → ((delay : ℕ) × ((retry_delay u sha256 s attempt work_id ≡ ok delay)
          × (delay ≤ retry_cap s attempt)))
      × ((pos_part s.retry_base_delay ≤ retry_cap s attempt)
          × (retry_cap s attempt ≤ retry_cap s later)
          × (retry_cap s later ≤ pos_part s.retry_max_delay))
unfolding retry_delay retry_cap
retry_delay_bounded u sha256 s attempt later work_id v hashed first h =
    let base = pos_part s.retry_base_delay in
    let top = pos_part s.retry_max_delay in
    let e = min_nat (attempt - 1) 10 in
    let e' = min_nat (later - 1) 10 in
    let fresh : ltb attempt 1 ≡ false = ground arith in
    let step = pow_mono e e' (min-le (attempt - 1) 10 (later - 1) 10 (omega arith) (omega arith)) in
    let seed = append (id_text u sha256 work_id) (append ":" (u.int_text attempt)) in
    let ordered = v.retries in
    let one = times_mono base 1 (2 ^ e) (pow_pos e) in
    (
      (
        sampled (retry_cap s attempt) (sha256 seed),
        (rw fresh refl, sampled-le (retry_cap s attempt) (sha256 seed) (hashed seed)),
      ),
      (
        at_least base (base * 2 ^ e) top (omega (arith, one)) ordered,
        min-le (base * 2 ^ e) top (base * 2 ^ e') top (times_mono base (2 ^ e) (2 ^ e') step)
            (omega arith),
        (min-bounds (base * 2 ^ e') top).1,
      ),
    )
