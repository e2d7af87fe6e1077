-- ===== src/Registry/Retry.antt =====
-- Which failures are tried again, and after what delay: `retryable_http_status` to
-- `integer_retry_after` of src/registry.cpp.
use native.Mathlib.Nat.{mul_assoc, le-mul_of_pos_right, pow-succ', one-le-pow}
use mcp_observatory.Prelude.{
  ℕ, ltb, ◌==◌, if◌then◌else◌, zero, suc, ◌-◌, ◌*◌, ◌/◌, ◌%◌, ◌^◌, ◌<◌, min, Bytes, ascii, null,
  all, ◌≡◌, Bool, true, false, not, ◌&&◌, ◌||◌, Option, none, some, sym, arith, Bool-cases, ℤ, pos,
  negsuc, ◌≤◌, inl, inr,
}
use mcp_observatory.Scan.{is_digit, decimal}
use mcp_observatory.Registry.Policy.{RegistryRuntimePolicy, as_uint64}

-- `no_failure` is `HttpFailureKind::none`.
pub data HttpFailureKind : Type 0 where
  no_failure timeout temporary_network tls protocol cancelled response_too_large local_io other :
      HttpFailureKind

pub record HttpResponse : Type 0 where
  pub status : ℕ
  pub content_type : Bytes
  pub body : Bytes
  pub effective_url : Bytes
  pub location : Option Bytes
  pub retry_after : Option Bytes
  pub failure_kind : HttpFailureKind

unfoldable pub retryable_http_status : ℕ → Bool
retryable_http_status status =
    status == 408
    || status == 425
    || status == 429
    || status == 500
    || status == 502
    || status == 503
    || status == 504

unfoldable pub retryable_transport_failure : HttpFailureKind → Bool
retryable_transport_failure timeout = true
retryable_transport_failure temporary_network = true
retryable_transport_failure _ = false

unfoldable pub transport_failure_category : HttpFailureKind → Bytes
transport_failure_category timeout = ascii "request_timeout"
transport_failure_category temporary_network = ascii "temporary_network"
transport_failure_category tls = ascii "tls_failure"
transport_failure_category protocol = ascii "protocol_failure"
transport_failure_category cancelled = ascii "cancelled"
transport_failure_category response_too_large = ascii "oversized_response"
transport_failure_category local_io = ascii "local_io_failure"
transport_failure_category other = ascii "http_error"
transport_failure_category no_failure = ascii "http_error"

-- The loop of `exponential_retry_delay`, with the number of rounds that `index` leaves.
unfoldable pub doubled : ℕ → ℕ → ℕ → ℕ
doubled zero delay cap = delay
doubled (suc rounds) delay cap =
    let rest = doubled rounds (delay * 2 % 2 ^ 64) cap in
    if not (ltb delay cap) then delay else if ltb (cap / 2) delay then cap else rest

unfoldable pub exponential_retry_delay : RegistryRuntimePolicy → ℕ → ℕ
exponential_retry_delay policy failed_attempt =
    let cap = as_uint64 policy.retry_maximum in
    min (doubled (failed_attempt - 1) (as_uint64 policy.retry_initial) cap) cap

-- `std::from_chars` on digits: the value, unless it needs more than 64 bits
unfoldable pub from_digits : Bytes → Option ℕ
from_digits text = let value = decimal 0 text in if ltb value (2 ^ 64) then some value else none

abbrev retry_seconds : RegistryRuntimePolicy → Option Bytes → Option ℕ
retry_seconds policy none = none
retry_seconds policy (some text) =
    if null text || not (all is_digit text) then none else elim (from_digits text) [
      | none ↦ none
      | some seconds ↦ some (min seconds (as_uint64 policy.retry_maximum))
    ]

unfoldable pub integer_retry_after : HttpResponse → RegistryRuntimePolicy → Option ℕ
integer_retry_after response policy =
    if not (response.status == 429) && not (response.status == 503)
    then none
    else retry_seconds policy response.retry_after

-- `integer_retry_after(...).value_or(exponential_retry_delay(...))` of `collect_registry`
unfoldable pub retry_delay : HttpResponse → RegistryRuntimePolicy → ℕ → ℕ
retry_delay response policy attempt = elim (integer_retry_after response policy) [
  | none ↦ exponential_retry_delay policy attempt
  | some seconds ↦ seconds
]

-- twice as much, one power lower
twice_power : (delay rounds : ℕ) → delay * 2 ^ suc rounds ≡ delay * 2 * 2 ^ rounds
twice_power delay rounds = rw (pow-succ' 2 rounds) (sym (mul_assoc delay 2 (2 ^ rounds)))

-- the doubling loop does not leave 64 bits
doubled-power :
    (rounds delay cap : ℕ)
    → cap < 2 ^ 64
    → min (doubled rounds delay cap) cap ≡ min (delay * 2 ^ rounds) cap
unfolding doubled
doubled-power zero delay cap b = ground arith
doubled-power (suc rounds) delay cap b = ground (
  arith,
  twice_power delay rounds,
  le-mul_of_pos_right delay (one-le-pow (suc rounds) 2 (omega arith)),
  le-mul_of_pos_right (delay * 2) (one-le-pow rounds 2 (omega arith)),
  doubled-power rounds (delay * 2 % 2 ^ 64) cap b,
)

as_uint64-lt : (z : ℤ) → as_uint64 z < 2 ^ 64
as_uint64-lt (pos n) = ground arith
as_uint64-lt (negsuc n) = ground arith

-- After the k-th failed attempt the delay is the initial delay doubled k - 1 times, cut off at the
-- maximum delay.
pub exponential_retry_delay_exact :
    (policy : RegistryRuntimePolicy) (failed_attempt : ℕ)
    → exponential_retry_delay policy failed_attempt
      ≡ min
          (as_uint64 policy.retry_initial * 2 ^ (failed_attempt - 1))
          (as_uint64 policy.retry_maximum)
unfolding exponential_retry_delay
exponential_retry_delay_exact policy k =
    doubled-power (k - 1) (as_uint64 policy.retry_initial) (as_uint64 policy.retry_maximum)
      (as_uint64-lt policy.retry_maximum)

min-le : (a b : ℕ) → min a b ≤ b
min-le a b = omega arith

-- the value of an option is at most `top`
abbrev AtMost : ℕ → Option ℕ → Type 0
AtMost top none = Unit
AtMost top (some n) = n ≤ top

retry_seconds-AtMost :
    (policy : RegistryRuntimePolicy) (text : Option Bytes)
    → AtMost (as_uint64 policy.retry_maximum) (retry_seconds policy text)
retry_seconds-AtMost policy none = tt
retry_seconds-AtMost policy (some text) =
    go (null text || not (all is_digit text)) (from_digits text)
  where
    go :
        (b : Bool) (o : Option ℕ)
        → AtMost (as_uint64 policy.retry_maximum) (
            if b then none else elim o [
              | none ↦ none
              | some seconds ↦ some (min seconds (as_uint64 policy.retry_maximum))
            ])
    go true o = tt
    go false none = tt
    go false (some n) = min-le n (as_uint64 policy.retry_maximum)

integer_retry_after-AtMost :
    (response : HttpResponse) (policy : RegistryRuntimePolicy)
    → AtMost (as_uint64 policy.retry_maximum) (integer_retry_after response policy)
unfolding integer_retry_after
integer_retry_after-AtMost response policy =
    elim (Bool-cases (not (response.status == 429) && not (response.status == 503))) [
      | inl b ↦ rw b tt
      | inr b ↦ rw b (retry_seconds-AtMost policy response.retry_after)
    ]

-- Whatever the server answers, the wait before the next attempt is at most the maximum delay of
-- the policy.
pub retry_delay-le :
    (response : HttpResponse) (policy : RegistryRuntimePolicy) (attempt : ℕ)
    → retry_delay response policy attempt ≤ as_uint64 policy.retry_maximum
unfolding retry_delay exponential_retry_delay
retry_delay-le response policy attempt =
    go (integer_retry_after response policy) (integer_retry_after-AtMost response policy)
  where
    go :
        (o : Option ℕ)
        → AtMost (as_uint64 policy.retry_maximum) o
        → (elim o [ none ↦ exponential_retry_delay policy attempt | some seconds ↦ seconds ])
          ≤ as_uint64 policy.retry_maximum
    go none h = min-le _ _
    go (some n) h = h
