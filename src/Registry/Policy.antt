-- ===== src/Registry/Policy.antt =====
-- `RegistryRuntimePolicy` of include/observatory/registry.hpp and `validate_runtime_policy` of
-- src/registry.cpp.
use mcp_observatory.Prelude.{
  &&-eq-true, Ensures-require, Ensures-test, not-true→false, Ensures-ok, le→leb, leb, ◌==◌, ℤ, pos,
  negsuc, is_positive, less, Outcome, ok, ◌>>◌, require, Ensures, ℕ, ◌-◌, ◌%◌, ◌^◌, ◌≤◌, ◌<◌, ◌≡◌,
  refl, ◌↔◌, Bool, true, false, not, ◌&&◌, Option, none, some, arith,
}

-- Counts of `std::chrono::seconds` are signed.
pub record RegistryRuntimePolicy : Type 0 where
  pub request_timeout : ℤ
  pub stall_timeout : ℤ
  pub run_timeout : Option ℤ
  pub maximum_attempts_per_page : ℕ
  pub retry_initial : ℤ
  pub retry_maximum : ℤ

abbrev pub default_runtime_policy : RegistryRuntimePolicy
default_runtime_policy = record {
  request_timeout = pos 60;
  stall_timeout = pos 300;
  run_timeout = none;
  maximum_attempts_per_page = 8;
  retry_initial = pos 2;
  retry_maximum = pos 120;
}

-- `static_cast<std::uint64_t>(count)`
abbrev pub as_uint64 : ℤ → ℕ
as_uint64 (pos n) = n % 2 ^ 64
as_uint64 (negsuc n) = 2 ^ 64 - 1 - n % 2 ^ 64

abbrev maximum_request_timeout_seconds : ℕ
maximum_request_timeout_seconds = 86400

abbrev maximum_stall_timeout_seconds : ℕ
maximum_stall_timeout_seconds = 2592000

abbrev maximum_run_timeout_seconds : ℕ
maximum_run_timeout_seconds = 31536000

abbrev maximum_retry_delay_seconds : ℕ
maximum_retry_delay_seconds = 86400

abbrev maximum_attempt_count : ℕ
maximum_attempt_count = 1000

unfoldable pub run_timeout_accepted : Option ℤ → Bool
run_timeout_accepted none = true
run_timeout_accepted (some t) = is_positive t && leb (as_uint64 t) maximum_run_timeout_seconds

unfoldable pub validate_runtime_policy : RegistryRuntimePolicy → Outcome (Unit {0})
validate_runtime_policy p = do
  require
      (is_positive p.request_timeout
        && is_positive p.stall_timeout
        && not (p.maximum_attempts_per_page == 0)
        && is_positive p.retry_initial)
      "request timeout, stall timeout, attempts, and retry initial delay must be greater than zero"
  require (not (less p.retry_maximum p.retry_initial))
      "retry maximum delay must not be less than retry initial delay"
  require
      (leb (as_uint64 p.request_timeout) maximum_request_timeout_seconds
        && leb (as_uint64 p.stall_timeout) maximum_stall_timeout_seconds
        && leb (as_uint64 p.retry_maximum) maximum_retry_delay_seconds
        && leb p.maximum_attempts_per_page maximum_attempt_count)
      "runtime policy value exceeds the supported implementation bound"
  require (run_timeout_accepted p.run_timeout)
      "total run timeout exceeds the supported implementation bound"

-- a count from `lo` to `hi`
abbrev pub InRange : ℕ → ℕ → ℤ → Type 0
InRange lo hi (pos n) = (lo ≤ n) × (n ≤ hi)
InRange lo hi (negsuc n) = ⊥

abbrev RunInRange : Option ℤ → Type 0
RunInRange none = Unit
RunInRange (some t) = InRange 1 maximum_run_timeout_seconds t

-- A policy within the documented bounds.
pub record IsPolicy (p : RegistryRuntimePolicy) : Type 0 where
  pub request : InRange 1 maximum_request_timeout_seconds p.request_timeout
  pub stall : InRange 1 maximum_stall_timeout_seconds p.stall_timeout
  pub attempts :
      (1 ≤ p.maximum_attempts_per_page) × (p.maximum_attempts_per_page ≤ maximum_attempt_count)
  pub initial : InRange 1 maximum_retry_delay_seconds p.retry_initial
  pub maximum : InRange 1 maximum_retry_delay_seconds p.retry_maximum
  pub ordered : less p.retry_maximum p.retry_initial ≡ false
  pub run : RunInRange p.run_timeout

-- a signed 64-bit value
abbrev pub IsInt64 : ℤ → Type 0
IsInt64 (pos n) = n < 2 ^ 63
IsInt64 (negsuc n) = n < 2 ^ 63

abbrev RunIsInt64 : Option ℤ → Type 0
RunIsInt64 none = Unit
RunIsInt64 (some t) = IsInt64 t

pub record IsRepresentable (p : RegistryRuntimePolicy) : Type 0 where
  pub request : IsInt64 p.request_timeout
  pub stall : IsInt64 p.stall_timeout
  pub initial : IsInt64 p.retry_initial
  pub maximum : IsInt64 p.retry_maximum
  pub run : RunIsInt64 p.run_timeout

in_range :
    (z : ℤ) (hi : ℕ)
    → IsInt64 z
    → is_positive z ≡ true
    → leb (as_uint64 z) hi ≡ true
    → InRange 1 hi z
in_range (pos n) hi b p q = ground arith
in_range (negsuc n) hi b p q = cc

range_accepted :
    (z : ℤ) (hi : ℕ)
    → hi < 2 ^ 63
    → InRange 1 hi z
    → (is_positive z ≡ true) × (leb (as_uint64 z) hi ≡ true)
range_accepted (pos n) hi b r = ground arith
range_accepted (negsuc n) hi b r = elim r [ ]

not_less-positive : (x y : ℤ) → less x y ≡ false → is_positive y ≡ true → is_positive x ≡ true
not_less-positive (pos m) (pos n) h p = ground arith
not_less-positive (negsuc m) (pos n) h p = cc
not_less-positive x (negsuc n) h p = cc

not_less-InRange :
    (x y : ℤ) (hi : ℕ) → less x y ≡ false → is_positive y ≡ true → InRange 1 hi x → InRange 1 hi y
not_less-InRange (pos m) (pos n) hi h p r = ground arith
not_less-InRange (negsuc m) (pos n) hi h p r = elim r [ ]
not_less-InRange x (negsuc n) hi h p r = cc

accepted_run : (t : Option ℤ) → RunIsInt64 t → run_timeout_accepted t ≡ true → RunInRange t
unfolding run_timeout_accepted
accepted_run none i h = tt
accepted_run (some t) i h =
    let (p, q) = &&-eq-true _ _ h in in_range t maximum_run_timeout_seconds i p q

run_accepted : (t : Option ℤ) → RunInRange t → run_timeout_accepted t ≡ true
unfolding run_timeout_accepted
run_accepted none r = refl
run_accepted (some t) r =
    let (p, q) = range_accepted t maximum_run_timeout_seconds (omega arith) r in rw p q

-- Every policy that `validate_runtime_policy` accepts is within the bounds, when its counts are
-- signed 64-bit values.
validate_runtime_policy-Ensures :
    (p : RegistryRuntimePolicy)
    → IsRepresentable p
    → Ensures (λ u. IsPolicy p) (validate_runtime_policy p)
unfolding validate_runtime_policy
validate_runtime_policy-Ensures p i =
    Ensures-require
      (is_positive p.request_timeout
        && is_positive p.stall_timeout
        && not (p.maximum_attempts_per_page == 0)
        && is_positive p.retry_initial)
      _
      λ h. Ensures-require (not (less p.retry_maximum p.retry_initial)) _ λ ordered.
        Ensures-require
          (leb (as_uint64 p.request_timeout) maximum_request_timeout_seconds
            && leb (as_uint64 p.stall_timeout) maximum_stall_timeout_seconds
            && leb (as_uint64 p.retry_maximum) maximum_retry_delay_seconds
            && leb p.maximum_attempts_per_page maximum_attempt_count)
          _
          λ k. Ensures-test (run_timeout_accepted p.run_timeout) _ λ run.
            let (h2, initial) = &&-eq-true _ _ h in
            let (h1, attempts) = &&-eq-true _ _ h2 in
            let (request, stall) = &&-eq-true _ _ h1 in
            let (k2, attempts') = &&-eq-true _ _ k in
            let (k1, maximum') = &&-eq-true _ _ k2 in
            let (request', stall') = &&-eq-true _ _ k1 in
            let o = not-true→false _ ordered in
            let top =
              in_range p.retry_maximum _ i.maximum
                (not_less-positive p.retry_maximum p.retry_initial o initial) maximum' in
            record {
              request = in_range p.request_timeout _ i.request request request';
              stall = in_range p.stall_timeout _ i.stall stall stall';
              attempts = ground arith;
              initial = not_less-InRange p.retry_maximum p.retry_initial _ o initial top;
              maximum = top;
              ordered = o;
              run = accepted_run p.run_timeout i.run run;
            }

IsPolicy-validate_runtime_policy :
    (p : RegistryRuntimePolicy) → IsPolicy p → validate_runtime_policy p ≡ ok tt
unfolding validate_runtime_policy
IsPolicy-validate_runtime_policy p v =
    let (request, request') = range_accepted p.request_timeout _ (omega arith) v.request in
    let (stall, stall') = range_accepted p.stall_timeout _ (omega arith) v.stall in
    let (initial, _) = range_accepted p.retry_initial _ (omega arith) v.initial in
    let (_, maximum') = range_accepted p.retry_maximum _ (omega arith) v.maximum in
    rw
      (
        request,
        request',
        stall,
        stall',
        initial,
        maximum',
        v.ordered,
        attempts,
        le→leb _ maximum_attempt_count v.attempts.1,
        run_accepted p.run_timeout v.run,
      )
      refl
  where
    attempts : (p.maximum_attempts_per_page == 0) ≡ false
    attempts = ground arith

-- For a policy whose counts are signed 64-bit values, `validate_runtime_policy` succeeds exactly
-- when the request timeout is from 1 second to a day, the stall timeout from 1 second to 30 days,
-- the attempts from 1 to 1000, both retry delays from 1 second to a day with the initial one at
-- most the maximum, and the total run timeout, if there is one, from 1 second to a year.
pub validate_runtime_policy_iff :
    (p : RegistryRuntimePolicy)
    → IsRepresentable p
    → (validate_runtime_policy p ≡ ok tt) ↔ IsPolicy p
validate_runtime_policy_iff p i =
    (Ensures-ok (validate_runtime_policy-Ensures p i), IsPolicy-validate_runtime_policy p)
