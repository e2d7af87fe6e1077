-- ===== src/Registry/Deadlines.antt =====
-- `classify_deadlines` of src/registry.cpp: the two deadlines of a collection.
use mcp_observatory.Prelude.{
  ℕ, ltb, leb, if◌then◌else◌, ◌+◌, ◌-◌, ◌*◌, ◌≤◌, ℤ, pos, negsuc, min, ◌≡◌, Bool, true, false,
  Option, none, some, arith,
}
use mcp_observatory.Registry.Policy.{RegistryRuntimePolicy}

-- Points of the steady clock, in its ticks.
pub record CollectionDeadlines : Type 0 where
  pub last_durable_progress : ℕ
  pub total_deadline : Option ℕ

-- `on_time` is `DeadlineFailure::none`.
pub data DeadlineFailure : Type 0 where
  on_time stalled total : DeadlineFailure

pub record DeadlineStatus : Type 0 where
  pub failure : DeadlineFailure
  pub since_last_durable_progress : ℕ
  pub until_next_deadline : ℕ
  pub remaining_total : Option ℕ

-- Nanoseconds in a count of seconds. A negative span acts as 0 does, as no duration that it is
-- compared with is below 0.
abbrev pub ticks : ℤ → ℕ
ticks (pos n) = n * 1000000000
ticks (negsuc n) = 0

abbrev since : CollectionDeadlines → ℕ → ℕ
since deadlines now =
    if ltb deadlines.last_durable_progress now then now - deadlines.last_durable_progress else 0

-- the rest of a span of `limit`, of which `gone` has passed
abbrev left : ℕ → ℕ → ℕ
left limit gone = if leb limit gone then 0 else limit - gone

abbrev stall_failure : CollectionDeadlines → ℕ → ℕ → DeadlineFailure
stall_failure deadlines span now = if leb span (since deadlines now) then stalled else on_time

unfoldable pub classify_deadlines : CollectionDeadlines → RegistryRuntimePolicy → ℕ → DeadlineStatus
classify_deadlines deadlines policy now =
    let span = ticks policy.stall_timeout in
    let gone = since deadlines now in
    elim deadlines.total_deadline [
      | none ↦ record {
        failure = stall_failure deadlines span now;
        since_last_durable_progress = gone;
        until_next_deadline = left span gone;
        remaining_total = none;
      }
      | some deadline ↦ record {
        failure = (if leb deadline now then total else stall_failure deadlines span now);
        since_last_durable_progress = gone;
        until_next_deadline = min (left span gone) (left deadline now);
        remaining_total = some (left deadline now);
      }
    ]

-- `status.failure == DeadlineFailure::none`
unfoldable pub in_time : DeadlineFailure → Bool
in_time on_time = true
in_time _ = false

module _ (policy : RegistryRuntimePolicy) (last now later : ℕ) where
  abbrev at : Option ℕ → CollectionDeadlines
  at deadline = record { last_durable_progress = last; total_deadline = deadline }

  until_next_deadline :
      (deadline : Option ℕ)
      → last ≤ now
      → now ≤ later
      → in_time (classify_deadlines (at deadline) policy now).failure ≡ true
      → in_time (classify_deadlines (at deadline) policy later).failure
        ≡ ltb later (now + (classify_deadlines (at deadline) policy now).until_next_deadline)
  unfolding classify_deadlines in_time
  until_next_deadline none p q h = ground arith
  until_next_deadline (some d) p q h = ground arith

-- While no deadline has passed, at any later time none has passed either exactly as long as
-- `until_next_deadline` is not used up; the last durable progress lies in the past.
pub classify_deadlines-until_next_deadline :
    (deadlines : CollectionDeadlines) (policy : RegistryRuntimePolicy) (now later : ℕ)
    → deadlines.last_durable_progress ≤ now
    → now ≤ later
    → in_time (classify_deadlines deadlines policy now).failure ≡ true
    → in_time (classify_deadlines deadlines policy later).failure
      ≡ ltb later (now + (classify_deadlines deadlines policy now).until_next_deadline)
classify_deadlines-until_next_deadline deadlines policy now later =
    until_next_deadline policy deadlines.last_durable_progress now later deadlines.total_deadline
