-- ===== src/History/Refusal.antt =====
-- Why `analyze_history` refuses a history, and where.
use mcp_observatory.Prelude.{
  Bytes, length, ok, err, ℕ, suc, ◌+◌, ◌≤◌, ◌<◌, String, str_append, ◌≡◌, refl, ap, ◌∙◌, subst,
  Bool, true, Option, some, List, [], ◌∷◌, ◌++◌, arith,
}
use mcp_observatory.Observation.{Observation, string_stream, read_observation}
use mcp_observatory.History.Model.{HistoryLimits, HistoryResult, HistoryError}
use mcp_observatory.History.Runs.{Holds, over, blank, entry, absorb_all, HasRoom, records-absorb}
use mcp_observatory.History.Analyze.{insert, Run, absorb, next_line}

-- What is wrong at the first line that is not accepted, after `count` observations of the targets
-- `seen`: its message, and 1, or 0 if no line is left.
pub data Cause (limits : HistoryLimits) (bad : Bool) (count : ℕ) (seen : List Bytes)
    : List Bytes → ℕ → String → Type 0 where
  stream_bad : bad ≡ true → Cause limits bad count seen [] 0 "I/O failure while reading history"
  line_too_long :
      {c : ℕ} {line : Bytes} {later : List Bytes}
      → limits.max_line_bytes < length (c ∷ line)
      → Cause limits bad count seen
          ((c ∷ line) ∷ later)
          1
          "history line exceeds configured byte limit"
  records_too_many :
      {c : ℕ} {line : Bytes} {later : List Bytes}
      → length (c ∷ line) ≤ limits.max_line_bytes
      → limits.max_records ≤ count
      → Cause limits bad count seen ((c ∷ line) ∷ later) 1 "history exceeds configured record limit"
  malformed :
      {c : ℕ} {line : Bytes} {later : List Bytes} {message : String}
      → length (c ∷ line) ≤ limits.max_line_bytes
      → count < limits.max_records
      → read_observation limits.observation (string_stream (c ∷ line)) ≡ err message
      → Cause limits bad count seen
          ((c ∷ line) ∷ later)
          1
          (str_append "invalid observation: " message)
  crowded :
      {c : ℕ} {line : Bytes} {later : List Bytes} {o : Observation}
      → length (c ∷ line) ≤ limits.max_line_bytes
      → count < limits.max_records
      → read_observation limits.observation (string_stream (c ∷ line)) ≡ ok o
      → limits.max_targets < length (insert o.target_id seen)
      → Cause limits bad count seen ((c ∷ line) ∷ later) 1 "history exceeds configured target limit"

abbrev pub error_in : ℕ → String → Option HistoryError
error_in line message = some (record { line = line; message = message })

-- A history whose first lines are accepted, and what is wrong then.
pub record Refused (limits : HistoryLimits) (target_id : Option Bytes) (bad : Bool) (run : Run)
    (lines : List Bytes) (r : HistoryResult) : Type 0 where
  pub accepted : List Bytes
  pub rest : List Bytes
  pub split : lines ≡ accepted ++ rest
  pub observations : List Observation
  pub held : Holds limits accepted observations
  pub room : HasRoom limits target_id run observations
  pub here : ℕ
  pub message : String
  pub cause :
      Cause limits bad
        (run.summary.records + length observations)
        (absorb_all target_id run observations).seen
        rest
        here
        message
  pub error : r.error ≡ error_in (run.line_number + length accepted + here) message

-- the line number has no part in the targets
seen-line_number :
    (target_id : Option Bytes) (run : Run) (n : ℕ) (os : List Observation)
    → (absorb_all target_id (record run { line_number = n }) os).seen
      ≡ (absorb_all target_id run os).seen
unfolding absorb_all absorb
seen-line_number target_id run n [] = refl
seen-line_number target_id run n (o ∷ os) = seen-line_number target_id (absorb target_id run o) n os

line-absorb :
    (target_id : Option Bytes) (run : Run) (o : Observation)
    → (absorb target_id run o).line_number ≡ run.line_number
unfolding absorb
line-absorb target_id run o = refl

-- an error, with another count of its line
pub same_line : {m n : ℕ} (message : String) → m ≡ n → error_in m message ≡ error_in n message
same_line message e = ap (λ (k : ℕ). error_in k message) e

pub blank-Refused :
    {limits : HistoryLimits} {target_id : Option Bytes} {bad : Bool} {run : Run}
    {lines : List Bytes} {r : HistoryResult}
    → Refused limits target_id bad (next_line run) lines r
    → Refused limits target_id bad run ([] ∷ lines) r
blank-Refused {limits} {target_id} {bad} {run} h =
    let same = seen-line_number target_id run (run.line_number + 1) h.observations in
    record {
      accepted = [] ∷ h.accepted;
      rest = h.rest;
      split = ap (◌∷◌ []) h.split;
      observations = h.observations;
      held = blank h.held;
      room = record {
        records = h.room.records;
        targets = subst (λ ts. length ts ≤ limits.max_targets) same h.room.targets;
      };
      here = h.here;
      message = h.message;
      cause =
          subst
            (λ ts.
              Cause limits bad (run.summary.records + length h.observations) ts h.rest h.here
                h.message)
            same h.cause;
      error = h.error ∙ same_line h.message (omega arith);
    }

pub entry-Refused :
    {limits : HistoryLimits} {target_id : Option Bytes} {bad : Bool} {run : Run} {c : ℕ}
    {line : Bytes} {lines : List Bytes} {o : Observation} {r : HistoryResult}
    → length (c ∷ line) ≤ limits.max_line_bytes
    → read_observation limits.observation (string_stream (c ∷ line)) ≡ ok o
    → Refused limits target_id bad (absorb target_id (next_line run) o) lines r
    → Refused limits target_id bad run ((c ∷ line) ∷ lines) r
unfolding absorb_all
entry-Refused {limits} {target_id} {bad} {run} {c} {line} {lines} {o} fits read h =
    let same = seen-line_number target_id run (run.line_number + 1) (o ∷ h.observations) in
    let counted = records-absorb target_id (next_line run) o in
    let numbered = line-absorb target_id (next_line run) o in
    record {
      accepted = (c ∷ line) ∷ h.accepted;
      rest = h.rest;
      split = ap (◌∷◌ (c ∷ line)) h.split;
      observations = o ∷ h.observations;
      held = entry fits read h.held;
      room = record {
        records = omega (arith, h.room.records, counted);
        targets = subst (λ ts. length ts ≤ limits.max_targets) same h.room.targets;
      };
      here = h.here;
      message = h.message;
      cause =
          subst
            (λ ts.
              Cause limits bad (run.summary.records + suc (length h.observations)) ts h.rest h.here
                h.message)
            same
            (subst
              (λ k.
                Cause limits bad k
                  (absorb_all target_id (absorb target_id (next_line run) o) h.observations).seen
                  h.rest h.here h.message)
              (count_moved _ _ (length h.observations) counted) h.cause);
      error = h.error ∙ same_line h.message (omega (arith, numbered));
    }
  where
    count_moved : (n m k : ℕ) → n ≡ m + 1 → n + k ≡ m + suc k
    count_moved n m k e = omega arith

-- a history that is refused at its first line
pub first-Refused :
    {limits : HistoryLimits} {target_id : Option Bytes} {bad : Bool} {run : Run}
    {lines : List Bytes} {r : HistoryResult} (here : ℕ) (message : String)
    → length run.seen ≤ limits.max_targets
    → run.summary.records ≤ limits.max_records
    → Cause limits bad (run.summary.records + 0) run.seen lines here message
    → r.error ≡ some (record { line = run.line_number + here; message = message })
    → Refused limits target_id bad run lines r
unfolding absorb_all
first-Refused {lines = lines} here message l n cause e = record {
  accepted = [];
  rest = lines;
  split = refl;
  observations = [];
  held = over;
  room = record { records = omega arith; targets = l };
  here = here;
  message = message;
  cause = cause;
  error = e ∙ same_line message (omega arith);
}
