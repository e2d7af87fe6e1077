-- ===== src/History/Analyze.antt =====
-- `update_target_history` and `analyze_history`.
use mcp_observatory.Prelude.{
  ℕ, ltb, leb, if◌then◌else◌, Bytes, length, null, equal, before, Outcome, ok, err, out_of_fuel,
  suc, ◌+◌, String, str_append, Bool, true, false, not, ◌&&◌, ◌||◌, Option, none, some, List, [],
  ◌∷◌,
}
use mcp_observatory.Observation.{Observation, read_observation, string_stream}
use mcp_observatory.History.Model.{HistoryLimits, HistorySummary, TargetHistory, HistoryResult}

-- `!history.latest.has_value() || observation.observed_at >= history.latest->observed_at`
unfoldable pub not_older : Observation → Option Observation → Bool
not_older o none = true
not_older o (some x) = not (before o.observed_at x.observed_at)

unfoldable pub update_target_history : TargetHistory → Observation → TargetHistory
unfolding not_older
update_target_history h o =
    if not_older o h.latest
    then record { records = h.records + 1; previous = h.latest; latest = some o }
    else if not_older o h.previous
    then record h { records = h.records + 1; previous = some o }
    else record h { records = h.records + 1 }

-- `targets.insert(target_id)`; the set is a list without repetitions
unfoldable pub contains : Bytes → List Bytes → Bool
contains id [] = false
contains id (t ∷ ts) = equal t id || contains id ts

unfoldable pub insert : Bytes → List Bytes → List Bytes
unfolding contains
insert id ts = if contains id ts then ts else id ∷ ts

-- The locals of `analyze_history`.
pub record Run : Type 0 where
  pub summary : HistorySummary
  pub target : TargetHistory
  pub seen : List Bytes
  pub line_number : ℕ

abbrev pub start : Run
start = record {
  summary = record { records = 0; targets = 0; earliest_observed_at = []; latest_observed_at = [] };
  target = record { records = 0; previous = none; latest = none };
  seen = [];
  line_number = 0;
}

unfoldable pub update_summary : HistorySummary → Observation → HistorySummary
update_summary summary o = record summary {
  records = summary.records + 1;
  earliest_observed_at =
      (if null summary.earliest_observed_at || before o.observed_at summary.earliest_observed_at
        then o.observed_at
        else summary.earliest_observed_at);
  latest_observed_at =
      (if null summary.latest_observed_at || before summary.latest_observed_at o.observed_at
        then o.observed_at
        else summary.latest_observed_at);
}

-- `target_id.has_value() && observation.target_id == *target_id`
unfoldable pub is_wanted : Option Bytes → Observation → Bool
is_wanted none o = false
is_wanted (some id) o = equal o.target_id id

-- what a parsed line does to the locals, limits aside
unfoldable pub absorb : Option Bytes → Run → Observation → Run
unfolding update_target_history insert update_summary is_wanted
absorb target_id run o = record run {
  summary = update_summary run.summary o;
  target = (if is_wanted target_id o then update_target_history run.target o else run.target);
  seen = insert o.target_id run.seen;
}

-- a return with an error in this line; the summary counts no targets yet
abbrev pub failed : Run → String → HistoryResult
failed run message = record {
  summary = run.summary;
  target = run.target;
  error = some (record { line = run.line_number; message = message });
}

abbrev pub finished : Run → HistoryResult
finished run = record {
  summary = record run.summary { targets = length run.seen };
  target = run.target;
  error = none;
}

-- The target limit is tested between the summary and the history of the target, and only on a
-- target that is new.
unfoldable pub accept :
    HistoryLimits
    → Option Bytes
    → (Run → Outcome HistoryResult)
    → Run
    → Observation
    → Outcome HistoryResult
unfolding contains insert update_summary absorb
accept limits target_id next run o =
    if not (contains o.target_id run.seen) && ltb limits.max_targets (suc (length run.seen))
    then ok (
        failed
          (record run {
            summary = update_summary run.summary o;
            seen = insert o.target_id run.seen;
          })
          "history exceeds configured target limit")
    else next (absorb target_id run o)

unfoldable pub on_parsed :
    HistoryLimits
    → Option Bytes
    → (Run → Outcome HistoryResult)
    → Run
    → Outcome Observation
    → Outcome HistoryResult
unfolding accept
on_parsed limits target_id next run (ok o) = accept limits target_id next run o
on_parsed limits target_id next run (err e) = ok (failed run (str_append "invalid observation: " e))
on_parsed limits target_id next run out_of_fuel = out_of_fuel

-- the body of the loop, on a line that is not empty; `next` is the rest of the loop
unfoldable pub on_line :
    HistoryLimits
    → Option Bytes
    → (Run → Outcome HistoryResult)
    → Run
    → Bytes
    → Outcome HistoryResult
unfolding on_parsed
on_line limits target_id next run line =
    if ltb limits.max_line_bytes (length line)
    then ok (failed run "history line exceeds configured byte limit")
    else if leb limits.max_records run.summary.records
    then ok (failed run "history exceeds configured record limit")
    else on_parsed limits target_id next run
        (read_observation limits.observation (string_stream line))

abbrev pub next_line : Run → Run
next_line run = record run { line_number = run.line_number + 1 }

-- The loop, over the lines that `std::getline` delivers; `bad` is what `input.bad()` says then.
unfoldable pub run_lines :
    HistoryLimits → Option Bytes → Bool → List Bytes → Run → Outcome HistoryResult
unfolding on_line
run_lines limits target_id bad [] run =
    ok (if bad then failed run "I/O failure while reading history" else finished run)
run_lines limits target_id bad ([] ∷ lines) run =
    run_lines limits target_id bad lines (next_line run)
run_lines limits target_id bad ((c ∷ line) ∷ lines) run =
    on_line limits target_id (run_lines limits target_id bad lines) (next_line run) (c ∷ line)

unfoldable pub analyze_history :
    HistoryLimits → Option Bytes → Bool → List Bytes → Outcome HistoryResult
unfolding run_lines
analyze_history limits target_id bad lines = run_lines limits target_id bad lines start
