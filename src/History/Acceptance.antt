-- ===== src/History/Acceptance.antt =====
-- What a history without an error held.
use mcp_observatory.Prelude.{
  Bytes, length, Outcome, ok, err, out_of_fuel, ◌≤◌, ◌≡◌, refl, Option, none, arith, ltb, leb,
  Bool-cases, ◌+◌, ◌<◌, ap, ◌∙◌, inl, inr, Bool, true, false, List, [], ◌∷◌,
}
use mcp_observatory.Observation.{Observation, string_stream, read_observation}
use mcp_observatory.History.Model.{HistoryLimits, HistoryResult}
use mcp_observatory.History.Runs.{
  Holds, over, blank, entry, absorb_all, HasRoom, finished-absorb_all, seen-absorb, records-absorb,
}
use mcp_observatory.History.Analyze.{
  insert, Run, absorb, accept, on_parsed, start, finished, on_line, next_line, run_lines,
  analyze_history,
}

-- what a line did when the result has no error
record Took (limits : HistoryLimits) (target_id : Option Bytes) (next : Run → Outcome HistoryResult)
    (run : Run) (parsed : Outcome Observation) (r : HistoryResult) : Type 0 where
  o : Observation
  read : parsed ≡ ok o
  targets : length (insert o.target_id run.seen) ≤ limits.max_targets
  later : next (absorb target_id run o) ≡ ok r

accept-Took :
    (limits : HistoryLimits) (target_id : Option Bytes) (next : Run → Outcome HistoryResult)
    (run : Run) (o : Observation) {r : HistoryResult}
    → length run.seen ≤ limits.max_targets
    → accept limits target_id next run o ≡ ok r
    → r.error ≡ none
    → (length (insert o.target_id run.seen) ≤ limits.max_targets)
      × (next (absorb target_id run o) ≡ ok r)
unfolding accept insert
accept-Took limits target_id next run o l h e = ground arith

on_parsed-Took :
    (limits : HistoryLimits) (target_id : Option Bytes) (next : Run → Outcome HistoryResult)
    (run : Run) (parsed : Outcome Observation) {r : HistoryResult}
    → length run.seen ≤ limits.max_targets
    → on_parsed limits target_id next run parsed ≡ ok r
    → r.error ≡ none
    → Took limits target_id next run parsed r
unfolding on_parsed
on_parsed-Took limits target_id next run (ok o) l h e =
    let t = accept-Took limits target_id next run o l h e in
    record { o = o; read = refl; targets = t.0; later = t.1 }
on_parsed-Took limits target_id next run (err m) l h e = absurd (cc)
on_parsed-Took limits target_id next run out_of_fuel l h e = absurd (cc)

-- the two limits that a line is held to before it is parsed
on_line-Took :
    (limits : HistoryLimits) (target_id : Option Bytes) (next : Run → Outcome HistoryResult)
    (run : Run) (line : Bytes) {r : HistoryResult}
    → length run.seen ≤ limits.max_targets
    → on_line limits target_id next run line ≡ ok r
    → r.error ≡ none
    → (length line ≤ limits.max_line_bytes)
      × (run.summary.records < limits.max_records)
      × Took limits target_id next run (read_observation limits.observation (string_stream line)) r
unfolding on_line
on_line-Took limits target_id next run line l h e =
    elim (Bool-cases (ltb limits.max_line_bytes (length line))) [
      | inl long ↦ absurd (cc (rw long at h))
      | inr fits ↦ elim (Bool-cases (leb limits.max_records run.summary.records)) [
        | inl full ↦ absurd (cc (rw (fits, full) at h))
        | inr room ↦ (
          ground arith,
          ground arith,
          on_parsed-Took limits target_id next run _ l (rw (fits, room) at h) e,
        )
      ]
    ]

-- What an error-free result tells of the lines.
pub record Accepted (limits : HistoryLimits) (target_id : Option Bytes) (bad : Bool) (run : Run)
    (lines : List Bytes) (r : HistoryResult) : Type 0 where
  pub observations : List Observation
  pub held : Holds limits lines observations
  pub room : HasRoom limits target_id run observations
  pub not_bad : bad ≡ false
  pub result : r ≡ finished (absorb_all target_id run observations)

run_lines-Accepted :
    (limits : HistoryLimits) (target_id : Option Bytes) (bad : Bool) (lines : List Bytes)
    (run : Run) {r : HistoryResult}
    → length run.seen ≤ limits.max_targets
    → run.summary.records ≤ limits.max_records
    → run_lines limits target_id bad lines run ≡ ok r
    → r.error ≡ none
    → Accepted limits target_id bad run lines r
unfolding run_lines absorb_all
run_lines-Accepted limits target_id true [] run l n h e = absurd (cc)
run_lines-Accepted limits target_id false [] run l n h e = record {
  observations = [];
  held = over;
  room = record { records = omega arith; targets = l };
  not_bad = refl;
  result = cc;
}
run_lines-Accepted limits target_id bad ([] ∷ lines) run l n h e =
    let a = run_lines-Accepted limits target_id bad lines (next_line run) l n h e in
    let same = finished-absorb_all target_id run (run.line_number + 1) a.observations in
    record {
      observations = a.observations;
      held = blank a.held;
      room = record {
        records = a.room.records;
        targets = omega (arith, a.room.targets, ap (λ (x : HistoryResult). x.summary.targets) same);
      };
      not_bad = a.not_bad;
      result = a.result ∙ same;
    }
run_lines-Accepted limits target_id bad ((c ∷ line) ∷ lines) run l n h e =
    let (fits, few, t) =
      on_line-Took limits target_id (run_lines limits target_id bad lines) (next_line run)
        (c ∷ line) l h e in
    let counted = records-absorb target_id (next_line run) t.o in
    let grown = ap (λ (ts : List Bytes). length ts) (seen-absorb target_id (next_line run) t.o) in
    let a =
      run_lines-Accepted limits target_id bad lines (absorb target_id (next_line run) t.o)
        (omega (arith, t.targets, grown)) (omega (arith, counted, few)) t.later e in
    let same = finished-absorb_all target_id run (run.line_number + 1) (t.o ∷ a.observations) in
    record {
      observations = t.o ∷ a.observations;
      held = entry fits t.read a.held;
      room = record {
        records = omega (arith, a.room.records, counted);
        targets = omega (arith, a.room.targets, ap (λ (x : HistoryResult). x.summary.targets) same);
      };
      not_bad = a.not_bad;
      result = a.result ∙ same;
    }

-- A result without an error says that the stream did not go bad, that every line that is not empty
-- keeps within the line limit and holds an observation, that there are at most `max_records` of
-- them and at most `max_targets` targets, and that the result is what they add up to.
pub analyze_history_sound :
    (limits : HistoryLimits) (target_id : Option Bytes) (bad : Bool) (lines : List Bytes)
    {r : HistoryResult}
    → analyze_history limits target_id bad lines ≡ ok r
    → r.error ≡ none
    → Accepted limits target_id bad start lines r
unfolding analyze_history
analyze_history_sound limits target_id bad lines h e =
    run_lines-Accepted limits target_id bad lines start (omega arith) (omega arith) h e
