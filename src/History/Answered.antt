-- ===== src/History/Answered.antt =====
-- Every history is answered: accepted, or refused with an error that fits.
use mcp_observatory.Prelude.{
  Bytes, length, Outcome, ok, ltb, leb, Bool-cases, ltb→lt, lt→ltb, leb→le, Ensures, holds,
  rejected, ℕ, suc, ◌≤◌, ◌<◌, ◌≡◌, refl, ap, ◌∙◌, ◌⊎◌, inl, inr, Bool, true, false, Option, none,
  some, List, [], ◌∷◌, arith,
}
use mcp_observatory.Observation.Reading.{read_observation-IsObservationOf}
use mcp_observatory.Observation.{Observation, string_stream, read_observation}
use mcp_observatory.History.Model.{HistoryLimits, HistoryResult}
use mcp_observatory.History.Runs.{seen-absorb, records-absorb, accept-HasRoom, length-insert_new}
use mcp_observatory.History.Acceptance.{Accepted, analyze_history_sound}
use mcp_observatory.History.Analyze.{
  insert, Run, absorb, accept, on_parsed, start, on_line, next_line, run_lines, analyze_history,
  contains,
}
use mcp_observatory.History.Refusal.{
  Refused, stream_bad, line_too_long, records_too_many, malformed, crowded, same_line,
  blank-Refused, entry-Refused, first-Refused,
}

-- a result comes; it has no error, or the history is refused with this error
abbrev Answered :
    HistoryLimits → Option Bytes → Bool → Run → List Bytes → Outcome HistoryResult → Type 0
Answered limits target_id bad run lines x =
    (r : HistoryResult) × (x ≡ ok r) × ((r.error ≡ none) ⊎ Refused limits target_id bad run lines r)

accept-crowded :
    (limits : HistoryLimits) (target_id : Option Bytes) (next : Run → Outcome HistoryResult)
    (run : Run) (o : Observation)
    → length run.seen ≤ limits.max_targets
    → limits.max_targets < length (insert o.target_id run.seen)
    → (r : HistoryResult) × (accept limits target_id next run o ≡ ok r)
      × (r.error
          ≡ some (record {
            line = run.line_number;
            message = "history exceeds configured target limit";
          }))
unfolding accept
accept-crowded limits target_id next run o l h = elim (Bool-cases (contains o.target_id run.seen)) [
  | inl old ↦ absurd (no_room old)
  | inr new ↦ rw (new, full new) (_, refl, refl)
]
  where
    no_room : contains o.target_id run.seen ≡ true → ⊥
    no_room old = unfold insert in ground arith

    full :
        contains o.target_id run.seen ≡ false
        → ltb limits.max_targets (suc (length run.seen)) ≡ true
    full new = lt→ltb _ _ (omega (arith, length-insert_new o.target_id run.seen new))

module _ (limits : HistoryLimits) (target_id : Option Bytes) (bad : Bool) where
  -- a line that is parsed
  on_parsed-Answered :
      (run : Run) (c : ℕ) (line : Bytes) (lines : List Bytes) {P : Observation → Type 0}
      (parsed : Outcome Observation)
      → read_observation limits.observation (string_stream (c ∷ line)) ≡ parsed
      → Ensures P parsed
      → length (c ∷ line) ≤ limits.max_line_bytes
      → length run.seen ≤ limits.max_targets
      → run.summary.records < limits.max_records
      → ((o : Observation)
          → length (insert o.target_id run.seen) ≤ limits.max_targets
          → Answered limits target_id bad
              (absorb target_id (next_line run) o)
              lines
              (run_lines limits target_id bad lines (absorb target_id (next_line run) o)))
      → Answered limits target_id bad run
          ((c ∷ line) ∷ lines)
          (on_parsed limits target_id (run_lines limits target_id bad lines) (next_line run) parsed)
  unfolding on_parsed
  on_parsed-Answered run c line lines _ e (rejected {e = m}) fits l few later =
      (_, refl, inr (first-Refused 1 _ l (omega arith) (malformed fits (omega arith) e) refl))
  on_parsed-Answered run c line lines _ e (holds {a = o} h) fits l few later =
      elim (Bool-cases (ltb limits.max_targets (length (insert o.target_id run.seen)))) [
        | inl k ↦
            let over_limit = ltb→lt _ _ k in
            let (r, x, y) =
              accept-crowded limits target_id (run_lines limits target_id bad lines) (next_line run)
                o l over_limit in
            (
              r,
              x,
              inr (first-Refused 1 _ l (omega arith) (crowded fits (omega arith) e over_limit) y),
            )
        | inr k ↦
            let room : length (insert o.target_id run.seen) ≤ limits.max_targets = ground arith in
            let (r, x, y) = later o room in
            (
              r,
              accept-HasRoom limits target_id (run_lines limits target_id bad lines) (next_line run)
                    o room
                  ∙ x,
              further fits e y,
            )
      ]
    where
      further :
          {o : Observation} {r : HistoryResult}
          → length (c ∷ line) ≤ limits.max_line_bytes
          → read_observation limits.observation (string_stream (c ∷ line)) ≡ ok o
          → ((r.error ≡ none)
              ⊎ Refused limits target_id bad (absorb target_id (next_line run) o) lines r)
          → (r.error ≡ none) ⊎ Refused limits target_id bad run ((c ∷ line) ∷ lines) r
      further f g (inl a) = inl a
      further f g (inr b) = inr (entry-Refused f g b)

  run_lines-Answered :
      (lines : List Bytes) (run : Run)
      → length run.seen ≤ limits.max_targets
      → run.summary.records ≤ limits.max_records
      → Answered limits target_id bad run lines (run_lines limits target_id bad lines run)
  unfolding run_lines on_line
  run_lines-Answered [] run l n = elim (Bool-cases bad) [
    | inl b ↦
        rw b (_, refl, inr (first-Refused 0 _ l n (stream_bad refl) (same_line _ (omega arith))))
    | inr b ↦ rw b (_, refl, inl refl)
  ]
  run_lines-Answered ([] ∷ lines) run l n =
      let (r, x, y) = run_lines-Answered lines (next_line run) l n in (r, x, further y)
    where
      further :
          {r : HistoryResult}
          → ((r.error ≡ none) ⊎ Refused limits target_id bad (next_line run) lines r)
          → (r.error ≡ none) ⊎ Refused limits target_id bad run ([] ∷ lines) r
      further (inl a) = inl a
      further (inr b) = inr (blank-Refused b)
  run_lines-Answered ((c ∷ line) ∷ lines) run l n =
      elim (Bool-cases (ltb limits.max_line_bytes (length (c ∷ line)))) [
        | inl long ↦
            rw long (_, refl, inr (first-Refused 1 _ l n (line_too_long (ltb→lt _ _ long)) refl))
        | inr fits ↦ elim (Bool-cases (leb limits.max_records run.summary.records)) [
          | inl full ↦
              rw (fits, full)
                (
                  _,
                  refl,
                  inr (
                      first-Refused 1 _ l n
                        (records_too_many (ground arith) (omega (arith, leb→le _ _ full))) refl),
                )
          | inr few ↦
              rw (fits, few)
                (on_parsed-Answered run c line lines _ refl
                  (read_observation-IsObservationOf limits.observation (string_stream (c ∷ line)))
                  (ground arith) l (ground arith)
                  λ o room.
                    run_lines-Answered lines (absorb target_id (next_line run) o)
                      (omega (
                        arith,
                        room,
                        ap (λ (ts : List Bytes). length ts)
                            (seen-absorb target_id (next_line run) o),
                      ))
                      (ground (arith, records-absorb target_id (next_line run) o)))
        ]
      ]

-- Every history is answered. Either the result has no error, and the history is one that is
-- accepted, or it has one, and then the history begins with lines that are accepted and next is the
-- first thing wrong, which the message of the error names: a line over the byte limit, one over the
-- record limit, one that holds no observation (with the message of the parser), one that begins a
-- target too many, or, with no line left, a stream that went bad. The line of the error is the
-- number of that line, or of the last line.
pub analyze_history_total :
    (limits : HistoryLimits) (target_id : Option Bytes) (bad : Bool) (lines : List Bytes)
    → (r : HistoryResult) × (analyze_history limits target_id bad lines ≡ ok r)
      × (Accepted limits target_id bad start lines r ⊎ Refused limits target_id bad start lines r)
unfolding analyze_history
analyze_history_total limits target_id bad lines =
    let (r, x, y) =
      run_lines-Answered limits target_id bad lines start (omega arith) (omega arith) in
    (r, x, accepted_or x y)
  where
    accepted_or :
        {r : HistoryResult}
        → analyze_history limits target_id bad lines ≡ ok r
        → ((r.error ≡ none) ⊎ Refused limits target_id bad start lines r)
        → Accepted limits target_id bad start lines r ⊎ Refused limits target_id bad start lines r
    accepted_or x (inl a) = inl (analyze_history_sound limits target_id bad lines x a)
    accepted_or x (inr b) = inr b
