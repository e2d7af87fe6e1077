-- ===== src/History/Runs.antt =====
-- Which histories `analyze_history` accepts, and what it then reports.
use mcp_observatory.Prelude.{
  ℕ, Bool-cases, Bytes, length, Outcome, ok, suc, ◌+◌, ◌≤◌, ◌≡◌, refl, inl, inr, false, Option,
  List, [], ◌∷◌, arith, ltb, leb, ap, ◌∙◌,
}
use mcp_observatory.Observation.{Observation, read_observation, string_stream}
use mcp_observatory.History.Model.{HistoryLimits, HistoryResult}
use mcp_observatory.History.Analyze.{
  contains, insert, Run, update_summary, absorb, finished, accept, on_parsed, on_line, next_line,
  run_lines, start, analyze_history,
}

-- The lines of a history, and the observations on those that are not empty.
pub data Holds (limits : HistoryLimits) : List Bytes → List Observation → Type 0 where
  over : Holds limits [] []
  blank :
      {lines : List Bytes} {os : List Observation}
      → Holds limits lines os
      → Holds limits ([] ∷ lines) os
  entry :
      {c : ℕ} {line : Bytes} {o : Observation} {lines : List Bytes} {os : List Observation}
      → length (c ∷ line) ≤ limits.max_line_bytes
      → read_observation limits.observation (string_stream (c ∷ line)) ≡ ok o
      → Holds limits lines os
      → Holds limits ((c ∷ line) ∷ lines) (o ∷ os)

-- the locals after some observations, when no limit is met
unfoldable pub absorb_all : Option Bytes → Run → List Observation → Run
unfolding absorb
absorb_all target_id run [] = run
absorb_all target_id run (o ∷ os) = absorb_all target_id (absorb target_id run o) os

-- the line number has no part in a result without an error
pub finished-absorb_all :
    (target_id : Option Bytes) (run : Run) (n : ℕ) (os : List Observation)
    → finished (absorb_all target_id (record run { line_number = n }) os)
      ≡ finished (absorb_all target_id run os)
unfolding absorb_all absorb
finished-absorb_all target_id run n [] = refl
finished-absorb_all target_id run n (o ∷ os) =
    finished-absorb_all target_id (absorb target_id run o) n os

pub length-insert-le : (id : Bytes) (ts : List Bytes) → length ts ≤ length (insert id ts)
unfolding insert
length-insert-le id ts = ground arith

pub length-insert_new :
    (id : Bytes) (ts : List Bytes)
    → contains id ts ≡ false
    → length (insert id ts) ≡ suc (length ts)
unfolding insert
length-insert_new id ts h = rw h

pub seen-absorb_all :
    (target_id : Option Bytes) (run : Run) (os : List Observation)
    → length run.seen ≤ length (absorb_all target_id run os).seen
unfolding absorb_all absorb
seen-absorb_all target_id run [] = omega arith
seen-absorb_all target_id run (o ∷ os) = omega (
  arith,
  seen-absorb_all target_id (absorb target_id run o) os,
  length-insert-le o.target_id run.seen,
)

pub records-absorb :
    (target_id : Option Bytes) (run : Run) (o : Observation)
    → (absorb target_id run o).summary.records ≡ run.summary.records + 1
unfolding absorb update_summary
records-absorb target_id run o = refl

pub seen-absorb :
    (target_id : Option Bytes) (run : Run) (o : Observation)
    → (absorb target_id run o).seen ≡ insert o.target_id run.seen
unfolding absorb
seen-absorb target_id run o = refl

-- The limits leave room for these observations.
pub record HasRoom (limits : HistoryLimits) (target_id : Option Bytes) (run : Run)
    (os : List Observation) : Type 0 where
  pub records : run.summary.records + length os ≤ limits.max_records
  pub targets : length (absorb_all target_id run os).seen ≤ limits.max_targets

HasRoom-tail :
    (limits : HistoryLimits) (target_id : Option Bytes) (run : Run) (o : Observation)
    (os : List Observation)
    → HasRoom limits target_id run (o ∷ os)
    → HasRoom limits target_id (absorb target_id run o) os
unfolding absorb_all
HasRoom-tail limits target_id run o os h = record {
  records = omega (arith, records-absorb target_id run o, h.records);
  targets = h.targets;
}

pub accept-HasRoom :
    (limits : HistoryLimits) (target_id : Option Bytes) (next : Run → Outcome HistoryResult)
    (run : Run) (o : Observation)
    → length (insert o.target_id run.seen) ≤ limits.max_targets
    → accept limits target_id next run o ≡ next (absorb target_id run o)
unfolding accept
accept-HasRoom limits target_id next run o h = elim (Bool-cases (contains o.target_id run.seen)) [
  | inl old ↦ rw old
  | inr new ↦ rw new (ground (arith, length-insert_new o.target_id run.seen new))
]

HasRoom-next_line :
    (limits : HistoryLimits) (target_id : Option Bytes) (run : Run) (os : List Observation)
    → HasRoom limits target_id run os
    → HasRoom limits target_id (next_line run) os
HasRoom-next_line limits target_id run os h =
    let same =
      ap (λ (r : HistoryResult). r.summary.targets)
        (finished-absorb_all target_id run (run.line_number + 1) os) in
    record { records = h.records; targets = omega (arith, h.targets, same) }

on_line-HasRoom :
    (limits : HistoryLimits) (target_id : Option Bytes) (next : Run → Outcome HistoryResult)
    (run : Run) (line : Bytes) (o : Observation) (os : List Observation)
    → length line ≤ limits.max_line_bytes
    → read_observation limits.observation (string_stream line) ≡ ok o
    → HasRoom limits target_id run (o ∷ os)
    → on_line limits target_id next run line ≡ next (absorb target_id run o)
on_line-HasRoom limits target_id next run line o os fits read h =
    let few : leb limits.max_records run.summary.records ≡ false = ground (arith, h.records) in
    let room : length (insert o.target_id run.seen) ≤ limits.max_targets =
      unfold absorb_all in
      omega (
        arith,
        h.targets,
        seen-absorb_all target_id (absorb target_id run o) os,
        ap (λ (ts : List Bytes). length ts) (seen-absorb target_id run o),
      ) in
    unfold on_line on_parsed absorb_all in
    rw (let e : ltb limits.max_line_bytes (length line) ≡ false = ground arith in e, few, read)
      (accept-HasRoom limits target_id next run o room)

run_lines-Holds :
    (limits : HistoryLimits) (target_id : Option Bytes) {lines : List Bytes} {os : List Observation}
    (run : Run)
    → Holds limits lines os
    → HasRoom limits target_id run os
    → run_lines limits target_id false lines run ≡ ok (finished (absorb_all target_id run os))
unfolding run_lines absorb_all
run_lines-Holds limits target_id run over h = refl
run_lines-Holds limits target_id run (blank {os} held) h =
    run_lines-Holds limits target_id (next_line run) held
      (HasRoom-next_line limits target_id run os h)
    ∙ ap ok (finished-absorb_all target_id run (run.line_number + 1) os)
run_lines-Holds limits target_id run (entry {c} {line} {o} {lines = later} {os} fits read held) h =
    let h' = HasRoom-next_line limits target_id run (o ∷ os) h in
    on_line-HasRoom limits target_id (run_lines limits target_id false later) (next_line run)
      (c ∷ line) o os fits read h'
    ∙ run_lines-Holds limits target_id (absorb target_id (next_line run) o) held
        (HasRoom-tail limits target_id (next_line run) o os h')
    ∙ ap ok (finished-absorb_all target_id run (run.line_number + 1) (o ∷ os))

-- A history whose lines keep within the line limit and hold observations, with at most
-- `max_records` of them and at most `max_targets` targets, is accepted: the result has no error and
-- is what the observations add up to, whatever empty lines stand between them.
pub analyze_history_complete :
    (limits : HistoryLimits) (target_id : Option Bytes) (lines : List Bytes) (os : List Observation)
    → Holds limits lines os
    → HasRoom limits target_id start os
    → analyze_history limits target_id false lines ≡ ok (finished (absorb_all target_id start os))
unfolding analyze_history
analyze_history_complete limits target_id lines os held h =
    run_lines-Holds limits target_id start held h
