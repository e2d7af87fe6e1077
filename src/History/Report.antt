-- ===== src/History/Report.antt =====
-- What the observations of an accepted history add up to.
use mcp_observatory.Prelude.{
  if◌then◌else◌, Bool-cases, Bytes, equal, ◌≡◌, refl, ◌∙◌, inl, inr, false, ◌||◌, Option, List, [],
  ◌∷◌, length, equal_iff, equal_refl, arith, null, All, before, before_negtrans, true,
  before_irrefl, before_asymm, sym, subst, Bool, none, some,
}
use mcp_observatory.Observation.{Observation}
use mcp_observatory.History.Analyze.{
  start, absorb, insert, contains, is_wanted, finished, Run, update_summary,
}
use mcp_observatory.History.Runs.{absorb_all}
use mcp_observatory.History.Ranking.{track, shown, ranked, track_exact}
use mcp_observatory.History.Model.{HistorySummary}

-- the observations of the target that was asked for, in the order of their arrival
abbrev pub wanted : Option Bytes → List Observation → List Observation
wanted none os = []
wanted (some id) [] = []
wanted (some id) (o ∷ os) =
    if equal o.target_id id then o ∷ wanted (some id) os else wanted (some id) os

-- the target's history sees the observations of the target, and no others
target-absorb_all :
    (target_id : Option Bytes) (run : Run) (os : List Observation)
    → (absorb_all target_id run os).target ≡ track run.target (wanted target_id os)
unfolding absorb_all absorb track is_wanted
target-absorb_all none run [] = refl
target-absorb_all none run (o ∷ os) = target-absorb_all none (absorb none run o) os
target-absorb_all (some id) run [] = refl
target-absorb_all (some id) run (o ∷ os) = elim (Bool-cases (equal o.target_id id)) [
  | inl mine ↦ target-absorb_all (some id) (absorb (some id) run o) os ∙ rw mine
  | inr other ↦ target-absorb_all (some id) (absorb (some id) run o) os ∙ rw other
]

-- The target history of a finished run shows the newest and the second newest of the observations
-- whose target id is the one asked for, and counts them; the others have no part in it, and without
-- a target asked for none has.
pub target_exact :
    (target_id : Option Bytes) (os : List Observation)
    → (finished (absorb_all target_id start os)).target ≡ shown (ranked [] (wanted target_id os))
target_exact target_id os = target-absorb_all target_id start os ∙ track_exact (wanted target_id os)

-- no string twice
abbrev pub IsDistinct : List Bytes → Type 0
IsDistinct [] = Unit
IsDistinct (t ∷ ts) = (contains t ts ≡ false) × IsDistinct ts

abbrev pub ids : List Observation → List Bytes
ids [] = []
ids (o ∷ os) = o.target_id ∷ ids os

insert-IsDistinct : (id : Bytes) (ts : List Bytes) → IsDistinct ts → IsDistinct (insert id ts)
unfolding insert
insert-IsDistinct id ts h = elim (Bool-cases (contains id ts)) [
  | inl old ↦ rw old h
  | inr new ↦ rw new (new, h)
]

contains-insert :
    (id t : Bytes) (ts : List Bytes) → contains t (insert id ts) ≡ (equal id t || contains t ts)
unfolding insert
contains-insert id t ts = elim (Bool-cases (contains id ts)) [
  | inl old ↦ rw old (ground (arith, equal_iff id t))
  | inr new ↦ rw new (unfold contains in refl)
]

seen-IsDistinct :
    (target_id : Option Bytes) (run : Run) (os : List Observation)
    → IsDistinct run.seen
    → IsDistinct (absorb_all target_id run os).seen
unfolding absorb_all absorb
seen-IsDistinct target_id run [] h = h
seen-IsDistinct target_id run (o ∷ os) h =
    seen-IsDistinct target_id (absorb target_id run o) os (insert-IsDistinct o.target_id run.seen h)

contains-seen :
    (target_id : Option Bytes) (run : Run) (os : List Observation) (t : Bytes)
    → contains t (absorb_all target_id run os).seen ≡ (contains t (ids os) || contains t run.seen)
unfolding absorb_all absorb contains
contains-seen target_id run [] t = refl
contains-seen target_id run (o ∷ os) t = ground (
  arith,
  contains-seen target_id (absorb target_id run o) os t,
  contains-insert o.target_id t run.seen,
)

-- The summary of a finished run counts the targets: `targets` is the length of a list without
-- repetitions that holds exactly the target ids of the observations.
pub targets_exact :
    (target_id : Option Bytes) (os : List Observation)
    → (ts : List Bytes) × IsDistinct ts
      × ((t : Bytes) → contains t ts ≡ contains t (ids os))
      × ((finished (absorb_all target_id start os)).summary.targets ≡ length ts)
targets_exact target_id os = (
  (absorb_all target_id start os).seen,
  seen-IsDistinct target_id start os tt,
  λ t. contains-seen target_id start os t ∙ unfold contains in ground arith,
  refl,
)

-- no observation before `t`, and none after it
abbrev NoneBefore : Bytes → List Observation → Type 0
NoneBefore t os = All (λ o. before o.observed_at t ≡ false) os

abbrev NoneAfter : Bytes → List Observation → Type 0
NoneAfter t os = All (λ o. before t o.observed_at ≡ false) os

-- the list of arrivals turned round, in front of another
abbrev pub reverse_onto : List Observation → List Observation → List Observation
reverse_onto [] seen = seen
reverse_onto (o ∷ os) seen = reverse_onto os (o ∷ seen)

-- some observation is of that time
abbrev pub happened : Bytes → List Observation → Bool
happened t [] = false
happened t (o ∷ os) = equal o.observed_at t || happened t os

-- What a summary says of the observations that it has seen, the newest of them first.
pub record Summarises (os : List Observation) (s : HistorySummary) : Type 0 where
  pub records : s.records ≡ length os
  pub earliest : NoneBefore s.earliest_observed_at os
  pub latest : NoneAfter s.latest_observed_at os
  pub earliest_happened : (null os || happened s.earliest_observed_at os) ≡ true
  pub latest_happened : (null os || happened s.latest_observed_at os) ≡ true

-- an earlier bound is a bound
NoneBefore-trans :
    (t u : Bytes) (os : List Observation) → before u t ≡ false → NoneBefore u os → NoneBefore t os
NoneBefore-trans t u [] h l = tt
NoneBefore-trans t u (o ∷ os) h (p, l) =
    (before_negtrans o.observed_at u t p h, NoneBefore-trans t u os h l)

NoneAfter-trans :
    (t u : Bytes) (os : List Observation) → before t u ≡ false → NoneAfter u os → NoneAfter t os
NoneAfter-trans t u [] h l = tt
NoneAfter-trans t u (o ∷ os) h (p, l) =
    (before_negtrans t u o.observed_at h p, NoneAfter-trans t u os h l)

NoneBefore-empty : (t : Bytes) (os : List Observation) → null os ≡ true → NoneBefore t os
NoneBefore-empty t [] h = tt
NoneBefore-empty t (o ∷ os) h = cc

NoneAfter-empty : (t : Bytes) (os : List Observation) → null os ≡ true → NoneAfter t os
NoneAfter-empty t [] h = tt
NoneAfter-empty t (o ∷ os) h = cc

-- the time that is kept is of one of the observations, if it is the new one or the known one
happened-step :
    (known : Bytes) (replaced : Bool) (o : Observation) (os : List Observation)
    → null known ≡ null os
    → (null os || happened known os) ≡ true
    → happened (if null known || replaced then o.observed_at else known) (o ∷ os) ≡ true
happened-step known replaced o os first h = ground (arith, equal_refl o.observed_at)

-- the two choices of `update_summary`
abbrev earlier_of : Bytes → Bytes → Bytes
earlier_of known new = if null known || before new known then new else known

abbrev later_of : Bytes → Bytes → Bytes
later_of known new = if null known || before known new then new else known

earlier_of-bound :
    (known : Bytes) (o : Observation) (os : List Observation)
    → null known ≡ null os
    → NoneBefore known os
    → NoneBefore (earlier_of known o.observed_at) (o ∷ os)
earlier_of-bound known o os first l = elim (Bool-cases (null known)) [
  | inl none_yet ↦
      let e : earlier_of known o.observed_at ≡ o.observed_at = rw none_yet in
      subst (λ k. NoneBefore k (o ∷ os)) (sym e)
        (before_irrefl o.observed_at, NoneBefore-empty o.observed_at os (sym first ∙ none_yet))
  | inr some_known ↦ elim (Bool-cases (before o.observed_at known)) [
    | inl earlier ↦
        let e : earlier_of known o.observed_at ≡ o.observed_at = rw (some_known, earlier) in
        subst (λ k. NoneBefore k (o ∷ os)) (sym e)
          (
            before_irrefl o.observed_at,
            NoneBefore-trans o.observed_at known os (before_asymm _ _ earlier) l,
          )
    | inr not_earlier ↦
        let e : earlier_of known o.observed_at ≡ known = rw (some_known, not_earlier) in
        subst (λ k. NoneBefore k (o ∷ os)) (sym e) (not_earlier, l)
  ]
]

later_of-bound :
    (known : Bytes) (o : Observation) (os : List Observation)
    → null known ≡ null os
    → NoneAfter known os
    → NoneAfter (later_of known o.observed_at) (o ∷ os)
later_of-bound known o os first l = elim (Bool-cases (null known)) [
  | inl none_yet ↦
      let e : later_of known o.observed_at ≡ o.observed_at = rw none_yet in
      subst (λ k. NoneAfter k (o ∷ os)) (sym e)
        (before_irrefl o.observed_at, NoneAfter-empty o.observed_at os (sym first ∙ none_yet))
  | inr some_known ↦ elim (Bool-cases (before known o.observed_at)) [
    | inl later ↦
        let e : later_of known o.observed_at ≡ o.observed_at = rw (some_known, later) in
        subst (λ k. NoneAfter k (o ∷ os)) (sym e)
          (
            before_irrefl o.observed_at,
            NoneAfter-trans o.observed_at known os (before_asymm _ _ later) l,
          )
    | inr not_later ↦
        let e : later_of known o.observed_at ≡ known = rw (some_known, not_later) in
        subst (λ k. NoneAfter k (o ∷ os)) (sym e) (not_later, l)
  ]
]

-- every observation has a time
abbrev pub AreTimed : List Observation → Type 0
AreTimed os = All (λ o. null o.observed_at ≡ false) os

-- the invariant of the summary, with the observations seen so far, the newest arrival first
record SummaryInv (os : List Observation) (s : HistorySummary) : Type 0 where
  holds : Summarises os s
  first_earliest : null s.earliest_observed_at ≡ null os
  first_latest : null s.latest_observed_at ≡ null os

update_summary-SummaryInv :
    (o : Observation) (os : List Observation) (s : HistorySummary)
    → null o.observed_at ≡ false
    → SummaryInv os s
    → SummaryInv (o ∷ os) (update_summary s o)
unfolding update_summary
update_summary-SummaryInv o os s timed h = record {
  holds = record {
    records = omega (arith, h.holds.records);
    earliest = earlier_of-bound s.earliest_observed_at o os h.first_earliest h.holds.earliest;
    latest = later_of-bound s.latest_observed_at o os h.first_latest h.holds.latest;
    earliest_happened =
        happened-step s.earliest_observed_at (before o.observed_at s.earliest_observed_at) o os
          h.first_earliest h.holds.earliest_happened;
    latest_happened =
        happened-step s.latest_observed_at (before s.latest_observed_at o.observed_at) o os
          h.first_latest h.holds.latest_happened;
  };
  first_earliest = ground arith;
  first_latest = ground arith;
}

summary-absorb_all :
    (target_id : Option Bytes) (run : Run) (seen os : List Observation)
    → AreTimed os
    → SummaryInv seen run.summary
    → SummaryInv (reverse_onto os seen) (absorb_all target_id run os).summary
unfolding absorb_all absorb
summary-absorb_all target_id run seen [] t h = h
summary-absorb_all target_id run seen (o ∷ os) (t, ts) h =
    summary-absorb_all target_id (absorb target_id run o) (o ∷ seen) os ts
      (update_summary-SummaryInv o seen run.summary t h)

-- The summary of a finished run, when every observation has a time: it counts the observations,
-- none of them is before `earliest_observed_at`, none is after `latest_observed_at`, and if there
-- are any, one is at the first of these times and one at the second.
pub summary_exact :
    (target_id : Option Bytes) (os : List Observation)
    → AreTimed os
    → Summarises (reverse_onto os []) (finished (absorb_all target_id start os)).summary
summary_exact target_id os t =
    let h = summary-absorb_all target_id start [] os t (record {
      holds = record {
        records = refl;
        earliest = tt;
        latest = tt;
        earliest_happened = refl;
        latest_happened = refl;
      };
      first_earliest = refl;
      first_latest = refl;
    }) in
    record {
      records = h.holds.records;
      earliest = h.holds.earliest;
      latest = h.holds.latest;
      earliest_happened = h.holds.earliest_happened;
      latest_happened = h.holds.latest_happened;
    }
