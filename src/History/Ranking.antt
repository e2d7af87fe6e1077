-- ===== src/History/Ranking.antt =====
-- The two observations that a target history holds, against a sorting of all that came in.
use mathlib.Core.List.Perm
use mathlib.Core.List.{Perm, perm_middle}
use mcp_observatory.Prelude.{
  if◌then◌else◌, length, before, ◌≡◌, Option, none, some, List, [], ◌∷◌, arith, suc, refl, false,
  Bool-cases, All, before_asymm, before_negtrans, inl, inr, ◌++◌, append-nil,
}
use mcp_observatory.Observation.{Observation}
use mcp_observatory.History.Model.{TargetHistory}
use mcp_observatory.History.Analyze.{not_older, update_target_history}

-- The history after some observations, in the order of their arrival.
unfoldable pub track : TargetHistory → List Observation → TargetHistory
track h [] = h
track h (o ∷ os) = track (update_target_history h o) os

abbrev pub no_history : TargetHistory
no_history = record { records = 0; previous = none; latest = none }

-- An observation among others that stand newest first; of two with one time, the later arrival
-- stands first.
unfoldable pub rank : Observation → List Observation → List Observation
rank o [] = o ∷ []
rank o (x ∷ xs) =
    let behind = x ∷ rank o xs in if before o.observed_at x.observed_at then behind else o ∷ x ∷ xs

-- All observations that arrived, newest first.
unfoldable pub ranked : List Observation → List Observation → List Observation
unfolding rank
ranked xs [] = xs
ranked xs (o ∷ os) = ranked (rank o xs) os

-- how a history shows a ranking
abbrev pub first_of_all : List Observation → Option Observation
first_of_all [] = none
first_of_all (x ∷ xs) = some x

abbrev pub second_of_all : List Observation → Option Observation
second_of_all [] = none
second_of_all (x ∷ xs) = first_of_all xs

abbrev pub shown : List Observation → TargetHistory
shown xs = record { records = length xs; previous = second_of_all xs; latest = first_of_all xs }

length-rank : (o : Observation) (xs : List Observation) → length (rank o xs) ≡ suc (length xs)
unfolding rank
length-rank o [] = refl
length-rank o (x ∷ xs) = ground (arith, length-rank o xs)

-- one more arrival, in the history and in the ranking
update_target_history-rank :
    (o : Observation) (xs : List Observation)
    → update_target_history (shown xs) o ≡ shown (rank o xs)
unfolding update_target_history rank not_older
update_target_history-rank o [] = ground arith
update_target_history-rank o (x ∷ []) = ground arith
update_target_history-rank o (x ∷ y ∷ xs) = ground (arith, length-rank o xs)

track-ranked : (xs os : List Observation) → track (shown xs) os ≡ shown (ranked xs os)
unfolding track ranked
track-ranked xs [] = refl
track-ranked xs (o ∷ os) = rw (update_target_history-rank o xs) (track-ranked (rank o xs) os)

-- After any observations, in whatever order of their times, the history of a target has counted
-- them, and it holds the newest as `latest` and the second newest as `previous`; among
-- observations of one time a later arrival counts as newer.
pub track_exact : (os : List Observation) → track no_history os ≡ shown (ranked [] os)
track_exact os = track-ranked [] os

-- no observation of the list is newer than `o`
abbrev pub NoneNewer : Observation → List Observation → Type 0
NoneNewer o xs = All (λ x. before o.observed_at x.observed_at ≡ false) xs

-- Newest first.
abbrev pub IsRanking : List Observation → Type 0
IsRanking [] = Unit
IsRanking (x ∷ xs) = NoneNewer x xs × IsRanking xs

NoneNewer-trans :
    (o x : Observation) (xs : List Observation)
    → before o.observed_at x.observed_at ≡ false
    → NoneNewer x xs
    → NoneNewer o xs
NoneNewer-trans o x [] h l = tt
NoneNewer-trans o x (y ∷ ys) h (p, l) =
    (before_negtrans o.observed_at x.observed_at y.observed_at h p, NoneNewer-trans o x ys h l)

NoneNewer-rank :
    (y o : Observation) (xs : List Observation)
    → before y.observed_at o.observed_at ≡ false
    → NoneNewer y xs
    → NoneNewer y (rank o xs)
unfolding rank
NoneNewer-rank y o [] h l = (h, tt)
NoneNewer-rank y o (x ∷ xs) h (p, l) = elim (Bool-cases (before o.observed_at x.observed_at)) [
  | inl older ↦ rw older (p, NoneNewer-rank y o xs h l)
  | inr newer ↦ rw newer (h, (p, l))
]

rank-IsRanking : (o : Observation) (xs : List Observation) → IsRanking xs → IsRanking (rank o xs)
unfolding rank
rank-IsRanking o [] r = (tt, tt)
rank-IsRanking o (x ∷ xs) (l, r) = elim (Bool-cases (before o.observed_at x.observed_at)) [
  | inl older ↦ rw older (NoneNewer-rank x o xs (before_asymm _ _ older) l, rank-IsRanking o xs r)
  | inr newer ↦ rw newer ((newer, NoneNewer-trans o x xs newer l), (l, r))
]

ranked-IsRanking : (xs os : List Observation) → IsRanking xs → IsRanking (ranked xs os)
unfolding ranked
ranked-IsRanking xs [] r = r
ranked-IsRanking xs (o ∷ os) r = ranked-IsRanking (rank o xs) os (rank-IsRanking o xs r)

rank-Perm : (o : Observation) (xs : List Observation) → Perm (rank o xs) (o ∷ xs)
unfolding rank
rank-Perm o [] = Perm.refl (o ∷ [])
rank-Perm o (x ∷ xs) = elim (Bool-cases (before o.observed_at x.observed_at)) [
  | inl older ↦ rw older (Perm.trans (Perm.cons x (rank-Perm o xs)) (Perm.swap o x xs))
  | inr newer ↦ rw newer (Perm.refl (o ∷ x ∷ xs))
]

ranked-Perm : (xs os : List Observation) → Perm (ranked xs os) (xs ++ os)
unfolding ranked
ranked-Perm xs [] = rw append-nil (Perm.refl xs)
ranked-Perm xs (o ∷ os) =
    Perm.trans (ranked-Perm (rank o xs) os)
      (Perm.trans (Perm.append (rank-Perm o xs) (Perm.refl os)) (Perm.symm (perm_middle xs os)))

-- After any observations the history of a target shows some arrangement of exactly those
-- observations in which none stands before a newer one: their number, the first and the second.
pub track-IsRanking :
    (os : List Observation)
    → (xs : List Observation) × Perm xs os × IsRanking xs × (track no_history os ≡ shown xs)
track-IsRanking os = (ranked [] os, ranked-Perm [] os, ranked-IsRanking [] os tt, track_exact os)
