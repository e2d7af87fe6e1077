-- ===== src/Manifest/Counts.antt =====
-- The summary that `read_target_manifest` returns.
use mcp_observatory.Prelude.{
  ℕ, ltb, leb, if◌then◌else◌, Bytes, length, null, Outcome, ok, Ensures, holds, rejected, ◌+◌, ◌≤◌,
  ◌<◌, ◌≡◌, refl, ap, ◌∙◌, Bool, true, false, none, List, [], ◌∷◌, arith, ◌∙◌,
}
use mcp_observatory.Manifest.Model.{
  TargetKind, TargetRecord, ReadLimits, ManifestSummary, ManifestResult, local_package,
  remote_endpoint,
}
use mcp_observatory.Manifest.Parser.{parse_record}
use mcp_observatory.Manifest.Reader.{
  empty_summary, count, stopped, on_record, manifest_line, each_line, read_target_manifest,
}
use mcp_observatory.Manifest.Records.{IsRecord, parse_record-IsRecord}

-- Every record is of one kind, and there are not too many.
pub record IsSummary (limits : ReadLimits) (s : ManifestSummary) : Type 0 where
  pub sum : s.records ≡ s.local_packages + s.remote_endpoints
  pub bounded : s.records ≤ limits.max_records

count-IsSummary :
    (limits : ReadLimits) (s : ManifestSummary) (k : TargetKind)
    → IsSummary limits s
    → s.records < limits.max_records
    → IsSummary limits (count s k)
unfolding count
count-IsSummary limits s local_package h l = record {
  sum = omega (arith, h.sum);
  bounded = omega arith;
}
count-IsSummary limits s remote_endpoint h l = record {
  sum = omega (arith, h.sum);
  bounded = omega arith;
}

-- the result comes, and its summary adds up
abbrev Answers : ReadLimits → Outcome ManifestResult → Type 0
Answers limits o = (r : ManifestResult) × (o ≡ ok r) × IsSummary limits r.summary

on_record-Answers :
    (limits : ReadLimits) (next : ManifestSummary → Outcome ManifestResult) (s : ManifestSummary)
    (n : ℕ) (o : Outcome TargetRecord)
    → ((x : ManifestSummary) → IsSummary limits x → Answers limits (next x))
    → IsSummary limits s
    → s.records < limits.max_records
    → Ensures IsRecord o
    → Answers limits (on_record next s n o)
unfolding on_record
on_record-Answers limits next s n o k h l (holds {a} r) =
    k (count s a.kind) (count-IsSummary limits s a.kind h l)
on_record-Answers limits next s n o k h l (rejected {e}) = (stopped s n e, refl, h)

-- whichever way a test goes
Answers-if :
    (limits : ReadLimits) (b : Bool) {x y : Outcome ManifestResult}
    → Answers limits x
    → (b ≡ false → Answers limits y)
    → Answers limits (if b then x else y)
Answers-if limits true h k = h
Answers-if limits false h k = k refl

manifest_line-Answers :
    (limits : ReadLimits) (next : ManifestSummary → Outcome ManifestResult) (s : ManifestSummary)
    (n : ℕ) (line : Bytes)
    → ((x : ManifestSummary) → IsSummary limits x → Answers limits (next x))
    → IsSummary limits s
    → Answers limits (manifest_line limits next s n line)
unfolding manifest_line
manifest_line-Answers limits next s n line k h = Answers-if limits (null line) (k s h) λ _.
    Answers-if limits (ltb limits.max_line_bytes (length line))
      (stopped s n "line exceeds max_line_bytes", refl, h)
      λ _.
        Answers-if limits (leb limits.max_records s.records)
          (stopped s n "manifest exceeds max_records", refl, h)
          λ l.
            on_record-Answers limits next s n (parse_record line) k h (room l)
              (parse_record-IsRecord line)
  where
    room : leb limits.max_records s.records ≡ false → s.records < limits.max_records
    room l = ground arith

each_line-Answers :
    (limits : ReadLimits) (bad : Bool) (s : ManifestSummary) (n : ℕ) (lines : List Bytes)
    → IsSummary limits s
    → Answers limits (each_line limits bad s n lines)
unfolding each_line
each_line-Answers limits true s n [] h = (_, refl, h)
each_line-Answers limits false s n [] h = (_, refl, h)
each_line-Answers limits bad s n (line ∷ lines) h =
    manifest_line-Answers limits _ s (n + 1) line
      (λ x i. each_line-Answers limits bad x (n + 1) lines i) h

-- Every manifest gets an answer, and on every way out the summary counts at most `max_records`
-- records, each either as a local package or as a remote endpoint.
pub read_target_manifest-IsSummary :
    (limits : ReadLimits) (bad : Bool) (lines : List Bytes)
    → (r : ManifestResult) × (read_target_manifest limits bad lines ≡ ok r)
      × IsSummary limits r.summary
unfolding read_target_manifest
read_target_manifest-IsSummary limits bad lines =
    each_line-Answers limits bad empty_summary 0 lines
      (record { sum = refl; bounded = omega arith })

-- The lines of a manifest and the records they hold; empty lines hold none.
pub data Lists (limits : ReadLimits) : List Bytes → List TargetRecord → Type 0 where
  over : Lists limits [] []
  blank :
      {lines : List Bytes} {rs : List TargetRecord}
      → Lists limits lines rs
      → Lists limits ([] ∷ lines) rs
  entry :
      {c : ℕ} {line : Bytes} {lines : List Bytes} {r : TargetRecord} {rs : List TargetRecord}
      → length (c ∷ line) ≤ limits.max_line_bytes
      → parse_record (c ∷ line) ≡ ok r
      → Lists limits lines rs
      → Lists limits ((c ∷ line) ∷ lines) (r ∷ rs)

-- the counts of some records, added to others
unfoldable tally : ManifestSummary → List TargetRecord → ManifestSummary
tally s [] = s
tally s (r ∷ rs) = tally (count s r.kind) rs

records-count : (s : ManifestSummary) (k : TargetKind) → (count s k).records ≡ s.records + 1
unfolding count
records-count s local_package = refl
records-count s remote_endpoint = refl

each_line-tally :
    (limits : ReadLimits) (s : ManifestSummary) (n : ℕ) {lines : List Bytes}
    {rs : List TargetRecord}
    → Lists limits lines rs
    → s.records + length rs ≤ limits.max_records
    → each_line limits false s n lines ≡ ok (record { summary = tally s rs; error = none })
unfolding each_line tally manifest_line on_record
each_line-tally limits s n over b = refl
each_line-tally limits s n (blank h) b = each_line-tally limits s (n + 1) h b
each_line-tally limits s n (entry {c} {line} {lines} {r} {rs} l p h) b =
    rw (fits, room, p)
      (each_line-tally limits (count s r.kind) (n + 1) h (omega (arith, records-count s r.kind)))
  where
    fits : ltb limits.max_line_bytes (length (c ∷ line)) ≡ false
    fits = ground arith

    room : leb limits.max_records s.records ≡ false
    room = ground arith

-- the records of local packages, and those of remote endpoints
abbrev pub packages : List TargetRecord → ℕ
packages [] = 0
packages (r ∷ rs) = (elim r.kind [ local_package ↦ 1 | remote_endpoint ↦ 0 ]) + packages rs

abbrev pub endpoints : List TargetRecord → ℕ
endpoints [] = 0
endpoints (r ∷ rs) = (elim r.kind [ local_package ↦ 0 | remote_endpoint ↦ 1 ]) + endpoints rs

-- three counts as a summary
abbrev totals : ℕ → ℕ → ℕ → ManifestSummary
totals n l e = record { records = n; local_packages = l; remote_endpoints = e }

totals-ext : {a b c x y z : ℕ} → a ≡ x → b ≡ y → c ≡ z → totals a b c ≡ totals x y z
totals-ext p q r = rw (p, q, r) refl

totals-count :
    (s : ManifestSummary) (k : TargetKind) (n l e : ℕ)
    → totals
        ((count s k).records + n)
        ((count s k).local_packages + l)
        ((count s k).remote_endpoints + e)
      ≡ totals
          (s.records + (n + 1))
          (s.local_packages + ((elim k [ local_package ↦ 1 | remote_endpoint ↦ 0 ]) + l))
          (s.remote_endpoints + ((elim k [ local_package ↦ 0 | remote_endpoint ↦ 1 ]) + e))
unfolding count
totals-count s local_package n l e = totals-ext (omega arith) (omega arith) (omega arith)
totals-count s remote_endpoint n l e = totals-ext (omega arith) (omega arith) (omega arith)

tally-totals :
    (s : ManifestSummary) (rs : List TargetRecord)
    → tally s rs
      ≡ totals
          (s.records + length rs)
          (s.local_packages + packages rs)
          (s.remote_endpoints + endpoints rs)
unfolding tally
tally-totals s [] = totals-ext (omega arith) (omega arith) (omega arith)
tally-totals s (r ∷ rs) =
    tally-totals (count s r.kind) rs
    ∙ totals-count s r.kind (length rs) (packages rs) (endpoints rs)
    ∙ totals-ext (omega arith) refl refl

-- A manifest whose lines are empty or hold a record each, within the limits, is read without error,
-- and the summary says how many records there are, how many of them are local packages, and how
-- many are remote endpoints.
pub read_target_manifest_complete :
    (limits : ReadLimits) (lines : List Bytes) (rs : List TargetRecord)
    → Lists limits lines rs
    → length rs ≤ limits.max_records
    → read_target_manifest limits false lines
      ≡ ok (record {
        summary = record {
          records = length rs;
          local_packages = packages rs;
          remote_endpoints = endpoints rs;
        };
        error = none;
      })
unfolding read_target_manifest
read_target_manifest_complete limits lines rs h b =
    each_line-tally limits empty_summary 0 h (omega arith)
    ∙ ap answer
        (tally-totals empty_summary rs ∙ totals-ext (omega arith) (omega arith) (omega arith))
  where
    answer : ManifestSummary → Outcome ManifestResult
    answer s = ok (record { summary = s; error = none })
