-- ===== src/Manifest/Reader.antt =====
-- `read_target_manifest` of src/target_manifest.cpp: a manifest, line by line.
use mcp_observatory.Prelude.{
  ℕ, ltb, leb, if◌then◌else◌, Bytes, length, null, Outcome, ok, err, out_of_fuel, ◌+◌, String, Bool,
  none, some, List, [], ◌∷◌, ascii, true, false,
}
use mcp_observatory.Manifest.Model.{
  TargetKind, TargetRecord, ReadLimits, ManifestSummary, ManifestResult, local_package,
  remote_endpoint,
}
use mcp_observatory.Manifest.Parser.{parse_record}

abbrev pub empty_summary : ManifestSummary
empty_summary = record { records = 0; local_packages = 0; remote_endpoints = 0 }

-- the counts after one more record
unfoldable pub count : ManifestSummary → TargetKind → ManifestSummary
count summary local_package = record summary {
  records = summary.records + 1;
  local_packages = summary.local_packages + 1;
}
count summary remote_endpoint = record summary {
  records = summary.records + 1;
  remote_endpoints = summary.remote_endpoints + 1;
}

abbrev pub stopped : ManifestSummary → ℕ → String → ManifestResult
stopped summary line_number message = record {
  summary = summary;
  error = some (record { line = line_number; message = message });
}

-- what `parse` said of the line
unfoldable pub on_record :
    (ManifestSummary → Outcome ManifestResult)
    → ManifestSummary
    → ℕ
    → Outcome TargetRecord
    → Outcome ManifestResult
on_record next summary line_number (ok r) = next (count summary r.kind)
on_record next summary line_number (err message) = ok (stopped summary line_number message)
on_record next summary line_number out_of_fuel = out_of_fuel

-- the body of the loop, from the number of the line on
unfoldable pub manifest_line :
    ReadLimits
    → (ManifestSummary → Outcome ManifestResult)
    → ManifestSummary
    → ℕ
    → Bytes
    → Outcome ManifestResult
manifest_line limits next summary line_number line =
    if null line
    then next summary
    else if ltb limits.max_line_bytes (length line)
    then ok (stopped summary line_number "line exceeds max_line_bytes")
    else if leb limits.max_records summary.records
    then ok (stopped summary line_number "manifest exceeds max_records")
    else on_record next summary line_number (parse_record line)

-- the loop over the lines that `std::getline` delivers; `bad` is the state of the stream after them
unfoldable pub each_line :
    ReadLimits → Bool → ManifestSummary → ℕ → List Bytes → Outcome ManifestResult
each_line limits true summary line_number [] =
    ok (stopped summary line_number "I/O failure while reading manifest")
each_line limits false summary line_number [] = ok (record { summary = summary; error = none })
each_line limits bad summary line_number (line ∷ lines) =
    manifest_line limits
      (λ (next : ManifestSummary). each_line limits bad next (line_number + 1) lines) summary
      (line_number + 1) line

unfoldable pub read_target_manifest : ReadLimits → Bool → List Bytes → Outcome ManifestResult
read_target_manifest limits bad lines = each_line limits bad empty_summary 0 lines

unfoldable pub kind_name : TargetKind → Bytes
kind_name local_package = ascii "local_package"
kind_name remote_endpoint = ascii "remote_endpoint"
