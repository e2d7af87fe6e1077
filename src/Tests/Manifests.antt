-- ===== src/Tests/Manifests.antt =====
-- Target manifests: the theorems at a small file.
use mcp_observatory.Prelude.{
  Bytes, ascii, equal, ok, Ensures, ◌≡◌, refl, true, false, none, [], ◌∷◌, arith,
}
use mcp_observatory.Scan.{
  parse_uint32, plain_string, skip_json, first_member, members, object_body, next_element, expect,
  skip_space,
}
use mcp_observatory.Manifest.{
  TargetRecord, ManifestResult, remote_endpoint, default_read_limits, nonempty_string, parse_kind,
  record_member, check_record, parse_record, read_target_manifest,
}
use mcp_observatory.Manifest.Records.{IsRecord, parse_record-IsRecord}
use mcp_observatory.Manifest.Counts.{
  IsSummary, read_target_manifest-IsSummary, Lists, over, blank, entry,
  read_target_manifest_complete,
}

abbrev line : Bytes
unfolding ascii
line =
    ascii
      "{\"schema_version\":1,\"target_id\":\"t\",\"source_type\":\"s\",\"kind\":\"remote_endpoint\",\"x\":[{}]}"

abbrev target : TargetRecord
unfolding ascii
target = record {
  schema_version = 1;
  target_id = ascii "t";
  source_type = ascii "s";
  kind = remote_endpoint;
}

parsed_line : parse_record line ≡ ok target
unfolding ascii equal parse_uint32 plain_string skip_json first_member members object_body
    next_element expect skip_space nonempty_string parse_kind record_member check_record
    parse_record
parsed_line = refl

parse_record-IsRecord_example : Ensures IsRecord (parse_record line)
parse_record-IsRecord_example = parse_record-IsRecord line

read_target_manifest-IsSummary_example :
    (r : ManifestResult) × (read_target_manifest default_read_limits true (line ∷ [] ∷ line ∷ [])
      ≡ ok r)
    × IsSummary default_read_limits r.summary
read_target_manifest-IsSummary_example =
    read_target_manifest-IsSummary default_read_limits true (line ∷ [] ∷ line ∷ [])

listed : Lists default_read_limits (line ∷ [] ∷ []) (target ∷ [])
unfolding ascii
listed = entry (omega arith) parsed_line (blank over)

read_target_manifest_complete_example :
    read_target_manifest default_read_limits false (line ∷ [] ∷ [])
    ≡ ok (record {
      summary = record { records = 1; local_packages = 0; remote_endpoints = 1 };
      error = none;
    })
unfolding target
read_target_manifest_complete_example =
    read_target_manifest_complete default_read_limits (line ∷ [] ∷ []) (target ∷ []) listed
      (omega arith)
