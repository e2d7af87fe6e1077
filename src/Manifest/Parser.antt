-- ===== src/Manifest/Parser.antt =====
-- `LineParser` of src/target_manifest.cpp: one record, member by member.
use mcp_observatory.Prelude.{
  ℕ, ◌==◌, if◌then◌else◌, Bytes, ascii, null, equal, Outcome, ok, err, ◌>>=◌, ◌>>◌, require, String,
  Bool, true, false, not, ◌&&◌, [],
}
use mcp_observatory.Scan.{
  Dialect, skip_space, plain_string, parse_uint32, skip_json, object_body, expect,
}
use mcp_observatory.Manifest.Model.{TargetKind, TargetRecord, local_package, remote_endpoint}

abbrev pub dialect : Dialect
dialect = record {
  newline_is_space = false;
  escaped_message = "escaped or control characters are not supported in manifest strings";
  nesting_message = "unknown value exceeds nesting limit";
  escape_message = "unterminated string escape";
  colon_message = "malformed object value";
}

abbrev pub max_skip_depth : ℕ
max_skip_depth = 32

-- The lexer of this file: `skip_space`, `parse_plain_string`, `parse_schema_version`, and
-- `skip_value` from depth 0.
abbrev pub skip_manifest_space : Bytes → Bytes
skip_manifest_space = skip_space dialect

abbrev pub manifest_string : Bytes → Outcome (Bytes × Bytes)
manifest_string = plain_string dialect

abbrev pub parse_schema_version : Bytes → Outcome (ℕ × Bytes)
parse_schema_version =
    parse_uint32 "schema_version must be an unsigned integer" "schema_version is out of range"

abbrev pub skip_manifest_value : Bytes → Outcome Bytes
skip_manifest_value = skip_json dialect max_skip_depth 0

-- the locals of `parse`, and the record that it fills
pub record Draft : Type 0 where
  pub have_schema : Bool
  pub have_id : Bool
  pub have_source : Bool
  pub have_kind : Bool
  pub out : TargetRecord

abbrev pub empty_draft : Draft
empty_draft = record {
  have_schema = false;
  have_id = false;
  have_source = false;
  have_kind = false;
  out = record { schema_version = 0; target_id = []; source_type = []; kind = local_package };
}

unfoldable pub nonempty_string : String → Bytes → Outcome (Bytes × Bytes)
nonempty_string message s = do
  (value, rest) ← manifest_string s
  require (not (null value)) message
  ok (value, rest)

unfoldable pub parse_kind : Bytes → Outcome TargetKind
parse_kind value =
    if equal value (ascii "local_package")
    then ok local_package
    else if equal value (ascii "remote_endpoint")
    then ok remote_endpoint
    else err "kind must be local_package or remote_endpoint"

-- the branches on the key, and the value of an unknown one
unfoldable pub record_member : Bytes → Draft → Bytes → Outcome (Draft × Bytes)
record_member key x s =
    if equal key (ascii "schema_version")
    then (do
      require (not x.have_schema) "duplicate schema_version"
      (value, rest) ← parse_schema_version s
      ok (record x { have_schema = true; out = record x.out { schema_version = value } }, rest))
    else if equal key (ascii "target_id")
    then (do
      require (not x.have_id) "duplicate target_id"
      (value, rest) ← nonempty_string "target_id must not be empty" s
      ok (record x { have_id = true; out = record x.out { target_id = value } }, rest))
    else if equal key (ascii "source_type")
    then (do
      require (not x.have_source) "duplicate source_type"
      (value, rest) ← nonempty_string "source_type must not be empty" s
      ok (record x { have_source = true; out = record x.out { source_type = value } }, rest))
    else if equal key (ascii "kind")
    then (do
      require (not x.have_kind) "duplicate kind"
      (value, rest) ← manifest_string s
      kind ← parse_kind value
      ok (record x { have_kind = true; out = record x.out { kind = kind } }, rest))
    else do rest ← skip_manifest_value s; ok (x, rest)

-- what `parse` checks once the object has ended
unfoldable pub check_record : Draft → Bytes → Outcome TargetRecord
check_record x rest = do
  require (null rest) "unexpected data after JSON object"
  require (x.have_schema && x.have_id && x.have_source && x.have_kind)
      "record is missing required fields"
  require (x.out.schema_version == 1) "unsupported schema_version"
  ok x.out

unfoldable pub parse_record : Bytes → Outcome TargetRecord
parse_record line = do
  body ← expect b'{' "record must be a JSON object" (skip_manifest_space line)
  (x, rest) ←
      object_body dialect "record is missing required fields" "expected ':' after object key"
        "expected ',' or '}'" record_member empty_draft body
  check_record x (skip_manifest_space rest)
