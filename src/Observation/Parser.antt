-- ===== src/Observation/Parser.antt =====
-- `Parser` of src/observation.cpp: an observation document, read member by member.
use mcp_observatory.Prelude.{
  ℕ, leb, ◌==◌, if◌then◌else◌, Bytes, ascii, length, null, take, drop, equal, Outcome, ok, err,
  out_of_fuel, ◌>>=◌, ◌>>◌, require, zero, suc, String, str_append, Bool, true, false, not, ◌&&◌,
  List, [], ◌∷◌,
}
use mcp_observatory.Scan.{
  Dialect, skip_space, plain_string, parse_uint32, skip_json, object_body, expect,
}
use mcp_observatory.Scan.Tail.{between}
use mcp_observatory.Inventory.{Stream, read_inventory, empty_inventory}
use mcp_observatory.Observation.Model.{ObservationLimits, Observation}
use mcp_observatory.Observation.Timestamp.{valid_utc_timestamp}
use mcp_observatory.Observation.Compact.{compact_json}

abbrev pub dialect : Dialect
dialect = record {
  newline_is_space = true;
  escaped_message = "escaped or control characters are not supported in identity strings";
  nesting_message = "JSON value exceeds configured nesting limit";
  escape_message = "unterminated JSON escape";
  colon_message = "expected ':' in object";
}

-- The lexer of this file: `skip_space`, `plain_string`, `uint32` and `skip_value`.
abbrev pub skip_observation_space : Bytes → Bytes
skip_observation_space = skip_space dialect

abbrev pub observation_string : Bytes → Outcome (Bytes × Bytes)
observation_string = plain_string dialect

abbrev pub observation_uint32 : Bytes → Outcome (ℕ × Bytes)
observation_uint32 =
    parse_uint32 "observation_version must be an unsigned integer"
      "observation_version is out of range"

abbrev pub skip_observation_value : ObservationLimits → ℕ → Bytes → Outcome Bytes
skip_observation_value limits depth = skip_json dialect limits.max_nesting_depth depth

unfoldable pub identity : ObservationLimits → Bytes → Outcome (Bytes × Bytes)
identity limits s = do
  (value, rest) ← observation_string s
  require (not (null value)) "identity string must not be empty"
  require (leb (length value) limits.max_identity_bytes) "identity string exceeds configured limit"
  ok (value, rest)

-- `fail` with its own message, whatever went wrong before
unfoldable pub relabel {ℓ} : {A : Type ℓ} → String → Outcome A → Outcome A
relabel message (ok a) = ok a
relabel message (err e) = err message
relabel message out_of_fuel = out_of_fuel

unfoldable pub timestamp : ObservationLimits → Bytes → Outcome (Bytes × Bytes)
timestamp limits s =
    relabel "observed_at must use YYYY-MM-DDTHH:MM:SSZ"
      do (value, rest) ← identity limits s; require (valid_utc_timestamp value) ""; ok (value, rest)

unfoldable pub unknown_value {ℓ} :
    {S : Type ℓ} → ObservationLimits → ℕ → S → Bytes → Outcome (S × Bytes)
unknown_value limits depth state s = do
  rest ← skip_observation_value limits depth s
  ok (state, rest)

-- the locals of `sensor`
pub record Sensor : Type 0 where
  pub have_name : Bool
  pub have_version : Bool
  pub name : Bytes
  pub version : Bytes

abbrev pub empty_sensor : Sensor
empty_sensor = record { have_name = false; have_version = false; name = []; version = [] }

unfoldable pub sensor_member : ObservationLimits → Bytes → Sensor → Bytes → Outcome (Sensor × Bytes)
sensor_member limits key x s =
    if equal key (ascii "name")
    then (do
      require (not x.have_name) "duplicate sensor name"
      (name, rest) ← identity limits s
      ok (record x { have_name = true; name = name }, rest))
    else if equal key (ascii "version")
    then (do
      require (not x.have_version) "duplicate sensor version"
      (version, rest) ← identity limits s
      ok (record x { have_version = true; version = version }, rest))
    else unknown_value limits 1 x s

unfoldable pub sensor : ObservationLimits → Bytes → Outcome (Sensor × Bytes)
sensor limits s = do
  body ← expect b'{' "sensor must be an object" s
  (x, rest) ←
      object_body dialect "sensor is missing required fields" "expected ':' in sensor object"
        "expected ',' or '}' in sensor object" (sensor_member limits) empty_sensor body
  require (x.have_name && x.have_version) "sensor is missing required fields"
  ok (x, rest)

-- the locals of `parse`, and the observation that it fills
pub record Draft : Type 0 where
  pub have_version : Bool
  pub have_time : Bool
  pub have_target : Bool
  pub have_source : Bool
  pub have_sensor : Bool
  pub have_profile : Bool
  pub have_inventory : Bool
  pub out : Observation

abbrev pub empty_draft : Draft
empty_draft = record {
  have_version = false;
  have_time = false;
  have_target = false;
  have_source = false;
  have_sensor = false;
  have_profile = false;
  have_inventory = false;
  out = record {
    version = 0;
    observed_at = [];
    target_id = [];
    source_type = [];
    sensor_name = [];
    sensor_version = [];
    configuration_profile = [];
    inventory = empty_inventory;
    inventory_json = [];
  };
}

-- the second half of the branches on the key
unfoldable pub nested_member : ObservationLimits → Bytes → Draft → Bytes → Outcome (Draft × Bytes)
nested_member limits key x s =
    if equal key (ascii "sensor")
    then (do
      require (not x.have_sensor) "duplicate sensor"
      (value, rest) ← sensor limits s
      ok (
        record x {
          have_sensor = true;
          out = record x.out { sensor_name = value.name; sensor_version = value.version };
        },
        rest,
      ))
    else if equal key (ascii "configuration_profile")
    then (do
      require (not x.have_profile) "duplicate configuration_profile"
      (value, rest) ← identity limits s
      ok (
        record x { have_profile = true; out = record x.out { configuration_profile = value } },
        rest,
      ))
    else if equal key (ascii "inventory")
    then (do
      require (not x.have_inventory) "duplicate inventory"
      rest ← skip_observation_value limits 0 s
      ok (
        record x { have_inventory = true; out = record x.out { inventory_json = between s rest } },
        rest,
      ))
    else unknown_value limits 0 x s

unfoldable pub observation_member :
    ObservationLimits → Bytes → Draft → Bytes → Outcome (Draft × Bytes)
observation_member limits key x s =
    if equal key (ascii "observation_version")
    then (do
      require (not x.have_version) "duplicate observation_version"
      (value, rest) ← observation_uint32 s
      ok (record x { have_version = true; out = record x.out { version = value } }, rest))
    else if equal key (ascii "observed_at")
    then (do
      require (not x.have_time) "duplicate observed_at"
      (value, rest) ← timestamp limits s
      ok (record x { have_time = true; out = record x.out { observed_at = value } }, rest))
    else if equal key (ascii "target_id")
    then (do
      require (not x.have_target) "duplicate target_id"
      (value, rest) ← identity limits s
      ok (record x { have_target = true; out = record x.out { target_id = value } }, rest))
    else if equal key (ascii "source_type")
    then (do
      require (not x.have_source) "duplicate source_type"
      (value, rest) ← identity limits s
      ok (record x { have_source = true; out = record x.out { source_type = value } }, rest))
    else nested_member limits key x s

abbrev pub has_all : Draft → Bool
has_all x =
    x.have_version && x.have_time && x.have_target && x.have_source && x.have_sensor
    && x.have_profile && x.have_inventory

-- `"invalid embedded inventory: " + message`
unfoldable pub embed {ℓ} : {A : Type ℓ} → Outcome A → Outcome A
embed (ok a) = ok a
embed (err e) = err (str_append "invalid embedded inventory: " e)
embed out_of_fuel = out_of_fuel

-- A `std::istringstream` over a text, read in blocks of the buffer's size.
unfoldable pub blocks_of : ℕ → Bytes → List Bytes
blocks_of zero s = []
blocks_of (suc f) s =
    let rest = blocks_of f (drop 4096 s) in if null s then [] else take 4096 s ∷ rest

abbrev pub string_stream : Bytes → Stream
string_stream s = record { blocks = blocks_of (length s) s; bad = false }

-- what `parse` does once the object has ended
unfoldable pub finish : ObservationLimits → Draft → Bytes → Outcome Observation
finish limits x rest = do
  require (null rest) "unexpected data after observation"
  require (has_all x) "observation is missing required fields"
  require (x.out.version == 1) "unsupported observation_version"
  inventory ← embed (read_inventory limits.inventory (string_stream x.out.inventory_json))
  ok (record x.out { inventory = inventory; inventory_json = compact_json x.out.inventory_json })

unfoldable pub parse_observation : ObservationLimits → Bytes → Outcome Observation
parse_observation limits text = do
  body ← expect b'{' "observation must be a JSON object" (skip_observation_space text)
  (x, rest) ←
      object_body dialect "observation is missing required fields"
        "expected ':' after observation member" "expected ',' or '}' in observation"
        (observation_member limits) empty_draft body
  finish limits x (skip_observation_space rest)
