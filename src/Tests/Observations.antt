-- ===== src/Tests/Observations.antt =====
-- Observation documents and histories: runs of the readers and of the analysis.
use mathlib.Core.List.{Perm}
use mcp_observatory.Prelude.{
  Bytes, ascii, joined, equal, before, Outcome, ok, err, Ensures, String, ◌≡◌, refl, true, false,
  Option, some, List, [], ◌∷◌, ◌++◌, arith, ◌⊎◌,
}
use mcp_observatory.Scan.{
  parse_uint32, plain_string, skip_json, first_member, members, object_body, next_element, expect,
  skip_space,
}
use mcp_observatory.Scan.Tail.{between}
use mcp_observatory.Inventory.{
  read_inventory, append_blocks, parse_inventory, unknown_member, server_member, parse_server,
  tool_member, parse_tool, parse_tool_list, first_tool, parse_tools, inventory_member,
  check_document, is_sorted, has_neighbours,
}
use mcp_observatory.Observation.{
  Observation, default_observation_limits, valid_utc_timestamp, identity, timestamp, relabel,
  unknown_value, sensor_member, sensor, nested_member, observation_member, embed, blocks_of,
  string_stream, finish, parse_observation, append_observation_blocks, read_observation,
  compact_json, compact, move, kept,
}
use mcp_observatory.Observation.Reading.{IsObservationOf, read_observation-IsObservationOf}
use mcp_observatory.History.{
  HistoryResult, default_history_limits, analyze_history, start, finished, update_target_history,
}
use mcp_observatory.History.Runs.{
  Holds, over, blank, entry, HasRoom, absorb_all, analyze_history_complete,
}
use mcp_observatory.History.Acceptance.{Accepted, analyze_history_sound}
use mcp_observatory.History.Refusal.{Refused}
use mcp_observatory.History.Answered.{analyze_history_total}
use mcp_observatory.History.Ranking.{
  track, no_history, shown, ranked, track_exact, track-IsRanking, IsRanking,
}
use mcp_observatory.History.Report.{target_exact, summary_exact, Summarises, wanted, reverse_onto}

read : Bytes → Outcome Observation
unfolding read_inventory append_blocks parse_inventory unknown_member server_member parse_server
    tool_member parse_tool parse_tool_list first_tool parse_tools inventory_member check_document
    is_sorted has_neighbours parse_uint32 plain_string skip_json first_member members object_body
    next_element expect skip_space between ascii equal before valid_utc_timestamp identity timestamp
    relabel unknown_value sensor_member sensor nested_member observation_member embed blocks_of
    finish parse_observation append_observation_blocks read_observation compact_json compact move
    kept
read s = read_observation default_observation_limits (string_stream s)

abbrev line_at : String → Bytes
unfolding ascii
line_at time =
    ascii "{\"observation_version\":1,\"observed_at\":\""
    ++ (ascii time
        ++ ascii
            "\",\"target_id\":\"t\",\"source_type\":\"s\",\"sensor\":{\"name\":\"n\",\"version\":\"v\"},\"configuration_profile\":\"p\",\"inventory\":{\"inventory_version\":1,\"server\":{\"downstream_executable\":\"fs\"},\"tools\": []}}")

abbrev observed : String → Observation
unfolding ascii
observed time = record {
  version = 1;
  observed_at = ascii time;
  target_id = ascii "t";
  source_type = ascii "s";
  sensor_name = ascii "n";
  sensor_version = ascii "v";
  configuration_profile = ascii "p";
  inventory = record { version = 1; downstream_executable = ascii "fs"; tools = [] };
  inventory_json =
      ascii "{\"inventory_version\":1,\"server\":{\"downstream_executable\":\"fs\"},\"tools\":[]}";
}

abbrev june : String
june = "2026-06-01T00:00:00Z"

abbrev july : String
july = "2026-07-01T23:59:60Z"

read_june : read (line_at june) ≡ ok (observed june)
unfolding read ascii
read_june = refl

read_july : read (line_at july) ≡ ok (observed july)
unfolding read ascii
read_july = refl

read_bad_time :
    read (line_at "2026-13-01T00:00:00Z") ≡ err "observed_at must use YYYY-MM-DDTHH:MM:SSZ"
unfolding read ascii
read_bad_time = refl

read_observation-IsObservationOf_example :
    Ensures
      (IsObservationOf default_observation_limits (joined (string_stream (line_at june)).blocks))
      (read_observation default_observation_limits (string_stream (line_at june)))
read_observation-IsObservationOf_example =
    read_observation-IsObservationOf default_observation_limits (string_stream (line_at june))

abbrev lines : List Bytes
lines = line_at july ∷ [] ∷ line_at june ∷ []

abbrev arrivals : List Observation
arrivals = observed july ∷ observed june ∷ []

lines_hold : Holds default_history_limits lines arrivals
unfolding read ascii
lines_hold = entry (omega arith) read_july (blank (entry (omega arith) read_june over))

abbrev target : Option Bytes
unfolding ascii
target = some (ascii "t")

room : HasRoom default_history_limits target start arrivals
unfolding absorb_all ascii equal
room = record { records = omega arith; targets = omega arith }

analyze_history_complete_example :
    analyze_history default_history_limits target false lines
    ≡ ok (finished (absorb_all target start arrivals))
analyze_history_complete_example =
    analyze_history_complete default_history_limits target lines arrivals lines_hold room

analyze_history_sound_example :
    Accepted default_history_limits target false start lines
      (finished (absorb_all target start arrivals))
analyze_history_sound_example =
    analyze_history_sound default_history_limits target false lines analyze_history_complete_example
      refl

abbrev spoilt : List Bytes
spoilt = line_at june ∷ ascii "{" ∷ []

analyze_history_total_example :
    (r : HistoryResult) × (analyze_history default_history_limits target true spoilt ≡ ok r)
    × (Accepted default_history_limits target true start spoilt r
        ⊎ Refused default_history_limits target true start spoilt r)
analyze_history_total_example = analyze_history_total default_history_limits target true spoilt

track_exact_example : track no_history arrivals ≡ shown (ranked [] arrivals)
track_exact_example = track_exact arrivals

track_shows : track no_history arrivals ≡ shown (observed july ∷ observed june ∷ [])
unfolding track ascii before update_target_history
track_shows = refl

track-IsRanking_example :
    (xs : List Observation) × Perm xs arrivals
    × IsRanking xs
    × (track no_history arrivals ≡ shown xs)
track-IsRanking_example = track-IsRanking arrivals

target_exact_example :
    (finished (absorb_all target start arrivals)).target
    ≡ shown (ranked [] (wanted target arrivals))
target_exact_example = target_exact target arrivals

summary_exact_example :
    Summarises (reverse_onto arrivals []) (finished (absorb_all target start arrivals)).summary
unfolding ascii
summary_exact_example = summary_exact target arrivals (refl, (refl, tt))
