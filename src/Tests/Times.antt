-- ===== src/Tests/Times.antt =====
-- A time that ends in a leap second.
use mcp_observatory.Prelude.{◌==◌, Bytes, ascii, ◌≡◌, not, ◌&&◌}
use mcp_observatory.Observation.{two_digits, valid_utc_timestamp as observed_timestamp}
use mcp_observatory.Registry.Clock.{valid_utc_timestamp, valid_utc_timestamp-observed_timestamp}

abbrev leap : Bytes
unfolding ascii
leap = ascii "2016-12-31T23:59:60Z"

valid_utc_timestamp-observed_timestamp_example :
    valid_utc_timestamp leap ≡ (observed_timestamp leap && not (two_digits leap 17 == 60))
valid_utc_timestamp-observed_timestamp_example = valid_utc_timestamp-observed_timestamp leap
