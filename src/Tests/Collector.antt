-- ===== src/Tests/Collector.antt =====
-- The registry collector: the theorems at concrete policies, times and addresses.
use mcp_observatory.Prelude.{
  ltb, Bytes, ascii, ok, Ensures, ◌+◌, ◌-◌, ◌*◌, ◌^◌, ◌≤◌, min, ◌≡◌, ◌↔◌, refl, true, none, some,
  [], ◌∷◌, arith, equal, starts_with, has_byte, until_byte,
}
use mcp_observatory.Scan.{decimal}
use mcp_observatory.Registry.Policy.{
  default_runtime_policy, validate_runtime_policy, IsPolicy, IsRepresentable,
  validate_runtime_policy_iff, as_uint64,
}
use mcp_observatory.Registry.Deadlines.{
  CollectionDeadlines, classify_deadlines, in_time, classify_deadlines-until_next_deadline,
}
use mcp_observatory.Registry.Retry.{
  HttpResponse, exponential_retry_delay, doubled, exponential_retry_delay_exact, retry_delay,
  retry_delay-le, no_failure,
}
use mcp_observatory.Registry.Address.{percent_encode, lower_ascii}
use mcp_observatory.Registry.Encoding.{percent_decode, percent_decode-percent_encode}
use mcp_observatory.Registry.Url.{
  parse_registry_url, split_scheme, split_authority, split_host, bracketed_host, plain_host,
  parse_port, trimmed, without_slashes, normalized_url, to_string,
}
use mcp_observatory.Registry.Endpoint.{IsEndpoint, parse_registry_url-IsEndpoint}

representable : IsRepresentable default_runtime_policy
representable = record {
  request = omega arith;
  stall = omega arith;
  initial = omega arith;
  maximum = omega arith;
  run = tt;
}

validate_runtime_policy_iff_example :
    (validate_runtime_policy default_runtime_policy ≡ ok tt) ↔ IsPolicy default_runtime_policy
validate_runtime_policy_iff_example =
    validate_runtime_policy_iff default_runtime_policy representable

abbrev running : CollectionDeadlines
running = record { last_durable_progress = 1000; total_deadline = some 5000 }

running-in_time : in_time (classify_deadlines running default_runtime_policy 2000).failure ≡ true
unfolding classify_deadlines in_time
running-in_time = refl

classify_deadlines-until_next_deadline_example :
    in_time (classify_deadlines running default_runtime_policy 5000).failure
    ≡ ltb 5000 (2000 + (classify_deadlines running default_runtime_policy 2000).until_next_deadline)
classify_deadlines-until_next_deadline_example =
    classify_deadlines-until_next_deadline running default_runtime_policy 2000 5000 (omega arith)
      (omega arith) running-in_time

third_delay : exponential_retry_delay default_runtime_policy 3 ≡ 8
unfolding exponential_retry_delay doubled
third_delay = refl

exponential_retry_delay_exact_example :
    exponential_retry_delay default_runtime_policy 9
    ≡ min
        (as_uint64 default_runtime_policy.retry_initial * 2 ^ (9 - 1))
        (as_uint64 default_runtime_policy.retry_maximum)
exponential_retry_delay_exact_example = exponential_retry_delay_exact default_runtime_policy 9

abbrev busy : HttpResponse
unfolding ascii
busy = record {
  status = 429;
  content_type = [];
  body = [];
  effective_url = [];
  location = none;
  retry_after = some (ascii "500");
  failure_kind = no_failure;
}

retry_delay-le_example :
    retry_delay busy default_runtime_policy 1 ≤ as_uint64 default_runtime_policy.retry_maximum
retry_delay-le_example = retry_delay-le busy default_runtime_policy 1

abbrev cursor : Bytes
cursor = b'a' ∷ b' ' ∷ b'b' ∷ []

percent_decode-percent_encode_example : percent_decode (percent_encode cursor) ≡ cursor
percent_decode-percent_encode_example =
    percent_decode-percent_encode cursor (omega arith, (omega arith, (omega arith, tt)))

abbrev address : Bytes
unfolding ascii
address = ascii "https://EX.com:443/base/"

parsed_address :
    parse_registry_url address
    ≡ ok (record {
      scheme = ascii "https";
      host = ascii "ex.com";
      port = 443;
      base_path = ascii "/base";
      normalized = ascii "https://ex.com/base";
    })
unfolding ascii equal starts_with has_byte until_byte decimal lower_ascii parse_registry_url
    split_scheme split_authority split_host bracketed_host plain_host parse_port trimmed
    without_slashes normalized_url to_string
parsed_address = refl

parse_registry_url-IsEndpoint_example : Ensures IsEndpoint (parse_registry_url address)
parse_registry_url-IsEndpoint_example = parse_registry_url-IsEndpoint address
