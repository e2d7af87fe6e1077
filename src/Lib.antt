-- ===== src/Lib.antt =====
-- MCP Observatory: C++ code that reads, checks, stores and compares observations of MCP servers.
--
-- How the parts interact. A sensor writes an observation document (docs/observation-v1.md), which
-- embeds a tool inventory. `read_observation` (src/observation.cpp) checks it and reads the
-- inventory by `read_inventory` (src/inventory.cpp); `append_observation_jsonl` adds it to a history,
-- one line for each observation. `analyze_history` (src/history.cpp) reads such a history line by
-- line by `read_observation` again and keeps the two newest observations of one target, whose
-- inventories `compare_inventories` then compares. A target manifest (src/target_manifest.cpp) lists
-- the targets that are to be observed, a record on each line. Apart from these, the registry
-- collector fetches the pages of a registry under a runtime policy with deadlines and retries
-- (src/registry.cpp), and the acquisition of packages chooses among the files that a package registry
-- lists for a release (src/acquisition.cpp). The analysis of a package (src/analyze.cpp) checks the
-- digest of such a file and the version that the registry names, and reads the members of the archive
-- within its limits, before it looks at what they hold.
--
-- Which file models which part.
--   Prelude      library names, Boolean tests, lists, byte strings, and `Outcome`: the C++ pair of a
--                Boolean result and an `error` text
--   Scan         the lexer that the parsers share: spaces, strings, numbers, `skip_value`, and the
--                member loop; `Dialect` holds what the copies differ in
--   Inventory    Model, Parser, Reader and Compare are include/observatory/inventory.hpp and
--                src/inventory.cpp; WellFormed, Reading and Changes are proofs
--   Observation  Model, Timestamp, Compact, Parser, Reader and Writer are
--                include/observatory/observation.hpp and src/observation.cpp; the others are proofs
--   History      Model and Analyze are include/observatory/history.hpp and src/history.cpp; Ranking,
--                Runs, Acceptance, Refusal, Answered and Report are proofs
--   Manifest     Model, Parser and Reader are include/observatory/target_manifest.hpp and
--                src/target_manifest.cpp; Records and Counts are proofs
--   Acquisition  Model, Fields and Pypi are include/observatory/acquisition.hpp and
--                src/acquisition.cpp; Names, Sorting, Releases and Selection are proofs
--   Archive      Model, Paths, Octal and Tar are `ArchiveLimits` of include/observatory/analyze.hpp
--                and, of src/analyze.cpp, `has_dotdot_segment`, `normalize_archive_path`, from
--                `TarMember` to `link_escapes_root`, and the check of the links in
--                `analyze_package_tarball_bytes`; the others are proofs
--   Package      Base64 is `base64_decode` of src/analyze.cpp, Integrity is `verify_npm_integrity`,
--                `verify_pypi_integrity` and what `sha256_hex` and `sha512_raw` make of the output of
--                OpenSSL, which is a parameter; Versions is from `PypiVersionIdentity` to
--                `pypi_versions_equivalent`; the others are proofs
--   Registry     Json is the class `JsonParser`, `valid_utf8`, `append_utf8`, `append_json_string` and
--                `canonical_json` of src/registry.cpp (Json/Model, Utf8, Strings, Numbers, Parser and
--                Writer; the others below Json are proofs). Policy, Deadlines, Retry, Clock, Servers,
--                Address and Url are parts of include/observatory/registry.hpp and src/registry.cpp:
--                `lower_ascii`, `percent_encode`, `valid_server_name`, `valid_server_version`, and
--                from `validate_runtime_policy` to `registry_api_url` what does no input or output;
--                Encoding and Endpoint are proofs, as are the theorems at the end of the other files
--   Tests        runs at concrete inputs
--
-- How code corresponds to definitions. Names are those of the source. A `std::string` is the list of
-- its bytes. A parser's position is the text from there on. A parser that returns false with a
-- message is `err` with that message. Out parameters are results. The locals that a loop changes are
-- a record. A `std::set` of targets is a list without repetitions.
--
-- Bounds and fuel. The recursion of `skip_value` and the loops of the parsers take fuel of twice the
-- length of the text, plus two, as does the strict JSON parser; each call but every second one reads
-- a byte, so this is enough. The loop over the bytes of a JSON string, the loop over the headers of an
-- archive and the loop over the components of a version take fuel of the length of the text plus one:
-- each round reads a byte. `std::to_string` of a port takes fuel 10, and a 32-bit number has at most
-- 10 digits. 32-bit numbers are bounded where they are read; the sums of `parse_octal` wrap around at
-- 2 ^ 64.
--
-- Not modelled: the partly filled results that a failed parse leaves behind, reserve calls, and the
-- parts of the program that are not named above, among them processes, files, SQLite and the network,
-- and the loops of the collector and the explorer around them.
pub mod Prelude
pub mod Scan
pub mod Inventory
pub mod Observation
pub mod History
pub mod Manifest
pub mod Acquisition
pub mod Archive
pub mod Package
pub mod Registry
pub mod Tests
