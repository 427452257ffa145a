-- ===== src/Lib.antt =====
-- Token accounting in the otelcol-genai-sketches repository: the Python programs that record, guard,
-- merge and compare reported token usage.
--
-- Parts, and the files that model them (paths are from the repository's root):
--   * examples/gateway-accounting/analyze.py: `Analyze`. `Counts` has `count`, `normalize`, `compare`
--     and `usage_state`; `Record` the whitelisted record; `Merge` has `merge_usage`; `Surface` has
--     `surface` and `add_comparisons`, and `Surface.Attempts` has `provider_surface`;
--     `Rows` has `rows` and `in_window`; `Native` has `litellm_records`, `bifrost_records` and
--     `portkey_records`, with `Native.Attributes` (`usage_attributes`, `otlp_attributes`,
--     `agentgateway_records`) and `Native.Dispatch` (`native_surface`); `Telemetry` has
--     `span_records` and `telemetry_surface`, with `Lineage` for the selection of leaves; `Case` has
--     `analyze_case`; `Run` has `is_control`, `manifest_versions` and one pair of `analyze_run`, and
--     `Run.Whole` the whole.
--   * examples/gateway-accounting/verify.py: `Verify`, over the report of `Analyze.Run.Whole`.
--   * examples/gateway-accounting/provider.py: `Provider`, with `Stream` (`stream_events`), `Request`
--     (the checks of `do_POST`) and `Server` (its routes and rows). `Recovery` runs the analysis on
--     the rows that the server leaves, so it joins the two programs.
--   * examples/gateway-accounting/anthropic_protocol.py: `AnthropicProtocol` (costs and ledger),
--     with `Request` (`cache_prefix`, `request_body`) and `Request.Check` (`checked_body`); `Reserve`
--     compares a cost with its reserve.
--   * examples/gateway-accounting/live_anthropic.py: `LiveAnthropic` (`LiveServer`), with
--     `LiveAnthropic.Frames` (`stream_frames`), `LiveAnthropic.Stream` (`forward_stream`) and
--     `LiveAnthropic.Forward` (`forward`, and `do_POST` in its child `Post`). `Guard` has the spend guard as a step relation.
--   * examples/integrations/litellm/usage_provenance.py: `UsageProvenance`.
--   * examples/integrations/litellm/provider-trial/relay.py: `Trial` (costs, `usage_only`,
--     `budget_used`), with `Validate` (`validate`), `Relay` (`handle_post`) and `Relay.Stream` (its
--     loop over a streamed answer).
--   * examples/gateway-accounting/live.py: `LiveOpenai` (`LiveServer`), with `Request`
--     (`checked_body`), `Stream` (the loop over a streamed answer) and `Forward` (`forward`, `do_POST`).
--   * deploy/kubernetes/summary-export/copy-windows.py: `CopyWindows`, with `Numbers` (times
--     of any JSON number) and `Main` (`main`). The output directory is a list of files that each step
--     changes, and the disk may fail at any of them.
--
-- `Json` has the values that `json.loads` returns and Python's dict operations on them: a dict keeps
-- its insertion order, `get` of a missing key is None, and an update replaces in place. `Base` has the
-- shared library names, Boolean tests, and exceptions as values (`Base.Errors`).
--
-- `Text` has the regular expressions. `Ledger` has the ledger that the relays keep, with the cost of a
-- completion as a parameter that each protocol fills.
--
-- State is passed explicitly: a method returns the new state beside its result or its exception. A
-- clock is an argument, and a peer that resets its connection is a bound on the writes that it takes.
-- Costs are whole numbers of 10^-8 USD. A loop runs over a list of events, lines or records. Only the
-- climb along parent links in `Lineage` takes fuel: as much as there are spans, since each round visits
-- a span that was not visited before.
--
-- Not modelled: sockets, threads (each locked method is one step), the file system beyond that directory, Docker and
-- subprocess drivers, the forwarding of traces by the relays, rendering of tables, and the Go
-- connector. What `ls`, `tar`, Python's addition of floats, `json.loads`, `datetime.fromisoformat` and `int` give where the modelled
-- code calls them is a parameter or part of its input.
pub mod Base
pub mod Json
pub mod Text
pub mod Ledger
pub mod Analyze
pub mod Provider
pub mod AnthropicProtocol
pub mod LiveAnthropic
pub mod UsageProvenance
pub mod Trial
pub mod LiveOpenai
pub mod CopyWindows
pub mod Verify
pub mod Tests
