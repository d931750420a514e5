-- ===== src/Lib.antt =====
-- soroban-cost-estimator estimates what calls of Soroban smart contracts cost: it simulates
-- transactions over a Stellar RPC endpoint, turns the resources used into fees, and tracks the
-- network's pricing configuration in snapshots. This library models the parts that decide what the
-- program says, with theorems about them.
--
-- Parts and files (sources are paths from the repository's root):
-- * Fee (src/report/fee_calc.rs). Fee.Scaled is `scaled_fee`, Fee.Breakdown is
--   `compute_fee_breakdown`, whose percentages are Fee.Percent, Fee.Xlm is `stroops_to_xlm` and
--   `xlm_to_stroops`, Fee.Range is `fee_range`. Fee.Scaled, Fee.Percent.Sum,
--   Fee.Breakdown.Accounts, Fee.Xlm.RoundTrip and Fee.Range.Bounds hold their proofs.
-- * Rpc.Breaker (src/rpc/circuit_breaker.rs): the circuit breaker that guards an endpoint. The
--   record `CircuitBreaker` is the state under the lock with its configuration; each method is a
--   function that takes the breaker and the clock's reading and returns the breaker that it leaves.
--   Overlapping calls are sequences of such steps (Invariant), failures in a row are Trip, and the
--   half-open state is Probe.
-- * Rpc.Retry (src/rpc/retry.rs): `with_retry_deadline` as a loop over rounds, where a round holds
--   what the operation, the clock and the jitter's seed answer. Delay, Loop and Answer hold the
--   proofs. A client retries a call with it and reports the outcome to the breaker.
-- * Rpc.Client (src/rpc/client.rs): Dedup is `DedupState`, the cache of completed results, as a list
--   of entries (Map) with an order of keys (proofs in Held, Recent and Lru). Post is
--   `post_and_parse`, a request with its retries, and Call is `perform_call`, which goes from the
--   primary endpoint to the fallback under their circuits and one deadline: the client is a
--   record that each call takes and returns, and what the endpoints and the clock answer is an argument.
--   Ends, Gateway, Requests, Failover and Role hold the proofs. Url has the websocket and HTTP forms of
--   a URL (Forms, RoundTrip) and the choice of an endpoint (Endpoint), Headers the custom headers
--   and what is logged of them (Redacted), Wait the delay of a `Retry-After` header.
-- * Rpc.Simulate (src/rpc/simulate.rs): `parse_resource_fee`, with the panic of a slice out of range as
--   a value (proofs in Fee).
-- * Error (src/error.rs): the error type that all of these return.
-- * Snapshot (src/config_snapshot/model.rs, src/config_snapshot/diff.rs). Snapshot.Model is the
--   snapshot with its sections, Snapshot.Model.Tables what is known of each setting, and
--   Snapshot.Diff compares two snapshots: Field (`FieldDiff`, `check`), Sections (`compare_*`),
--   Report (`ConfigDiff`, `diff_snapshots`, `pricing_only`, `resolve_exit_code`), Csv
--   (`format_diff_csv`). Exact, Complete, Pricing and ExitCode hold the proofs, and Csv.Reader and
--   Csv.Read a reader of CSV.
--   Snapshot.Same is `same_configuration`, which decides whether a snapshot is stored, and
--   Snapshot.Schema is `ensure_supported_snapshot_schema`, and Snapshot.Payload is `diff_payloads`
--   on payloads with fields that the build does not know, which Snapshot.Payload.Fields collects
--   from a stored object; `stored_members` there is what the derived `Serialize` writes.
--   Snapshot.History is the change log of stored snapshots (src/config_snapshot/history.rs, proofs
--   in Silent). Snapshot.Store is the timestamps in file names, the listing of a directory and the
--   selection of the latest snapshot (proofs in Order, Latest and Undated), and Snapshot.Prune the
--   retention (proofs in Newest and Undated), both in src/config_snapshot/store.rs, over a directory
--   that is the list of its files' names. Pruning takes the listing of Snapshot.Store.
-- * Report (src/report/cost_report.rs). Report.Model holds `CostReport` and its parts,
--   Report.Limits is `check_resource_limits`, Report.Summary `summarize_estimate_all`,
--   Report.Distribution `FeeDistribution` with the root of Report.Root, Report.Projection the
--   invocation counts and their projections, Report.Thousands the grouped digits, Report.Advice
--   suggestions and tips, Report.History `build_history_entries`, Report.Sensitivity
--   `pricing_sensitivity_report`, Report.Delta `CostDelta`, Report.Batch `BatchCostReport`.
--   Threshold, Totals, Deviation, Floor, Parsed, Exact, Groups and Ordered hold the proofs.
--   Report.Compare and Report.Abi are src/report/diff.rs: the rows that compare two reports, and
--   two contract ABIs as maps of functions by name (proofs in Names and Unchanged). The functions
--   are those of Wasm.
-- * Wasm (src/wasm/parser.rs): functions and their types, Wasm.Sections the size breakdown of a file
--   (proofs in Accounted), Wasm.Meta the contract's metadata (Last), Wasm.Memory the limits on linear
--   memory (Limits), Wasm.Args the check of an argument against its type (Range).
-- * Cache (src/cache.rs): limits and schema migration, and in Cache.Evict the eviction loop over the
--   two tables as lists of rows, oldest first. Cache.Filter is the filter with the queries, pages and
--   deletion over the list of all rows, and Cache.Busy the retries of a busy database. Cache.Evict.Quota,
--   Cache.Migrate, Cache.Filter.Pages and Cache.Busy.Attempts hold the proofs.
-- * Prelude and Text: numbers, lists and characters that the parts share. Tests: the theorems at
--   concrete inputs.
--
-- Numbers: u8, u16, u32, u64 and usize are natural numbers, i64 and i128 integers with the
-- saturating operations and the cast `as i64` written out (Prelude.Machine, Fee.Range); the u128
-- arithmetic of `stroops_to_xlm` is modulo 2 ^ 128. Durations and instants are nanoseconds.
-- Fuel: the retry loop has `max_retries + 1` rounds, one for each attempt that it may make; the
-- decimal print of n has n + 1, each of which divides by ten. The integer square root of v has v
-- rounds, each of which lowers the guess; a busy database is tried in the 5 rounds of the source;
-- eviction has the 100000 rounds of the source, each of which deletes a row; the migration has one
-- round for each schema version.
--
-- Parameters: what other crates supply is a record of types and functions (`Externals` for error
-- values and JSON in Error, `Floats` for f64 in Snapshot.Diff.Report, `PercentFloats` in
-- Report.Compare, `UsdFloats` in Report.Projection, `JsonValues` in Snapshot.Payload, `Encoders`
-- in Snapshot.Payload.Fields, `Wire` for HTTP responses in Rpc.Client.Post, `Dates` in
-- Rpc.Client.Wait, `Urls` in Rpc.Client.Url.Endpoint, `HeaderTypes` in Rpc.Client.Headers, `Times`
-- in Cache.Filter). The size of a SQLite database, the age of a snapshot file and the removal of a
-- file are functions that the definitions take.
--
-- Not modelled: the command line and prompts (src/main.rs, src/cli.rs, src/interactive.rs), the
-- rendering of tables, charts and colours (src/report/formatter.rs and the tables of
-- src/report/cost_report.rs, src/report/diff.rs and of snapshot diffs, of which only the CSV output
-- is modelled), the previews of simulated events in src/report/cost_report.rs, the transport of HTTP
-- and websocket messages and the decoding of responses (in src/rpc/client.rs, src/rpc/simulate.rs,
-- src/rpc/ws.rs and the fetches of src/rpc/config.rs), the sharing of a request that is in flight and
-- the rate limiter of src/rpc/client.rs, the SQL of src/cache.rs with its export and import, the writes
-- of src/config_snapshot/store.rs, XDR and WASM, which libraries decode (src/xdr_helper.rs, the walk of
-- src/wasm/parser.rs), and the user's configuration files (src/config.rs, src/manifest.rs, src/paths.rs).
pub mod Prelude
pub mod Text
pub mod Error
pub mod Fee
pub mod Rpc
pub mod Snapshot
pub mod Wasm
pub mod Report
pub mod Cache
pub mod Tests
