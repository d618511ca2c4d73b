-- ===== src/Lib.antt =====
-- A model of the core of dnscrypt-proxy: how a query is processed from the packet of the client to
-- the answer, how the proxy learns the quality of its resolvers, how it chooses one for each query,
-- and the data structures around that choice.
--
-- The parts and their files:
--   * Exchange, Metrics (dnscrypt-proxy/scheduler_metrics.go): `ExchangeOutcome` is the record that
--     every exchange with a resolver leaves; `ResolverMetrics` is the store of one resolver, ten
--     epochs of counters and a latency histogram. `observe` is `Observe`, `advance_locked` is
--     `advanceLocked`, `snapshot` is `Snapshot`, `percentile_buf` is `PercentileBuf`. Balance,
--     Window, Buckets, Samples and Histogram hold what is proved of them.
--   * Mds (dnscrypt-proxy/scheduler_mds.go): the stateful scheduler. Circuit is the breaker of one
--     resolver, Scheduler the state of `LBStrategyMDS` with `observe_feedback_locked`, Score the
--     scores, Select the choice (`select_candidate_locked` is `selectCandidateLocked`; `choose` is
--     its part for two candidates or more). Breaker, Selection, Primary and Probes hold the proofs,
--     on the lemmas of Loops and Paths.
--   * Servers (dnscrypt-proxy/serversInfo.go, dnscrypt-proxy/scheduler_feedback.go): the shared
--     table `ServersInfo`. Strategy, Ranking and GetOne lead to `get_one`, which is `getOne`; Info
--     has registration, `refresh_server` and the claims of key refreshes; Feedback has `observe_outcome`, which is
--     `observeOutcome` and calls Metrics and Mds as the source does.
--   * Query (dnscrypt-proxy/plugins.go, dnscrypt-proxy/query_processing.go, dnscrypt-proxy/proxy.go,
--     dnscrypt-proxy/plugin_query_log.go): one query. Query.antt has `PluginsState` and the
--     interface `Table` to the table of servers; Plugins the chains (`apply_query_plugins`,
--     `apply_response_plugins` and `apply_logging_plugins` are the functions of these names);
--     Exchanges the exchange over DNSCrypt, DoH and ODoH up to `handle_dns_exchange`; Process the
--     rest, up to `process_incoming_query`, which is `processIncomingQuery`. Chains, Fallback,
--     Failures, Steps, Dispatch, Served and Rejected hold the proofs.
--   * Dns (dnscrypt-proxy/dnsutils.go): messages, the responses that the proxy makes up, names and
--     transaction IDs; Responses has the proofs. Text: byte strings and the functions of the
--     package strings.
--   * Patterns (dnscrypt-proxy/pattern_matcher.go): `add` and `eval` are `Add` and `Eval`; Labels
--     and Rules hold the proofs.
--   * Filters (dnscrypt-proxy/plugin_block_name.go, dnscrypt-proxy/plugin_cache.go,
--     dnscrypt-proxy/plugin_forward.go, dnscrypt-proxy/plugin_allow_name.go): BlockName, Cache,
--     Forward and AllowName, on the state of Query, with the matcher of Patterns and the ranges of
--     Weekly. Synthesized (dnscrypt-proxy/plugin_block_unqualified.go,
--     dnscrypt-proxy/plugin_firefox.go): the names that are answered locally. NameDecisions has
--     proofs on the rules on names. Addresses (dnscrypt-proxy/plugin_block_ip.go,
--     dnscrypt-proxy/plugin_allow_ip.go): the rules on addresses, and
--     AddressLaws their proofs.
--   * Clients (dnscrypt-proxy/proxy.go): the count of clients, as threads that take atomic steps.
--   * Mds/Config (dnscrypt-proxy/config_loader.go): `apply_mds_config` is `applyMDSConfig`.
--   * UdpPool (dnscrypt-proxy/udp_conn_pool.go): the pool of UDP sockets.
--   * Packet (dnscrypt-proxy/crypto.go, dnscrypt-proxy/estimators.go, dnscrypt-proxy/common.go,
--     dnscrypt-proxy/dnsutils.go): padding, sizes of queries, the TCP prefix, times to live.
--   * Weekly (dnscrypt-proxy/time_ranges.go): the weekly ranges of times.
--   * Base: lists, maps as association lists, integers and Boolean tests on native numbers. Float:
--     the interface of float64.
--
-- Conventions. A method that holds a lock from start to end is one step: a function from the state
-- to the state and its results. Clock readings, random draws and the results of the network are
-- arguments, in the order in which the source asks for them. Times are nanoseconds since the zero
-- time, which is 0. Counters of uint64 and uint32 wrap around as written. Types of other packages
-- are parameters: float64 (`Float64`), the moving averages of RTTs (`MovingAverage`), server
-- stamps, sockets, the packing of DNS messages (`Codec`), the network and the ciphers (`Net`), the
-- tries of name rules (`Trie`), the trees and networks of address rules (`Networks`) and the store of
-- the cache (`SieveCache`). The examples run on numbers in
-- units of 1/1000 in place of floats.
--
-- Loops are structural recursion but for two. `build_edges` takes fuel, one unit more than the number
-- of rounds: 43 units for the constants of the source in the examples. The redraw of `getWeightedCandidate`
-- reads a list of draws, and ends at the first that differs. An index that would make Go panic is a
-- result of its own, or is named at the definition that leaves the state unchanged there.
--
-- Not modelled: sockets, TLS and HTTP, the ciphers, the plugins other than those above, the reading of
-- the rest of the configuration and of resolver lists, the monitoring UI, and the glue to operating
-- systems. In Query the texts for logs, the address of the client and the time of the end of a
-- request are left out.
mod Base
pub mod Text
pub mod Dns
pub mod Query
pub mod Patterns
pub mod Filters
pub mod Clients
pub mod Exchange
pub mod Float
pub mod Metrics
pub mod Servers
pub mod Mds
pub mod UdpPool
pub mod Packet
pub mod Weekly
