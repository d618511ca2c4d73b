-- ===== src/Query.antt =====
-- dnscrypt-proxy/plugins.go, query_processing.go and proxy.go: the life of one query, from the packet
-- of the client to the feedback on the exchange. This file has the states; the children have the
-- plugin chains, the exchanges with an upstream server, and the whole handler.
use dnscrypt_proxy_fork.Base.{ℕ, ◌-◌, ◌+◌, Bool, true, false, List, [], Option, none, String}
use dnscrypt_proxy_fork.Base.Int.{pos}
use dnscrypt_proxy_fork.Text.{Bytes}
use dnscrypt_proxy_fork.Dns.{Msg}
use dnscrypt_proxy_fork.Exchange.{ExchangeOutcome, unknown}
use dnscrypt_proxy_fork.Packet.Padding.{
  QuestionSizeEstimator, max_dns_udp_packet_size, max_dns_udp_safe_packet_size,
}
use dnscrypt_proxy_fork.Servers.Feedback.{ExchangeError}
pub mod Plugins
pub mod Exchanges
pub mod Process
pub mod Chains
pub mod Fallback
pub mod Failures
pub mod Steps
pub mod Dispatch
pub mod Rejected
pub mod Served
mod Tests

pub data Action : Type 0 where
  continue' drop reject synth : Action

pub data ReturnCode : Type 0 where
  pass forward dropped rejected synthesized parse_error nxdomain response_error servfail
        network_error cloak server_timeout not_ready :
      ReturnCode

-- The strings "udp", "tcp", "local_doh" and "trampoline" of `clientProto`; `serverProto` is one of the
-- first two.
pub data Proto : Type 0 where
  udp tcp local_doh trampoline : Proto

-- The fields of PluginsState. `stale` and `whitelisted` are the two keys of `sessionData`. The address
-- of the client, the transport and `requestEnd` are only passed on to loggers and are left out.
pub record PluginsState : Type 0 where
  pub request_start : ℕ
  pub client_proto : Proto
  pub server_name : String
  pub relay_name : String
  pub server_proto : Proto
  pub qname : Bytes
  pub synth_response : Option Msg
  pub question_msg : Option Msg
  pub stale : Option Msg
  pub whitelisted : Bool
  pub action : Action
  pub timeout : ℕ
  pub return_code : ReturnCode
  pub max_payload_size : ℕ
  pub original_max_payload_size : ℕ
  pub max_unencrypted_udp_safe_payload_size : ℕ
  pub reject_ttl : ℕ
  pub cache_max_ttl : ℕ
  pub cache_neg_max_ttl : ℕ
  pub cache_neg_min_ttl : ℕ
  pub cache_min_ttl : ℕ
  pub cache_hit : Bool
  pub dnssec : Bool
  pub exchange : ExchangeOutcome
  pub exchange_start : ℕ

-- What a plugin leaves: the state, the message, and whether it returned an error.
pub record Evaluated : Type 0 where
  pub state : PluginsState
  pub msg : Msg
  pub failed : Bool

abbrev pub Plugin : Type 0
Plugin = PluginsState → Msg → Evaluated

-- A logging plugin reads the question; it may write to the state.
pub record Logged : Type 0 where
  pub state : PluginsState
  pub failed : Bool

abbrev pub LogPlugin : Type 0
LogPlugin = PluginsState → Msg → Logged

pub record PluginsGlobals : Type 0 where
  pub query_plugins : List Plugin
  pub response_plugins : List Plugin
  pub logging_plugins : List LogPlugin
  pub refused_code_in_responses : Bool
  pub respond_with_ipv4 : Option Bytes
  pub respond_with_ipv6 : Option Bytes

-- The settings of the proxy that a new state takes over.
pub record Settings : Type 0 where
  pub cache_neg_min_ttl : ℕ
  pub cache_neg_max_ttl : ℕ
  pub cache_min_ttl : ℕ
  pub cache_max_ttl : ℕ
  pub reject_ttl : ℕ
  pub timeout : ℕ

-- `len(ServerMagic) + NonceSize + TagSize`
abbrev pub response_overhead : ℕ
response_overhead = 8 + 24 + 16

abbrev pub no_outcome : ExchangeOutcome
no_outcome = record {
  duration = pos 0;
  transport = unknown;
  timeout = false;
  error = false;
  servfail = false;
  dnssec_bogus = false;
  upstream_truncated = false;
  local_truncated = false;
  tcp_fallback = false;
  quic_fallback = false;
  conn_reused = false;
  ecs_returned = false;
}

unfoldable pub new_plugins_state : Settings → Proto → Proto → ℕ → PluginsState
new_plugins_state proxy client_proto server_proto start = record {
  request_start = start;
  client_proto = client_proto;
  server_name = "-";
  relay_name = "";
  server_proto = server_proto;
  qname = [];
  synth_response = none;
  question_msg = none;
  stale = none;
  whitelisted = false;
  action = continue';
  timeout = proxy.timeout;
  return_code = pass;
  max_payload_size = max_dns_udp_packet_size - response_overhead;
  original_max_payload_size = 0;
  max_unencrypted_udp_safe_payload_size = max_dns_udp_safe_packet_size;
  reject_ttl = proxy.reject_ttl;
  cache_max_ttl = proxy.cache_max_ttl;
  cache_neg_max_ttl = proxy.cache_neg_max_ttl;
  cache_neg_min_ttl = proxy.cache_neg_min_ttl;
  cache_min_ttl = proxy.cache_min_ttl;
  cache_hit = false;
  dnssec = false;
  exchange = no_outcome;
  exchange_start = 0;
}

-- The kinds of servers that fetchServerInfo of serversInfo.go lets in.
pub data ServerProto : Type 0 where
  dnscrypt doh odoh_target : ServerProto

-- A live server, as the handler reads it; `G` is an ODoH target configuration.
pub record Upstream (G : Type 0) : Type 0 where
  pub name : String
  pub proto : ServerProto
  pub relay : Option String
  pub odoh_target_configs : List G

-- The table of servers, through the methods that the handler calls; a number is a reading of the
-- clock. `refresh_server` also tells the error, and `is_registered` whether a registered
-- server has the name.
pub record Table (T G : Type 0) : Type 0 where
  pub get_one : T → T × Option (Upstream G)
  pub notice_begin : T → String → ℕ → T
  pub is_registered : T → String → Bool
  pub begin_odoh_refresh : T → String → ℕ → ℕ → T × Bool
  pub refresh_server : T → String → T × ExchangeError
  pub end_odoh_refresh : T → String → Bool → ℕ → T
  pub observe_outcome : T → PluginsState → Bytes → ExchangeError → T

-- What the handler changes besides the state of the query: the table, the estimator of question
-- sizes, the return codes that the loggers were called with, and the packets written to the client.
pub record World (T E : Type 0) : Type 0 where
  pub table : T
  pub estimator : QuestionSizeEstimator E
  pub logged : List ReturnCode
  pub written : List Bytes
