-- ===== src/Query/Tests.antt =====
-- One query of a client over UDP, with a DoH and a DNSCrypt server, and plugins that continue, reject
-- or log.
use dnscrypt_proxy_fork.Base.{
  ℕ, ◌+◌, ◌∷◌, ◌≡◌, refl, arith, Bool, true, false, List, [], replicate, none, some, if◌then◌else◌,
}
use dnscrypt_proxy_fork.Text.{Bytes, bytes_eq, has_suffix, cut_suffix, to_lower}
use dnscrypt_proxy_fork.Dns.{
  Question, Msg, Codec, BlockedTexts, normalize_qname, any_rune, transaction_id, set_transaction_id,
}
use dnscrypt_proxy_fork.Servers.Feedback.{no_error, failure}
use dnscrypt_proxy_fork.Query.{
  reject, udp, PluginsState, Plugin, PluginsGlobals, Settings, new_plugins_state, dnscrypt, doh,
  Upstream, World, Table,
}
use dnscrypt_proxy_fork.Query.Plugins.{
  eval_plugins, note_question, apply_response_plugins, QueryLog, query_log,
}
use dnscrypt_proxy_fork.Query.Exchanges.{Net, Clock, Reply, process_dnscrypt_query}
use dnscrypt_proxy_fork.Query.Process.{Average, dispatch, process_incoming_query}
use dnscrypt_proxy_fork.Query.Chains.{
  eval_plugins-append, stops, IsChecked, apply_response_plugins-IsChecked,
}
use dnscrypt_proxy_fork.Query.Fallback.{Source, process_dnscrypt_query-Source}
use dnscrypt_proxy_fork.Query.Failures.{answering, stale-dispatch}
use dnscrypt_proxy_fork.Query.Rejected.{IsAnswered, process_incoming_query-IsAnswered}
use dnscrypt_proxy_fork.Query.Dispatch.{IsServed}
use dnscrypt_proxy_fork.Query.Served.{
  IsQuiet, process_incoming_query-IsServed, process_incoming_query-only_cached,
}

-- "a.b"
abbrev name : Bytes
name = 97 ∷ 46 ∷ 98 ∷ []

abbrev question : Question
question = record { name = name; qtype = 1; class = 1 }

abbrev message : Bool → Msg
message is_response = record {
  id = 7;
  opcode = 0;
  response = is_response;
  rcode = 0;
  truncated = false;
  recursion_desired = true;
  recursion_available = true;
  authenticated_data = false;
  checking_disabled = false;
  security = false;
  udp_size = 0;
  question = question ∷ [];
  answer = [];
  ns = [];
  extra = [];
  pseudo = [];
}

-- A packet of 20 bytes.
abbrev packet : Bytes
packet = replicate 20 0

-- Every packet is that of the query, or of its response.
abbrev codec : Bool → Codec
codec is_response = record {
  unpack = λ p. some (message is_response);
  pack = λ m. some packet;
  equal_name = bytes_eq;
}

abbrev texts : BlockedTexts
texts = record { cpu = []; os = []; extra_text = [] }

abbrev go_on : Plugin
go_on ps msg = record { state = ps; msg = msg; failed = false }

abbrev reject_all : Plugin
reject_all ps msg = record { state = record ps { action = reject }; msg = msg; failed = false }

abbrev log_config : QueryLog
log_config = record { has_client_ip = true; ignored_qtypes = []; has_logger = true }

abbrev globals : List Plugin → PluginsGlobals
globals plugins = record {
  query_plugins = plugins;
  response_plugins = go_on ∷ [];
  logging_plugins = query_log log_config ∷ [];
  refused_code_in_responses = true;
  respond_with_ipv4 = none;
  respond_with_ipv6 = none;
}

abbrev settings : Settings
settings = record {
  cache_neg_min_ttl = 60;
  cache_neg_max_ttl = 600;
  cache_min_ttl = 60;
  cache_max_ttl = 3600;
  reject_ttl = 10;
  timeout = 5_000_000_000;
}

abbrev state : PluginsState
state = record (new_plugins_state settings udp udp 1) { question_msg = some (message false) }

abbrev dns_server : Upstream ℕ
dns_server = record { name = "dns"; proto = doh; relay = none; odoh_target_configs = [] }

-- The table is the number of calls that change it.
abbrev servers : Table ℕ ℕ
servers = record {
  get_one = λ t. (t + 1, some dns_server);
  notice_begin = λ t server at. t + 1;
  is_registered = λ t server. true;
  begin_odoh_refresh = λ t server cooldown at. (t + 1, true);
  refresh_server = λ t server. (t + 1, no_error);
  end_odoh_refresh = λ t server success at. t + 1;
  observe_outcome = λ t ps response err. t + 1;
}

abbrev reply : Reply
reply = record { response = packet; conn_reused = false; err = no_error }

-- A DoH server that fails, an answer over UDP and TCP.
abbrev net : Net ℕ Bytes Bytes
net = record {
  encrypt = λ server proto query. some query;
  exchange_with_udp_server = λ server sealed. reply;
  exchange_with_tcp_server = λ server sealed. reply;
  doh_query = λ server query. record {
    response = [];
    is_complete = false;
    trace = none;
    err = failure true true;
  };
  odoh_draw = 0;
  encrypt_query = λ target query. some query;
  oblivious_doh_query =
      λ server sealed. record { body = []; code = 500; trace = none; err = no_error };
  decrypt_response = λ sealed body. some body;
}

abbrev clock : Clock
clock = record { exchange_start = 2; notice = 3; begin_refresh = 4; end_refresh = 5 }

abbrev average : Average ℕ
average = record { set = λ e n. n; add = λ e n. n; value = λ e. e }

abbrev world : World ℕ ℕ
world = record {
  table = 0;
  estimator = record { min_question_size = 512; ewma = 512 };
  logged = [];
  written = [];
}

process_incoming_query-IsServed_example :
    IsServed
      (codec false)
      texts
      (globals [])
      average
      servers
      net
      clock
      world
      (process_incoming_query
        (codec false)
        texts
        (globals [])
        average
        servers
        net
        clock
        settings
        true
        false
        world
        packet
        udp
        udp
        1).world
process_incoming_query-IsServed_example =
    process_incoming_query-IsServed (codec false) texts (globals []) average servers net clock
      settings true world packet udp udp 1 false

process_incoming_query-only_cached_example :
    IsQuiet
      (record world { table = 1 })
      (process_incoming_query
        (codec false)
        texts
        (globals [])
        average
        servers
        net
        clock
        settings
        true
        true
        world
        packet
        udp
        udp
        1)
unfolding eval_plugins new_plugins_state normalize_qname any_rune bytes_eq has_suffix cut_suffix
    to_lower
process_incoming_query-only_cached_example =
    process_incoming_query-only_cached (codec false) texts (globals []) average servers net clock
      settings true world packet udp udp 1 (message false) name packet refl refl refl refl refl refl
      refl

apply_response_plugins-IsChecked_example :
    IsChecked (codec true) (apply_response_plugins (codec true) texts (globals []) state packet)
apply_response_plugins-IsChecked_example =
    apply_response_plugins-IsChecked texts (globals []) (codec true) state packet

eval_plugins-append_example :
    let r = eval_plugins texts (globals []) note_question (go_on ∷ []) state (message false) in
    eval_plugins texts (globals []) note_question (go_on ∷ reject_all ∷ []) state (message false)
    ≡ (if stops r
        then r
        else eval_plugins texts (globals []) note_question (reject_all ∷ []) r.state r.msg)
unfolding new_plugins_state
eval_plugins-append_example =
    eval_plugins-append texts (globals []) note_question (go_on ∷ []) (reject_all ∷ []) state
      (message false) refl

process_incoming_query-IsAnswered_example : IsAnswered world packet (
    process_incoming_query
      (codec false)
      texts
      (globals (reject_all ∷ []))
      average
      servers
      net
      clock
      settings
      true
      true
      world
      packet
      udp
      udp
      1)
unfolding eval_plugins new_plugins_state normalize_qname any_rune bytes_eq has_suffix cut_suffix
    to_lower
process_incoming_query-IsAnswered_example =
    process_incoming_query-IsAnswered (codec false) texts (globals (reject_all ∷ [])) average
      servers net clock true settings true world packet udp 1 (message false) name packet packet
      question refl refl refl refl refl refl refl refl refl refl refl (omega arith)

abbrev crypt_server : Upstream ℕ
crypt_server = record dns_server { proto = dnscrypt }

process_dnscrypt_query-Source_example : Source (codec false) net "dns" state (
    process_dnscrypt_query
      (codec false)
      (globals [])
      servers
      net
      clock
      world
      state
      crypt_server
      packet
      udp)
process_dnscrypt_query-Source_example =
    process_dnscrypt_query-Source (codec false) (globals []) servers net clock world state
      crypt_server packet udp

-- A state with a stale entry.
abbrev stale_state : PluginsState
stale_state = record state { stale = some (message true) }

stale-dispatch_example :
    dispatch
      (codec false)
      texts
      (globals [])
      average
      servers
      net
      clock
      true
      world
      stale_state
      dns_server
      packet
      udp
      udp
    ≡ dispatch
        (codec false)
        texts
        (globals [])
        average
        servers
        (answering packet net)
        clock
        true
        world
        stale_state
        dns_server
        packet
        udp
        udp
unfolding set_transaction_id transaction_id
stale-dispatch_example =
    stale-dispatch (codec false) texts (globals []) average servers net clock true world stale_state
      dns_server packet packet udp udp refl refl refl refl
