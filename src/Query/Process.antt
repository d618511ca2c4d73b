-- ===== src/Query/Process.antt =====
-- dnscrypt-proxy/proxy.go: processIncomingQuery, and the functions of query_processing.go that it
-- calls around the exchange. The monitoring page, which only reads the state, is left out.
use dnscrypt_proxy_fork.Base.{
  ℕ, ◌+◌, Bool, true, false, not, ◌||◌, [], ◌∷◌, ◌++◌, length, Option, none, some, String, ltb,
  ◌==◌, if◌then◌else◌,
}
use dnscrypt_proxy_fork.Text.{Bytes}
use dnscrypt_proxy_fork.Dns.{
  Msg, Codec, BlockedTexts, validate_response_for_query, truncated_response, has_tc_flag,
}
use dnscrypt_proxy_fork.Packet.Padding.{blind_adjust, adjust, prefix_with_size}
use dnscrypt_proxy_fork.Servers.Feedback.{no_error, failure, is_error}
use dnscrypt_proxy_fork.Query.{
  drop, ReturnCode, dropped, parse_error, not_ready, Proto, udp, tcp, local_doh, trampoline,
  PluginsState, PluginsGlobals, Settings, new_plugins_state, response_overhead, Upstream, World,
  Table,
}
use dnscrypt_proxy_fork.Query.Plugins.{
  is_drop, Queried, apply_query_plugins, apply_response_plugins, apply_logging_plugins,
}
use dnscrypt_proxy_fork.Query.Exchanges.{
  Net, Clock, Settled, with_code, has_packet_size, give_up, handle_dns_exchange,
}

-- The packet of a synthesized response; `none` is an error.
unfoldable pub handle_synthesized_response : Codec → PluginsState → Msg → Option Bytes
handle_synthesized_response dns ps synth =
    if validate_response_for_query dns.equal_name ps.question_msg synth
    then dns.pack synth
    else none

-- The moving average of the estimator of question sizes.
pub record Average (E : Type 0) : Type 0 where
  pub set : E → ℕ → E
  pub add : E → ℕ → E
  pub value : E → ℕ

unfoldable pub empty_code : Bytes → ReturnCode
empty_code response = if length response == 0 then not_ready else parse_error

module _ {T E : Type 0} (dns : Codec) (texts : BlockedTexts) (globals : PluginsGlobals)
    (average : Average E) where
  -- A failure is the error of the result.
  unfoldable pub process_plugins : World T E → PluginsState → Bytes → Settled T E
  process_plugins w ps response =
      let r = apply_response_plugins dns texts globals ps response in
      let broken = give_up dns globals w r.state parse_error (failure false false) in
      let (w', ps') = apply_logging_plugins globals w (with_code dropped r.state) in
      if r.failed
      then broken
      else if is_drop r.state.action
      then record { world = w'; state = ps'; response = r.packet; err = no_error }
      else elim r.state.synth_response [
        | none ↦ record { world = w; state = r.state; response = r.packet; err = no_error }
        | some synth ↦ elim (handle_synthesized_response dns r.state synth) [
          | none ↦ broken
          | some packet ↦ record { world = w; state = r.state; response = packet; err = no_error }
        ]
      ]

  abbrev pub estimate : World T E → Bytes → World T E
  estimate w response = record w {
    estimator =
        if has_tc_flag response
        then blind_adjust average.set average.add average.value w.estimator
        else adjust average.set average.add average.value w.estimator
            (response_overhead + length response);
  }

  abbrev pub write : World T E → Bytes → World T E
  write w packet = record w { written = w.written ++ packet ∷ [] }

  abbrev pub log_as : World T E → PluginsState → ReturnCode → World T E × PluginsState
  log_as w ps code = apply_logging_plugins globals w (with_code code ps)

  unfoldable pub send_udp : World T E → PluginsState → Bytes → World T E × PluginsState
  send_udp w ps response =
      if ltb ps.max_unencrypted_udp_safe_payload_size (length response)
      then elim (truncated_response dns response) [
        | none ↦ log_as w ps parse_error
        | some short ↦ (
          estimate (write w short) short,
          record ps { exchange = record ps.exchange { local_truncated = true } },
        )
      ]
      else (estimate (write w response) response, ps)

  -- `has_conn` for a connection over TCP that is not nil.
  unfoldable pub send_tcp : Bool → World T E → PluginsState → Bytes → World T E × PluginsState
  send_tcp has_conn w ps response = elim (prefix_with_size response) [
    | none ↦ log_as w ps parse_error
    | some packet ↦ (if has_conn then write w packet else w, ps)
  ]

  abbrev pub send_by : Proto → Bool → World T E → PluginsState → Bytes → World T E × PluginsState
  send_by udp has_conn w ps response = send_udp w ps response
  send_by tcp has_conn w ps response = send_tcp has_conn w ps response
  send_by local_doh has_conn w ps response = (w, ps)
  send_by trampoline has_conn w ps response = (w, ps)

  unfoldable pub send_response :
      Bool → World T E → PluginsState → Bytes → Proto → World T E × PluginsState
  send_response has_conn w ps response client_proto =
      if not (has_packet_size response)
      then log_as w ps (empty_code response)
      else send_by client_proto has_conn w ps response

  -- The end of processIncomingQuery, from the check of the response on.
  unfoldable pub finish : Bool → World T E → PluginsState → Bytes → Proto → Settled T E
  finish has_conn w ps response client_proto =
      let (bad, bad_ps) = log_as w ps (empty_code response) in
      let (sent, sent_ps) = send_response has_conn w ps response client_proto in
      let (logged, logged_ps) = apply_logging_plugins globals sent sent_ps in
      if not (has_packet_size response)
      then record { world = bad; state = bad_ps; response = response; err = failure false false }
      else record { world = logged; state = logged_ps; response = response; err = no_error }

module _ {T E G K O : Type 0} (dns : Codec) (texts : BlockedTexts) (globals : PluginsGlobals)
    (average : Average E) (servers : Table T G) (net : Net G K O) (clock : Clock) where
  -- The deferred call of observeOutcome.
  unfoldable pub observed : Settled T E → Settled T E
  observed x = if x.state.exchange_start == 0 then x else record x {
    world = record x.world {
      table = servers.observe_outcome x.world.table x.state x.response x.err;
    };
  }

  abbrev pub relay_or_same : Option String → PluginsState → PluginsState
  relay_or_same none ps = ps
  relay_or_same (some name) ps = record ps { relay_name = name }

  -- The response chain, after an exchange.
  unfoldable pub after_exchange : Bool → Proto → Settled T E → Settled T E
  after_exchange has_conn client_proto x =
      let p = process_plugins dns texts globals average x.world x.state x.response in
      if is_error x.err || length x.response == 0
      then x
      else if is_error p.err
      then record p { response = [] }
      else finish dns texts globals average has_conn p.world p.state p.response client_proto

  -- The exchange with a server and what follows it.
  unfoldable pub dispatch :
      Bool → World T E → PluginsState → Upstream G → Bytes → Proto → Proto → Settled T E
  dispatch has_conn w ps server query client_proto server_proto = observed (
      after_exchange has_conn client_proto (
        handle_dns_exchange dns globals servers net clock w
          (relay_or_same server.relay (record ps { server_name = server.name })) server query
          server_proto))

  abbrev pub quit : World T E → PluginsState → Settled T E
  quit w ps = record { world = w; state = ps; response = []; err = no_error }

  -- A query that no plugin has answered: the server of the chain, or else another call of getOne.
  unfoldable pub forward_query : Bool → World T E → Queried T G → Proto → Proto → Settled T E
  forward_query has_conn w q client_proto server_proto =
      let (table, other) = servers.get_one w.table in
      elim q.server [
        | some server ↦ dispatch has_conn w q.state server q.packet client_proto server_proto
        | none ↦ elim other [
          | some server ↦
              dispatch has_conn (record w { table = table }) q.state server q.packet client_proto
                server_proto
          | none ↦
              finish dns texts globals average has_conn (record w { table = table }) q.state []
                client_proto
        ]
      ]

  -- A response that a plugin has synthesized; if it is empty the query is forwarded.
  unfoldable pub answer_query :
      Bool → Bool → World T E → Queried T G → Bytes → Proto → Proto → Settled T E
  answer_query has_conn only_cached w q response client_proto server_proto =
      if length response == 0
      then (if only_cached
          then quit w q.state
          else forward_query has_conn w q client_proto server_proto)
      else finish dns texts globals average has_conn w q.state response client_proto

  abbrev pub drop_query : World T E → PluginsState → Settled T E
  drop_query w ps =
      let (w', ps') =
        apply_logging_plugins globals w (with_code dropped (record ps { action = drop })) in
      quit w' ps'

  -- What follows the query chain.
  unfoldable pub after_chain : Bool → Bool → World T E → Queried T G → Proto → Proto → Settled T E
  after_chain has_conn only_cached w q client_proto server_proto =
      if q.failed
      then drop_query w q.state
      else if not (has_packet_size q.packet)
      then quit w q.state
      else if is_drop q.state.action
      then drop_query w q.state
      else elim q.state.synth_response [
        | none ↦ answer_query has_conn only_cached w q [] client_proto server_proto
        | some synth ↦ elim (handle_synthesized_response dns q.state synth) [
          | none ↦ quit w (with_code parse_error q.state)
          | some packet ↦ answer_query has_conn only_cached w q packet client_proto server_proto
        ]
      ]

  unfoldable pub process_incoming_query :
      Settings → Bool → Bool → World T E → Bytes → Proto → Proto → ℕ → Settled T E
  process_incoming_query proxy has_conn only_cached w query client_proto server_proto start =
      let ps = new_plugins_state proxy client_proto server_proto start in
      let q = apply_query_plugins dns texts globals servers w.table ps query in
      if not (has_packet_size query)
      then quit w ps
      else after_chain has_conn only_cached (record w { table = q.table }) q client_proto
          server_proto
