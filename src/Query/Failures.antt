-- ===== src/Query/Failures.antt =====
-- dnscrypt-proxy/query_processing.go: exchanges that fail, and what is logged and learnt of them.
use dnscrypt_proxy_fork.Base.{
  ◌≡◌, refl, sym, ap, ◌∙◌, ◌⊎◌, inl, inr, Bool, true, false, not, ◌&&◌, String, [], ◌∷◌, ◌++◌,
  append_assoc, Option, none, some, Bool-cases,
}
use dnscrypt_proxy_fork.Text.{Bytes}
use dnscrypt_proxy_fork.Dns.{Msg, Codec, BlockedTexts, transaction_id, set_transaction_id}
use dnscrypt_proxy_fork.Servers.Feedback.{ExchangeError, no_error, failure, is_error}
use dnscrypt_proxy_fork.Query.{
  ReturnCode, parse_error, network_error, Proto, PluginsState, PluginsGlobals, LogPlugin, doh,
  Upstream, World, Table,
}
use dnscrypt_proxy_fork.Query.Plugins.{log_with, apply_logging_plugins}
use dnscrypt_proxy_fork.Query.Process.{Average, relay_or_same, observed, after_exchange, dispatch}
use dnscrypt_proxy_fork.Query.Exchanges.{
  restore_id, Net, Clock, FetchTrace, Settled, has_packet_size, stale_packet, give_up,
  stale_or_give_up, process_doh_query, check_size, handle_dns_exchange, with_code,
  exchange_by_proto, exchange_as, apply_http_fetch_trace, begun,
}

module _ {T E : Type 0} (dns : Codec) (globals : PluginsGlobals) where
  -- What handleDNSExchange hands on is empty, with or without an error, or a packet of 17 to 4096
  -- bytes without an error.
  pub check_size_lem :
      (x : Settled T E)
      → let y = check_size dns globals x in
        (y.response ≡ []) ⊎ ((is_error y.err ≡ false) × (has_packet_size y.response ≡ true))
  unfolding check_size give_up
  check_size_lem x = elim (Bool-cases (is_error x.err)) [
    | inl e ↦ inl (rw (check_size, e))
    | inr e ↦ elim (Bool-cases (has_packet_size x.response)) [
      | inl s ↦ inr (rw (check_size, e, s, e), rw (check_size, e, s, s))
      | inr s ↦ inl (rw (check_size, e, s))
    ]
  ]

apply_http_fetch_trace-stale :
    (dns : Codec) (ps : PluginsState) (trace : Option FetchTrace) (is_odoh : Bool)
    → let ps' = apply_http_fetch_trace ps trace is_odoh in
      (stale_packet dns ps' ≡ stale_packet dns ps)
      × (ps'.exchange.error ≡ ps.exchange.error)
      × (ps'.exchange.timeout ≡ ps.exchange.timeout)
unfolding apply_http_fetch_trace
apply_http_fetch_trace-stale dns ps none is_odoh = (refl, refl, refl)
apply_http_fetch_trace-stale dns ps (some ft) is_odoh = (refl, refl, refl)

apply_http_fetch_trace-question :
    (ps : PluginsState) (trace : Option FetchTrace) (is_odoh : Bool)
    → (apply_http_fetch_trace ps trace is_odoh).question_msg ≡ ps.question_msg
unfolding apply_http_fetch_trace
apply_http_fetch_trace-question ps none is_odoh = refl
apply_http_fetch_trace-question ps (some ft) is_odoh = refl

is_error-none : (err : ExchangeError) → is_error err ≡ false → err ≡ no_error
is_error-none no_error h = refl
is_error-none (failure t u) h = absurd (cc)

-- The same network, but that every DoH exchange brings the packet, whatever it brought before.
abbrev pub answering : {G K O : Type 0} → Bytes → Net G K O → Net G K O
answering packet net = record net {
  doh_query = λ server query. record (net.doh_query server query) {
    response = packet;
    is_complete = true;
    err = no_error;
  };
}

module _ {T E G K O : Type 0} (dns : Codec) (texts : BlockedTexts) (globals : PluginsGlobals)
    (average : Average E) (servers : Table T G) (net : Net G K O) (clock : Clock) where
  -- The relay, and what it leaves of a stale entry, does not depend on the network.
  relay_or_same-net :
      (net' : Net G K O) (relay : Option String) (ps : PluginsState)
      → (relay_or_same dns texts globals average servers net clock relay ps
          ≡ relay_or_same dns texts globals average servers net' clock relay ps)
        × ((relay_or_same dns texts globals average servers net clock relay ps).stale ≡ ps.stale)
  relay_or_same-net net' none ps = (refl, refl)
  relay_or_same-net net' (some name) ps = (refl, refl)

  process_doh_query-answering :
      (w : World T E) (ps : PluginsState) (server : Upstream G) (query packet : Bytes)
      → let reply = net.doh_query server.name (set_transaction_id query 0) in
        not (is_error reply.err) && reply.is_complete ≡ false
        → stale_packet dns ps ≡ some packet
        → restore_id packet (transaction_id query) ≡ packet
        → process_doh_query dns globals servers net clock w ps server query
          ≡ process_doh_query dns globals servers (answering packet net) clock w ps server query
  unfolding process_doh_query stale_or_give_up
  process_doh_query-answering w ps server query packet failed s own =
      let reply = net.doh_query server.name (set_transaction_id query 0) in
      let (st, er, ti) = apply_http_fetch_trace-stale dns ps reply.trace false in
      rw (process_doh_query, failed, stale_or_give_up, st ∙ s, own)

  exchange_by_proto-answering :
      (w : World T E) (ps : PluginsState) (server : Upstream G) (query packet : Bytes)
      (server_proto : Proto)
      → server.proto ≡ doh
      → let reply = net.doh_query server.name (set_transaction_id query 0) in
        not (is_error reply.err) && reply.is_complete ≡ false
        → stale_packet dns ps ≡ some packet
        → restore_id packet (transaction_id query) ≡ packet
        → exchange_by_proto dns globals servers net clock w ps server query server_proto
          ≡ exchange_by_proto dns globals servers
              (answering packet net)
              clock
              w
              ps
              server
              query
              server_proto
  exchange_by_proto-answering w ps server query packet server_proto d failed s own =
      ap (λ k. exchange_as dns globals servers net clock k w ps server query server_proto) d
      ∙ process_doh_query-answering w ps server query packet failed s own
      ∙ ap
          (λ k.
            exchange_as dns globals servers (answering packet net) clock k w ps server query
              server_proto)
          (sym d)

  -- A DoH exchange that fails, with an error or without a complete handshake, leaves no trace where a
  -- stale entry stands in: the response, the packets written to the client, the codes that are logged
  -- and the feedback on the server are the same as if the server had answered with the packet of the
  -- stale entry. That packet has the ID of the query.
  pub stale-dispatch :
      (has_conn : Bool) (w : World T E) (ps : PluginsState) (server : Upstream G)
      (query packet : Bytes) (client_proto server_proto : Proto)
      → server.proto ≡ doh
      → let reply = net.doh_query server.name (set_transaction_id query 0) in
        not (is_error reply.err) && reply.is_complete ≡ false
        → stale_packet dns ps ≡ some packet
        → restore_id packet (transaction_id query) ≡ packet
        → dispatch dns texts globals average servers net clock has_conn w ps server query
            client_proto server_proto
          ≡ dispatch dns texts globals average servers
              (answering packet net)
              clock
              has_conn
              w
              ps
              server
              query
              client_proto
              server_proto
  unfolding dispatch handle_dns_exchange observed after_exchange
  stale-dispatch has_conn w ps server query packet client_proto server_proto d failed s own =
      let net' = answering packet net in
      let named : PluginsState = record ps { server_name = server.name } in
      let (same, kept) = relay_or_same-net net' server.relay named in
      let begin : PluginsState → PluginsState =
        λ p. record p { exchange_start = clock.exchange_start } in
      let relayed = relay_or_same dns texts globals average servers net clock server.relay named in
      let held : stale_packet dns (begin relayed) ≡ some packet = rw kept s in
      let exchanged =
        exchange_by_proto-answering w (begin relayed) server query packet server_proto d failed held
          own
        ∙ ap
            (λ p.
              exchange_by_proto dns globals servers net' clock w (begin p) server query
                server_proto)
            same in
      ap
        (λ x. observed dns texts globals average servers net clock (
          after_exchange dns texts globals average servers net clock has_conn client_proto
            (check_size dns globals x)))
        exchanged

-- A logger that always writes its entry and leaves the state alone.
abbrev pub plain_logger : LogPlugin
plain_logger ps msg = record { state = ps; failed = false }

module _ {T E : Type 0} (dns : Codec) (globals : PluginsGlobals) where
  apply_logging_plugins-plain :
      (w : World T E) (ps : PluginsState) (msg : Msg)
      → globals.logging_plugins ≡ plain_logger ∷ []
      → ps.question_msg ≡ some msg
      → apply_logging_plugins globals w ps
        ≡ (record w { logged = w.logged ++ ps.return_code ∷ [] }, ps)
  unfolding apply_logging_plugins log_with
  apply_logging_plugins-plain w ps msg l m = rw (m, l)

  -- With one plain logger and a question, a failure without an error, which has logged its own code,
  -- is logged again with another code by the check of the size.
  pub give_up-check_size :
      (w : World T E) (ps : PluginsState) (msg : Msg) (code : ReturnCode)
      → globals.logging_plugins ≡ plain_logger ∷ []
      → ps.question_msg ≡ some msg
      → let x = check_size dns globals (give_up dns globals w ps code no_error) in
        (x.world.logged ≡ w.logged ++ code ∷ parse_error ∷ [])
        × (x.state.return_code ≡ parse_error)
        × (x.err ≡ no_error)
  unfolding check_size give_up
  give_up-check_size w ps msg code l m =
      let ps1 = with_code code ps in
      let w1 : World T E = record w { logged = w.logged ++ code ∷ [] } in
      let first = apply_logging_plugins-plain w ps1 msg l m in
      let second = apply_logging_plugins-plain w1 (with_code parse_error ps1) msg l m in
      (
        rw (first, second, append_assoc w.logged (code ∷ []) (parse_error ∷ [])),
        rw (first, second),
        refl,
      )

module _ {T E G K O : Type 0} (dns : Codec) (globals : PluginsGlobals) (servers : Table T G)
    (net : Net G K O) (clock : Clock) where
  -- A DoH exchange that brings no answer and no error, without a stale entry, is logged twice, as a
  -- network error and as a parse error, by one plain logger.
  pub handle_dns_exchange-silent :
      (w : World T E) (ps : PluginsState) (server : Upstream G) (query : Bytes) (proto : Proto)
      (msg : Msg)
      → server.proto ≡ doh
      → let reply = net.doh_query server.name (set_transaction_id query 0) in
        is_error reply.err ≡ false
        → reply.is_complete ≡ false
        → stale_packet dns ps ≡ none
        → globals.logging_plugins ≡ plain_logger ∷ []
        → ps.question_msg ≡ some msg
        → let x = handle_dns_exchange dns globals servers net clock w ps server query proto in
          x.world.logged ≡ w.logged ++ network_error ∷ parse_error ∷ []
  unfolding handle_dns_exchange process_doh_query stale_or_give_up
  handle_dns_exchange-silent w ps server query proto msg d e c s l m =
      let ps1 : PluginsState = record ps { exchange_start = clock.exchange_start } in
      let reply = net.doh_query server.name (set_transaction_id query 0) in
      let (st, er, ti) = apply_http_fetch_trace-stale dns ps1 reply.trace false in
      let ps2 = apply_http_fetch_trace ps1 reply.trace false in
      let w1 = begun dns globals servers net clock w server in
      let q : exchange_by_proto dns globals servers net clock w ps1 server query proto
          ≡ give_up dns globals w1 ps2 network_error no_error =
        rw (d, process_doh_query, e, c, stale_or_give_up, st ∙ s, is_error-none reply.err e) in
      let (logged, code, err) =
        give_up-check_size dns globals w1 ps2 msg network_error l
          (apply_http_fetch_trace-question ps1 reply.trace false ∙ m) in
      rw (handle_dns_exchange, q) logged
