-- ===== src/Query/Dispatch.antt =====
-- dnscrypt-proxy/proxy.go: what processIncomingQuery does to the table of servers and sends to the
-- client, on all its paths.
use dnscrypt_proxy_fork.Base.{
  ◌≡◌, refl, sym, subst, ap, ◌∙◌, ◌⊎◌, inl, inr, Bool, false, not, ◌||◌, List, [], ◌∷◌, ◌++◌,
  length, Option-cases, Bool-cases, ltb, ◌==◌,
}
use dnscrypt_proxy_fork.Text.{Bytes}
use dnscrypt_proxy_fork.Dns.{Codec, BlockedTexts, truncated_response}
use dnscrypt_proxy_fork.Packet.Padding.{prefix_with_size}
use dnscrypt_proxy_fork.Servers.Feedback.{ExchangeError, failure, is_error}
use dnscrypt_proxy_fork.Query.{
  drop, dropped, parse_error, Proto, udp, tcp, local_doh, trampoline, PluginsState, PluginsGlobals,
  Upstream, World, Table,
}
use dnscrypt_proxy_fork.Query.Plugins.{
  Queried, is_drop, apply_response_plugins, apply_logging_plugins,
}
use dnscrypt_proxy_fork.Query.Exchanges.{
  Net, Clock, Settled, with_code, has_packet_size, handle_dns_exchange,
}
use dnscrypt_proxy_fork.Query.Process.{
  Average, handle_synthesized_response, process_plugins, send_udp, send_tcp, send_by, send_response,
  finish, empty_code, relay_or_same, drop_query, observed, after_exchange, dispatch, forward_query,
  answer_query, after_chain,
}
use dnscrypt_proxy_fork.Query.Steps.{
  Prepared, chose, Same, joined, apply_logging_plugins-table, give_up-table,
  handle_dns_exchange-IsPrepared,
}

-- At most one packet more is written.
abbrev pub WritesOne : List Bytes → List Bytes → Type 0
WritesOne before after = (after ≡ before) ⊎ ((packet : Bytes) × (after ≡ before ++ packet ∷ []))

-- The same table, and at most one packet for the client.
abbrev pub Sends : {T E : Type 0} → World T E → World T E → Type 0
Sends w w' = (w'.table ≡ w.table) × WritesOne w.written w'.written

module _ {T E : Type 0} (dns : Codec) (texts : BlockedTexts) (globals : PluginsGlobals)
    (average : Average E) where
  log_Sends : (w : World T E) (ps : PluginsState) → Sends w (apply_logging_plugins globals w ps).0
  log_Sends w ps = let (t, v) = apply_logging_plugins-table dns globals w ps in (t, inl v)

  process_plugins-Same :
      (w : World T E) (ps : PluginsState) (response : Bytes)
      → Same w (process_plugins dns texts globals average w ps response).world
  unfolding process_plugins
  process_plugins-Same w ps response =
      let r = apply_response_plugins dns texts globals ps response in
      let broken = give_up-table dns globals w r.state parse_error (failure false false) in
      elim (Bool-cases r.failed) [
        | inl f ↦ rw (process_plugins, f) broken
        | inr f ↦ elim (Bool-cases (is_drop r.state.action)) [
          | inl d ↦
              rw (process_plugins, f, d)
                (apply_logging_plugins-table dns globals w (with_code dropped r.state))
          | inr d ↦ elim (Option-cases r.state.synth_response) [
            | inl s ↦ rw (process_plugins, f, d, s) (refl, refl)
            | inr (synth, s) ↦ elim (Option-cases (handle_synthesized_response dns r.state synth)) [
              | inl h ↦ rw (process_plugins, f, d, s, h) broken
              | inr (packet, h) ↦ rw (process_plugins, f, d, s, h) (refl, refl)
            ]
          ]
        ]
      ]

  send_udp-Sends :
      (w : World T E) (ps : PluginsState) (response : Bytes)
      → Sends w (send_udp dns texts globals average w ps response).0
  unfolding send_udp
  send_udp-Sends w ps response =
      elim (Bool-cases (ltb ps.max_unencrypted_udp_safe_payload_size (length response))) [
        | inl l ↦ elim (Option-cases (truncated_response dns response)) [
          | inl t ↦ rw (send_udp, l, t) (log_Sends w (with_code parse_error ps))
          | inr (short, t) ↦ rw (send_udp, l, t) (refl, inr (short, refl))
        ]
        | inr l ↦ rw (send_udp, l) (refl, inr (response, refl))
      ]

  send_tcp-Sends :
      (has_conn : Bool) (w : World T E) (ps : PluginsState) (response : Bytes)
      → Sends w (send_tcp dns texts globals average has_conn w ps response).0
  unfolding send_tcp
  send_tcp-Sends has_conn w ps response = elim (Option-cases (prefix_with_size response)) [
    | inl t ↦ rw (send_tcp, t) (log_Sends w (with_code parse_error ps))
    | inr (packet, t) ↦ elim (Bool-cases has_conn) [
      | inl c ↦ rw (send_tcp, t, c) (refl, inr (packet, refl))
      | inr c ↦ rw (send_tcp, t, c) (refl, inl refl)
    ]
  ]

  send_by-Sends :
      (proto : Proto) (has_conn : Bool) (w : World T E) (ps : PluginsState) (response : Bytes)
      → Sends w (send_by dns texts globals average proto has_conn w ps response).0
  send_by-Sends udp has_conn w ps response = send_udp-Sends w ps response
  send_by-Sends tcp has_conn w ps response = send_tcp-Sends has_conn w ps response
  send_by-Sends local_doh has_conn w ps response = (refl, inl refl)
  send_by-Sends trampoline has_conn w ps response = (refl, inl refl)

  send_response-Sends :
      (has_conn : Bool) (w : World T E) (ps : PluginsState) (response : Bytes) (proto : Proto)
      → Sends w (send_response dns texts globals average has_conn w ps response proto).0
  unfolding send_response
  send_response-Sends has_conn w ps response proto =
      elim (Bool-cases (not (has_packet_size response))) [
        | inl s ↦ rw (send_response, s) (log_Sends w (with_code (empty_code response) ps))
        | inr s ↦ rw (send_response, s) (send_by-Sends proto has_conn w ps response)
      ]

  finish-Sends :
      (has_conn : Bool) (w : World T E) (ps : PluginsState) (response : Bytes) (proto : Proto)
      → Sends w (finish dns texts globals average has_conn w ps response proto).world
  unfolding finish
  finish-Sends has_conn w ps response proto =
      let (sent, sent_ps) = send_response dns texts globals average has_conn w ps response proto in
      let (t, v) = apply_logging_plugins-table dns globals sent sent_ps in
      let (t', v') = send_response-Sends has_conn w ps response proto in
      elim (Bool-cases (not (has_packet_size response))) [
        | inl s ↦ rw (finish, s) (log_Sends w (with_code (empty_code response) ps))
        | inr s ↦ rw (finish, s) (t ∙ t', subst (WritesOne w.written) (sym v) v')
      ]

module _ {T E G K O : Type 0} (dns : Codec) (texts : BlockedTexts) (globals : PluginsGlobals)
    (average : Average E) (servers : Table T G) (net : Net G K O) (clock : Clock) where
  -- The steps of one query and at most one observation after them; at most one packet for the client.
  abbrev pub IsServed : World T E → World T E → Type 0
  IsServed w w' =
      (t : T) × Prepared servers w.table t
      × ((w'.table ≡ t)
          ⊎ ((ps : PluginsState) × (response : Bytes) × (err : ExchangeError) × (w'.table
                ≡ servers.observe_outcome t ps response err)))
      × WritesOne w.written w'.written

  after_exchange-table :
      (has_conn : Bool) (proto : Proto) (x : Settled T E)
      → Sends x.world
          (after_exchange dns texts globals average servers net clock has_conn proto x).world
  unfolding after_exchange
  after_exchange-table has_conn proto x =
      let p = process_plugins dns texts globals average x.world x.state x.response in
      let (t, v) = process_plugins-Same dns texts globals average x.world x.state x.response in
      let (t', v') =
        finish-Sends dns texts globals average has_conn p.world p.state p.response proto in
      elim (Bool-cases (is_error x.err || length x.response == 0)) [
        | inl e ↦ rw (after_exchange, e) (refl, inl refl)
        | inr e ↦ elim (Bool-cases (is_error p.err)) [
          | inl f ↦ rw (after_exchange, e, f) (t, inl v)
          | inr f ↦
              rw (after_exchange, e, f)
                (
                  t' ∙ t,
                  subst
                      (λ b.
                        WritesOne b
                          (finish dns texts globals average has_conn p.world p.state p.response
                            proto).world.written)
                      v v',
                )
        ]
      ]

  observed-IsServed :
      (w : World T E) (t : T) (x : Settled T E)
      → Prepared servers w.table t
      → x.world.table ≡ t
      → WritesOne w.written x.world.written
      → IsServed w (observed dns texts globals average servers net clock x).world
  unfolding observed
  observed-IsServed w t x p h v = elim (Bool-cases (x.state.exchange_start == 0)) [
    | inl e ↦ rw (observed, e) (t, p, inl h, v)
    | inr e ↦
        rw (observed, e)
          (
            t,
            p,
            inr (
              x.state,
              x.response,
              x.err,
              ap (λ u. servers.observe_outcome u x.state x.response x.err) h,
            ),
            v,
          )
  ]

  dispatch-IsServed :
      (has_conn : Bool) (w : World T E) (t : T) (ps : PluginsState) (server : Upstream G)
      (query : Bytes) (client_proto server_proto : Proto)
      → Prepared servers t w.table
      → IsServed
          (record w { table = t })
          (dispatch dns texts globals average servers net clock has_conn w ps server query
            client_proto server_proto).world
  unfolding dispatch
  dispatch-IsServed has_conn w t ps server query client_proto server_proto p =
      let ps' =
        relay_or_same dns texts globals average servers net clock server.relay
          (record ps { server_name = server.name }) in
      let x = handle_dns_exchange dns globals servers net clock w ps' server query server_proto in
      let (q, v) =
        handle_dns_exchange-IsPrepared dns globals servers net clock w ps' server query
          server_proto in
      let (h, v') = after_exchange-table has_conn client_proto x in
      observed-IsServed (record w { table = t }) x.world.table
        (after_exchange dns texts globals average servers net clock has_conn client_proto x)
        (joined p q) h
        (subst
          (λ b.
            WritesOne b
              (after_exchange dns texts globals average servers net clock has_conn client_proto
                x).world.written)
          v v')

  forward_query-IsServed :
      (has_conn : Bool) (w : World T E) (t : T) (q : Queried T G)
      (client_proto server_proto : Proto)
      → Prepared servers t w.table
      → IsServed
          (record w { table = t })
          (forward_query dns texts globals average servers net clock has_conn w q client_proto
            server_proto).world
  unfolding forward_query
  forward_query-IsServed has_conn w t q client_proto server_proto p =
      let w1 : World T E = record w { table = (servers.get_one w.table).0 } in
      elim (Option-cases q.server) [
        | inr (server, e) ↦
            rw (forward_query, e)
              (dispatch-IsServed has_conn w t q.state server q.packet client_proto server_proto p)
        | inl e ↦ elim (Option-cases (servers.get_one w.table).1) [
          | inr (server, o) ↦
              rw (forward_query, e, o)
                (dispatch-IsServed has_conn w1 t q.state server q.packet client_proto server_proto
                  (chose p))
          | inl o ↦
              let (h, v) =
                finish-Sends dns texts globals average has_conn w1 q.state [] client_proto in
              rw (forward_query, e, o) (w1.table, chose p, inl h, v)
        ]
      ]

  answer_query-IsServed :
      (has_conn only_cached : Bool) (w : World T E) (t : T) (q : Queried T G) (response : Bytes)
      (client_proto server_proto : Proto)
      → Prepared servers t w.table
      → IsServed
          (record w { table = t })
          (answer_query dns texts globals average servers net clock has_conn only_cached w q
            response client_proto server_proto).world
  unfolding answer_query
  answer_query-IsServed has_conn only_cached w t q response client_proto server_proto p =
      let (h, v) =
        finish-Sends dns texts globals average has_conn w q.state response client_proto in
      elim (Bool-cases (length response == 0)) [
        | inl e ↦ elim (Bool-cases only_cached) [
          | inl c ↦ rw (answer_query, e, c) (w.table, p, inl refl, inl refl)
          | inr c ↦
              rw (answer_query, e, c)
                (forward_query-IsServed has_conn w t q client_proto server_proto p)
        ]
        | inr e ↦ rw (answer_query, e) (w.table, p, inl h, v)
      ]

  drop_query-IsServed :
      (w : World T E) (t : T) (ps : PluginsState)
      → Prepared servers t w.table
      → IsServed
          (record w { table = t })
          (drop_query dns texts globals average servers net clock w ps).world
  drop_query-IsServed w t ps p =
      let (h, v) =
        log_Sends dns texts globals average w (with_code dropped (record ps { action = drop })) in
      (w.table, p, inl h, v)

  pub after_chain-IsServed :
      (has_conn only_cached : Bool) (w : World T E) (t : T) (q : Queried T G)
      (client_proto server_proto : Proto)
      → Prepared servers t w.table
      → IsServed
          (record w { table = t })
          (after_chain dns texts globals average servers net clock has_conn only_cached w q
            client_proto server_proto).world
  unfolding after_chain
  after_chain-IsServed has_conn only_cached w t q client_proto server_proto p =
      let drops = drop_query-IsServed w t q.state p in
      elim (Bool-cases q.failed) [
        | inl f ↦ rw (after_chain, f) drops
        | inr f ↦ elim (Bool-cases (not (has_packet_size q.packet))) [
          | inl s ↦ rw (after_chain, f, s) (w.table, p, inl refl, inl refl)
          | inr s ↦ elim (Bool-cases (is_drop q.state.action)) [
            | inl d ↦ rw (after_chain, f, s, d) drops
            | inr d ↦ elim (Option-cases q.state.synth_response) [
              | inl n ↦
                  rw (after_chain, f, s, d, n)
                    (answer_query-IsServed has_conn only_cached w t q [] client_proto server_proto
                      p)
              | inr (synth, n) ↦
                  elim (Option-cases (handle_synthesized_response dns q.state synth)) [
                    | inl h ↦ rw (after_chain, f, s, d, n, h) (w.table, p, inl refl, inl refl)
                    | inr (packet, h) ↦
                        rw (after_chain, f, s, d, n, h)
                          (answer_query-IsServed has_conn only_cached w t q packet client_proto
                            server_proto p)
                  ]
            ]
          ]
        ]
      ]
