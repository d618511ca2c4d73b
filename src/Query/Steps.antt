-- ===== src/Query/Steps.antt =====
-- dnscrypt-proxy/proxy.go: what one query does to the table of servers: a server is chosen, the
-- exchange begins, a key may be refreshed, and the outcome is observed.
use dnscrypt_proxy_fork.Base.{
  ℕ, ◌≡◌, refl, sym, subst, ◌∙◌, inl, inr, Bool, true, false, not, ◌&&◌, length, String,
  Option-cases, Bool-cases, get_elem?, ◌%◌, ltb, ◌==◌,
}
use dnscrypt_proxy_fork.Text.{Bytes}
use dnscrypt_proxy_fork.Dns.{Codec, set_transaction_id}
use dnscrypt_proxy_fork.Exchange.{dnscrypt_udp, dnscrypt_tcp}
use dnscrypt_proxy_fork.Servers.Feedback.{
  ExchangeError, no_error, failure, is_error, is_net_timeout,
}
use dnscrypt_proxy_fork.Query.{
  ReturnCode, parse_error, Proto, tcp, PluginsState, PluginsGlobals, network_error, ServerProto,
  dnscrypt, doh, odoh_target, Upstream, World, Table,
}
use dnscrypt_proxy_fork.Query.Plugins.{apply_logging_plugins}
use dnscrypt_proxy_fork.Query.Exchanges.{
  Net, Clock, Reply, OdohReply, Settled, with_code, stale_packet, has_packet_size, dnscrypt_failure,
  is_truncated_reply, begun, first_encrypt, with_reused, with_transport, asks_refresh,
  apply_http_fetch_trace, give_up, stale_or_give_up, settle_dnscrypt, exchange_tcp, retry_over_tcp,
  exchange_udp, process_dnscrypt_query, process_doh_query, process_odoh_query, settle_odoh,
  refresh_odoh_key, refresh_if_asked, check_size, exchange_as, exchange_by_proto,
  handle_dns_exchange,
}

-- The tables that come from `before` by the calls of one query short of the feedback.
pub data Prepared {T G : Type 0} (servers : Table T G) (before : T) : T → Type 0 where
  start : Prepared servers before before
  chose : {t : T} → Prepared servers before t → Prepared servers before (servers.get_one t).0
  began :
      {t : T} (name : String) (at : ℕ)
      → Prepared servers before t
      → Prepared servers before (servers.notice_begin t name at)
  claimed :
      {t : T} (name : String) (cooldown at : ℕ)
      → Prepared servers before t
      → Prepared servers before (servers.begin_odoh_refresh t name cooldown at).0
  refreshed :
      {t : T} (name : String)
      → Prepared servers before t
      → Prepared servers before (servers.refresh_server t name).0
  released :
      {t : T} (name : String) (success : Bool) (at : ℕ)
      → Prepared servers before t
      → Prepared servers before (servers.end_odoh_refresh t name success at)

pub joined :
    {T G : Type 0} {servers : Table T G} {t u v : T}
    → Prepared servers t u
    → Prepared servers u v
    → Prepared servers t v
joined p start = p
joined p (chose q) = chose (joined p q)
joined p (began name at q) = began name at (joined p q)
joined p (claimed name cooldown at q) = claimed name cooldown at (joined p q)
joined p (refreshed name q) = refreshed name (joined p q)
joined p (released name success at q) = released name success at (joined p q)

-- The same table, and nothing written to the client.
abbrev pub Same : {T E : Type 0} → World T E → World T E → Type 0
Same w w' = (w'.table ≡ w.table) × (w'.written ≡ w.written)

module _ {T E : Type 0} (dns : Codec) (globals : PluginsGlobals) where
  pub apply_logging_plugins-table :
      (w : World T E) (ps : PluginsState) → Same w (apply_logging_plugins globals w ps).0
  unfolding apply_logging_plugins
  apply_logging_plugins-table w ps = elim (Option-cases ps.question_msg) [
    | inl m ↦ rw (apply_logging_plugins, m) (refl, refl)
    | inr (msg, m) ↦ rw (apply_logging_plugins, m) (refl, refl)
  ]

  pub give_up-table :
      (w : World T E) (ps : PluginsState) (code : ReturnCode) (err : ExchangeError)
      → Same w (give_up dns globals w ps code err).world
  unfolding give_up
  give_up-table w ps code err = apply_logging_plugins-table w (with_code code ps)

  stale_or_give_up-table :
      (w : World T E) (ps : PluginsState) (code : ReturnCode) (err : ExchangeError)
      → Same w (stale_or_give_up dns globals w ps code err).world
  unfolding stale_or_give_up
  stale_or_give_up-table w ps code err = elim (Option-cases (stale_packet dns ps)) [
    | inl s ↦ rw (stale_or_give_up, s) (give_up-table w ps code err)
    | inr (p, s) ↦ rw (stale_or_give_up, s) (refl, refl)
  ]

  settle_dnscrypt-table :
      (w : World T E) (ps : PluginsState) (reply : Reply)
      → Same w (settle_dnscrypt dns globals w ps reply).world
  unfolding settle_dnscrypt
  settle_dnscrypt-table w ps reply = elim (Bool-cases (is_error reply.err)) [
    | inl e ↦
        rw (settle_dnscrypt, e) (stale_or_give_up-table w ps (dnscrypt_failure reply.err) reply.err)
    | inr e ↦ rw (settle_dnscrypt, e) (refl, refl)
  ]

  check_size-table : (x : Settled T E) → Same x.world (check_size dns globals x).world
  unfolding check_size
  check_size-table x = elim (Bool-cases (is_error x.err)) [
    | inl e ↦ rw (check_size, e) (refl, refl)
    | inr e ↦ elim (Bool-cases (has_packet_size x.response)) [
      | inl s ↦ rw (check_size, e, s) (refl, refl)
      | inr s ↦ rw (check_size, e, s) (give_up-table x.world x.state parse_error no_error)
    ]
  ]

module _ {T G : Type 0} (servers : Table T G) (clock : Clock) where
  refresh_odoh_key-Prepared :
      (before t : T) (name : String)
      → Prepared servers before t
      → Prepared servers before (refresh_odoh_key servers clock t name).0
  unfolding refresh_odoh_key
  refresh_odoh_key-Prepared before t name p =
      let (t1, is_claimed) = servers.begin_odoh_refresh t name 10_000_000_000 clock.begin_refresh in
      let p1 = claimed name 10_000_000_000 clock.begin_refresh p in
      elim (Bool-cases is_claimed) [
        | inl e ↦
            rw (refresh_odoh_key, e)
              (released name (not (is_error (servers.refresh_server t1 name).1)) clock.end_refresh
                (refreshed name p1))
        | inr e ↦ rw (refresh_odoh_key, e) p1
      ]

  refresh_if_asked-Prepared :
      (before t : T) (name : String) (reply : OdohReply)
      → Prepared servers before t
      → Prepared servers before (refresh_if_asked servers clock t name reply).0
  unfolding refresh_if_asked
  refresh_if_asked-Prepared before t name reply p =
      elim (Bool-cases (asks_refresh reply && servers.is_registered t name)) [
        | inl e ↦ rw (refresh_if_asked, e) (refresh_odoh_key-Prepared before t name p)
        | inr e ↦ rw (refresh_if_asked, e) p
      ]

module _ {T E G K O : Type 0} (dns : Codec) (globals : PluginsGlobals) (servers : Table T G)
    (net : Net G K O) (clock : Clock) where
  exchange_tcp-table :
      (w : World T E) (ps : PluginsState) (server : Upstream G) (sealed : K)
      → Same w (exchange_tcp dns globals servers net clock w ps server sealed).world
  unfolding exchange_tcp
  exchange_tcp-table w ps server sealed =
      settle_dnscrypt-table dns globals w (with_reused false (with_transport dnscrypt_tcp ps))
        (net.exchange_with_tcp_server server.name sealed)

  retry_over_tcp-table :
      (w : World T E) (ps : PluginsState) (server : Upstream G) (query : Bytes)
      → Same w (retry_over_tcp dns globals servers net clock w ps server query).world
  unfolding retry_over_tcp
  retry_over_tcp-table w ps server query =
      let ps' : PluginsState = record ps {
        exchange = record ps.exchange { tcp_fallback = true };
      } in
      elim (Option-cases (net.encrypt server.name tcp query)) [
        | inl e ↦
            rw (retry_over_tcp, e)
              (give_up-table dns globals w ps' parse_error (failure false false))
        | inr (sealed, e) ↦ rw (retry_over_tcp, e) (exchange_tcp-table w ps' server sealed)
      ]

  exchange_udp-table :
      (w : World T E) (ps : PluginsState) (server : Upstream G) (query : Bytes) (sealed : K)
      → Same w (exchange_udp dns globals servers net clock w ps server query sealed).world
  unfolding exchange_udp
  exchange_udp-table w ps server query sealed =
      let reply = net.exchange_with_udp_server server.name sealed in
      let ps1 = with_reused reply.conn_reused (with_transport dnscrypt_udp ps) in
      elim (Bool-cases (is_truncated_reply reply)) [
        | inl t ↦
            rw (exchange_udp, t)
              (retry_over_tcp-table w
                (record ps1 { exchange = record ps1.exchange { upstream_truncated = true } }) server
                query)
        | inr t ↦ elim (Bool-cases (is_net_timeout reply.err)) [
          | inl late ↦ rw (exchange_udp, t, late) (retry_over_tcp-table w ps1 server query)
          | inr late ↦ rw (exchange_udp, t, late) (settle_dnscrypt-table dns globals w ps1 reply)
        ]
      ]

  -- The table is prepared by the steps of one query, and nothing is written to the client.
  abbrev pub IsPrepared : World T E → Settled T E → Type 0
  IsPrepared before x =
      Prepared servers before.table x.world.table × (x.world.written ≡ before.written)

  by_table :
      (before after : World T E) (x : Settled T E)
      → Same after x.world
      → Prepared servers before.table after.table
      → after.written ≡ before.written
      → IsPrepared before x
  by_table before after x (h, v) p e = (subst (Prepared servers before.table) (sym h) p, v ∙ e)

  process_dnscrypt_query-IsPrepared :
      (w : World T E) (ps : PluginsState) (server : Upstream G) (query : Bytes) (proto : Proto)
      → IsPrepared w (process_dnscrypt_query dns globals servers net clock w ps server query proto)
  unfolding process_dnscrypt_query
  process_dnscrypt_query-IsPrepared w ps server query proto =
      let x = process_dnscrypt_query dns globals servers net clock w ps server query proto in
      let w1 = begun dns globals servers net clock w server in
      elim (Option-cases (first_encrypt net server query proto)) [
        | inl e ↦
            by_table w w x
              (rw (process_dnscrypt_query, e)
                (give_up-table dns globals w ps parse_error (failure false false)))
              start refl
        | inr (sealed, e) ↦ elim (Bool-cases sealed.1) [
          | inl u ↦
              by_table w w1 x
                (rw (process_dnscrypt_query, e, u) (exchange_udp-table w1 ps server query sealed.0))
                (began server.name clock.notice start) refl
          | inr u ↦
              by_table w w1 x
                (rw (process_dnscrypt_query, e, u) (exchange_tcp-table w1 ps server sealed.0))
                (began server.name clock.notice start) refl
        ]
      ]

  process_doh_query-IsPrepared :
      (w : World T E) (ps : PluginsState) (server : Upstream G) (query : Bytes)
      → IsPrepared w (process_doh_query dns globals servers net clock w ps server query)
  unfolding process_doh_query
  process_doh_query-IsPrepared w ps server query =
      let x = process_doh_query dns globals servers net clock w ps server query in
      let reply = net.doh_query server.name (set_transaction_id query 0) in
      let w1 = begun dns globals servers net clock w server in
      let ps1 = apply_http_fetch_trace ps reply.trace false in
      elim (Bool-cases (not (is_error reply.err) && reply.is_complete)) [
        | inl e ↦
            by_table w w1 x (rw (process_doh_query, e) (refl, refl))
              (began server.name clock.notice start) refl
        | inr e ↦
            by_table w w1 x
              (rw (process_doh_query, e)
                (stale_or_give_up-table dns globals w1 ps1 network_error reply.err))
              (began server.name clock.notice start) refl
      ]

  settle_odoh-IsPrepared :
      (before w : World T E) (ps : PluginsState) (server : Upstream G) (query : Bytes) (sealed : O)
      → Prepared servers before.table w.table
      → w.written ≡ before.written
      → IsPrepared before (settle_odoh dns globals servers net clock w ps server query sealed)
  unfolding settle_odoh
  settle_odoh-IsPrepared before w ps server query sealed p v =
      let reply = net.oblivious_doh_query server.name sealed in
      let ps1 = apply_http_fetch_trace ps reply.trace true in
      let (table, err) = refresh_if_asked servers clock w.table server.name reply in
      elim (Bool-cases
        (not (is_error reply.err) && ltb 0 (length reply.body) && reply.code == 200)) [
          | inl e ↦ elim (Option-cases (net.decrypt_response sealed reply.body)) [
            | inl d ↦ rw (settle_odoh, e, d) (p, v)
            | inr (response, d) ↦ rw (settle_odoh, e, d) (p, v)
          ]
          | inr e ↦
              rw (settle_odoh, e)
                (by_table before (record w { table = table })
                  (give_up dns globals (record w { table = table }) ps1 network_error err)
                  (give_up-table dns globals (record w { table = table }) ps1 network_error err)
                  (refresh_if_asked-Prepared servers clock before.table w.table server.name reply p)
                  v)
        ]

  process_odoh_query-IsPrepared :
      (w : World T E) (ps : PluginsState) (server : Upstream G) (query : Bytes)
      → IsPrepared w (process_odoh_query dns globals servers net clock w ps server query)
  unfolding process_odoh_query
  process_odoh_query-IsPrepared w ps server query =
      let w1 = begun dns globals servers net clock w server in
      let p1 = began server.name clock.notice start in
      elim (Option-cases (
        get_elem? server.odoh_target_configs (net.odoh_draw % length server.odoh_target_configs))) [
          | inl e ↦ rw (process_odoh_query, e) (start, refl)
          | inr (target, e) ↦ elim (Option-cases (net.encrypt_query target query)) [
            | inl k ↦ rw (process_odoh_query, e, k) (p1, refl)
            | inr (sealed, k) ↦
                rw (process_odoh_query, e, k)
                  (settle_odoh-IsPrepared w w1 ps server query sealed p1 refl)
          ]
        ]

  exchange_as-IsPrepared :
      (p : ServerProto) (w : World T E) (ps : PluginsState) (server : Upstream G) (query : Bytes)
      (proto : Proto)
      → IsPrepared w (exchange_as dns globals servers net clock p w ps server query proto)
  exchange_as-IsPrepared dnscrypt w ps server query proto =
      process_dnscrypt_query-IsPrepared w ps server query proto
  exchange_as-IsPrepared doh w ps server query proto =
      process_doh_query-IsPrepared w ps server query
  exchange_as-IsPrepared odoh_target w ps server query proto =
      process_odoh_query-IsPrepared w ps server query

  -- An exchange, whichever its protocol and its end, only begins, and refreshes keys.
  pub handle_dns_exchange-IsPrepared :
      (w : World T E) (ps : PluginsState) (server : Upstream G) (query : Bytes) (proto : Proto)
      → IsPrepared w (handle_dns_exchange dns globals servers net clock w ps server query proto)
  unfolding handle_dns_exchange
  handle_dns_exchange-IsPrepared w ps server query proto =
      let ps1 : PluginsState = record ps { exchange_start = clock.exchange_start } in
      let prepared = exchange_as-IsPrepared server.proto w ps1 server query proto in
      by_table w (exchange_by_proto dns globals servers net clock w ps1 server query proto).world
        (handle_dns_exchange dns globals servers net clock w ps server query proto)
        (check_size-table dns globals
          (exchange_by_proto dns globals servers net clock w ps1 server query proto))
        prepared.0 prepared.1
