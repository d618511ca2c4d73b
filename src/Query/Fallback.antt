-- ===== src/Query/Fallback.antt =====
-- dnscrypt-proxy/query_processing.go: where the response of an exchange comes from, and what is
-- recorded when there is none.
use dnscrypt_proxy_fork.Base.{
  ◌≡◌, refl, sym, ◌⊎◌, inl, inr, true, false, [], some, String, Option-cases, Bool-cases,
}
use dnscrypt_proxy_fork.Text.{Bytes}
use dnscrypt_proxy_fork.Dns.{Codec}
use dnscrypt_proxy_fork.Exchange.{dnscrypt_udp, dnscrypt_tcp}
use dnscrypt_proxy_fork.Servers.Feedback.{ExchangeError, failure, is_error, is_net_timeout}
use dnscrypt_proxy_fork.Query.{
  ReturnCode, parse_error, Proto, tcp, PluginsState, PluginsGlobals, Upstream, World, Table,
}
use dnscrypt_proxy_fork.Query.Exchanges.{
  Net, Clock, Reply, Settled, stale_packet, give_up, stale_or_give_up, dnscrypt_failure,
  settle_dnscrypt, is_truncated_reply, begun, with_reused, with_transport, exchange_tcp,
  retry_over_tcp, exchange_udp, first_encrypt, process_dnscrypt_query,
}

-- What an exchange with a DNSCrypt server may end in: an error without a response, or, without an
-- error, the stale answer, what an exchange over TCP without an error brought, or what one over UDP
-- brought and is not truncated, each with its transport.
pub data Source {T E G K O : Type 0} (dns : Codec) (net : Net G K O) (server : String)
    (stale : PluginsState) (x : Settled T E) : Type 0 where
  failed' : is_error x.err ≡ true → x.response ≡ [] → Source dns net server stale x
  served_stale :
      is_error x.err ≡ false
      → stale_packet dns stale ≡ some x.response
      → Source dns net server stale x
  over_tcp :
      (sealed : K)
      → is_error x.err ≡ false
      → is_error (net.exchange_with_tcp_server server sealed).err ≡ false
      → x.response ≡ (net.exchange_with_tcp_server server sealed).response
      → x.state.exchange.transport ≡ dnscrypt_tcp
      → Source dns net server stale x
  over_udp :
      (sealed : K)
      → is_error x.err ≡ false
      → is_error (net.exchange_with_udp_server server sealed).err ≡ false
      → x.response ≡ (net.exchange_with_udp_server server sealed).response
      → is_truncated_reply (net.exchange_with_udp_server server sealed) ≡ false
      → x.state.exchange.transport ≡ dnscrypt_udp
      → Source dns net server stale x

-- The state of the second try.
abbrev noted : PluginsState → PluginsState
noted ps = record ps { exchange = record ps.exchange { tcp_fallback = true } }

module _ {T E : Type 0} (dns : Codec) (globals : PluginsGlobals) where
  -- An error without a response.
  abbrev pub IsFailure : Settled T E → Type 0
  IsFailure x = (is_error x.err ≡ true) × (x.response ≡ [])

  give_up-IsFailure :
      (w : World T E) (ps : PluginsState) (code : ReturnCode) (err : ExchangeError)
      → is_error err ≡ true
      → IsFailure (give_up dns globals w ps code err)
  unfolding give_up
  give_up-IsFailure w ps code err h = (h, refl)

  settle_dnscrypt_cases :
      (w : World T E) (ps : PluginsState) (reply : Reply)
      → let x = settle_dnscrypt dns globals w ps reply in
        IsFailure x
        ⊎ ((is_error x.err ≡ false) × (stale_packet dns ps ≡ some x.response))
        ⊎ ((is_error x.err ≡ false)
            × (is_error reply.err ≡ false)
            × (x.response ≡ reply.response)
            × (x.state ≡ ps))
  unfolding settle_dnscrypt stale_or_give_up
  settle_dnscrypt_cases w ps reply = elim (Bool-cases (is_error reply.err)) [
    | inl e ↦ elim (Option-cases (stale_packet dns ps)) [
      | inl s ↦ inl (
          rw (settle_dnscrypt, e, stale_or_give_up, s)
            (give_up-IsFailure w ps (dnscrypt_failure reply.err) reply.err e))
      | inr (p, s) ↦ inr (
          inl (
            rw (settle_dnscrypt, e, stale_or_give_up, s),
            rw (settle_dnscrypt, e, stale_or_give_up, s),
          ))
    ]
    | inr e ↦
        inr (inr (rw (settle_dnscrypt, e), e, rw (settle_dnscrypt, e), rw (settle_dnscrypt, e)))
  ]

module _ {T E G K O : Type 0} (dns : Codec) (globals : PluginsGlobals) (servers : Table T G)
    (net : Net G K O) (clock : Clock) where
  exchange_tcp-Source :
      (w : World T E) (ps ps' : PluginsState) (server : Upstream G) (sealed : K)
      → ps'.stale ≡ ps.stale
      → Source dns net server.name ps
          (exchange_tcp dns globals servers net clock w ps' server sealed)
  unfolding exchange_tcp
  exchange_tcp-Source w ps ps' server sealed h =
      elim (settle_dnscrypt_cases dns globals w
        (with_reused false (with_transport dnscrypt_tcp ps'))
        (net.exchange_with_tcp_server server.name sealed)) [
          | inl (e, r) ↦ failed' e r
          | inr (inl (n, s)) ↦ served_stale n (rw (sym h, s))
          | inr (inr (n, ok, r, s)) ↦ over_tcp sealed n ok r (rw s)
        ]

  retry_over_tcp-Source :
      (w : World T E) (ps ps' : PluginsState) (server : Upstream G) (query : Bytes)
      → ps'.stale ≡ ps.stale
      → Source dns net server.name ps
          (retry_over_tcp dns globals servers net clock w ps' server query)
  unfolding retry_over_tcp
  retry_over_tcp-Source w ps ps' server query h =
      elim (Option-cases (net.encrypt server.name tcp query)) [
        | inl e ↦
            let (f, r) =
              give_up-IsFailure dns globals w (noted ps') parse_error (failure false false) refl in
            rw (retry_over_tcp, e) (failed' f r)
        | inr (sealed, e) ↦
            rw (retry_over_tcp, e) (exchange_tcp-Source w ps (noted ps') server sealed h)
      ]

  exchange_udp-Source :
      (w : World T E) (ps : PluginsState) (server : Upstream G) (query : Bytes) (sealed : K)
      → Source dns net server.name ps
          (exchange_udp dns globals servers net clock w ps server query sealed)
  unfolding exchange_udp
  exchange_udp-Source w ps server query sealed =
      let reply = net.exchange_with_udp_server server.name sealed in
      let ps1 = with_reused reply.conn_reused (with_transport dnscrypt_udp ps) in
      elim (Bool-cases (is_truncated_reply reply)) [
        | inl t ↦
            rw (exchange_udp, t)
              (retry_over_tcp-Source w ps
                (record ps1 { exchange = record ps1.exchange { upstream_truncated = true } }) server
                query refl)
        | inr t ↦ elim (Bool-cases (is_net_timeout reply.err)) [
          | inl late ↦ rw (exchange_udp, t, late) (retry_over_tcp-Source w ps ps1 server query refl)
          | inr late ↦
              rw (exchange_udp, t, late)
                (elim (settle_dnscrypt_cases dns globals w ps1 reply) [
                  | inl (e, r) ↦ failed' e r
                  | inr (inl (n, s)) ↦ served_stale n s
                  | inr (inr (n, ok, r, s)) ↦ over_udp sealed n ok r t (rw s)
                ])
        ]
      ]

  -- A DNSCrypt exchange ends in an error without a response, or without an error: then it hands on the
  -- stale answer, or the response of an exchange over TCP that had no error, or that of an exchange
  -- over UDP that had no error and is not truncated, each of the last two with its transport recorded.
  pub process_dnscrypt_query-Source :
      (w : World T E) (ps : PluginsState) (server : Upstream G) (query : Bytes)
      (server_proto : Proto)
      → Source dns net server.name ps
          (process_dnscrypt_query dns globals servers net clock w ps server query server_proto)
  unfolding process_dnscrypt_query
  process_dnscrypt_query-Source w ps server query server_proto =
      elim (Option-cases (first_encrypt net server query server_proto)) [
        | inl e ↦
            let (f, r) =
              give_up-IsFailure dns globals w ps parse_error (failure false false) refl in
            rw (process_dnscrypt_query, e) (failed' f r)
        | inr (sealed, e) ↦ elim (Bool-cases sealed.1) [
          | inl u ↦
              rw (process_dnscrypt_query, e, u)
                (exchange_udp-Source (begun dns globals servers net clock w server) ps server query
                  sealed.0)
          | inr u ↦
              rw (process_dnscrypt_query, e, u)
                (exchange_tcp-Source (begun dns globals servers net clock w server) ps ps server
                  sealed.0 refl)
        ]
      ]
