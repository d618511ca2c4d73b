-- ===== src/Query/Exchanges.antt =====
-- dnscrypt-proxy/query_processing.go: the exchange of one query with an upstream server, over each
-- protocol. What the network and the ciphers do is a parameter.
use dnscrypt_proxy_fork.Base.{
  ℕ, ◌%◌, Bool, true, false, not, ◌&&◌, ◌||◌, [], length, get_elem?, Option, none, some, String,
  ltb, leb, ◌==◌, ◌>>=◌, if◌then◌else◌,
}
use dnscrypt_proxy_fork.Text.{Bytes}
use dnscrypt_proxy_fork.Dns.{Codec, has_tc_flag, transaction_id, set_transaction_id}
use dnscrypt_proxy_fork.Exchange.{ExchangeTransport, dnscrypt_udp, dnscrypt_tcp, doh_h2, doh_h3}
use dnscrypt_proxy_fork.Servers.Feedback.{
  ExchangeError, no_error, failure, is_error, is_net_timeout, min_dns_packet_size,
  max_dns_packet_size,
}
use dnscrypt_proxy_fork.Query.{
  ReturnCode, parse_error, network_error, server_timeout, Proto, udp, tcp, PluginsState,
  PluginsGlobals, ServerProto, dnscrypt, doh, odoh_target, Upstream, World, Table,
}
use dnscrypt_proxy_fork.Query.Plugins.{apply_logging_plugins}

-- The signals of an HTTP fetch; `is_http3` is `UsedHTTP3 || NegotiatedProto == "h3"`.
pub record FetchTrace : Type 0 where
  pub quic_fallback : Bool
  pub conn_reused : Bool
  pub is_http3 : Bool

-- What `exchangeWithUDPServer` returns; `exchangeWithTCPServer` has no reused connections.
pub record Reply : Type 0 where
  pub response : Bytes
  pub conn_reused : Bool
  pub err : ExchangeError

-- What `DoHQuery` returns; `is_complete` for a state of TLS whose handshake is complete.
pub record DohReply : Type 0 where
  pub response : Bytes
  pub is_complete : Bool
  pub trace : Option FetchTrace
  pub err : ExchangeError

-- What `ObliviousDoHQuery` returns.
pub record OdohReply : Type 0 where
  pub body : Bytes
  pub code : ℕ
  pub trace : Option FetchTrace
  pub err : ExchangeError

-- The world outside: `encrypt` is `proxy.Encrypt` for a protocol, which is called at most once for each, with a packet `K` and its keys; `O` is an encrypted ODoH query.
pub record Net (G K O : Type 0) : Type 0 where
  pub encrypt : String → Proto → Bytes → Option K
  pub exchange_with_udp_server : String → K → Reply
  pub exchange_with_tcp_server : String → K → Reply
  pub doh_query : String → Bytes → DohReply
  pub odoh_draw : ℕ
  pub encrypt_query : G → Bytes → Option O
  pub oblivious_doh_query : String → O → OdohReply
  pub decrypt_response : O → Bytes → Option Bytes

-- The readings of the clock: of `exchangeStart`, `noticeBegin`, `beginODoHRefresh` and `endODoHRefresh`.
pub record Clock : Type 0 where
  pub exchange_start : ℕ
  pub notice : ℕ
  pub begin_refresh : ℕ
  pub end_refresh : ℕ

-- What an exchange leaves: the world and the state, the response, and the error. A response that is
-- nil is empty.
pub record Settled (T E : Type 0) : Type 0 where
  pub world : World T E
  pub state : PluginsState
  pub response : Bytes
  pub err : ExchangeError

abbrev pub with_code : ReturnCode → PluginsState → PluginsState
with_code code ps = record ps { return_code = code }

abbrev pub with_transport : ExchangeTransport → PluginsState → PluginsState
with_transport transport ps = record ps { exchange = record ps.exchange { transport = transport } }

abbrev pub with_reused : Bool → PluginsState → PluginsState
with_reused reused ps = record ps { exchange = record ps.exchange { conn_reused = reused } }

-- The default transport of a fetch that is not for ODoH.
abbrev pub http_transport : FetchTrace → ExchangeTransport
http_transport ft = if ft.is_http3 then doh_h3 else doh_h2

unfoldable pub apply_http_fetch_trace : PluginsState → Option FetchTrace → Bool → PluginsState
apply_http_fetch_trace ps none is_odoh = ps
apply_http_fetch_trace ps (some ft) is_odoh = record ps {
  exchange = record ps.exchange {
    quic_fallback = ft.quic_fallback;
    conn_reused = ft.conn_reused;
    transport = if is_odoh then ExchangeTransport.odoh else http_transport ft;
  };
}

abbrev pub has_packet_size : Bytes → Bool
has_packet_size response =
    leb min_dns_packet_size (length response) && leb (length response) max_dns_packet_size

-- `SetTransactionID(response, tid)` under the guard of its callers.
abbrev pub restore_id : Bytes → ℕ → Bytes
restore_id response tid =
    if leb min_dns_packet_size (length response) then set_transaction_id response tid else response

abbrev pub stale_packet : Codec → PluginsState → Option Bytes
stale_packet dns ps = elim ps.stale [ none ↦ none | some msg ↦ dns.pack msg ]

abbrev pub dnscrypt_failure : ExchangeError → ReturnCode
dnscrypt_failure err = if is_net_timeout err then server_timeout else network_error

module _ {T E : Type 0} (dns : Codec) (globals : PluginsGlobals) where
  -- Sets the code, logs, and returns the error without a response.
  unfoldable pub give_up : World T E → PluginsState → ReturnCode → ExchangeError → Settled T E
  give_up w ps code err =
      let (w', ps') = apply_logging_plugins globals w (with_code code ps) in
      record { world = w'; state = ps'; response = []; err = err }

  -- The stale response, or the definitive failure.
  unfoldable pub stale_or_give_up :
      World T E → PluginsState → ReturnCode → ExchangeError → Settled T E
  stale_or_give_up w ps code err = elim (stale_packet dns ps) [
    | none ↦ give_up w ps code err
    | some packet ↦ record { world = w; state = ps; response = packet; err = no_error }
  ]

  -- The end of processDNSCryptQuery.
  unfoldable pub settle_dnscrypt : World T E → PluginsState → Reply → Settled T E
  settle_dnscrypt w ps reply =
      if is_error reply.err
      then stale_or_give_up w ps (dnscrypt_failure reply.err) reply.err
      else record { world = w; state = ps; response = reply.response; err = no_error }

  -- The check of the size that ends handleDNSExchange.
  unfoldable pub check_size : Settled T E → Settled T E
  check_size x =
      if is_error x.err
      then record x { response = [] }
      else if has_packet_size x.response
      then x
      else give_up x.world x.state parse_error no_error

-- Whether the answer over UDP asks for another try over TCP.
unfoldable pub is_truncated_reply : Reply → Bool
is_truncated_reply reply =
    not (is_error reply.err)
    && leb min_dns_packet_size (length reply.response)
    && has_tc_flag reply.response

-- A status that tells that the key of the target has changed.
abbrev pub asks_refresh : OdohReply → Bool
asks_refresh reply = reply.code == 401 || (reply.code == 200 && length reply.body == 0)

module _ {G K O : Type 0} (net : Net G K O) where
  -- The encryption that comes first: over UDP, where the query fits, or over TCP.
  unfoldable pub first_encrypt : Upstream G → Bytes → Proto → Option (K × Bool)
  first_encrypt server query udp = elim (net.encrypt server.name udp query) [
    | some sealed ↦ some (sealed, true)
    | none ↦ net.encrypt server.name tcp query >>= (λ sealed. some (sealed, false))
  ]
  first_encrypt server query proto =
      net.encrypt server.name proto query >>= (λ sealed. some (sealed, false))

module _ {T G : Type 0} (servers : Table T G) (clock : Clock) where
  -- `refreshODoHKey` with a cooldown of 10 seconds: the table, and the error.
  unfoldable pub refresh_odoh_key : T → String → T × ExchangeError
  refresh_odoh_key table name =
      let (claimed, is_claimed) =
        servers.begin_odoh_refresh table name 10_000_000_000 clock.begin_refresh in
      let (refreshed, err) = servers.refresh_server claimed name in
      if is_claimed
      then (servers.end_odoh_refresh refreshed name (not (is_error err)) clock.end_refresh, err)
      else (claimed, no_error)

  -- The table after a failed ODoH exchange, and the error.
  unfoldable pub refresh_if_asked : T → String → OdohReply → T × ExchangeError
  refresh_if_asked table name reply =
      let (refreshed, err) = refresh_odoh_key table name in
      if asks_refresh reply && servers.is_registered table name
      then (refreshed, if is_error err then err else reply.err)
      else (table, reply.err)

module _ {T E G K O : Type 0} (dns : Codec) (globals : PluginsGlobals) (servers : Table T G)
    (net : Net G K O) (clock : Clock) where
  abbrev pub begun : World T E → Upstream G → World T E
  begun w server = record w { table = servers.notice_begin w.table server.name clock.notice }

  unfoldable pub exchange_tcp : World T E → PluginsState → Upstream G → K → Settled T E
  exchange_tcp w ps server sealed =
      settle_dnscrypt dns globals w (with_reused false (with_transport dnscrypt_tcp ps))
        (net.exchange_with_tcp_server server.name sealed)

  -- The second try, over TCP.
  unfoldable pub retry_over_tcp : World T E → PluginsState → Upstream G → Bytes → Settled T E
  retry_over_tcp w ps server query =
      let ps' = record ps { exchange = record ps.exchange { tcp_fallback = true } } in
      elim (net.encrypt server.name tcp query) [
        | none ↦ give_up dns globals w ps' parse_error (failure false false)
        | some sealed ↦ exchange_tcp w ps' server sealed
      ]

  unfoldable pub exchange_udp : World T E → PluginsState → Upstream G → Bytes → K → Settled T E
  exchange_udp w ps server query sealed =
      let reply = net.exchange_with_udp_server server.name sealed in
      let ps1 = with_reused reply.conn_reused (with_transport dnscrypt_udp ps) in
      let ps2 = record ps1 { exchange = record ps1.exchange { upstream_truncated = true } } in
      if is_truncated_reply reply
      then retry_over_tcp w ps2 server query
      else if is_net_timeout reply.err
      then retry_over_tcp w ps1 server query
      else settle_dnscrypt dns globals w ps1 reply

  unfoldable pub process_dnscrypt_query :
      World T E → PluginsState → Upstream G → Bytes → Proto → Settled T E
  process_dnscrypt_query w ps server query server_proto =
      elim (first_encrypt net server query server_proto) [
        | none ↦ give_up dns globals w ps parse_error (failure false false)
        | some (sealed, is_udp) ↦
            if is_udp
            then exchange_udp (begun w server) ps server query sealed
            else exchange_tcp (begun w server) ps server sealed
      ]

  unfoldable pub process_doh_query : World T E → PluginsState → Upstream G → Bytes → Settled T E
  process_doh_query w ps server query =
      let reply = net.doh_query server.name (set_transaction_id query 0) in
      let ps' = apply_http_fetch_trace ps reply.trace false in
      if not (is_error reply.err) && reply.is_complete
      then record {
        world = begun w server;
        state = ps';
        response = restore_id reply.response (transaction_id query);
        err = no_error;
      }
      else stale_or_give_up dns globals (begun w server) ps' network_error reply.err

  unfoldable pub settle_odoh : World T E → PluginsState → Upstream G → Bytes → O → Settled T E
  settle_odoh w ps server query sealed =
      let reply = net.oblivious_doh_query server.name sealed in
      let ps' = apply_http_fetch_trace ps reply.trace true in
      let (table, err) = refresh_if_asked servers clock w.table server.name reply in
      if not (is_error reply.err) && ltb 0 (length reply.body) && reply.code == 200
      then elim (net.decrypt_response sealed reply.body) [
        | none ↦ record { world = w; state = ps'; response = []; err = failure false false }
        | some response ↦ record {
          world = w;
          state = ps';
          response = restore_id response (transaction_id query);
          err = no_error;
        }
      ]
      else give_up dns globals (record w { table = table }) ps' network_error err

  unfoldable pub process_odoh_query : World T E → PluginsState → Upstream G → Bytes → Settled T E
  process_odoh_query w ps server query =
      elim (get_elem? server.odoh_target_configs
        (net.odoh_draw % length server.odoh_target_configs)) [
          | none ↦ record { world = w; state = ps; response = []; err = no_error }
          | some target ↦ elim (net.encrypt_query target query) [
            | none ↦ record {
              world = begun w server;
              state = ps;
              response = [];
              err = failure false false;
            }
            | some sealed ↦ settle_odoh (begun w server) ps server query sealed
          ]
        ]

  abbrev pub exchange_as :
      ServerProto → World T E → PluginsState → Upstream G → Bytes → Proto → Settled T E
  exchange_as dnscrypt w ps server query server_proto =
      process_dnscrypt_query w ps server query server_proto
  exchange_as doh w ps server query server_proto = process_doh_query w ps server query
  exchange_as odoh_target w ps server query server_proto = process_odoh_query w ps server query

  abbrev pub exchange_by_proto : World T E → PluginsState → Upstream G → Bytes → Proto → Settled T E
  exchange_by_proto w ps server query server_proto =
      exchange_as server.proto w ps server query server_proto

  unfoldable pub handle_dns_exchange :
      World T E → PluginsState → Upstream G → Bytes → Proto → Settled T E
  handle_dns_exchange w ps server query server_proto = check_size dns globals (
      exchange_by_proto w (record ps { exchange_start = clock.exchange_start }) server query
        server_proto)
