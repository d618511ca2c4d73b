-- ===== src/Query/Rejected.antt =====
-- dnscrypt-proxy/proxy.go and plugins.go: a query that a plugin rejects, from the packet of the client
-- to the packet that it gets.
use dnscrypt_proxy_fork.Base.{
  ℕ, ◌≤◌, ◌≡◌, refl, sym, subst, ◌∙◌, Bool, true, false, [], ◌∷◌, ◌++◌, length, none, some, ltb,
  ◌==◌, arith,
}
use dnscrypt_proxy_fork.Text.{Bytes}
use dnscrypt_proxy_fork.Dns.{Question, Msg, Codec, BlockedTexts}
use dnscrypt_proxy_fork.Servers.Feedback.{no_error}
use dnscrypt_proxy_fork.Query.{
  Action, continue', drop, reject, synth, Proto, udp, PluginsState, PluginsGlobals, Settings,
  new_plugins_state, World, Table,
}
use dnscrypt_proxy_fork.Query.Plugins.{
  is_continue, is_drop, is_reject, refuse, Queried, eval_plugins, note_question, pack_query,
  query_chain, only_name, apply_query_plugins, apply_logging_plugins,
}
use dnscrypt_proxy_fork.Query.Exchanges.{Net, Clock, Settled, has_packet_size}
use dnscrypt_proxy_fork.Query.Process.{
  Average, estimate, write, handle_synthesized_response, send_udp, send_response, finish,
  answer_query, after_chain, process_incoming_query,
}
use dnscrypt_proxy_fork.Query.Chains.{IsFine, IsRejected, reject-handle_synthesized_response}
use dnscrypt_proxy_fork.Query.Steps.{apply_logging_plugins-table}

-- The client gets the packet, and nothing else, and there is no error.
pub record IsAnswered {T E : Type 0} (before : World T E) (packet : Bytes) (x : Settled T E)
    : Type 0 where
  pub same_response : x.response ≡ packet
  pub without_error : x.err ≡ no_error
  pub packet_written : x.world.written ≡ before.written ++ packet ∷ []
  pub same_table : x.world.table ≡ before.table

reject-other : (a : Action) → is_reject a ≡ true → (is_continue a ≡ false) × (is_drop a ≡ false)
reject-other continue' h = absurd (cc)
reject-other drop h = absurd (cc)
reject-other reject h = (refl, refl)
reject-other synth h = absurd (cc)

new_plugins_state-continues :
    (proxy : Settings) (client_proto server_proto : Proto) (at : ℕ)
    → is_continue (new_plugins_state proxy client_proto server_proto at).action ≡ true
unfolding new_plugins_state
new_plugins_state-continues proxy client_proto server_proto at = refl

module _ {T E G K O : Type 0} (dns : Codec) (texts : BlockedTexts) (globals : PluginsGlobals)
    (average : Average E) (servers : Table T G) (net : Net G K O) (clock : Clock)
    (has_conn : Bool) where
  send_response-udp :
      (w : World T E) (ps : PluginsState) (packet : Bytes)
      → has_packet_size packet ≡ true
      → length packet ≤ ps.max_unencrypted_udp_safe_payload_size
      → send_response dns texts globals average has_conn w ps packet udp
        ≡ (estimate dns texts globals average (write dns texts globals average w packet) packet, ps)
  unfolding send_response send_udp
  send_response-udp w ps packet size fits =
      let small : ltb ps.max_unencrypted_udp_safe_payload_size (length packet) ≡ false =
        ground (arith, fits) in
      rw (send_response, size, send_udp, small)

  -- A response of a valid size that fits is sent over UDP as it is.
  finish-IsAnswered :
      (w : World T E) (ps : PluginsState) (packet : Bytes)
      → has_packet_size packet ≡ true
      → length packet ≤ ps.max_unencrypted_udp_safe_payload_size
      → IsAnswered w packet (finish dns texts globals average has_conn w ps packet udp)
  unfolding finish
  finish-IsAnswered w ps packet size fits =
      let sent =
        estimate dns texts globals average (write dns texts globals average w packet) packet in
      let (t, written) = apply_logging_plugins-table dns globals sent ps in
      let logged = apply_logging_plugins globals sent ps in
      let q : finish dns texts globals average has_conn w ps packet udp
          ≡ record { world = logged.0; state = logged.1; response = packet; err = no_error } =
        rw (finish, size, send_response-udp w ps packet size fits) in
      subst (IsAnswered w packet) (sym q) (record {
        same_response = refl;
        without_error = refl;
        packet_written = written;
        same_table = t;
      })

  -- So is a query for which the chain has made up a response.
  after_chain-IsAnswered :
      (w : World T E) (q : Queried T G) (m : Msg) (answer : Bytes) (only_cached : Bool)
      (server_proto : Proto)
      → q.failed ≡ false
      → has_packet_size q.packet ≡ true
      → is_drop q.state.action ≡ false
      → q.state.synth_response ≡ some m
      → handle_synthesized_response dns q.state m ≡ some answer
      → has_packet_size answer ≡ true
      → length answer ≤ q.state.max_unencrypted_udp_safe_payload_size
      → IsAnswered w answer (
          after_chain dns texts globals average servers net clock has_conn only_cached w q udp
            server_proto)
  unfolding after_chain answer_query
  after_chain-IsAnswered w q m answer only_cached server_proto f size d s h asize fits =
      let full : (length answer == 0) ≡ false = ground (arith, asize) in
      rw (after_chain, f, size, d, s, h, answer_query, full)
        (finish-IsAnswered w q.state answer asize fits)

  -- A query over UDP that a plugin rejects without an error is answered, whether or not only the cache
  -- may answer it: the client gets the packet of the made-up response, whole, and the table of servers
  -- is as it was. The query has a valid size and one question with an ASCII name; the message that the plugins
  -- leave has one question, with a name equal to itself; it can be packed, as can the response, both in
  -- a valid size, and the response fits the limit for UDP.
  pub process_incoming_query-IsAnswered :
      (proxy : Settings) (only_cached : Bool) (w : World T E) (query : Bytes) (server_proto : Proto)
      (at : ℕ) (msg : Msg) (qname packet answer : Bytes) (q : Question)
      → has_packet_size query ≡ true
      → dns.unpack query ≡ some msg
      → only_name msg.question ≡ some qname
      → let r =
          eval_plugins texts globals note_question globals.query_plugins
            (record (new_plugins_state proxy udp server_proto at) {
              qname = qname;
              question_msg = some msg;
            })
            msg in
        IsFine r
        → IsRejected r
        → r.msg.question ≡ q ∷ []
        → dns.equal_name q.name q.name ≡ true
        → dns.pack r.msg ≡ some packet
        → has_packet_size packet ≡ true
        → dns.pack (refuse texts globals r.state r.msg) ≡ some answer
        → has_packet_size answer ≡ true
        → length answer ≤ r.state.max_unencrypted_udp_safe_payload_size
        → IsAnswered w answer (
            process_incoming_query dns texts globals average servers net clock proxy has_conn
              only_cached w query udp server_proto at)
  unfolding process_incoming_query apply_query_plugins query_chain pack_query
  process_incoming_query-IsAnswered proxy only_cached w query server_proto at msg qname packet
        answer q size u n f e one same p psize b bsize fits =
      let ps : PluginsState = record (new_plugins_state proxy udp server_proto at) {
        qname = qname;
        question_msg = some msg;
      } in
      let r = eval_plugins texts globals note_question globals.query_plugins ps msg in
      let (goes, drops) = reject-other r.state.action e in
      let (made, checked) =
        reject-handle_synthesized_response texts globals dns globals.query_plugins ps msg q
          (new_plugins_state-continues proxy udp server_proto at) refl f e one same in
      let queried : Queried T G = record {
        state = r.state;
        table = w.table;
        server = none;
        packet = packet;
        failed = false;
      } in
      let chain : apply_query_plugins dns texts globals servers w.table
            (new_plugins_state proxy udp server_proto at) query
          ≡ queried =
        rw (apply_query_plugins, u, n, query_chain, pack_query, f, p, goes) in
      rw (process_incoming_query, size, chain)
        (after_chain-IsAnswered w queried (refuse texts globals r.state r.msg) answer only_cached
          server_proto refl psize drops made (checked ∙ b) bsize fits)
