-- ===== src/Query/Served.antt =====
-- dnscrypt-proxy/proxy.go: the whole of processIncomingQuery, from a packet to the feedback.
use dnscrypt_proxy_fork.Base.{
  ℕ, ◌≡◌, refl, sym, subst, ap, ◌∙◌, ◌⊎◌, inl, inr, Bool, true, false, not, [], Option, none, some,
  Option-cases, Bool-cases,
}
use dnscrypt_proxy_fork.Text.{Bytes}
use dnscrypt_proxy_fork.Dns.{Msg, Codec, BlockedTexts}
use dnscrypt_proxy_fork.Query.{
  Action, continue', drop, reject, synth, Proto, PluginsState, Evaluated, PluginsGlobals, Settings,
  new_plugins_state, Upstream, World, Table,
}
use dnscrypt_proxy_fork.Query.Plugins.{
  is_continue, is_drop, Queried, needs_padding, eval_plugins, note_question, pad_query, pack_query,
  query_chain, only_name, apply_query_plugins,
}
use dnscrypt_proxy_fork.Query.Exchanges.{Net, Clock, Settled, has_packet_size}
use dnscrypt_proxy_fork.Query.Process.{Average, answer_query, after_chain, process_incoming_query}
use dnscrypt_proxy_fork.Query.Steps.{Prepared, start, chose}
use dnscrypt_proxy_fork.Query.Dispatch.{IsServed, after_chain-IsServed}

module _ {T G : Type 0} (dns : Codec) (texts : BlockedTexts) (globals : PluginsGlobals)
    (servers : Table T G) where
  -- What a query that goes on leaves once it is packed, and padded.
  abbrev pub GoesOn : Evaluated → T → Queried T G → Type 0
  GoesOn r table q =
      (q.failed ≡ false)
      × (q.table ≡ table)
      × (q.state.action ≡ r.state.action)
      × (q.state.synth_response ≡ r.state.synth_response)

  pad_query-GoesOn :
      (r : Evaluated) (packet : Bytes) (table : T) (s : Option (Upstream G))
      → GoesOn r table (pad_query dns r.state r.msg packet table s)
  unfolding pad_query
  pad_query-GoesOn r packet table none = (refl, refl, refl, refl)
  pad_query-GoesOn r packet table (some s) = elim (Bool-cases (needs_padding s)) [
    | inl e ↦ rw (pad_query, e) (refl, refl, refl, refl)
    | inr e ↦ rw (pad_query, e) (refl, refl, refl, refl)
  ]

  -- The table as it was, or after a call of getOne.
  abbrev pub Chooses : T → T → Type 0
  Chooses before after = (after ≡ before) ⊎ (after ≡ (servers.get_one before).0)

  pack_query-Chooses :
      (table : T) (packet : Bytes) (r : Evaluated)
      → Chooses table (pack_query dns servers table packet r).table
  unfolding pack_query
  pack_query-Chooses table packet r = elim (Bool-cases r.failed) [
    | inl f ↦ rw (pack_query, f) (inl refl)
    | inr f ↦ elim (Option-cases (dns.pack r.msg)) [
      | inl p ↦ rw (pack_query, f, p) (inl refl)
      | inr (packed, p) ↦ elim (Bool-cases (is_continue r.state.action)) [
        | inl c ↦
            let (ok, t, a, s) =
              pad_query-GoesOn r packed (servers.get_one table).0 (servers.get_one table).1 in
            rw (pack_query, f, p, c) (inr t)
        | inr c ↦ rw (pack_query, f, p, c) (inl refl)
      ]
    ]
  ]

  apply_query_plugins-Chooses :
      (table : T) (ps : PluginsState) (packet : Bytes)
      → Chooses table (apply_query_plugins dns texts globals servers table ps packet).table
  unfolding apply_query_plugins query_chain
  apply_query_plugins-Chooses table ps packet = elim (Option-cases (dns.unpack packet)) [
    | inl u ↦ rw (apply_query_plugins, u) (inl refl)
    | inr (msg, u) ↦ elim (Option-cases (only_name msg.question)) [
      | inl n ↦ rw (apply_query_plugins, u, n) (inl refl)
      | inr (qname, n) ↦
          rw (apply_query_plugins, u, n, query_chain)
            (pack_query-Chooses table packet (
              eval_plugins texts globals note_question globals.query_plugins
                (record ps { qname = qname; question_msg = some msg }) msg))
    ]
  ]

  apply_query_plugins-Prepared :
      (table : T) (ps : PluginsState) (packet : Bytes)
      → Prepared servers table (apply_query_plugins dns texts globals servers table ps packet).table
  apply_query_plugins-Prepared table ps packet =
      elim (apply_query_plugins-Chooses table ps packet) [
        | inl e ↦ subst (Prepared servers table) (sym e) start
        | inr e ↦ subst (Prepared servers table) (sym e) (chose start)
      ]

-- Nothing for the client, and the world as it was.
abbrev pub IsQuiet : {T E : Type 0} → World T E → Settled T E → Type 0
IsQuiet w x = (x.response ≡ []) × (x.world ≡ w)

continue-drop : (a : Action) → is_continue a ≡ true → is_drop a ≡ false
continue-drop continue' h = refl
continue-drop drop h = absurd (cc)
continue-drop reject h = refl
continue-drop synth h = refl

module _ {T E G K O : Type 0} (dns : Codec) (texts : BlockedTexts) (globals : PluginsGlobals)
    (average : Average E) (servers : Table T G) (net : Net G K O) (clock : Clock) (proxy : Settings)
    (has_conn : Bool) (w : World T E) (query : Bytes) (client_proto server_proto : Proto)
    (at : ℕ) where
  after_chain-cached :
      (u : World T E) (q : Queried T G)
      → q.failed ≡ false
      → is_continue q.state.action ≡ true
      → q.state.synth_response ≡ none
      → IsQuiet u (
          after_chain dns texts globals average servers net clock has_conn true u q client_proto
            server_proto)
  unfolding after_chain answer_query
  after_chain-cached u q f c s =
      let d = continue-drop q.state.action c in
      elim (Bool-cases (not (has_packet_size q.packet))) [
        | inl z ↦ rw (after_chain, f, z) (refl, refl)
        | inr z ↦ rw (after_chain, f, z, d, s, answer_query) (refl, refl)
      ]

  -- On every path a query changes the table only by choosing servers, beginning an exchange and
  -- refreshing keys, and by at most one observation, which comes last; it writes at most one packet
  -- to the client.
  pub process_incoming_query-IsServed :
      (only_cached : Bool)
      → IsServed dns texts globals average servers net clock w
          (process_incoming_query dns texts globals average servers net clock proxy has_conn
            only_cached w query client_proto server_proto at).world
  unfolding process_incoming_query
  process_incoming_query-IsServed only_cached =
      let ps = new_plugins_state proxy client_proto server_proto at in
      let q = apply_query_plugins dns texts globals servers w.table ps query in
      elim (Bool-cases (not (has_packet_size query))) [
        | inl s ↦ rw (process_incoming_query, s) (w.table, start, inl refl, inl refl)
        | inr s ↦
            rw (process_incoming_query, s)
              (after_chain-IsServed dns texts globals average servers net clock has_conn only_cached
                (record w { table = q.table }) w.table q client_proto server_proto
                (apply_query_plugins-Prepared dns texts globals servers w.table ps query))
      ]

  -- A query that may only be answered from the cache, when too many clients are served, chooses a
  -- server all the same if no plugin answers or stops it, although no exchange follows: there is no
  -- answer, and the table is what getOne leaves.
  pub process_incoming_query-only_cached :
      (msg : Msg) (qname packet : Bytes)
      → has_packet_size query ≡ true
      → dns.unpack query ≡ some msg
      → only_name msg.question ≡ some qname
      → let r =
          eval_plugins texts globals note_question globals.query_plugins
            (record (new_plugins_state proxy client_proto server_proto at) {
              qname = qname;
              question_msg = some msg;
            })
            msg in
        r.failed ≡ false
        → is_continue r.state.action ≡ true
        → r.state.synth_response ≡ none
        → dns.pack r.msg ≡ some packet
        → let x =
            process_incoming_query dns texts globals average servers net clock proxy has_conn true w
              query client_proto server_proto at in
          IsQuiet (record w { table = (servers.get_one w.table).0 }) x
  unfolding process_incoming_query apply_query_plugins query_chain pack_query
  process_incoming_query-only_cached msg qname packet size u n f c s p =
      let ps : PluginsState = record (new_plugins_state proxy client_proto server_proto at) {
        qname = qname;
        question_msg = some msg;
      } in
      let r = eval_plugins texts globals note_question globals.query_plugins ps msg in
      let (table, server) = servers.get_one w.table in
      let q = pad_query dns r.state r.msg packet table server in
      let (ok, t, a, y) = pad_query-GoesOn dns texts globals servers r packet table server in
      let chain : apply_query_plugins dns texts globals servers w.table
            (new_plugins_state proxy client_proto server_proto at) query
          ≡ q =
        rw (apply_query_plugins, u, n, query_chain, pack_query, f, p, c) in
      let w1 : World T E = record w { table = q.table } in
      let quiet =
        after_chain-cached w1 q ok (subst (λ b. is_continue b ≡ true) (sym a) c) (y ∙ s) in
      rw (process_incoming_query, size, chain)
        (quiet.0, quiet.1 ∙ ap (λ b. record w { table = b }) t)
