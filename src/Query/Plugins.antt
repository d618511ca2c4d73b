-- ===== src/Query/Plugins.antt =====
-- dnscrypt-proxy/plugins.go: the chains of plugins over a query, a response and a log entry, and the
-- logger of plugin_query_log.go.
use dnscrypt_proxy_fork.Base.{
  ℕ, ◌+◌, ◌-◌, ◌%◌, Bool, true, false, not, ◌||◌, List, [], ◌∷◌, ◌++◌, length, Option, none, some,
  ◌==◌, if◌then◌else◌,
}
use dnscrypt_proxy_fork.Text.{Bytes}
use dnscrypt_proxy_fork.Dns.{
  Msg, Question, Codec, BlockedTexts, Edns0, ede, padding, option, validate_response_for_query,
  refused_response_from_message, normalize_qname,
}
use dnscrypt_proxy_fork.Servers.Feedback.{max_dns_packet_size, rcode}
use dnscrypt_proxy_fork.Query.{
  Action, continue', drop, reject, ReturnCode, pass, synthesized, cloak, nxdomain, servfail,
  response_error, parse_error, PluginsState, Evaluated, Plugin, LogPlugin, PluginsGlobals, Upstream,
  doh, World, Table,
}

abbrev pub is_continue : Action → Bool
is_continue continue' = true
is_continue _ = false

abbrev pub is_reject : Action → Bool
is_reject reject = true
is_reject _ = false

abbrev pub is_drop : Action → Bool
is_drop drop = true
is_drop _ = false

module _ (texts : BlockedTexts) (globals : PluginsGlobals) where
  -- The response that stands for a rejected message.
  abbrev pub refuse : PluginsState → Msg → Msg
  refuse ps msg =
      refused_response_from_message texts msg globals.refused_code_in_responses
        globals.respond_with_ipv4 globals.respond_with_ipv6 ps.reject_ttl

  abbrev pub refuse_if_rejected : PluginsState → Msg → PluginsState
  refuse_if_rejected ps msg =
      if is_reject ps.action then record ps { synth_response = some (refuse ps msg) } else ps

  -- The loop over the plugins. `note` is what a state sees of a message that a plugin has changed:
  -- `questionMsg` points to the message of a query.
  unfoldable pub eval_plugins :
      (PluginsState → Msg → PluginsState) → List Plugin → PluginsState → Msg → Evaluated
  eval_plugins note [] ps msg = record { state = ps; msg = msg; failed = false }
  eval_plugins note (plugin ∷ plugins) ps msg =
      let r = plugin ps msg in
      let ps' = refuse_if_rejected (note r.state r.msg) r.msg in
      let rest = eval_plugins note plugins ps' r.msg in
      if r.failed
      then record {
        state = record (note r.state r.msg) { action = drop };
        msg = r.msg;
        failed = true;
      }
      else if is_continue ps'.action
      then rest
      else record { state = ps'; msg = r.msg; failed = false }

abbrev pub note_question : PluginsState → Msg → PluginsState
note_question ps msg = record ps { question_msg = some msg }

abbrev pub note_nothing : PluginsState → Msg → PluginsState
note_nothing ps msg = ps

unfoldable pub has_padding : List Edns0 → Bool
has_padding [] = false
has_padding (padding n ∷ rrs) = true
has_padding (ede code text ∷ rrs) = has_padding rrs
has_padding (option code data' ∷ rrs) = has_padding rrs

-- `addEDNS0PaddingIfNoneFound`: the message as it is left, and the packet unless `Pack` fails.
unfoldable pub add_edns0_padding_if_none_found : Codec → Msg → Bytes → ℕ → Msg × Option Bytes
add_edns0_padding_if_none_found dns msg unpadded padding_len =
    let sized = record msg {
      udp_size = if msg.udp_size == 0 then max_dns_packet_size else msg.udp_size;
    } in
    let padded = record sized { pseudo = sized.pseudo ++ padding padding_len ∷ [] } in
    if has_padding sized.pseudo then (sized, some unpadded) else (padded, dns.pack padded)

-- `63 - ((len(packet2) + 63) & 63)`
unfoldable pub padding_length : ℕ → ℕ
padding_length n = 63 - (n + 63) % 64

-- The name of the only question.
abbrev pub only_name : List Question → Option Bytes
only_name (q ∷ []) = normalize_qname q.name
only_name _ = none

-- What the query chain leaves: the state, the table, the server if one was chosen, the packet and
-- whether there was an error.
pub record Queried (T G : Type 0) : Type 0 where
  pub state : PluginsState
  pub table : T
  pub server : Option (Upstream G)
  pub packet : Bytes
  pub failed : Bool

abbrev pub needs_padding : {G : Type 0} → Upstream G → Bool
needs_padding s = elim s.proto [ doh ↦ true | _ ↦ false ]

module _ {T G : Type 0} where
  -- The callback `getServerInfo` of processIncomingQuery, which is called once.
  abbrev pub get_server_info : Table T G → T → T × Option (Upstream G)
  get_server_info servers table = servers.get_one table

  -- The end of ApplyQueryPlugins, once the message is packed.
  unfoldable pub pad_query :
      Codec → PluginsState → Msg → Bytes → T → Option (Upstream G) → Queried T G
  pad_query dns ps msg packet table none = record {
    state = ps;
    table = table;
    server = none;
    packet = packet;
    failed = false;
  }
  pad_query dns ps msg packet table (some s) =
      let (msg', padded) =
        add_edns0_padding_if_none_found dns msg packet (padding_length (length packet)) in
      if needs_padding s
      then record {
        state = note_question ps msg';
        table = table;
        server = some s;
        packet = elim padded [ none ↦ packet | some p ↦ p ];
        failed = false;
      }
      else record { state = ps; table = table; server = some s; packet = packet; failed = false }

  abbrev pub query_failed : PluginsState → T → Bytes → Queried T G
  query_failed ps table packet = record {
    state = ps;
    table = table;
    server = none;
    packet = packet;
    failed = true;
  }

  -- What follows the chain.
  unfoldable pub pack_query : Codec → Table T G → T → Bytes → Evaluated → Queried T G
  pack_query dns servers table packet r =
      let (table', s) = get_server_info servers table in
      if r.failed then query_failed r.state table packet else elim (dns.pack r.msg) [
        | none ↦ query_failed r.state table packet
        | some packet2 ↦
            if is_continue r.state.action
            then pad_query dns r.state r.msg packet2 table' s
            else record {
              state = r.state;
              table = table;
              server = none;
              packet = packet2;
              failed = false;
            }
      ]

  -- The chain, for a message with one question.
  unfoldable pub query_chain :
      Codec
      → BlockedTexts
      → PluginsGlobals
      → Table T G
      → T
      → Bytes
      → PluginsState
      → Msg
      → Bytes
      → Queried T G
  query_chain dns texts globals servers table packet ps msg qname =
      pack_query dns servers table packet (
        eval_plugins texts globals note_question globals.query_plugins
          (record ps { qname = qname; question_msg = some msg }) msg)

  unfoldable pub apply_query_plugins :
      Codec → BlockedTexts → PluginsGlobals → Table T G → T → PluginsState → Bytes → Queried T G
  apply_query_plugins dns texts globals servers table ps packet = elim (dns.unpack packet) [
    | none ↦ query_failed ps table packet
    | some msg ↦ elim (only_name msg.question) [
      | none ↦ query_failed ps table packet
      | some qname ↦ query_chain dns texts globals servers table packet ps msg qname
    ]
  ]

-- The code of a response, from its RCODE.
unfoldable pub return_code_of : ℕ → ReturnCode
return_code_of code =
    if code == 0
    then pass
    else if code == 3
    then nxdomain
    else if code == 2
    then servfail
    else response_error

-- What the response chain leaves.
pub record Responded : Type 0 where
  pub state : PluginsState
  pub packet : Bytes
  pub failed : Bool

-- The end of ApplyResponsePlugins.
unfoldable pub pack_response : Codec → Bytes → Evaluated → Responded
pack_response dns packet r =
    if r.failed || not (validate_response_for_query dns.equal_name r.state.question_msg r.msg)
    then record { state = r.state; packet = packet; failed = true }
    else elim (dns.pack r.msg) [
      | none ↦ record { state = r.state; packet = packet; failed = true }
      | some packed ↦ record { state = r.state; packet = packed; failed = false }
    ]

unfoldable pub apply_response_plugins :
    Codec → BlockedTexts → PluginsGlobals → PluginsState → Bytes → Responded
apply_response_plugins dns texts globals ps packet = elim (dns.unpack packet) [
  | none ↦ record { state = ps; packet = packet; failed = true }
  | some msg ↦
      if validate_response_for_query dns.equal_name ps.question_msg msg
      then pack_response dns packet (
          eval_plugins texts globals note_nothing globals.response_plugins
            (record ps { return_code = return_code_of (rcode packet) })
            (record msg { pseudo = [] }))
      else record { state = ps; packet = packet; failed = true }
]

-- The loop over the logging plugins: the state as they leave it, and the code that each was called with.
unfoldable pub log_with : List LogPlugin → PluginsState → Msg → PluginsState × List ReturnCode
log_with [] ps msg = (ps, [])
log_with (plugin ∷ plugins) ps msg =
    let r = plugin ps msg in
    let (ps', codes) = log_with plugins r.state msg in
    if r.failed then (r.state, ps.return_code ∷ []) else (ps', ps.return_code ∷ codes)

-- Without a question nothing is logged.
unfoldable pub apply_logging_plugins :
    {T E : Type 0} → PluginsGlobals → World T E → PluginsState → World T E × PluginsState
apply_logging_plugins globals w ps = elim ps.question_msg [
  | none ↦ (w, ps)
  | some msg ↦
      let (ps', codes) = log_with globals.logging_plugins ps msg in
      (record w { logged = w.logged ++ codes }, ps')
]

-- What decides whether PluginQueryLog has an entry: whether the client has an address, the types that
-- it ignores, whether the writer is there.
pub record QueryLog : Type 0 where
  pub has_client_ip : Bool
  pub ignored_qtypes : List ℕ
  pub has_logger : Bool

unfoldable pub mem_ℕ : ℕ → List ℕ → Bool
mem_ℕ n [] = false
mem_ℕ n (m ∷ ms) = n == m || mem_ℕ n ms

abbrev pub hides_server : ReturnCode → Bool
hides_server synthesized = true
hides_server cloak = true
hides_server parse_error = true
hides_server _ = false

abbrev pub qtype_of : List Question → ℕ
qtype_of [] = 0
qtype_of (q ∷ qs) = q.qtype

-- `Eval` of plugin_query_log.go, without the text of the entry; a type is ignored by its name there.
unfoldable pub query_log : QueryLog → LogPlugin
query_log plugin ps msg =
    if not plugin.has_client_ip || mem_ℕ (qtype_of msg.question) plugin.ignored_qtypes
    then record { state = ps; failed = false }
    else record {
      state =
          if ps.cache_hit || hides_server ps.return_code
          then record ps { server_name = "-" }
          else ps;
      failed = not plugin.has_logger;
    }
