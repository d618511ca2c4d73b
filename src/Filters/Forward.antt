-- ===== src/Filters/Forward.antt =====
-- dnscrypt-proxy/plugin_forward.go: queries for some domains go to servers of their own.
use dnscrypt_proxy_fork.Base.{
  ℕ, zero, suc, ◌+◌, ◌-◌, ◌%◌, Bool, true, false, not, ◌&&◌, ◌||◌, List, [], ◌∷◌, length, drop,
  get_elem?, Option, none, some, String, ltb, ◌==◌, if◌then◌else◌,
}
use dnscrypt_proxy_fork.Text.{Bytes, bytes_eq}
use dnscrypt_proxy_fork.Dns.{Msg, byte_at, validate_response_question}
use dnscrypt_proxy_fork.Query.{synth, forward, PluginsState}

pub data SearchSequenceItemType : Type 0 where
  explicit bootstrap dhcp resolvconf : SearchSequenceItemType

-- `rc_last_fail` is the second of the last failed read of the file, or 0.
pub record SearchSequenceItem : Type 0 where
  pub type : SearchSequenceItemType
  pub servers : List String
  pub resolvconf_path : String
  pub rc_last_fail : ℕ

pub record PluginForwardEntry : Type 0 where
  pub domain : Bytes
  pub sequence : List SearchSequenceItem
  pub via_proxy : Bool

-- What a detector of DHCP servers tells: `is_unknown` for an error with an address.
pub record DhcpStatus : Type 0 where
  pub inconsistency : ℕ
  pub is_unknown : Bool
  pub servers : List String

-- What the choice of a server reads: the bootstrap resolvers, the detectors, the servers of a file and
-- the address of one of them (`none` for errors), a second, and a random draw.
pub record Sources : Type 0 where
  pub bootstrap_resolvers : List String
  pub dhcpdns : List DhcpStatus
  pub parse_resolv_conf : String → Option (List String)
  pub normalize_ip : String → Option String
  pub now : ℕ
  pub draw : ℕ

abbrev pick : ℕ → List String → Option String
pick draw servers = get_elem? servers (draw % length servers)

unfoldable pub dhcp_server : ℕ → List DhcpStatus → Option String
dhcp_server draw [] = none
dhcp_server draw (status ∷ statuses) =
    if (status.is_unknown && ltb 9 status.inconsistency) || length status.servers == 0
    then dhcp_server draw statuses
    else pick draw status.servers

-- A file that could not be read is left alone for 30 seconds.
abbrev is_resting : SearchSequenceItem → ℕ → Bool
is_resting item now = not (item.rc_last_fail == 0) && ltb now (item.rc_last_fail + 30)

abbrev with_fail : ℕ → SearchSequenceItem → SearchSequenceItem
with_fail at item = record item { rc_last_fail = at }

unfoldable pub file_server : Sources → SearchSequenceItem → SearchSequenceItem × Option String
file_server src item = elim (src.parse_resolv_conf item.resolvconf_path) [
  | none ↦ (with_fail src.now item, none)
  | some servers ↦ elim (pick src.draw servers) [
    | none ↦ (with_fail src.now item, none)
    | some nameserver ↦ (with_fail 0 item, src.normalize_ip nameserver)
  ]
]

-- The server of an item, if there is one, and the item as it is left.
unfoldable pub server_as :
    SearchSequenceItemType → Sources → SearchSequenceItem → SearchSequenceItem × Option String
server_as explicit src item = (item, pick src.draw item.servers)
server_as bootstrap src item = (item, pick src.draw src.bootstrap_resolvers)
server_as dhcp src item = (item, dhcp_server src.draw src.dhcpdns)
server_as resolvconf src item =
    if is_resting item src.now then (item, none) else file_server src item

-- Whether the name is the domain or ends in a dot and the domain, or the domain is the root.
unfoldable pub is_forwarded : Bytes → Bytes → Bool
is_forwarded qname domain =
    let extra = length qname - length domain in
    not (ltb (length qname) (length domain))
    && ((bytes_eq (drop extra qname) domain && (extra == 0 || byte_at qname (extra - 1) == 46))
        || bytes_eq domain (46 ∷ []))

-- The first entry for a name.
unfoldable pub entry_for : List PluginForwardEntry → Bytes → Option PluginForwardEntry
entry_for [] qname = none
entry_for (e ∷ es) qname = if is_forwarded qname e.domain then some e else entry_for es qname

-- NXDOMAIN, REFUSED and NOTAUTH: the next server is asked as well.
abbrev pub asks_next : Msg → Bool
asks_next m = m.rcode == 3 || m.rcode == 5 || m.rcode == 9

abbrev pub forward_answer : Msg → Msg → Msg
forward_answer msg r = record r {
  id = msg.id;
  authenticated_data = r.security && r.authenticated_data;
}

abbrev pub answered_with : Msg → PluginsState → PluginsState
answered_with r ps = record ps { synth_response = some r; action = synth; return_code = forward }

abbrev pub without_extra : Msg → Msg
without_extra msg = record msg { extra = [] }

-- What the loop leaves: the items, the state, and whether an error is returned.
pub record Forwarded : Type 0 where
  pub items : List SearchSequenceItem
  pub state : PluginsState
  pub failed : Bool

abbrev with_item : SearchSequenceItem → Forwarded → Forwarded
with_item item r = record r { items = item ∷ r.items }

-- `exchange` stands for `exchangeViaProxy` and `exchangeDirect`: the type of the item, the server and
-- the message to an answer, or `none` for an error.
module _ (equal_name : Bytes → Bytes → Bool) (src : Sources)
    (exchange : SearchSequenceItemType → String → Msg → Option Msg) (msg : Msg) where
  -- The loop over the sequence, with the tries that are left and the error so far.
  unfoldable pub forward_loop : ℕ → List SearchSequenceItem → PluginsState → Bool → Forwarded
  forward_loop tries [] ps failed = record { items = []; state = ps; failed = failed }
  forward_loop tries (item ∷ items) ps failed =
      let (item', server) = server_as item.type src item in
      elim server [
        | none ↦ with_item item' (forward_loop tries items ps failed)
        | some s ↦
            let ps1 : PluginsState = record ps { server_name = s } in
            elim tries [
              | zero ↦ record { items = item' ∷ items; state = ps1; failed = failed }
              | suc left ↦ elim (exchange item.type s (without_extra msg)) [
                | none ↦ with_item item' (forward_loop left items ps1 true)
                | some r ↦
                    let ps2 = answered_with (forward_answer msg r) ps1 in
                    let unanswered = forward_loop left items ps1 false in
                    let next = forward_loop left items ps2 false in
                    if not (validate_response_question equal_name (without_extra msg) r)
                    then with_item item' unanswered
                    else if asks_next r
                    then with_item item' next
                    else record { items = item' ∷ items; state = ps2; failed = false }
              ]
            ]
      ]

-- `Eval` of PluginForward
unfoldable pub eval_forward :
    (Bytes → Bytes → Bool)
    → Sources
    → (Bool → SearchSequenceItemType → String → Msg → Option Msg)
    → List PluginForwardEntry
    → PluginsState
    → Msg
    → Forwarded
eval_forward equal_name src exchange forward_map ps msg = elim (entry_for forward_map ps.qname) [
  | none ↦ record { items = []; state = ps; failed = false }
  | some entry ↦
      forward_loop equal_name src (exchange entry.via_proxy) msg 4 entry.sequence ps false
]
