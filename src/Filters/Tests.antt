-- ===== src/Filters/Tests.antt =====
-- A response with an alias that is blocked, and a response that is cached.
use dnscrypt_proxy_fork.Base.{
  ◌<◌, ◌≤◌, ◌⊎◌, arith, ℕ, ◌+◌, ◌≡◌, refl, Bool, true, false, String, List, [], ◌∷◌, take, Option,
  none, some, if◌then◌else◌,
}
use dnscrypt_proxy_fork.Packet.Ttl.{get_min_ttl, least_ttl}
use dnscrypt_proxy_fork.Text.{Bytes, bytes_eq, has_suffix, cut_suffix, to_lower}
use dnscrypt_proxy_fork.Dns.{Rdata, cname, Rr, Question, Msg, normalize_qname, any_rune}
use dnscrypt_proxy_fork.Weekly.{WeeklyRanges}
use dnscrypt_proxy_fork.Patterns.{Trie, new_pattern_matcher}
use dnscrypt_proxy_fork.Query.{udp, PluginsState, Settings, new_plugins_state}
use dnscrypt_proxy_fork.Filters.Forward.{
  SearchSequenceItemType, explicit, PluginForwardEntry, Sources, eval_forward,
}
use dnscrypt_proxy_fork.Filters.ForwardLaws.{AnswersMsg, eval_forward-AnswersMsg}
use dnscrypt_proxy_fork.Filters.Addresses.{AddressRules, Networks}
use dnscrypt_proxy_fork.Filters.BlockName.{
  BlockedNames, aliases_limit, alias_of, blocked_state, block_name_response,
}
use dnscrypt_proxy_fork.Filters.BlockNameLaws.{targets, any_blocked, block_name_response_lem}
use dnscrypt_proxy_fork.Filters.Cache.{
  CachedResponse, SieveCache, key_bytes, lifetime, is_opt, read_cache, write_cache,
}
use dnscrypt_proxy_fork.Filters.CacheLaws.{
  IsKeptStale, IsServed, key_bytes-injective, read_cache-write_cache,
}

-- "a.b"
abbrev name : Bytes
name = 97 ∷ 46 ∷ 98 ∷ []

-- "A.b"
abbrev same_name : Bytes
same_name = 65 ∷ 46 ∷ 98 ∷ []

abbrev question : Bytes → Question
question asked = record { name = asked; qtype = 1; class = 1 }

abbrev alias : Rr
alias = record { name = name; class = 1; ttl = 300; data' = cname same_name }

abbrev message : Bytes → List Rr → Msg
message asked answer = record {
  id = 7;
  opcode = 0;
  response = false;
  rcode = 0;
  truncated = false;
  recursion_desired = true;
  recursion_available = true;
  authenticated_data = false;
  checking_disabled = false;
  security = false;
  udp_size = 0;
  question = question asked ∷ [];
  answer = answer;
  ns = [];
  extra = [];
  pseudo = [];
}

abbrev settings : Settings
settings = record {
  cache_neg_min_ttl = 60;
  cache_neg_max_ttl = 600;
  cache_min_ttl = 60;
  cache_max_ttl = 3600;
  reject_ttl = 10;
  timeout = 5_000_000_000;
}

abbrev state : PluginsState
state = new_plugins_state settings udp udp 1

abbrev no_trie : Trie ℕ (Option WeeklyRanges)
no_trie = record { empty = 0; insert = λ t k v. t; longest_prefix = λ t s. none }

abbrev no_globs : Bytes → Bytes → Option Bool
no_globs glob asked = some false

abbrev rejects : Bytes → Bytes → Bool
rejects asked reason = true

abbrev names : BlockedNames ℕ
names = record {
  pattern_matcher = record (new_pattern_matcher no_globs no_trie) { exacts = (name, none) ∷ [] };
  has_logger = false;
}

block_name_response_lem_example :
    block_name_response no_globs no_trie 0 0 0 true rejects
      (some names)
      state
      (message name (alias ∷ []))
    ≡ record {
      state =
          if any_blocked no_globs no_trie 0 0 0 true rejects names
            (take aliases_limit (targets (alias ∷ [])))
          then blocked_state state
          else state;
      msg = message name (alias ∷ []);
      failed = false;
    }
unfolding new_plugins_state alias_of normalize_qname any_rune bytes_eq has_suffix cut_suffix
    to_lower
block_name_response_lem_example =
    block_name_response_lem no_globs no_trie 0 0 0 true rejects names state
      (message name (alias ∷ [])) refl refl (refl, tt)

-- A cache of one entry.
abbrev one_entry : SieveCache (Option CachedResponse) Bytes
one_entry = record { get = λ c k. (c, c); insert = λ c k v. some v }

abbrev same : Bytes → Bytes
same key = key

read_cache-write_cache_example :
    let msg = message name (alias ∷ []) in
    let query = message same_name [] in
    let c = (write_cache one_entry same none 100 101 state msg).0 in
    let expiration = 100 + lifetime one_entry same state msg in
    let after = (read_cache one_entry same c 200 201 202 state query).1 in
    ((expiration < 200) × IsKeptStale query msg 201 202 state after)
    ⊎ ((200 ≤ expiration) × IsServed query msg expiration 202 state after)
unfolding key_bytes to_lower get_min_ttl least_ttl is_opt new_plugins_state
read_cache-write_cache_example =
    read_cache-write_cache one_entry same none 100 101 200 201 202 state state
      (message name (alias ∷ [])) (message same_name []) refl refl (λ c k v. refl) (omega arith)
      (omega arith)

key_bytes-injective_example :
    let q = question name in
    let q' = question same_name in
    (q.qtype ≡ q'.qtype)
    × (q.class ≡ q'.class)
    × (state.dnssec ≡ state.dnssec)
    × (true ≡ true)
    × (to_lower q.name ≡ to_lower q'.name)
unfolding key_bytes to_lower
key_bytes-injective_example =
    key_bytes-injective state state true true (question name) (question same_name) refl

-- "A.b" is forwarded to one server, which answers.
abbrev forward_map : List PluginForwardEntry
forward_map =
    record {
      domain = name;
      sequence =
          record {
            type = explicit;
            servers = "192.0.2.1:53" ∷ [];
            resolvconf_path = "";
            rc_last_fail = 0;
          }
          ∷ [];
      via_proxy = false;
    }
    ∷ []

abbrev no_sources : Sources
no_sources = record {
  bootstrap_resolvers = [];
  dhcpdns = [];
  parse_resolv_conf = λ path. none;
  normalize_ip = λ ip. none;
  now = 0;
  draw = 0;
}

abbrev echo : Bool → SearchSequenceItemType → String → Msg → Option Msg
echo via_proxy type server msg = some msg

abbrev forwarded_state : PluginsState
forwarded_state = record state { qname = name }

eval_forward-AnswersMsg_example :
    AnswersMsg bytes_eq
      (message name [])
      (eval_forward bytes_eq no_sources echo forward_map forwarded_state
        (message name [])).state.synth_response
unfolding new_plugins_state
eval_forward-AnswersMsg_example =
    eval_forward-AnswersMsg bytes_eq no_sources echo forward_map forwarded_state (message name [])
      refl

-- Networks and prefixes that match nothing, and addresses that are their own text.
abbrev no_networks : Networks ℕ ℕ
no_networks = record {
  longest_prefix = λ t ip. none;
  size = λ n. n;
  match_ip = λ n ip. none;
  parse_ip = λ ip. some ip;
  to_text = λ ip. ip;
}

abbrev rules : List Bytes → AddressRules ℕ ℕ
rules ips = record { ips = ips; prefixes = 0; networks = 0; has_logger = true }

-- 192.0.2.1
abbrev address : Bytes
address = 192 ∷ 0 ∷ 2 ∷ 1 ∷ []

abbrev addressed : Msg
addressed =
    message name (record { name = name; class = 1; ttl = 300; data' = Rdata.a address } ∷ [])

abbrev accepts : Bytes → Bytes → Bytes → Bool
accepts asked reason ip = true
