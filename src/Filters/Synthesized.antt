-- ===== src/Filters/Synthesized.antt =====
-- dnscrypt-proxy/plugin_block_unqualified.go and plugin_firefox.go: the plugins that answer a query
-- for an address with the code NXDOMAIN by its name alone.
use dnscrypt_proxy_fork.Base.{Bool, true, false, not, ◌&&◌, ◌||◌, [], ◌∷◌, some, ◌==◌}
use dnscrypt_proxy_fork.Text.{Bytes, bytes_eq, has_suffix, contains}
use dnscrypt_proxy_fork.Dns.{
  Question, Msg, type_a, type_aaaa, class_inet, empty_response_from_message,
}
use dnscrypt_proxy_fork.Packet.Ttl.{rcode_name_error}
use dnscrypt_proxy_fork.Query.{synth, synthesized, Proto, local_doh, Plugin}

-- "use-application-dns.net"
abbrev canary_domain : Bytes
canary_domain =
    117 ∷ 115 ∷ 101 ∷ 45 ∷ 97 ∷ 112 ∷ 112 ∷ 108 ∷ 105 ∷ 99 ∷ 97 ∷ 116 ∷ 105 ∷ 111 ∷ 110 ∷ 45 ∷ 100
    ∷ 110 ∷ 115 ∷ 46 ∷ 110 ∷ 101 ∷ 116 ∷ []

abbrev pub asks_address : Question → Bool
asks_address q = q.class == class_inet && (q.qtype == type_a || q.qtype == type_aaaa)

-- The first question; the code is not called on a message without one.
abbrev pub first_asks_address : Msg → Bool
first_asks_address msg = elim msg.question [ [] ↦ false | q ∷ qs ↦ asks_address q ]

-- What both plugins do with a query that is theirs, and with another.
unfoldable pub deny_if : Bool → Plugin
deny_if false ps msg = record { state = ps; msg = msg; failed = false }
deny_if true ps msg = record {
  state = record ps {
    synth_response = some (record (empty_response_from_message msg) { rcode = rcode_name_error });
    action = synth;
    return_code = synthesized;
  };
  msg = msg;
  failed = false;
}

unfoldable pub is_unqualified : Bytes → Bool
is_unqualified qname = not (contains qname (46 ∷ []))

-- `Eval` of PluginBlockUnqualified
unfoldable pub block_unqualified : Plugin
block_unqualified ps msg = deny_if (first_asks_address msg && is_unqualified ps.qname) ps msg

unfoldable pub is_canary : Bytes → Bool
is_canary qname = bytes_eq qname canary_domain || has_suffix qname (46 ∷ canary_domain)

abbrev is_local_doh : Proto → Bool
is_local_doh local_doh = true
is_local_doh _ = false

-- `Eval` of PluginFirefox
unfoldable pub firefox : Plugin
firefox ps msg =
    deny_if (not (is_local_doh ps.client_proto) && first_asks_address msg && is_canary ps.qname) ps
      msg
