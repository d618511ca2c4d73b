-- ===== src/Filters/Addresses.antt =====
-- dnscrypt-proxy/plugin_block_ip.go and plugin_allow_ip.go: the rules on the addresses in a response.
use dnscrypt_proxy_fork.Base.{
  ℕ, Bool, true, false, not, ◌&&◌, ◌||◌, List, [], ◌∷◌, ◌++◌, length, Option, none, some, ltb, ◌==◌,
  if◌then◌else◌,
}
use dnscrypt_proxy_fork.Text.{Bytes, bytes_eq}
use dnscrypt_proxy_fork.Dns.{Rdata, a, aaaa, Rr, class_inet, to_4, byte_at}
use dnscrypt_proxy_fork.Query.{Plugin}
use dnscrypt_proxy_fork.Filters.BlockName.{blocked_state}

-- Single addresses, a tree of prefixes of texts, and networks.
pub record AddressRules (T N : Type 0) : Type 0 where
  pub ips : List Bytes
  pub prefixes : T
  pub networks : N
  pub has_logger : Bool

-- What the code asks of the libraries of trees, networks and addresses: `match_ip` is the text of the
-- route, and `parse_ip` is `net.ParseIP`.
pub record Networks (T N : Type 0) : Type 0 where
  pub longest_prefix : T → Bytes → Option Bytes
  pub size : N → ℕ
  pub match_ip : N → Bytes → Option Bytes
  pub parse_ip : Bytes → Option Bytes
  pub to_text : Bytes → Bytes

-- `Unmap`: an IPv4 address that is written as one of IPv6 becomes an IPv4 address.
unfoldable pub unmap : Bytes → Bytes
unmap ip = elim (to_4 ip) [ none ↦ ip | some b ↦ b ]

abbrev pub has_ip : List Bytes → Bytes → Bool
has_ip [] ip = false
has_ip (i ∷ is) ip = bytes_eq i ip || has_ip is ip

-- 46 is the dot and 58 the colon.
abbrev ends_part : Bytes → Bytes → Bool
ends_part match' ip =
    length match' == length ip
    || byte_at ip (length match') == 46
    || byte_at ip (length match') == 58

-- `whole` is what a rule that is used up to its end gives, and `rest` what follows without one.
abbrev prefix_or : Option Bytes → Bytes → Option Bytes → Option Bytes
prefix_or none ip rest = rest
prefix_or (some match') ip rest = if ends_part match' ip then some (match' ++ 42 ∷ []) else rest

module _ {T N : Type 0} (net : Networks T N) where
  abbrev pub address_of : Rdata → Option Bytes
  address_of (a ip) = some (net.to_text ip)
  address_of (aaaa ip) = some (net.to_text (unmap ip))
  address_of _ = none

  -- The text of the address of a record that has one.
  unfoldable pub ip_text : Rr → Option Bytes
  ip_text rr = if rr.class == class_inet then address_of rr.data' else none

  unfoldable pub in_networks : N → Bytes → Option Bytes
  in_networks networks ip =
      if ltb 0 (net.size networks)
      then elim (net.parse_ip ip) [ none ↦ none | some i ↦ net.match_ip networks i ]
      else none

  -- The reason that a rule lists an address, if one does.
  unfoldable pub reason_for : AddressRules T N → Bytes → Option Bytes
  reason_for rules ip =
      if has_ip rules.ips ip
      then some ip
      else prefix_or (net.longest_prefix rules.prefixes ip) ip (in_networks rules.networks ip)

  -- The loop over the answers: the reason and the text of the first address that is listed.
  unfoldable pub first_listed : AddressRules T N → List Rr → Option (Bytes × Bytes)
  first_listed rules [] = none
  first_listed rules (rr ∷ rrs) =
      let rest = first_listed rules rrs in
      elim (ip_text rr) [
        | none ↦ rest
        | some ip ↦ elim (reason_for rules ip) [ none ↦ rest | some reason ↦ some (reason, ip) ]
      ]

  -- `has_client_ip` tells whether the client has an address, and `write_log` whether the entry for the
  -- name asked for, the reason and the address is written.
  module _ (has_client_ip : Bool) (write_log : Bytes → Bytes → Bytes → Bool) where
    unfoldable pub log_fails : AddressRules T N → Bytes → Bytes → Bytes → Bool
    log_fails rules qname reason ip =
        rules.has_logger && has_client_ip && not (write_log qname reason ip)

    -- `Eval` of PluginBlockIP
    unfoldable pub block_ip : AddressRules T N → Plugin
    block_ip rules ps msg =
        if ps.whitelisted
        then record { state = ps; msg = msg; failed = false }
        else elim (first_listed rules msg.answer) [
          | none ↦ record { state = ps; msg = msg; failed = false }
          | some (reason, ip) ↦ record {
            state = blocked_state ps;
            msg = msg;
            failed = log_fails rules ps.qname reason ip;
          }
        ]

    -- `Eval` of PluginAllowedIP
    unfoldable pub allow_ip : AddressRules T N → Plugin
    allow_ip rules ps msg = elim (first_listed rules msg.answer) [
      | none ↦ record { state = ps; msg = msg; failed = false }
      | some (reason, ip) ↦ record {
        state = record ps { whitelisted = true };
        msg = msg;
        failed = log_fails rules ps.qname reason ip;
      }
    ]
