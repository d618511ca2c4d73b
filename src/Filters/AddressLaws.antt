-- ===== src/Filters/AddressLaws.antt =====
-- dnscrypt-proxy/plugin_block_ip.go and plugin_allow_ip.go: what the addresses of a response decide.
use dnscrypt_proxy_fork.Base.{
  ◌≡◌, Bool, false, ◌||◌, List, [], ◌∷◌, ◌++◌, length, none, some, is_some, arith,
}
use dnscrypt_proxy_fork.Text.{Bytes}
use dnscrypt_proxy_fork.Text.Laws.{cut_prefix-append}
use dnscrypt_proxy_fork.Dns.{a, aaaa, Rr, to_4, v4_in_v6_prefix}
use dnscrypt_proxy_fork.Filters.Addresses.{
  AddressRules, Networks, unmap, address_of, ip_text, reason_for,
}

-- An IPv4 address that a record of IPv6 carries is judged as the IPv4 address.
unmap_mapped : (ip : Bytes) → length ip ≡ 4 → unmap (v4_in_v6_prefix ++ ip) ≡ ip
unfolding unmap to_4
unmap_mapped ip h = ground (arith, h, cut_prefix-append v4_in_v6_prefix ip)

module _ {T N : Type 0} (net : Networks T N) where
  aaaa-mapped :
      (rr : Rr) (ip : Bytes)
      → length ip ≡ 4
      → ip_text net (record rr { data' = aaaa (v4_in_v6_prefix ++ ip) })
        ≡ ip_text net (record rr { data' = a ip })
  unfolding ip_text
  aaaa-mapped rr ip h = rw (ip_text, address_of, unmap_mapped ip h)

  abbrev is_listed : AddressRules T N → Rr → Bool
  is_listed rules rr = elim (ip_text net rr) [
    | none ↦ false
    | some ip ↦ is_some (reason_for net rules ip)
  ]

  abbrev any_listed : AddressRules T N → List Rr → Bool
  any_listed rules [] = false
  any_listed rules (rr ∷ rrs) = is_listed rules rr || any_listed rules rrs
