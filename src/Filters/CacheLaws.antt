-- ===== src/Filters/CacheLaws.antt =====
-- dnscrypt-proxy/plugin_cache.go: what the reader finds of what the writer stored.
use dnscrypt_proxy_fork.Base.{
  ℕ, ◌+◌, ◌*◌, ◌-◌, ◌/◌, ◌^◌, ◌≤◌, ◌<◌, ◌≡◌, refl, ◌∙◌, ◌⊎◌, inl, inr, Bool, true, false,
  Bool-cases, List, [], ◌∷◌, map, some, ltb, if◌then◌else◌, arith,
}
use dnscrypt_proxy_fork.Base.Int.{sub_ℕ}
use dnscrypt_proxy_fork.Text.{Bytes, to_lower}
use dnscrypt_proxy_fork.Dns.{Rr, Question, Msg}
use dnscrypt_proxy_fork.Packet.Ttl.{second, remaining_ttl}
use dnscrypt_proxy_fork.Packet.TtlLaws.{remaining_ttl_lem}
use dnscrypt_proxy_fork.Query.{synth, PluginsState}
use dnscrypt_proxy_fork.Filters.Cache.{
  CachedResponse, SieveCache, bit, is_opt, aged, key_bytes, renew, answer_for, is_cacheable,
  compute_cache_key, serve_cached, read_cache, write_cache, lifetime,
}

bits_injective : (a b a' b' : Bool) → bit a + 2 * bit b ≡ bit a' + 2 * bit b' → (a ≡ a') × (b ≡ b')
bits_injective a b a' b' h = ground arith

-- Two questions of 16-bit types and classes have the same key only if they agree on the type, the
-- class, DNSSEC, the flag that disables checking, and the name up to case.
pub key_bytes-injective :
    (ps ps' : PluginsState) (cd cd' : Bool) (q q' : Question)
    → key_bytes ps cd (q ∷ []) ≡ key_bytes ps' cd' (q' ∷ [])
    → (q.qtype ≡ q'.qtype)
      × (q.class ≡ q'.class)
      × (ps.dnssec ≡ ps'.dnssec)
      × (cd ≡ cd')
      × (to_lower q.name ≡ to_lower q'.name)
unfolding key_bytes
key_bytes-injective ps ps' cd cd' q q' h =
    let (d, c) = bits_injective ps.dnssec cd ps'.dnssec cd' (grind (arith, h)) in
    (grind (arith, h), grind (arith, h), d, c, grind (arith, h))

-- The TTL is the time that is left until `end'`, rounded to the nearest second, and 0 after it.
pub record IsLeft (end' now ttl : ℕ) : Type 0 where
  pub not_more : ttl * second ≤ (end' - now) + second / 2
  pub not_less : end' - now < ttl * second + second / 2

-- The records are those stored, of the TTL; `keeps` tells of which records the TTL is kept.
abbrev pub AreRenewed : (Rr → Bool) → ℕ → List Rr → List Rr → Type 0
AreRenewed keeps ttl [] [] = Unit {0}
AreRenewed keeps ttl (x ∷ xs) (y ∷ ys) =
    (y.name ≡ x.name)
    × (y.class ≡ x.class)
    × (y.data' ≡ x.data')
    × (y.ttl ≡ (if keeps x then x.ttl else ttl))
    × AreRenewed keeps ttl xs ys
AreRenewed keeps ttl _ _ = ⊥

-- The message `m` answers the query with the stored one, and lives until `end'`; the TTL of an OPT
-- record, which is no time, is kept.
pub record IsAnswer (query stored : Msg) (end' now : ℕ) (m : Msg) : Type 0 where
  pub ttl : ℕ
  pub ttl_left : IsLeft end' now ttl
  pub same_id : m.id ≡ query.id
  pub same_question : m.question ≡ query.question
  pub is_response : m.response ≡ true
  pub same_rcode : m.rcode ≡ stored.rcode
  pub answer_renewed : AreRenewed (λ rr. false) ttl stored.answer m.answer
  pub ns_renewed : AreRenewed (λ rr. false) ttl stored.ns m.ns
  pub extra_renewed : AreRenewed (λ rr. is_opt rr.data') ttl stored.extra m.extra

map-AreRenewed : (ttl : ℕ) (rrs : List Rr) → AreRenewed (λ rr. false) ttl rrs (map (aged ttl) rrs)
map-AreRenewed ttl [] = tt
map-AreRenewed ttl (rr ∷ rrs) = (refl, refl, refl, refl, map-AreRenewed ttl rrs)

map-AreRenewed_opt :
    (ttl : ℕ) (rrs : List Rr)
    → AreRenewed
        (λ rr. is_opt rr.data')
        ttl
        rrs
        (map (λ rr. if is_opt rr.data' then rr else aged ttl rr) rrs)
map-AreRenewed_opt ttl [] = tt
map-AreRenewed_opt ttl (rr ∷ rrs) = elim (Bool-cases (is_opt rr.data')) [
  | inl e ↦ simp e (refl, refl, refl, refl, map-AreRenewed_opt ttl rrs)
  | inr e ↦ simp e (refl, refl, refl, refl, map-AreRenewed_opt ttl rrs)
]

renew-IsAnswer :
    (query msg : Msg) (end' now : ℕ)
    → end' < now + (2 ^ 32 - 1) * second
    → IsAnswer query msg end' now
        (renew (answer_for query (record msg { question = [] })) (sub_ℕ end' now))
unfolding renew
renew-IsAnswer query msg end' now h =
    let (a, b) = remaining_ttl_lem end' now h in
    record {
      ttl = remaining_ttl (sub_ℕ end' now);
      ttl_left = record { not_more = a; not_less = b };
      same_id = refl;
      same_question = refl;
      is_response = refl;
      same_rcode = refl;
      answer_renewed = map-AreRenewed _ msg.answer;
      ns_renewed = map-AreRenewed _ msg.ns;
      extra_renewed = map-AreRenewed_opt _ msg.extra;
    }

-- The stored answer that is no longer fresh is kept aside, for 30 seconds from `again` on; the query
-- goes on.
pub record IsKeptStale (query stored : Msg) (again last : ℕ) (before after : PluginsState)
    : Type 0 where
  pub msg : Msg
  pub kept : after ≡ record before { stale = some msg }
  pub is_answer : IsAnswer query stored (again + 30 * second) last msg

-- The stored answer is the response.
pub record IsServed (query stored : Msg) (end' last : ℕ) (before after : PluginsState)
    : Type 0 where
  pub msg : Msg
  pub served : after ≡ record before { synth_response = some msg; action = synth; cache_hit = true }
  pub is_answer : IsAnswer query stored end' last msg

module _ {C H : Type 0} (cache : SieveCache C H) (hash : Bytes → H) where
  read_found :
      (c : C) (now again last : ℕ) (ps : PluginsState) (query : Msg) (v : CachedResponse)
      → (cache.get c (compute_cache_key cache hash ps query)).1 ≡ some v
      → (read_cache cache hash c now again last ps query).1
        ≡ serve_cached cache hash now again last ps query v
  unfolding read_cache
  read_found c now again last ps query v h = rw (read_cache, h)

  -- A response that may be cached and is stored is found, as long as the cache keeps it, by a query of
  -- the same key. Until it expires, at the end of its lifetime from the time it was stored, it answers
  -- the query, with the ID and the question of the query and the time that is left, to the nearest
  -- second, as the TTL of all records but OPT in the additional section; after that it is only kept as
  -- the stale answer, with 30 seconds. Less than
  -- 2^32 - 1 seconds are left of the lifetime, and the clock does not run backwards.
  pub read_cache-write_cache :
      (c : C) (stored_at later now again last : ℕ) (ps ps' : PluginsState) (msg query : Msg)
      → is_cacheable msg ≡ true
      → compute_cache_key cache hash ps msg ≡ compute_cache_key cache hash ps' query
      → ((c : C) (k : H) (v : CachedResponse) → (cache.get (cache.insert c k v) k).1 ≡ some v)
      → again ≤ last
      → stored_at + lifetime cache hash ps msg < last + (2 ^ 32 - 1) * second
      → let c' = (write_cache cache hash c stored_at later ps msg).0 in
        let expiration = stored_at + lifetime cache hash ps msg in
        let after = (read_cache cache hash c' now again last ps' query).1 in
        ((expiration < now) × IsKeptStale query msg again last ps' after)
        ⊎ ((now ≤ expiration) × IsServed query msg expiration last ps' after)
  unfolding write_cache serve_cached
  read_cache-write_cache c stored_at later now again last ps ps' msg query ok key kept forth fits =
      let k = compute_cache_key cache hash ps' query in
      let expiration = stored_at + lifetime cache hash ps msg in
      let v : CachedResponse = record {
        expiration = expiration;
        msg = record msg { question = [] };
      } in
      let c' = (write_cache cache hash c stored_at later ps msg).0 in
      let stored : c' ≡ cache.insert c k v = rw (write_cache, ok, key) in
      let found : (cache.get c' k).1 ≡ some v = rw (stored) (kept c k v) in
      let read = read_found c' now again last ps' query v found in
      elim (Bool-cases (ltb expiration now)) [
        | inl e ↦ inl (
          ground (arith, e),
          record {
            msg = _;
            kept = read ∙ rw (serve_cached, e);
            is_answer = renew-IsAnswer query msg (again + 30 * second) last (omega arith);
          },
        )
        | inr e ↦ inr (
          ground (arith, e),
          record {
            msg = _;
            served = read ∙ rw (serve_cached, e);
            is_answer = renew-IsAnswer query msg expiration last fits;
          },
        )
      ]
