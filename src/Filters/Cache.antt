-- ===== src/Filters/Cache.antt =====
-- dnscrypt-proxy/plugin_cache.go: the cache of responses, with its reader and its writer. Times are in
-- nanoseconds.
use dnscrypt_proxy_fork.Base.{
  ℕ, ◌+◌, ◌*◌, ◌/◌, ◌%◌, Bool, true, false, not, ◌&&◌, ◌||◌, List, [], ◌∷◌, map, Option, none, some,
  ltb, ◌==◌, if◌then◌else◌,
}
use dnscrypt_proxy_fork.Base.Int.{ℤ, sub_ℕ}
use dnscrypt_proxy_fork.Text.{Bytes, to_lower}
use dnscrypt_proxy_fork.Dns.{Rdata, other, Rr, Question, Msg}
use dnscrypt_proxy_fork.Packet.Ttl.{
  RatedRr, RatedMsg, get_min_ttl, remaining_ttl, second, rcode_success, rcode_name_error,
}
use dnscrypt_proxy_fork.Query.{synth, PluginsState}

abbrev pub stale_response_ttl : ℕ
stale_response_ttl = 30 * second

pub record CachedResponse : Type 0 where
  pub expiration : ℕ
  pub msg : Msg

-- The cache of github.com/jedisct1/go-sieve-cache with keys in `H`; a read may mark the entry.
pub record SieveCache (C H : Type 0) : Type 0 where
  pub get : C → H → C × Option CachedResponse
  pub insert : C → H → CachedResponse → C

abbrev pub bit : Bool → ℕ
bit false = 0
bit true = 1

-- What the key of the cache is the hash of; a message has a question here.
unfoldable pub key_bytes : PluginsState → Bool → List Question → Bytes
key_bytes ps checking_disabled [] = []
key_bytes ps checking_disabled (q ∷ qs) =
    (q.qtype % 256)
    ∷ (q.qtype / 256)
    ∷ (q.class % 256)
    ∷ (q.class / 256)
    ∷ (bit ps.dnssec + 2 * bit checking_disabled)
    ∷ to_lower q.name

unfoldable pub is_opt : Rdata → Bool
is_opt (other code data') = code == 41
is_opt _ = false

abbrev pub aged : ℕ → Rr → Rr
aged ttl rr = record rr { ttl = ttl }

-- `updateTTL` of dnsutils.go on a whole message; `until` is the time that is left.
unfoldable pub renew : Msg → ℤ → Msg
renew m until =
    let ttl = remaining_ttl until in
    record m {
      answer = map (aged ttl) m.answer;
      ns = map (aged ttl) m.ns;
      extra = map (λ rr. if is_opt rr.data' then rr else aged ttl rr) m.extra;
    }

abbrev rated_rr : Rr → RatedRr
rated_rr rr = record { ttl = rr.ttl; is_opt = is_opt rr.data' }

-- The message as `getMinTTL` reads it.
abbrev pub rated_msg : Msg → RatedMsg
rated_msg m = record {
  rcode = m.rcode;
  answer = map rated_rr m.answer;
  ns = map rated_rr m.ns;
  extra = map rated_rr m.extra;
}

-- The cached message as an answer to a query.
abbrev pub answer_for : Msg → Msg → Msg
answer_for query m = record m { id = query.id; response = true; question = query.question }

-- NOERROR, NXDOMAIN or NOTAUTH, and not truncated.
abbrev pub is_cacheable : Msg → Bool
is_cacheable m =
    (m.rcode == rcode_success || m.rcode == rcode_name_error || m.rcode == 9) && not m.truncated

module _ {C H : Type 0} (cache : SieveCache C H) (hash : Bytes → H) where
  abbrev pub compute_cache_key : PluginsState → Msg → H
  compute_cache_key ps msg = hash (key_bytes ps msg.checking_disabled msg.question)

  -- What the reader does with an entry. The readings of the clock are, in their order, `now`, `again`
  -- for a stale entry only, and `later` in `updateTTL`.
  unfoldable pub serve_cached : ℕ → ℕ → ℕ → PluginsState → Msg → CachedResponse → PluginsState
  serve_cached now again later ps msg cached =
      let answer = answer_for msg cached.msg in
      if ltb cached.expiration now
      then record ps { stale = some (renew answer (sub_ℕ (again + stale_response_ttl) later)) }
      else record ps {
        synth_response = some (renew answer (sub_ℕ cached.expiration later));
        action = synth;
        cache_hit = true;
      }

  -- `Eval` of PluginCache, which never fails.
  unfoldable pub read_cache : C → ℕ → ℕ → ℕ → PluginsState → Msg → C × PluginsState
  read_cache c now again later ps msg =
      let (c', found) = cache.get c (compute_cache_key ps msg) in
      elim found [
        | none ↦ (c', ps)
        | some cached ↦ (c', serve_cached now again later ps msg cached)
      ]

  abbrev pub lifetime : PluginsState → Msg → ℕ
  lifetime ps msg =
      get_min_ttl (rated_msg msg) ps.cache_min_ttl ps.cache_max_ttl ps.cache_neg_min_ttl
        ps.cache_neg_max_ttl

  -- `Eval` of PluginCacheResponse, which never fails.
  unfoldable pub write_cache : C → ℕ → ℕ → PluginsState → Msg → C × Msg
  write_cache c now later ps msg =
      let expiration = now + lifetime ps msg in
      if is_cacheable msg
      then (
        cache.insert c (compute_cache_key ps msg)
            (record { expiration = expiration; msg = record msg { question = [] } }),
        renew msg (sub_ℕ expiration later),
      )
      else (c, msg)
