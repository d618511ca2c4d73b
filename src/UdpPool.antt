-- ===== src/UdpPool.antt =====
-- dnscrypt-proxy/udp_conn_pool.go: the pool of UDP sockets, by the address of the server. `C` is the
-- type of sockets of the net package; closing them is an effect, so that each operation also returns
-- the sockets that it closed, in order. A method holds the lock of one shard at a time, and every
-- part under one lock is one step.
use dnscrypt_proxy_fork.Base.{
  ℕ, suc, ◌+◌, ◌-◌, ◌*◌, ◌%◌, ◌^◌, Bool, true, false, not, List, [], ◌∷◌, ◌++◌, map, length,
  get_elem?, set, replicate, keep_if, Option, none, some, String, codes, ltb, leb, if◌then◌else◌,
}
use dnscrypt_proxy_fork.Base.Dict.{Dict, lookup, insert}
pub mod Bounds
pub mod Reuse
pub mod Conservation
mod Tests

abbrev pub udp_pool_max_conns_per_addr : ℕ
udp_pool_max_conns_per_addr = 4

abbrev pub udp_pool_max_idle_time : ℕ
udp_pool_max_idle_time = 30_000_000_000

abbrev pub udp_pool_shards : ℕ
udp_pool_shards = 64

pub record PooledConn (C : Type 0) : Type 0 where
  pub conn : C
  pub last_used : ℕ

abbrev pub PoolShard : Type 0 → Type 0
PoolShard C = Dict (List (PooledConn C))

pub record UdpConnPool (C : Type 0) : Type 0 where
  pub shards : List (PoolShard C)
  pub closed : Bool

unfoldable pub new_udp_conn_pool : (C : Type 0) → UdpConnPool C
new_udp_conn_pool C = record { shards = replicate udp_pool_shards []; closed = false }

-- The loop of `getShard`, on the bytes of the address.
pub shard_hash : List ℕ → ℕ → ℕ
shard_hash [] h = h
shard_hash (c ∷ cs) h = shard_hash cs ((h * 31 + c) % 2 ^ 32)

-- The index of the shard.
unfoldable pub get_shard : String → ℕ
unfolding shard_hash
get_shard addr = shard_hash (codes addr) 0 % udp_pool_shards

-- The last socket, and those before it.
abbrev pub split_last {ℓ} : {A : Type ℓ} → A → List A → List A × A
split_last x [] = ([], x)
split_last x (y ∷ ys) = let (before, last) = split_last y ys in (x ∷ before, last)

module _ {C : Type 0} where
  abbrev pub shard_at : List (PoolShard C) → ℕ → PoolShard C
  shard_at shards i = elim (get_elem? shards i) [ none ↦ [] | some shard ↦ shard ]

  abbrev pub conns_of : Option (List (PooledConn C)) → List (PooledConn C)
  conns_of none = []
  conns_of (some conns) = conns

  abbrev pub conns_at : UdpConnPool C → String → List (PooledConn C)
  conns_at p addr = conns_of (lookup addr (shard_at p.shards (get_shard addr)))

  abbrev pub store : UdpConnPool C → String → List (PooledConn C) → UdpConnPool C
  store p addr conns =
      let i = get_shard addr in
      record p { shards = set p.shards i (insert addr conns (shard_at p.shards i)) }

  -- What `Get` does with the sockets of the address; `dialed` is the result of `net.DialUDP`.
  abbrev pub reuse :
      UdpConnPool C → String → List (PooledConn C) → Option C → UdpConnPool C × Option C × Bool
  reuse p addr [] dialed = (p, dialed, false)
  reuse p addr (pc ∷ conns) dialed =
      let (before, last) = split_last pc conns in (store p addr before, some last.conn, true)

  unfoldable pub get : UdpConnPool C → String → Option C → UdpConnPool C × Option C × Bool
  get p addr dialed = reuse p addr (conns_at p addr) dialed

  -- The part of `Put` under the lock of the shard.
  unfoldable pub put_locked : UdpConnPool C → String → C → ℕ → UdpConnPool C × List C
  put_locked p addr conn now =
      let conns = conns_at p addr in
      if p.closed
      then (p, conn ∷ [])
      else if leb udp_pool_max_conns_per_addr (length conns)
      then (p, conn ∷ [])
      else (store p addr (conns ++ record { conn = conn; last_used = now } ∷ []), [])

  unfoldable pub put : UdpConnPool C → String → Option C → ℕ → UdpConnPool C × List C
  put p addr none now = (p, [])
  put p addr (some conn) now = if p.closed then (p, conn ∷ []) else put_locked p addr conn now

  abbrev pub is_stale : ℕ → PooledConn C → Bool
  is_stale now pc = ltb udp_pool_max_idle_time (now - pc.last_used)

  abbrev pub conns_only : List (PooledConn C) → List C
  conns_only pcs = map (λ pc. pc.conn) pcs

  abbrev pub keep_entry : String → List (PooledConn C) → PoolShard C → PoolShard C
  keep_entry addr [] shard = shard
  keep_entry addr (pc ∷ active) shard = (addr, pc ∷ active) ∷ shard

  -- One shard of `cleanupStale`: an address that has no socket left is removed.
  unfoldable pub cleanup_shard : ℕ → PoolShard C → PoolShard C × List C
  cleanup_shard now [] = ([], [])
  cleanup_shard now ((addr, conns) ∷ shard) =
      let (rest, closed) = cleanup_shard now shard in
      let stale = conns_only (keep_if (is_stale now) conns) in
      (keep_entry addr (keep_if (λ pc. not (is_stale now pc)) conns) rest, stale ++ closed)

  unfoldable pub cleanup_shards : ℕ → List (PoolShard C) → List (PoolShard C) × List C
  cleanup_shards now [] = ([], [])
  cleanup_shards now (shard ∷ shards) =
      let (shard', closed) = cleanup_shard now shard in
      let (shards', closed') = cleanup_shards now shards in (shard' ∷ shards', closed ++ closed')

  unfoldable pub cleanup_stale : UdpConnPool C → ℕ → UdpConnPool C × List C
  cleanup_stale p now =
      let (shards, closed) = cleanup_shards now p.shards in (record p { shards = shards }, closed)

  -- One shard of `Close`.
  unfoldable pub drain_shard : PoolShard C → List C
  drain_shard [] = []
  drain_shard ((addr, conns) ∷ shard) = conns_only conns ++ drain_shard shard

  unfoldable pub drain_shards : List (PoolShard C) → List C
  drain_shards [] = []
  drain_shards (shard ∷ shards) = drain_shard shard ++ drain_shards shards

  -- The shard that is left.
  abbrev pub no_conns : PoolShard C
  no_conns = []

  unfoldable pub close : UdpConnPool C → UdpConnPool C × List C
  close p =
      (record { shards = map (λ shard. no_conns) p.shards; closed = true }, drain_shards p.shards)

  unfoldable pub shard_conns : PoolShard C → ℕ
  shard_conns [] = 0
  shard_conns ((addr, conns) ∷ shard) = length conns + shard_conns shard

  unfoldable pub total_conns : List (PoolShard C) → ℕ
  total_conns [] = 0
  total_conns (shard ∷ shards) = shard_conns shard + total_conns shards

  unfoldable pub addr_count : List (PoolShard C) → ℕ
  addr_count [] = 0
  addr_count (shard ∷ shards) = length shard + addr_count shards

  pub stats : UdpConnPool C → ℕ × ℕ
  stats p = (total_conns p.shards, addr_count p.shards)
