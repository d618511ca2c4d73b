-- ===== src/UdpPool/Tests.antt =====
-- A pool with one socket for one address; sockets are numbers.
use dnscrypt_proxy_fork.Base.{
  ℕ, zero, suc, ◌+◌, ◌≡◌, refl, true, false, [], length, replicate, none, some, String, arith, All,
  if◌then◌else◌,
}
use dnscrypt_proxy_fork.UdpPool.{
  UdpConnPool, get, put, cleanup_stale, close, conns_at, total_conns, get_shard,
}
use dnscrypt_proxy_fork.UdpPool.Bounds.{IsBounded, IsWithin, pool-IsBounded}
use dnscrypt_proxy_fork.UdpPool.Reuse.{get-put}
use dnscrypt_proxy_fork.Base.Dict.{lookup}
use dnscrypt_proxy_fork.UdpPool.Conservation.{pool_conserves}

abbrev address : String
address = "192.0.2.1:443"

abbrev pool : UdpConnPool ℕ
pool = record { shards = replicate 64 []; closed = false }

pool_holds : IsBounded pool
pool_holds = record { shard_count = refl; within = all 64 }
  where
    all : (n : ℕ) → All (All (IsWithin {C = ℕ})) (replicate n [])
    all zero = tt
    all (suc n) = (tt, all n)

-- The pool after a first socket has been put back.
abbrev used : UdpConnPool ℕ
used = (put pool address (some 7) 5).0

used_holds : IsBounded used
used_holds = (pool-IsBounded pool address (some 7) none 5 pool_holds).1

pool-IsBounded_example :
    IsBounded (get used address none).0
    × IsBounded (put used address (some 8) 9).0
    × IsBounded (cleanup_stale used 9).0
    × IsBounded (close used).0
pool-IsBounded_example = pool-IsBounded used address (some 8) none 9 used_holds

get-put_example :
    let r = put pool address (some 7) 5 in
    let g = get r.0 address none in
    (r.1 ≡ []) × (g.1 ≡ some 7) × (g.2 ≡ true) × (conns_at g.0 address ≡ conns_at pool address)
unfolding get_shard lookup
get-put_example = get-put pool address 7 5 none pool_holds refl (omega arith)

pool_conserves_example :
    let stored = put used address (some 8) 9 in
    let taken = get used address none in
    let cleaned = cleanup_stale used 9 in
    (total_conns stored.0.shards + length stored.1 ≡ total_conns used.shards + 1)
    × (total_conns taken.0.shards + (if taken.2 then 1 else 0) ≡ total_conns used.shards)
    × (total_conns cleaned.0.shards + length cleaned.1 ≡ total_conns used.shards)
    × (length (close used).1 ≡ total_conns used.shards)
    × (total_conns (close used).0.shards ≡ 0)
pool_conserves_example = pool_conserves used address 8 none 9 used_holds
