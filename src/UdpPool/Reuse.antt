-- ===== src/UdpPool/Reuse.antt =====
-- A socket that is put back is the next one handed out, and none is lost.
use dnscrypt_proxy_fork.Base.{
  ℕ, zero, suc, ◌<◌, ◌≡◌, refl, ap, ◌∙◌, true, false, List, [], ◌∷◌, ◌++◌, length, set, Option,
  some, String, leb, arith, if_false, length-set,
}
use dnscrypt_proxy_fork.Base.Dict.{lookup, lookup-insert_self}
use dnscrypt_proxy_fork.UdpPool.{
  PooledConn, PoolShard, UdpConnPool, udp_pool_max_conns_per_addr, get_shard, split_last, shard_at,
  conns_of, conns_at, store, reuse, get, put,
}
use dnscrypt_proxy_fork.UdpPool.Bounds.{IsBounded, put_locked_kept}

pub get_shard-lt : (addr : String) → get_shard addr < 64
unfolding get_shard
get_shard-lt addr = omega arith

module _ {C : Type 0} where
  shard_at-set :
      (ss : List (PoolShard C)) (i : ℕ) (s : PoolShard C)
      → i < length ss
      → shard_at (set ss i s) i ≡ s
  shard_at-set [] i s h = absurd (omega arith)
  shard_at-set (x ∷ ss) zero s h = refl
  shard_at-set (x ∷ ss) (suc i) s h = shard_at-set ss i s (omega arith)

  -- What is stored under an address is found under it.
  conns_at-store :
      (p : UdpConnPool C) (addr : String) (conns : List (PooledConn C))
      → length p.shards ≡ 64
      → conns_at (store p addr conns) addr ≡ conns
  conns_at-store p addr conns h =
      ap (λ s. conns_of (lookup addr s))
        (shard_at-set p.shards (get_shard addr) _ (omega (arith, h, get_shard-lt addr)))
      ∙ ap conns_of (lookup-insert_self addr conns _)

  reuse-append :
      (p : UdpConnPool C) (addr : String) (xs : List (PooledConn C)) (x : PooledConn C)
      (dialed : Option C)
      → reuse p addr (xs ++ x ∷ []) dialed ≡ (store p addr xs, some x.conn, true)
  reuse-append p addr [] x dialed = refl
  reuse-append p addr (y ∷ xs) x dialed =
      ap (λ q. (store p addr q.0, some q.1.conn, true)) (last y xs)
    where
      last :
          (z : PooledConn C) (zs : List (PooledConn C)) → split_last z (zs ++ x ∷ []) ≡ (z ∷ zs, x)
      last z [] = refl
      last z (w ∷ zs) = ap (λ q. (z ∷ q.0, q.1)) (last w zs)

  get-stored :
      (p : UdpConnPool C) (addr : String) (xs : List (PooledConn C)) (x : PooledConn C)
      (dialed : Option C)
      → length p.shards ≡ 64
      → let p1 = store p addr (xs ++ x ∷ []) in
        get p1 addr dialed ≡ (store p1 addr xs, some x.conn, true)
  unfolding get
  get-stored p addr xs x dialed h =
      let p1 = store p addr (xs ++ x ∷ []) in
      ap (λ c. reuse p1 addr c dialed) (conns_at-store p addr (xs ++ x ∷ []) h)
      ∙ reuse-append p1 addr xs x dialed

  -- In an open pool, a socket put back for an address with room is closed by nobody, and is the one
  -- that the next call for this address gets, as a reused one, the others staying as they were.
  pub get-put :
      (p : UdpConnPool C) (addr : String) (conn : C) (now : ℕ) (dialed : Option C)
      → IsBounded p
      → p.closed ≡ false
      → length (conns_at p addr) < udp_pool_max_conns_per_addr
      → let r = put p addr (some conn) now in
        let g = get r.0 addr dialed in
        (r.1 ≡ []) × (g.1 ≡ some conn) × (g.2 ≡ true) × (conns_at g.0 addr ≡ conns_at p addr)
  unfolding put
  get-put p addr conn now dialed v e h =
      let pc : PooledConn C = record { conn = conn; last_used = now } in
      let room : leb udp_pool_max_conns_per_addr (length (conns_at p addr)) ≡ false =
        ground arith in
      let p1 = store p addr (conns_at p addr ++ pc ∷ []) in
      let kept = if_false _ _ e ∙ put_locked_kept p addr conn now e room in
      let got =
        ap (λ q. get q.0 addr dialed) kept
        ∙ get-stored p addr (conns_at p addr) pc dialed v.shard_count in
      let count = length-set p.shards (get_shard addr) _ ∙ v.shard_count in
      (
        ap (λ q. q.1) kept,
        ap (λ q. q.1) got,
        ap (λ q. q.2) got,
        ap (λ q. conns_at q.0 addr) got ∙ conns_at-store p1 addr (conns_at p addr) count,
      )
