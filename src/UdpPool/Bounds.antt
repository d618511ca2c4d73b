-- ===== src/UdpPool/Bounds.antt =====
-- No address ever has more sockets than the limit, and no socket is lost: each is pooled or closed.
use dnscrypt_proxy_fork.Base.{
  ℕ, zero, suc, ◌≤◌, ◌≡◌, refl, ap, sym, ◌∙◌, inl, inr, false, not, List, [], ◌∷◌, ◌++◌, map,
  length, set, Option, none, some, String, str_eq, leb, arith, subst, if_false, Bool-cases, All,
  length-append, length-map, length-set, length-keep_if-le,
}
use dnscrypt_proxy_fork.Base.Dict.{lookup, insert}
use dnscrypt_proxy_fork.UdpPool.{
  PooledConn, PoolShard, UdpConnPool, udp_pool_max_conns_per_addr, split_last, keep_entry, no_conns,
  shard_at, conns_of, conns_at, store, reuse, get, put_locked, put, is_stale, cleanup_shard,
  cleanup_shards, cleanup_stale, close,
}

pub length-split_last : {A : Type 0} (x : A) (xs : List A) → length (split_last x xs).0 ≡ length xs
length-split_last x [] = refl
length-split_last x (y ∷ xs) = ap suc (length-split_last y xs)

append-IsWithin :
    {A : Type 0} (xs : List A) (x : A)
    → leb udp_pool_max_conns_per_addr (length xs) ≡ false
    → length (xs ++ x ∷ []) ≤ udp_pool_max_conns_per_addr
append-IsWithin xs x h = ground (arith, h, length-append xs (x ∷ []))

module _ {C : Type 0} where
  -- The entry of an address respects the limit.
  abbrev pub IsWithin : String × List (PooledConn C) → Type 0
  IsWithin (addr, conns) = length conns ≤ udp_pool_max_conns_per_addr

  -- The pool has its shards, and every entry respects the limit.
  pub record IsBounded (p : UdpConnPool C) : Type 0 where
    pub shard_count : length p.shards ≡ 64
    pub within : All (All IsWithin) p.shards

  lookup-IsWithin :
      (addr : String) (shard : PoolShard C)
      → All IsWithin shard
      → length (conns_of (lookup addr shard)) ≤ udp_pool_max_conns_per_addr
  unfolding lookup
  lookup-IsWithin addr [] h = omega arith
  lookup-IsWithin addr ((a, conns) ∷ shard) (h, hs) =
      ground (arith, h, lookup-IsWithin addr shard hs)

  insert-IsWithin :
      (addr : String) (conns : List (PooledConn C)) (shard : PoolShard C)
      → length conns ≤ udp_pool_max_conns_per_addr
      → All IsWithin shard
      → All IsWithin (insert addr conns shard)
  unfolding insert
  insert-IsWithin addr conns [] h all = (h, tt)
  insert-IsWithin addr conns ((a, cs) ∷ shard) h (v, vs) = elim (Bool-cases (str_eq a addr)) [
    | inl e ↦ rw e (h, vs)
    | inr e ↦ rw e (v, insert-IsWithin addr conns shard h vs)
  ]

  shard_at-IsWithin :
      (shards : List (PoolShard C)) (i : ℕ)
      → All (All IsWithin) shards
      → All IsWithin (shard_at shards i)
  shard_at-IsWithin [] i h = tt
  shard_at-IsWithin (s ∷ shards) zero (h, hs) = h
  shard_at-IsWithin (s ∷ shards) (suc i) (h, hs) = shard_at-IsWithin shards i hs

  set-IsWithin :
      (shards : List (PoolShard C)) (i : ℕ) (s : PoolShard C)
      → All IsWithin s
      → All (All IsWithin) shards
      → All (All IsWithin) (set shards i s)
  set-IsWithin [] i s v h = tt
  set-IsWithin (x ∷ shards) zero s v (h, hs) = (v, hs)
  set-IsWithin (x ∷ shards) (suc i) s v (h, hs) = (h, set-IsWithin shards i s v hs)

  store-IsBounded :
      (p : UdpConnPool C) (addr : String) (conns : List (PooledConn C))
      → length conns ≤ udp_pool_max_conns_per_addr
      → IsBounded p
      → IsBounded (store p addr conns)
  store-IsBounded p addr conns h v = record {
    shard_count = length-set p.shards _ _ ∙ v.shard_count;
    within =
        set-IsWithin p.shards _ _
          (insert-IsWithin addr conns _ h (shard_at-IsWithin p.shards _ v.within)) v.within;
  }

  pub conns_at-le :
      (p : UdpConnPool C) (addr : String)
      → IsBounded p
      → length (conns_at p addr) ≤ udp_pool_max_conns_per_addr
  conns_at-le p addr v = lookup-IsWithin addr _ (shard_at-IsWithin p.shards _ v.within)

  reuse-IsBounded :
      (p : UdpConnPool C) (addr : String) (conns : List (PooledConn C)) (dialed : Option C)
      → length conns ≤ udp_pool_max_conns_per_addr
      → IsBounded p
      → IsBounded (reuse p addr conns dialed).0
  reuse-IsBounded p addr [] dialed h v = v
  reuse-IsBounded p addr (pc ∷ conns) dialed h v =
      store-IsBounded p addr _ (omega (arith, length-split_last pc conns)) v

  keep_entry-IsWithin :
      (addr : String) (active : List (PooledConn C)) (s : PoolShard C)
      → length active ≤ udp_pool_max_conns_per_addr
      → All IsWithin s
      → All IsWithin (keep_entry addr active s)
  keep_entry-IsWithin addr [] s l h = h
  keep_entry-IsWithin addr (pc ∷ active) s l h = (l, h)

  cleanup_shard-IsWithin :
      (now : ℕ) (s : PoolShard C) → All IsWithin s → All IsWithin (cleanup_shard now s).0
  unfolding cleanup_shard
  cleanup_shard-IsWithin now [] h = tt
  cleanup_shard-IsWithin now ((addr, conns) ∷ s) (h, hs) =
      keep_entry-IsWithin addr _ _
        (omega (arith, h, length-keep_if-le (λ pc. not (is_stale now pc)) conns))
        (cleanup_shard-IsWithin now s hs)

  cleanup_shards-IsWithin :
      (now : ℕ) (ss : List (PoolShard C))
      → All (All IsWithin) ss
      → All (All IsWithin) (cleanup_shards now ss).0
  unfolding cleanup_shards
  cleanup_shards-IsWithin now [] h = tt
  cleanup_shards-IsWithin now (s ∷ ss) (h, hs) =
      (cleanup_shard-IsWithin now s h, cleanup_shards-IsWithin now ss hs)

  length-cleanup_shards :
      (now : ℕ) (ss : List (PoolShard C)) → length (cleanup_shards now ss).0 ≡ length ss
  unfolding cleanup_shards
  length-cleanup_shards now [] = refl
  length-cleanup_shards now (s ∷ ss) = ap suc (length-cleanup_shards now ss)

  drained-IsWithin : (ss : List (PoolShard C)) → All (All IsWithin) (map (λ s. no_conns) ss)
  drained-IsWithin [] = tt
  drained-IsWithin (s ∷ ss) = (tt, drained-IsWithin ss)

  pub put_locked_kept :
      (p : UdpConnPool C) (addr : String) (conn : C) (now : ℕ)
      → p.closed ≡ false
      → leb udp_pool_max_conns_per_addr (length (conns_at p addr)) ≡ false
      → put_locked p addr conn now
        ≡ (store p addr (conns_at p addr ++ record { conn = conn; last_used = now } ∷ []), [])
  unfolding put_locked
  put_locked_kept p addr conn now e f = if_false _ _ e ∙ if_false _ _ f

  put_locked-IsBounded :
      (p : UdpConnPool C) (addr : String) (conn : C) (now : ℕ)
      → IsBounded p
      → IsBounded (put_locked p addr conn now).0
  unfolding put_locked
  put_locked-IsBounded p addr conn now v = elim (Bool-cases p.closed) [
    | inl e ↦ simp e v
    | inr e ↦ elim (Bool-cases (leb udp_pool_max_conns_per_addr (length (conns_at p addr)))) [
      | inl f ↦ simp (e, f) v
      | inr f ↦
          subst (λ q. IsBounded q.0) (sym (put_locked_kept p addr conn now e f))
            (store-IsBounded p addr _ (append-IsWithin (conns_at p addr) _ f) v)
    ]
  ]

  -- Every operation of the pool keeps each address within the limit, whatever it is called with.
  pub pool-IsBounded :
      (p : UdpConnPool C) (addr : String) (conn dialed : Option C) (now : ℕ)
      → IsBounded p
      → IsBounded (get p addr dialed).0
        × IsBounded (put p addr conn now).0
        × IsBounded (cleanup_stale p now).0
        × IsBounded (close p).0
  unfolding get put cleanup_stale close
  pool-IsBounded p addr conn dialed now v = (
    reuse-IsBounded p addr _ dialed (conns_at-le p addr v) v,
    putting conn,
    record {
      shard_count = length-cleanup_shards now p.shards ∙ v.shard_count;
      within = cleanup_shards-IsWithin now p.shards v.within;
    },
    record {
      shard_count = length-map _ p.shards ∙ v.shard_count;
      within = drained-IsWithin p.shards;
    },
  )
    where
      putting : (o : Option C) → IsBounded (put p addr o now).0
      putting none = v
      putting (some c) = elim (Bool-cases p.closed) [
        | inl e ↦ simp e v
        | inr e ↦ simp e (put_locked-IsBounded p addr c now v)
      ]
