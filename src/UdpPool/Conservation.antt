-- ===== src/UdpPool/Conservation.antt =====
-- Where sockets go: each stays pooled, is handed out, or is closed.
use dnscrypt_proxy_fork.Base.{
  ℕ, zero, suc, ◌+◌, ◌<◌, ◌≡◌, refl, ap, sym, subst, inl, inr, Bool, not, List, [], ◌∷◌, ◌++◌, map,
  length, set, keep_if, Option, some, String, str_eq, leb, if◌then◌else◌, arith, if_false,
  Bool-cases, length-append, length-map,
}
use dnscrypt_proxy_fork.Base.Dict.{lookup, insert}
use dnscrypt_proxy_fork.UdpPool.{
  PooledConn, PoolShard, UdpConnPool, udp_pool_max_conns_per_addr, get_shard, split_last, shard_at,
  conns_of, conns_at, store, reuse, get, put_locked, put, is_stale, conns_only, cleanup_shard,
  cleanup_shards, cleanup_stale, drain_shard, drain_shards, close, shard_conns, total_conns,
  keep_entry, no_conns,
}
use dnscrypt_proxy_fork.UdpPool.Bounds.{length-split_last, IsBounded, put_locked_kept}
use dnscrypt_proxy_fork.UdpPool.Reuse.{get_shard-lt}

keep_if-split :
    {A : Type 0} (p : A → Bool) (xs : List A)
    → length (keep_if p xs) + length (keep_if (λ x. not (p x)) xs) ≡ length xs
keep_if-split p [] = refl
keep_if-split p (x ∷ xs) = ground (arith, keep_if-split p xs)

module _ {C : Type 0} where
  shard_conns-insert :
      (addr : String) (conns : List (PooledConn C)) (s : PoolShard C)
      → shard_conns (insert addr conns s) + length (conns_of (lookup addr s))
        ≡ shard_conns s + length conns
  unfolding shard_conns insert lookup
  shard_conns-insert addr conns [] = omega arith
  shard_conns-insert addr conns ((a, cs) ∷ s) = elim (Bool-cases (str_eq a addr)) [
    | inl e ↦ rw e (omega arith)
    | inr e ↦ rw e (omega (arith, shard_conns-insert addr conns s))
  ]

  total_conns-set :
      (ss : List (PoolShard C)) (i : ℕ) (s : PoolShard C)
      → i < length ss
      → total_conns (set ss i s) + shard_conns (shard_at ss i) ≡ total_conns ss + shard_conns s
  unfolding total_conns
  total_conns-set [] i s h = absurd (omega arith)
  total_conns-set (x ∷ ss) zero s h = omega arith
  total_conns-set (x ∷ ss) (suc i) s h = omega (arith, total_conns-set ss i s (omega arith))

  total_conns-store :
      (p : UdpConnPool C) (addr : String) (conns : List (PooledConn C))
      → length p.shards ≡ 64
      → total_conns (store p addr conns).shards + length (conns_at p addr)
        ≡ total_conns p.shards + length conns
  total_conns-store p addr conns h =
      let i = get_shard addr in
      omega (
        arith,
        total_conns-set p.shards i (insert addr conns (shard_at p.shards i))
            (omega (arith, h, get_shard-lt addr)),
        shard_conns-insert addr conns (shard_at p.shards i),
      )

  reuse-total :
      (p : UdpConnPool C) (addr : String) (conns : List (PooledConn C)) (dialed : Option C)
      → length p.shards ≡ 64
      → conns_at p addr ≡ conns
      → let r = reuse p addr conns dialed in
        total_conns r.0.shards + (if r.2 then 1 else 0) ≡ total_conns p.shards
  reuse-total p addr [] dialed h e = omega arith
  reuse-total p addr (pc ∷ conns) dialed h e = omega (
    arith,
    total_conns-store p addr (split_last pc conns).0 h,
    length-split_last pc conns,
    ap length e,
  )

  put_locked-total :
      (p : UdpConnPool C) (addr : String) (conn : C) (now : ℕ)
      → length p.shards ≡ 64
      → let r = put_locked p addr conn now in
        total_conns r.0.shards + length r.1 ≡ total_conns p.shards + 1
  unfolding put_locked
  put_locked-total p addr conn now h = elim (Bool-cases p.closed) [
    | inl e ↦ simp e (omega arith)
    | inr e ↦ elim (Bool-cases (leb udp_pool_max_conns_per_addr (length (conns_at p addr)))) [
      | inl f ↦ simp (e, f) (omega arith)
      | inr f ↦
          let pc : PooledConn C = record { conn = conn; last_used = now } in
          subst {A = UdpConnPool C × List C}
            (λ q. total_conns q.0.shards + length q.1 ≡ total_conns p.shards + 1)
            (sym (put_locked_kept p addr conn now e f))
            (omega (
              arith,
              total_conns-store p addr (conns_at p addr ++ pc ∷ []) h,
              length-append (conns_at p addr) (pc ∷ []),
            ))
    ]
  ]

  put-total :
      (p : UdpConnPool C) (addr : String) (conn : C) (now : ℕ)
      → length p.shards ≡ 64
      → let r = put p addr (some conn) now in
        total_conns r.0.shards + length r.1 ≡ total_conns p.shards + 1
  unfolding put
  put-total p addr conn now h = elim (Bool-cases p.closed) [
    | inl e ↦ simp e (omega arith)
    | inr e ↦
        subst {A = UdpConnPool C × List C}
          (λ q. total_conns q.0.shards + length q.1 ≡ total_conns p.shards + 1)
          (sym (if_false _ _ e)) (put_locked-total p addr conn now h)
  ]

  keep_entry-conns :
      (addr : String) (active : List (PooledConn C)) (s : PoolShard C)
      → shard_conns (keep_entry addr active s) ≡ length active + shard_conns s
  unfolding shard_conns
  keep_entry-conns addr [] s = omega arith
  keep_entry-conns addr (pc ∷ active) s = omega arith

  cleanup_shard-total :
      (now : ℕ) (s : PoolShard C)
      → shard_conns (cleanup_shard now s).0 + length (cleanup_shard now s).1 ≡ shard_conns s
  unfolding cleanup_shard shard_conns
  cleanup_shard-total now [] = refl
  cleanup_shard-total now ((addr, conns) ∷ s) =
      let rest = cleanup_shard now s in
      let stale = keep_if (is_stale now) conns in
      let active = keep_if (λ pc. not (is_stale now pc)) conns in
      omega (
        arith,
        keep_entry-conns addr active rest.0,
        length-append (conns_only stale) rest.1,
        length-map (λ pc. pc.conn) stale,
        keep_if-split (is_stale now) conns,
        cleanup_shard-total now s,
      )

  cleanup_shards-total :
      (now : ℕ) (ss : List (PoolShard C))
      → total_conns (cleanup_shards now ss).0 + length (cleanup_shards now ss).1 ≡ total_conns ss
  unfolding cleanup_shards total_conns
  cleanup_shards-total now [] = refl
  cleanup_shards-total now (s ∷ ss) = omega (
    arith,
    length-append (cleanup_shard now s).1 (cleanup_shards now ss).1,
    cleanup_shard-total now s,
    cleanup_shards-total now ss,
  )

  length-drain_shard : (s : PoolShard C) → length (drain_shard s) ≡ shard_conns s
  unfolding drain_shard shard_conns
  length-drain_shard [] = refl
  length-drain_shard ((addr, conns) ∷ s) = omega (
    arith,
    length-append (conns_only conns) (drain_shard s),
    length-map (λ pc. pc.conn) conns,
    length-drain_shard s,
  )

  length-drain_shards :
      (ss : List (PoolShard C))
      → (length (drain_shards ss) ≡ total_conns ss)
        × (total_conns (map (λ s. no_conns {C = C}) ss) ≡ 0)
  unfolding drain_shards total_conns shard_conns
  length-drain_shards [] = (refl, refl)
  length-drain_shards (s ∷ ss) =
      let (a, b) = length-drain_shards ss in
      (
        omega (arith, length-append (drain_shard s) (drain_shards ss), length-drain_shard s, a),
        omega (arith, b),
      )

  -- The number of sockets is conserved: a put one adds one to those pooled or to those closed, a
  -- reused one is one less in the pool, a cleanup closes as many as leave the pool, and closing the
  -- pool closes as many as there were and leaves none.
  pub pool_conserves :
      (p : UdpConnPool C) (addr : String) (conn : C) (dialed : Option C) (now : ℕ)
      → IsBounded p
      → let stored = put p addr (some conn) now in
        let taken = get p addr dialed in
        let cleaned = cleanup_stale p now in
        (total_conns stored.0.shards + length stored.1 ≡ total_conns p.shards + 1)
        × (total_conns taken.0.shards + (if taken.2 then 1 else 0) ≡ total_conns p.shards)
        × (total_conns cleaned.0.shards + length cleaned.1 ≡ total_conns p.shards)
        × (length (close p).1 ≡ total_conns p.shards)
        × (total_conns (close p).0.shards ≡ 0)
  unfolding get cleanup_stale close
  pool_conserves p addr conn dialed now v =
      let (a, b) = length-drain_shards p.shards in
      (
        put-total p addr conn now v.shard_count,
        reuse-total p addr _ dialed v.shard_count refl,
        cleanup_shards-total now p.shards,
        a,
        b,
      )
