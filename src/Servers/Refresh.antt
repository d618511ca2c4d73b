-- ===== src/Servers/Refresh.antt =====
-- `refreshServer`: a live server always has a store of observations.
use dnscrypt_proxy_fork.Base.{
  ℕ, ◌≡◌, ap, ◌∙◌, inl, inr, true, List, [], ◌∷◌, Option, none, some, String, str_eq, eq_refl,
  is_some, arith, All, Bool-cases, Option-cases,
}
use dnscrypt_proxy_fork.Base.Dict.{Dict, lookup, insert, lookup-insert}
use dnscrypt_proxy_fork.Float.{Float64}
use dnscrypt_proxy_fork.Servers.Server.{ServerInfo}
use dnscrypt_proxy_fork.Servers.Info.{
  ServersInfo, publish, server_by_name, metrics_for_locked, refresh_server, register_server,
}

-- A live server has a store in the table.
abbrev pub HasStore : {F R M : Type 0} → Dict M → ServerInfo F R → Type 0
HasStore metrics s = is_some (lookup s.name metrics) ≡ true

publish-All :
    {F R : Type 0} (P : ServerInfo F R → Type 0) (new : ServerInfo F R) (ss : List (ServerInfo F R))
    → P new
    → All P ss
    → All P (publish new ss)
unfolding publish
publish-All P new [] h all = (h, tt)
publish-All P new (s ∷ ss) h (v, vs) = elim (Bool-cases (str_eq s.name new.name)) [
  | inl e ↦ rw e (h, vs)
  | inr e ↦ rw e (v, publish-All P new ss h vs)
]

insert-HasStore :
    {F R M : Type 0} (name : String) (m : M) (metrics : Dict M) (ss : List (ServerInfo F R))
    → All (HasStore metrics) ss
    → All (HasStore (insert name m metrics)) ss
insert-HasStore name m metrics [] all = tt
insert-HasStore name m metrics (s ∷ ss) (v, vs) =
    (ground (arith, v, lookup-insert name s.name m metrics), insert-HasStore name m metrics ss vs)

module _ (fl : Float64) (buckets : ℕ) {R S : Type 0} where
  -- Every live server has a store.
  abbrev pub IsServed : ServersInfo fl.Carrier R S → Type 0
  IsServed si = All (HasStore si.metrics) si.inner

  served :
      (si : ServersInfo fl.Carrier R S) (new : ServerInfo fl.Carrier R)
      → IsServed si
      → IsServed
          (metrics_for_locked fl buckets (record si { inner = publish new si.inner }) new.name).0
  unfolding metrics_for_locked
  served si new h = elim (Option-cases (lookup new.name si.metrics)) [
    | inl e ↦
        rw (e, metrics_for_locked)
          (publish-All _ new si.inner
            (ap is_some (lookup-insert new.name new.name _ si.metrics)
              ∙ ground (arith, eq_refl new.name))
            (insert-HasStore new.name _ si.metrics si.inner h))
    | inr (m, e) ↦ rw (e, metrics_for_locked) (publish-All _ new si.inner (ap is_some e) h)
  ]

  -- A refresh, failed or not, keeps a store for every live server.
  pub refresh_server-IsServed :
      (si : ServersInfo fl.Carrier R S) (fetched : Option (ServerInfo fl.Carrier R)) (stamp : S)
      → IsServed si
      → IsServed (refresh_server fl buckets si fetched stamp)
  unfolding refresh_server register_server
  refresh_server-IsServed si none stamp h = h
  refresh_server-IsServed si (some new) stamp h =
      elim (Bool-cases (is_some (server_by_name new.name si.inner))) [
        | inl e ↦ rw e (served si new h)
        | inr e ↦ rw e (served si new h)
      ]
