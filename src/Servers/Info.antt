-- ===== src/Servers/Info.antt =====
-- dnscrypt-proxy/serversInfo.go: the shared table of resolvers. Each method holds the table's lock
-- from start to end, so it is one step on this record; clock readings are arguments.
use dnscrypt_proxy_fork.Base.{
  ℕ, ◌+◌, Bool, true, false, List, [], ◌∷◌, map, Option, none, some, String, str_eq, ltb, is_some,
  if◌then◌else◌,
}
use dnscrypt_proxy_fork.Base.Int.{ℤ, pos}
use dnscrypt_proxy_fork.Base.Dict.{Dict, lookup, insert, erase}
use dnscrypt_proxy_fork.Float.{Float64}
use dnscrypt_proxy_fork.Metrics.{ResolverMetrics, new_resolver_metrics, metrics_window}
use dnscrypt_proxy_fork.Servers.Server.{ServerInfo, ResolverCandidate}
use dnscrypt_proxy_fork.Servers.Strategy.{LbStrategy, wp2}

-- `S` is the type of server stamps, of github.com/jedisct1/go-dnsstamps.
pub record RegisteredServer (S : Type 0) : Type 0 where
  pub name : String
  pub stamp : S

-- `inner` holds pointers; no two entries alias one server, and none is nil.
pub record ServersInfo (F R S : Type 0) : Type 0 where
  pub inner : List (ServerInfo F R)
  pub registered_servers : List (RegisteredServer S)
  pub registered_relays : List (RegisteredServer S)
  pub lb_strategy : LbStrategy F
  pub lb_estimator : Bool
  pub metrics : Dict (ResolverMetrics F)
  pub metrics_window : ℤ
  pub odoh_refresh_in_flight : Dict Bool
  pub odoh_last_failure_at : Dict ℕ

pub new_servers_info : (F R S : Type 0) → ServersInfo F R S
new_servers_info F R S = record {
  inner = [];
  registered_servers = [];
  registered_relays = [];
  lb_strategy = wp2;
  lb_estimator = true;
  metrics = [];
  metrics_window = pos metrics_window;
  odoh_refresh_in_flight = [];
  odoh_last_failure_at = [];
}

-- The body of `registerServer` and `registerRelay`: replace the entry of that name, or append one.
unfoldable pub register :
    {S : Type 0} → String → S → List (RegisteredServer S) → List (RegisteredServer S)
register name stamp [] = record { name = name; stamp = stamp } ∷ []
register name stamp (r ∷ rs) =
    if str_eq r.name name
    then record { name = name; stamp = stamp } ∷ rs
    else r ∷ register name stamp rs

-- Whether a failure is younger than the cool-down of `beginODoHRefresh`.
abbrev pub is_cooling : Option ℕ → ℕ → ℕ → Bool
is_cooling none now cooldown = false
is_cooling (some last) now cooldown = ltb now (last + cooldown)

abbrev pub is_set : Option Bool → Bool
is_set none = false
is_set (some b) = b

module _ {F R : Type 0} where
  -- `serverByNameLocked`
  unfoldable pub server_by_name : String → List (ServerInfo F R) → Option (ServerInfo F R)
  server_by_name name [] = none
  server_by_name name (s ∷ ss) = if str_eq s.name name then some s else server_by_name name ss

  -- The loop of `refreshServer` that replaces a live server or appends it.
  unfoldable pub publish : ServerInfo F R → List (ServerInfo F R) → List (ServerInfo F R)
  publish new [] = new ∷ []
  publish new (s ∷ ss) = if str_eq s.name new.name then new ∷ ss else s ∷ publish new ss

module _ {F R S : Type 0} where
  unfoldable pub register_server : ServersInfo F R S → String → S → ServersInfo F R S
  register_server si name stamp = record si {
    registered_servers = register name stamp si.registered_servers;
  }

  pub register_relay : ServersInfo F R S → String → S → ServersInfo F R S
  register_relay si name stamp = record si {
    registered_relays = register name stamp si.registered_relays;
  }

  unfoldable pub begin_odoh_refresh : ServersInfo F R S → String → ℕ → ℕ → ServersInfo F R S × Bool
  begin_odoh_refresh si name cooldown now =
      if is_set (lookup name si.odoh_refresh_in_flight)
      then (si, false)
      else if is_cooling (lookup name si.odoh_last_failure_at) now cooldown
      then (si, false)
      else (record si { odoh_refresh_in_flight = insert name true si.odoh_refresh_in_flight }, true)

  unfoldable pub end_odoh_refresh : ServersInfo F R S → String → Bool → ℕ → ServersInfo F R S
  end_odoh_refresh si name success now = record si {
    odoh_refresh_in_flight = erase name si.odoh_refresh_in_flight;
    odoh_last_failure_at =
        if success
        then erase name si.odoh_last_failure_at
        else insert name now si.odoh_last_failure_at;
  }

  unfoldable pub cancel_odoh_refresh : ServersInfo F R S → String → ServersInfo F R S
  cancel_odoh_refresh si name = record si {
    odoh_refresh_in_flight = erase name si.odoh_refresh_in_flight;
  }

-- The methods on metric stores; `buckets` is the number of latency buckets.
module _ (fl : Float64) (buckets : ℕ) {R S : Type 0} where
  abbrev pub metrics_or_new : ServersInfo fl.Carrier R S → String → ResolverMetrics fl.Carrier
  metrics_or_new si name = elim (lookup name si.metrics) [
    | none ↦ new_resolver_metrics fl buckets si.metrics_window
    | some m ↦ m
  ]

  -- `metricsForLocked`: the table after it, and the store.
  unfoldable pub metrics_for_locked :
      ServersInfo fl.Carrier R S → String → ServersInfo fl.Carrier R S × ResolverMetrics fl.Carrier
  metrics_for_locked si name =
      let m = metrics_or_new si name in
      elim (lookup name si.metrics) [
        | none ↦ (record si { metrics = insert name m si.metrics }, m)
        | some old ↦ (si, old)
      ]

  -- `candidatesLocked`: the stores are paired, none is published.
  unfoldable pub candidates_locked :
      ServersInfo fl.Carrier R S → List (ResolverCandidate fl.Carrier R)
  candidates_locked si =
      map (λ s. record { server = s; metrics = metrics_or_new si s.name }) si.inner

  -- `refreshServer`, whose fetch over the network is the argument: `none` is its error. The new
  -- server has the name that was asked for, or else the program exits.
  unfoldable pub refresh_server :
      ServersInfo fl.Carrier R S → Option (ServerInfo fl.Carrier R) → S → ServersInfo fl.Carrier R S
  refresh_server si none stamp = si
  refresh_server si (some new) stamp =
      let published = record si { inner = publish new si.inner } in
      let (si', m) = metrics_for_locked published new.name in
      if is_some (server_by_name new.name si.inner) then si' else register_server si' new.name stamp
