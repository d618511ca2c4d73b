-- ===== src/Servers/GetOne.antt =====
-- dnscrypt-proxy/serversInfo.go: `getOne`, the choice of the resolver of a query.
use dnscrypt_proxy_fork.Base.{
  ℕ, suc, List, [], ◌∷◌, length, get_elem?, Option, none, some, String, str_eq, leb, if◌then◌else◌,
  is_some,
}
use dnscrypt_proxy_fork.Base.Dict.{Dict, lookup, insert}
use dnscrypt_proxy_fork.Float.{Float64}
use dnscrypt_proxy_fork.Metrics.{ResolverMetrics}
use dnscrypt_proxy_fork.Mds.Scheduler.{LbStrategyMds}
use dnscrypt_proxy_fork.Mds.Select.{select_candidate_locked}
use dnscrypt_proxy_fork.Servers.Server.{ServerInfo, ResolverCandidate, MovingAverage}
use dnscrypt_proxy_fork.Servers.Strategy.{LbStrategy, wp2, mds, get_candidate}
use dnscrypt_proxy_fork.Servers.Ranking.{
  Live, recover_dormant_servers, estimator_update, redraw, better_of,
}
use dnscrypt_proxy_fork.Servers.Info.{ServersInfo, candidates_locked}

-- What a call draws and reads: `rand.Intn` of the strategy and of the estimator (or of the two
-- servers of WP2), further redraws, the coin, the two draws of the scheduler, and the
-- clocks.
pub record Draws (F : Type 0) : Type 0 where
  pub intn : ℕ → ℕ
  pub second_intn : ℕ → ℕ
  pub redraws : List ℕ
  pub coin : F
  pub explore : F
  pub explore_intn : ℕ → ℕ
  pub clock : ℕ → ℕ × ℕ
  pub wall : ℕ
  pub now : ℕ
  pub at : ℕ

-- `out_of_draws` stands for a redraw loop that has not ended with the draws given.
pub data Picked (A : Type 0) : Type 0 where
  no_server out_of_draws out_of_range : Picked A
  picked : A → Picked A

-- The first server of a name, or index 0.
unfoldable pub index_by_name : {F R : Type 0} → String → List (ServerInfo F R) → ℕ → ℕ
index_by_name name [] i = 0
index_by_name name (s ∷ ss) i =
    let rest = index_by_name name ss (suc i) in if str_eq s.name name then i else rest

-- The live server of the candidate that was picked; `none` stands for an index out of range.
abbrev pub scheduled_index :
    {F R : Type 0} → List (ServerInfo F R) → Option (ResolverCandidate F R) → Option ℕ
scheduled_index inner none = none
scheduled_index inner (some c) = some (index_by_name c.server.name inner 0)

-- The stores that were read are shared with the table: what reading advanced is advanced there.
unfoldable pub write_back :
    {F R : Type 0}
    → List (ResolverCandidate F R)
    → Dict (ResolverMetrics F)
    → Dict (ResolverMetrics F)
write_back [] m = m
write_back (c ∷ cs) m =
    let name = c.server.name in
    write_back cs (if is_some (lookup name m) then insert name c.metrics m else m)

module _ (fl : Float64) (ma : MovingAverage fl.Carrier) where
  open fl use {Carrier}

  -- `getWeightedCandidate`
  unfoldable pub get_weighted_candidate : List (Live fl ma) → Draws Carrier → Option ℕ
  get_weighted_candidate inner d =
      let count = length inner in
      let one = d.intn count in
      if leb count 1 then some 0 else elim (redraw one (d.second_intn count) d.redraws) [
        | none ↦ none
        | some two ↦ some (better_of fl ma inner one two d.coin)
      ]

  module _ (edges : List Carrier) {S : Type 0} where
    -- The branch of the stateful scheduler.
    unfoldable pub scheduled_candidate :
        ServersInfo Carrier ma.State S
        → LbStrategyMds Carrier
        → Draws Carrier
        → ServersInfo Carrier ma.State S × Option ℕ
    scheduled_candidate si s d =
        let cs = candidates_locked fl (length edges) si in
        let (s', cs', i) =
          select_candidate_locked fl edges s cs d.clock d.now d.at d.explore d.explore_intn in
        let si' = record si { lb_strategy = mds s'; metrics = write_back cs' si.metrics } in
        (si', scheduled_index si.inner (get_elem? cs i))

    -- The branch of a plain strategy, with the estimator if it is on.
    unfoldable pub drawn_candidate :
        ServersInfo Carrier ma.State S
        → LbStrategy Carrier
        → Draws Carrier
        → ServersInfo Carrier ma.State S × Option ℕ
    drawn_candidate si strategy d =
        let candidate = get_candidate strategy (length si.inner) d.intn in
        if si.lb_estimator
        then (
          record si { inner = estimator_update fl ma strategy si.inner candidate d.second_intn },
          some candidate,
        )
        else (si, some candidate)

    unfoldable pub pick_index :
        ServersInfo Carrier ma.State S
        → LbStrategy Carrier
        → Draws Carrier
        → ServersInfo Carrier ma.State S × Option ℕ
    pick_index si (mds s) d = scheduled_candidate si s d
    pick_index si wp2 d = (si, get_weighted_candidate si.inner d)
    pick_index si other d = drawn_candidate si other d

    -- The last lines: `serversInfo.inner[candidate]`.
    abbrev pub entry_at :
        ServersInfo Carrier ma.State S × Option ℕ
        → ServersInfo Carrier ma.State S × Picked (Live fl ma)
    entry_at (si, none) = (si, out_of_draws)
    entry_at (si, some i) = elim (get_elem? si.inner i) [
      | none ↦ (si, out_of_range)
      | some s ↦ (si, picked s)
    ]

    unfoldable pub get_one :
        ServersInfo Carrier ma.State S
        → Draws Carrier
        → ServersInfo Carrier ma.State S × Picked (Live fl ma)
    get_one si d =
        let recovered = recover_dormant_servers fl ma si.inner d.wall in
        if leb (length si.inner) 0
        then (si, no_server)
        else entry_at (pick_index (record si { inner = recovered }) si.lb_strategy d)
