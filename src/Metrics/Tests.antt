-- ===== src/Metrics/Tests.antt =====
-- Concrete stores, with the floats in units of 1/1000 and the source's bucket edges.
use dnscrypt_proxy_fork.Base.{
  ℕ, ◌+◌, ◌-◌, suc, ◌++◌, ◌≤◌, ◌<◌, ◌≡◌, refl, true, false, List, [], ◌∷◌, length, replicate, some,
  arith,
}
use dnscrypt_proxy_fork.Base.Int.{pos}
use dnscrypt_proxy_fork.Exchange.{ExchangeOutcome, dnscrypt_udp}
use dnscrypt_proxy_fork.Float.{milli}
use dnscrypt_proxy_fork.Metrics.Epoch.{new_metrics_epoch, count_outcome}
use dnscrypt_proxy_fork.Metrics.{
  ResolverMetrics, new_resolver_metrics, observe, advance_locked, build_edges, snapshot,
}
use dnscrypt_proxy_fork.Metrics.Window.{IsWf, total_of, snapshot_consistent}
use dnscrypt_proxy_fork.Metrics.Buckets.{build_edges_fuel, build_edges_total, grown}
use dnscrypt_proxy_fork.Metrics.Samples.{new_resolver_metrics-IsWf, observe-IsWf}
use dnscrypt_proxy_fork.Metrics.Percentile.{percentile_buf, edge_duration, rank_of, aggregate}
use dnscrypt_proxy_fork.Metrics.Histogram.{IsNearestRank, percentile_exact}

-- 1 ms
abbrev first : ℕ
first = 1000

built : (edges : List ℕ) × (build_edges milli 43 first ≡ some edges) × (length edges ≤ 43)
unfolding grown
built = build_edges_fuel milli 42 first refl

-- How far a value is above 3 units, from which on a product with 5/4 is larger.
abbrev rank_above : ℕ → ℕ
rank_above v = v - 3

build_edges_total_example :
    (es : List ℕ) × (build_edges milli (suc (rank_above 10_000_000)) first
      ≡ some (es ++ 10_000_000 ∷ []))
    × (length es ≤ rank_above 10_000_000)
build_edges_total_example =
    build_edges_total milli rank_above first (λ a b s h. ground arith) (λ a s h. ground arith)
      (omega arith)

abbrev edges : List ℕ
edges = built.0

abbrev outcome : ExchangeOutcome
outcome = record {
  duration = pos 20_000_000;
  transport = dnscrypt_udp;
  timeout = false;
  error = false;
  servfail = false;
  dnssec_bogus = false;
  upstream_truncated = false;
  local_truncated = false;
  tcp_fallback = false;
  quic_fallback = false;
  conn_reused = true;
  ecs_returned = false;
}

abbrev fresh : ResolverMetrics ℕ
fresh = new_resolver_metrics milli (length edges) (pos 0)

observe-IsWf_example :
    IsWf (length edges) (observe milli edges fresh outcome 70)
    × (total_of (observe milli edges fresh outcome 70).epochs
        ≡ total_of (advance_locked fresh 70).epochs + 1)
    × ((observe milli edges fresh outcome 70).total_samples ≡ fresh.total_samples + 1)
unfolding new_resolver_metrics
observe-IsWf_example =
    observe-IsWf milli edges fresh outcome 70 43 first built.1 (λ e. refl) (omega arith)
      (new_resolver_metrics-IsWf milli edges (pos 0))

-- A store with one sample, started at 100, with epochs of 10.
abbrev small : ResolverMetrics ℕ
small = record (new_resolver_metrics milli 2 (pos 100)) { epoch_start = 100 }

snapshot_consistent_example :
    let r = snapshot fresh 80 in
    (r.1.samples ≡ total_of r.0.epochs)
    × (r.1.conn_new + r.1.conn_reused ≡ r.1.samples)
    × (r.1.success ≤ r.1.samples)
    × (r.1.samples ≤ r.1.total_samples)
unfolding new_resolver_metrics
snapshot_consistent_example =
    snapshot_consistent (length edges) fresh 80 (new_resolver_metrics-IsWf milli edges (pos 0))
      (omega arith)

-- The loop started at 9 seconds.
abbrev two_edges : List ℕ
two_edges = 9_000_000 ∷ 10_000_000 ∷ []

abbrev fresh_small : ResolverMetrics ℕ
fresh_small = new_resolver_metrics milli 2 (pos 0)

abbrev sampled : ResolverMetrics ℕ
sampled = observe milli two_edges fresh_small outcome 70

sampled_holds : IsWf 2 sampled
unfolding new_resolver_metrics build_edges
sampled_holds =
    (observe-IsWf milli two_edges fresh_small outcome 70 3 9_000_000 refl (λ e. refl) (omega arith)
      (new_resolver_metrics-IsWf milli two_edges (pos 0))).0

percentile_exact_example :
    let es = (advance_locked sampled 80).epochs in
    (b : ℕ) × ((percentile_buf milli two_edges sampled 950 80).1 ≡ edge_duration milli two_edges b)
    × (b < 2)
    × IsNearestRank (rank_of milli (total_of es) 950) (aggregate (replicate 2 0) es) b
unfolding new_resolver_metrics observe advance_locked new_metrics_epoch total_of count_outcome
percentile_exact_example =
    percentile_exact milli two_edges sampled 950 80 sampled_holds (omega arith) (omega arith)
