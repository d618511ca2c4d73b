-- ===== src/Metrics/Percentile.antt =====
-- `Percentile` and `PercentileBuf` of dnscrypt-proxy/scheduler_metrics.go. The buffer that the
-- caller hands over is cleared before use, so a fresh one stands for it.
use dnscrypt_proxy_fork.Base.{
  ℕ, suc, ◌+◌, ◌-◌, ◌%◌, List, [], ◌∷◌, length, replicate, get_elem?, Option, none, some, leb, ◌==◌,
  if◌then◌else◌,
}
use dnscrypt_proxy_fork.Base.Int.{ℤ, pos}
use dnscrypt_proxy_fork.Float.{Float64}
use dnscrypt_proxy_fork.Metrics.Epoch.{MetricsEpoch, u64}
use dnscrypt_proxy_fork.Metrics.{ResolverMetrics, advance_locked, sum_of}

-- A latency, or `ok == false`; `out_of_range` stands for the panic of an index that is too large.
pub data Quantile : Type 0 where
  no_sample out_of_range : Quantile
  value : ℤ → Quantile

-- `for b, c := range buckets { aggregated[b] += c }`
unfoldable pub add_buckets : List ℕ → List ℕ → List ℕ
add_buckets [] cs = []
add_buckets (a ∷ accs) [] = a ∷ accs
add_buckets (a ∷ accs) (c ∷ cs) = ((a + c) % u64) ∷ add_buckets accs cs

unfoldable pub aggregate : List ℕ → List MetricsEpoch → List ℕ
aggregate acc [] = acc
aggregate acc (e ∷ es) = aggregate (add_buckets acc e.latency_buckets) es

-- The loop over the aggregated buckets: the first whose cumulative count reaches the rank.
unfoldable pub find_rank : ℕ → ℕ → List ℕ → ℕ → Option ℕ
find_rank rank cumulative [] b = none
find_rank rank cumulative (c ∷ cs) b =
    let next = (cumulative + c) % u64 in
    let rest = find_rank rank next cs (suc b) in if leb rank next then some b else rest

module _ (fl : Float64) where
  open fl use {Carrier, of_int, literal, mul, lt, ceil_uint64, to_int}

  abbrev pub clamp_unit : Carrier → Carrier
  clamp_unit p =
      if lt p (literal 0 1) then literal 0 1 else if lt (literal 1 1) p then literal 1 1 else p

  -- The rank that is looked for among `total` samples.
  abbrev pub rank_of : ℕ → Carrier → ℕ
  rank_of total p =
      let rank = ceil_uint64 (mul (of_int (pos total)) (clamp_unit p)) in
      if rank == 0 then 1 else rank

  -- `time.Duration(latencyBucketEdges[b] * float64(time.Millisecond))`
  abbrev pub edge_duration : List Carrier → ℕ → Quantile
  edge_duration edges b = elim (get_elem? edges b) [
    | none ↦ out_of_range
    | some edge ↦ value (to_int (mul edge (literal 1_000_000 1)))
  ]

  abbrev pub quantile_of : List Carrier → Option ℕ → Quantile
  quantile_of edges none = edge_duration edges (length edges - 1)
  quantile_of edges (some b) = edge_duration edges b

  unfoldable pub percentile_buf :
      List Carrier → ResolverMetrics Carrier → Carrier → ℕ → ResolverMetrics Carrier × Quantile
  percentile_buf edges m p now =
      let m' = advance_locked m now in
      let total = sum_of (λ e. e.total) 0 m'.epochs in
      let counts = aggregate (replicate (length edges) 0) m'.epochs in
      if total == 0
      then (m', no_sample)
      else (m', quantile_of edges (find_rank (rank_of total p) 0 counts 0))
