-- ===== src/Metrics/Samples.antt =====
-- `NewResolverMetricsWithWindow` and `Observe`: what one recorded outcome adds to the store.
use dnscrypt_proxy_fork.Base.{
  ℕ, zero, suc, ◌+◌, ◌<◌, ◌≡◌, refl, List, [], ◌∷◌, length, some, arith, All, ap,
}
use dnscrypt_proxy_fork.Base.Int.{ℤ}
use dnscrypt_proxy_fork.Exchange.{ExchangeOutcome}
use dnscrypt_proxy_fork.Float.{Float64}
use dnscrypt_proxy_fork.Metrics.Epoch.{MetricsEpoch, new_metrics_epoch, count_outcome, u64}
use dnscrypt_proxy_fork.Metrics.Balance.{
  IsBalanced, new_metrics_epoch-IsBalanced, count_outcome-IsBalanced,
}
use dnscrypt_proxy_fork.Metrics.Buckets.{Compares, latency_bucket_index-lt}
use dnscrypt_proxy_fork.Metrics.Window.{
  IsWf, total_of, advance_locked-IsWf, advance_locked-total_samples,
}
use dnscrypt_proxy_fork.Metrics.{
  ResolverMetrics, update_at, advance_locked, build_edges, latency_ms_of, stamp,
  latency_bucket_index, observe, new_resolver_metrics, observe_latency,
}

epochs-update :
    (n : ℕ) (o : ExchangeOutcome) (bucket : ℕ) (es : List MetricsEpoch) (i : ℕ)
    → i < length es
    → bucket < n
    → total_of es + 1 < u64
    → All (IsBalanced n) es
    → let es' = update_at (λ e. count_outcome e o bucket) es i in
      (length es' ≡ length es) × All (IsBalanced n) es' × (total_of es' ≡ total_of es + 1)
unfolding total_of
epochs-update n o bucket [] i h b fits v = absurd (omega arith)
epochs-update n o bucket (e ∷ es) zero h b fits (v, vs) = (
  refl,
  (count_outcome-IsBalanced n e o bucket b (omega arith) v, vs),
  unfold count_outcome in omega arith,
)
epochs-update n o bucket (e ∷ es) (suc i) h b fits (v, vs) =
    let (x, y, z) = epochs-update n o bucket es i (omega arith) b (omega arith) vs in
    (ap suc x, (v, y), omega arith)

-- `fl`: float64; `edges`: latencyBucketEdges.
module _ (fl : Float64) (edges : List fl.Carrier) where
  pub new_resolver_metrics-IsWf :
      (window : ℤ) → IsWf (length edges) (new_resolver_metrics fl (length edges) window)
  unfolding new_resolver_metrics
  new_resolver_metrics-IsWf window = record {
    epoch_count = refl;
    current = omega arith;
    balanced = (b, (b, (b, (b, (b, (b, (b, (b, (b, (b, tt))))))))));
    counted = unfold total_of new_metrics_epoch in omega arith;
  }
    where
      b : IsBalanced (length edges) (new_metrics_epoch (length edges))
      b = new_metrics_epoch-IsBalanced (length edges)

  observe_latency_lem :
      (m : ResolverMetrics fl.Carrier) (x : fl.Carrier)
      → let m' = observe_latency fl m x in
        (m'.epochs ≡ m.epochs) × (m'.cur_epoch ≡ m.cur_epoch) × (m'.total_samples ≡ m.total_samples)
  unfolding observe_latency
  observe_latency_lem m x = ground arith

  -- Recording an outcome keeps the store well formed, and adds exactly one sample to the window
  -- as the advance leaves it and one to the lifetime count. The edges are those that the source
  -- builds, the latency compares with the last of them, and the lifetime count does not overflow.
  pub observe-IsWf :
      (m : ResolverMetrics fl.Carrier) (o : ExchangeOutcome) (now fuel : ℕ) (first : fl.Carrier)
      → build_edges fl fuel first ≡ some edges
      → Compares fl (latency_ms_of fl o)
      → m.total_samples + 1 < u64
      → IsWf (length edges) m
      → IsWf (length edges) (observe fl edges m o now)
        × (total_of (observe fl edges m o now).epochs ≡ total_of (advance_locked m now).epochs + 1)
        × ((observe fl edges m o now).total_samples ≡ m.total_samples + 1)
  unfolding observe
  observe-IsWf m o now fuel first built ordered fits v =
      let w = advance_locked-IsWf (length edges) m now v in
      let same = advance_locked-total_samples m now in
      let x = latency_ms_of fl o in
      let m1 = stamp fl (advance_locked m now) now in
      let (a, b, c) = observe_latency_lem m1 x in
      let i = latency_bucket_index-lt fl fuel first edges x built ordered in
      let (d, e, f) =
        epochs-update (length edges) o (latency_bucket_index fl edges x) m1.epochs m1.cur_epoch
          (ground arith) i (ground arith) w.balanced in
      (
        record {
          epoch_count = ground (arith, a, b, c, d, w);
          current = ground (arith, a, b, c, d, w);
          balanced = ground (arith, a, b, c, d, e, w);
          counted = ground (arith, a, b, c, f, same, w);
        },
        ground (arith, a, b, f),
        ground (arith, c, same),
      )
