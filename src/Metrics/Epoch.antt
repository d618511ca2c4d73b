-- ===== src/Metrics/Epoch.antt =====
-- dnscrypt-proxy/scheduler_metrics.go: one time slice of the sliding window. Counters are uint64.
use dnscrypt_proxy_fork.Base.{
  ℕ, zero, suc, ◌+◌, ◌%◌, ◌^◌, Bool, true, not, ◌&&◌, List, [], ◌∷◌, map, replicate, if◌then◌else◌,
}
use dnscrypt_proxy_fork.Exchange.{ExchangeOutcome}

abbrev pub u64 : ℕ
u64 = 2 ^ 64

pub record MetricsEpoch : Type 0 where
  pub latency_buckets : List ℕ
  pub total : ℕ
  pub success : ℕ
  pub timeout : ℕ
  pub errors : ℕ
  pub servfail : ℕ
  pub dnssec_bogus : ℕ
  pub upstream_truncated : ℕ
  pub local_truncated : ℕ
  pub tcp_fallback : ℕ
  pub quic_fallback : ℕ
  pub conn_new : ℕ
  pub conn_reused : ℕ
  pub ecs_returned : ℕ

unfoldable pub new_metrics_epoch : ℕ → MetricsEpoch
new_metrics_epoch bucket_count = record {
  latency_buckets = replicate bucket_count 0;
  total = 0;
  success = 0;
  timeout = 0;
  errors = 0;
  servfail = 0;
  dnssec_bogus = 0;
  upstream_truncated = 0;
  local_truncated = 0;
  tcp_fallback = 0;
  quic_fallback = 0;
  conn_new = 0;
  conn_reused = 0;
  ecs_returned = 0;
}

-- `for i := range b { b[i] = 0 }`
abbrev pub clear_buckets : List ℕ → List ℕ
clear_buckets = map (λ _. 0)

unfoldable pub reset : MetricsEpoch → MetricsEpoch
reset e = record {
  latency_buckets = clear_buckets e.latency_buckets;
  total = 0;
  success = 0;
  timeout = 0;
  errors = 0;
  servfail = 0;
  dnssec_bogus = 0;
  upstream_truncated = 0;
  local_truncated = 0;
  tcp_fallback = 0;
  quic_fallback = 0;
  conn_new = 0;
  conn_reused = 0;
  ecs_returned = 0;
}

-- `n++` on a uint64, under a condition
abbrev pub inc_if : Bool → ℕ → ℕ
inc_if b n = if b then (n + 1) % u64 else n

-- `b[i]++`
unfoldable pub inc_at : List ℕ → ℕ → List ℕ
inc_at [] i = []
inc_at (c ∷ cs) zero = ((c + 1) % u64) ∷ cs
inc_at (c ∷ cs) (suc i) = c ∷ inc_at cs i

-- The part of `Observe` that updates the current epoch; `bucket` is `latencyBucketIndex(latencyMs)`.
unfoldable pub count_outcome : MetricsEpoch → ExchangeOutcome → ℕ → MetricsEpoch
count_outcome e o bucket = record {
  latency_buckets = inc_at e.latency_buckets bucket;
  total = inc_if true e.total;
  success = inc_if (not o.timeout && not o.error && not o.servfail && not o.dnssec_bogus) e.success;
  timeout = inc_if o.timeout e.timeout;
  errors = inc_if o.error e.errors;
  servfail = inc_if o.servfail e.servfail;
  dnssec_bogus = inc_if o.dnssec_bogus e.dnssec_bogus;
  upstream_truncated = inc_if o.upstream_truncated e.upstream_truncated;
  local_truncated = inc_if o.local_truncated e.local_truncated;
  tcp_fallback = inc_if o.tcp_fallback e.tcp_fallback;
  quic_fallback = inc_if o.quic_fallback e.quic_fallback;
  conn_new = inc_if (not o.conn_reused) e.conn_new;
  conn_reused = inc_if o.conn_reused e.conn_reused;
  ecs_returned = inc_if o.ecs_returned e.ecs_returned;
}
