-- ===== src/Metrics.antt =====
-- dnscrypt-proxy/scheduler_metrics.go: the bounded metric store of one resolver. Times and
-- durations are nanoseconds, times since the zero time; the clock is an argument. The mutex
-- makes each method one atomic step.
pub mod Epoch
pub mod Balance
pub mod Window
pub mod Buckets
pub mod Samples
pub mod Percentile
pub mod Histogram
mod Tests
use dnscrypt_proxy_fork.Base.{
  ℕ, zero, suc, ◌+◌, ◌-◌, ◌*◌, ◌/◌, ◌%◌, ◌^◌, Bool, true, false, List, [], ◌∷◌, ◌++◌, map, length,
  replicate, get_elem?, set, Option, none, some, ltb, leb, ◌==◌, if◌then◌else◌,
}
use dnscrypt_proxy_fork.Base.Int.{ℤ, pos, negsuc}
use dnscrypt_proxy_fork.Exchange.{ExchangeOutcome}
use dnscrypt_proxy_fork.Float.{Float64}
use Epoch.{MetricsEpoch, new_metrics_epoch, reset, count_outcome, inc_if, u64}

abbrev pub metrics_epoch_count : ℕ
metrics_epoch_count = 10

-- 5 minutes
abbrev pub metrics_window : ℕ
metrics_window = 300_000_000_000

pub record ResolverMetrics (F : Type 0) : Type 0 where
  pub epochs : List MetricsEpoch
  pub cur_epoch : ℕ
  pub epoch_start : ℕ
  pub total_samples : ℕ
  pub first_seen : ℕ
  pub last_seen : ℕ
  pub latency_ewma_ms : F
  pub jitter_ewma_ms : F
  pub has_latency : Bool
  pub prev_latency_ms : F
  pub window : ℕ
  pub epoch_dur : ℕ

pub record MetricsWindow (F : Type 0) : Type 0 where
  pub samples : ℕ
  pub total_samples : ℕ
  pub success : ℕ
  pub timeout : ℕ
  pub errors : ℕ
  pub servfail : ℕ
  pub dnssec_bogus : ℕ
  pub upstream_truncated : ℕ
  pub local_truncated : ℕ
  pub tcp_fallback : ℕ
  pub quic_fallback : ℕ
  pub conn_new : ℕ
  pub conn_reused : ℕ
  pub ecs_returned : ℕ
  pub latency_ewma_ms : F
  pub jitter_ewma_ms : F
  pub first_seen : ℕ
  pub last_seen : ℕ

-- The first update of the entry at an index, if it is there.
abbrev pub update_at {ℓ} : {A : Type ℓ} → (A → A) → List A → ℕ → List A
update_at f [] i = []
update_at f (x ∷ xs) zero = f x ∷ xs
update_at f (x ∷ xs) (suc i) = x ∷ update_at f xs i

-- The loop `for range steps`, over the epochs and the current index.
unfoldable pub rotate : ℕ → List MetricsEpoch → ℕ → List MetricsEpoch × ℕ
rotate zero es cur = (es, cur)
rotate (suc steps) es cur =
    let next = (cur + 1) % metrics_epoch_count in rotate steps (update_at reset es next) next

-- `steps` is 0 also where the clock stands before `epochStart`. An epoch of no length, where the
-- source's division would panic, needs a window below 10ns; here it never advances.
abbrev pub steps_since : ℕ → ℕ → ℕ → ℕ
steps_since now start dur = (now - start) / dur

-- Sum of a counter over the epochs, on uint64.
unfoldable pub sum_of : (MetricsEpoch → ℕ) → ℕ → List MetricsEpoch → ℕ
sum_of field acc [] = acc
sum_of field acc (e ∷ es) = sum_of field ((acc + field e) % u64) es

module _ {F : Type 0} where
  -- The two branches that rotate, for a positive number of steps.
  unfoldable pub shift_epochs : ResolverMetrics F → ℕ → ResolverMetrics F
  unfolding rotate
  shift_epochs m steps =
      let (es, cur) = rotate steps m.epochs m.cur_epoch in
      if leb metrics_epoch_count steps
      then record m {
        epochs = map reset m.epochs;
        cur_epoch = (m.cur_epoch + steps) % metrics_epoch_count;
        epoch_start = m.epoch_start + steps * m.epoch_dur;
      }
      else record m {
        epochs = es;
        cur_epoch = cur;
        epoch_start = m.epoch_start + steps * m.epoch_dur;
      }

  unfoldable pub advance_locked : ResolverMetrics F → ℕ → ResolverMetrics F
  advance_locked m now =
      if m.epoch_start == 0
      then record m { epoch_start = now }
      else let steps = steps_since now m.epoch_start m.epoch_dur in
        if steps == 0 then m else shift_epochs m steps

  unfoldable pub aggregate_locked : ResolverMetrics F → MetricsWindow F
  aggregate_locked m = record {
    samples = sum_of (λ e. e.total) 0 m.epochs;
    total_samples = m.total_samples;
    success = sum_of (λ e. e.success) 0 m.epochs;
    timeout = sum_of (λ e. e.timeout) 0 m.epochs;
    errors = sum_of (λ e. e.errors) 0 m.epochs;
    servfail = sum_of (λ e. e.servfail) 0 m.epochs;
    dnssec_bogus = sum_of (λ e. e.dnssec_bogus) 0 m.epochs;
    upstream_truncated = sum_of (λ e. e.upstream_truncated) 0 m.epochs;
    local_truncated = sum_of (λ e. e.local_truncated) 0 m.epochs;
    tcp_fallback = sum_of (λ e. e.tcp_fallback) 0 m.epochs;
    quic_fallback = sum_of (λ e. e.quic_fallback) 0 m.epochs;
    conn_new = sum_of (λ e. e.conn_new) 0 m.epochs;
    conn_reused = sum_of (λ e. e.conn_reused) 0 m.epochs;
    ecs_returned = sum_of (λ e. e.ecs_returned) 0 m.epochs;
    latency_ewma_ms = m.latency_ewma_ms;
    jitter_ewma_ms = m.jitter_ewma_ms;
    first_seen = m.first_seen;
    last_seen = m.last_seen;
  }

  -- The store that is left, and the view.
  unfoldable pub snapshot : ResolverMetrics F → ℕ → ResolverMetrics F × MetricsWindow F
  snapshot m now = let m' = advance_locked m now in (m', aggregate_locked m')

  -- `Truncated`
  abbrev pub truncated : MetricsWindow F → ℕ
  truncated w = (w.upstream_truncated + w.local_truncated) % u64

  -- `Warm`
  abbrev pub warm : ResolverMetrics F → ℕ → Bool
  warm m warmup_samples = ltb m.total_samples warmup_samples

module _ (fl : Float64) where
  open fl use {Carrier, of_int, literal, add, sub, mul, div, abs, lt, le}

  -- `latencyBucketFirstMs`, `latencyBucketGrowth` and `latencyBucketMaxMs`
  abbrev pub bucket_first_ms : Carrier
  bucket_first_ms = literal 1 1

  abbrev pub bucket_growth : Carrier
  bucket_growth = literal 5 4

  abbrev pub bucket_max_ms : Carrier
  bucket_max_ms = literal 10000 1

  -- The loop of `buildLatencyBucketEdges` from the value `v`; `none` is running out of fuel.
  unfoldable pub build_edges : ℕ → Carrier → Option (List Carrier)
  build_edges zero v = none
  build_edges (suc fuel) v =
      let rest = build_edges fuel (mul v bucket_growth) in
      if lt v bucket_max_ms
      then elim rest [ none ↦ none | some es ↦ some (v ∷ es) ]
      else some (bucket_max_ms ∷ [])

  -- `sort.SearchFloat64s`: the least index whose entry is at least x, or the length.
  pub search_floats : List Carrier → Carrier → ℕ
  search_floats [] x = 0
  search_floats (e ∷ es) x = let rest = search_floats es x in if le x e then 0 else suc rest

  -- `edges` is `latencyBucketEdges`, which is never empty.
  pub latency_bucket_index : List Carrier → Carrier → ℕ
  unfolding search_floats
  latency_bucket_index [] latency = 0
  latency_bucket_index (e ∷ es) latency =
      if le latency e
      then 0
      else if le bucket_max_ms latency
      then length es
      else search_floats (e ∷ es) latency

  abbrev pub zero_float : Carrier
  zero_float = literal 0 1

  -- `NewResolverMetricsWithWindow`, with a store of `bucket_count` buckets in each epoch
  unfoldable pub new_resolver_metrics : ℕ → ℤ → ResolverMetrics Carrier
  new_resolver_metrics bucket_count window = record {
    epochs = replicate metrics_epoch_count (new_metrics_epoch bucket_count);
    cur_epoch = 0;
    epoch_start = 0;
    total_samples = 0;
    first_seen = 0;
    last_seen = 0;
    latency_ewma_ms = zero_float;
    jitter_ewma_ms = zero_float;
    has_latency = false;
    prev_latency_ms = zero_float;
    window = length_of window;
    epoch_dur = length_of window / metrics_epoch_count;
  }
    where
      length_of : ℤ → ℕ
      length_of (pos zero) = metrics_window
      length_of (pos (suc n)) = suc n
      length_of (negsuc n) = metrics_window

  abbrev pub latency_ms_of : ExchangeOutcome → Carrier
  latency_ms_of o =
      let ms = div (of_int o.duration) (of_int (pos 1_000_000)) in
      if lt ms zero_float then zero_float else ms

  -- 2 / (span + 1), a constant
  abbrev alpha : Carrier
  alpha = literal 2 11

  -- The two moving averages.
  pub observe_latency : ResolverMetrics Carrier → Carrier → ResolverMetrics Carrier
  observe_latency m latency =
      let rest = sub (literal 1 1) alpha in
      let delta = abs (sub latency m.prev_latency_ms) in
      if m.has_latency
      then record m {
        jitter_ewma_ms = add (mul alpha delta) (mul rest m.jitter_ewma_ms);
        latency_ewma_ms = add (mul alpha latency) (mul rest m.latency_ewma_ms);
        prev_latency_ms = latency;
      }
      else record m { latency_ewma_ms = latency; has_latency = true; prev_latency_ms = latency }

  -- The time stamps and the lifetime count.
  abbrev pub stamp : ResolverMetrics Carrier → ℕ → ResolverMetrics Carrier
  stamp m now = record m {
    first_seen = if m.first_seen == 0 then now else m.first_seen;
    last_seen = now;
    total_samples = (m.total_samples + 1) % u64;
  }

  unfoldable pub observe :
      List Carrier → ResolverMetrics Carrier → ExchangeOutcome → ℕ → ResolverMetrics Carrier
  unfolding observe_latency
  observe edges m o now =
      let latency = latency_ms_of o in
      let m' = observe_latency (stamp (advance_locked m now) now) latency in
      record m' {
        epochs =
            update_at (λ e. count_outcome e o (latency_bucket_index edges latency)) m'.epochs
              m'.cur_epoch;
      }
