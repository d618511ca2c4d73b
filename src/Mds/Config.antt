-- ===== src/Mds/Config.antt =====
-- dnscrypt-proxy/config_loader.go: the section scheduler_mds of the configuration, and the defaults of
-- dnscrypt-proxy/scheduler_mds.go. Durations are in nanoseconds.
use dnscrypt_proxy_fork.Base.{
  ℕ, ◌*◌, ◌≤◌, inl, inr, ◌||◌, Option, none, some, String, Option-cases, ltb, if◌then◌else◌, arith,
}
use dnscrypt_proxy_fork.Base.Int.{ℤ, pos, negsuc}
use dnscrypt_proxy_fork.Float.{Float64}
use dnscrypt_proxy_fork.Metrics.{metrics_window}
use dnscrypt_proxy_fork.Mds.Circuit.{MdsParams}

-- A key that is absent is `none`.
pub record MdsSchedulerConfig (F : Type 0) : Type 0 where
  pub warmup_samples : Option ℕ
  pub penalty_min_samples : Option ℕ
  pub switch_margin : Option F
  pub tie_band : Option F
  pub dwell : Option String
  pub exploration_probability : Option F
  pub circuit_breaker_threshold : Option ℕ
  pub half_open_interval : Option String
  pub metrics_window : Option String
  pub weight_timeout : Option F
  pub weight_errors : Option F
  pub weight_servfail : Option F
  pub weight_dnssec_bogus : Option F
  pub weight_truncated : Option F
  pub weight_fallback : Option F
  pub weight_conn_new : Option F
  pub weight_jitter : Option F

abbrev pub one_second : ℕ
one_second = 1_000_000_000

abbrev pub one_hour : ℕ
one_hour = 3600 * one_second

-- The value of a key in a range, or the default.
unfoldable pub nat_in_range : Option ℕ → ℕ → ℕ → ℕ → ℕ
nat_in_range none low high default = default
nat_in_range (some n) low high default = if ltb n low || ltb high n then default else n

-- `parse_duration` is `time.ParseDuration`, with `none` for an error.
unfoldable pub duration_in_range : (String → Option ℤ) → Option String → ℕ → ℕ → ℕ → ℕ
duration_in_range parse_duration none low high default = default
duration_in_range parse_duration (some s) low high default = elim (parse_duration s) [
  | none ↦ default
  | some (negsuc n) ↦ default
  | some (pos d) ↦ if ltb d low || ltb high d then default else d
]

module _ (fl : Float64) where
  unfoldable pub float_in_range :
      Option fl.Carrier → fl.Carrier → fl.Carrier → fl.Carrier → fl.Carrier
  float_in_range none low high default = default
  float_in_range (some v) low high default = if fl.lt v low || fl.lt high v then default else v

  unfoldable pub default_mds_params : MdsParams fl.Carrier
  default_mds_params = record {
    warmup_samples = 20;
    penalty_min_samples = 10;
    switch_margin = fl.literal 15 100;
    tie_band = fl.literal 3 100;
    dwell = 5 * one_second;
    explore_prob = fl.literal 15 100;
    breaker_threshold = 3;
    half_open_interval = 10 * one_second;
    weight_timeout = fl.literal 5 10;
    weight_errors = fl.literal 3 10;
    weight_servfail = fl.literal 2 10;
    weight_bogus = fl.literal 5 10;
    weight_truncated = fl.literal 5 100;
    weight_fallback = fl.literal 1 10;
    weight_conn_new = fl.literal 5 100;
    weight_jitter = fl.literal 1 10;
  }

  -- The numbers of samples, both at their defaults if the second exceeds the first.
  unfoldable pub samples_of : MdsSchedulerConfig fl.Carrier → ℕ × ℕ
  samples_of cfg =
      let warmup = nat_in_range cfg.warmup_samples 1 10000 20 in
      let penalty_min = nat_in_range cfg.penalty_min_samples 1 10000 10 in
      if ltb warmup penalty_min then (20, 10) else (warmup, penalty_min)

  -- The margin of a switch and the band of ties, likewise.
  unfoldable pub margins_of : MdsSchedulerConfig fl.Carrier → fl.Carrier × fl.Carrier
  margins_of cfg =
      let zero = fl.literal 0 1 in
      let margin = float_in_range cfg.switch_margin zero (fl.literal 1 1) (fl.literal 15 100) in
      let band = float_in_range cfg.tie_band zero (fl.literal 5 10) (fl.literal 3 100) in
      if fl.lt margin band then (fl.literal 15 100, fl.literal 3 100) else (margin, band)

  abbrev pub weight_of : Option fl.Carrier → fl.Carrier → fl.Carrier
  weight_of v default = float_in_range v (fl.literal 0 1) (fl.literal 10 1) default

  -- `applyMDSConfig`, with the length of the metrics window.
  unfoldable pub apply_mds_config :
      (String → Option ℤ) → MdsSchedulerConfig fl.Carrier → MdsParams fl.Carrier × ℕ
  apply_mds_config parse_duration cfg =
      let d = default_mds_params in
      let (warmup, penalty_min) = samples_of cfg in
      let (margin, band) = margins_of cfg in
      (
        record {
          warmup_samples = warmup;
          penalty_min_samples = penalty_min;
          switch_margin = margin;
          tie_band = band;
          dwell = duration_in_range parse_duration cfg.dwell 0 one_hour d.dwell;
          explore_prob =
              float_in_range cfg.exploration_probability (fl.literal 0 1) (fl.literal 1 1)
                d.explore_prob;
          breaker_threshold = nat_in_range cfg.circuit_breaker_threshold 1 100 d.breaker_threshold;
          half_open_interval =
              duration_in_range parse_duration cfg.half_open_interval one_second one_hour
                d.half_open_interval;
          weight_timeout = weight_of cfg.weight_timeout d.weight_timeout;
          weight_errors = weight_of cfg.weight_errors d.weight_errors;
          weight_servfail = weight_of cfg.weight_servfail d.weight_servfail;
          weight_bogus = weight_of cfg.weight_dnssec_bogus d.weight_bogus;
          weight_truncated = weight_of cfg.weight_truncated d.weight_truncated;
          weight_fallback = weight_of cfg.weight_fallback d.weight_fallback;
          weight_conn_new = weight_of cfg.weight_conn_new d.weight_conn_new;
          weight_jitter = weight_of cfg.weight_jitter d.weight_jitter;
        },
        duration_in_range parse_duration cfg.metrics_window (30 * one_second) (1800 * one_second)
            metrics_window,
      )

nat_in_range_bounds :
    (o : Option ℕ) (low high default : ℕ)
    → low ≤ default
    → default ≤ high
    → (low ≤ nat_in_range o low high default) × (nat_in_range o low high default ≤ high)
unfolding nat_in_range
nat_in_range_bounds none low high default h g = (h, g)
nat_in_range_bounds (some n) low high default h g = (ground arith, ground arith)

duration_in_range_bounds :
    (parse_duration : String → Option ℤ) (o : Option String) (low high default : ℕ)
    → low ≤ default
    → default ≤ high
    → let d = duration_in_range parse_duration o low high default in (low ≤ d) × (d ≤ high)
unfolding duration_in_range
duration_in_range_bounds parse_duration none low high default h g = (h, g)
duration_in_range_bounds parse_duration (some s) low high default h g =
    elim (Option-cases (parse_duration s)) [
      | inl e ↦ (rw (duration_in_range, e) h, rw (duration_in_range, e) g)
      | inr (negsuc n, e) ↦ (rw (duration_in_range, e) h, rw (duration_in_range, e) g)
      | inr (pos d, e) ↦ (ground (arith, e), ground (arith, e))
    ]

-- Whatever the section says, the two numbers of samples, the threshold of the breaker, the dwell, the
-- half-open interval and the metrics window are in their ranges, and the least number of samples for a
-- penalty is at most that of the warm-up.
pub apply_mds_config_bounds :
    (fl : Float64) (parse_duration : String → Option ℤ) (cfg : MdsSchedulerConfig fl.Carrier)
    → let (p, window) = apply_mds_config fl parse_duration cfg in
      (1 ≤ p.penalty_min_samples)
      × (p.penalty_min_samples ≤ p.warmup_samples)
      × (p.warmup_samples ≤ 10000)
      × (1 ≤ p.breaker_threshold)
      × (p.breaker_threshold ≤ 100)
      × (p.dwell ≤ one_hour)
      × (one_second ≤ p.half_open_interval)
      × (p.half_open_interval ≤ one_hour)
      × (30 * one_second ≤ window)
      × (window ≤ 1800 * one_second)
unfolding apply_mds_config default_mds_params samples_of
apply_mds_config_bounds fl parse_duration cfg =
    let (w1, w2) = nat_in_range_bounds cfg.warmup_samples 1 10000 20 (omega arith) (omega arith) in
    let (q1, q2) =
      nat_in_range_bounds cfg.penalty_min_samples 1 10000 10 (omega arith) (omega arith) in
    let (b1, b2) =
      nat_in_range_bounds cfg.circuit_breaker_threshold 1 100 3 (omega arith) (omega arith) in
    let (d1, d2) =
      duration_in_range_bounds parse_duration cfg.dwell 0 one_hour (5 * one_second) (omega arith)
        (omega arith) in
    let (h1, h2) =
      duration_in_range_bounds parse_duration cfg.half_open_interval one_second one_hour
        (10 * one_second) (omega arith) (omega arith) in
    let (m1, m2) =
      duration_in_range_bounds parse_duration cfg.metrics_window (30 * one_second)
        (1800 * one_second) metrics_window (omega arith) (omega arith) in
    (ground arith, ground arith, ground arith, b1, b2, d2, h1, h2, m1, m2)
