-- ===== src/Mds/Score.antt =====
-- dnscrypt-proxy/scheduler_mds.go: scoring the candidates.
use dnscrypt_proxy_fork.Base.{
  ℕ, suc, ◌+◌, ◌%◌, ◌^◌, Bool, not, ◌&&◌, List, [], ◌∷◌, map, String, leb, if◌then◌else◌, name_lt,
}
use dnscrypt_proxy_fork.Base.Int.{pos}
use dnscrypt_proxy_fork.Base.Dict.{lookup}
use dnscrypt_proxy_fork.Float.{Float64}
use dnscrypt_proxy_fork.Metrics.{MetricsWindow, snapshot, truncated}
use dnscrypt_proxy_fork.Metrics.Percentile.{
  Quantile, no_sample, out_of_range, value, percentile_buf,
}
use dnscrypt_proxy_fork.Servers.Server.{ServerInfo, ResolverCandidate}
use dnscrypt_proxy_fork.Mds.Circuit.{MdsParams}
use dnscrypt_proxy_fork.Mds.Scheduler.{LbStrategyMds, is_open_of, is_warming_locked}

pub record MdsScored (F : Type 0) : Type 0 where
  pub name : String
  pub warming : Bool
  pub is_open : Bool
  pub tail_ms : F
  pub cost : F
  pub penalty : F
  pub base : F
  pub soft : F

module _ (fl : Float64) where
  open fl use {Carrier, of_int, literal, add, sub, mul, div, abs, minimum, lt, le, eq, max_float}

  abbrev zero_score : Carrier
  zero_score = literal 0 1

  abbrev pub float_of : ℕ → Carrier
  float_of n = of_int (pos n)

  -- `tail` before its guard: the average, mixed with the 95th percentile if there is one. The
  -- index panic never happens on a well-formed store.
  pub mixed_tail : Carrier → Quantile → Carrier
  mixed_tail latency no_sample = latency
  mixed_tail latency out_of_range = latency
  mixed_tail latency (value d) =
      add (mul (literal 3 5) latency) (mul (literal 2 5) (div (of_int d) (of_int (pos 1_000_000))))

  pub mature_tail : Carrier → MetricsWindow Carrier → Quantile → Carrier
  unfolding mixed_tail
  mature_tail initial w p95 =
      let latency = if le w.latency_ewma_ms zero_score then initial else w.latency_ewma_ms in
      let tail = mixed_tail latency p95 in if le tail zero_score then initial else tail

  -- The weighted rates, added in the source's order; the counts are of uint64.
  pub quality_penalty : MdsParams Carrier → MetricsWindow Carrier → Carrier → Carrier
  quality_penalty p w tail =
      let rate = λ (n : ℕ). div (float_of n) (float_of w.samples) in
      let jitter =
        if lt zero_score tail
        then minimum (literal 1 1) (div w.jitter_ewma_ms tail)
        else zero_score in
      let fallbacks = (w.tcp_fallback + w.quic_fallback) % 2 ^ 64 in
      let p1 = add zero_score (mul p.weight_timeout (rate w.timeout)) in
      let p2 = add p1 (mul p.weight_errors (rate w.errors)) in
      let p3 = add p2 (mul p.weight_servfail (rate w.servfail)) in
      let p4 = add p3 (mul p.weight_bogus (rate w.dnssec_bogus)) in
      let p5 = add p4 (mul p.weight_truncated (rate (truncated w))) in
      let p6 = add p5 (mul p.weight_fallback (rate fallbacks)) in
      let p7 = add p6 (mul p.weight_conn_new (rate w.conn_new)) in
      add p7 (mul p.weight_jitter jitter)

  pub soft_preference :
      {R : Type 0}
      → MdsParams Carrier
      → ServerInfo Carrier R
      → MetricsWindow Carrier
      → Bool
      → Carrier
  soft_preference p server w warming =
      let one = literal 1 1 in
      let s1 = if server.supports_no_filter then add zero_score one else zero_score in
      let s2 = if server.supports_dnssec then add s1 one else s1 in
      if not warming && leb p.penalty_min_samples w.samples
      then add s2 (div (float_of w.ecs_returned) (float_of w.samples))
      else s2

  -- One round of the first loop of `scoreAll`, from the readings of the metric store.
  unfoldable pub score_one :
      {R : Type 0}
      → LbStrategyMds Carrier
      → ServerInfo Carrier R
      → MetricsWindow Carrier
      → Quantile
      → MdsScored Carrier
  unfolding mature_tail quality_penalty soft_preference
  score_one s server w p95 =
      let p = s.params in
      let warming = is_warming_locked s server.name w.total_samples p.warmup_samples in
      let tail =
        if warming
        then of_int server.initial_rtt
        else mature_tail (of_int server.initial_rtt) w p95 in
      record {
        name = server.name;
        warming = warming;
        is_open = is_open_of (lookup server.name s.circuits);
        tail_ms = tail;
        cost = zero_score;
        penalty =
            if not warming && leb p.penalty_min_samples w.samples
            then quality_penalty p w tail
            else zero_score;
        base = zero_score;
        soft = soft_preference p server w warming;
      }

  -- The store after the readings of one round, at the times of the two calls, and the score.
  unfoldable pub score_candidate :
      {R : Type 0}
      → List Carrier
      → LbStrategyMds Carrier
      → ResolverCandidate Carrier R
      → ℕ × ℕ
      → ResolverCandidate Carrier R × MdsScored Carrier
  score_candidate edges s c (at1, at2) =
      let (m1, w) = snapshot c.metrics at1 in
      let (m2, p95) = percentile_buf fl edges m1 (literal 19 20) at2 in
      let name = c.server.name in
      let warming = is_warming_locked s name w.total_samples s.params.warmup_samples in
      (record c { metrics = if warming then m1 else m2 }, score_one s c.server w p95)

  -- The first loop of `scoreAll`; `clock i` holds the readings of its round `i`.
  unfoldable pub score_candidates :
      {R : Type 0}
      → List Carrier
      → LbStrategyMds Carrier
      → List (ResolverCandidate Carrier R)
      → (ℕ → ℕ × ℕ)
      → ℕ
      → List (ResolverCandidate Carrier R) × List (MdsScored Carrier)
  score_candidates edges s [] clock i = ([], [])
  score_candidates edges s (c ∷ cs) clock i =
      let (c', x) = score_candidate edges s c (clock i) in
      let (cs', xs) = score_candidates edges s cs clock (suc i) in (c' ∷ cs', x ∷ xs)

  abbrev pub best_tail : List (MdsScored Carrier) → Carrier → Carrier
  best_tail [] best = best
  best_tail (x ∷ xs) best = best_tail xs (if lt x.tail_ms best then x.tail_ms else best)

  abbrev pub worst_tail : List (MdsScored Carrier) → Carrier → Carrier
  worst_tail [] worst = worst
  worst_tail (x ∷ xs) worst = worst_tail xs (if lt worst x.tail_ms then x.tail_ms else worst)

  abbrev pub clamp_cost : Carrier → Carrier
  clamp_cost c =
      if lt c zero_score then zero_score else if lt (literal 1 1) c then literal 1 1 else c

  -- One round of the second loop.
  unfoldable pub price : Carrier → Carrier → MdsScored Carrier → MdsScored Carrier
  price best worst x =
      let spread = sub worst best in
      let cost =
        if lt (literal 1 1_000_000_000) spread
        then clamp_cost (div (sub x.tail_ms best) spread)
        else zero_score in
      record x { cost = cost; base = sub (sub (literal 1 1) cost) x.penalty }

  unfoldable pub score_all :
      {R : Type 0}
      → List Carrier
      → LbStrategyMds Carrier
      → List (ResolverCandidate Carrier R)
      → (ℕ → ℕ × ℕ)
      → List (ResolverCandidate Carrier R) × List (MdsScored Carrier)
  score_all edges s cs clock =
      let (cs', xs) = score_candidates edges s cs clock 0 in
      (cs', map (price (best_tail xs max_float) (worst_tail xs zero_score)) xs)

  -- `better`: outside the tie band the score decides, inside it the preferences, then the name.
  unfoldable pub better : MdsParams Carrier → MdsScored Carrier → MdsScored Carrier → Bool
  better p a b =
      if lt p.tie_band (abs (sub a.base b.base))
      then lt b.base a.base
      else if not (eq a.soft b.soft)
      then lt b.soft a.soft
      else name_lt a.name b.name
