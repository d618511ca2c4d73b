-- ===== src/Mds/Circuit.antt =====
-- dnscrypt-proxy/scheduler_mds.go: the tunables, the circuit breaker of one resolver, and what
-- one observed exchange does to it. Times are nanoseconds since the zero time.
use dnscrypt_proxy_fork.Base.{
  ℕ, ◌+◌, ◌%◌, ◌^◌, Bool, true, false, not, ◌&&◌, ◌||◌, ltb, leb, if◌then◌else◌,
}
use dnscrypt_proxy_fork.Exchange.{ExchangeOutcome}

-- `F` is the type of float64 values.
pub record MdsParams (F : Type 0) : Type 0 where
  pub warmup_samples : ℕ
  pub penalty_min_samples : ℕ
  pub switch_margin : F
  pub tie_band : F
  pub dwell : ℕ
  pub explore_prob : F
  pub breaker_threshold : ℕ
  pub half_open_interval : ℕ
  pub weight_timeout : F
  pub weight_errors : F
  pub weight_servfail : F
  pub weight_bogus : F
  pub weight_truncated : F
  pub weight_fallback : F
  pub weight_conn_new : F
  pub weight_jitter : F

pub record MdsCircuit : Type 0 where
  pub consec_hard_fails : ℕ
  pub is_open : Bool
  pub probing : Bool
  pub opened_at : ℕ
  pub next_probe_at : ℕ
  pub recover_until_total : ℕ

-- `&mdsCircuit{}`
abbrev pub zero_circuit : MdsCircuit
zero_circuit = record {
  consec_hard_fails = 0;
  is_open = false;
  probing = false;
  opened_at = 0;
  next_probe_at = 0;
  recover_until_total = 0;
}

-- `cb.consecHardFails++` on a uint32
abbrev pub next_fails : MdsCircuit → ℕ
next_fails cb = (cb.consec_hard_fails + 1) % 2 ^ 32

abbrev pub is_hard_failure : ExchangeOutcome → Bool
is_hard_failure o = o.timeout || o.error

module _ {F : Type 0} where
  -- The last part of the failure branch: the streak grows, and may open the circuit.
  pub count_hard_failure : MdsParams F → MdsCircuit → ℕ → MdsCircuit
  count_hard_failure p cb now =
      if not cb.is_open && leb p.breaker_threshold (next_fails cb)
      then record {
        consec_hard_fails = next_fails cb;
        is_open = true;
        probing = false;
        opened_at = now;
        next_probe_at = now + p.half_open_interval;
        recover_until_total = 0;
      }
      else record cb { consec_hard_fails = next_fails cb }

  -- The branch `o.Timeout || o.Error`, with its early returns.
  pub observe_failure : MdsParams F → MdsCircuit → ℕ → ℕ → MdsCircuit
  unfolding count_hard_failure
  observe_failure p cb total_samples now =
      if cb.is_open && cb.probing
      then record cb {
        consec_hard_fails = next_fails cb;
        probing = false;
        next_probe_at = now + p.half_open_interval;
      }
      else if ltb total_samples cb.recover_until_total
      then record cb { recover_until_total = 0; consec_hard_fails = 1 }
      else if ltb total_samples p.warmup_samples
      then record cb { consec_hard_fails = 0 }
      else count_hard_failure p cb now

  -- Any response: the streak ends, and a half-open probe closes the circuit.
  pub observe_response : MdsParams F → MdsCircuit → ℕ → MdsCircuit
  observe_response p cb total_samples =
      if cb.is_open && cb.probing
      then record cb {
        consec_hard_fails = 0;
        is_open = false;
        probing = false;
        recover_until_total = (total_samples + p.warmup_samples) % 2 ^ 64;
      }
      else record cb { consec_hard_fails = 0 }

  -- What `observeFeedbackLocked` does to the circuit of the resolver.
  unfoldable pub observe_circuit : MdsParams F → MdsCircuit → ExchangeOutcome → ℕ → ℕ → MdsCircuit
  unfolding observe_failure observe_response
  observe_circuit p cb o total_samples now =
      if is_hard_failure o
      then observe_failure p cb total_samples now
      else observe_response p cb total_samples
