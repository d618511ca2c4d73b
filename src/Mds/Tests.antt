-- ===== src/Mds/Tests.antt =====
-- Concrete schedulers, circuits and candidates, in units of 1/1000 for the floats.
use dnscrypt_proxy_fork.Base.{
  ℕ, ◌+◌, ◌≤◌, ◌≡◌, ◌≢◌, ◌↔◌, ◌⊎◌, refl, Bool, true, false, List, [], ◌∷◌, get_elem?, some, String,
  arith, Option, none, ◌*◌,
}
use dnscrypt_proxy_fork.Base.Int.{ℤ, pos}
use dnscrypt_proxy_fork.Base.Dict.{lookup, insert}
use dnscrypt_proxy_fork.Exchange.{ExchangeOutcome, dnscrypt_udp}
use dnscrypt_proxy_fork.Float.{milli}
use dnscrypt_proxy_fork.Metrics.{new_resolver_metrics}
use dnscrypt_proxy_fork.Servers.Server.{ServerInfo, ResolverCandidate}
use dnscrypt_proxy_fork.Mds.Circuit.{
  MdsParams, MdsCircuit, zero_circuit, is_hard_failure, observe_circuit, next_fails,
}
use dnscrypt_proxy_fork.Mds.Config.{
  MdsSchedulerConfig, apply_mds_config, apply_mds_config_bounds, one_hour, one_second,
}
use dnscrypt_proxy_fork.Mds.Breaker.{
  Observation, observe_all, Move, phase, IsSound, observe_circuit-Move, opens_iff, cold_start,
  streak_opens,
}
use dnscrypt_proxy_fork.Mds.Scheduler.{LbStrategyMds, new_mds, observe_feedback_locked}
use dnscrypt_proxy_fork.Mds.Score.{MdsScored}
use dnscrypt_proxy_fork.Mds.Select.{
  choose, pick_half_open_probe, half_open_from, half_open_round, find_name, select_candidate_locked,
}
use dnscrypt_proxy_fork.Mds.Selection.{choose_healthy}
use dnscrypt_proxy_fork.Mds.Primary.{choose_sticky, Earned}
use dnscrypt_proxy_fork.Mds.Probes.{
  IsAllSound, observe_feedback_locked-IsAllSound, select-IsAllSound, probe_exclusive,
}

abbrev params : MdsParams ℕ
params = record {
  warmup_samples = 2;
  penalty_min_samples = 1;
  switch_margin = 150;
  tie_band = 50;
  dwell = 30_000_000_000;
  explore_prob = 50;
  breaker_threshold = 2;
  half_open_interval = 10_000_000_000;
  weight_timeout = 1000;
  weight_errors = 600;
  weight_servfail = 300;
  weight_bogus = 800;
  weight_truncated = 100;
  weight_fallback = 100;
  weight_conn_new = 50;
  weight_jitter = 200;
}

abbrev outcome : Bool → ExchangeOutcome
outcome lost = record {
  duration = pos 20_000_000;
  transport = dnscrypt_udp;
  timeout = lost;
  error = false;
  servfail = false;
  dnssec_bogus = false;
  upstream_truncated = false;
  local_truncated = false;
  tcp_fallback = false;
  quic_fallback = false;
  conn_reused = true;
  ecs_returned = false;
}

abbrev lost_at : ℕ → Observation
lost_at total = record { outcome = outcome true; total = total; at = 100 + total }

-- A circuit that has recovered, with a probation until the fifth exchange.
abbrev recovered : MdsCircuit
recovered = record zero_circuit { recover_until_total = 5 }

streak_opens_example : (observe_all params recovered (lost_at 5 ∷ lost_at 6 ∷ [])).is_open ≡ true
streak_opens_example =
    streak_opens params recovered (lost_at 5 ∷ lost_at 6 ∷ []) (omega arith) refl (omega arith)
      ((refl, omega arith), ((refl, omega arith), tt)) (omega arith, (omega arith, tt))

cold_start_example :
    (observe_all params zero_circuit (lost_at 0 ∷ lost_at 1 ∷ lost_at 1 ∷ [])).is_open ≡ false
cold_start_example =
    cold_start params zero_circuit (lost_at 0 ∷ lost_at 1 ∷ lost_at 1 ∷ []) refl
      (omega arith, (omega arith, (omega arith, tt)))

abbrev open_circuit : Bool → MdsCircuit
open_circuit probing = record {
  consec_hard_fails = 2;
  is_open = true;
  probing = probing;
  opened_at = 100;
  next_probe_at = 200;
  recover_until_total = 0;
}

observe_circuit-Move_example :
    Move false
      (phase (open_circuit true))
      (phase (observe_circuit params (open_circuit true) (outcome false) 9 300))
observe_circuit-Move_example = observe_circuit-Move params (open_circuit true) (outcome false) 9 300

opens_iff_example :
    ((observe_circuit params zero_circuit (outcome true) 9 300).is_open ≡ true)
    ↔ ((is_hard_failure (outcome true) ≡ true) × (0 ≤ 9) × (2 ≤ 9) × (2 ≤ next_fails zero_circuit))
opens_iff_example = opens_iff params zero_circuit (outcome true) 9 300 refl

open-IsSound : (probing : Bool) → IsSound params (open_circuit probing)
open-IsSound probing = record {
  probing_open = λ e. refl;
  open_recovery = λ e. refl;
  closed_streak = λ e. absurd (cc);
}

-- A scheduler on which `a` is open, with a probe in flight or not, and `b` is primary.
abbrev scheduler : Bool → LbStrategyMds ℕ
scheduler probing = record (new_mds params) {
  primary_name = "b";
  circuits = ("a", open_circuit probing) ∷ [];
}

scheduler-IsAllSound : (probing : Bool) → IsAllSound (scheduler probing)
unfolding lookup
scheduler-IsAllSound probing n cb h = grind (arith, open-IsSound probing)

observe_feedback_locked-IsAllSound_example :
    IsAllSound (observe_feedback_locked (scheduler true) "a" (outcome true) 9 300)
    × (lookup "b" (observe_feedback_locked (scheduler true) "a" (outcome true) 9 300).circuits
        ≡ lookup "b" (scheduler true).circuits)
unfolding new_mds
observe_feedback_locked-IsAllSound_example =
    observe_feedback_locked-IsAllSound (scheduler true) "a" "b" (outcome true) 9 300 (omega arith)
      refl (scheduler-IsAllSound true)

abbrev scored : String → Bool → ℕ → MdsScored ℕ
scored name is_open base = record {
  name = name;
  warming = false;
  is_open = is_open;
  tail_ms = 20_000;
  cost = 500;
  penalty = 0;
  base = base;
  soft = 0;
}

abbrev two_scored : List (MdsScored ℕ)
two_scored = scored "a" true 100 ∷ scored "b" false 500 ∷ []

choose_healthy_example :
    (y : MdsScored ℕ) × (get_elem? two_scored
        (choose milli (scheduler false) two_scored 150 160 900 (λ n. 0)).1
      ≡ some y)
    × (y.is_open ≡ false)
unfolding pick_half_open_probe half_open_from half_open_round lookup new_mds
choose_healthy_example =
    choose_healthy milli (scheduler false) two_scored 150 160 900 (λ n. 0) 1 (scored "b" false 500)
      refl refl refl

choose_sticky_example :
    let s' = (choose milli (scheduler false) two_scored 150 160 900 (λ n. 0)).0 in
    (s'.primary_name ≡ "b")
    ⊎ Earned milli (scheduler false) two_scored 150 (scored "b" false 500) s'
unfolding find_name new_mds
choose_sticky_example =
    choose_sticky milli (scheduler false) two_scored 150 160 900 (λ n. 0) 1 (scored "b" false 500)
      refl refl

abbrev live_server : String → ServerInfo ℕ ℕ
live_server name = record {
  name = name;
  initial_rtt = pos 20;
  rtt = 20_000;
  last_action_ts = 100;
  supports_dnssec = true;
  supports_no_log = true;
  supports_no_filter = false;
  total_queries = 4;
  failed_queries = 1;
  last_update_time = 100;
  last_decay_ts = 100;
}

abbrev candidate : String → ResolverCandidate ℕ ℕ
candidate name = record {
  server = live_server name;
  metrics = new_resolver_metrics milli 2 (pos 0);
}

abbrev candidates : List (ResolverCandidate ℕ ℕ)
candidates = candidate "a" ∷ candidate "b" ∷ []

abbrev two_edges : List ℕ
two_edges = 1000 ∷ 2000 ∷ []

select-IsAllSound_example :
    IsAllSound
      (select_candidate_locked milli two_edges
        (scheduler false)
        candidates
        (λ i. (150, 150))
        250
        260
        900
        (λ n. 0)).0
select-IsAllSound_example =
    select-IsAllSound milli two_edges (scheduler false) candidates (λ i. (150, 150)) 250 260 900
      (λ n. 0) (scheduler-IsAllSound false)

-- Both `a` and `c` are open and due.
abbrev two_open : LbStrategyMds ℕ
two_open = record (scheduler false) {
  circuits =
      ("a", open_circuit false) ∷ ("c", record (open_circuit false) { opened_at = 120 }) ∷ [];
}

abbrev three_scored : List (MdsScored ℕ)
three_scored = scored "a" true 100 ∷ scored "b" false 500 ∷ scored "c" true 90 ∷ []

abbrev name_a : String
name_a = "a"

abbrev name_c : String
name_c = "c"

probe_exclusive_example : name_a ≢ name_c
unfolding choose pick_half_open_probe half_open_from half_open_round lookup new_mds insert
probe_exclusive_example =
    probe_exclusive milli two_open three_scored three_scored 250 260 300 0 2 900 (λ n. 0) name_a
      name_c (open_circuit false) (record (open_circuit false) { opened_at = 120 }) refl refl

abbrev no_durations : String → Option ℤ
no_durations text = none

-- A section with one number that is too large.
abbrev section : MdsSchedulerConfig ℕ
section = record {
  warmup_samples = some 20_000;
  penalty_min_samples = some 15;
  switch_margin = none;
  tie_band = none;
  dwell = some "5m";
  exploration_probability = none;
  circuit_breaker_threshold = some 0;
  half_open_interval = none;
  metrics_window = none;
  weight_timeout = none;
  weight_errors = none;
  weight_servfail = none;
  weight_dnssec_bogus = none;
  weight_truncated = none;
  weight_fallback = none;
  weight_conn_new = none;
  weight_jitter = none;
}

apply_mds_config_bounds_example :
    let (p, window) = apply_mds_config milli no_durations section in
    (1 ≤ p.penalty_min_samples)
    × (p.penalty_min_samples ≤ p.warmup_samples)
    × (p.warmup_samples ≤ 10000)
    × (1 ≤ p.breaker_threshold)
    × (p.breaker_threshold ≤ 100)
    × (p.dwell ≤ one_hour)
    × (one_second ≤ p.half_open_interval)
    × (p.half_open_interval ≤ one_hour)
    × (30 * one_second ≤ window)
    × (window ≤ 1800 * one_second)
apply_mds_config_bounds_example = apply_mds_config_bounds milli no_durations section
