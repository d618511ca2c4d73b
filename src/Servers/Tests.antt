-- ===== src/Servers/Tests.antt =====
-- Concrete tables of resolvers, with the floats in units of 1/1000.
use dnscrypt_proxy_fork.Base.{
  if◌then◌else◌, ℕ, ◌<◌, ◌≡◌, refl, true, false, ◌&&◌, ◌||◌, List, [], ◌∷◌, get_elem?, Option, some,
  String, arith, All,
}
use dnscrypt_proxy_fork.Base.Int.{sub_ℕ, pos}
use dnscrypt_proxy_fork.Base.Dict.{lookup}
use dnscrypt_proxy_fork.Exchange.{ExchangeOutcome, unknown}
use dnscrypt_proxy_fork.Float.{milli}
use dnscrypt_proxy_fork.Mds.Circuit.{MdsParams}
use dnscrypt_proxy_fork.Mds.Scheduler.{new_mds}
use dnscrypt_proxy_fork.Mds.Select.{select_candidate_locked}
use dnscrypt_proxy_fork.Servers.Server.{ServerInfo, MovingAverage, ResolverCandidate}
use dnscrypt_proxy_fork.Servers.Strategy.{mds}
use dnscrypt_proxy_fork.Servers.Ranking.{Live}
use dnscrypt_proxy_fork.Servers.Info.{
  refresh_server, ServersInfo, new_servers_info, server_by_name, begin_odoh_refresh,
}
use dnscrypt_proxy_fork.Servers.Refresh.{IsServed, refresh_server-IsServed}
use dnscrypt_proxy_fork.Servers.Registry.{
  RefreshStep, begin, end', cancel, refresh_steps, begin_odoh_refresh_exclusive,
}
use dnscrypt_proxy_fork.Servers.GetOne.{Draws, picked, get_one}
use dnscrypt_proxy_fork.Servers.Picking.{seen, get_one_scheduled}
use dnscrypt_proxy_fork.Servers.Feedback.{
  Exchanged, no_error, failure, settle_outcome, has_failed, observe_outcome,
}
use dnscrypt_proxy_fork.Servers.Outcomes.{IsCounted, settle_outcome_lem, observe_outcome-IsCounted}

-- An average that is the last value.
abbrev last_value : MovingAverage ℕ
last_value = record { State = ℕ; value = λ r. r; add = λ r x. x; set = λ r x. x }

abbrev server : String → ℕ → ServerInfo ℕ ℕ
server name rtt = record {
  name = name;
  initial_rtt = pos 20;
  rtt = rtt;
  last_action_ts = 100;
  supports_dnssec = true;
  supports_no_log = true;
  supports_no_filter = false;
  total_queries = 4;
  failed_queries = 1;
  last_update_time = 100;
  last_decay_ts = 100;
}

abbrev live : List (ServerInfo ℕ ℕ)
live = server "a" 30_000 ∷ server "b" 20_000 ∷ server "c" 90_000 ∷ []

lowest : (n : ℕ) → 0 < n → 0 < n
lowest n h = h

abbrev table : ServersInfo ℕ ℕ ℕ
table = record (new_servers_info ℕ ℕ ℕ) {
  inner = live;
  odoh_refresh_in_flight = [];
  odoh_last_failure_at = [];
}

abbrev empty_table : ServersInfo ℕ ℕ ℕ
empty_table = record table { inner = [] }

-- After a first server has been published.
abbrev one_server : ServersInfo ℕ ℕ ℕ
one_server = refresh_server milli 2 empty_table (some (server "a" 7)) 5

one_server-IsServed : IsServed milli 2 one_server
one_server-IsServed = refresh_server-IsServed milli 2 empty_table (some (server "a" 7)) 5 tt

refresh_server-IsServed_example :
    IsServed milli 2 (refresh_server milli 2 one_server (some (server "b" 9)) 6)
refresh_server-IsServed_example =
    refresh_server-IsServed milli 2 one_server (some (server "b" 9)) 6 one_server-IsServed

-- Another name's claim that is granted and fails, another try for the name, and a cancel.
abbrev other_claims : List RefreshStep
other_claims = begin "b" 10 51 ∷ end' "b" false 60 ∷ begin "a" 0 61 ∷ cancel "c" ∷ []

begin_odoh_refresh_exclusive_example :
    (begin_odoh_refresh
      (refresh_steps (begin_odoh_refresh table "a" 10 50).0 other_claims)
      "a"
      20
      70).1
    ≡ false
unfolding begin_odoh_refresh lookup
begin_odoh_refresh_exclusive_example =
    begin_odoh_refresh_exclusive table "a" 10 50 other_claims 20 70 refl
      (refl, (refl, (refl, (refl, tt))))

abbrev exchange : ExchangeOutcome
exchange = record {
  duration = pos 0;
  transport = unknown;
  timeout = false;
  error = false;
  servfail = false;
  dnssec_bogus = false;
  upstream_truncated = false;
  local_truncated = false;
  tcp_fallback = false;
  quic_fallback = false;
  conn_reused = true;
  ecs_returned = false;
}

abbrev exchanged : Exchanged
exchanged = record {
  server_name = "a";
  exchange_start = 1000;
  exchange = exchange;
  timed_out = false;
  dropped = false;
  dnssec = false;
}

-- A packet of one SERVFAIL header and 14 more bytes.
abbrev response : List ℕ
response = 0 ∷ 0 ∷ 128 ∷ 2 ∷ 0 ∷ 1 ∷ 0 ∷ 0 ∷ 0 ∷ 0 ∷ 0 ∷ 0 ∷ 1 ∷ 97 ∷ 0 ∷ 0 ∷ 1 ∷ 0 ∷ 1 ∷ []

-- Packets without any option.
abbrev no_scopes : List ℕ → Option (List ℕ)
no_scopes packet = some []

settle_outcome_example :
    let o = settle_outcome no_scopes 5_000_000_000 exchanged response no_error 9000 in
    let failed = has_failed no_scopes response no_error in
    ((o.timeout || o.error) ≡ failed)
    × ((o.timeout && o.error) ≡ false)
    × ((o.servfail && o.dnssec_bogus) ≡ false)
    × ((failed && (o.servfail || o.dnssec_bogus || o.ecs_returned)) ≡ false)
    × (o.duration ≡ (if failed then pos 5_000_000_000 else sub_ℕ 9000 exchanged.exchange_start))
settle_outcome_example =
    settle_outcome_lem no_scopes 5_000_000_000 exchanged response no_error 9000 refl refl refl refl
      refl

abbrev two_edges : List ℕ
two_edges = 9_000_000 ∷ 10_000_000 ∷ []

observe_outcome-IsCounted_example :
    let r =
      observe_outcome milli last_value two_edges no_scopes 5_000_000_000 table exchanged response
        (failure true true)
        9000
        9001
        9002 in
    All IsCounted r.inner
    × (server_by_name "b" r.inner ≡ server_by_name "b" table.inner)
    × (lookup "b" r.metrics ≡ lookup "b" table.metrics)
unfolding IsCounted
observe_outcome-IsCounted_example =
    observe_outcome-IsCounted milli last_value two_edges no_scopes 5_000_000_000 table exchanged
      response (failure true true) 9000 9001 9002 "b" refl
      ((omega arith, omega arith), ((omega arith, omega arith), ((omega arith, omega arith), tt)))

abbrev params : MdsParams ℕ
params = record {
  warmup_samples = 2;
  penalty_min_samples = 1;
  switch_margin = 150;
  tie_band = 50;
  dwell = 30_000_000_000;
  explore_prob = 50;
  breaker_threshold = 2;
  half_open_interval = 10_000_000_000;
  weight_timeout = 1000;
  weight_errors = 600;
  weight_servfail = 300;
  weight_bogus = 800;
  weight_truncated = 100;
  weight_fallback = 100;
  weight_conn_new = 50;
  weight_jitter = 200;
}

abbrev scheduled : ServersInfo ℕ ℕ ℕ
scheduled = record table { lb_strategy = mds (new_mds params) }

abbrev draws : Draws ℕ
draws = record {
  intn = λ n. 0;
  second_intn = λ n. 0;
  redraws = [];
  coin = 500;
  explore = 900;
  explore_intn = λ n. 0;
  clock = λ i. (150, 150);
  wall = 200;
  now = 150;
  at = 160;
}

get_one_scheduled_example :
    let cs = seen milli last_value two_edges scheduled 200 in
    let i =
      (select_candidate_locked milli two_edges
        (new_mds params)
        cs
        draws.clock
        150
        160
        900
        draws.explore_intn).2 in
    (x : Live milli last_value) × (c : ResolverCandidate ℕ ℕ) × ((get_one milli last_value two_edges
        scheduled draws).1
      ≡ picked x)
    × (get_elem? cs i ≡ some c)
    × (x.name ≡ c.server.name)
get_one_scheduled_example =
    get_one_scheduled milli last_value two_edges scheduled (new_mds params) draws refl (omega arith)
