-- ===== src/Servers/Feedback.antt =====
-- dnscrypt-proxy/scheduler_feedback.go: what is learnt from one upstream exchange.
use dnscrypt_proxy_fork.Base.{
  ℕ, ◌+◌, ◌/◌, ◌%◌, ◌^◌, Bool, true, false, not, ◌&&◌, ◌||◌, List, [], ◌∷◌, length, get_elem?,
  Option, none, some, String, str_eq, ltb, leb, ◌==◌, if◌then◌else◌,
}
use dnscrypt_proxy_fork.Base.Int.{ℤ, pos, negsuc, sub_ℕ}
use dnscrypt_proxy_fork.Base.Dict.{insert}
use dnscrypt_proxy_fork.Exchange.{ExchangeOutcome}
use dnscrypt_proxy_fork.Float.{Float64}
use dnscrypt_proxy_fork.Metrics.{observe}
use dnscrypt_proxy_fork.Mds.Scheduler.{observe_feedback_locked}
use dnscrypt_proxy_fork.Servers.Server.{ServerInfo, MovingAverage}
use dnscrypt_proxy_fork.Servers.Strategy.{LbStrategy, mds}
use dnscrypt_proxy_fork.Servers.Ranking.{Live}
use dnscrypt_proxy_fork.Servers.Info.{ServersInfo, metrics_for_locked}

abbrev pub min_dns_packet_size : ℕ
min_dns_packet_size = 17

abbrev pub max_dns_packet_size : ℕ
max_dns_packet_size = 4096

-- `packet[3] & 0xf`; the callers have checked that the packet is long enough.
abbrev pub rcode : List ℕ → ℕ
rcode packet = elim (get_elem? packet 3) [ none ↦ 0 | some b ↦ b % 16 ]

abbrev rcode_server_failure : ℕ
rcode_server_failure = 2

-- What the proxy knows of an exchange when it is over: the fields of PluginsState that are read,
-- with whether `returnCode` is PluginsReturnCodeServerTimeout and whether `action` is
-- PluginsActionDrop. A start of 0 is the zero time.
pub record Exchanged : Type 0 where
  pub server_name : String
  pub exchange_start : ℕ
  pub exchange : ExchangeOutcome
  pub timed_out : Bool
  pub dropped : Bool
  pub dnssec : Bool

-- The error of an exchange, with what `isTimeoutError` says of it, which looks into what the error
-- wraps, and what the assertion `err.(net.Error)` with `Timeout` says, which does not.
pub data ExchangeError : Type 0 where
  no_error : ExchangeError
  failure : Bool → Bool → ExchangeError

abbrev pub is_error : ExchangeError → Bool
is_error no_error = false
is_error (failure t u) = true

abbrev pub is_timeout_error : ExchangeError → Bool
is_timeout_error no_error = false
is_timeout_error (failure t u) = t

abbrev pub is_net_timeout : ExchangeError → Bool
is_net_timeout no_error = false
is_net_timeout (failure t u) = u

-- Servfail, bogus, ecs.
pub record ResponseSignals : Type 0 where
  pub servfail : Bool
  pub bogus : Bool
  pub ecs : Bool

any_scope : List ℕ → Bool
any_scope [] = false
any_scope (scope ∷ scopes) = not (scope == 0) || any_scope scopes

-- `subnet_scopes` stands for `Unpack` of codeberg.org/miekg/dns: the scopes of the SUBNET options of
-- a packet, or `none` for an error.
module _ (subnet_scopes : List ℕ → Option (List ℕ)) where
  unfoldable pub classify_exchange_response : List ℕ → Bool → ResponseSignals
  unfolding any_scope
  classify_exchange_response response dnssec_expected =
      let is_servfail = rcode response == rcode_server_failure in
      if ltb (length response) min_dns_packet_size
      then record { servfail = false; bogus = false; ecs = false }
      else record {
        servfail = is_servfail && not dnssec_expected;
        bogus = is_servfail && dnssec_expected;
        ecs = elim (subnet_scopes response) [ none ↦ false | some scopes ↦ any_scope scopes ];
      }

  abbrev pub is_valid_response : List ℕ → Bool
  is_valid_response response =
      leb min_dns_packet_size (length response) && leb (length response) max_dns_packet_size

  abbrev pub has_failed : List ℕ → ExchangeError → Bool
  has_failed response err = is_error err || not (is_valid_response response)

  -- The outcome that is recorded: the flags and the duration. `timeout` is that of the proxy.
  unfoldable pub settle_outcome : ℕ → Exchanged → List ℕ → ExchangeError → ℕ → ExchangeOutcome
  settle_outcome timeout ps response err now =
      let signals = classify_exchange_response response ps.dnssec in
      if has_failed response err
      then (if ps.timed_out || is_timeout_error err
          then record ps.exchange { timeout = true; duration = pos timeout }
          else record ps.exchange { error = true; duration = pos timeout })
      else record ps.exchange {
        servfail = signals.servfail;
        dnssec_bogus = signals.bogus;
        ecs_returned = signals.ecs;
        duration = sub_ℕ now ps.exchange_start;
      }

-- The counters of WP2 after one more exchange.
unfoldable pub count_query : {F R : Type 0} → ServerInfo F R → Bool → ℕ → ServerInfo F R
count_query s failed now =
    let total = (s.total_queries + 1) % 2 ^ 64 in
    let lost = if failed then (s.failed_queries + 1) % 2 ^ 64 else s.failed_queries in
    if ltb 10000 total
    then record s { total_queries = total / 2; failed_queries = lost / 2; last_update_time = now }
    else record s { total_queries = total; failed_queries = lost; last_update_time = now }

-- A change of the first server of a name.
unfoldable pub update_named : {A : Type 0} → (A → Bool) → (A → A) → List A → List A
update_named is f [] = []
update_named is f (x ∷ xs) = if is x then f x ∷ xs else x ∷ update_named is f xs

module _ (fl : Float64) (ma : MovingAverage fl.Carrier) where
  -- The RTT of an answer in time, in whole milliseconds, and not of 0.
  unfoldable pub add_elapsed : ℕ → ℤ → ma.State → ma.State
  add_elapsed timeout (pos elapsed) rtt =
      if ltb 0 (elapsed / 1_000_000) && ltb elapsed timeout
      then ma.add rtt (fl.of_int (pos (elapsed / 1_000_000)))
      else rtt
  add_elapsed timeout (negsuc elapsed) rtt = rtt

  -- The write to the moving average of the RTT.
  unfoldable pub add_rtt : ℕ → Bool → ExchangeOutcome → Bool → ℤ → ma.State → ma.State
  add_rtt timeout failed o dropped elapsed rtt =
      if failed || o.servfail
      then ma.add rtt (fl.of_int (pos (timeout / 1_000_000)))
      else if o.dnssec_bogus || dropped
      then rtt
      else add_elapsed timeout elapsed rtt

  -- Both writes to the live server.
  abbrev pub note_server : ℕ → ExchangeOutcome → Bool → Bool → ℤ → ℕ → Live fl ma → Live fl ma
  note_server timeout o failed dropped elapsed now s = record (count_query s failed now) {
    rtt = add_rtt timeout failed o dropped elapsed s.rtt;
  }

  -- `receiver.observeFeedbackLocked`, which only one strategy has
  unfoldable pub give_feedback :
      LbStrategy fl.Carrier → String → ExchangeOutcome → ℕ → ℕ → LbStrategy fl.Carrier
  give_feedback (mds s) name o total at = mds (observe_feedback_locked s name o total at)
  give_feedback other name o total at = other

  module _ (edges : List fl.Carrier) {S : Type 0} where
    -- The part under the lock. `seen_at` and `at` are the readings of the store and the scheduler.
    unfoldable pub record_outcome :
        ℕ
        → ServersInfo fl.Carrier ma.State S
        → String
        → ExchangeOutcome
        → Bool
        → Bool
        → ℤ
        → ℕ
        → ℕ
        → ℕ
        → ServersInfo fl.Carrier ma.State S
    record_outcome timeout si name o failed dropped elapsed now seen_at at =
        let write = note_server timeout o failed dropped elapsed now in
        let (si', m) =
          metrics_for_locked fl (length edges)
            (record si { inner = update_named (λ s. str_eq s.name name) write si.inner }) name in
        let m' = observe fl edges m o seen_at in
        record si' {
          metrics = insert name m' si'.metrics;
          lb_strategy = give_feedback si'.lb_strategy name o m'.total_samples at;
        }

    unfoldable pub observe_outcome :
        (List ℕ → Option (List ℕ))
        → ℕ
        → ServersInfo fl.Carrier ma.State S
        → Exchanged
        → List ℕ
        → ExchangeError
        → ℕ
        → ℕ
        → ℕ
        → ServersInfo fl.Carrier ma.State S
    observe_outcome subnet_scopes timeout si ps response err now seen_at at =
        let o = settle_outcome subnet_scopes timeout ps response err now in
        if str_eq ps.server_name "" || ps.exchange_start == 0
        then si
        else record_outcome timeout si ps.server_name o (has_failed subnet_scopes response err)
            ps.dropped (sub_ℕ now ps.exchange_start) now seen_at at
