-- ===== src/Exchange.antt =====
-- dnscrypt-proxy/scheduler_metrics.go: the record that is emitted after every upstream exchange.
use dnscrypt_proxy_fork.Base.{Bool}
use dnscrypt_proxy_fork.Base.Int.{ℤ}

pub data ExchangeTransport : Type 0 where
  unknown dnscrypt_udp dnscrypt_tcp doh_h2 doh_h3 odoh : ExchangeTransport

-- `duration` is in nanoseconds, and may be negative if the clock stepped back.
pub record ExchangeOutcome : Type 0 where
  pub duration : ℤ
  pub transport : ExchangeTransport
  pub timeout : Bool
  pub error : Bool
  pub servfail : Bool
  pub dnssec_bogus : Bool
  pub upstream_truncated : Bool
  pub local_truncated : Bool
  pub tcp_fallback : Bool
  pub quic_fallback : Bool
  pub conn_reused : Bool
  pub ecs_returned : Bool
