-- ===== src/Servers/Server.antt =====
-- dnscrypt-proxy/serversInfo.go: one live resolver, as far as the schedulers read and write it.
use dnscrypt_proxy_fork.Base.{ℕ, Bool, String}
use dnscrypt_proxy_fork.Base.Int.{ℤ}
use dnscrypt_proxy_fork.Metrics.{ResolverMetrics}

-- A moving average of github.com/VividCortex/ewma, which is not modelled: its state and methods.
pub record MovingAverage (F : Type 0) : Type 1 where
  pub State : Type 0
  pub value : State → F
  pub add : State → F → State
  pub set : State → F → State

-- `F` is the type of float64 values and `R` that of the moving averages. The three `supports`
-- fields are the bits of `Props`.
pub record ServerInfo (F R : Type 0) : Type 0 where
  pub name : String
  pub initial_rtt : ℤ
  pub rtt : R
  pub last_action_ts : ℕ
  pub supports_dnssec : Bool
  pub supports_no_log : Bool
  pub supports_no_filter : Bool
  pub total_queries : ℕ
  pub failed_queries : ℕ
  pub last_update_time : ℕ
  pub last_decay_ts : ℕ

-- A live server with the store of its observations.
pub record ResolverCandidate (F R : Type 0) : Type 0 where
  pub server : ServerInfo F R
  pub metrics : ResolverMetrics F
