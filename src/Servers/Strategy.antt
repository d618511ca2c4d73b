-- ===== src/Servers/Strategy.antt =====
-- dnscrypt-proxy/serversInfo.go: the load-balancing strategies. `intn n` is the draw of
-- `rand.Intn(n)`; the draw is made only where the source makes it.
use dnscrypt_proxy_fork.Base.{ℕ, ◌+◌, ◌/◌, ◌<◌, ltb, leb, if◌then◌else◌}
use dnscrypt_proxy_fork.Mds.Scheduler.{LbStrategyMds}

-- `Min` and `Max` of common.go
unfoldable pub min_int : ℕ → ℕ → ℕ
min_int a b = if ltb a b then a else b

unfoldable pub max_int : ℕ → ℕ → ℕ
max_int a b = if ltb b a then a else b

pub data LbStrategy (F : Type 0) : Type 0 where
  p2 : LbStrategy F
  pn : ℕ → LbStrategy F
  ph : LbStrategy F
  first : LbStrategy F
  random : LbStrategy F
  wp2 : LbStrategy F
  mds : LbStrategyMds F → LbStrategy F

module _ {F : Type 0} where
  unfoldable pub get_candidate : LbStrategy F → ℕ → (ℕ → ℕ) → ℕ
  unfolding min_int
  get_candidate p2 servers_count intn = intn (min_int servers_count 2)
  get_candidate (pn n) servers_count intn = intn (min_int servers_count n)
  get_candidate ph servers_count intn = intn ((servers_count + 1) / 2)
  get_candidate first servers_count intn = 0
  get_candidate random servers_count intn = intn servers_count
  get_candidate wp2 servers_count intn = if leb servers_count 1 then 0 else intn servers_count
  get_candidate (mds s) servers_count intn = 0

  unfoldable pub get_active_count : LbStrategy F → ℕ → ℕ
  unfolding min_int
  get_active_count p2 servers_count = min_int servers_count 2
  get_active_count (pn n) servers_count = min_int servers_count n
  get_active_count ph servers_count = (servers_count + 1) / 2
  get_active_count first servers_count = 1
  get_active_count random servers_count = servers_count
  get_active_count wp2 servers_count = servers_count
  get_active_count (mds s) servers_count = servers_count

  -- What the configuration accepts: `pN` with a positive N.
  abbrev pub IsConfigured : LbStrategy F → Type 0
  IsConfigured (pn n) = 0 < n
  IsConfigured other = Unit {0}

-- `rand.Intn`: below its argument, where that is positive.
abbrev pub IsIntn : (ℕ → ℕ) → Type 0
IsIntn intn = (n : ℕ) → 0 < n → intn n < n
