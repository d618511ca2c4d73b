-- ===== src/Metrics/Balance.antt =====
-- One epoch keeps its books: every sample is in one latency bucket and is either a new or a
-- reused connection.
use dnscrypt_proxy_fork.Base.{
  ℕ, zero, suc, ◌+◌, ◌≤◌, ◌<◌, ◌≡◌, refl, List, [], ◌∷◌, length, replicate, length-replicate, arith,
  ap,
}
use dnscrypt_proxy_fork.Exchange.{ExchangeOutcome}
use dnscrypt_proxy_fork.Metrics.Epoch.{
  MetricsEpoch, new_metrics_epoch, reset, inc_at, count_outcome, clear_buckets, u64,
}

-- All samples that a histogram holds.
unfoldable pub mass : List ℕ → ℕ
mass [] = 0
mass (c ∷ cs) = c + mass cs

pub record IsBalanced (n : ℕ) (e : MetricsEpoch) : Type 0 where
  pub bucket_count : length e.latency_buckets ≡ n
  pub buckets : mass e.latency_buckets ≡ e.total
  pub connections : e.conn_new + e.conn_reused ≡ e.total
  pub successes : e.success ≤ e.total

pub mass-replicate : (n : ℕ) → mass (replicate n 0) ≡ 0
unfolding mass
mass-replicate zero = refl
mass-replicate (suc n) = omega (arith, mass-replicate n)

mass-clear : (cs : List ℕ) → mass (clear_buckets cs) ≡ 0
unfolding mass
mass-clear [] = refl
mass-clear (c ∷ cs) = omega (arith, mass-clear cs)

length-clear : (cs : List ℕ) → length (clear_buckets cs) ≡ length cs
length-clear [] = refl
length-clear (c ∷ cs) = ap suc (length-clear cs)

pub length-inc_at : (cs : List ℕ) (i : ℕ) → length (inc_at cs i) ≡ length cs
unfolding inc_at
length-inc_at [] i = refl
length-inc_at (c ∷ cs) zero = refl
length-inc_at (c ∷ cs) (suc i) = ap suc (length-inc_at cs i)

mass-inc_at :
    (cs : List ℕ) (i : ℕ) → i < length cs → mass cs + 1 < u64 → mass (inc_at cs i) ≡ mass cs + 1
unfolding mass inc_at
mass-inc_at [] i h fits = absurd (omega arith)
mass-inc_at (c ∷ cs) zero h fits = omega arith
mass-inc_at (c ∷ cs) (suc i) h fits = omega (arith, mass-inc_at cs i (omega arith) (omega arith))

pub new_metrics_epoch-IsBalanced : (n : ℕ) → IsBalanced n (new_metrics_epoch n)
unfolding new_metrics_epoch
new_metrics_epoch-IsBalanced n = record {
  bucket_count = length-replicate n 0;
  buckets = mass-replicate n;
  connections = omega arith;
  successes = omega arith;
}

pub reset-IsBalanced : (n : ℕ) (e : MetricsEpoch) → IsBalanced n e → IsBalanced n (reset e)
unfolding reset
reset-IsBalanced n e v = record {
  bucket_count = omega (arith, length-clear e.latency_buckets);
  buckets = mass-clear e.latency_buckets;
  connections = omega arith;
  successes = omega arith;
}

-- Counting an outcome into a bucket that is there keeps the epoch balanced, short of overflow.
pub count_outcome-IsBalanced :
    (n : ℕ) (e : MetricsEpoch) (o : ExchangeOutcome) (bucket : ℕ)
    → bucket < n
    → e.total + 1 < u64
    → IsBalanced n e
    → IsBalanced n (count_outcome e o bucket)
unfolding count_outcome
count_outcome-IsBalanced n e o bucket h fits v = record {
  bucket_count = omega (arith, length-inc_at e.latency_buckets bucket);
  buckets = ground (arith, mass-inc_at e.latency_buckets bucket);
  connections = ground arith;
  successes = ground arith;
}
