-- ===== src/Metrics/Histogram.antt =====
-- The percentile that is reported is the nearest-rank one of the window's histogram.
use dnscrypt_proxy_fork.Base.{
  ℕ, zero, suc, ◌+◌, ◌%◌, ◌≤◌, ◌<◌, ◌≡◌, refl, List, [], ◌∷◌, length, replicate, take,
  length-replicate, some, arith, All, ap, Bool-cases, leb, inl, inr, ◌∙◌,
}
use dnscrypt_proxy_fork.Float.{Float64}
use dnscrypt_proxy_fork.Metrics.Epoch.{MetricsEpoch, u64}
use dnscrypt_proxy_fork.Metrics.Balance.{IsBalanced, mass, mass-replicate}
use dnscrypt_proxy_fork.Metrics.Window.{
  IsWf, total_of, advance_locked-IsWf, advance_locked-total_samples, sum_of-total,
}
use dnscrypt_proxy_fork.Metrics.{ResolverMetrics, advance_locked}
use dnscrypt_proxy_fork.Metrics.Percentile.{
  no_sample, add_buckets, aggregate, find_rank, rank_of, edge_duration, percentile_buf,
}

length-add_buckets : (xs ys : List ℕ) → length (add_buckets xs ys) ≡ length xs
unfolding add_buckets
length-add_buckets [] ys = refl
length-add_buckets (x ∷ xs) [] = refl
length-add_buckets (x ∷ xs) (y ∷ ys) = ap suc (length-add_buckets xs ys)

mass-add_buckets :
    (xs ys : List ℕ)
    → length ys ≡ length xs
    → mass xs + mass ys < u64
    → mass (add_buckets xs ys) ≡ mass xs + mass ys
unfolding add_buckets mass
mass-add_buckets [] [] l h = omega arith
mass-add_buckets [] (y ∷ ys) l h = absurd (omega arith)
mass-add_buckets (x ∷ xs) [] l h = absurd (omega arith)
mass-add_buckets (x ∷ xs) (y ∷ ys) l h =
    omega (arith, mass-add_buckets xs ys (omega arith) (omega arith))

-- The aggregated histogram has one count for each bucket, and holds every sample of the window.
aggregate_lem :
    (n : ℕ) (acc : List ℕ) (es : List MetricsEpoch)
    → length acc ≡ n
    → All (IsBalanced n) es
    → mass acc + total_of es < u64
    → (length (aggregate acc es) ≡ n) × (mass (aggregate acc es) ≡ mass acc + total_of es)
unfolding aggregate total_of
aggregate_lem n acc [] l v h = (l, omega arith)
aggregate_lem n acc (e ∷ es) l (v, vs) h =
    let bs = e.latency_buckets in
    let s = mass-add_buckets acc bs (omega (arith, v.bucket_count)) (omega (arith, v.buckets)) in
    let (a, b) =
      aggregate_lem n (add_buckets acc bs) es (omega (arith, length-add_buckets acc bs)) vs
        (omega (arith, v.buckets)) in
    (a, omega (arith, v.buckets))

-- Bucket `b` holds the sample of the given rank: fewer samples lie below it, and with its own
-- the rank is reached.
pub record IsNearestRank (rank : ℕ) (counts : List ℕ) (b : ℕ) : Type 0 where
  pub in_range : b < length counts
  pub below : mass (take b counts) < rank
  pub reached : rank ≤ mass (take (suc b) counts)

find_rank_lem :
    (rank cum : ℕ) (cs : List ℕ) (start : ℕ)
    → cum < rank
    → rank ≤ cum + mass cs
    → cum + mass cs < u64
    → (j : ℕ) × (find_rank rank cum cs start ≡ some (start + j))
      × (j < length cs)
      × (cum + mass (take j cs) < rank)
      × (rank ≤ cum + mass (take (suc j) cs))
unfolding find_rank mass
find_rank_lem rank cum [] start lo hi fits = absurd (omega arith)
find_rank_lem rank cum (c ∷ cs) start lo hi fits = elim (Bool-cases (leb rank ((cum + c) % u64))) [
  | inl here ↦ (zero, ground arith, omega arith, omega arith, ground arith)
  | inr later ↦
      let (j, e, l, x, y) =
        find_rank_lem rank ((cum + c) % u64) cs (suc start) (ground arith) (omega arith)
          (omega arith) in
      (suc j, ground arith, omega arith, omega arith, omega arith)
]

find_nearest :
    (rank : ℕ) (cs : List ℕ)
    → 0 < rank
    → rank ≤ mass cs
    → mass cs < u64
    → (b : ℕ) × (find_rank rank 0 cs 0 ≡ some b) × IsNearestRank rank cs b
find_nearest rank cs lo hi fits =
    let (j, e, l, x, y) = find_rank_lem rank 0 cs 0 lo (omega arith) (omega arith) in
    (
      j,
      e ∙ ap some (omega arith),
      record { in_range = l; below = omega arith; reached = omega arith },
    )

counts_nearest :
    (n : ℕ) (es : List MetricsEpoch) (rank : ℕ)
    → All (IsBalanced n) es
    → total_of es < u64
    → 0 < rank
    → rank ≤ total_of es
    → (b : ℕ) × (find_rank rank 0 (aggregate (replicate n 0) es) 0 ≡ some b)
      × (b < n)
      × IsNearestRank rank (aggregate (replicate n 0) es) b
counts_nearest n es rank v few lo hi =
    let none_yet = mass-replicate n in
    let (l, a) = aggregate_lem n (replicate n 0) es (length-replicate n 0) v (omega arith) in
    let (b, e, x) =
      find_nearest rank (aggregate (replicate n 0) es) lo (omega arith) (omega arith) in
    (b, e, omega (arith, x.in_range), x)

module _ (fl : Float64) (edges : List fl.Carrier) where
  -- On an empty window there is no percentile.
  pub percentile_empty :
      (m : ResolverMetrics fl.Carrier) (p : fl.Carrier) (now : ℕ)
      → IsWf (length edges) m
      → m.total_samples < u64
      → total_of (advance_locked m now).epochs ≡ 0
      → (percentile_buf fl edges m p now).1 ≡ no_sample
  unfolding percentile_buf
  percentile_empty m p now v fits none_left =
      let w = advance_locked-IsWf (length edges) m now v in
      let same = advance_locked-total_samples m now in
      let t = sum_of-total (length edges) (advance_locked m now).epochs w.balanced (ground arith) in
      ground (arith, t)

  -- The percentile of a well-formed store is the edge of the nearest-rank bucket of the window's
  -- histogram, and the index of that edge is in range. The lifetime count must fit 64 bits, and
  -- the rank, which the source computes in floating point and which is at least 1, must not exceed
  -- the number of samples in the window.
  pub percentile_exact :
      (m : ResolverMetrics fl.Carrier) (p : fl.Carrier) (now : ℕ)
      → IsWf (length edges) m
      → m.total_samples < u64
      → rank_of fl (total_of (advance_locked m now).epochs) p
        ≤ total_of (advance_locked m now).epochs
      → let es = (advance_locked m now).epochs in
        (b : ℕ) × ((percentile_buf fl edges m p now).1 ≡ edge_duration fl edges b)
        × (b < length edges)
        × IsNearestRank (rank_of fl (total_of es) p) (aggregate (replicate (length edges) 0) es) b
  unfolding percentile_buf
  percentile_exact m p now v fits bound =
      let n = length edges in
      let es = (advance_locked m now).epochs in
      let w = advance_locked-IsWf n m now v in
      let same = advance_locked-total_samples m now in
      let few : total_of es < u64 = ground (arith, w) in
      let t = sum_of-total n es w.balanced few in
      let r = rank_of fl (total_of es) p in
      let (b, e, x, y) = counts_nearest n es r w.balanced few (ground arith) bound in
      (b, ground (arith, t, e), x, y)
