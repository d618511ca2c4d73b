-- ===== src/Metrics/Window.antt =====
-- The sliding window: the store stays well formed, what a sample adds, and what time takes away.
use dnscrypt_proxy_fork.Base.{
  ℕ, zero, suc, ◌+◌, ◌-◌, ◌*◌, ◌/◌, ◌%◌, ◌≤◌, ◌<◌, ◌≡◌, refl, List, [], ◌∷◌, map, length, arith,
  All, ap,
}
use dnscrypt_proxy_fork.Metrics.Epoch.{MetricsEpoch, reset, u64}
use dnscrypt_proxy_fork.Metrics.Balance.{IsBalanced, reset-IsBalanced}
use dnscrypt_proxy_fork.Metrics.{
  ResolverMetrics, metrics_epoch_count, update_at, rotate, shift_epochs, advance_locked,
  steps_since, sum_of, aggregate_locked, snapshot,
}

-- The samples of all epochs, without wrap-around.
unfoldable pub total_of : List MetricsEpoch → ℕ
total_of [] = 0
total_of (e ∷ es) = e.total + total_of es

-- Ten balanced epochs, the current one among them, and no more samples in the window than ever.
pub record IsWf {F : Type 0} (n : ℕ) (m : ResolverMetrics F) : Type 0 where
  pub epoch_count : length m.epochs ≡ metrics_epoch_count
  pub current : m.cur_epoch < metrics_epoch_count
  pub balanced : All (IsBalanced n) m.epochs
  pub counted : total_of m.epochs ≤ m.total_samples

length-update_at :
    (f : MetricsEpoch → MetricsEpoch) (es : List MetricsEpoch) (i : ℕ)
    → length (update_at f es i) ≡ length es
length-update_at f [] i = refl
length-update_at f (e ∷ es) zero = refl
length-update_at f (e ∷ es) (suc i) = ap suc (length-update_at f es i)

reset_at-IsBalanced :
    (n : ℕ) (es : List MetricsEpoch) (i : ℕ)
    → All (IsBalanced n) es
    → All (IsBalanced n) (update_at reset es i)
reset_at-IsBalanced n [] i v = tt
reset_at-IsBalanced n (e ∷ es) zero (v, vs) = (reset-IsBalanced n e v, vs)
reset_at-IsBalanced n (e ∷ es) (suc i) (v, vs) = (v, reset_at-IsBalanced n es i vs)

resets-IsBalanced :
    (n : ℕ) (es : List MetricsEpoch) → All (IsBalanced n) es → All (IsBalanced n) (map reset es)
resets-IsBalanced n [] v = tt
resets-IsBalanced n (e ∷ es) (v, vs) = (reset-IsBalanced n e v, resets-IsBalanced n es vs)

total_of-reset_at : (es : List MetricsEpoch) (i : ℕ) → total_of (update_at reset es i) ≤ total_of es
unfolding total_of reset
total_of-reset_at [] i = omega arith
total_of-reset_at (e ∷ es) zero = omega arith
total_of-reset_at (e ∷ es) (suc i) = omega (arith, total_of-reset_at es i)

total_of-reset_all : (es : List MetricsEpoch) → total_of (map reset es) ≡ 0
unfolding total_of reset
total_of-reset_all [] = refl
total_of-reset_all (e ∷ es) = omega (arith, total_of-reset_all es)

length-reset_all : (es : List MetricsEpoch) → length (map reset es) ≡ length es
length-reset_all [] = refl
length-reset_all (e ∷ es) = ap suc (length-reset_all es)

-- What the rotation keeps.
rotate_lem :
    (n steps : ℕ) (es : List MetricsEpoch) (cur : ℕ)
    → cur < metrics_epoch_count
    → All (IsBalanced n) es
    → let r = rotate steps es cur in
      (length r.0 ≡ length es)
      × (r.1 < metrics_epoch_count)
      × All (IsBalanced n) r.0
      × (total_of r.0 ≤ total_of es)
unfolding rotate
rotate_lem n zero es cur h v = (refl, h, v, omega arith)
rotate_lem n (suc steps) es cur h v =
    let next = (cur + 1) % metrics_epoch_count in
    let (a, b, c, d) =
      rotate_lem n steps (update_at reset es next) next (omega arith)
        (reset_at-IsBalanced n es next v) in
    (omega (arith, length-update_at reset es next), b, c, omega (arith, total_of-reset_at es next))

div_bounds : (a d : ℕ) → 0 < d → (a / d * d ≤ a) × (a < a / d * d + d)
div_bounds a d h = (grind arith, grind arith)

ten_le_div : (a d : ℕ) → 0 < d → 10 * d ≤ a → 10 ≤ a / d
ten_le_div a d h k = grind (arith, div_bounds a d h)

module _ {F : Type 0} where
  shift_epochs-IsWf :
      (n : ℕ) (m : ResolverMetrics F) (steps : ℕ) → IsWf n m → IsWf n (shift_epochs m steps)
  unfolding shift_epochs
  shift_epochs-IsWf n m steps v =
      let (a, b, c, d) = rotate_lem n steps m.epochs m.cur_epoch v.current v.balanced in
      let all = resets-IsBalanced n m.epochs v.balanced in
      ground (arith, a, b, c, d, all, total_of-reset_all m.epochs, length-reset_all m.epochs)

  pub advance_locked-IsWf :
      (n : ℕ) (m : ResolverMetrics F) (now : ℕ) → IsWf n m → IsWf n (advance_locked m now)
  unfolding advance_locked
  advance_locked-IsWf n m now v =
      ground (arith, shift_epochs-IsWf n m (steps_since now m.epoch_start m.epoch_dur) v)

  pub advance_locked-total_samples :
      (m : ResolverMetrics F) (now : ℕ) → (advance_locked m now).total_samples ≡ m.total_samples
  unfolding advance_locked shift_epochs
  advance_locked-total_samples m now = ground arith

  -- After an advance the current epoch covers the time, if epochs have a length and the clock is
  -- not behind the start of the epoch.
  advance_locked_covers :
      (m : ResolverMetrics F) (now : ℕ)
      → 0 < m.epoch_dur
      → m.epoch_start ≤ now
      → let m' = advance_locked m now in
        (m'.epoch_start ≤ now) × (now < m'.epoch_start + m.epoch_dur)
  unfolding advance_locked shift_epochs
  advance_locked_covers m now d h = ground (arith, div_bounds (now - m.epoch_start) m.epoch_dur d)

  -- A store that has started, and wakes up a whole window later, starts from an empty window, if
  -- epochs have a length.
  advance_locked_idle :
      (m : ResolverMetrics F) (now : ℕ)
      → 0 < m.epoch_start
      → 0 < m.epoch_dur
      → m.epoch_start + metrics_epoch_count * m.epoch_dur ≤ now
      → total_of (advance_locked m now).epochs ≡ 0
  unfolding advance_locked shift_epochs
  advance_locked_idle m now s d h = ground (
    arith,
    ten_le_div (now - m.epoch_start) m.epoch_dur d (omega arith),
    total_of-reset_all m.epochs,
  )

-- A counter summed over the epochs, without wrap-around.
plain_sum : (MetricsEpoch → ℕ) → List MetricsEpoch → ℕ
plain_sum field [] = 0
plain_sum field (e ∷ es) = field e + plain_sum field es

sum_of-plain :
    (field : MetricsEpoch → ℕ) (acc : ℕ) (es : List MetricsEpoch)
    → acc + plain_sum field es < u64
    → sum_of field acc es ≡ acc + plain_sum field es
unfolding sum_of plain_sum
sum_of-plain field acc [] h = omega arith
sum_of-plain field acc (e ∷ es) h =
    omega (arith, sum_of-plain field ((acc + field e) % u64) es (omega arith))

plain_sums :
    (n : ℕ) (es : List MetricsEpoch)
    → All (IsBalanced n) es
    → (plain_sum (λ e. e.total) es ≡ total_of es)
      × (plain_sum (λ e. e.conn_new) es + plain_sum (λ e. e.conn_reused) es ≡ total_of es)
      × (plain_sum (λ e. e.success) es ≤ total_of es)
unfolding plain_sum total_of
plain_sums n [] v = omega arith
plain_sums n (e ∷ es) (v, vs) = let (a, b, c) = plain_sums n es vs in omega arith

-- The samples that `Snapshot` and `PercentileBuf` count are those of the ten epochs.
pub sum_of-total :
    (n : ℕ) (es : List MetricsEpoch)
    → All (IsBalanced n) es
    → total_of es < u64
    → sum_of (λ e. e.total) 0 es ≡ total_of es
sum_of-total n es v h =
    let (a, b, c) = plain_sums n es v in omega (arith, sum_of-plain (λ e. e.total) 0 es)

module _ {F : Type 0} where
  -- The view of a well-formed store is consistent: its samples are those of the ten epochs, each
  -- on a new or a reused connection, the successes are among them, and all of them among the
  -- lifetime samples, as long as those fit 64 bits.
  pub snapshot_consistent :
      (n : ℕ) (m : ResolverMetrics F) (now : ℕ)
      → IsWf n m
      → m.total_samples < u64
      → let r = snapshot m now in
        (r.1.samples ≡ total_of r.0.epochs)
        × (r.1.conn_new + r.1.conn_reused ≡ r.1.samples)
        × (r.1.success ≤ r.1.samples)
        × (r.1.samples ≤ r.1.total_samples)
  unfolding snapshot aggregate_locked
  snapshot_consistent n m now v h =
      let es = (advance_locked m now).epochs in
      let w = advance_locked-IsWf n m now v in
      let same = advance_locked-total_samples m now in
      let (a, b, c) = plain_sums n es w.balanced in
      ground (
        arith,
        w,
        same,
        a,
        b,
        c,
        sum_of-plain (λ e. e.total) 0 es,
        sum_of-plain (λ e. e.conn_new) 0 es,
        sum_of-plain (λ e. e.conn_reused) 0 es,
        sum_of-plain (λ e. e.success) 0 es,
      )
