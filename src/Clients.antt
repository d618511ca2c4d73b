-- ===== src/Clients.antt =====
-- dnscrypt-proxy/proxy.go: the count of the clients that are served, which goroutines change by
-- compare-and-swap, in any interleaving.
use dnscrypt_proxy_fork.Base.{
  ℕ, zero, suc, ◌+◌, ◌-◌, ◌%◌, ◌^◌, ◌≤◌, ◌<◌, ◌≡◌, refl, subst, inl, inr, Option-cases, Bool, true,
  false, List, [], ◌∷◌, All, Option, none, some, get_elem?, set, leb, ◌==◌, if◌then◌else◌, arith,
}
mod Tests

-- A goroutine in one of the two loops: at the load of the count, or at the swap with the count it has
-- loaded; at the end its slot is acquired, refused, released, or was not there to release.
pub data Thread : Type 0 where
  inc_load dec_load : Thread
  inc_swap dec_swap : ℕ → Thread
  acquired refused released idle : Thread

-- The count and the goroutine after one atomic step.
unfoldable pub step : ℕ → ℕ → Thread → ℕ × Thread
step max_clients count inc_load =
    if leb max_clients count then (count, refused) else (count, inc_swap count)
step max_clients count (inc_swap seen) =
    if count == seen then ((seen + 1) % 2 ^ 32, acquired) else (count, inc_load)
step max_clients count dec_load = if count == 0 then (count, idle) else (count, dec_swap count)
step max_clients count (dec_swap seen) =
    if count == seen then (seen - 1, released) else (count, dec_load)
step max_clients count thread = (count, thread)

-- A run: the goroutines take steps in the order of the schedule.
unfoldable pub run : ℕ → List ℕ → ℕ → List Thread → ℕ × List Thread
run max_clients [] count threads = (count, threads)
run max_clients (i ∷ schedule) count threads = elim (get_elem? threads i) [
  | none ↦ run max_clients schedule count threads
  | some thread ↦
      let (count', thread') = step max_clients count thread in
      run max_clients schedule count' (set threads i thread')
]

-- The slots that a goroutine holds or has given back.
abbrev pub gained : Thread → ℕ
gained acquired = 1
gained _ = 0

abbrev pub lost : Thread → ℕ
lost released = 1
lost _ = 0

abbrev pub total : (Thread → ℕ) → List Thread → ℕ
total f [] = 0
total f (t ∷ ts) = f t + total f ts

-- What a goroutine has loaded is a count that it may change.
abbrev pub IsReady : ℕ → Thread → Type 0
IsReady max_clients (inc_swap seen) = seen < max_clients
IsReady max_clients (dec_swap seen) = 0 < seen
IsReady max_clients _ = Unit

abbrev FromSome : (Thread → Type 0) → Option Thread → Type 0
FromSome P none = Unit
FromSome P (some t) = P t

-- The step keeps the limit, and changes the count as the goroutine's slot changes.
abbrev pub StepsWell : ℕ → ℕ → Thread → ℕ × Thread → Type 0
StepsWell max_clients count thread (count', thread') =
    (count' ≤ max_clients)
    × IsReady max_clients thread'
    × (count' + lost thread' + gained thread ≡ count + lost thread + gained thread')

step-StepsWell :
    (max_clients count : ℕ) (thread : Thread)
    → max_clients < 2 ^ 32
    → count ≤ max_clients
    → IsReady max_clients thread
    → StepsWell max_clients count thread (step max_clients count thread)
unfolding step
step-StepsWell max_clients count inc_load m h r = ground arith
step-StepsWell max_clients count dec_load m h r = ground arith
step-StepsWell max_clients count (inc_swap seen) m h r = ground arith
step-StepsWell max_clients count (dec_swap seen) m h r = ground arith
step-StepsWell max_clients count acquired m h r = ground (arith, h)
step-StepsWell max_clients count refused m h r = ground (arith, h)
step-StepsWell max_clients count released m h r = ground (arith, h)
step-StepsWell max_clients count idle m h r = ground (arith, h)

total-set :
    (f : Thread → ℕ) (ts : List Thread) (i : ℕ) (t t' : Thread)
    → get_elem? ts i ≡ some t
    → total f (set ts i t') + f t ≡ total f ts + f t'
total-set f [] i t t' h = absurd (cc)
total-set f (x ∷ xs) zero t t' h = grind (arith, h)
total-set f (x ∷ xs) (suc i) t t' h = omega (arith, total-set f xs i t t' h)

All-set :
    (P : Thread → Type 0) (ts : List Thread) (i : ℕ) (t' : Thread)
    → P t'
    → All P ts
    → All P (set ts i t')
All-set P [] i t' p a = a
All-set P (x ∷ xs) zero t' p (q, a) = (p, a)
All-set P (x ∷ xs) (suc i) t' p (q, a) = (q, All-set P xs i t' p a)

All-get :
    (P : Thread → Type 0) (ts : List Thread) (i : ℕ) (t : Thread)
    → get_elem? ts i ≡ some t
    → All P ts
    → P t
All-get P [] i t h a = absurd (cc)
All-get P (x ∷ xs) zero t h (q, a) = subst (FromSome P) h q
All-get P (x ∷ xs) (suc i) t h (q, a) = All-get P xs i t h a

-- Whatever the order of the steps of any number of goroutines, the count never exceeds the limit of a
-- 32-bit counter, and with the slots that were released it makes up the first count and the slots
-- that were acquired. Each goroutine starts at a load, or with a count that it could have loaded.
pub run_lem :
    (max_clients : ℕ) (schedule : List ℕ) (count : ℕ) (threads : List Thread)
    → max_clients < 2 ^ 32
    → count ≤ max_clients
    → All (IsReady max_clients) threads
    → let (count', threads') = run max_clients schedule count threads in
      (count' ≤ max_clients)
      × (count' + total lost threads' + total gained threads
          ≡ count + total lost threads + total gained threads')
unfolding run
run_lem max_clients [] count threads m h r = (h, refl)
run_lem max_clients (i ∷ schedule) count threads m h r = elim (Option-cases (get_elem? threads i)) [
  | inl e ↦ rw (run, e) (run_lem max_clients schedule count threads m h r)
  | inr (t, e) ↦
      let (count', t') = step max_clients count t in
      let (h', r', s) =
        step-StepsWell max_clients count t m h (All-get (IsReady max_clients) threads i t e r) in
      let (bound, sum) =
        run_lem max_clients schedule count' (set threads i t') m h'
          (All-set (IsReady max_clients) threads i t' r' r) in
      let l = total-set lost threads i t t' e in
      let g = total-set gained threads i t t' e in rw (run, e) (bound, omega (arith, s, sum, l, g))
]
