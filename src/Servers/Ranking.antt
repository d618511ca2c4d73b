-- ===== src/Servers/Ranking.antt =====
-- dnscrypt-proxy/serversInfo.go: the order of the live resolvers by their moving averages.
use Prim.Native.Nat.{ℕ}
use dnscrypt_proxy_fork.Base.{
  ◌+◌, ◌-◌, ◌%◌, ◌^◌, Bool, false, not, ◌&&◌, ◌||◌, List, [], ◌∷◌, map, length, get_elem?, set,
  Option, none, some, ltb, ◌==◌, if◌then◌else◌,
}
use dnscrypt_proxy_fork.Base.Int.{ℤ}
use dnscrypt_proxy_fork.Float.{Float64}
use dnscrypt_proxy_fork.Servers.Server.{ServerInfo, MovingAverage}
use dnscrypt_proxy_fork.Servers.Strategy.{LbStrategy, get_active_count}

-- `xs[i], xs[j] = xs[j], xs[i]`; an index out of range, where Go panics, changes nothing.
unfoldable pub swap_at {ℓ} : {A : Type ℓ} → List A → ℕ → ℕ → List A
swap_at xs i j = elim (get_elem? xs i) [
  | none ↦ xs
  | some a ↦ elim (get_elem? xs j) [ none ↦ xs | some b ↦ set (set xs i b) j a ]
]

-- `for second == first { second = rand.Intn(n) }` over the draws to come; `none` if they run out.
unfoldable pub redraw : ℕ → ℕ → List ℕ → Option ℕ
redraw first second [] = if second == first then none else some second
redraw first second (d ∷ ds) =
    let rest = redraw first d ds in if second == first then rest else some second

module _ (fl : Float64) (ma : MovingAverage fl.Carrier) where
  open fl use {Carrier, lt, le, mul, div, sub, add, literal, of_int}
  open ma use {State}

  abbrev pub Live : Type 0
  Live = ServerInfo Carrier State

  abbrev pub rtt_of : Live → Carrier
  rtt_of s = ma.value s.rtt

  -- `sortByRtt`: one pass, which carries the larger of two neighbours along.
  unfoldable pub carry : Live → List Live → List Live
  carry x [] = x ∷ []
  carry x (y ∷ ys) = if lt (rtt_of y) (rtt_of x) then y ∷ carry x ys else x ∷ carry y ys

  unfoldable pub sort_by_rtt : List Live → List Live
  sort_by_rtt [] = []
  sort_by_rtt (x ∷ xs) = carry x xs

  abbrev pub lower_rtt : Carrier → Live → Live
  lower_rtt value s = record s { rtt = ma.set s.rtt value }

  -- `estimatorUpdate`, after the draw of the candidate.
  unfoldable pub compare_candidate : List Live → ℕ → ℕ → List Live
  compare_candidate inner candidate current = elim (get_elem? inner candidate) [
    | none ↦ inner
    | some c ↦ elim (get_elem? inner current) [
      | none ↦ inner
      | some a ↦
          if lt (rtt_of a) (literal 0 1)
          then set inner current (lower_rtt (rtt_of c) a)
          else if lt (rtt_of c) (rtt_of a)
          then sort_by_rtt (swap_at inner candidate current)
          else inner
    ]
  ]

  unfoldable pub estimator_update : LbStrategy Carrier → List Live → ℕ → (ℕ → ℕ) → List Live
  estimator_update strategy inner current intn =
      let count = length inner in
      let active = get_active_count strategy count in
      if active == count
      then inner
      else compare_candidate inner (intn (count - active) + active) current

  -- The loop that looks for the best RTT.
  abbrev pub best_rtt : List Live → Carrier → Carrier
  best_rtt [] best = best
  best_rtt (s ∷ ss) best =
      best_rtt ss (if lt (literal 0 1) (rtt_of s) && lt (rtt_of s) best then rtt_of s else best)

  -- The three guards of the loop over the servers: slow, idle for a minute, and no decay for ten
  -- seconds. Differences of times are read over the integers.
  abbrev pub is_dormant : Carrier → ℕ → Live → Bool
  is_dormant best now s =
      not (le (rtt_of s) (mul best (literal 4 1)))
      && ltb (s.last_action_ts + 60_000_000_000) now
      && ltb (s.last_decay_ts + 10_000_000_000) now

  abbrev pub revive : Carrier → ℕ → Live → Live
  revive best now s =
      let initial = of_int s.initial_rtt in
      let target = if le initial (literal 0 1) then best else initial in
      record s {
        rtt = ma.add s.rtt target;
        total_queries = 0;
        failed_queries = 0;
        last_decay_ts = now;
      }

  abbrev pub any_dormant : Carrier → ℕ → List Live → Bool
  any_dormant best now [] = false
  any_dormant best now (s ∷ ss) = is_dormant best now s || any_dormant best now ss

  -- The part of `recoverDormantServers` that follows the search of the best RTT.
  unfoldable pub revive_dormant : Carrier → List Live → ℕ → List Live
  revive_dormant best inner now =
      let revived = map (λ x. if is_dormant best now x then revive best now x else x) inner in
      if le best (literal 0 1)
      then inner
      else if any_dormant best now inner
      then sort_by_rtt revived
      else inner

  -- `recoverDormantServers`; `now` is the reading of its clock.
  unfoldable pub recover_dormant_servers : List Live → ℕ → List Live
  recover_dormant_servers [] now = []
  recover_dormant_servers (s ∷ []) now = s ∷ []
  recover_dormant_servers (s ∷ t ∷ ss) now =
      revive_dormant (best_rtt (s ∷ t ∷ ss) (rtt_of s)) (s ∷ t ∷ ss) now

  -- `calculateServerScore`; the subtraction is of uint64.
  unfoldable pub calculate_server_score : Live → Carrier
  calculate_server_score s =
      let float_of = λ (n : ℕ). of_int (ℤ.pos n) in
      let rtt = if le (rtt_of s) (literal 0 1) then literal 1000 1 else rtt_of s in
      let raw = sub (literal 1 1) (div rtt (literal 1000 1)) in
      let rtt_score = if lt raw (literal 0 1) then literal 0 1 else raw in
      let answered = (s.total_queries + 2 ^ 64 - s.failed_queries) % 2 ^ 64 in
      let success_rate =
        if ltb 0 s.total_queries
        then div (float_of answered) (float_of s.total_queries)
        else literal 1 1 in
      add (mul rtt_score (literal 7 10)) (mul success_rate (literal 3 10))

  -- The comparison of `getWeightedCandidate`; `coin` is the tie-breaking draw.
  unfoldable pub better_of : List Live → ℕ → ℕ → Carrier → ℕ
  better_of inner i j coin = elim (get_elem? inner i) [
    | none ↦ i
    | some a ↦ elim (get_elem? inner j) [
      | none ↦ i
      | some b ↦
          let score1 = calculate_server_score a in
          let score2 = calculate_server_score b in
          if lt score2 score1
          then i
          else if lt score1 score2
          then j
          else if lt coin (literal 1 2)
          then i
          else j
    ]
  ]
