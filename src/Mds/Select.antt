-- ===== src/Mds/Select.antt =====
-- dnscrypt-proxy/scheduler_mds.go: choosing a resolver for a query. An index of -1 is `none`, and
-- an index comes with the entry that it addresses.
use dnscrypt_proxy_fork.Base.{
  ℕ, suc, ◌+◌, Bool, true, false, not, ◌&&◌, ◌||◌, List, [], ◌∷◌, length, get_elem?, Option, none,
  some, String, str_eq, ltb, leb, ◌==◌, if◌then◌else◌,
}
use dnscrypt_proxy_fork.Base.Dict.{Dict, lookup, insert}
use dnscrypt_proxy_fork.Float.{Float64}
use dnscrypt_proxy_fork.Servers.Server.{ResolverCandidate}
use dnscrypt_proxy_fork.Mds.Circuit.{MdsParams, MdsCircuit}
use dnscrypt_proxy_fork.Mds.Scheduler.{LbStrategyMds, become_primary}
use dnscrypt_proxy_fork.Mds.Score.{MdsScored, better, score_all}

abbrev pub is_index : Option ℕ → ℕ → Bool
is_index none i = false
is_index (some j) i = i == j

-- The first candidate of a name, from index `i` on.
unfoldable pub find_name : {F : Type 0} → String → List (MdsScored F) → ℕ → Option (ℕ × MdsScored F)
find_name name [] i = none
find_name name (x ∷ xs) i =
    let rest = find_name name xs (suc i) in if str_eq x.name name then some (i, x) else rest

abbrev pub index_of {ℓ} : {A : Type ℓ} → Option (ℕ × A) → Option ℕ
index_of none = none
index_of (some (i, x)) = some i

-- Whether an open circuit is due for its probe.
abbrev pub is_due : MdsCircuit → ℕ → Bool
is_due cb now = not cb.probing && leb cb.next_probe_at now

-- The best so far, and the circuit's time of opening.
abbrev pub longer_open : Option (ℕ × String × MdsCircuit) → MdsCircuit → Bool
longer_open none cb = true
longer_open (some (j, name, best)) cb = ltb cb.opened_at best.opened_at

-- One round. A candidate whose circuit is missing counts as closed; the source would follow a nil
-- pointer, but `scoreAll` marks as open only what has a circuit.
unfoldable pub half_open_round :
    {F : Type 0}
    → Option MdsCircuit
    → MdsScored F
    → ℕ
    → ℕ
    → Option (ℕ × String × MdsCircuit)
    → Option (ℕ × String × MdsCircuit)
half_open_round none x now i pick = pick
half_open_round (some cb) x now i pick =
    if x.is_open && is_due cb now && longer_open pick cb then some (i, x.name, cb) else pick

unfoldable pub half_open_from :
    {F : Type 0}
    → Dict MdsCircuit
    → List (MdsScored F)
    → ℕ
    → ℕ
    → Option (ℕ × String × MdsCircuit)
    → Option (ℕ × String × MdsCircuit)
half_open_from circuits [] now i pick = pick
half_open_from circuits (x ∷ xs) now i pick =
    half_open_from circuits xs now (suc i) (half_open_round (lookup x.name circuits) x now i pick)

unfoldable pub pick_half_open_probe :
    {F : Type 0} → Dict MdsCircuit → List (MdsScored F) → ℕ → Option (ℕ × String × MdsCircuit)
pick_half_open_probe circuits xs now = half_open_from circuits xs now 0 none

-- The two pools of `pickExploreTarget`: of the candidates that are neither open nor the primary,
-- the warming ones if `only_warming`, or else all.
unfoldable pub explore_pool : {F : Type 0} → Bool → Option ℕ → List (MdsScored F) → ℕ → List ℕ
explore_pool only_warming primary [] i = []
explore_pool only_warming primary (x ∷ xs) i =
    let rest = explore_pool only_warming primary xs (suc i) in
    if is_index primary i || x.is_open
    then rest
    else if only_warming && not x.warming
    then rest
    else i ∷ rest

-- `intn n` is the draw of `rng.Intn(n)`, which is below n.
unfoldable pub pick_explore_target :
    {F : Type 0} → List (MdsScored F) → Option ℕ → (ℕ → ℕ) → Option ℕ
pick_explore_target xs primary intn =
    let warming = explore_pool true primary xs 0 in
    let healthy = explore_pool false primary xs 0 in
    let pool = if ltb 0 (length warming) then warming else healthy in
    if length pool == 0 then none else get_elem? pool (intn (length pool))

module _ (fl : Float64) where
  open fl use {Carrier, sub, lt, le}

  abbrev pub beats : MdsParams Carrier → MdsScored Carrier → Option (ℕ × MdsScored Carrier) → Bool
  beats p x none = true
  beats p x (some (j, best)) = better fl p x best

  -- One round of `bestHealthy`.
  unfoldable pub best_round :
      MdsParams Carrier
      → Option ℕ
      → MdsScored Carrier
      → ℕ
      → Option (ℕ × MdsScored Carrier)
      → Option (ℕ × MdsScored Carrier)
  best_round p exclude x i best =
      if is_index exclude i || x.is_open then best else if beats p x best then some (i, x) else best

  unfoldable pub best_from :
      MdsParams Carrier
      → Option ℕ
      → List (MdsScored Carrier)
      → ℕ
      → Option (ℕ × MdsScored Carrier)
      → Option (ℕ × MdsScored Carrier)
  best_from p exclude [] i best = best
  best_from p exclude (x ∷ xs) i best =
      best_from p exclude xs (suc i) (best_round p exclude x i best)

  unfoldable pub best_healthy :
      MdsParams Carrier → Option ℕ → List (MdsScored Carrier) → Option (ℕ × MdsScored Carrier)
  best_healthy p exclude xs = best_from p exclude xs 0 none

  -- The loop that takes the highest score where every circuit is open.
  unfoldable pub best_any :
      MdsParams Carrier
      → List (MdsScored Carrier)
      → ℕ
      → ℕ × MdsScored Carrier
      → ℕ × MdsScored Carrier
  best_any p [] i best = best
  best_any p (x ∷ xs) i best = best_any p xs (suc i) (if better fl p x best.1 then (i, x) else best)

  unfoldable pub switch_to_best :
      LbStrategyMds Carrier → List (MdsScored Carrier) → ℕ → LbStrategyMds Carrier × ℕ
  switch_to_best s [] at = (s, 0)
  switch_to_best s (x ∷ xs) at =
      let any = best_any s.params xs 1 (0, x) in
      elim (best_healthy s.params none (x ∷ xs)) [
        | some (b, bx) ↦ (become_primary s bx.name at, b)
        | none ↦ (become_primary s any.1.name at, any.0)
      ]

  -- Whether the best other resolver deposes the primary.
  abbrev pub deposes : MdsParams Carrier → MdsScored Carrier → MdsScored Carrier → Bool
  deposes p bx px = le p.switch_margin (sub bx.base px.base) && better fl p bx px

  -- The sticky path, for a primary that is not open. `now.Sub(since) < dwell` is read over the
  -- integers.
  unfoldable pub keep_primary :
      LbStrategyMds Carrier
      → List (MdsScored Carrier)
      → ℕ
      → ℕ
      → ℕ
      → MdsScored Carrier
      → LbStrategyMds Carrier × ℕ
  keep_primary s xs now at i px = elim (best_healthy s.params (some i) xs) [
    | none ↦ (s, i)
    | some (b, bx) ↦
        if ltb now (s.primary_since + s.params.dwell)
        then (s, i)
        else if deposes s.params bx px
        then (become_primary s bx.name at, b)
        else (s, i)
  ]

  unfoldable pub stick_or_switch :
      LbStrategyMds Carrier → List (MdsScored Carrier) → ℕ → ℕ → LbStrategyMds Carrier × ℕ
  stick_or_switch s xs now at = elim (find_name s.primary_name xs 0) [
    | none ↦ switch_to_best s xs at
    | some (i, px) ↦ if px.is_open then switch_to_best s xs at else keep_primary s xs now at i px
  ]

  -- A random exploration if the draw says so, or else the sticky path.
  unfoldable pub explore_or_stick :
      LbStrategyMds Carrier
      → List (MdsScored Carrier)
      → ℕ
      → ℕ
      → Carrier
      → (ℕ → ℕ)
      → LbStrategyMds Carrier × ℕ
  explore_or_stick s xs now at draw intn =
      let primary = index_of (find_name s.primary_name xs 0) in
      let settled = stick_or_switch s xs now at in
      elim (if lt draw s.params.explore_prob then pick_explore_target xs primary intn else none) [
        | some i ↦ (s, i)
        | none ↦ settled
      ]

  -- The choice among two candidates or more: a half-open probe, or one of the above. `at` is the
  -- clock reading of a change of primary.
  unfoldable pub choose :
      LbStrategyMds Carrier
      → List (MdsScored Carrier)
      → ℕ
      → ℕ
      → Carrier
      → (ℕ → ℕ)
      → LbStrategyMds Carrier × ℕ
  choose s xs now at draw intn =
      let settled = explore_or_stick s xs now at draw intn in
      elim (pick_half_open_probe s.circuits xs now) [
        | some (i, name, cb) ↦
            (record s { circuits = insert name (record cb { probing = true }) s.circuits }, i)
        | none ↦ settled
      ]

  unfoldable pub select_candidate_locked :
      {R : Type 0}
      → List Carrier
      → LbStrategyMds Carrier
      → List (ResolverCandidate Carrier R)
      → (ℕ → ℕ × ℕ)
      → ℕ
      → ℕ
      → Carrier
      → (ℕ → ℕ)
      → LbStrategyMds Carrier × List (ResolverCandidate Carrier R) × ℕ
  select_candidate_locked edges s [] clock now at draw intn = (s, [], 0)
  select_candidate_locked edges s (c ∷ []) clock now at draw intn =
      (become_primary s c.server.name at, c ∷ [], 0)
  select_candidate_locked edges s (c ∷ d ∷ cs) clock now at draw intn =
      let (cs', xs) = score_all fl edges s (c ∷ d ∷ cs) clock in
      let (s', i) = choose s xs now at draw intn in (s', cs', i)
