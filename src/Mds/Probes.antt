-- ===== src/Mds/Probes.antt =====
-- The circuits of scheduler_mds.go under selections and feedback: they stay sound, a probe is
-- exclusive, and an answered probe starts a probation of known length.
use dnscrypt_proxy_fork.Base.{
  ℕ, zero, suc, ◌+◌, ◌^◌, ◌<◌, ◌≡◌, ◌≢◌, refl, inl, inr, true, false, List, [], ◌∷◌, map, get_elem?,
  some, String, str_eq, arith, Bool-cases, Option-cases, ltb, All, subst,
}
use dnscrypt_proxy_fork.Base.Dict.{
  lookup, insert, lookup-insert, lookup-insert_self, lookup-insert_ne,
}
use dnscrypt_proxy_fork.Exchange.{ExchangeOutcome}
use dnscrypt_proxy_fork.Float.{Float64}
use dnscrypt_proxy_fork.Servers.Server.{ResolverCandidate}
use dnscrypt_proxy_fork.Mds.Circuit.{MdsParams, MdsCircuit, is_hard_failure, observe_circuit}
use dnscrypt_proxy_fork.Mds.Breaker.{IsSound, observe_circuit-IsSound}
use dnscrypt_proxy_fork.Mds.Scheduler.{
  LbStrategyMds, become_primary, circuit_for, is_open_of, is_warming_locked,
  observe_feedback_locked,
}
use dnscrypt_proxy_fork.Mds.Score.{
  MdsScored, score_all, score_one, score_candidates, score_candidate, price,
}
use dnscrypt_proxy_fork.Mds.Select.{
  pick_half_open_probe, stick_or_switch, switch_to_best, keep_primary, choose,
  select_candidate_locked,
}
use dnscrypt_proxy_fork.Mds.Loops.{pick_half_open_probe_lem}
use dnscrypt_proxy_fork.Mds.Paths.{after_probe, choose_cases, choose_probe}

-- Every circuit of the map is sound.
abbrev pub IsAllSound : {F : Type 0} → LbStrategyMds F → Type 0
IsAllSound s = (n : String) (cb : MdsCircuit) → lookup n s.circuits ≡ some cb → IsSound s.params cb

-- The scores say which circuits are open.
abbrev pub SeesCircuits : {F : Type 0} → LbStrategyMds F → List (MdsScored F) → Type 0
SeesCircuits s xs = All (λ x. x.is_open ≡ is_open_of (lookup x.name s.circuits)) xs

module _ {F : Type 0} where
  insert-IsAllSound :
      (s : LbStrategyMds F) (name : String) (cb : MdsCircuit)
      → IsSound s.params cb
      → IsAllSound s
      → IsAllSound (record s { circuits = insert name cb s.circuits })
  insert-IsAllSound s name cb v all n c h = elim (Bool-cases (str_eq name n)) [
    | inl e ↦ subst (IsSound s.params) (ground (arith, lookup-insert name n cb s.circuits)) v
    | inr e ↦ all n c (ground (arith, lookup-insert name n cb s.circuits))
  ]

  -- With a threshold of at least two, feedback keeps every circuit sound, and touches no circuit
  -- but that of the resolver it is about.
  pub observe_feedback_locked-IsAllSound :
      (s : LbStrategyMds F) (name other : String) (o : ExchangeOutcome) (total now : ℕ)
      → 1 < s.params.breaker_threshold
      → str_eq name other ≡ false
      → IsAllSound s
      → let s' = observe_feedback_locked s name o total now in
        IsAllSound s' × (lookup other s'.circuits ≡ lookup other s.circuits)
  unfolding observe_feedback_locked
  observe_feedback_locked-IsAllSound s name other o total now h ne all = (
    insert-IsAllSound s name _ (observe_circuit-IsSound s.params _ o total now h start) all,
    lookup-insert_ne name other _ s.circuits ne,
  )
    where
      start : IsSound s.params (circuit_for (lookup name s.circuits))
      start = elim (Option-cases (lookup name s.circuits)) [
        | inl e ↦ rw e (record {
          probing_open = λ q. cc;
          open_recovery = λ q. refl;
          closed_streak = λ q. omega arith;
        })
        | inr (cb, e) ↦ rw e (all name cb e)
      ]

module _ (fl : Float64) where
  open fl use {Carrier}

  stick_or_switch-circuits :
      (s : LbStrategyMds Carrier) (xs : List (MdsScored Carrier)) (now at : ℕ)
      → let s' = (stick_or_switch fl s xs now at).0 in
        (s'.circuits ≡ s.circuits) × (s'.params ≡ s.params)
  unfolding stick_or_switch switch_to_best keep_primary become_primary
  stick_or_switch-circuits s [] now at = ground arith
  stick_or_switch-circuits s (x ∷ xs) now at = ground arith

  sees_open :
      (s : LbStrategyMds Carrier) (xs : List (MdsScored Carrier)) (j : ℕ) (x : MdsScored Carrier)
      → SeesCircuits s xs
      → get_elem? xs j ≡ some x
      → x.is_open ≡ is_open_of (lookup x.name s.circuits)
  sees_open s [] j x v h = absurd (cc)
  sees_open s (y ∷ ys) zero x v h =
      let e : y ≡ x = cc in
      subst (λ (z : MdsScored Carrier). z.is_open ≡ is_open_of (lookup z.name s.circuits)) e v.0
  sees_open s (y ∷ ys) (suc j) x v h = sees_open s ys j x v.1 h

  -- The probe that is picked belongs to an open circuit.
  probe_is_open :
      (s : LbStrategyMds Carrier) (xs : List (MdsScored Carrier)) (now k : ℕ) (name : String)
      (cb : MdsCircuit)
      → SeesCircuits s xs
      → pick_half_open_probe s.circuits xs now ≡ some (k, name, cb)
      → (lookup name s.circuits ≡ some cb) × (cb.is_open ≡ true)
  probe_is_open s xs now k name cb sees h =
      let (x, (j, a, b), same, o, found, idle, due) =
        pick_half_open_probe_lem s.circuits xs now k name cb h in
      (found, rw (sees_open s xs j x sees b, same, found) at o)

  choose-IsAllSound :
      (s : LbStrategyMds Carrier) (xs : List (MdsScored Carrier)) (now at : ℕ) (draw : Carrier)
      (intn : ℕ → ℕ)
      → SeesCircuits s xs
      → IsAllSound s
      → IsAllSound (choose fl s xs now at draw intn).0
  choose-IsAllSound s xs now at draw intn sees all =
      choose_cases fl s xs now at draw intn (λ r. IsAllSound r.0) probed (λ k. all) settled
    where
      probed :
          (k : ℕ) (name : String) (cb : MdsCircuit)
          → pick_half_open_probe s.circuits xs now ≡ some (k, name, cb)
          → IsAllSound (after_probe s name cb)
      probed k name cb h =
          let (found, o) = probe_is_open s xs now k name cb sees h in
          let v = all name cb found in
          insert-IsAllSound s name (record cb { probing = true })
            (record {
              probing_open = λ q. o;
              open_recovery = v.open_recovery;
              closed_streak = v.closed_streak;
            })
            all

      settled : IsAllSound (stick_or_switch fl s xs now at).0
      settled = let (a, b) = stick_or_switch-circuits s xs now at in rw (a, b) all

  score_candidates-SeesCircuits :
      {R : Type 0} (edges : List Carrier) (s : LbStrategyMds Carrier)
      (cs : List (ResolverCandidate Carrier R)) (clock : ℕ → ℕ × ℕ) (i : ℕ)
      → SeesCircuits s (score_candidates fl edges s cs clock i).1
  unfolding score_candidates score_candidate score_one
  score_candidates-SeesCircuits edges s [] clock i = tt
  score_candidates-SeesCircuits edges s (c ∷ cs) clock i =
      (refl, score_candidates-SeesCircuits edges s cs clock (suc i))

  map-price-SeesCircuits :
      (s : LbStrategyMds Carrier) (best worst : Carrier) (xs : List (MdsScored Carrier))
      → SeesCircuits s xs
      → SeesCircuits s (map (price fl best worst) xs)
  unfolding price
  map-price-SeesCircuits s best worst [] v = tt
  map-price-SeesCircuits s best worst (x ∷ xs) v = (v.0, map-price-SeesCircuits s best worst xs v.1)

  pub score_all-SeesCircuits :
      {R : Type 0} (edges : List Carrier) (s : LbStrategyMds Carrier)
      (cs : List (ResolverCandidate Carrier R)) (clock : ℕ → ℕ × ℕ)
      → SeesCircuits s (score_all fl edges s cs clock).1
  unfolding score_all
  score_all-SeesCircuits edges s cs clock =
      map-price-SeesCircuits s _ _ _ (score_candidates-SeesCircuits edges s cs clock 0)

  -- A selection keeps every circuit sound.
  pub select-IsAllSound :
      {R : Type 0} (edges : List Carrier) (s : LbStrategyMds Carrier)
      (cs : List (ResolverCandidate Carrier R)) (clock : ℕ → ℕ × ℕ) (now at : ℕ) (draw : Carrier)
      (intn : ℕ → ℕ)
      → IsAllSound s
      → IsAllSound (select_candidate_locked fl edges s cs clock now at draw intn).0
  unfolding select_candidate_locked become_primary
  select-IsAllSound edges s [] clock now at draw intn h = h
  select-IsAllSound edges s (c ∷ []) clock now at draw intn h =
      elim (Bool-cases (str_eq s.primary_name c.server.name)) [ inl e ↦ rw e h | inr e ↦ rw e h ]
  select-IsAllSound edges s (c ∷ d ∷ cs) clock now at draw intn h =
      choose-IsAllSound s (score_all fl edges s (c ∷ d ∷ cs) clock).1 now at draw intn
        (score_all-SeesCircuits edges s (c ∷ d ∷ cs) clock) h

  -- One probe at a time: in the state that a choice leaves when it sends a probe to a resolver,
  -- the resolver that is picked for a probe, at any later time and with any scores, is another one.
  pub probe_exclusive :
      (s : LbStrategyMds Carrier) (xs ys : List (MdsScored Carrier)) (now at later k j : ℕ)
      (draw : Carrier) (intn : ℕ → ℕ) (name next : String) (cb cb' : MdsCircuit)
      → pick_half_open_probe s.circuits xs now ≡ some (k, name, cb)
      → pick_half_open_probe (choose fl s xs now at draw intn).0.circuits ys later
        ≡ some (j, next, cb')
      → name ≢ next
  probe_exclusive s xs ys now at later k j draw intn name next cb cb' sent again same =
      let after = choose_probe fl s xs now at draw intn k name cb sent in
      let (x, f, n, o, found, idle, due) =
        pick_half_open_probe_lem (choose fl s xs now at draw intn).0.circuits ys later j next cb'
          again in
      let sent_one : lookup name (choose fl s xs now at draw intn).0.circuits
          ≡ some (record cb { probing = true }) =
        rw after (lookup-insert_self name (record cb { probing = true }) s.circuits) in
      let found_one : lookup name (choose fl s xs now at draw intn).0.circuits ≡ some cb' =
        rw same found in
      cc

  probe_answer :
      (p : MdsParams Carrier) (cb : MdsCircuit) (o : ExchangeOutcome) (total now : ℕ)
      → cb.is_open ≡ true
      → cb.probing ≡ true
      → is_hard_failure o ≡ false
      → total + p.warmup_samples < 2 ^ 64
      → let cb' = observe_circuit p cb o total now in
        (cb'.is_open ≡ false) × (cb'.recover_until_total ≡ total + p.warmup_samples)
  unfolding observe_circuit
  probe_answer p cb o total now op probing answered fits = ground arith

  -- An answer to a probe closes the circuit and starts a probation of `WarmupSamples` samples:
  -- until a further feedback, the resolver counts as warming exactly as long as its lifetime count
  -- is below that, short of overflow.
  probe_answered_warms :
      (s : LbStrategyMds Carrier) (name : String) (cb : MdsCircuit) (o : ExchangeOutcome)
      (total now n : ℕ)
      → lookup name s.circuits ≡ some cb
      → cb.is_open ≡ true
      → cb.probing ≡ true
      → is_hard_failure o ≡ false
      → total + s.params.warmup_samples < 2 ^ 64
      → let s' = observe_feedback_locked s name o total now in
        (is_open_of (lookup name s'.circuits) ≡ false)
        × (is_warming_locked s' name n s.params.warmup_samples
            ≡ ltb n (total + s.params.warmup_samples))
  unfolding observe_feedback_locked is_warming_locked
  probe_answered_warms s name cb o total now n found op probing answered fits =
      let cb' = observe_circuit s.params cb o total now in
      let (closed, until) = probe_answer s.params cb o total now op probing answered fits in
      rw (found, lookup-insert_self name cb' s.circuits) (closed, ground (arith, until))
