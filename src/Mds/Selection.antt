-- ===== src/Mds/Selection.antt =====
-- What the choice of a resolver promises: a valid index, no open circuit without need, and a
-- primary that stays.
use dnscrypt_proxy_fork.Base.{
  ℕ, zero, suc, ◌+◌, ◌<◌, ◌≡◌, subst, inl, inr, true, false, List, [], ◌∷◌, length, get_elem?, none,
  some, arith, All, Bool-cases, Option-cases, ltb,
}
use dnscrypt_proxy_fork.Float.{Float64}
use dnscrypt_proxy_fork.Mds.Scheduler.{LbStrategyMds}
use dnscrypt_proxy_fork.Mds.Score.{MdsScored}
use dnscrypt_proxy_fork.Mds.Select.{
  find_name, pick_half_open_probe, pick_explore_target, best_healthy, index_of, switch_to_best,
  deposes, keep_primary, stick_or_switch, explore_or_stick, choose,
}
use dnscrypt_proxy_fork.Mds.Loops.{
  IsFound, get_elem?-lt, find_name_lem, pick_half_open_probe_lem, pick_explore_target_lem,
  best_healthy_lem, best_healthy-none, best_any-lt,
}

All-get_elem? :
    {F : Type 0} (xs : List (MdsScored F)) (i : ℕ) (x : MdsScored F)
    → All (λ y. y.is_open ≡ true) xs
    → get_elem? xs i ≡ some x
    → x.is_open ≡ true
All-get_elem? [] i x all h = absurd (cc)
All-get_elem? (y ∷ xs) zero x (a, as') h = ground arith
All-get_elem? (y ∷ xs) (suc i) x (a, as') h = All-get_elem? xs i x as' h

module _ (fl : Float64) where
  open fl use {Carrier, lt}

  switch_to_best-lt :
      (s : LbStrategyMds Carrier) (xs : List (MdsScored Carrier)) (at : ℕ)
      → 0 < length xs
      → (switch_to_best fl s xs at).1 < length xs
  unfolding switch_to_best
  switch_to_best-lt s [] at h = absurd (omega arith)
  switch_to_best-lt s (x ∷ xs) at h = elim (Option-cases (best_healthy fl s.params none (x ∷ xs))) [
    | inl e ↦ ground (arith, best_any-lt fl s.params xs 1 (0, x))
    | inr (r, e) ↦
        let ((j, a, b), o, ex) = best_healthy_lem fl s.params none (x ∷ xs) r.0 r.1 e in
        ground (arith, get_elem?-lt (x ∷ xs) j r.1)
  ]

  keep_primary-lt :
      (s : LbStrategyMds Carrier) (xs : List (MdsScored Carrier)) (now at i : ℕ)
      (px : MdsScored Carrier)
      → i < length xs
      → (keep_primary fl s xs now at i px).1 < length xs
  unfolding keep_primary
  keep_primary-lt s xs now at i px h = elim (Option-cases (best_healthy fl s.params (some i) xs)) [
    | inl e ↦ ground arith
    | inr (r, e) ↦
        let ((j, a, b), o, ex) = best_healthy_lem fl s.params (some i) xs r.0 r.1 e in
        ground (arith, get_elem?-lt xs j r.1)
  ]

  stick_or_switch-lt :
      (s : LbStrategyMds Carrier) (xs : List (MdsScored Carrier)) (now at : ℕ)
      → 0 < length xs
      → (stick_or_switch fl s xs now at).1 < length xs
  unfolding stick_or_switch
  stick_or_switch-lt s xs now at h = elim (Option-cases (find_name s.primary_name xs 0)) [
    | inl e ↦ ground (arith, switch_to_best-lt s xs at h)
    | inr (r, e) ↦
        let ((j, a, b), n) = find_name_lem s.primary_name xs 0 r.0 r.1 e in
        ground (
          arith,
          switch_to_best-lt s xs at h,
          keep_primary-lt s xs now at r.0 r.1,
          get_elem?-lt xs j r.1,
        )
  ]

  explore_or_stick-lt :
      (s : LbStrategyMds Carrier) (xs : List (MdsScored Carrier)) (now at : ℕ) (draw : Carrier)
      (intn : ℕ → ℕ)
      → 0 < length xs
      → (explore_or_stick fl s xs now at draw intn).1 < length xs
  unfolding explore_or_stick
  explore_or_stick-lt s xs now at draw intn h =
      let primary = index_of (find_name s.primary_name xs 0) in
      let settled = stick_or_switch-lt s xs now at h in
      elim (Option-cases (pick_explore_target xs primary intn)) [
        | inl e ↦ ground (arith, settled)
        | inr (k, e) ↦
            let (x, (j, a, b), o, p) = pick_explore_target_lem xs primary intn k e in
            ground (arith, settled, get_elem?-lt xs j x)
      ]

  abbrev IsHealthyAt : List (MdsScored Carrier) → ℕ → Type 0
  IsHealthyAt xs k = (y : MdsScored Carrier) × (get_elem? xs k ≡ some y) × (y.is_open ≡ false)

  found_healthy :
      (xs : List (MdsScored Carrier)) (k : ℕ) (y : MdsScored Carrier)
      → IsFound xs 0 k y
      → y.is_open ≡ false
      → IsHealthyAt xs k
  found_healthy xs k y (j, a, b) o =
      (y, subst (λ n. get_elem? xs n ≡ some y) (omega (arith, a)) b, o)

  switch_to_best_healthy :
      (s : LbStrategyMds Carrier) (xs : List (MdsScored Carrier)) (at i : ℕ) (x : MdsScored Carrier)
      → get_elem? xs i ≡ some x
      → x.is_open ≡ false
      → IsHealthyAt xs (switch_to_best fl s xs at).1
  unfolding switch_to_best
  switch_to_best_healthy s [] at i x there healthy = absurd (cc)
  switch_to_best_healthy s (z ∷ zs) at i x there healthy =
      elim (Option-cases (best_healthy fl s.params none (z ∷ zs))) [
        | inl e ↦
            let all = best_healthy-none fl s.params (z ∷ zs) e in
            absurd (cc (All-get_elem? (z ∷ zs) i x all there))
        | inr ((k, y), e) ↦
            let (f, o, ex) = best_healthy_lem fl s.params none (z ∷ zs) k y e in
            rw (e, switch_to_best) (found_healthy (z ∷ zs) k y f o)
      ]

  keep_primary_healthy :
      (s : LbStrategyMds Carrier) (xs : List (MdsScored Carrier)) (now at i : ℕ)
      (px : MdsScored Carrier)
      → IsHealthyAt xs i
      → IsHealthyAt xs (keep_primary fl s xs now at i px).1
  unfolding keep_primary
  keep_primary_healthy s xs now at i px h =
      elim (Option-cases (best_healthy fl s.params (some i) xs)) [
        | inl e ↦ rw (e, keep_primary) h
        | inr ((k, y), e) ↦
            let (f, o, ex) = best_healthy_lem fl s.params (some i) xs k y e in
            let there = found_healthy xs k y f o in
            elim (Bool-cases (ltb now (s.primary_since + s.params.dwell))) [
              | inl d ↦ rw (e, d, keep_primary) h
              | inr d ↦ elim (Bool-cases (deposes fl s.params y px)) [
                | inl b ↦ rw (e, d, b, keep_primary) there
                | inr b ↦ rw (e, d, b, keep_primary) h
              ]
            ]
      ]

  stick_or_switch_healthy :
      (s : LbStrategyMds Carrier) (xs : List (MdsScored Carrier)) (now at i : ℕ)
      (x : MdsScored Carrier)
      → get_elem? xs i ≡ some x
      → x.is_open ≡ false
      → IsHealthyAt xs (stick_or_switch fl s xs now at).1
  unfolding stick_or_switch
  stick_or_switch_healthy s xs now at i x there healthy =
      let best = switch_to_best_healthy s xs at i x there healthy in
      elim (Option-cases (find_name s.primary_name xs 0)) [
        | inl e ↦ rw (e, stick_or_switch) best
        | inr ((k, px), e) ↦
            let (f, n) = find_name_lem s.primary_name xs 0 k px e in
            elim (Bool-cases px.is_open) [
              | inl o ↦ rw (e, o, stick_or_switch) best
              | inr o ↦
                  simp (e, o, stick_or_switch)
                    (keep_primary_healthy s xs now at k px (found_healthy xs k px f o))
            ]
      ]

  explore_or_stick_healthy :
      (s : LbStrategyMds Carrier) (xs : List (MdsScored Carrier)) (now at : ℕ) (draw : Carrier)
      (intn : ℕ → ℕ) (i : ℕ) (x : MdsScored Carrier)
      → get_elem? xs i ≡ some x
      → x.is_open ≡ false
      → IsHealthyAt xs (explore_or_stick fl s xs now at draw intn).1
  unfolding explore_or_stick
  explore_or_stick_healthy s xs now at draw intn i x there healthy =
      let primary = index_of (find_name s.primary_name xs 0) in
      let settled = stick_or_switch_healthy s xs now at i x there healthy in
      elim (Bool-cases (lt draw s.params.explore_prob)) [
        | inr d ↦ rw (d, explore_or_stick) settled
        | inl d ↦ elim (Option-cases (pick_explore_target xs primary intn)) [
          | inl e ↦ rw (d, e, explore_or_stick) settled
          | inr (k, e) ↦
              let (y, f, o, p) = pick_explore_target_lem xs primary intn k e in
              rw (d, e, explore_or_stick) (found_healthy xs k y f o)
        ]
      ]

  -- The index that is chosen addresses a candidate, on every path: half-open probe, exploration,
  -- sticky primary, switch and the fallback where every circuit is open.
  pub choose-lt :
      (s : LbStrategyMds Carrier) (xs : List (MdsScored Carrier)) (now at : ℕ) (draw : Carrier)
      (intn : ℕ → ℕ)
      → 0 < length xs
      → (choose fl s xs now at draw intn).1 < length xs
  unfolding choose
  choose-lt s xs now at draw intn h = elim (Option-cases (pick_half_open_probe s.circuits xs now)) [
    | inr ((k, name, cb), e) ↦
        let (x, (j, a, b), c, d, f, g, i) =
          pick_half_open_probe_lem s.circuits xs now k name cb e in
        ground (arith, get_elem?-lt xs j x)
    | inl e ↦ ground (arith, explore_or_stick-lt s xs now at draw intn h)
  ]

  -- Where no probe is due and some candidate's circuit is not open, the candidate that is chosen
  -- is one whose circuit is not open.
  pub choose_healthy :
      (s : LbStrategyMds Carrier) (xs : List (MdsScored Carrier)) (now at : ℕ) (draw : Carrier)
      (intn : ℕ → ℕ) (i : ℕ) (x : MdsScored Carrier)
      → pick_half_open_probe s.circuits xs now ≡ none
      → get_elem? xs i ≡ some x
      → x.is_open ≡ false
      → (y : MdsScored Carrier) × (get_elem? xs (choose fl s xs now at draw intn).1 ≡ some y)
        × (y.is_open ≡ false)
  unfolding choose
  choose_healthy s xs now at draw intn i x quiet there healthy =
      rw (quiet, choose) (explore_or_stick_healthy s xs now at draw intn i x there healthy)
