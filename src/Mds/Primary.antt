-- ===== src/Mds/Primary.antt =====
-- When the primary of scheduler_mds.go changes, and how the changes are counted.
use dnscrypt_proxy_fork.Base.{
  ℕ, ◌+◌, ◌%◌, ◌^◌, ◌≤◌, ◌≡◌, refl, ap, ◌⊎◌, inl, inr, true, false, List, [], ◌∷◌, none, some,
  String, eq_iff, arith, Bool-cases, Option-cases, ltb,
}
use dnscrypt_proxy_fork.Base.Dict.{Dict, lookup, insert}
use dnscrypt_proxy_fork.Float.{Float64}
use dnscrypt_proxy_fork.Servers.Server.{ResolverCandidate}
use dnscrypt_proxy_fork.Mds.Circuit.{MdsParams}
use dnscrypt_proxy_fork.Mds.Scheduler.{LbStrategyMds, become_primary, count_or_zero, new_mds}
use dnscrypt_proxy_fork.Mds.Score.{MdsScored, score_all}
use dnscrypt_proxy_fork.Mds.Select.{
  find_name, best_healthy, switch_to_best, deposes, keep_primary, stick_or_switch, choose,
  select_candidate_locked,
}
use dnscrypt_proxy_fork.Mds.Loops.{IsFound, best_healthy_lem}
use dnscrypt_proxy_fork.Mds.Paths.{choose_cases}

-- All changes of primary that the counters by name hold.
unfoldable pub count_all : Dict ℕ → ℕ
count_all [] = 0
count_all ((name, n) ∷ m) = n + count_all m

-- The total is the sum of the counters by name, on uint64.
abbrev pub IsAccounted : {F : Type 0} → LbStrategyMds F → Type 0
IsAccounted s = s.total_switches ≡ count_all s.switches_by_name % 2 ^ 64

count_all-insert :
    (k : String) (v : ℕ) (m : Dict ℕ)
    → count_all (insert k v m) + count_or_zero (lookup k m) ≡ count_all m + v
unfolding count_all insert lookup
count_all-insert k v [] = omega arith
count_all-insert k v ((j, w) ∷ m) = ground (arith, count_all-insert k v m)

become_primary-IsAccounted :
    {F : Type 0} (s : LbStrategyMds F) (name : String) (now : ℕ)
    → IsAccounted s
    → IsAccounted (become_primary s name now)
unfolding become_primary
become_primary-IsAccounted s name now h = ground (
  arith,
  count_all-insert name ((count_or_zero (lookup name s.switches_by_name) + 1) % 2 ^ 64)
      s.switches_by_name,
)

new_mds-IsAccounted : {F : Type 0} (p : MdsParams F) → IsAccounted (new_mds p)
unfolding new_mds count_all
new_mds-IsAccounted p = refl

module _ (fl : Float64) where
  open fl use {Carrier, lt}

  -- A choice moves no primary, or moves it once.
  abbrev Moved : LbStrategyMds Carrier → LbStrategyMds Carrier → Type 0
  Moved s s' =
      ((s'.primary_name ≡ s.primary_name)
        × (s'.total_switches ≡ s.total_switches)
        × (s'.switches_by_name ≡ s.switches_by_name))
      ⊎ ((name : String) × (at : ℕ) × (s' ≡ become_primary s name at))

  switch_to_best-Moved :
      (s : LbStrategyMds Carrier) (xs : List (MdsScored Carrier)) (at : ℕ)
      → Moved s (switch_to_best fl s xs at).0
  unfolding switch_to_best
  switch_to_best-Moved s [] at = inl (refl, refl, refl)
  switch_to_best-Moved s (x ∷ xs) at =
      elim (Option-cases (best_healthy fl s.params none (x ∷ xs))) [
        | inl e ↦ rw (e, switch_to_best) (inr (_, at, refl))
        | inr ((b, bx), e) ↦ rw (e, switch_to_best) (inr (bx.name, at, refl))
      ]

  -- With a primary that is not open, a switch has to earn it.
  abbrev pub Earned :
      LbStrategyMds Carrier
      → List (MdsScored Carrier)
      → ℕ
      → MdsScored Carrier
      → LbStrategyMds Carrier
      → Type 0
  Earned s xs now px s' =
      (k : ℕ) × (bx : MdsScored Carrier) × IsFound xs 0 k bx
      × (bx.is_open ≡ false)
      × (s.primary_since + s.params.dwell ≤ now)
      × (deposes fl s.params bx px ≡ true)
      × (s'.primary_name ≡ bx.name)

  become_primary-name :
      (s : LbStrategyMds Carrier) (name : String) (at : ℕ)
      → (become_primary s name at).primary_name ≡ name
  unfolding become_primary
  become_primary-name s name at = ground (arith, eq_iff s.primary_name name)

  keep_primary_lem :
      (s : LbStrategyMds Carrier) (xs : List (MdsScored Carrier)) (now at i : ℕ)
      (px : MdsScored Carrier)
      → let s' = (keep_primary fl s xs now at i px).0 in
        (s' ≡ s) ⊎ (Earned s xs now px s' × (name : String) × (s' ≡ become_primary s name at))
  unfolding keep_primary
  keep_primary_lem s xs now at i px = elim (Option-cases (best_healthy fl s.params (some i) xs)) [
    | inl e ↦ rw (e, keep_primary) (inl refl)
    | inr ((k, y), e) ↦
        let (f, o, ex) = best_healthy_lem fl s.params (some i) xs k y e in
        elim (Bool-cases (ltb now (s.primary_since + s.params.dwell))) [
          | inl d ↦ rw (e, d, keep_primary) (inl refl)
          | inr d ↦ elim (Bool-cases (deposes fl s.params y px)) [
            | inl b ↦
                rw (e, d, b, keep_primary)
                  (inr
                    ((k, y, f, o, ground arith, b, become_primary-name s y.name at), y.name, refl))
            | inr b ↦ rw (e, d, b, keep_primary) (inl refl)
          ]
        ]
  ]

  stick_or_switch_lem :
      (s : LbStrategyMds Carrier) (xs : List (MdsScored Carrier)) (now at i : ℕ)
      (px : MdsScored Carrier)
      → find_name s.primary_name xs 0 ≡ some (i, px)
      → px.is_open ≡ false
      → let s' = (stick_or_switch fl s xs now at).0 in
        (s' ≡ s) ⊎ (Earned s xs now px s' × (name : String) × (s' ≡ become_primary s name at))
  unfolding stick_or_switch
  stick_or_switch_lem s xs now at i px e o =
      simp (e, o, stick_or_switch) (keep_primary_lem s xs now at i px)

  -- While the primary is a candidate whose circuit is not open, a choice leaves it primary, unless
  -- the dwell time is over and a candidate that is not open beats it by the switch margin; then
  -- that candidate is the new primary.
  pub choose_sticky :
      (s : LbStrategyMds Carrier) (xs : List (MdsScored Carrier)) (now at : ℕ) (draw : Carrier)
      (intn : ℕ → ℕ) (i : ℕ) (px : MdsScored Carrier)
      → find_name s.primary_name xs 0 ≡ some (i, px)
      → px.is_open ≡ false
      → let s' = (choose fl s xs now at draw intn).0 in
        (s'.primary_name ≡ s.primary_name) ⊎ Earned s xs now px s'
  choose_sticky s xs now at draw intn i px e o =
      choose_cases fl s xs now at draw intn
        (λ r. (r.0.primary_name ≡ s.primary_name) ⊎ Earned s xs now px r.0)
        (λ k name cb p. inl refl) (λ k. inl refl)
        (elim (stick_or_switch_lem s xs now at i px e o) [
          | inl q ↦ inl (ap (λ (t : LbStrategyMds Carrier). t.primary_name) q)
          | inr (w, n, q) ↦ inr w
        ])

  stick_or_switch-Moved :
      (s : LbStrategyMds Carrier) (xs : List (MdsScored Carrier)) (now at : ℕ)
      → Moved s (stick_or_switch fl s xs now at).0
  unfolding stick_or_switch
  stick_or_switch-Moved s xs now at = elim (Option-cases (find_name s.primary_name xs 0)) [
    | inl e ↦ rw (e, stick_or_switch) (switch_to_best-Moved s xs at)
    | inr ((k, px), e) ↦ elim (Bool-cases px.is_open) [
      | inl o ↦ simp (e, o, stick_or_switch) (switch_to_best-Moved s xs at)
      | inr o ↦
          simp (e, o, stick_or_switch)
            (elim (keep_primary_lem s xs now at k px) [
              | inl q ↦ inl (rw q (refl, refl, refl))
              | inr (w, n, q) ↦ inr (n, at, q)
            ])
    ]
  ]

  Moved-IsAccounted : (s s' : LbStrategyMds Carrier) → Moved s s' → IsAccounted s → IsAccounted s'
  Moved-IsAccounted s s' (inl (a, b, c)) h = rw (b, c) h
  Moved-IsAccounted s s' (inr (name, at, q)) h = rw q (become_primary-IsAccounted s name at h)

  choose-IsAccounted :
      (s : LbStrategyMds Carrier) (xs : List (MdsScored Carrier)) (now at : ℕ) (draw : Carrier)
      (intn : ℕ → ℕ)
      → IsAccounted s
      → IsAccounted (choose fl s xs now at draw intn).0
  choose-IsAccounted s xs now at draw intn h =
      choose_cases fl s xs now at draw intn (λ r. IsAccounted r.0) (λ k name cb p. h) (λ k. h)
        (Moved-IsAccounted s _ (stick_or_switch-Moved s xs now at) h)

  -- Every selection keeps the total number of switches equal to the sum of those by name, on
  -- uint64.
  select-IsAccounted :
      {R : Type 0} (edges : List Carrier) (s : LbStrategyMds Carrier)
      (cs : List (ResolverCandidate Carrier R)) (clock : ℕ → ℕ × ℕ) (now at : ℕ) (draw : Carrier)
      (intn : ℕ → ℕ)
      → IsAccounted s
      → IsAccounted (select_candidate_locked fl edges s cs clock now at draw intn).0
  unfolding select_candidate_locked
  select-IsAccounted edges s [] clock now at draw intn h = h
  select-IsAccounted edges s (c ∷ []) clock now at draw intn h =
      become_primary-IsAccounted s c.server.name at h
  select-IsAccounted edges s (c ∷ d ∷ cs) clock now at draw intn h =
      choose-IsAccounted s (score_all fl edges s (c ∷ d ∷ cs) clock).1 now at draw intn h
