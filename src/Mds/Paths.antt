-- ===== src/Mds/Paths.antt =====
-- The three ways in which a choice of scheduler_mds.go is made.
use dnscrypt_proxy_fork.Base.{
  ℕ, ◌≡◌, refl, inl, inr, true, List, none, some, String, if◌then◌else◌, Option-cases,
}
use dnscrypt_proxy_fork.Base.Dict.{insert}
use dnscrypt_proxy_fork.Float.{Float64}
use dnscrypt_proxy_fork.Mds.Circuit.{MdsCircuit}
use dnscrypt_proxy_fork.Mds.Scheduler.{LbStrategyMds}
use dnscrypt_proxy_fork.Mds.Score.{MdsScored}
use dnscrypt_proxy_fork.Mds.Select.{
  find_name, pick_half_open_probe, pick_explore_target, index_of, stick_or_switch, explore_or_stick,
  choose,
}

-- The state after the probe of a resolver is sent.
abbrev pub after_probe : {F : Type 0} → LbStrategyMds F → String → MdsCircuit → LbStrategyMds F
after_probe s name cb = record s {
  circuits = insert name (record cb { probing = true }) s.circuits;
}

module _ (fl : Float64) (s : LbStrategyMds fl.Carrier) (xs : List (MdsScored fl.Carrier))
    (now at : ℕ) (draw : fl.Carrier) (intn : ℕ → ℕ) where
  explore_cases {ℓ} :
      (P : LbStrategyMds fl.Carrier × ℕ → Type ℓ)
      → ((k : ℕ) → P (s, k))
      → P (stick_or_switch fl s xs now at)
      → P (explore_or_stick fl s xs now at draw intn)
  unfolding explore_or_stick
  explore_cases P explored settled =
      let primary = index_of (find_name s.primary_name xs 0) in
      let target =
        if fl.lt draw s.params.explore_prob then pick_explore_target xs primary intn else none in
      elim (Option-cases target) [
        | inl e ↦ rw (e, explore_or_stick) settled
        | inr (k, e) ↦ rw (e, explore_or_stick) (explored k)
      ]

  -- What holds of a probe, of any exploration and of the sticky path holds of the choice.
  pub choose_cases {ℓ} :
      (P : LbStrategyMds fl.Carrier × ℕ → Type ℓ)
      → ((k : ℕ) (name : String) (cb : MdsCircuit)
          → pick_half_open_probe s.circuits xs now ≡ some (k, name, cb)
          → P (after_probe s name cb, k))
      → ((k : ℕ) → P (s, k))
      → P (stick_or_switch fl s xs now at)
      → P (choose fl s xs now at draw intn)
  unfolding choose
  choose_cases P probed explored settled =
      elim (Option-cases (pick_half_open_probe s.circuits xs now)) [
        | inl e ↦ rw (e, choose) (explore_cases P explored settled)
        | inr ((k, name, cb), e) ↦ rw (e, choose) (probed k name cb e)
      ]

  -- With a probe to send, the choice is that probe.
  pub choose_probe :
      (k : ℕ) (name : String) (cb : MdsCircuit)
      → pick_half_open_probe s.circuits xs now ≡ some (k, name, cb)
      → choose fl s xs now at draw intn ≡ (after_probe s name cb, k)
  unfolding choose
  choose_probe k name cb h = rw (h, choose) refl
