-- ===== src/Mds/Breaker.antt =====
-- The circuit breaker of scheduler_mds.go as a state machine.
use dnscrypt_proxy_fork.Base.{
  ℕ, ◌+◌, ◌^◌, ◌≤◌, ◌<◌, ◌≡◌, Bool, true, false, List, [], ◌∷◌, arith, length, All, leb,
  if◌then◌else◌, ◌↔◌, Bool-cases, inl, inr,
}
use dnscrypt_proxy_fork.Exchange.{ExchangeOutcome}
use dnscrypt_proxy_fork.Mds.Circuit.{
  MdsParams, MdsCircuit, next_fails, is_hard_failure, observe_circuit,
}

-- A probe is in flight only on an open circuit; an open circuit is in no recovery probation;
-- a closed one has a streak below the threshold.
pub record IsSound {F : Type 0} (p : MdsParams F) (cb : MdsCircuit) : Type 0 where
  pub probing_open : cb.probing ≡ true → cb.is_open ≡ true
  pub open_recovery : cb.is_open ≡ true → cb.recover_until_total ≡ 0
  pub closed_streak : cb.is_open ≡ false → cb.consec_hard_fails < p.breaker_threshold

-- What the scheduler sees of a circuit: closed, open and waiting, or open with a probe in flight.
pub data Phase : Type 0 where
  closed waiting half_open : Phase

abbrev pub phase : MdsCircuit → Phase
phase cb = if cb.is_open then if cb.probing then half_open else waiting else closed

-- The moves that a feedback may make; the first index tells a hard failure.
pub data Move : Bool → Phase → Phase → Type 0 where
  stay_closed : (b : Bool) → Move b closed closed
  trip : Move true closed waiting
  keep_waiting : (b : Bool) → Move b waiting waiting
  probe_failed : Move true half_open waiting
  answered_half_open : Move false half_open closed

-- One call of `observeFeedbackLocked`, as the circuit sees it.
pub record Observation : Type 0 where
  pub outcome : ExchangeOutcome
  pub total : ℕ
  pub at : ℕ

-- The probation that ends at a lifetime count is over.
abbrev pub IsPast : ℕ → Observation → Type 0
IsPast until e = until ≤ e.total

module _ {F : Type 0} where
  pub observe_all : MdsParams F → MdsCircuit → List Observation → MdsCircuit
  observe_all p cb [] = cb
  observe_all p cb (e ∷ es) = observe_all p (observe_circuit p cb e.outcome e.total e.at) es

  -- With a threshold of at least two, every observation keeps the circuit sound: a probe is in
  -- flight only on an open circuit, an open circuit has no probation, and a closed one has a
  -- streak below the threshold.
  pub observe_circuit-IsSound :
      (p : MdsParams F) (cb : MdsCircuit) (o : ExchangeOutcome) (total now : ℕ)
      → 1 < p.breaker_threshold
      → IsSound p cb
      → IsSound p (observe_circuit p cb o total now)
  unfolding observe_circuit
  observe_circuit-IsSound p cb o total now h v = record {
    probing_open = ground (arith, v.probing_open);
    open_recovery = ground (arith, v.open_recovery);
    closed_streak = ground (arith, v.closed_streak);
  }

  -- Every observation makes one of the five moves: only a hard failure opens a closed circuit, and an
  -- open one closes only while the flag of a probe in flight is set, by an observation that is no hard
  -- failure. An observation does not tell which query it is of: any answer in that time closes it.
  pub observe_circuit-Move :
      (p : MdsParams F) (cb : MdsCircuit) (o : ExchangeOutcome) (total now : ℕ)
      → Move (is_hard_failure o) (phase cb) (phase (observe_circuit p cb o total now))
  unfolding observe_circuit
  observe_circuit-Move p cb o total now =
      grind (arith, stay_closed, trip, keep_waiting, probe_failed, answered_half_open)

  -- A circuit that is closed opens at this observation exactly when the observation is a hard
  -- failure of a mature resolver outside probation that completes the streak.
  pub opens_iff :
      (p : MdsParams F) (cb : MdsCircuit) (o : ExchangeOutcome) (total now : ℕ)
      → cb.is_open ≡ false
      → ((observe_circuit p cb o total now).is_open ≡ true) ↔ (
          (is_hard_failure o ≡ true)
          × (cb.recover_until_total ≤ total)
          × (p.warmup_samples ≤ total)
          × (p.breaker_threshold ≤ next_fails cb))
  unfolding observe_circuit
  opens_iff p cb o total now h = ground arith

  abbrev pub IsColdFor : MdsParams F → Observation → Type 0
  IsColdFor p e = e.total < p.warmup_samples

  -- Cold start: while the lifetime count is below the warm-up size, no history of outcomes
  -- whatever opens a closed circuit.
  pub cold_start :
      (p : MdsParams F) (cb : MdsCircuit) (es : List Observation)
      → cb.is_open ≡ false
      → All (IsColdFor p) es
      → (observe_all p cb es).is_open ≡ false
  unfolding observe_all
  cold_start p cb [] h cold = h
  cold_start p cb (e ∷ es) h (c, cs) =
      cold_start p (observe_circuit p cb e.outcome e.total e.at) es
        (unfold observe_circuit in ground arith) cs

  abbrev pub IsMatureFailure : MdsParams F → Observation → Type 0
  IsMatureFailure p e = (is_hard_failure e.outcome ≡ true) × (p.warmup_samples ≤ e.total)

  open_stays :
      (p : MdsParams F) (cb : MdsCircuit) (es : List Observation)
      → cb.is_open ≡ true
      → All (IsMatureFailure p) es
      → (observe_all p cb es).is_open ≡ true
  unfolding observe_all
  open_stays p cb [] h all = h
  open_stays p cb (e ∷ es) h (c, cs) =
      open_stays p (observe_circuit p cb e.outcome e.total e.at) es
        (unfold observe_circuit in ground arith) cs

  mature_failure :
      (p : MdsParams F) (cb : MdsCircuit) (e : Observation)
      → p.breaker_threshold < 2 ^ 32
      → cb.is_open ≡ false
      → cb.consec_hard_fails < p.breaker_threshold
      → IsMatureFailure p e
      → IsPast cb.recover_until_total e
      → let cb' = observe_circuit p cb e.outcome e.total e.at in
        (cb'.is_open ≡ leb p.breaker_threshold (cb.consec_hard_fails + 1))
        × ((cb'.is_open ≡ false) → (cb'.recover_until_total ≡ cb.recover_until_total))
        × (cb'.consec_hard_fails ≡ cb.consec_hard_fails + 1)
  unfolding observe_circuit
  mature_failure p cb e small h c m r = ground arith

  -- A run of hard failures, each at a lifetime count of at least the warm-up size and outside the
  -- probation that a recovery may have left, opens a closed circuit exactly when the streak reaches the
  -- threshold: one failure less never does, and one more never undoes it. The threshold fits 32 bits,
  -- and the streak starts below it.
  pub streak_opens :
      (p : MdsParams F) (cb : MdsCircuit) (es : List Observation)
      → p.breaker_threshold < 2 ^ 32
      → cb.is_open ≡ false
      → cb.consec_hard_fails < p.breaker_threshold
      → All (IsMatureFailure p) es
      → All (IsPast cb.recover_until_total) es
      → (observe_all p cb es).is_open ≡ leb p.breaker_threshold (cb.consec_hard_fails + length es)
  unfolding observe_all
  streak_opens p cb [] small h c all past = ground arith
  streak_opens p cb (e ∷ es) small h c (c1, cs) (r1, rs) =
      let cb' = observe_circuit p cb e.outcome e.total e.at in
      let (opened, kept, fails) = mature_failure p cb e small h c c1 r1 in
      elim (Bool-cases cb'.is_open) [
        | inl o ↦ ground (arith, opened, fails, o, open_stays p cb' es o cs)
        | inr o ↦
            let rs' : All (IsPast cb'.recover_until_total) es = rw (kept o) rs in
            ground (
              arith,
              opened,
              fails,
              o,
              streak_opens p cb' es small o (ground (arith, opened, fails, o)) cs rs',
            )
      ]
