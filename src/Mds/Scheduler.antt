-- ===== src/Mds/Scheduler.antt =====
-- dnscrypt-proxy/scheduler_mds.go: the state of the scheduler, its primary and its circuits. The
-- caller holds the lock of ServersInfo, so each method is one step; clock readings are arguments.
use dnscrypt_proxy_fork.Base.{
  ℕ, ◌+◌, ◌%◌, ◌^◌, Bool, true, false, List, [], ◌∷◌, Option, none, some, String, str_eq, ltb,
  if◌then◌else◌,
}
use dnscrypt_proxy_fork.Base.Dict.{Dict, lookup, insert}
use dnscrypt_proxy_fork.Exchange.{ExchangeOutcome}
use dnscrypt_proxy_fork.Mds.Circuit.{MdsParams, MdsCircuit, zero_circuit, observe_circuit}

pub record LbStrategyMds (F : Type 0) : Type 0 where
  pub params : MdsParams F
  pub primary_name : String
  pub primary_since : ℕ
  pub circuits : Dict MdsCircuit
  pub total_switches : ℕ
  pub switches_by_name : Dict ℕ

-- A copy of the state for observation. The order of the open circuits is that of the map.
pub record MdsStats : Type 0 where
  pub primary_name : String
  pub total_switches : ℕ
  pub switches_by_name : Dict ℕ
  pub open_circuits : List String

-- `newLBStrategyMDSWithDeps`
unfoldable pub new_mds : {F : Type 0} → MdsParams F → LbStrategyMds F
new_mds p = record {
  params = p;
  primary_name = "";
  primary_since = 0;
  circuits = [];
  total_switches = 0;
  switches_by_name = [];
}

-- `m[name]` of a map of counters
abbrev pub count_or_zero : Option ℕ → ℕ
count_or_zero none = 0
count_or_zero (some n) = n

-- `mds.circuits[name] != nil && mds.circuits[name].open`
abbrev pub is_open_of : Option MdsCircuit → Bool
is_open_of none = false
is_open_of (some cb) = cb.is_open

open_names : Dict MdsCircuit → List String
open_names [] = []
open_names ((name, cb) ∷ cs) = if cb.is_open then name ∷ open_names cs else open_names cs

-- The probation that a resolver may be in.
abbrev pub in_probation : Option MdsCircuit → ℕ → Bool
in_probation none total_samples = false
in_probation (some cb) total_samples = ltb total_samples cb.recover_until_total

-- `circuitFor`: the entry, or the zero value that is created.
abbrev pub circuit_for : Option MdsCircuit → MdsCircuit
circuit_for none = zero_circuit
circuit_for (some cb) = cb

module _ {F : Type 0} where
  pub stats : LbStrategyMds F → MdsStats
  unfolding open_names
  stats s = record {
    primary_name = s.primary_name;
    total_switches = s.total_switches;
    switches_by_name = s.switches_by_name;
    open_circuits = open_names s.circuits;
  }

  -- `now` is the reading that a change of primary takes.
  unfoldable pub become_primary : LbStrategyMds F → String → ℕ → LbStrategyMds F
  become_primary s name now = if str_eq s.primary_name name then s else record s {
    total_switches = (s.total_switches + 1) % 2 ^ 64;
    switches_by_name =
        insert name ((count_or_zero (lookup name s.switches_by_name) + 1) % 2 ^ 64)
          s.switches_by_name;
    primary_name = name;
    primary_since = now;
  }

  unfoldable pub is_warming_locked : LbStrategyMds F → String → ℕ → ℕ → Bool
  is_warming_locked s name total_samples warmup_samples =
      if ltb total_samples warmup_samples
      then true
      else in_probation (lookup name s.circuits) total_samples

  unfoldable pub observe_feedback_locked :
      LbStrategyMds F → String → ExchangeOutcome → ℕ → ℕ → LbStrategyMds F
  observe_feedback_locked s name o total_samples now =
      let cb = circuit_for (lookup name s.circuits) in
      record s {
        circuits = insert name (observe_circuit s.params cb o total_samples now) s.circuits;
      }
