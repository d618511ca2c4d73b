-- ===== src/Filters/BlockName.antt =====
-- dnscrypt-proxy/plugin_block_name.go: names that are blocked, in queries and behind the aliases of
-- responses.
use dnscrypt_proxy_fork.Base.{
  ℕ, zero, suc, Bool, true, false, not, ◌||◌, List, [], ◌∷◌, ◌++◌, Option, none, some, ◌==◌,
  if◌then◌else◌,
}
use dnscrypt_proxy_fork.Text.{Bytes}
use dnscrypt_proxy_fork.Dns.{Rdata, cname, svcb, https, Rr, class_inet, normalize_qname}
use dnscrypt_proxy_fork.Weekly.{WeeklyRanges, is_match}
use dnscrypt_proxy_fork.Patterns.{Trie, PatternMatcher, eval}
use dnscrypt_proxy_fork.Query.{reject, rejected, PluginsState, Plugin}

-- The value of a rule is its weekly ranges, if it has any.
pub record BlockedNames (R : Type 0) : Type 0 where
  pub pattern_matcher : PatternMatcher R (Option WeeklyRanges)
  pub has_logger : Bool

abbrev pub aliases_limit : ℕ
aliases_limit = 8

-- What `check` leaves, its two results, and the state that it writes to.
pub record Checked : Type 0 where
  pub state : PluginsState
  pub blocked : Bool
  pub failed : Bool

abbrev pub blocked_state : PluginsState → PluginsState
blocked_state ps = record ps { action = reject; return_code = rejected }

-- " (alias for [" and "])"
abbrev alias_open : Bytes
alias_open = 32 ∷ 40 ∷ 97 ∷ 108 ∷ 105 ∷ 97 ∷ 115 ∷ 32 ∷ 102 ∷ 111 ∷ 114 ∷ 32 ∷ 91 ∷ []

abbrev with_alias : Bytes → Option Bytes → Bytes
with_alias reason none = reason
with_alias reason (some alias_for) = reason ++ alias_open ++ alias_for ++ 93 ∷ 41 ∷ []

-- The target of a record that renames: CNAME, or SVCB and HTTPS of priority 0.
abbrev pub target_of : Rdata → Option Bytes
target_of (cname target) = some target
target_of (svcb priority target) = if priority == 0 then some target else none
target_of (https priority target) = if priority == 0 then some target else none
target_of _ = none

unfoldable pub alias_of : Rr → Option Bytes
alias_of rr = if rr.class == class_inet then target_of rr.data' else none

-- `day`, `hour` and `minute` are the readings of the clock, `has_client_ip` tells whether the client
-- has an address, and `write_log` whether the entry for a name and a reason is written.
module _ {R : Type 0} (glob_match : Bytes → Bytes → Option Bool)
    (trie : Trie R (Option WeeklyRanges)) (day hour minute : ℕ) (has_client_ip : Bool)
    (write_log : Bytes → Bytes → Bool) where
  -- Whether a rule with this value applies now.
  abbrev pub applies_now : Option (Option WeeklyRanges) → Bool
  applies_now none = true
  applies_now (some none) = true
  applies_now (some (some ranges)) = is_match ranges day hour minute

  -- What follows a match of a rule that applies.
  unfoldable pub note_blocked : Bool → PluginsState → Bytes → Bytes → Checked
  note_blocked has_logger ps qname reason =
      if not has_logger
      then record { state = blocked_state ps; blocked = true; failed = false }
      else if not has_client_ip
      then record { state = blocked_state ps; blocked = false; failed = false }
      else if write_log qname reason
      then record { state = blocked_state ps; blocked = true; failed = false }
      else record { state = blocked_state ps; blocked = false; failed = true }

  unfoldable pub check : BlockedNames R → PluginsState → Bytes → Option Bytes → Checked
  check names ps qname alias_for = elim (eval glob_match trie names.pattern_matcher qname) [
    | none ↦ record { state = ps; blocked = false; failed = false }
    | some (reason, value) ↦
        if applies_now value
        then note_blocked names.has_logger ps qname (with_alias reason alias_for)
        else record { state = ps; blocked = false; failed = false }
  ]

  -- `Eval` of PluginBlockName; the names are nil before the rules are loaded.
  unfoldable pub block_name : Option (BlockedNames R) → Plugin
  block_name none ps msg = record { state = ps; msg = msg; failed = false }
  block_name (some names) ps msg =
      let c = check names ps ps.qname none in
      if ps.whitelisted
      then record { state = ps; msg = msg; failed = false }
      else record { state = c.state; msg = msg; failed = c.failed }

  -- The loop over the answers, with the aliases that are left: the state, and whether there was an
  -- error.
  unfoldable pub check_answers :
      BlockedNames R → Bytes → ℕ → List Rr → PluginsState → PluginsState × Bool
  check_answers names alias_for left [] ps = (ps, false)
  check_answers names alias_for left (rr ∷ rrs) ps = elim (alias_of rr) [
    | none ↦ check_answers names alias_for left rrs ps
    | some target ↦ elim (normalize_qname target) [
      | none ↦ (ps, true)
      | some name ↦
          let c = check names ps name (some alias_for) in
          if c.blocked || c.failed then (c.state, c.failed) else elim left [
            | zero ↦ (c.state, false)
            | suc zero ↦ (c.state, false)
            | suc (suc n) ↦ check_answers names alias_for (suc n) rrs c.state
          ]
    ]
  ]

  -- `Eval` of PluginBlockNameResponse
  unfoldable pub block_name_response : Option (BlockedNames R) → Plugin
  block_name_response none ps msg = record { state = ps; msg = msg; failed = false }
  block_name_response (some names) ps msg =
      let (ps', failed) = check_answers names ps.qname aliases_limit msg.answer ps in
      if ps.whitelisted
      then record { state = ps; msg = msg; failed = false }
      else record { state = ps'; msg = msg; failed = failed }
