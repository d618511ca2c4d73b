-- ===== src/Filters/AllowName.antt =====
-- dnscrypt-proxy/plugin_allow_name.go: names that are allowed whatever the plugins after this one
-- say, and the reloading of the rules.
use dnscrypt_proxy_fork.Base.{ℕ, Bool, true, false, not, ◌&&◌, Option, none, some, if◌then◌else◌}
use dnscrypt_proxy_fork.Text.{Bytes}
use dnscrypt_proxy_fork.Weekly.{WeeklyRanges}
use dnscrypt_proxy_fork.Patterns.{Trie, PatternMatcher, eval}
use dnscrypt_proxy_fork.Query.{Plugin}
use dnscrypt_proxy_fork.Filters.BlockName.{applies_now}

-- `pattern_matcher` is in use, `staging_matcher` is what a reload has prepared.
pub record PluginAllowName (R : Type 0) : Type 0 where
  pub pattern_matcher : PatternMatcher R (Option WeeklyRanges)
  pub staging_matcher : Option (PatternMatcher R (Option WeeklyRanges))
  pub has_logger : Bool

-- `ApplyReload`, and whether it fails
unfoldable pub apply_reload : {R : Type 0} → PluginAllowName R → PluginAllowName R × Bool
apply_reload plugin = elim plugin.staging_matcher [
  | none ↦ (plugin, true)
  | some m ↦ (record plugin { pattern_matcher = m; staging_matcher = none }, false)
]

unfoldable pub cancel_reload : {R : Type 0} → PluginAllowName R → PluginAllowName R
cancel_reload plugin = record plugin { staging_matcher = none }

-- `Reload`; `load` makes the matcher of the file as it is now, or fails when it cannot be read.
unfoldable pub reload :
    {R : Type 0}
    → Option (PatternMatcher R (Option WeeklyRanges))
    → PluginAllowName R
    → PluginAllowName R × Bool
reload none plugin = (cancel_reload plugin, true)
reload (some m) plugin = apply_reload (record plugin { staging_matcher = some m })

module _ {R : Type 0} (glob_match : Bytes → Bytes → Option Bool)
    (trie : Trie R (Option WeeklyRanges)) (day hour minute : ℕ) (has_client_ip : Bool)
    (write_log : Bytes → Bytes → Bool) where
  unfoldable pub allow_name : PluginAllowName R → Plugin
  allow_name plugin ps msg = elim (eval glob_match trie plugin.pattern_matcher ps.qname) [
    | none ↦ record { state = ps; msg = msg; failed = false }
    | some (reason, value) ↦
        if applies_now glob_match trie day hour minute has_client_ip write_log value
        then record {
          state = record ps { whitelisted = true };
          msg = msg;
          failed = plugin.has_logger && has_client_ip && not (write_log ps.qname reason);
        }
        else record { state = ps; msg = msg; failed = false }
  ]
