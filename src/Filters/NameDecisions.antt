-- ===== src/Filters/NameDecisions.antt =====
-- dnscrypt-proxy/plugin_allow_name.go, plugin_block_name.go, plugin_block_unqualified.go and
-- plugin_firefox.go: what the rules on names decide about a query.
use dnscrypt_proxy_fork.Base.{ℕ, ◌≡◌, refl, ◌⊎◌, inl, inr, Bool, true, false, Option, none, some}
use dnscrypt_proxy_fork.Text.{Bytes}
use dnscrypt_proxy_fork.Dns.{Msg, empty_response_from_message}
use dnscrypt_proxy_fork.Dns.Responses.{Echoes}
use dnscrypt_proxy_fork.Weekly.{WeeklyRanges}
use dnscrypt_proxy_fork.Patterns.{Trie, PatternMatcher, eval}
use dnscrypt_proxy_fork.Packet.Ttl.{rcode_name_error}
use dnscrypt_proxy_fork.Query.{synth, PluginsState, Evaluated}
use dnscrypt_proxy_fork.Filters.BlockName.{BlockedNames, applies_now, block_name}
use dnscrypt_proxy_fork.Filters.AllowName.{
  PluginAllowName, apply_reload, cancel_reload, reload, allow_name,
}
use dnscrypt_proxy_fork.Filters.Synthesized.{deny_if, block_unqualified, firefox}

module _ {R : Type 0} (glob_match : Bytes → Bytes → Option Bool)
    (trie : Trie R (Option WeeklyRanges)) (day hour minute : ℕ) (has_client_ip : Bool)
    (write_log : Bytes → Bytes → Bool) where
  -- A name that a rule allows now stays unblocked, whatever the rules on blocked names say.
  allow_name-block_name :
      (allowed : PluginAllowName R) (blocked : Option (BlockedNames R)) (ps : PluginsState)
      (msg : Msg) (reason : Bytes) (value : Option (Option WeeklyRanges))
      → eval glob_match trie allowed.pattern_matcher ps.qname ≡ some (reason, value)
      → applies_now glob_match trie day hour minute has_client_ip write_log value ≡ true
      → let e = allow_name glob_match trie day hour minute has_client_ip write_log allowed ps msg in
        block_name glob_match trie day hour minute has_client_ip write_log blocked e.state e.msg
        ≡ record { state = record ps { whitelisted = true }; msg = msg; failed = false }
  unfolding allow_name block_name
  allow_name-block_name allowed none ps msg reason value h a = rw (allow_name, h, a)
  allow_name-block_name allowed (some names) ps msg reason value h a = rw (allow_name, h, a)

-- A reload either uses the rules of the file, or keeps the rules that are in use when the file cannot
-- be read; nothing stays staged.
reload_lem :
    {R : Type 0} (loaded : Option (PatternMatcher R (Option WeeklyRanges)))
    (plugin : PluginAllowName R)
    → ((m : PatternMatcher R (Option WeeklyRanges)) × (loaded ≡ some m)
        × (reload loaded plugin
            ≡ (record plugin { pattern_matcher = m; staging_matcher = none }, false)))
      ⊎ ((loaded ≡ none)
          × (reload loaded plugin ≡ (record plugin { staging_matcher = none }, true)))
unfolding reload apply_reload cancel_reload
reload_lem none plugin = inr (refl, refl)
reload_lem (some m) plugin = inl (m, refl, refl)

-- The plugin leaves the query alone, or answers it itself with NXDOMAIN.
abbrev IsDenial : PluginsState → Msg → Evaluated → Type 0
IsDenial ps msg e =
    (e ≡ record { state = ps; msg = msg; failed = false })
    ⊎ ((m : Msg) × (e.state.synth_response ≡ some m)
        × (e.state.action ≡ synth)
        × (m.rcode ≡ rcode_name_error)
        × Echoes msg m)

deny_if-IsDenial : (b : Bool) (ps : PluginsState) (msg : Msg) → IsDenial ps msg (deny_if b ps msg)
unfolding deny_if empty_response_from_message
deny_if-IsDenial false ps msg = inl refl
deny_if-IsDenial true ps msg = inr (
  record (empty_response_from_message msg) { rcode = rcode_name_error },
  refl,
  refl,
  refl,
  record { same_id = refl; is_response = refl; same_asked = refl },
)

block_unqualified-IsDenial :
    (ps : PluginsState) (msg : Msg) → IsDenial ps msg (block_unqualified ps msg)
unfolding block_unqualified
block_unqualified-IsDenial ps msg = deny_if-IsDenial _ ps msg

firefox-IsDenial : (ps : PluginsState) (msg : Msg) → IsDenial ps msg (firefox ps msg)
unfolding firefox
firefox-IsDenial ps msg = deny_if-IsDenial _ ps msg
