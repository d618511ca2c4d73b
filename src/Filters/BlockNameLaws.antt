-- ===== src/Filters/BlockNameLaws.antt =====
-- dnscrypt-proxy/plugin_block_name.go: which names decide on a response.
use dnscrypt_proxy_fork.Base.{
  ℕ, zero, suc, ◌≡◌, refl, inl, inr, Bool, true, false, ◌||◌, List, [], ◌∷◌, take, All, Option,
  none, some, is_some, Option-cases, Bool-cases, if◌then◌else◌, arith,
}
use dnscrypt_proxy_fork.Text.{Bytes}
use dnscrypt_proxy_fork.Dns.{Rr, Msg, normalize_qname}
use dnscrypt_proxy_fork.Weekly.{WeeklyRanges}
use dnscrypt_proxy_fork.Patterns.{Trie, eval}
use dnscrypt_proxy_fork.Query.{PluginsState}
use dnscrypt_proxy_fork.Filters.BlockName.{
  BlockedNames, aliases_limit, blocked_state, alias_of, applies_now, note_blocked, check,
  check_answers, block_name_response,
}

-- The names that the answers are aliases of, in order.
abbrev pub targets : List Rr → List Bytes
targets [] = []
targets (rr ∷ rrs) = elim (alias_of rr) [ none ↦ targets rrs | some t ↦ t ∷ targets rrs ]

module _ {R : Type 0} (glob_match : Bytes → Bytes → Option Bool)
    (trie : Trie R (Option WeeklyRanges)) (day hour minute : ℕ) (has_client_ip : Bool)
    (write_log : Bytes → Bytes → Bool) where
  -- Whether a rule that applies now rejects the name that a target is written for.
  abbrev pub is_blocked : BlockedNames R → Bytes → Bool
  is_blocked names target = elim (normalize_qname target) [
    | none ↦ false
    | some name ↦ elim (eval glob_match trie names.pattern_matcher name) [
      | none ↦ false
      | some (reason, value) ↦
          applies_now glob_match trie day hour minute has_client_ip write_log value
    ]
  ]

  abbrev pub any_blocked : BlockedNames R → List Bytes → Bool
  any_blocked names [] = false
  any_blocked names (t ∷ ts) = is_blocked names t || any_blocked names ts

  -- Without a log, a name that is not blocked changes nothing, and one that is blocked sets the state.
  check_lem :
      (names : BlockedNames R) (ps : PluginsState) (target name : Bytes) (alias_for : Option Bytes)
      → names.has_logger ≡ false
      → normalize_qname target ≡ some name
      → check glob_match trie day hour minute has_client_ip write_log names ps name alias_for ≡ (
          if is_blocked names target
          then record { state = blocked_state ps; blocked = true; failed = false }
          else record { state = ps; blocked = false; failed = false })
  unfolding check note_blocked
  check_lem names ps target name alias_for l n =
      elim (Option-cases (eval glob_match trie names.pattern_matcher name)) [
        | inl e ↦ rw (check, e, is_blocked, n, e)
        | inr ((reason, value), e) ↦
            elim (Bool-cases
              (applies_now glob_match trie day hour minute has_client_ip write_log value)) [
                | inl a ↦ rw (check, e, is_blocked, n, e, a, note_blocked, l)
                | inr a ↦ rw (check, e, is_blocked, n, e, a)
              ]
      ]

  abbrev blocked_if : Bool → PluginsState → PluginsState × Bool
  blocked_if b ps = (if b then blocked_state ps else ps, false)

  -- Every target is the writing of an ASCII name.
  abbrev pub AllAscii : List Bytes → Type 0
  AllAscii ts = All (λ t. is_some (normalize_qname t) ≡ true) ts

  -- The loop with so many aliases left judges by as many targets.
  abbrev Judges : BlockedNames R → Bytes → List Rr → PluginsState → ℕ → Type 0
  Judges names alias_for answers ps n =
      check_answers glob_match trie day hour minute has_client_ip write_log names alias_for (suc n)
        answers ps
      ≡ blocked_if (any_blocked names (take (suc n) (targets answers))) ps

  check_answers_lem :
      (names : BlockedNames R) (alias_for : Bytes) (n : ℕ) (answers : List Rr) (ps : PluginsState)
      → names.has_logger ≡ false
      → AllAscii (targets answers)
      → Judges names alias_for answers ps n
  unfolding check_answers
  check_answers_lem names alias_for n [] ps l h = refl
  check_answers_lem names alias_for n (rr ∷ rrs) ps l h = elim (Option-cases (alias_of rr)) [
    | inl a ↦
        let rest : AllAscii (targets rrs) = rw (targets, a) at h in
        rw (check_answers, targets, a) (check_answers_lem names alias_for n rrs ps l rest)
    | inr (t, a) ↦
        let ascii : AllAscii (t ∷ targets rrs) = rw (targets, a) at h in
        elim (Option-cases (normalize_qname t)) [
          | inl q ↦ absurd (ground (arith, q, ascii.0))
          | inr (name, q) ↦
              let checked = check_lem names ps t name (some alias_for) l q in
              elim (Bool-cases (is_blocked names t)) [
                | inl b ↦ rw (check_answers, targets, a, q, checked, b)
                | inr b ↦ elim n as (Judges names alias_for (rr ∷ rrs) ps) [
                  | zero ↦ rw (check_answers, targets, a, q, checked, b)
                  | suc m ↦
                      rw (check_answers, targets, a, q, checked, b)
                        (check_answers_lem names alias_for m rrs ps l ascii.1)
                ]
              ]
        ]
  ]

  -- Without a log, and for a query that is not allowed and answers whose targets are ASCII names, the
  -- response plugin rejects the response just if one of the first eight aliases is blocked now, and
  -- else leaves the state alone; there is no error.
  pub block_name_response_lem :
      (names : BlockedNames R) (ps : PluginsState) (msg : Msg)
      → names.has_logger ≡ false
      → ps.whitelisted ≡ false
      → AllAscii (targets msg.answer)
      → block_name_response glob_match trie day hour minute has_client_ip write_log
          (some names)
          ps
          msg
        ≡ record {
          state =
              if any_blocked names (take aliases_limit (targets msg.answer))
              then blocked_state ps
              else ps;
          msg = msg;
          failed = false;
        }
  unfolding block_name_response
  block_name_response_lem names ps msg l w h =
      simp (check_answers_lem names ps.qname 7 msg.answer ps l h, w)
