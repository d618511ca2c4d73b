-- ===== src/Filters/ForwardLaws.antt =====
-- dnscrypt-proxy/plugin_forward.go: what a forwarded query is answered with.
use dnscrypt_proxy_fork.Base.{
  ℕ, zero, suc, ◌≡◌, refl, sym, subst, inl, inr, Bool, true, false, List, [], ◌∷◌, Option, none,
  some, String, Bool-cases, Option-cases, arith,
}
use dnscrypt_proxy_fork.Text.{Bytes}
use dnscrypt_proxy_fork.Dns.{Msg, validate_response_question}
use dnscrypt_proxy_fork.Query.{PluginsState}
use dnscrypt_proxy_fork.Filters.Forward.{
  SearchSequenceItemType, SearchSequenceItem, PluginForwardEntry, Sources, server_as, entry_for,
  asks_next, forward_answer, answered_with, without_extra, forward_loop, eval_forward,
}

-- The answer, if there is one, is to the question of the message, under its ID.
abbrev pub AnswersMsg : (Bytes → Bytes → Bool) → Msg → Option Msg → Type 0
AnswersMsg equal_name msg none = Unit
AnswersMsg equal_name msg (some r) =
    (validate_response_question equal_name msg r ≡ true) × (r.id ≡ msg.id)

module _ (equal_name : Bytes → Bytes → Bool) (src : Sources)
    (exchange : SearchSequenceItemType → String → Msg → Option Msg) (msg : Msg) where
  -- Whatever the servers answer, a state that has no answer, or one to the question, is left with none
  -- or with one to the question, under the ID of the query.
  forward_loop-AnswersMsg :
      (tries : ℕ) (items : List SearchSequenceItem) (ps : PluginsState) (failed : Bool)
      → AnswersMsg equal_name msg ps.synth_response
      → AnswersMsg equal_name msg
          (forward_loop equal_name src exchange msg tries items ps failed).state.synth_response
  unfolding forward_loop validate_response_question
  forward_loop-AnswersMsg tries [] ps failed h = h
  forward_loop-AnswersMsg tries (item ∷ items) ps failed h =
      elim (Option-cases (server_as item.type src item).1) [
        | inl e ↦ rw (forward_loop, e) (forward_loop-AnswersMsg tries items ps failed h)
        | inr (s, e) ↦
            let ps1 : PluginsState = record ps { server_name = s } in
            elim tries
              as (λ n.
                AnswersMsg equal_name msg
                  (forward_loop equal_name src exchange msg n (item ∷ items) ps
                    failed).state.synth_response) [
                      | zero ↦ rw (forward_loop, e) h
                      | suc left ↦ elim (Option-cases (exchange item.type s (without_extra msg))) [
                        | inl x ↦
                            rw (forward_loop, e, x) (forward_loop-AnswersMsg left items ps1 true h)
                        | inr (r, x) ↦
                            elim (Bool-cases
                              (validate_response_question equal_name (without_extra msg) r)) [
                                | inr v ↦
                                    rw (forward_loop, e, x, v)
                                      (forward_loop-AnswersMsg left items ps1 false h)
                                | inl v ↦
                                    let answers : AnswersMsg equal_name msg
                                        (some (forward_answer msg r)) =
                                      (v, refl) in
                                    elim (Bool-cases (asks_next r)) [
                                      | inl a ↦
                                          rw (forward_loop, e, x, v, a)
                                            (forward_loop-AnswersMsg left items
                                              (answered_with (forward_answer msg r) ps1) false
                                              answers)
                                      | inr a ↦ rw (forward_loop, e, x, v, a) answers
                                    ]
                              ]
                      ]
                    ]
      ]

-- A query that no plugin has answered before is left by the forwarding plugin without an answer, or
-- with one to its question, under its ID, whatever the servers send.
pub eval_forward-AnswersMsg :
    (equal_name : Bytes → Bytes → Bool) (src : Sources)
    (exchange : Bool → SearchSequenceItemType → String → Msg → Option Msg)
    (forward_map : List PluginForwardEntry) (ps : PluginsState) (msg : Msg)
    → ps.synth_response ≡ none
    → AnswersMsg equal_name msg
        (eval_forward equal_name src exchange forward_map ps msg).state.synth_response
unfolding eval_forward
eval_forward-AnswersMsg equal_name src exchange forward_map ps msg h =
    let none_yet : AnswersMsg equal_name msg ps.synth_response =
      subst (AnswersMsg equal_name msg) (sym h) tt in
    elim (Option-cases (entry_for forward_map ps.qname)) [
      | inl e ↦ rw (eval_forward, e) none_yet
      | inr (entry, e) ↦
          rw (eval_forward, e)
            (forward_loop-AnswersMsg equal_name src (exchange entry.via_proxy) msg 4 entry.sequence
              ps false none_yet)
    ]

-- A server that answers NXDOMAIN to the question, followed by one that fails, leaves an error besides
-- the answer: the chain of plugins drops such a query.
pub forward_loop-nxdomain :
    (equal_name : Bytes → Bytes → Bool) (src : Sources)
    (exchange : SearchSequenceItemType → String → Msg → Option Msg) (ps : PluginsState)
    (msg r : Msg) (first second : SearchSequenceItem) (s1 s2 : String)
    → (server_as first.type src first).1 ≡ some s1
    → (server_as second.type src second).1 ≡ some s2
    → exchange first.type s1 (without_extra msg) ≡ some r
    → validate_response_question equal_name (without_extra msg) r ≡ true
    → r.rcode ≡ 3
    → exchange second.type s2 (without_extra msg) ≡ none
    → let x = forward_loop equal_name src exchange msg 4 (first ∷ second ∷ []) ps false in
      (x.failed ≡ true) × (x.state.synth_response ≡ some (forward_answer msg r))
unfolding forward_loop
forward_loop-nxdomain equal_name src exchange ps msg r first second s1 s2 a b x v c y =
    let next : asks_next r ≡ true = ground (arith, c) in
    (rw (forward_loop, a, x, v, next, b, y), rw (forward_loop, a, x, v, next, b, y))
