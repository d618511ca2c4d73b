-- ===== src/Query/Chains.antt =====
-- dnscrypt-proxy/plugins.go: what the chains of plugins do, for any plugins.
use dnscrypt_proxy_fork.Base.{
  ◌≡◌, refl, sym, subst, ◌⊎◌, inl, inr, Bool, true, false, not, ◌||◌, List, [], ◌∷◌, ◌++◌, some,
  Option-cases, Bool-cases, if◌then◌else◌, arith,
}
use dnscrypt_proxy_fork.Text.{Bytes}
use dnscrypt_proxy_fork.Dns.{Msg, Question, Codec, BlockedTexts, validate_response_for_query}
use dnscrypt_proxy_fork.Servers.Feedback.{rcode}
use dnscrypt_proxy_fork.Dns.Responses.{refused_response_from_message-validate}
use dnscrypt_proxy_fork.Query.{drop, PluginsState, Evaluated, Plugin, PluginsGlobals}
use dnscrypt_proxy_fork.Query.Plugins.{
  is_continue, is_reject, refuse, refuse_if_rejected, eval_plugins, note_question, note_nothing,
  Responded, pack_response, apply_response_plugins, return_code_of,
}
use dnscrypt_proxy_fork.Query.Process.{handle_synthesized_response}

abbrev pub stops : Evaluated → Bool
stops r = r.failed || not (is_continue r.state.action)

abbrev pub IsFine : Evaluated → Type 0
IsFine r = r.failed ≡ false

abbrev pub IsRejected : Evaluated → Type 0
IsRejected r = is_reject r.state.action ≡ true

module _ (texts : BlockedTexts) (globals : PluginsGlobals)
    (note : PluginsState → Msg → PluginsState) where
  -- What one plugin leaves.
  abbrev pub eval_plugin : Plugin → PluginsState → Msg → Evaluated
  eval_plugin plugin ps msg =
      let r = plugin ps msg in
      if r.failed
      then record {
        state = record (note r.state r.msg) { action = drop };
        msg = r.msg;
        failed = true;
      }
      else record {
        state = refuse_if_rejected texts globals (note r.state r.msg) r.msg;
        msg = r.msg;
        failed = false;
      }

  eval_plugins-nil :
      (ps : PluginsState) (msg : Msg)
      → eval_plugins texts globals note [] ps msg ≡ record { state = ps; msg = msg; failed = false }
  unfolding eval_plugins
  eval_plugins-nil ps msg = refl

  pub eval_plugins-cons :
      (plugin : Plugin) (xs : List Plugin) (ps : PluginsState) (msg : Msg)
      → let r = eval_plugin plugin ps msg in
        eval_plugins texts globals note (plugin ∷ xs) ps msg
        ≡ (if stops r then r else eval_plugins texts globals note xs r.state r.msg)
  unfolding eval_plugins
  eval_plugins-cons plugin xs ps msg =
      let r = plugin ps msg in
      elim (Bool-cases r.failed) [
        | inl e ↦ rw e
        | inr e ↦
            elim (Bool-cases
              (is_continue (refuse_if_rejected texts globals (note r.state r.msg) r.msg).action)) [
                | inl c ↦ rw (e, c)
                | inr c ↦ simp (e, c)
              ]
      ]

  -- A chain of two parts is its first part, and the second one only if the first neither failed nor
  -- took another action than to continue. The state the chain starts from continues.
  pub eval_plugins-append :
      (xs ys : List Plugin) (ps : PluginsState) (msg : Msg)
      → is_continue ps.action ≡ true
      → let r = eval_plugins texts globals note xs ps msg in
        eval_plugins texts globals note (xs ++ ys) ps msg
        ≡ (if stops r then r else eval_plugins texts globals note ys r.state r.msg)
  eval_plugins-append [] ys ps msg h = rw (eval_plugins-nil ps msg, h)
  eval_plugins-append (plugin ∷ xs) ys ps msg h =
      let first = eval_plugin plugin ps msg in
      let joined = eval_plugins-cons plugin (xs ++ ys) ps msg in
      let cut = eval_plugins-cons plugin xs ps msg in
      elim (Bool-cases (stops first)) [
        | inl e ↦ rw (joined, cut, e, e)
        | inr e ↦
            rw (joined, cut, e, eval_plugins-append xs ys first.state first.msg (ground (arith, e)))
      ]

  -- The made-up response to the message as it is.
  abbrev pub IsRefused : Evaluated → Type 0
  IsRefused r = r.state.synth_response ≡ some (refuse texts globals r.state r.msg)

  -- The state of one plugin that rejects without an error has the made-up response.
  eval_plugin-reject :
      (plugin : Plugin) (ps : PluginsState) (msg : Msg)
      → let r = eval_plugin plugin ps msg in IsFine r → IsRejected r → IsRefused r
  eval_plugin-reject plugin ps msg f e =
      let r = plugin ps msg in
      elim (Bool-cases r.failed) [
        | inl bad ↦ absurd (ground (arith, bad, f))
        | inr ok ↦ elim (Bool-cases (is_reject (note r.state r.msg).action)) [
          | inl c ↦ rw (ok, c)
          | inr c ↦ absurd (ground (arith, ok, c, e))
        ]
      ]

  -- A chain that ends in a rejection leaves the made-up response to the message as it then is.
  pub eval_plugins-reject :
      (xs : List Plugin) (ps : PluginsState) (msg : Msg)
      → is_continue ps.action ≡ true
      → let r = eval_plugins texts globals note xs ps msg in IsFine r → IsRejected r → IsRefused r
  eval_plugins-reject [] ps msg h f e =
      let e' = subst IsRejected (eval_plugins-nil ps msg) e in absurd (ground (arith, h, e'))
  eval_plugins-reject (plugin ∷ xs) ps msg h f e =
      let first = eval_plugin plugin ps msg in
      let rest = eval_plugins texts globals note xs first.state first.msg in
      let cut = eval_plugins-cons plugin xs ps msg in
      elim (Bool-cases (stops first)) [
        | inl s ↦
            let q : eval_plugins texts globals note (plugin ∷ xs) ps msg ≡ first = rw (cut, s) in
            subst IsRefused (sym q)
              (eval_plugin-reject plugin ps msg (subst IsFine q f) (subst IsRejected q e))
        | inr s ↦
            let q : eval_plugins texts globals note (plugin ∷ xs) ps msg ≡ rest = rw (cut, s) in
            subst IsRefused (sym q) (
              eval_plugins-reject xs first.state first.msg (ground (arith, s)) (subst IsFine q f)
                (subst IsRejected q e))
      ]

-- Either an error, or the packet of a message that answers the question of the state.
abbrev pub IsChecked : Codec → Responded → Type 0
IsChecked dns r =
    (r.failed ≡ true)
    ⊎ ((msg : Msg) × (dns.pack msg ≡ some r.packet)
        × (validate_response_for_query dns.equal_name r.state.question_msg msg ≡ true))

module _ (texts : BlockedTexts) (globals : PluginsGlobals) where
  -- The question of the state is the message.
  abbrev pub NotesMsg : Evaluated → Type 0
  NotesMsg r = r.state.question_msg ≡ some r.msg

  eval_plugin-NotesMsg :
      (plugin : Plugin) (ps : PluginsState) (msg : Msg)
      → NotesMsg (eval_plugin texts globals note_question plugin ps msg)
  eval_plugin-NotesMsg plugin ps msg =
      let r = plugin ps msg in
      elim (Bool-cases r.failed) [
        | inl bad ↦ rw bad
        | inr ok ↦ elim (Bool-cases (is_reject r.state.action)) [
          | inl c ↦ rw (ok, c)
          | inr c ↦ rw (ok, c)
        ]
      ]

  -- The query chain keeps `questionMsg` on the message that its plugins change.
  pub eval_plugins-NotesMsg :
      (xs : List Plugin) (ps : PluginsState) (msg : Msg)
      → ps.question_msg ≡ some msg
      → NotesMsg (eval_plugins texts globals note_question xs ps msg)
  eval_plugins-NotesMsg [] ps msg h =
      subst NotesMsg (sym (eval_plugins-nil texts globals note_question ps msg)) h
  eval_plugins-NotesMsg (plugin ∷ xs) ps msg h =
      let first = eval_plugin texts globals note_question plugin ps msg in
      let rest = eval_plugins texts globals note_question xs first.state first.msg in
      let cut = eval_plugins-cons texts globals note_question plugin xs ps msg in
      let noted = eval_plugin-NotesMsg plugin ps msg in
      elim (Bool-cases (stops first)) [
        | inl s ↦
            let q : eval_plugins texts globals note_question (plugin ∷ xs) ps msg ≡ first =
              rw (cut, s) in
            subst NotesMsg (sym q) noted
        | inr s ↦
            let q : eval_plugins texts globals note_question (plugin ∷ xs) ps msg ≡ rest =
              rw (cut, s) in
            subst NotesMsg (sym q) (eval_plugins-NotesMsg xs first.state first.msg noted)
      ]

  -- A query that a plugin of the chain rejects, without an error, is answered: the state holds the
  -- made-up response, which passes the check of answers, so that the client gets it as `Pack` gives
  -- it. The message has one question then, and the name in it is equal to itself.
  pub reject-handle_synthesized_response :
      (dns : Codec) (xs : List Plugin) (ps : PluginsState) (msg : Msg) (q : Question)
      → is_continue ps.action ≡ true
      → ps.question_msg ≡ some msg
      → let r = eval_plugins texts globals note_question xs ps msg in
        IsFine r
        → IsRejected r
        → r.msg.question ≡ q ∷ []
        → dns.equal_name q.name q.name ≡ true
        → let m = refuse texts globals r.state r.msg in
          (r.state.synth_response ≡ some m)
          × (handle_synthesized_response dns r.state m ≡ dns.pack m)
  unfolding handle_synthesized_response
  reject-handle_synthesized_response dns xs ps msg q h n f e one same =
      let r = eval_plugins texts globals note_question xs ps msg in
      let valid =
        refused_response_from_message-validate dns.equal_name texts r.msg q
          globals.refused_code_in_responses globals.respond_with_ipv4 globals.respond_with_ipv6
          r.state.reject_ttl one same in
      (
        eval_plugins-reject texts globals note_question xs ps msg h f e,
        rw (eval_plugins-NotesMsg xs ps msg n, valid),
      )

  pack_response-IsChecked :
      (dns : Codec) (packet : Bytes) (e : Evaluated) → IsChecked dns (pack_response dns packet e)
  unfolding pack_response
  pack_response-IsChecked dns packet e =
      let broken : Responded = record { state = e.state; packet = packet; failed = true } in
      elim (Bool-cases
        (e.failed || not (validate_response_for_query dns.equal_name e.state.question_msg e.msg))) [
          | inl b ↦
              let q : pack_response dns packet e ≡ broken = rw b in
              subst (IsChecked dns) (sym q) (inl refl)
          | inr b ↦ elim (Option-cases (dns.pack e.msg)) [
            | inl p ↦
                let q : pack_response dns packet e ≡ broken = rw (b, p) in
                subst (IsChecked dns) (sym q) (inl refl)
            | inr (packed, p) ↦
                let done : Responded = record {
                  state = e.state;
                  packet = packed;
                  failed = false;
                } in
                let q : pack_response dns packet e ≡ done = rw (b, p) in
                subst (IsChecked dns) (sym q) (inr (e.msg, p, ground (arith, b)))
          ]
        ]

  -- What the response chain hands on without an error is the packet of a message that passes the check
  -- against the question: a response, of the same ID, with the one question that was asked.
  pub apply_response_plugins-IsChecked :
      (dns : Codec) (ps : PluginsState) (packet : Bytes)
      → IsChecked dns (apply_response_plugins dns texts globals ps packet)
  unfolding apply_response_plugins
  apply_response_plugins-IsChecked dns ps packet =
      let out = apply_response_plugins dns texts globals ps packet in
      let broken : Responded = record { state = ps; packet = packet; failed = true } in
      elim (Option-cases (dns.unpack packet)) [
        | inl u ↦
            let q : out ≡ broken = rw (u, apply_response_plugins) in
            subst (IsChecked dns) (sym q) (inl refl)
        | inr (msg, u) ↦
            elim (Bool-cases (validate_response_for_query dns.equal_name ps.question_msg msg)) [
              | inl v ↦
                  let chain =
                    eval_plugins texts globals note_nothing globals.response_plugins
                      (record ps { return_code = return_code_of (rcode packet) })
                      (record msg { pseudo = [] }) in
                  let q : out ≡ pack_response dns packet chain =
                    rw (u, v, apply_response_plugins) in
                  subst (IsChecked dns) (sym q) (pack_response-IsChecked dns packet chain)
              | inr v ↦
                  let q : out ≡ broken = rw (u, v, apply_response_plugins) in
                  subst (IsChecked dns) (sym q) (inl refl)
            ]
      ]
