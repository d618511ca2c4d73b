-- ===== src/Dns/Responses.antt =====
-- dnscrypt-proxy/dnsutils.go: the responses that the proxy makes up itself, and transaction IDs.
use dnscrypt_proxy_fork.Base.{
  ℕ, ◌≤◌, ◌<◌, ◌≡◌, refl, ap, ◌⊎◌, inl, inr, Bool, true, false, List, [], ◌∷◌, length,
  length-append, All, Option, none, some, Option-cases, Bool-cases, ◌>>=◌, ◌==◌, arith,
}
use dnscrypt_proxy_fork.Text.{Bytes, cut_prefix}
use dnscrypt_proxy_fork.Text.Laws.{cut_prefix_sound}
use dnscrypt_proxy_fork.Dns.{
  Rdata, a, aaaa, hinfo, Question, Msg, BlockedTexts, v4_in_v6_prefix, to_4, to_16,
  validate_response_question, empty_response_from_message, refused_response_from_message,
  forged_rdata, validate_response_for_query, validate_response_question, rcode_refused, class_inet,
  type_a, type_aaaa, transaction_id, set_transaction_id,
}

-- What all made-up responses share with the message they answer.
pub record Echoes (src dst : Msg) : Type 0 where
  pub same_id : dst.id ≡ src.id
  pub is_response : dst.response ≡ true
  pub same_asked : dst.question ≡ src.question

-- The record holds an address of the type that was asked for.
abbrev pub IsForged : ℕ → Rdata → Type 0
IsForged qtype rdata =
    ((qtype ≡ type_a) × (ip : Bytes) × (rdata ≡ a ip) × (length ip ≡ 4))
    ⊎ ((qtype ≡ type_aaaa) × (ip : Bytes) × (rdata ≡ aaaa ip) × (length ip ≡ 16))

to_4-length : (ip b : Bytes) → to_4 ip ≡ some b → length b ≡ 4
unfolding to_4
to_4-length ip b h = elim (Bool-cases (length ip == 4)) [
  | inl e ↦ ground (arith, e)
  | inr e ↦ elim (Option-cases (cut_prefix v4_in_v6_prefix ip)) [
    | inl c ↦ absurd (ground (arith, e, c))
    | inr (s, c) ↦ ground (
      arith,
      e,
      c,
      cut_prefix_sound v4_in_v6_prefix ip c,
      ap length (cut_prefix_sound v4_in_v6_prefix ip c),
    )
  ]
]

to_16-length : (ip b : Bytes) → to_16 ip ≡ some b → length b ≡ 16
unfolding to_16
to_16-length ip b h = ground (arith, length-append v4_in_v6_prefix ip)

forged_a :
    (o : Option Bytes) (rdata : Rdata)
    → (o >>= to_4 >>= (λ ip. some (a ip))) ≡ some rdata
    → (ip : Bytes) × (rdata ≡ a ip) × (length ip ≡ 4)
forged_a none rdata h = absurd (cc)
forged_a (some ip) rdata h = elim (Option-cases (to_4 ip)) [
  | inl e ↦ absurd (ground (arith, e))
  | inr (b, e) ↦ (b, ground (arith, e), to_4-length ip b e)
]

forged_aaaa :
    (o : Option Bytes) (rdata : Rdata)
    → (o >>= to_16 >>= (λ ip. some (aaaa ip))) ≡ some rdata
    → (ip : Bytes) × (rdata ≡ aaaa ip) × (length ip ≡ 16)
forged_aaaa none rdata h = absurd (cc)
forged_aaaa (some ip) rdata h = elim (Option-cases (to_16 ip)) [
  | inl e ↦ absurd (ground (arith, e))
  | inr (b, e) ↦ (b, ground (arith, e), to_16-length ip b e)
]

forged_rdata-IsForged :
    (qtype : ℕ) (ipv4 ipv6 : Option Bytes) (rdata : Rdata)
    → forged_rdata qtype ipv4 ipv6 ≡ some rdata
    → IsForged qtype rdata
unfolding forged_rdata
forged_rdata-IsForged qtype ipv4 ipv6 rdata h = elim (Bool-cases (qtype == type_a)) [
  | inl e ↦
      let (ip, r, n) = forged_a ipv4 rdata (ground (arith, e)) in inl (ground (arith, e), ip, r, n)
  | inr e ↦ elim (Bool-cases (qtype == type_aaaa)) [
    | inl e6 ↦
        let (ip, r, n) = forged_aaaa ipv6 rdata (ground (arith, e, e6)) in
        inr (ground (arith, e6), ip, r, n)
    | inr e6 ↦ absurd (ground (arith, e, e6))
  ]
]

-- What the answer holds when the blocked query is not refused.
abbrev pub IsBlockedAnswer : BlockedTexts → Question → ℕ → Msg → Type 0
IsBlockedAnswer texts q ttl m =
    (rdata : Rdata) × (m.answer
      ≡ record { name = q.name; class = class_inet; ttl = ttl; data' = rdata } ∷ [])
    × (IsForged q.qtype rdata ⊎ (rdata ≡ hinfo texts.cpu texts.os))

-- A blocked query gets either the code REFUSED and no record, or the code 0 and one record of the
-- name asked for with the given TTL: an address of 4 or 16 bytes of the type asked for, or the HINFO
-- record.
pub refused_response_from_message_lem :
    (texts : BlockedTexts) (src : Msg) (q : Question) (qs : List Question) (refused_code : Bool)
    (ipv4 ipv6 : Option Bytes) (ttl : ℕ)
    → src.question ≡ q ∷ qs
    → let m = refused_response_from_message texts src refused_code ipv4 ipv6 ttl in
      ((refused_code ≡ true) × (m.rcode ≡ rcode_refused) × (m.answer ≡ []))
      ⊎ ((refused_code ≡ false) × (m.rcode ≡ 0) × IsBlockedAnswer texts q ttl m)
unfolding refused_response_from_message empty_response_from_message
refused_response_from_message_lem texts src q qs true ipv4 ipv6 ttl h =
    inl (refl, ground arith, ground arith)
refused_response_from_message_lem texts src q qs false ipv4 ipv6 ttl h =
    elim (Option-cases (forged_rdata q.qtype ipv4 ipv6)) [
      | inl e ↦
          inr (refl, ground (arith, e), (hinfo texts.cpu texts.os, ground (arith, e, h), inr refl))
      | inr (rdata, e) ↦ inr (
        refl,
        ground (arith, e),
        (rdata, ground (arith, e, h), inl (forged_rdata-IsForged q.qtype ipv4 ipv6 rdata e)),
      )
    ]

-- A response that is made up, whichever way, answers the question.
pub refused_response_from_message-Echoes :
    (texts : BlockedTexts) (src : Msg) (refused_code : Bool) (ipv4 ipv6 : Option Bytes) (ttl : ℕ)
    → Echoes src (refused_response_from_message texts src refused_code ipv4 ipv6 ttl)
unfolding refused_response_from_message empty_response_from_message
refused_response_from_message-Echoes texts src refused_code ipv4 ipv6 ttl = record {
  same_id = ground arith;
  is_response = ground arith;
  same_asked = ground arith;
}

pub transaction_id-set_transaction_id :
    (packet : Bytes) (tid : ℕ) → transaction_id (set_transaction_id packet tid) ≡ tid
unfolding transaction_id set_transaction_id
transaction_id-set_transaction_id packet tid = omega arith

pub set_transaction_id_twice :
    (packet : Bytes) (tid : ℕ)
    → 2 ≤ length packet
    → All (λ b. b < 256) packet
    → set_transaction_id (set_transaction_id packet tid) (transaction_id packet) ≡ packet
unfolding transaction_id set_transaction_id
set_transaction_id_twice [] tid h bytes = absurd (omega arith)
set_transaction_id_twice (x ∷ []) tid h bytes = absurd (omega arith)
set_transaction_id_twice (x ∷ y ∷ packet) tid h bytes = grind (arith)

-- Such a response passes the check of the answers to the message it was made from, if that has one
-- question and a name is equal to itself.
pub refused_response_from_message-validate :
    (equal_name : Bytes → Bytes → Bool) (texts : BlockedTexts) (src : Msg) (q : Question)
    (refused_code : Bool) (ipv4 ipv6 : Option Bytes) (ttl : ℕ)
    → src.question ≡ q ∷ []
    → equal_name q.name q.name ≡ true
    → validate_response_for_query equal_name
        (some src)
        (refused_response_from_message texts src refused_code ipv4 ipv6 ttl)
      ≡ true
unfolding validate_response_for_query validate_response_question
refused_response_from_message-validate equal_name texts src q refused_code ipv4 ipv6 ttl h e =
    let x = refused_response_from_message-Echoes texts src refused_code ipv4 ipv6 ttl in
    grind (arith, x.same_id, x.is_response, x.same_asked)
