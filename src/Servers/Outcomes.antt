-- ===== src/Servers/Outcomes.antt =====
-- What `observeOutcome` records: the flags of the outcome, the counters, and whom they are charged to.
use dnscrypt_proxy_fork.Base.{
  ℕ, ◌≤◌, ◌≡◌, refl, ap, sym, subst, ◌∙◌, inl, inr, Bool, false, ◌&&◌, ◌||◌, List, [], ◌∷◌, length,
  Option, String, if◌then◌else◌, str_eq, eq_iff, ◌==◌, arith, Bool-cases, Option-cases, All,
}
use dnscrypt_proxy_fork.Base.Int.{ℤ, pos, sub_ℕ}
use dnscrypt_proxy_fork.Base.Dict.{lookup, lookup-insert_ne}
use dnscrypt_proxy_fork.Exchange.{ExchangeOutcome}
use dnscrypt_proxy_fork.Float.{Float64}
use dnscrypt_proxy_fork.Servers.Server.{ServerInfo, MovingAverage}
use dnscrypt_proxy_fork.Servers.Ranking.{Live}
use dnscrypt_proxy_fork.Servers.Info.{ServersInfo, metrics_for_locked, server_by_name}
use dnscrypt_proxy_fork.Servers.Feedback.{
  Exchanged, ExchangeError, classify_exchange_response, settle_outcome, has_failed, count_query,
  update_named, note_server, record_outcome, observe_outcome,
}

-- The recorded outcome is a hard failure exactly if the exchange failed, and is never both a timeout
-- and an error. Of an exchange that failed it has none of SERVFAIL, bogus and ECS, and its duration is
-- the deadline; of another one its duration is the time since the start of the exchange, and it is at
-- most one of SERVFAIL and bogus. The transport must have left these five flags unset.
pub settle_outcome_lem :
    (subnet_scopes : List ℕ → Option (List ℕ)) (timeout : ℕ) (ps : Exchanged) (response : List ℕ)
    (err : ExchangeError) (now : ℕ)
    → ps.exchange.timeout ≡ false
    → ps.exchange.error ≡ false
    → ps.exchange.servfail ≡ false
    → ps.exchange.dnssec_bogus ≡ false
    → ps.exchange.ecs_returned ≡ false
    → let o = settle_outcome subnet_scopes timeout ps response err now in
      let failed = has_failed subnet_scopes response err in
      ((o.timeout || o.error) ≡ failed)
      × ((o.timeout && o.error) ≡ false)
      × ((o.servfail && o.dnssec_bogus) ≡ false)
      × ((failed && (o.servfail || o.dnssec_bogus || o.ecs_returned)) ≡ false)
      × (o.duration ≡ (if failed then pos timeout else sub_ℕ now ps.exchange_start))
unfolding settle_outcome classify_exchange_response
settle_outcome_lem subnet_scopes timeout ps response err now a b c d e =
    ground (arith, a, b, c, d, e)

-- The counters of a server: no more failures than queries, and both are bounded.
unfoldable pub IsCounted : {F R : Type 0} → ServerInfo F R → Type 0
IsCounted s = (s.failed_queries ≤ s.total_queries) × (s.total_queries ≤ 10000)

count_query-IsCounted :
    {F R : Type 0} (s : ServerInfo F R) (failed : Bool) (now : ℕ)
    → IsCounted s
    → IsCounted (count_query s failed now)
unfolding IsCounted count_query
count_query-IsCounted s failed now (a, b) = elim (Bool-cases failed) [
  | inl e ↦ rw e (ground (arith, a, b))
  | inr e ↦ rw e (ground (arith, a, b))
]

update_named-All :
    {A : Type 0} (P : A → Type 0) (is : A → Bool) (f : A → A) (xs : List A)
    → ((x : A) → P x → P (f x))
    → All P xs
    → All P (update_named is f xs)
unfolding update_named
update_named-All P is f [] h all = tt
update_named-All P is f (x ∷ xs) h (a, rest) = elim (Bool-cases (is x)) [
  | inl e ↦ rw e (h x a, rest)
  | inr e ↦ rw e (a, update_named-All P is f xs h rest)
]

update_named-other :
    {F R : Type 0} (name other : String) (f : ServerInfo F R → ServerInfo F R)
    (xs : List (ServerInfo F R))
    → ((x : ServerInfo F R) → (f x).name ≡ x.name)
    → str_eq name other ≡ false
    → server_by_name other (update_named (λ x. str_eq x.name name) f xs) ≡ server_by_name other xs
unfolding update_named server_by_name
update_named-other name other f [] h ne = refl
update_named-other name other f (x ∷ xs) h ne = ground (
  arith,
  ne,
  h x,
  eq_iff x.name name,
  eq_iff x.name other,
  eq_iff name other,
  update_named-other name other f xs h ne,
)

module _ (fl : Float64) (ma : MovingAverage fl.Carrier) where
  note_server_name :
      (timeout : ℕ) (o : ExchangeOutcome) (failed dropped : Bool) (elapsed : ℤ) (now : ℕ)
      (s : Live fl ma)
      → (note_server fl ma timeout o failed dropped elapsed now s).name ≡ s.name
  unfolding count_query
  note_server_name timeout o failed dropped elapsed now s = ground arith

  note_server-IsCounted :
      (timeout : ℕ) (o : ExchangeOutcome) (failed dropped : Bool) (elapsed : ℤ) (now : ℕ)
      (s : Live fl ma)
      → IsCounted s
      → IsCounted (note_server fl ma timeout o failed dropped elapsed now s)
  unfolding IsCounted
  note_server-IsCounted timeout o failed dropped elapsed now s h =
      unfold IsCounted in count_query-IsCounted s failed now h

  module _ (edges : List fl.Carrier) {S : Type 0} where
    metrics_for_locked_lem :
        (si : ServersInfo fl.Carrier ma.State S) (name other : String)
        → str_eq name other ≡ false
        → let r = (metrics_for_locked fl (length edges) si name).0 in
          (r.inner ≡ si.inner) × (lookup other r.metrics ≡ lookup other si.metrics)
    unfolding metrics_for_locked
    metrics_for_locked_lem si name other ne = elim (Option-cases (lookup name si.metrics)) [
      | inl e ↦ rw (e, metrics_for_locked) (refl, lookup-insert_ne name other _ si.metrics ne)
      | inr (m, e) ↦ rw (e, metrics_for_locked) (refl, refl)
    ]

    metrics_for_locked_inner :
        (si : ServersInfo fl.Carrier ma.State S) (name : String)
        → (metrics_for_locked fl (length edges) si name).0.inner ≡ si.inner
    unfolding metrics_for_locked
    metrics_for_locked_inner si name = elim (Option-cases (lookup name si.metrics)) [
      | inl e ↦ rw (e, metrics_for_locked) refl
      | inr (m, e) ↦ rw (e, metrics_for_locked) refl
    ]

    record_outcome-IsCounted :
        (timeout : ℕ) (si : ServersInfo fl.Carrier ma.State S) (name : String) (o : ExchangeOutcome)
        (failed dropped : Bool) (elapsed : ℤ) (now seen_at at : ℕ)
        → All IsCounted si.inner
        → All IsCounted
            (record_outcome fl ma edges timeout si name o failed dropped elapsed now seen_at
              at).inner
    unfolding record_outcome
    record_outcome-IsCounted timeout si name o failed dropped elapsed now seen_at at h =
        subst (All IsCounted) (sym (metrics_for_locked_inner _ name)) (
          update_named-All IsCounted _ _ si.inner
            (note_server-IsCounted timeout o failed dropped elapsed now) h)

    record_outcome_others :
        (timeout : ℕ) (si : ServersInfo fl.Carrier ma.State S) (name other : String)
        (o : ExchangeOutcome) (failed dropped : Bool) (elapsed : ℤ) (now seen_at at : ℕ)
        → str_eq name other ≡ false
        → let r =
            record_outcome fl ma edges timeout si name o failed dropped elapsed now seen_at at in
          (server_by_name other r.inner ≡ server_by_name other si.inner)
          × (lookup other r.metrics ≡ lookup other si.metrics)
    unfolding record_outcome
    record_outcome_others timeout si name other o failed dropped elapsed now seen_at at ne =
        let f = note_server fl ma timeout o failed dropped elapsed now in
        let (a, b) =
          metrics_for_locked_lem
            (record si { inner = update_named (λ s. str_eq s.name name) f si.inner }) name other
            ne in
        (
          ap (server_by_name other) a
              ∙ update_named-other name other f si.inner
                  (note_server_name timeout o failed dropped elapsed now) ne,
          lookup-insert_ne name other _ _ ne ∙ b,
        )

    -- One exchange keeps the counters of every server sound: failures never exceed queries, and
    -- neither exceeds 10000. What is found under any other name, live server or store, is unchanged.
    pub observe_outcome-IsCounted :
        (subnet_scopes : List ℕ → Option (List ℕ)) (timeout : ℕ)
        (si : ServersInfo fl.Carrier ma.State S) (ps : Exchanged) (response : List ℕ)
        (err : ExchangeError) (now seen_at at : ℕ) (other : String)
        → str_eq ps.server_name other ≡ false
        → All IsCounted si.inner
        → let r =
            observe_outcome fl ma edges subnet_scopes timeout si ps response err now seen_at at in
          All IsCounted r.inner
          × (server_by_name other r.inner ≡ server_by_name other si.inner)
          × (lookup other r.metrics ≡ lookup other si.metrics)
    unfolding observe_outcome
    observe_outcome-IsCounted subnet_scopes timeout si ps response err now seen_at at other ne h =
        elim (Bool-cases (str_eq ps.server_name "" || ps.exchange_start == 0)) [
          | inl e ↦ rw e (h, refl, refl)
          | inr e ↦
              let others =
                record_outcome_others timeout si ps.server_name other _ _ ps.dropped _ now seen_at
                  at ne in
              rw e (
                record_outcome-IsCounted timeout si ps.server_name _ _ ps.dropped _ now seen_at at
                    h,
                others.0,
                others.1,
              )
        ]
