-- ===== src/Servers/Picking.antt =====
-- `getOne` returns a live resolver: the one that the strategy chose.
use dnscrypt_proxy_fork.Base.{
  ℕ, zero, suc, ◌+◌, ◌<◌, ◌≡◌, refl, ap, ◌∙◌, inl, inr, false, List, [], ◌∷◌, length, length-map,
  get_elem?, get_elem?-map, get_elem?-of_lt, Option, none, some, String, str_eq, eq_iff, leb, arith,
  Bool-cases,
}
use dnscrypt_proxy_fork.Float.{Float64}
use dnscrypt_proxy_fork.Mds.Scheduler.{LbStrategyMds}
use dnscrypt_proxy_fork.Mds.Score.{score_all, score_candidates}
use dnscrypt_proxy_fork.Mds.Select.{select_candidate_locked}
use dnscrypt_proxy_fork.Mds.Selection.{choose-lt}
use dnscrypt_proxy_fork.Servers.Server.{ServerInfo, ResolverCandidate, MovingAverage}
use dnscrypt_proxy_fork.Servers.Strategy.{LbStrategy, mds}
use dnscrypt_proxy_fork.Servers.Ranking.{
  Live, carry, sort_by_rtt, revive_dormant, recover_dormant_servers, any_dormant,
}
use dnscrypt_proxy_fork.Servers.Info.{ServersInfo, candidates_locked}
use dnscrypt_proxy_fork.Servers.GetOne.{
  Draws, picked, entry_at, index_by_name, scheduled_candidate, scheduled_index, pick_index, get_one,
}

module _ (fl : Float64) where
  length-score_candidates :
      {R : Type 0} (edges : List fl.Carrier) (s : LbStrategyMds fl.Carrier)
      (cs : List (ResolverCandidate fl.Carrier R)) (clock : ℕ → ℕ × ℕ) (i : ℕ)
      → length (score_candidates fl edges s cs clock i).1 ≡ length cs
  unfolding score_candidates
  length-score_candidates edges s [] clock i = refl
  length-score_candidates edges s (c ∷ cs) clock i =
      ap suc (length-score_candidates edges s cs clock (suc i))

  -- A selection among any candidates returns the index of one of them.
  pub select_candidate_locked-lt :
      {R : Type 0} (edges : List fl.Carrier) (s : LbStrategyMds fl.Carrier)
      (cs : List (ResolverCandidate fl.Carrier R)) (clock : ℕ → ℕ × ℕ) (now at : ℕ)
      (draw : fl.Carrier) (intn : ℕ → ℕ)
      → 0 < length cs
      → (select_candidate_locked fl edges s cs clock now at draw intn).2 < length cs
  unfolding select_candidate_locked score_all
  select_candidate_locked-lt edges s [] clock now at draw intn h = h
  select_candidate_locked-lt edges s (c ∷ []) clock now at draw intn h = omega arith
  select_candidate_locked-lt edges s (c ∷ d ∷ cs) clock now at draw intn h = omega (
    arith,
    choose-lt fl s (score_all fl edges s (c ∷ d ∷ cs) clock).1 now at draw intn
        (omega (arith, count)),
    count,
  )
    where
      count : length (score_all fl edges s (c ∷ d ∷ cs) clock).1 ≡ length (c ∷ d ∷ cs)
      count = length-map _ _ ∙ length-score_candidates edges s (c ∷ d ∷ cs) clock 0

index_by_name_lem :
    {F R : Type 0} (name : String) (ss : List (ServerInfo F R)) (k i : ℕ) (s : ServerInfo F R)
    → get_elem? ss i ≡ some s
    → s.name ≡ name
    → (j : ℕ) × (t : ServerInfo F R) × (index_by_name name ss k ≡ k + j)
      × (get_elem? ss j ≡ some t)
      × (t.name ≡ name)
unfolding index_by_name
index_by_name_lem name [] k i s h e = absurd (cc)
index_by_name_lem name (x ∷ ss) k zero s h e =
    let same : x ≡ s = cc in
    let here : x.name ≡ name = rw same e in
    (zero, x, rw ((eq_iff x.name name).1 here) (omega arith), refl, here)
index_by_name_lem name (x ∷ ss) k (suc i) s h e =
    let (j, t, q, g, n) = index_by_name_lem name ss (suc k) i s h e in
    elim (Bool-cases (str_eq x.name name)) [
      | inl here ↦ (zero, x, rw here (omega arith), refl, (eq_iff x.name name).0 here)
      | inr there ↦ (suc j, t, rw there (omega (arith, q)), g, n)
    ]

module _ (fl : Float64) (ma : MovingAverage fl.Carrier) where
  length-carry :
      (x : Live fl ma) (xs : List (Live fl ma)) → length (carry fl ma x xs) ≡ suc (length xs)
  unfolding carry
  length-carry x [] = refl
  length-carry x (y ∷ ys) = ground (arith, length-carry x ys, length-carry y ys)

  length-sort_by_rtt : (xs : List (Live fl ma)) → length (sort_by_rtt fl ma xs) ≡ length xs
  unfolding sort_by_rtt
  length-sort_by_rtt [] = refl
  length-sort_by_rtt (x ∷ xs) = length-carry x xs

  length-revive :
      (best : fl.Carrier) (inner : List (Live fl ma)) (now : ℕ)
      → length (revive_dormant fl ma best inner now) ≡ length inner
  unfolding revive_dormant
  length-revive best inner now = elim (Bool-cases (fl.le best (fl.literal 0 1))) [
    | inl e ↦ rw e
    | inr e ↦ elim (Bool-cases (any_dormant fl ma best now inner)) [
      | inr f ↦ rw (e, f)
      | inl f ↦ rw (e, f) (length-sort_by_rtt _ ∙ length-map _ inner)
    ]
  ]

  pub length-recover :
      (inner : List (Live fl ma)) (now : ℕ)
      → length (recover_dormant_servers fl ma inner now) ≡ length inner
  unfolding recover_dormant_servers
  length-recover [] now = refl
  length-recover (s ∷ []) now = refl
  length-recover (s ∷ t ∷ ss) now = length-revive _ (s ∷ t ∷ ss) now

  module _ (edges : List fl.Carrier) {S : Type 0} where
    -- The candidates that the scheduler sees: the live resolvers, after the dormant ones have had
    -- their new chance.
    abbrev pub seen :
        ServersInfo fl.Carrier ma.State S → ℕ → List (ResolverCandidate fl.Carrier ma.State)
    seen si wall =
        candidates_locked fl (length edges)
          (record si { inner = recover_dormant_servers fl ma si.inner wall })

    scheduled_lem :
        (si : ServersInfo fl.Carrier ma.State S) (s : LbStrategyMds fl.Carrier)
        (d : Draws fl.Carrier)
        → 0 < length si.inner
        → let cs = candidates_locked fl (length edges) si in
          let i =
            (select_candidate_locked fl edges s cs d.clock d.now d.at d.explore d.explore_intn).2 in
          (x : Live fl ma) × (c : ResolverCandidate fl.Carrier ma.State) × (k : ℕ) × (get_elem? cs i
            ≡ some c)
          × (x.name ≡ c.server.name)
          × ((scheduled_candidate fl ma edges si s d).1 ≡ some k)
          × (get_elem? si.inner k ≡ some x)
          × ((scheduled_candidate fl ma edges si s d).0.inner ≡ si.inner)
    unfolding scheduled_candidate candidates_locked
    scheduled_lem si s d h =
        let cs = candidates_locked fl (length edges) si in
        let lt =
          select_candidate_locked-lt fl edges s cs d.clock d.now d.at d.explore d.explore_intn
            (rw (length-map _ si.inner) h) in
        let (c, g) = get_elem?-of_lt cs _ lt in
        let (srv, a, b) = get_elem?-map _ si.inner _ g in
        let same : srv.name ≡ c.server.name =
          ap (λ (q : ResolverCandidate fl.Carrier ma.State). q.server.name) b in
        let (j, x, q, f, n) = index_by_name_lem c.server.name si.inner 0 _ srv a same in
        (x, c, j, g, n, ap (scheduled_index si.inner) g ∙ ap some (omega (arith, q)), f, refl)

    entry_at_lem :
        (r : ServersInfo fl.Carrier ma.State S × Option ℕ) (k : ℕ) (x : Live fl ma)
        → r.1 ≡ some k
        → get_elem? r.0.inner k ≡ some x
        → (entry_at fl ma edges r).1 ≡ picked x
    entry_at_lem (si, none) k x e f = absurd (cc)
    entry_at_lem (si, some j) k x e f =
        let g : get_elem? si.inner j ≡ some x = cc in rw (g, entry_at)

    get_one_lem :
        (si : ServersInfo fl.Carrier ma.State S) (d : Draws fl.Carrier) (x : Live fl ma)
        → let si1 = record si { inner = recover_dormant_servers fl ma si.inner d.wall } in
          0 < length si.inner
          → (entry_at fl ma edges (pick_index fl ma edges si1 si.lb_strategy d)).1 ≡ picked x
          → (get_one fl ma edges si d).1 ≡ picked x
    unfolding get_one
    get_one_lem si d x h e = let t : leb (length si.inner) 0 ≡ false = ground arith in rw t e

    pick_scheduled :
        (si : ServersInfo fl.Carrier ma.State S) (s : LbStrategyMds fl.Carrier)
        (d : Draws fl.Carrier) (st : LbStrategy fl.Carrier)
        → st ≡ mds s
        → pick_index fl ma edges si st d ≡ scheduled_candidate fl ma edges si s d
    unfolding pick_index
    pick_scheduled si s d st e = rw e

    -- With the stateful scheduler, a query gets a live resolver whenever there is one, and it is of
    -- the name of the candidate that the scheduler selected.
    pub get_one_scheduled :
        (si : ServersInfo fl.Carrier ma.State S) (s : LbStrategyMds fl.Carrier)
        (d : Draws fl.Carrier)
        → si.lb_strategy ≡ mds s
        → 0 < length si.inner
        → let cs = seen si d.wall in
          let i =
            (select_candidate_locked fl edges s cs d.clock d.now d.at d.explore d.explore_intn).2 in
          (x : Live fl ma) × (c : ResolverCandidate fl.Carrier ma.State) × ((get_one fl ma edges si
              d).1
            ≡ picked x)
          × (get_elem? cs i ≡ some c)
          × (x.name ≡ c.server.name)
    get_one_scheduled si s d strategy h =
        let si1 = record si { inner = recover_dormant_servers fl ma si.inner d.wall } in
        let l = length-recover si.inner d.wall in
        let (x, c, k, g, n, q, f, same) = scheduled_lem si1 s d (omega (arith, l)) in
        let p = pick_scheduled si1 s d si.lb_strategy strategy in
        let got =
          entry_at_lem (pick_index fl ma edges si1 si.lb_strategy d) k x (ap (λ r. r.1) p ∙ q)
            (ap (λ r. get_elem? r.0.inner k) p ∙ ap (λ l. get_elem? l k) same ∙ f) in
        (x, c, get_one_lem si d x h got, g, n)
