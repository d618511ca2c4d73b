-- ===== src/Servers/Order.antt =====
-- Reordering the live resolvers loses none and makes none up, and every draw is in range.
use mathlib.Core.List.{Perm}
use mathlib.Core.List.Perm
use dnscrypt_proxy_fork.Base.{
  ℕ, zero, suc, ◌+◌, ◌/◌, ◌≤◌, ◌<◌, ◌≡◌, ◌≢◌, refl, ap, inl, inr, List, [], ◌∷◌, map, length,
  get_elem?, set, some, String, ◌==◌, if◌then◌else◌, arith, Bool-cases, Option-cases, subst,
}
use dnscrypt_proxy_fork.Float.{Float64}
use dnscrypt_proxy_fork.Servers.Server.{MovingAverage}
use dnscrypt_proxy_fork.Servers.Strategy.{
  LbStrategy, p2, pn, ph, first, random, wp2, mds, get_candidate, get_active_count, IsConfigured,
  IsIntn,
}
use dnscrypt_proxy_fork.Servers.Ranking.{
  swap_at, Live, rtt_of, carry, sort_by_rtt, lower_rtt, compare_candidate, estimator_update,
  recover_dormant_servers, revive, revive_dormant, is_dormant, any_dormant, redraw,
}

-- With at least one server, a positive N for `pN` and draws within their range, every strategy draws
-- an index of an active resolver, and the active ones are among the servers.
get_candidate-lt :
    {F : Type 0} (s : LbStrategy F) (count : ℕ) (intn : ℕ → ℕ)
    → IsConfigured s
    → IsIntn intn
    → 0 < count
    → (get_candidate s count intn < get_active_count s count) × (get_active_count s count ≤ count)
unfolding get_candidate get_active_count
get_candidate-lt p2 count intn c i h = ground (arith, i count, i 2)
get_candidate-lt (pn n) count intn c i h = ground (arith, i count, i n)
get_candidate-lt ph count intn c i h = ground (arith, i ((count + 1) / 2))
get_candidate-lt first count intn c i h = ground arith
get_candidate-lt random count intn c i h = ground (arith, i count)
get_candidate-lt wp2 count intn c i h = ground (arith, i count)
get_candidate-lt (mds s) count intn c i h = ground arith

-- The redraw of the second server ends as soon as a draw differs from the first server, and gives
-- a server that does.
pub redraw_lem :
    (one two : ℕ) (draws : List ℕ) (i d : ℕ)
    → get_elem? (two ∷ draws) i ≡ some d
    → d ≢ one
    → (r : ℕ) × (redraw one two draws ≡ some r) × (r ≢ one)
unfolding redraw
redraw_lem one two [] zero d h ne = (two, ground arith, ground arith)
redraw_lem one two [] (suc i) d h ne = absurd (cc)
redraw_lem one two (e ∷ es) zero d h ne = (two, ground arith, ground arith)
redraw_lem one two (e ∷ es) (suc i) d h ne =
    let (r, q, n) = redraw_lem one e es i d h ne in
    elim (Bool-cases (two == one)) [
      | inl again ↦ (r, ground arith, n)
      | inr done ↦ (two, ground arith, ground arith)
    ]

module _ {ℓ} {A : Type ℓ} where
  perm-set :
      (xs : List A) (i : ℕ) (a v : A) → get_elem? xs i ≡ some a → Perm (a ∷ set xs i v) (v ∷ xs)
  perm-set [] i a v h = absurd (cc)
  perm-set (x ∷ xs) zero a v h = let e : x ≡ a = cc in rw e (Perm.swap v a xs)
  perm-set (x ∷ xs) (suc i) a v h =
      Perm.trans (Perm.swap x a (set xs i v))
        (Perm.trans (Perm.cons x (perm-set xs i a v h)) (Perm.swap v x xs))

  get_elem?-set_lem :
      (xs : List A) (i j : ℕ) (a b : A)
      → get_elem? xs i ≡ some a
      → get_elem? xs j ≡ some b
      → get_elem? (set xs i b) j ≡ some b
  get_elem?-set_lem [] i j a b h k = absurd (cc)
  get_elem?-set_lem (x ∷ xs) zero zero a b h k = refl
  get_elem?-set_lem (x ∷ xs) zero (suc j) a b h k = k
  get_elem?-set_lem (x ∷ xs) (suc i) zero a b h k = k
  get_elem?-set_lem (x ∷ xs) (suc i) (suc j) a b h k = get_elem?-set_lem xs i j a b h k

  swap_at-perm : (xs : List A) (i j : ℕ) → Perm (swap_at xs i j) xs
  unfolding swap_at
  swap_at-perm xs i j = elim (Option-cases (get_elem? xs i)) [
    | inl e ↦ rw (e, swap_at) (Perm.refl xs)
    | inr (a, e) ↦ elim (Option-cases (get_elem? xs j)) [
      | inl f ↦ rw (e, swap_at, f) (Perm.refl xs)
      | inr (b, f) ↦
          rw (e, swap_at, f)
            (Perm.cons_inv (
              Perm.trans (perm-set (set xs i b) j b a (get_elem?-set_lem xs i j a b e f))
                (perm-set xs i a b e)))
    ]
  ]

module _ (fl : Float64) (ma : MovingAverage fl.Carrier) where
  carry-perm : (x : Live fl ma) (xs : List (Live fl ma)) → Perm (carry fl ma x xs) (x ∷ xs)
  unfolding carry
  carry-perm x [] = Perm.refl _
  carry-perm x (y ∷ ys) = elim (Bool-cases (fl.lt (rtt_of fl ma y) (rtt_of fl ma x))) [
    | inl e ↦ rw e (Perm.trans (Perm.cons y (carry-perm x ys)) (Perm.swap x y ys))
    | inr e ↦ rw e (Perm.cons x (carry-perm y ys))
  ]

  sort_by_rtt-perm : (xs : List (Live fl ma)) → Perm (sort_by_rtt fl ma xs) xs
  unfolding sort_by_rtt
  sort_by_rtt-perm [] = Perm.refl _
  sort_by_rtt-perm (x ∷ xs) = carry-perm x xs

  abbrev pub names : List (Live fl ma) → List String
  names = map (λ s. s.name)

  names-set :
      (xs : List (Live fl ma)) (i : ℕ) (a b : Live fl ma)
      → get_elem? xs i ≡ some a
      → b.name ≡ a.name
      → names (set xs i b) ≡ names xs
  names-set [] i a b h k = refl
  names-set (x ∷ xs) zero a b h k = let e : x ≡ a = cc in rw (e, k)
  names-set (x ∷ xs) (suc i) a b h k = ap (◌∷◌ x.name) (names-set xs i a b h k)

  compare_candidate-perm :
      (inner : List (Live fl ma)) (candidate current : ℕ)
      → Perm (names (compare_candidate fl ma inner candidate current)) (names inner)
  unfolding compare_candidate
  compare_candidate-perm inner candidate current = elim (Option-cases (get_elem? inner candidate)) [
    | inl e ↦ rw (e, compare_candidate) (Perm.refl _)
    | inr (c, e) ↦ elim (Option-cases (get_elem? inner current)) [
      | inl f ↦ rw (e, compare_candidate, f) (Perm.refl _)
      | inr (a, f) ↦
          rw (e, compare_candidate, f)
            (elim (Bool-cases (fl.lt (rtt_of fl ma a) (fl.literal 0 1))) [
              | inl t ↦ rw t (
                  rw (names-set inner current a (lower_rtt fl ma (rtt_of fl ma c) a) f refl)
                    (Perm.refl _))
              | inr t ↦ elim (Bool-cases (fl.lt (rtt_of fl ma c) (rtt_of fl ma a))) [
                | inl u ↦
                    rw (t, u)
                      (Perm.map _
                        (Perm.trans (sort_by_rtt-perm _) (swap_at-perm inner candidate current)))
                | inr u ↦ rw (t, u) (Perm.refl _)
              ]
            ])
    ]
  ]

  -- Updating the estimator after a query only permutes the names of the servers.
  estimator_update-perm :
      (strategy : LbStrategy fl.Carrier) (inner : List (Live fl ma)) (current : ℕ) (intn : ℕ → ℕ)
      → Perm (names (estimator_update fl ma strategy inner current intn)) (names inner)
  unfolding estimator_update
  estimator_update-perm strategy inner current intn =
      elim (Bool-cases (get_active_count strategy (length inner) == length inner)) [
        | inl e ↦ rw e (Perm.refl _)
        | inr e ↦ rw e (compare_candidate-perm inner _ current)
      ]

  names-revived :
      (best : fl.Carrier) (now : ℕ) (xs : List (Live fl ma))
      → names (map (λ x. if is_dormant fl ma best now x then revive fl ma best now x else x) xs)
        ≡ names xs
  names-revived best now [] = refl
  names-revived best now (x ∷ xs) = ground (arith, names-revived best now xs)

  revive_dormant-perm :
      (best : fl.Carrier) (inner : List (Live fl ma)) (now : ℕ)
      → Perm (names (revive_dormant fl ma best inner now)) (names inner)
  unfolding revive_dormant
  revive_dormant-perm best inner now = elim (Bool-cases (fl.le best (fl.literal 0 1))) [
    | inl e ↦ rw e (Perm.refl _)
    | inr e ↦ elim (Bool-cases (any_dormant fl ma best now inner)) [
      | inr f ↦ rw (e, f) (Perm.refl _)
      | inl f ↦
          rw (e, f)
            (subst (Perm (names (sort_by_rtt fl ma _))) (names-revived best now inner)
              (Perm.map _ (sort_by_rtt-perm _)))
    ]
  ]

  -- Giving dormant servers a new chance only permutes the names of the servers.
  recover_dormant_servers-perm :
      (inner : List (Live fl ma)) (now : ℕ)
      → Perm (names (recover_dormant_servers fl ma inner now)) (names inner)
  unfolding recover_dormant_servers
  recover_dormant_servers-perm [] now = Perm.refl _
  recover_dormant_servers-perm (s ∷ []) now = Perm.refl _
  recover_dormant_servers-perm (s ∷ t ∷ ss) now = revive_dormant-perm _ (s ∷ t ∷ ss) now
