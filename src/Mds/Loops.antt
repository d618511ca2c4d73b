-- ===== src/Mds/Loops.antt =====
-- What the selection loops of scheduler_mds.go return: an entry of the list, at its index.
use dnscrypt_proxy_fork.Base.{
  ℕ, zero, suc, ◌+◌, ◌≤◌, ◌<◌, ◌≡◌, refl, ap, subst, ◌⊎◌, inl, inr, Bool, true, false, not, ◌&&◌,
  ◌||◌, List, [], ◌∷◌, length, get_elem?, Option, none, some, String, str_eq, eq_iff, if◌then◌else◌,
  arith, All, Bool-cases, ltb,
}
use dnscrypt_proxy_fork.Base.Dict.{Dict, lookup}
use dnscrypt_proxy_fork.Float.{Float64}
use dnscrypt_proxy_fork.Mds.Circuit.{MdsParams, MdsCircuit}
use dnscrypt_proxy_fork.Mds.Score.{MdsScored, better}
use dnscrypt_proxy_fork.Mds.Select.{
  find_name, half_open_from, pick_half_open_probe, explore_pool, pick_explore_target, best_from,
  best_healthy, best_any, half_open_round, best_round, is_index, is_due, longer_open,
}

pub get_elem?-lt {ℓ} :
    {A : Type ℓ} (xs : List A) (i : ℕ) (x : A) → get_elem? xs i ≡ some x → i < length xs
get_elem?-lt [] i x h = absurd (ground arith)
get_elem?-lt (y ∷ xs) zero x h = omega arith
get_elem?-lt (y ∷ xs) (suc i) x h = omega (arith, get_elem?-lt xs i x h)

-- A loop over `xs` that starts at index `i` found entry `j` of `xs`.
abbrev pub IsFound : {F : Type 0} → List (MdsScored F) → ℕ → ℕ → MdsScored F → Type 0
IsFound xs i k x = (j : ℕ) × (k ≡ i + j) × (get_elem? xs j ≡ some x)

later :
    {F : Type 0} (y : MdsScored F) (xs : List (MdsScored F)) (i k : ℕ) (x : MdsScored F)
    → IsFound xs (suc i) k x
    → IsFound (y ∷ xs) i k x
later y xs i k x (j, e, g) = (suc j, omega arith, g)

head_or_tail :
    (i k : ℕ) (rest : List ℕ) (n : ℕ)
    → get_elem? (i ∷ rest) n ≡ some k
    → (i ≡ k) ⊎ ((m : ℕ) × (get_elem? rest m ≡ some k))
head_or_tail i k rest zero h = inl (cc)
head_or_tail i k rest (suc m) h = inr (m, h)

module _ {F : Type 0} where
  pub find_name_lem :
      (name : String) (xs : List (MdsScored F)) (i k : ℕ) (x : MdsScored F)
      → find_name name xs i ≡ some (k, x)
      → IsFound xs i k x × (x.name ≡ name)
  unfolding find_name
  find_name_lem name [] i k x h = absurd (ground arith)
  find_name_lem name (y ∷ xs) i k x h = elim (Bool-cases (str_eq y.name name)) [
    | inl e ↦ ((zero, ground arith, ground arith), ground (arith, eq_iff y.name name))
    | inr e ↦
        let (a, b) = find_name_lem name xs (suc i) k x (ground arith) in (later y xs i k x a, b)
  ]

  -- The probe that is picked is of an open circuit that is due, with its entry.
  abbrev pub IsProbe :
      Dict MdsCircuit → List (MdsScored F) → ℕ → ℕ → ℕ → String → MdsCircuit → Type 0
  IsProbe circuits xs now i k name cb =
      (x : MdsScored F) × IsFound xs i k x
      × (x.name ≡ name)
      × (x.is_open ≡ true)
      × (lookup name circuits ≡ some cb)
      × (cb.probing ≡ false)
      × (cb.next_probe_at ≤ now)

  half_open_round_lem :
      (c : Option MdsCircuit) (x : MdsScored F) (now i : ℕ)
      (pick : Option (ℕ × String × MdsCircuit)) (k : ℕ) (name : String) (cb : MdsCircuit)
      → half_open_round c x now i pick ≡ some (k, name, cb)
      → (pick ≡ some (k, name, cb))
        ⊎ ((k ≡ i)
            × (x.name ≡ name)
            × (c ≡ some cb)
            × (x.is_open ≡ true)
            × (cb.probing ≡ false)
            × (cb.next_probe_at ≤ now))
  unfolding half_open_round
  half_open_round_lem none x now i pick k name cb h = inl h
  half_open_round_lem (some c) x now i pick k name cb h =
      elim (Bool-cases (x.is_open && is_due c now && longer_open pick c)) [
        | inl e ↦ inr (ground arith)
        | inr e ↦ inl (ground arith)
      ]

  half_open_from_lem :
      (circuits : Dict MdsCircuit) (xs : List (MdsScored F)) (now i : ℕ)
      (pick : Option (ℕ × String × MdsCircuit)) (k : ℕ) (name : String) (cb : MdsCircuit)
      → half_open_from circuits xs now i pick ≡ some (k, name, cb)
      → (pick ≡ some (k, name, cb)) ⊎ IsProbe circuits xs now i k name cb
  unfolding half_open_from
  half_open_from_lem circuits [] now i pick k name cb h = inl h
  half_open_from_lem circuits (x ∷ xs) now i pick k name cb h =
      let c = lookup x.name circuits in
      elim (half_open_from_lem circuits xs now (suc i) (half_open_round c x now i pick) k name cb
        h) [
          | inr (y, f, a, b, c', d, e) ↦ inr (y, later x xs i k y f, a, b, c', d, e)
          | inl e ↦ elim (half_open_round_lem c x now i pick k name cb e) [
            | inl old ↦ inl old
            | inr (at, same, found, o, idle, due) ↦ inr (
              x,
              (zero, omega arith, refl),
              same,
              o,
              subst (λ n. lookup n circuits ≡ some cb) same found,
              idle,
              due,
            )
          ]
        ]

  pub pick_half_open_probe_lem :
      (circuits : Dict MdsCircuit) (xs : List (MdsScored F)) (now k : ℕ) (name : String)
      (cb : MdsCircuit)
      → pick_half_open_probe circuits xs now ≡ some (k, name, cb)
      → IsProbe circuits xs now 0 k name cb
  unfolding pick_half_open_probe
  pick_half_open_probe_lem circuits xs now k name cb h =
      elim (half_open_from_lem circuits xs now 0 none k name cb h) [
        | inl e ↦ absurd (cc)
        | inr p ↦ p
      ]

  explore_pool_lem :
      (only : Bool) (primary : Option ℕ) (xs : List (MdsScored F)) (i k n : ℕ)
      → get_elem? (explore_pool only primary xs i) n ≡ some k
      → (x : MdsScored F) × IsFound xs i k x × (x.is_open ≡ false) × (is_index primary k ≡ false)
  unfolding explore_pool
  explore_pool_lem only primary [] i k n h = absurd (cc)
  explore_pool_lem only primary (x ∷ xs) i k n h =
      elim (Bool-cases (is_index primary i || x.is_open || (only && not x.warming))) [
        | inl skip ↦
            let (y, f, a, b) = explore_pool_lem only primary xs (suc i) k n (ground arith) in
            (y, later x xs i k y f, a, b)
        | inr keep ↦
            let rest = explore_pool only primary xs (suc i) in
            let h' : get_elem? (i ∷ rest) n ≡ some k = ground arith in
            elim (head_or_tail i k rest n h') [
              | inl e ↦ (x, (zero, omega (arith, e), refl), ground arith, ground arith)
              | inr (m, e) ↦
                  let (y, f, a, b) = explore_pool_lem only primary xs (suc i) k m e in
                  (y, later x xs i k y f, a, b)
            ]
      ]

  pub pick_explore_target_lem :
      (xs : List (MdsScored F)) (primary : Option ℕ) (intn : ℕ → ℕ) (k : ℕ)
      → pick_explore_target xs primary intn ≡ some k
      → (x : MdsScored F) × IsFound xs 0 k x × (x.is_open ≡ false) × (is_index primary k ≡ false)
  unfolding pick_explore_target
  pick_explore_target_lem xs primary intn k h =
      let warming = explore_pool true primary xs 0 in
      let healthy = explore_pool false primary xs 0 in
      elim (Bool-cases (ltb 0 (length warming))) [
        | inl e ↦ explore_pool_lem true primary xs 0 k (intn (length warming)) (ground arith)
        | inr e ↦ explore_pool_lem false primary xs 0 k (intn (length healthy)) (ground arith)
      ]

module _ (fl : Float64) where
  open fl use {Carrier}

  best_round_lem :
      (p : MdsParams Carrier) (exclude : Option ℕ) (y : MdsScored Carrier) (i : ℕ)
      (best : Option (ℕ × MdsScored Carrier)) (k : ℕ) (x : MdsScored Carrier)
      → best_round fl p exclude y i best ≡ some (k, x)
      → (best ≡ some (k, x))
        ⊎ ((k ≡ i) × (y ≡ x) × (y.is_open ≡ false) × (is_index exclude i ≡ false))
  unfolding best_round
  best_round_lem p exclude y i best k x h = ground arith

  best_from_lem :
      (p : MdsParams Carrier) (exclude : Option ℕ) (xs : List (MdsScored Carrier)) (i : ℕ)
      (best : Option (ℕ × MdsScored Carrier)) (k : ℕ) (x : MdsScored Carrier)
      → best_from fl p exclude xs i best ≡ some (k, x)
      → (best ≡ some (k, x))
        ⊎ (IsFound xs i k x × (x.is_open ≡ false) × (is_index exclude k ≡ false))
  unfolding best_from
  best_from_lem p exclude [] i best k x h = inl h
  best_from_lem p exclude (y ∷ xs) i best k x h =
      elim (best_from_lem p exclude xs (suc i) (best_round fl p exclude y i best) k x h) [
        | inr (f, a, b) ↦ inr (later y xs i k x f, a, b)
        | inl e ↦ elim (best_round_lem p exclude y i best k x e) [
          | inl old ↦ inl old
          | inr (at, same, o, ex) ↦ inr ((zero, omega arith, ap some same), cc, cc)
        ]
      ]

  pub best_healthy_lem :
      (p : MdsParams Carrier) (exclude : Option ℕ) (xs : List (MdsScored Carrier)) (k : ℕ)
      (x : MdsScored Carrier)
      → best_healthy fl p exclude xs ≡ some (k, x)
      → IsFound xs 0 k x × (x.is_open ≡ false) × (is_index exclude k ≡ false)
  unfolding best_healthy
  best_healthy_lem p exclude xs k x h = elim (best_from_lem p exclude xs 0 none k x h) [
    | inl e ↦ absurd (cc)
    | inr f ↦ f
  ]

  best_round-none :
      (p : MdsParams Carrier) (y : MdsScored Carrier) (i : ℕ)
      (best : Option (ℕ × MdsScored Carrier))
      → best_round fl p none y i best ≡ none
      → (best ≡ none) × (y.is_open ≡ true)
  unfolding best_round
  best_round-none p y i best h = ground arith

  -- No best resolver means that every circuit is open.
  best_from-none :
      (p : MdsParams Carrier) (xs : List (MdsScored Carrier)) (i : ℕ)
      (best : Option (ℕ × MdsScored Carrier))
      → best_from fl p none xs i best ≡ none
      → (best ≡ none) × All (λ x. x.is_open ≡ true) xs
  unfolding best_from
  best_from-none p [] i best h = (h, tt)
  best_from-none p (y ∷ xs) i best h =
      let (e, all) = best_from-none p xs (suc i) (best_round fl p none y i best) h in
      let (a, b) = best_round-none p y i best e in (a, (b, all))

  pub best_healthy-none :
      (p : MdsParams Carrier) (xs : List (MdsScored Carrier))
      → best_healthy fl p none xs ≡ none
      → All (λ x. x.is_open ≡ true) xs
  unfolding best_healthy
  best_healthy-none p xs h = (best_from-none p xs 0 none h).1

  pub best_any-lt :
      (p : MdsParams Carrier) (xs : List (MdsScored Carrier)) (i : ℕ) (best : ℕ × MdsScored Carrier)
      → best.0 < i
      → (best_any fl p xs i best).0 < i + length xs
  unfolding best_any
  best_any-lt p [] i best h = omega arith
  best_any-lt p (y ∷ xs) i best h = omega (
    arith,
    best_any-lt p xs (suc i) (if better fl p y best.1 then (i, y) else best) (ground arith),
  )
