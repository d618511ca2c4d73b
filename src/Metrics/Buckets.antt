-- ===== src/Metrics/Buckets.antt =====
-- The latency buckets: the edges are built, and every latency falls into a bucket that is there.
use dnscrypt_proxy_fork.Base.{
  ℕ, ◌+◌, zero, suc, ◌≤◌, ◌<◌, ◌≡◌, true, false, List, [], ◌∷◌, ◌++◌, length, some, arith,
  length-append, ap, ◌∙◌, Bool-cases, inl, inr, Option-cases,
}
use dnscrypt_proxy_fork.Float.{Float64}
use dnscrypt_proxy_fork.Metrics.{
  build_edges, search_floats, latency_bucket_index, bucket_max_ms, bucket_growth,
}

module _ (fl : Float64) where
  open fl use {Carrier, lt, le, mul}

  -- A latency that is no NaN: it compares with the largest bucket edge one way or the other.
  abbrev pub Compares : Carrier → Type 0
  Compares x = le (bucket_max_ms fl) x ≡ false → le x (bucket_max_ms fl) ≡ true

  search_floats-lt :
      (es : List Carrier) (last x : Carrier)
      → le x last ≡ true
      → search_floats fl (es ++ last ∷ []) x < length (es ++ last ∷ [])
  unfolding search_floats
  search_floats-lt [] last x h = ground arith
  search_floats-lt (e ∷ es) last x h = ground (arith, search_floats-lt es last x h)

  -- The edges end in the largest one.
  build_edges-last :
      (fuel : ℕ) (v : Carrier) (edges : List Carrier)
      → build_edges fl fuel v ≡ some edges
      → (es : List Carrier) × (edges ≡ es ++ bucket_max_ms fl ∷ [])
  unfolding build_edges
  build_edges-last zero v edges h = absurd (ground arith)
  build_edges-last (suc fuel) v edges h = elim (Bool-cases (lt v (bucket_max_ms fl))) [
    | inl go ↦ elim (Option-cases (build_edges fl fuel (mul v (bucket_growth fl)))) [
      | inl e ↦ absurd (ground arith)
      | inr (rest, e) ↦
          let (es, q) = build_edges-last fuel (mul v (bucket_growth fl)) rest e in
          (v ∷ es, ground arith)
    ]
    | inr stop ↦ ([], ground arith)
  ]

  index-lt :
      (es : List Carrier) (x : Carrier)
      → Compares x
      → let edges = es ++ bucket_max_ms fl ∷ [] in latency_bucket_index fl edges x < length edges
  unfolding latency_bucket_index search_floats
  index-lt [] x c = ground arith
  index-lt (e ∷ es) x c =
      ground
        (arith, length-append es (bucket_max_ms fl ∷ []), search_floats-lt es (bucket_max_ms fl) x)

  -- The bucket index of every latency that is no NaN lies within the edges that the source builds.
  pub latency_bucket_index-lt :
      (fuel : ℕ) (first : Carrier) (edges : List Carrier) (x : Carrier)
      → build_edges fl fuel first ≡ some edges
      → Compares x
      → latency_bucket_index fl edges x < length edges
  latency_bucket_index-lt fuel first edges x built c =
      let (es, e) = build_edges-last fuel first edges built in rw e (index-lt es x c)

  -- `v` after some rounds of `v *= latencyBucketGrowth`
  unfoldable pub grown : ℕ → Carrier → Carrier
  grown zero v = v
  grown (suc n) v = grown n (mul v (bucket_growth fl))

  -- Where some number of rounds carries the value out of range, one more unit of fuel is enough.
  pub build_edges_fuel :
      (n : ℕ) (v : Carrier)
      → lt (grown n v) (bucket_max_ms fl) ≡ false
      → (edges : List Carrier) × (build_edges fl (suc n) v ≡ some edges) × (length edges ≤ suc n)
  unfolding build_edges grown
  build_edges_fuel zero v h = (bucket_max_ms fl ∷ [], ground arith, omega arith)
  build_edges_fuel (suc n) v h =
      let (es, e, l) = build_edges_fuel n (mul v (bucket_growth fl)) h in
      elim (Bool-cases (lt v (bucket_max_ms fl))) [
        | inl go ↦ (v ∷ es, ground arith, omega arith)
        | inr stop ↦ (bucket_max_ms fl ∷ [], ground arith, omega arith)
      ]

  module _ (rank : Carrier → ℕ) where
    -- So many rounds are enough from a value of a positive rank.
    build_edges_rounds :
        (n : ℕ) (v : Carrier)
        → ((a b : Carrier) → 0 < rank a → lt a b ≡ true → rank a < rank b)
        → ((a : Carrier)
            → 0 < rank a
            → lt a (bucket_max_ms fl) ≡ true
            → rank a < rank (mul a (fl.literal 5 4)))
        → 0 < rank v
        → rank (bucket_max_ms fl) ≤ rank v + n
        → (edges : List Carrier) × (build_edges fl (suc n) v ≡ some edges) × (length edges ≤ suc n)
    unfolding build_edges
    build_edges_rounds zero v order grows start near = elim (Bool-cases (lt v (bucket_max_ms fl))) [
      | inl go ↦ absurd (omega (arith, order v (bucket_max_ms fl) start go))
      | inr stop ↦ (bucket_max_ms fl ∷ [], ground arith, omega arith)
    ]
    build_edges_rounds (suc n) v order grows start near =
        elim (Bool-cases (lt v (bucket_max_ms fl))) [
          | inl go ↦
              let up = grows v start go in
              let (es, e, l) =
                build_edges_rounds n (mul v (bucket_growth fl)) order grows (omega arith)
                  (omega arith) in
              (v ∷ es, ground (arith, e, go), omega arith)
          | inr stop ↦ (bucket_max_ms fl ∷ [], ground arith, omega arith)
        ]

    -- The loop ends, from a value of a positive rank. Ranks respect the order, and below the largest
    -- edge a product with 5/4 has a larger rank; for float64 the rank counts the positive normal numbers
    -- up to a value. The rank of the largest edge, and one, is enough fuel; there are at most so many
    -- edges, and the last one is the largest.
    pub build_edges_total :
        (v : Carrier)
        → ((a b : Carrier) → 0 < rank a → lt a b ≡ true → rank a < rank b)
        → ((a : Carrier)
            → 0 < rank a
            → lt a (bucket_max_ms fl) ≡ true
            → rank a < rank (mul a (fl.literal 5 4)))
        → 0 < rank v
        → (es : List Carrier) × (build_edges fl (suc (rank (bucket_max_ms fl))) v
            ≡ some (es ++ bucket_max_ms fl ∷ []))
          × (length es ≤ rank (bucket_max_ms fl))
    build_edges_total v order grows start =
        let n = rank (bucket_max_ms fl) in
        let (edges, e, l) = build_edges_rounds n v order grows start (omega arith) in
        let (es, q) = build_edges-last (suc n) v edges e in
        (es, e ∙ ap some q, ground (arith, l, q, length-append es (bucket_max_ms fl ∷ [])))
