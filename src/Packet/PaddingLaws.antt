-- ===== src/Packet/PaddingLaws.antt =====
-- Removing the padding gives the packet back; the estimator stays within its bounds.
use dnscrypt_proxy_fork.Base.{
  ℕ, zero, suc, ◌+◌, ◌-◌, ◌*◌, ◌/◌, ◌%◌, ◌≤◌, ◌<◌, ◌≡◌, refl, ap, sym, ◌∙◌, max, List, [], ◌∷◌,
  ◌++◌, length, replicate, none, some, ltb, arith, inl, inr, ◌⊎◌, Bool-cases, append_assoc,
  get_elem?, get_elem?-append-length, take-append-length, take, ltb→lt, length-append,
  length-replicate,
}
use dnscrypt_proxy_fork.Packet.Padding.{
  pad, unpad, unpad_from, QueryShape, padded_length, padded_query, query_overhead, unpadded,
  prefix_with_size, QuestionSizeEstimator, blind_adjust, adjust,
}

get_elem?-append :
    {A : Type 0} (xs ys : List A) (j : ℕ) → get_elem? (xs ++ ys) (length xs + j) ≡ get_elem? ys j
get_elem?-append [] ys j = ap (get_elem? ys) (omega arith)
get_elem?-append (x ∷ xs) ys j =
    ap (get_elem? (x ∷ xs ++ ys)) (next (length xs) j) ∙ get_elem?-append xs ys j
  where
    next : (n k : ℕ) → suc n + k ≡ suc (n + k)
    next n k = omega arith

get_elem?-replicate : {A : Type 0} (n k : ℕ) (a : A) → k < n → get_elem? (replicate n a) k ≡ some a
get_elem?-replicate zero k a h = absurd (omega arith)
get_elem?-replicate (suc n) zero a h = refl
get_elem?-replicate (suc n) (suc k) a h = get_elem?-replicate n k a (omega arith)

unpad_from_hit :
    (packet : List ℕ) (i : ℕ)
    → get_elem? packet i ≡ some 0x80
    → unpad_from packet (suc i) ≡ unpadded (take i packet)
unfolding unpad_from
unpad_from_hit packet i h = rw (h, unpad_from) refl

unpad_from_skip :
    (packet : List ℕ) (i : ℕ)
    → get_elem? packet i ≡ some 0
    → unpad_from packet (suc i) ≡ unpad_from packet i
unfolding unpad_from
unpad_from_skip packet i h = rw (h, unpad_from) refl

-- The loop walks over the zeros down to the delimiter.
unpad_from-zeros :
    (packet : List ℕ) (n k : ℕ)
    → k ≤ n
    → unpad_from (packet ++ 0x80 ∷ replicate n 0) (suc (length packet + k)) ≡ unpadded packet
unfolding unpad_from
unpad_from-zeros packet n zero h =
    let at : length packet + 0 ≡ length packet = omega arith in
    let hit = get_elem?-append-length packet (replicate n 0) 0x80 in
    let front = take-append-length packet (0x80 ∷ replicate n 0) in
    let bytes = packet ++ 0x80 ∷ replicate n 0 in
    ap (λ i. unpad_from bytes (suc i)) at
    ∙ unpad_from_hit bytes (length packet) hit
    ∙ ap unpadded front
unpad_from-zeros packet n (suc k) h =
    let zeros : List ℕ = 0x80 ∷ replicate n 0 in
    let at : length packet + suc k ≡ suc (length packet + k) = omega arith in
    let hit = get_elem?-append packet zeros (suc k) ∙ get_elem?-replicate n k zero (omega arith) in
    ap (λ i. unpad_from (packet ++ zeros) (suc i)) at
    ∙ unpad_from_skip (packet ++ zeros) (suc (length packet + k))
        (ap (get_elem? (packet ++ zeros)) (sym at) ∙ hit)
    ∙ unpad_from-zeros packet n k (omega arith)

unpad-delimited :
    (packet : List ℕ) (n : ℕ) → unpad (packet ++ 0x80 ∷ replicate n 0) ≡ unpadded packet
unfolding unpad
unpad-delimited packet n =
    ap (unpad_from (packet ++ 0x80 ∷ replicate n 0)) count
    ∙ unpad_from-zeros packet n n (omega arith)
  where
    bytes : List ℕ
    bytes = 0x80 ∷ replicate n 0

    count : length (packet ++ bytes) ≡ suc (length packet + n)
    count = omega (arith, length-append packet bytes, length-replicate n zero)

-- Whatever the packet and the size, a padded packet is unpadded to itself, is at least of that size,
-- and is one byte longer than the packet if that is enough.
unpad-pad :
    (packet : List ℕ) (min_size : ℕ)
    → (unpad (pad packet min_size) ≡ unpadded packet)
      × (length (pad packet min_size) ≡ max (length packet + 1) min_size)
unfolding pad
unpad-pad packet min_size =
    let n = min_size - length (packet ++ 0x80 ∷ []) in
    (
      ap unpad (append_assoc packet (0x80 ∷ []) (replicate n 0)) ∙ unpad-delimited packet n,
      omega (
        arith,
        length-append (packet ++ 0x80 ∷ []) (replicate n 0),
        length-append packet (0x80 ∷ []),
        length-replicate n zero,
      ),
    )

padded_length-le : (q : QueryShape) (packet : List ℕ) → padded_length q packet ≤ 4096
unfolding padded_length
padded_length-le q packet = ground arith

-- A query is either refused, as its bytes and the delimiter do not fit in the padded length that was
-- chosen, or it is padded to exactly that length and unpadded to itself; the length is at most that
-- of the largest packet.
pub padded_query_lem :
    (q : QueryShape) (packet : List ℕ)
    → let size = padded_length q packet in
      (size ≤ 4096)
      × (((size < query_overhead + length packet + 1) × (padded_query q packet ≡ none))
          ⊎ ((bytes : List ℕ) × (padded_query q packet ≡ some bytes)
              × (unpad bytes ≡ unpadded packet)
              × (length bytes + query_overhead ≡ size)))
unfolding padded_query
padded_query_lem q packet = (
  padded_length-le q packet,
  elim (Bool-cases (ltb (padded_length q packet) (query_overhead + length packet + 1))) [
    | inl e ↦ inl (ltb→lt _ _ e, rw e refl)
    | inr e ↦
        let (a, b) = unpad-pad packet (padded_length q packet - query_overhead) in
        inr
          (pad packet (padded_length q packet - query_overhead), rw e refl, a, ground (arith, b, e))
  ],
)

-- The two bytes in front of a packet are its size, big endian, and are bytes; a packet is refused
-- exactly if its size does not fit.
pub prefix_with_size_lem :
    (packet : List ℕ)
    → let r = prefix_with_size packet in
      ((0xffff < length packet) × (r ≡ none))
      ⊎ ((hi : ℕ) × (lo : ℕ) × (r ≡ some (hi ∷ lo ∷ packet))
          × (hi * 256 + lo ≡ length packet)
          × (hi < 256)
          × (lo < 256))
unfolding prefix_with_size
prefix_with_size_lem packet = elim (Bool-cases (ltb 0xffff (length packet))) [
  | inl e ↦ inl (ground (arith, e), rw e refl)
  | inr e ↦ inr (
    length packet / 256,
    length packet % 256,
    rw e refl,
    omega arith,
    ground (arith, e),
    omega arith,
  )
]

-- The least question size stays between its initial value and the largest UDP packet, whatever the
-- moving average says, and a blind adjustment never lowers it.
estimator_bounds :
    {E : Type 0} (set add : E → ℕ → E) (value : E → ℕ) (e : QuestionSizeEstimator E)
    (packet_size : ℕ)
    → 512 ≤ e.min_question_size
    → e.min_question_size ≤ 4096
    → let b = (blind_adjust set add value e).min_question_size in
      let a = (adjust set add value e packet_size).min_question_size in
      (512 ≤ b) × (b ≤ 4096) × (512 ≤ a) × (a ≤ 4096) × (e.min_question_size ≤ b)
unfolding blind_adjust adjust
estimator_bounds set add value e packet_size low high = ground (arith, low, high)
