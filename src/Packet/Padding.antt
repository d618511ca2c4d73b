-- ===== src/Packet/Padding.antt =====
-- dnscrypt-proxy/crypto.go: the padding of a packet. dnscrypt-proxy/estimators.go: the least size of
-- a question over UDP. dnscrypt-proxy/common.go: the prefix of a packet over TCP. A byte is a number
-- below 256.
use dnscrypt_proxy_fork.Base.{
  ℕ, zero, suc, ◌+◌, ◌-◌, ◌*◌, ◌/◌, ◌%◌, max, min, not, take, get_elem?, Bool, ◌&&◌, List, [], ◌∷◌,
  ◌++◌, length, replicate, Option, none, some, ltb, ◌==◌, if◌then◌else◌,
}

unfoldable pub pad : List ℕ → ℕ → List ℕ
pad packet min_size =
    let delimited = packet ++ 0x80 ∷ [] in delimited ++ replicate (min_size - length delimited) 0

pub data PaddingError : Type 0 where
  short_packet delimiter_not_found : PaddingError

pub data Unpadded : Type 0 where
  invalid : PaddingError → Unpadded
  unpadded : List ℕ → Unpadded

-- The loop, from index `i` down; no read is out of range.
unfoldable pub unpad_from : List ℕ → ℕ → Unpadded
unpad_from packet zero = invalid short_packet
unpad_from packet (suc i) =
    let rest = unpad_from packet i in
    elim (get_elem? packet i) [
      | none ↦ rest
      | some b ↦
          if b == 0x80
          then unpadded (take i packet)
          else if b == 0
          then rest
          else invalid delimiter_not_found
    ]

unfoldable pub unpad : List ℕ → Unpadded
unpad packet = unpad_from packet (length packet)

abbrev pub max_dns_udp_packet_size : ℕ
max_dns_udp_packet_size = 4096

-- `ClientMagicLen + PublicKeySize + HalfNonceSize + TagSize`
abbrev pub query_overhead : ℕ
query_overhead = 8 + 32 + 12 + 16

abbrev pub max_dns_udp_safe_packet_size : ℕ
max_dns_udp_safe_packet_size = 1252

-- What decides the size of a query: `proto == "udp"`, the least size of the estimator, the random
-- byte over TCP, `knownBugs.fragmentsBlocked`, and whether there is a relay.
pub record QueryShape : Type 0 where
  pub is_udp : Bool
  pub estimated : ℕ
  pub xpad : ℕ
  pub fragments_blocked : Bool
  pub has_relay : Bool

abbrev pub min_question_size : QueryShape → List ℕ → ℕ
min_question_size q packet =
    if q.is_udp
    then max q.estimated (query_overhead + length packet)
    else query_overhead + length packet + q.xpad

-- `(n + 1 + 63) & ^63`, at most the largest packet
abbrev pub rounded : ℕ → ℕ
rounded n = min max_dns_udp_packet_size ((n + 1 + 63) / 64 * 64)

unfoldable pub padded_length : QueryShape → List ℕ → ℕ
padded_length q packet =
    if q.fragments_blocked && q.is_udp
    then max_dns_udp_safe_packet_size
    else if q.has_relay && not q.is_udp
    then max_dns_udp_packet_size
    else rounded (max (min_question_size q packet) query_overhead)

-- The plain text of `Encrypt`, for all constructions but XWingPQ; `none` is the error "Question too large; cannot be padded".
unfoldable pub padded_query : QueryShape → List ℕ → Option (List ℕ)
padded_query q packet =
    let size = padded_length q packet in
    if ltb size (query_overhead + length packet + 1)
    then none
    else some (pad packet (size - query_overhead))

-- `PrefixWithSize`; `none` is the error "Packet too large".
unfoldable pub prefix_with_size : List ℕ → Option (List ℕ)
prefix_with_size packet =
    let size = length packet in
    if ltb 0xffff size then none else some (size / 256 ∷ size % 256 ∷ packet)

abbrev pub initial_min_question_size : ℕ
initial_min_question_size = 512

-- `E` is the state of the moving average of github.com/VividCortex/ewma, whose methods are below.
pub record QuestionSizeEstimator (E : Type 0) : Type 0 where
  pub min_question_size : ℕ
  pub ewma : E

-- `set` and `add` take a whole number as a float64, `value` is truncated to an int.
module _ {E : Type 0} (set add : E → ℕ → E) (value : E → ℕ) where
  -- The new size of `blindAdjust`.
  abbrev pub doubled : ℕ → ℕ
  doubled size =
      if ltb (max_dns_udp_packet_size - size) size then max_dns_udp_packet_size else size * 2

  unfoldable pub blind_adjust : QuestionSizeEstimator E → QuestionSizeEstimator E
  blind_adjust e = record {
    min_question_size = doubled e.min_question_size;
    ewma = set e.ewma (doubled e.min_question_size);
  }

  -- The new size of `adjust`.
  abbrev pub halved : ℕ → ℕ → ℕ
  halved average size =
      if ltb initial_min_question_size average && ltb average (size / 2)
      then max initial_min_question_size (size / 2)
      else size

  unfoldable pub adjust : QuestionSizeEstimator E → ℕ → QuestionSizeEstimator E
  adjust e packet_size = record {
    min_question_size = halved (value (add e.ewma packet_size)) e.min_question_size;
    ewma = add e.ewma packet_size;
  }
