-- ===== src/Packet/Tests.antt =====
-- Concrete packets, messages and estimators.
use dnscrypt_proxy_fork.Base.{
  ℕ, ◌+◌, ◌*◌, ◌≤◌, ◌<◌, ◌≡◌, refl, max, ◌⊎◌, true, false, List, [], ◌∷◌, length, none, some, All,
}
use dnscrypt_proxy_fork.Packet.Padding.{
  QueryShape, QuestionSizeEstimator, padded_length, padded_query, unpad, unpadded, query_overhead,
}
use dnscrypt_proxy_fork.Packet.PaddingLaws.{padded_query_lem}
use dnscrypt_proxy_fork.Packet.Ttl.{RatedRr, RatedMsg, get_min_ttl, second}
use dnscrypt_proxy_fork.Packet.TtlLaws.{get_min_ttl_lem}

abbrev small_query : List ℕ
small_query = 0 ∷ 128 ∷ 0 ∷ []

abbrev udp_shape : QueryShape
udp_shape = record {
  is_udp = true;
  estimated = 512;
  xpad = 0;
  fragments_blocked = false;
  has_relay = false;
}

padded_query_example :
    (padded_length udp_shape small_query ≤ 4096)
    × (((padded_length udp_shape small_query < 72) × (padded_query udp_shape small_query ≡ none))
        ⊎ ((bytes : List ℕ) × (padded_query udp_shape small_query ≡ some bytes)
            × (unpad bytes ≡ unpadded small_query)
            × (length bytes + query_overhead ≡ padded_length udp_shape small_query)))
padded_query_example = padded_query_lem udp_shape small_query

-- An average that is the last value.
abbrev last_value : ℕ → ℕ → ℕ
last_value e v = v

abbrev estimator : QuestionSizeEstimator ℕ
estimator = record { min_question_size = 3000; ewma = 3000 }

abbrev answer_of : ℕ → RatedRr
answer_of ttl = record { ttl = ttl; is_opt = false }

abbrev answered : RatedMsg
answered = record { rcode = 0; answer = answer_of 300 ∷ answer_of 90 ∷ []; ns = []; extra = [] }

get_min_ttl_example :
    (60 * second ≤ get_min_ttl answered 60 3600 30 600)
    × (get_min_ttl answered 60 3600 30 600 ≤ 3600 * second)
    × All (λ rr. get_min_ttl answered 60 3600 30 600 ≤ max 60 rr.ttl * second) answered.answer
get_min_ttl_example = get_min_ttl_lem answered 60 3600 30 600 refl
