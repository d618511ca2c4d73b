-- ===== src/Packet/Ttl.antt =====
-- dnscrypt-proxy/dnsutils.go: the times to live of cached messages. A duration is in nanoseconds.
use dnscrypt_proxy_fork.Base.{
  ℕ, ◌+◌, ◌-◌, ◌*◌, ◌/◌, ◌%◌, ◌^◌, Bool, ◌&&◌, ◌||◌, not, List, [], ◌∷◌, map, length, ltb, leb,
  ◌==◌, if◌then◌else◌,
}
use dnscrypt_proxy_fork.Base.Int.{ℤ, pos, negsuc}

-- A resource record, as far as its header is read; `is_opt` for the type OPT.
pub record RatedRr : Type 0 where
  pub ttl : ℕ
  pub is_opt : Bool

-- The sections of a message of codeberg.org/miekg/dns.
pub record RatedMsg : Type 0 where
  pub rcode : ℕ
  pub answer : List RatedRr
  pub ns : List RatedRr
  pub extra : List RatedRr

abbrev pub second : ℕ
second = 1_000_000_000

abbrev pub rcode_success : ℕ
rcode_success = 0

abbrev pub rcode_name_error : ℕ
rcode_name_error = 3

-- The loop over a section.
unfoldable pub least_ttl : List RatedRr → ℕ → ℕ
least_ttl [] ttl = ttl
least_ttl (rr ∷ rrs) ttl = least_ttl rrs (if ltb rr.ttl ttl then rr.ttl else ttl)

abbrev pub at_least : ℕ → ℕ → ℕ
at_least ttl low = if ltb ttl low then low else ttl

-- The section that the loop reads.
abbrev pub rated : RatedMsg → List RatedRr
rated m = if ltb 0 (length m.answer) then m.answer else m.ns

-- Whether the message has nothing that tells how long it lives.
abbrev pub is_unrated : RatedMsg → Bool
is_unrated m =
    (not (m.rcode == rcode_success) && not (m.rcode == rcode_name_error))
    || (leb (length m.answer) 0 && leb (length m.ns) 0)

-- `getMinTTL`, with its bounds in seconds
unfoldable pub get_min_ttl : RatedMsg → ℕ → ℕ → ℕ → ℕ → ℕ
get_min_ttl m min_ttl max_ttl cache_neg_min_ttl cache_neg_max_ttl =
    let is_success = m.rcode == rcode_success in
    let ttl = least_ttl (rated m) (if is_success then max_ttl else cache_neg_max_ttl) in
    if is_unrated m
    then cache_neg_min_ttl * second
    else at_least ttl (if is_success then min_ttl else cache_neg_min_ttl) * second

-- The value that `updateTTL` computes from `time.Until(expiration)`.
unfoldable pub remaining_ttl : ℤ → ℕ
remaining_ttl (negsuc n) = 0
remaining_ttl (pos until) =
    let ttl = until / second % 2 ^ 32 in
    if leb (second / 2) (until - ttl * second) then (ttl + 1) % 2 ^ 32 else ttl

abbrev pub with_ttl : ℕ → RatedRr → RatedRr
with_ttl ttl rr = record rr { ttl = ttl }

unfoldable pub update_ttl : RatedMsg → ℤ → RatedMsg
update_ttl m until =
    let ttl = remaining_ttl until in
    record m {
      answer = map (with_ttl ttl) m.answer;
      ns = map (with_ttl ttl) m.ns;
      extra = map (λ rr. if rr.is_opt then rr else with_ttl ttl rr) m.extra;
    }
