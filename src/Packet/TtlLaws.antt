-- ===== src/Packet/TtlLaws.antt =====
-- Bounds on the lifetime of a cached message, and its ageing.
use dnscrypt_proxy_fork.Base.{
  ℕ, ◌+◌, ◌-◌, ◌*◌, ◌/◌, ◌^◌, ◌≤◌, ◌<◌, ◌≡◌, max, inl, inr, false, List, [], ◌∷◌, ltb, leb, ◌==◌,
  if◌then◌else◌, arith, All, Bool-cases,
}
use dnscrypt_proxy_fork.Base.Int.{sub_ℕ}
use dnscrypt_proxy_fork.Packet.Ttl.{
  RatedRr, RatedMsg, second, least_ttl, at_least, rated, is_unrated, get_min_ttl, remaining_ttl,
}

least_ttl_lem :
    (rrs : List RatedRr) (ttl : ℕ)
    → (least_ttl rrs ttl ≤ ttl) × All (λ rr. least_ttl rrs ttl ≤ rr.ttl) rrs
unfolding least_ttl
least_ttl_lem [] ttl = (omega arith, tt)
least_ttl_lem (rr ∷ rrs) ttl =
    let (a, b) = least_ttl_lem rrs (if ltb rr.ttl ttl then rr.ttl else ttl) in
    (ground (arith, a), (ground (arith, a), b))

-- A message that is not unrated lives at least its floor; above the floor it lives no longer than its
-- ceiling and than any record of the section that was read.
pub get_min_ttl_lem :
    (m : RatedMsg) (min_ttl max_ttl neg_min neg_max : ℕ)
    → is_unrated m ≡ false
    → let is_success = m.rcode == 0 in
      let floor = if is_success then min_ttl else neg_min in
      let ceiling = if is_success then max_ttl else neg_max in
      let d = get_min_ttl m min_ttl max_ttl neg_min neg_max in
      (floor * second ≤ d)
      × (d ≤ max floor ceiling * second)
      × All (λ rr. d ≤ max floor rr.ttl * second) (rated m)
unfolding get_min_ttl
get_min_ttl_lem m min_ttl max_ttl neg_min neg_max h =
    let is_success = m.rcode == 0 in
    let floor = if is_success then min_ttl else neg_min in
    let ceiling = if is_success then max_ttl else neg_max in
    let (a, b) = least_ttl_lem (rated m) ceiling in
    let d = at_least (least_ttl (rated m) ceiling) floor in
    rw h (ground (arith, a), ground (arith, a), All-map (λ rr q. ground (arith, q)) (rated m) b)
  where
    All-map :
        {P Q : RatedRr → Type 0}
        → ((rr : RatedRr) → P rr → Q rr)
        → (rrs : List RatedRr) → All P rrs
        → All Q rrs
    All-map f [] h = tt
    All-map f (rr ∷ rrs) (p, ps) = (f rr p, All-map f rrs ps)

-- A message stored until `expiration` and served at `now` has the remaining time as its TTL, rounded
-- to the nearest second; once expired it has 0. The remaining time is below 2^32 - 1 seconds.
pub remaining_ttl_lem :
    (expiration now : ℕ)
    → expiration < now + (2 ^ 32 - 1) * second
    → let ttl = remaining_ttl (sub_ℕ expiration now) in
      (ttl * second ≤ (expiration - now) + second / 2)
      × (expiration - now < ttl * second + second / 2)
unfolding remaining_ttl
remaining_ttl_lem expiration now h = elim (Bool-cases (leb now expiration)) [
  | inl e ↦ rw (e, remaining_ttl) (ground arith)
  | inr e ↦ rw (e, remaining_ttl) (ground arith)
]
