-- ===== src/Weekly/Cyclic.antt =====
-- A range of times is an interval on the clock's circle, and the times of day are read exactly.
use dnscrypt_proxy_fork.Base.{
  ℕ, suc, ◌+◌, ◌-◌, ◌*◌, ◌/◌, ◌%◌, ◌≤◌, ◌<◌, ◌≡◌, refl, ap, subst, inl, inr, true, List, [], ◌∷◌,
  ◌++◌, length, Option, none, some, leb, ◌==◌, if◌then◌else◌, arith, Option-cases, All,
}
use dnscrypt_proxy_fork.Base.Int.{ℤ, pos, negsuc}
use dnscrypt_proxy_fork.Weekly.{
  TimeRange, TimeRangeStr, split_colon, digits, atoi, bounded, day_secs_of_parts, day_secs,
  day_secs_from_str, range_of, parse_time_ranges, in_range,
}

-- A range between two times of a day matches exactly the times on the way from the first to the
-- second around the clock, midnight included; a range between equal times matches always.
pub in_range-range_of :
    (after before now : ℕ)
    → after < 86400
    → before < 86400
    → now < 86400
    → in_range now (range_of after before) ≡ (
        if after == before
        then true
        else leb ((now + 86400 - after) % 86400) ((before + 86400 - after) % 86400))
unfolding in_range range_of
in_range-range_of after before now a b n = ground arith

bounded_lem : (limit : ℕ) (n : Option ℤ) (v : ℕ) → bounded limit n ≡ some v → v ≤ limit
unfolding bounded
bounded_lem limit none v h = absurd (cc)
bounded_lem limit (some (negsuc n)) v h = absurd (cc)
bounded_lem limit (some (pos n)) v h = ground (arith, h)

day_secs_lem :
    (a b : Option ℤ) (t : ℕ)
    → day_secs (bounded 23 a) (bounded 59 b) ≡ some t
    → (t < 86400) × (t % 60 ≡ 0)
day_secs_lem a b t h = elim (Option-cases (bounded 23 a)) [
  | inl e ↦ absurd (cc)
  | inr (x, e) ↦ elim (Option-cases (bounded 59 b)) [
    | inl f ↦ absurd (cc)
    | inr (y, f) ↦
        let q : some ((x * 60 + y) * 60) ≡ some t = cc in
        let r : (x * 60 + y) * 60 ≡ t = cc in
        let p = bounded_lem 23 a x e in let s = bounded_lem 59 b y f in (omega arith, omega arith)
  ]
]

parts_lem :
    (parts : List (List ℕ)) (t : ℕ) → day_secs_of_parts parts ≡ some t → (t < 86400) × (t % 60 ≡ 0)
parts_lem [] t h = absurd (cc)
parts_lem (a ∷ []) t h = absurd (cc)
parts_lem (a ∷ b ∷ []) t h = day_secs_lem (atoi a) (atoi b) t h
parts_lem (a ∷ b ∷ c ∷ parts) t h = absurd (cc)

-- The two digits of a number below 100.
abbrev pub two_digits : ℕ → List ℕ
two_digits n = (48 + n / 10) ∷ (48 + n % 10) ∷ []

-- A time of day written as HH:MM is read as its seconds.
day_secs_from_str-digits :
    (hour minute : ℕ)
    → hour < 24
    → minute < 60
    → day_secs_from_str (two_digits hour ++ 58 ∷ two_digits minute)
      ≡ some ((hour * 60 + minute) * 60)
unfolding day_secs_from_str split_colon atoi digits bounded
day_secs_from_str-digits hour minute h m = ground arith

pub day_secs_from_str_lem :
    (str : List ℕ) (t : ℕ) → day_secs_from_str str ≡ some t → (t < 86400) × (t % 60 ≡ 0)
unfolding day_secs_from_str
day_secs_from_str_lem str t h = parts_lem (split_colon str) t h

-- A range that goes from one time of a day to another.
pub IsOfDay : TimeRange → Type 0
IsOfDay r = (a : ℕ) × (b : ℕ) × (a < 86400) × (b < 86400) × (r ≡ range_of a b)

-- Whatever text is accepted, each of its ranges is between two times of a day, and there is one
-- range for each pair of texts.
pub parse_time_ranges-IsOfDay :
    (strs : List TimeRangeStr) (ranges : List TimeRange)
    → parse_time_ranges strs ≡ some ranges
    → All IsOfDay ranges × (length ranges ≡ length strs)
unfolding parse_time_ranges IsOfDay
parse_time_ranges-IsOfDay [] ranges h =
    let e : [] ≡ ranges = cc in subst (λ r. All IsOfDay r × (length r ≡ 0)) e (tt, refl)
parse_time_ranges-IsOfDay (s ∷ strs) ranges h = elim (Option-cases (day_secs_from_str s.after)) [
  | inl e ↦ absurd (cc)
  | inr (a, e) ↦ elim (Option-cases (day_secs_from_str s.before)) [
    | inl f ↦ absurd (cc)
    | inr (b, f) ↦ elim (Option-cases (parse_time_ranges strs)) [
      | inl g ↦ absurd (cc)
      | inr (rest, g) ↦
          let (all, count) = parse_time_ranges-IsOfDay strs rest g in
          let q : range_of a b ∷ rest ≡ ranges = cc in
          subst (λ r. All IsOfDay r × (length r ≡ suc (length strs))) q
            (
              (
                (
                  a,
                  b,
                  (day_secs_from_str_lem s.after a e).0,
                  (day_secs_from_str_lem s.before b f).0,
                  refl,
                ),
                all,
              ),
              ap suc count,
            )
    ]
  ]
]
