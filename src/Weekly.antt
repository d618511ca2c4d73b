-- ===== src/Weekly.antt =====
-- dnscrypt-proxy/time_ranges.go: the weekly ranges of times at which a rule applies. A Go string is
-- the list of its bytes.
use dnscrypt_proxy_fork.Base.{
  ◌>>=◌, ℕ, zero, suc, ◌+◌, ◌-◌, ◌*◌, Bool, true, false, ◌&&◌, ◌||◌, List, [], ◌∷◌, length,
  get_elem?, Option, none, some, String, ltb, leb, ◌==◌, if◌then◌else◌,
}
use dnscrypt_proxy_fork.Base.Int.{ℤ, pos, negsuc}
use dnscrypt_proxy_fork.Base.Dict.{Dict, insert}
pub mod Cyclic
mod Tests

pub record TimeRange : Type 0 where
  pub after : ℤ
  pub before : ℤ

pub record TimeRangeStr : Type 0 where
  pub after : List ℕ
  pub before : List ℕ

-- The ranges of the seven days, from Sunday on.
pub record WeeklyRanges : Type 0 where
  pub ranges : List (List TimeRange)

pub record WeeklyRangesStr : Type 0 where
  pub sun : List TimeRangeStr
  pub mon : List TimeRangeStr
  pub tue : List TimeRangeStr
  pub wed : List TimeRangeStr
  pub thu : List TimeRangeStr
  pub fri : List TimeRangeStr
  pub sat : List TimeRangeStr

abbrev pub lt_ℤ : ℤ → ℤ → Bool
lt_ℤ (pos a) (pos b) = ltb a b
lt_ℤ (pos a) (negsuc b) = false
lt_ℤ (negsuc a) (pos b) = true
lt_ℤ (negsuc a) (negsuc b) = ltb b a

abbrev pub le_ℤ : ℤ → ℤ → Bool
le_ℤ a b = if lt_ℤ b a then false else true

abbrev eq_ℤ : ℤ → ℤ → Bool
eq_ℤ a b = le_ℤ a b && le_ℤ b a

-- The last part of `strings.Split`, one byte after the other: a separator starts a new part.
abbrev put_byte : ℕ → List (List ℕ) → List (List ℕ)
put_byte c [] = (c ∷ []) ∷ []
put_byte c (part ∷ parts) = (c ∷ part) ∷ parts

-- `strings.Split(str, ":")`
unfoldable pub split_colon : List ℕ → List (List ℕ)
split_colon [] = [] ∷ []
split_colon (c ∷ cs) = let rest = split_colon cs in if c == 58 then [] ∷ rest else put_byte c rest

-- The value of decimal digits after `n`; `none` if a byte is no digit.
unfoldable pub digits : List ℕ → ℕ → Option ℕ
digits [] n = some n
digits (c ∷ cs) n =
    let rest = digits cs (n * 10 + (c - 48)) in if leb 48 c && leb c 57 then rest else none

abbrev pub digits_of : List ℕ → Option ℕ
digits_of [] = none
digits_of (c ∷ cs) = digits (c ∷ cs) 0

-- `strconv.Atoi` after a minus sign, and without one
abbrev pub below_zero : ℕ → ℤ
below_zero zero = pos 0
below_zero (suc n) = negsuc n

abbrev pub negated : Option ℕ → Option ℤ
negated none = none
negated (some n) = if leb n 9223372036854775808 then some (below_zero n) else none

abbrev pub in_int : Option ℕ → Option ℤ
in_int none = none
in_int (some n) = if leb n 9223372036854775807 then some (pos n) else none

-- `strconv.Atoi`
unfoldable pub atoi : List ℕ → Option ℤ
atoi [] = none
atoi (c ∷ cs) =
    if c == 45
    then negated (digits_of cs)
    else if c == 43
    then in_int (digits_of cs)
    else in_int (digits (c ∷ cs) 0)

-- A number from 0 to `limit`.
unfoldable pub bounded : ℕ → Option ℤ → Option ℕ
bounded limit none = none
bounded limit (some (negsuc n)) = none
bounded limit (some (pos n)) = if ltb limit n then none else some n

abbrev pub day_secs : Option ℕ → Option ℕ → Option ℕ
day_secs none minutes = none
day_secs (some hours) none = none
day_secs (some hours) (some minutes) = some ((hours * 60 + minutes) * 60)

-- `daySecsFromStr` on the parts of its text; `none` is its error, and the -1 beside it is not read
abbrev pub day_secs_of_parts : List (List ℕ) → Option ℕ
day_secs_of_parts [] = none
day_secs_of_parts (a ∷ []) = none
day_secs_of_parts (a ∷ b ∷ []) = day_secs (bounded 23 (atoi a)) (bounded 59 (atoi b))
day_secs_of_parts (a ∷ b ∷ c ∷ parts) = none

unfoldable pub day_secs_from_str : List ℕ → Option ℕ
day_secs_from_str str = day_secs_of_parts (split_colon str)

-- Equal ends stand for the whole day.
unfoldable pub range_of : ℕ → ℕ → TimeRange
range_of after before =
    if after == before
    then record { after = negsuc 0; before = pos 86402 }
    else record { after = pos after; before = pos before }

unfoldable pub parse_time_ranges : List TimeRangeStr → Option (List TimeRange)
parse_time_ranges [] = some []
parse_time_ranges (str ∷ strs) = do
  after ← day_secs_from_str str.after
  before ← day_secs_from_str str.before
  ranges ← parse_time_ranges strs
  some (range_of after before ∷ ranges)

unfoldable pub parse_days : List (List TimeRangeStr) → Option (List (List TimeRange))
parse_days [] = some []
parse_days (day ∷ days) = do
  ranges ← parse_time_ranges day
  rest ← parse_days days
  some (ranges ∷ rest)

unfoldable pub parse_weekly_ranges : WeeklyRangesStr → Option WeeklyRanges
parse_weekly_ranges w = do
  ranges ← parse_days (w.sun ∷ w.mon ∷ w.tue ∷ w.wed ∷ w.thu ∷ w.fri ∷ w.sat ∷ [])
  some (record { ranges = ranges })

unfoldable pub parse_all_weekly_ranges : Dict WeeklyRangesStr → Option (Dict WeeklyRanges)
parse_all_weekly_ranges [] = some []
parse_all_weekly_ranges ((name, str) ∷ strs) = do
  ranges ← parse_weekly_ranges str
  rest ← parse_all_weekly_ranges strs
  some ((name, ranges) ∷ rest)

-- The test of `Match` on one range, at `now` seconds into the day.
unfoldable pub in_range : ℕ → TimeRange → Bool
in_range now r =
    if lt_ℤ r.before r.after
    then le_ℤ r.after (pos now) || le_ℤ (pos now) r.before
    else le_ℤ r.after (pos now) && le_ℤ (pos now) r.before

unfoldable pub in_any : ℕ → List TimeRange → Bool
in_any now [] = false
in_any now (r ∷ rs) = if in_range now r then true else in_any now rs

-- `Match`, at a local time: the day of the week, from 0 for Sunday, the hour and the minute.
unfoldable pub is_match : WeeklyRanges → ℕ → ℕ → ℕ → Bool
is_match w day hour minute = elim (get_elem? w.ranges day) [
  | none ↦ false
  | some ranges ↦ in_any ((hour * 60 + minute) * 60) ranges
]
