-- ===== src/Weekly/Tests.antt =====
-- Concrete ranges: from 22:00 to 06:00.
use dnscrypt_proxy_fork.Base.{◌≡◌, refl, true, [], ◌∷◌, length, arith, All}
use dnscrypt_proxy_fork.Weekly.{
  TimeRangeStr, in_range, range_of, parse_time_ranges, day_secs_from_str, split_colon, atoi, digits,
  bounded,
}
use dnscrypt_proxy_fork.Weekly.Cyclic.{IsOfDay, in_range-range_of, parse_time_ranges-IsOfDay}

in_range-range_of_example : in_range 3600 (range_of 79200 21600) ≡ true
in_range-range_of_example =
    in_range-range_of 79200 21600 3600 (omega arith) (omega arith) (omega arith)

abbrev night : TimeRangeStr
night = record { after = 50 ∷ 50 ∷ 58 ∷ 48 ∷ 48 ∷ []; before = 54 ∷ 58 ∷ 48 ∷ 48 ∷ [] }

parse_time_ranges-IsOfDay_example :
    All IsOfDay (range_of 79200 21600 ∷ []) × (length (range_of 79200 21600 ∷ []) ≡ 1)
unfolding parse_time_ranges day_secs_from_str split_colon atoi digits bounded
parse_time_ranges-IsOfDay_example =
    parse_time_ranges-IsOfDay (night ∷ []) (range_of 79200 21600 ∷ []) refl
