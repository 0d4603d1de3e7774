-- ===== src/Common/Date.antt =====
-- time.Parse with the layout "2006-01-02", and the order of calendar dates.
use Prim.Native.Char.{Char, code}
use Prim.Native.String.{String, [], ◌∷◌}
use Prim.Native.Nat.{ℕ, ◌+◌, ◌-◌, ◌*◌, ◌%◌}
use mathlib.Core.Bool.{Bool, ◌&&◌, ◌||◌, not}
use mathlib.Core.Option.{Option, none, some}
use orbitplus.Common.Tests.{ltb, leb, ◌==◌, if◌then◌else◌}

pub record Date : Type 0 where
  pub year : ℕ
  pub month : ℕ
  pub day : ℕ

is_leap : ℕ → Bool
is_leap y = y % 4 == 0 && (not (y % 100 == 0) || y % 400 == 0)

days_in : ℕ → ℕ → ℕ
unfolding is_leap
days_in m y =
    if m == 2
    then (if is_leap y then 29 else 28)
    else if m == 4 || m == 6 || m == 9 || m == 11
    then 30
    else 31

unfoldable pub is_digit : Char → Bool
is_digit c = leb 48 (code c) && leb (code c) 57

digit : Char → ℕ
digit c = code c - 48

checked : ℕ → ℕ → ℕ → Option Date
unfolding days_in
checked y m d =
    if leb 1 m && leb m 12 && leb 1 d && leb d (days_in m y)
    then some (record { year = y; month = m; day = d })
    else none

-- Two digits for month and day, four for the year, nothing before or after.
unfoldable pub parse_date : String → Option Date
unfolding is_digit digit checked
parse_date (a ∷ b ∷ c ∷ d ∷ p ∷ e ∷ f ∷ q ∷ g ∷ h ∷ []) =
    if is_digit a
      && is_digit b
      && is_digit c
      && is_digit d
      && code p == 45
      && is_digit e
      && is_digit f
      && code q == 45
      && is_digit g
      && is_digit h
    then checked (digit a * 1000 + digit b * 100 + digit c * 10 + digit d) (digit e * 10 + digit f)
        (digit g * 10 + digit h)
    else none
parse_date _ = none

-- time.Time.Before on two dates at midnight.
unfoldable pub before : Date → Date → Bool
before a b =
    ltb a.year b.year
    || (a.year == b.year && (ltb a.month b.month || (a.month == b.month && ltb a.day b.day)))

-- time.Time.AddDate(0, 0, 7)
unfoldable pub add_week : Date → Date
unfolding days_in
add_week a =
    let last = days_in a.month a.year in
    if leb (a.day + 7) last
    then record a { day = a.day + 7 }
    else if ltb a.month 12
    then record { year = a.year; month = a.month + 1; day = a.day + 7 - last }
    else record { year = a.year + 1; month = 1; day = a.day + 7 - last }
