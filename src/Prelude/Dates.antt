-- ===== src/Prelude/Dates.antt =====
-- Calendar dates, as package `time` reads and prints them under the layout "2006-01-02".
use Prim.Native.Nat.{ℕ, ◌+◌, ◌-◌, ◌*◌, ◌/◌, ◌%◌, ◌≤◌}
use mathlib.Core.Path.{◌≡◌, refl}
use mathlib.Core.Bool.{Bool, true, ◌&&◌, ◌||◌, not}
use mathlib.Core.List.{[], ◌∷◌}
use mathlib.Core.Option.{Option, none, some}
use native.Mathlib.Omega.{arith}
use consorcioabierto.Prelude.Tests.{leb, ◌==◌, if◌then◌else◌}
use consorcioabierto.Prelude.Text.{Text, codes}

-- year * 10000 + month * 100 + day: the order of dates is that of the numbers.
abbrev pub Date : Type 0
Date = ℕ

abbrev pub year_of : Date → ℕ
year_of d = d / 10000

abbrev pub month_of : Date → ℕ
month_of d = d / 100 % 100

abbrev pub day_of : Date → ℕ
day_of d = d % 100

is_leap : ℕ → Bool
is_leap y = y % 4 == 0 && (not (y % 100 == 0) || y % 400 == 0)

pub days_in : ℕ → ℕ → ℕ
days_in m y =
    if m == 2
    then (if is_leap y then 29 else 28)
    else if m == 4 || m == 6 || m == 9 || m == 11
    then 30
    else 31

pub record IsDate (d : Date) : Type 0 where
  pub year : year_of d ≤ 9999
  pub month_low : 1 ≤ month_of d
  pub month_high : month_of d ≤ 12
  pub day_low : 1 ≤ day_of d
  pub day_high : day_of d ≤ days_in (month_of d) (year_of d)

abbrev pub is_digit : ℕ → Bool
is_digit c = leb 48 c && leb c 57

make_date : ℕ → ℕ → ℕ → Option Date
make_date y m d =
    if leb 1 m && leb m 12 && leb 1 d && leb d (days_in m y)
    then some (y * 10000 + m * 100 + d)
    else none

-- `time.Parse("2006-01-02", s)`
unfoldable pub parse_date : Text → Option Date
unfolding make_date days_in is_leap
parse_date (a ∷ b ∷ c ∷ d ∷ s ∷ e ∷ f ∷ t ∷ g ∷ h ∷ []) =
    if is_digit a
      && is_digit b
      && is_digit c
      && is_digit d
      && s == b'-'
      && is_digit e
      && is_digit f
      && t == b'-'
      && is_digit g
      && is_digit h
    then make_date ((a - 48) * 1000 + (b - 48) * 100 + (c - 48) * 10 + (d - 48))
        ((e - 48) * 10 + (f - 48)) ((g - 48) * 10 + (h - 48))
    else none
parse_date _ = none

-- `t.Format("2006-01-02")`
unfoldable pub format_date : Date → Text
format_date d =
    (48 + year_of d / 1000)
    ∷ (48 + year_of d / 100 % 10)
    ∷ (48 + year_of d / 10 % 10)
    ∷ (48 + year_of d % 10)
    ∷ b'-'
    ∷ (48 + month_of d / 10)
    ∷ (48 + month_of d % 10)
    ∷ b'-'
    ∷ (48 + day_of d / 10)
    ∷ (48 + day_of d % 10)
    ∷ []

make_date_lem :
    (y m d n : ℕ)
    → y ≤ 9999
    → 1 ≤ m
    → m ≤ 12
    → 1 ≤ d
    → d ≤ days_in m y
    → n ≡ y * 10000 + m * 100 + d
    → make_date y m d ≡ some n
unfolding make_date
make_date_lem y m d n hy h1 h2 h3 h4 e = ground arith

is_digit_lem : (n : ℕ) → n ≤ 9 → is_digit (48 + n) ≡ true
is_digit_lem n h = ground arith

four_digits :
    (y : ℕ)
    → y ≤ 9999
    → (48 + y / 1000 - 48) * 1000
        + (48 + y / 100 % 10 - 48) * 100
        + (48 + y / 10 % 10 - 48) * 10
        + (48 + y % 10 - 48)
      ≡ y
four_digits y h = omega arith

two_digits : (n : ℕ) → n ≤ 99 → (48 + n / 10 - 48) * 10 + (48 + n % 10 - 48) ≡ n
two_digits n h = omega arith

-- What is printed reads back.
pub parse_date-format_date : (d : Date) → IsDate d → parse_date (format_date d) ≡ some d
unfolding parse_date format_date
parse_date-format_date d h =
    rw
      (
        is_digit_lem (year_of d / 1000) (omega (arith, h.year)),
        is_digit_lem (year_of d / 100 % 10) (omega arith),
        is_digit_lem (year_of d / 10 % 10) (omega arith),
        is_digit_lem (year_of d % 10) (omega arith),
        is_digit_lem (month_of d / 10) (omega (arith, h.month_high)),
        is_digit_lem (month_of d % 10) (omega arith),
        is_digit_lem (day_of d / 10) (omega arith),
        is_digit_lem (day_of d % 10) (omega arith),
        four_digits (year_of d) h.year,
        two_digits (month_of d) (omega (arith, h.month_high)),
        two_digits (day_of d) (omega arith),
      )
      (make_date_lem (year_of d) (month_of d) (day_of d) d h.year h.month_low h.month_high h.day_low
        h.day_high (omega arith))

parse_date_test : parse_date (codes "2026-02-29") ≡ none
unfolding parse_date
parse_date_test = refl
