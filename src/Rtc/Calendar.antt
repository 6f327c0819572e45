-- ===== src/Rtc/Calendar.antt =====
-- The day count of kernel/rtc.c against the calendar: one more for each next day.
use aurora_os_live.Base.{
  ℕ, suc, ◌%◌, Bool, true, ◌+◌, ◌-◌, ◌≤◌, ◌<◌, ◌≡◌, refl, ap, sym, ◌∙◌, inl, inr, false, some, ltb,
  ◌==◌, ◌&&◌, if◌then◌else◌, get_or, Ensures, Bool-cases, arith,
}
use aurora_os_live.Rtc.{Time, is_leap, year_days, month_days, rtc_days}

-- The rule of the Gregorian calendar: every fourth year, but of the centuries every fourth only.
abbrev pub leap_year : ℕ → Bool
leap_year y = if y % 400 == 0 then true else if y % 100 == 0 then false else y % 4 == 0

-- The lengths of the months.
abbrev pub month_length : ℕ → ℕ → ℕ
month_length y m =
    if m == 2
    then (if leap_year y then 29 else 28)
    else if m == 4
    then 30
    else if m == 6
    then 30
    else if m == 9
    then 30
    else if m == 11
    then 30
    else 31

pub record IsDate (t : Time) : Type 0 where
  pub late : 2020 ≤ t.year
  pub month_low : 1 ≤ t.month
  pub month_high : t.month ≤ 12
  pub day_low : 1 ≤ t.day
  pub day_high : t.day ≤ month_length t.year t.month

abbrev pub next_day : Time → Time
next_day t =
    if ltb t.day (month_length t.year t.month)
    then record t { day = t.day + 1 }
    else if ltb t.month 12
    then record t { day = 1; month = t.month + 1 }
    else record t { day = 1; month = 1; year = t.year + 1 }

is_leap_lem : (y : ℕ) → is_leap y ≡ leap_year y
unfolding is_leap
is_leap_lem y = ground arith

-- The month table, as the sum of the lengths.
month_start_suc :
    (y m : ℕ)
    → 1 ≤ m
    → m < 12
    → get_or month_days (m + 1 - 1) 0 + (if ltb 2 (m + 1) && leap_year y then 1 else 0)
      ≡ get_or month_days (m - 1) 0 + (if ltb 2 m && leap_year y then 1 else 0) + month_length y m
month_start_suc y m a b = ground arith

year_days-suc :
    (y : ℕ)
    → 2020 ≤ y
    → year_days (y + 1 - 2020) ≡ year_days (y - 2020) + (if leap_year y then 366 else 365)
unfolding year_days
year_days-suc y h =
    let e : y + 1 - 2020 ≡ suc (y - 2020) = omega arith in
    let e' : 2020 + (y - 2020) ≡ y = omega arith in
    ap year_days e
    ∙ ap (λ z. year_days (y - 2020) + (if is_leap z then 366 else 365)) e'
    ∙ ap (λ c. year_days (y - 2020) + (if c then 366 else 365)) (is_leap_lem y)

abbrev day_number : Time → ℕ
day_number t =
    year_days (t.year - 2020)
    + get_or month_days (t.month - 1) 0
    + (if ltb 2 t.month && leap_year t.year then 1 else 0)
    + (t.day - 1)

rtc_days-some : (t : Time) → 1 ≤ t.month → t.month ≤ 12 → rtc_days t ≡ some (day_number t)
unfolding rtc_days
rtc_days-some t a b = rw (sym (is_leap_lem t.year)) (ground arith)

december_days :
    (y : ℕ)
    → year_days (y - 2020) + (if leap_year y then 366 else 365)
      ≡ year_days (y - 2020) + 334 + (if leap_year y then 1 else 0) + 31
december_days y = ground arith

month_length_pos : (y m : ℕ) → 1 ≤ month_length y m
month_length_pos y m = ground arith

last_day :
    (t : Time)
    → IsDate t
    → ltb t.day (month_length t.year t.month) ≡ false
    → t.day ≡ month_length t.year t.month
last_day t d e = ground (arith, d.day_high)

december : (t : Time) → IsDate t → ltb t.month 12 ≡ false → t.month ≡ 12
december t d z = ground (arith, d.month_high)

-- The three ways a day follows another.
same_month : (t : Time) → IsDate t → day_number (record t { day = t.day + 1 }) ≡ suc (day_number t)
same_month t d = omega (arith, d.day_low)

month_end :
    (t : Time)
    → IsDate t
    → t.day ≡ month_length t.year t.month
    → t.month < 12
    → day_number (record t { day = 1; month = t.month + 1 }) ≡ suc (day_number t)
month_end t d e h = omega (arith, month_start_suc t.year t.month d.month_low h, d.day_low, e)

year_end :
    (t : Time)
    → IsDate t
    → t.day ≡ 31
    → t.month ≡ 12
    → day_number (record t { day = 1; month = 1; year = t.year + 1 }) ≡ suc (day_number t)
year_end t d e h =
    let days : day_number t
        ≡ year_days (t.year - 2020) + 334 + (if leap_year t.year then 1 else 0) + 30 =
      rw (e, h) refl in
    omega (arith, year_days-suc t.year d.late, december_days t.year, days)

-- For a date from 2020 on, rtc_days reads inside the month table, the next day of the Gregorian calendar
-- is a date again, and its count is one more.
pub rtc_days-next_day :
    (t : Time)
    → IsDate t
    → Ensures (rtc_days t) (λ n. IsDate (next_day t) × (rtc_days (next_day t) ≡ some (suc n)))
rtc_days-next_day t d =
    rw (rtc_days-some t d.month_low d.month_high)
      (elim (Bool-cases (ltb t.day (month_length t.year t.month))) [
        | inl e ↦ rw e (
          record {
            late = d.late;
            month_low = d.month_low;
            month_high = d.month_high;
            day_low = omega arith;
            day_high = ground arith;
          },
          rtc_days-some _ d.month_low d.month_high ∙ ap some (same_month t d),
        )
        | inr e ↦ elim (Bool-cases (ltb t.month 12)) [
          | inl z ↦
              rw (e, z)
                (
                  record {
                    late = d.late;
                    month_low = omega arith;
                    month_high = ground arith;
                    day_low = omega arith;
                    day_high = month_length_pos t.year (t.month + 1);
                  },
                  rtc_days-some _ (omega arith) (ground arith)
                      ∙ ap some (month_end t d (last_day t d e) (ground arith)),
                )
          | inr z ↦
              rw (e, z)
                (
                  record {
                    late = ground (arith, d.late);
                    month_low = omega arith;
                    month_high = omega arith;
                    day_low = omega arith;
                    day_high = omega arith;
                  },
                  rtc_days-some _ (omega arith) (omega arith)
                      ∙ ap some (
                          year_end t d (last_day t d e ∙ ap (month_length t.year) (december t d z))
                            (december t d z)),
                )
        ]
      ])
