-- ===== src/Rtc/Tests.antt =====
-- Runs of the clock functions, and the theorems at concrete dates.
use aurora_os_live.Base.{◌≡◌, refl, true, false, none, some, suc, Ensures, arith}
use aurora_os_live.Rtc.{Time, bcd_to_bin, wait_update, rtc_read_time, rtc_days, is_leap, year_days}
use aurora_os_live.Rtc.Ticks.{ticks, boot, ticks-boot}
use aurora_os_live.Rtc.Calendar.{IsDate, next_day, rtc_days-next_day}

bcd_to_bin_runs : bcd_to_bin 0x59 ≡ 59
unfolding bcd_to_bin
bcd_to_bin_runs = refl

wait_update_runs : wait_update 5 0 (λ i. true) ≡ 0
unfolding wait_update
wait_update_runs = refl

not_ready : rtc_read_time false (λ i. false) (λ r. 0) ≡ none
unfolding rtc_read_time
not_ready = refl

ticks-boot_example : ticks 250 boot ≡ record { tick_counter = 50; seconds = 2 }
ticks-boot_example = ticks-boot 250 (omega arith)

abbrev leap_day : Time
leap_day = record { second = 0; minute = 0; hour = 12; day = 29; month = 2; year = 2024 }

leap_day-IsDate : IsDate leap_day
unfolding is_leap
leap_day-IsDate = record {
  late = omega arith;
  month_low = omega arith;
  month_high = omega arith;
  day_low = omega arith;
  day_high = omega arith;
}

first_day : rtc_days (record leap_day { day = 1; month = 1; year = 2020 }) ≡ some 0
unfolding rtc_days year_days
first_day = refl

rtc_days-next_day_example :
    Ensures
      (rtc_days leap_day)
      (λ n. IsDate (next_day leap_day) × (rtc_days (next_day leap_day) ≡ some (suc n)))
rtc_days-next_day_example = rtc_days-next_day leap_day leap_day-IsDate
