-- ===== src/Rtc.antt =====
-- The clock, kernel/rtc.c: what the CMOS registers hold as a date, and the uptime counter. The value
-- of a register, and whether the chip is updating at each poll, are arguments.
pub mod Ticks
pub mod Calendar
mod Tests
use Prim.Native.Nat.{bit_and}
use aurora_os_live.Base.{
  ℕ, zero, suc, ◌+◌, ◌-◌, ◌*◌, ◌/◌, ◌%◌, ◌^◌, Bool, true, false, not, ◌&&◌, ◌||◌, Option, none,
  some, List, [], ◌∷◌, ltb, leb, ◌==◌, if◌then◌else◌, ◌>>=◌, get_or,
}

-- `struct rtc_time`
pub record Time : Type 0 where
  pub second : ℕ
  pub minute : ℕ
  pub hour : ℕ
  pub day : ℕ
  pub month : ℕ
  pub year : ℕ

-- `(bcd & 0x0F) + ((bcd >> 4) * 10)` as a `uint8_t`
pub bcd_to_bin : ℕ → ℕ
bcd_to_bin bcd = (bit_and bcd 0x0F + bcd / 2 ^ 4 * 10) % 2 ^ 8

-- The loop that waits for the end of an update, from poll `i` on: what is left of `timeout`.
pub wait_update : ℕ → ℕ → (ℕ → Bool) → ℕ
wait_update zero i busy = 0
wait_update (suc timeout) i busy = elim (busy i) [
  | true ↦ wait_update timeout (suc i) busy
  | false ↦ suc timeout
]

-- A time register, converted where status register B says BCD.
abbrev pub field : (ℕ → ℕ) → ℕ → ℕ
field regs reg = if bit_and (regs 0x0B) 0x04 == 0 then bcd_to_bin (regs reg) else regs reg

pub rtc_read_time : Bool → (ℕ → Bool) → (ℕ → ℕ) → Option Time
rtc_read_time ready busy regs =
    if not ready
    then none
    else if wait_update 10000 0 busy == 0
    then none
    else some (record {
      second = field regs 0x00;
      minute = field regs 0x02;
      hour = field regs 0x04;
      day = field regs 0x07;
      month = field regs 0x08;
      year = field regs 0x09 + 2000;
    })

-- `tick_counter` and `g_uptime_seconds`
pub record Uptime : Type 0 where
  pub tick_counter : ℕ
  pub seconds : ℕ

pub rtc_tick_update : Uptime → Uptime
rtc_tick_update u =
    let new_tick = (u.tick_counter + 1) % 2 ^ 32 in
    if new_tick == 100
    then record { tick_counter = 0; seconds = (u.seconds + 1) % 2 ^ 64 }
    else record u { tick_counter = new_tick }

pub is_leap : ℕ → Bool
is_leap y = ((y % 4 == 0) && not (y % 100 == 0)) || (y % 400 == 0)

-- The loop over the years from 2020 on, for `n` of them.
pub year_days : ℕ → ℕ
year_days zero = 0
year_days (suc n) = year_days n + (if is_leap (2020 + n) then 366 else 365)

abbrev pub month_days : List ℕ
month_days = 0 ∷ 31 ∷ 59 ∷ 90 ∷ 120 ∷ 151 ∷ 181 ∷ 212 ∷ 243 ∷ 273 ∷ 304 ∷ 334 ∷ []

-- Days since the start of 2020. A month outside 1..12 is a read out of the table.
pub rtc_days : Time → Option ℕ
rtc_days tm =
    if ltb tm.month 1
    then none
    else if ltb 12 tm.month
    then none
    else some (
        year_days (tm.year - 2020)
        + get_or month_days (tm.month - 1) 0
        + (if ltb 2 tm.month && is_leap tm.year then 1 else 0)
        + (tm.day - 1))

-- `*tv_sec` and `*tv_usec`
pub rtc_get_timeval : Option Time → Uptime → Option (ℕ × ℕ)
rtc_get_timeval none u = some (u.seconds, 0)
rtc_get_timeval (some tm) u = rtc_days tm >>= λ days.
    some ((days * 86400 + tm.hour * 3600 + tm.minute * 60 + tm.second + u.seconds) % 2 ^ 64, 0)
