-- ===== src/Rtc/Ticks.antt =====
-- The uptime counter of kernel/rtc.c over any number of timer interrupts.
use aurora_os_live.Base.{ℕ, zero, suc, ◌/◌, ◌%◌, ◌^◌, ◌<◌, ◌≡◌, refl, ap, ◌∙◌, arith}
use aurora_os_live.Rtc.{Uptime, rtc_tick_update}

pub ticks : ℕ → Uptime → Uptime
ticks zero u = u
ticks (suc n) u = rtc_tick_update (ticks n u)

abbrev pub boot : Uptime
boot = record { tick_counter = 0; seconds = 0 }

tick_lem :
    (n : ℕ)
    → n < 2 ^ 64
    → rtc_tick_update (record { tick_counter = n % 100; seconds = n / 100 })
      ≡ record { tick_counter = suc n % 100; seconds = suc n / 100 }
unfolding rtc_tick_update
tick_lem n h = ground arith

-- After n timer interrupts from boot, n below 2 ^ 64, the uptime is n / 100 seconds and the tick
-- counter holds the n % 100 ticks that are left.
pub ticks-boot :
    (n : ℕ) → n < 2 ^ 64 → ticks n boot ≡ record { tick_counter = n % 100; seconds = n / 100 }
unfolding ticks
ticks-boot zero h = refl
ticks-boot (suc n) h = ap rtc_tick_update (ticks-boot n (omega arith)) ∙ tick_lem n (omega arith)
