-- ===== src/Seccomp/Tests.antt =====
-- The policy theorem at a filter that allows the calls 1 and 70.
use aurora_os_live.Base.{◌≡◌, true, false, some, none, arith}
use aurora_os_live.Base.Int.{pos, minus_one}
use aurora_os_live.Seccomp.{Filter, Task, seccomp_check, seccomp_set_filter}
use aurora_os_live.Seccomp.Policy.{permits, verdict, seccomp_check-set_filter}

abbrev filter : Filter
filter = record { word0 = 2; word1 = 64; word2 = 0; word3 = 0 }

abbrev free_task : Task
free_task = record { seccomp = none }

seccomp_check-set_filter_example :
    (seccomp_check (seccomp_set_filter true (some filter) (some free_task)).0 (pos 70)
      ≡ verdict (permits filter (pos 70)))
    × (seccomp_check (seccomp_set_filter true none (some free_task)).0 (pos 70) ≡ pos 0)
    × (seccomp_set_filter false (some filter) (some free_task) ≡ (some free_task, minus_one))
seccomp_check-set_filter_example =
    seccomp_check-set_filter filter free_task (pos 70) true
      (record { low0 = omega arith; low1 = omega arith; low2 = omega arith; low3 = omega arith })
