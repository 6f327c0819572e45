-- ===== src/Sched/Tick.antt =====
-- Time slices, preemption and virtual run time in kernel/sched.c. The `int` fields of a task that these
-- functions use are never negative; priorities are 0 to 255.
use aurora_os_live.Base.{
  ℕ, zero, suc, ◌+◌, ◌-◌, ◌*◌, ◌/◌, ◌%◌, ◌^◌, ◌≤◌, ◌≡◌, max, refl, ap, ◌∙◌, Bool, true, false, ◌||◌,
  ltb, leb, ◌==◌, if◌then◌else◌, arith,
}
use aurora_os_live.Sched.{TaskState, running, ready}

abbrev pub base_slice : ℕ
base_slice = 10

-- The current task's fields, and the global flag `need_resched`.
pub record Run : Type 0 where
  pub state : TaskState
  pub priority : ℕ
  pub time_slice : ℕ
  pub vruntime : ℕ
  pub preempt_count : ℕ
  pub need_resched : Bool
  pub global_resched : Bool

abbrev pub is_running : TaskState → Bool
is_running s = elim s [ running ↦ true | _ ↦ false ]

abbrev pub full_slice : ℕ → ℕ
full_slice priority =
    let slice = base_slice * (256 - priority) / 256 in if ltb slice 1 then 1 else slice

-- The slice is used up.
abbrev pub expire : Run → Run
expire t = record t {
  need_resched = true;
  global_resched = true;
  time_slice = full_slice t.priority;
}

unfoldable pub schedule_tick : Run → Run
schedule_tick t =
    if ltb 0 t.preempt_count
    then t
    else if is_running t.state
    then (if leb (t.time_slice - 1) 0 then expire t else record t { time_slice = t.time_slice - 1 })
    else t

unfoldable pub preempt_disable : Run → Run
preempt_disable t = record t { preempt_count = t.preempt_count + 1 }

-- With whether `schedule` is called.
unfoldable pub preempt_enable : Run → Run × Bool
preempt_enable t =
    if (t.preempt_count - 1 == 0)
    then (if t.need_resched
        then (
          record t { preempt_count = t.preempt_count - 1; need_resched = false; state = ready },
          true,
        )
        else (record t { preempt_count = t.preempt_count - 1 }, false))
    else (record t { preempt_count = t.preempt_count - 1 }, false)

unfoldable pub check_resched : Run → Run × Bool
check_resched t =
    if t.global_resched || t.need_resched
    then (record t { global_resched = false; need_resched = false; state = ready }, true)
    else (t, false)

-- What `schedule` does to the task that it switches out, and to `min_vruntime`.
abbrev pub consumed : Run → ℕ
consumed t =
    if leb (full_slice t.priority) t.time_slice then 1 else full_slice t.priority - t.time_slice

unfoldable pub charge : Run → Run
charge t =
    if is_running t.state
    then record t {
      state = ready;
      vruntime = (t.vruntime + consumed t * 128 / (t.priority + 1)) % 2 ^ 64;
    }
    else t

unfoldable pub raise_min_vruntime : ℕ → ℕ → ℕ
raise_min_vruntime old next = if leb next old then old else next

pub ticks : ℕ → Run → Run
unfolding schedule_tick
ticks zero t = t
ticks (suc n) t = ticks n (schedule_tick t)

abbrev pub Preemptible : Run → Type 0
Preemptible t = (t.state ≡ running) × (t.preempt_count ≡ 0)

tick_of :
    (t : Run)
    → Preemptible t
    → schedule_tick t
      ≡ (if leb (t.time_slice - 1) 0 then expire t else record t { time_slice = t.time_slice - 1 })
unfolding schedule_tick
tick_of t (s, p) = rw (p, s) refl

counted_down :
    (t : Run) (n : ℕ)
    → t.time_slice ≡ suc (suc n)
    → (if leb (t.time_slice - 1) 0 then expire t else record t { time_slice = t.time_slice - 1 })
      ≡ record t { time_slice = suc n }
counted_down t n e =
    let left : t.time_slice - 1 ≡ suc n = omega arith in
    let more : leb (t.time_slice - 1) 0 ≡ false = ground arith in
    rw more (ap (λ x. record t { time_slice = x }) left)

used_up :
    (t : Run)
    → t.time_slice ≡ 1
    → (if leb (t.time_slice - 1) 0 then expire t else record t { time_slice = t.time_slice - 1 })
      ≡ expire t
used_up t e = let none_left : leb (t.time_slice - 1) 0 ≡ true = ground arith in rw none_left refl

expired :
    (t : Run)
    → expire t ≡ record t {
      need_resched = true;
      global_resched = true;
      time_slice = max 1 (10 * (256 - t.priority) / 256);
    }
expired t =
    let slice : full_slice t.priority ≡ max 1 (10 * (256 - t.priority) / 256) = ground arith in
    ap (λ x. record t { need_resched = true; global_resched = true; time_slice = x }) slice

-- Of a task that is RUNNING and may be preempted, the ticks of a slice less its last only count down: the flags stay as they are. The last marks the
-- task and the processor for rescheduling, and starts a slice of 10 * (256 - priority) / 256 ticks, but at
-- least one and at most 10.
pub ticks-expire :
    (n : ℕ) (t : Run)
    → Preemptible t
    → t.time_slice ≡ suc n
    → (ticks n t ≡ record t { time_slice = 1 })
      × (ticks (suc n) t ≡ record t {
        need_resched = true;
        global_resched = true;
        time_slice = max 1 (10 * (256 - t.priority) / 256);
      })
      × (max 1 (10 * (256 - t.priority) / 256) ≤ 10)
unfolding ticks
ticks-expire zero t p e =
    (ap (λ x. record t { time_slice = x }) e, tick_of t p ∙ used_up t e ∙ expired t, omega arith)
ticks-expire (suc n) t p e =
    let down : schedule_tick t ≡ record t { time_slice = suc n } =
      tick_of t p ∙ counted_down t n e in
    let (a, b, c) = ticks-expire n (record t { time_slice = suc n }) p refl in
    (ap (ticks n) down ∙ a, ap (ticks (suc n)) down ∙ b, c)
