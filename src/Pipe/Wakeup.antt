-- ===== src/Pipe/Wakeup.antt =====
-- Who is woken in kernel/pipe.c, and the window in which a wakeup is lost.
use aurora_os_live.Base.{
  ℕ, ◌<◌, ◌≡◌, ◌≢◌, refl, List, [], ◌∷◌, arith, ==_refl, true, false, length-take,
}
use aurora_os_live.Pipe.{
  Pipe, running, ready, blocked, buf_size, to_write, put_bytes, take_bytes, read_locked, read_sleep,
  write_locked, wait_data,
}

-- A write that finds space wakes the reader that sleeps, and forgets it.
pub write_wakes_reader :
    (current : ℕ) (src : List ℕ) (p : Pipe)
    → p.ring.count < buf_size
    → p.ring.blocked_reader ≢ 0
    → (p.tasks p.ring.blocked_reader).state ≡ blocked
    → let p' = (write_locked current src p).0 in
      ((p'.tasks p.ring.blocked_reader).state ≡ ready) × (p'.ring.blocked_reader ≡ 0)
unfolding write_locked put_bytes
write_wakes_reader current src p h n b = ground (arith, ==_refl p.ring.blocked_reader)

-- A read that finds bytes wakes the writer that sleeps, and forgets it.
pub read_wakes_writer :
    (current n : ℕ) (p : Pipe)
    → 0 < p.ring.count
    → p.ring.blocked_writer ≢ 0
    → (p.tasks p.ring.blocked_writer).state ≡ blocked
    → let p' = (read_locked current n p).0 in
      ((p'.tasks p.ring.blocked_writer).state ≡ ready) × (p'.ring.blocked_writer ≡ 0)
unfolding read_locked take_bytes
read_wakes_writer current n p h z b = ground (arith, ==_refl p.ring.blocked_writer)

-- The reader registers while it still runs, so a write between its unlock and its going to sleep
-- does not see a blocked task: the reader sleeps on with bytes in the pipe, whoever writes them.
pub read_lost_wakeup :
    (reader writer n : ℕ) (src : List ℕ) (p : Pipe)
    → p.ring.count ≡ 0
    → p.ring.write_open ≡ true
    → src ≢ []
    → reader ≢ 0
    → (p.tasks reader).pending ≡ false
    → (p.tasks reader).state ≡ running
    → let p₁ = (read_locked reader n p).0 in
      let p₂ = (write_locked writer src p₁).0 in
      let (p₃, s) = read_sleep reader p₂ in
      (s ≡ wait_data)
      × ((p₃.tasks reader).state ≡ blocked)
      × (0 < p₃.ring.count)
      × (p₃.ring.blocked_reader ≡ reader)
unfolding read_locked write_locked read_sleep put_bytes
read_lost_wakeup reader writer n [] p e o z r q t = absurd (z refl)
read_lost_wakeup reader writer n (x ∷ src) p e o z r q t =
    ground (arith, ==_refl reader, length-take (to_write (x ∷ src) p.ring) (x ∷ src))
