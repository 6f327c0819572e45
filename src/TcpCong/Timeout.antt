-- ===== src/TcpCong/Timeout.antt =====
-- Timeouts, round-trip times and the send window of kernel/net/tcp_cong.c.
use aurora_os_live.Base.{ℕ, ◌+◌, ◌*◌, ◌/◌, ◌^◌, ◌≤◌, ◌<◌, ◌≡◌, ◌≢◌, false, arith, min, max, ne→==}
use native.Mathlib.Nat.{pow-le-pow_right}
use aurora_os_live.TcpCong.{
  Cong, slow_start, mss, u32, rto_min, rto_max, on_timeout, clamp_rto, update_rtt, smoothed,
  effective_window,
}
use aurora_os_live.TcpCong.Ack.{IsCong}

-- A timeout goes back to slow start with a window of one segment and the threshold halved, but not
-- below two segments; the timer doubles up to its limit, and no sample is taken of what is sent again.
pub on_timeout_lem :
    (c : Cong)
    → IsCong c
    → c.srto ≤ rto_max
    → let c' = on_timeout c in
      IsCong c'
      × (c'.cwnd ≡ mss)
      × (c'.ssthresh ≡ max (c.cwnd / 2) (2 * mss))
      × (c'.srto ≡ min (2 * c.srto) rto_max)
      × (c'.cong_state ≡ slow_start)
      × (c'.rtt_measuring ≡ false)
unfolding on_timeout
on_timeout_lem c v h = ground (arith, v.window)

clamp_rto_bounds : (x : ℕ) → (rto_min ≤ clamp_rto x) × (clamp_rto x ≤ rto_max)
clamp_rto_bounds x = ground arith

abbrev rto_sum : Cong → ℕ
rto_sum c = u32 (c.rtt + u32 (4 * c.rttvar))

smoothed_bounds :
    (rtt measured : ℕ)
    → rtt < 2 ^ 28
    → measured < 2 ^ 28
    → let next = u32 (u32 (7 * rtt) + measured) / 8 in
      (min rtt measured ≤ next) × (next ≤ max rtt measured)
smoothed_bounds rtt measured a b =
    let e : u32 (u32 (7 * rtt) + measured) ≡ 7 * rtt + measured = omega arith in
    rw e (omega arith, omega arith)

-- A sample keeps the timer within its limits, whatever the sample; and where nothing overflows the
-- smoothed time moves towards the sample, never past it.
pub update_rtt_bounds :
    (measured : ℕ) (c : Cong)
    → measured ≢ 0
    → c.rtt ≢ 0
    → c.rtt < 2 ^ 28
    → measured < 2 ^ 28
    → let c' = update_rtt measured c in
      (rto_min ≤ c'.srto)
      × (c'.srto ≤ rto_max)
      × (min c.rtt measured ≤ c'.rtt)
      × (c'.rtt ≤ max c.rtt measured)
unfolding update_rtt
update_rtt_bounds measured c h n a b =
    simp (ne→== measured 0 h, ne→== c.rtt 0 n)
      (
        (clamp_rto_bounds (rto_sum (smoothed measured c))).0,
        (clamp_rto_bounds (rto_sum (smoothed measured c))).1,
        (smoothed_bounds c.rtt measured a b).0,
        (smoothed_bounds c.rtt measured a b).1,
      )

-- The timer of the first sample is three times the sample, within its limits.
pub update_rtt_first :
    (measured : ℕ) (c : Cong)
    → 0 < measured
    → measured < 2 ^ 29
    → c.rtt ≡ 0
    → (update_rtt measured c).srto ≡ max rto_min (min rto_max (measured + 4 * (measured / 2)))
unfolding update_rtt
update_rtt_first measured c h b z = ground arith

scaled-lt : (rcv s : ℕ) → rcv < 2 ^ 16 → s ≤ 14 → rcv * 2 ^ s < 2 ^ 32
scaled-lt rcv s h k =
    let p : 2 ^ s ≤ 2 ^ 14 = pow-le-pow_right {n = 2} (omega arith) k in grind arith

-- The window to send is the smaller of the congestion window and the receiver's window scaled, but
-- at least a segment.
pub effective_window_lem :
    (rcv : ℕ) (c : Cong)
    → rcv < 2 ^ 16
    → c.window_scale ≤ 14
    → effective_window rcv c ≡ max mss (min c.cwnd (rcv * 2 ^ c.window_scale))
unfolding effective_window
effective_window_lem rcv c h k = ground (arith, scaled-lt rcv c.window_scale h k)
