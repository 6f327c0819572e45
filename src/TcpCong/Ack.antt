-- ===== src/TcpCong/Ack.antt =====
-- `tcp_cong_on_ack` of kernel/net/tcp_cong.c.
use aurora_os_live.Base.{ℕ, ◌+◌, ◌*◌, ◌/◌, ◌^◌, ◌≤◌, ◌<◌, ◌≡◌, ◌≢◌, arith, min, max, ne→==}
use native.Mathlib.Nat.{div-le_of_le-mul}
use aurora_os_live.TcpCong.{
  Cong, CongState, slow_start, avoidance, recovery, mss, count_ack, grow_slow_start, increment,
  grow_avoidance, fast_retransmit, inflate, leave_recovery, ack_stages, on_ack,
}

-- What Reno keeps: a window of at least one segment and a threshold of at least two.
pub record IsCong (c : Cong) : Type 0 where
  pub window : mss ≤ c.cwnd
  pub threshold : 2 * mss ≤ c.ssthresh

increment-le : (c : Cong) → mss ≤ c.cwnd → (0 < increment c) × (increment c ≤ mss)
increment-le c h =
    let small : mss * mss / c.cwnd ≤ mss = div-le_of_le-mul c.cwnd (omega arith) in
    ground (arith, small)

-- The first three stages: count the acknowledgement and open the window.
abbrev grow : ℕ → Cong → Cong
grow ack c = grow_avoidance (grow_slow_start c.cong_state (count_ack ack c))

grow_bounds :
    (ack : ℕ) (c : Cong)
    → mss ≤ c.cwnd
    → c.cwnd < 2 ^ 31
    → (c.cwnd ≤ (grow ack c).cwnd)
      × ((grow ack c).cwnd ≤ c.cwnd + mss)
      × ((grow ack c).ssthresh ≡ c.ssthresh)
unfolding grow_avoidance grow_slow_start count_ack
grow_bounds ack c h b = ground (arith, increment-le c h)

abbrev shrink : CongState → ℕ → Cong → Cong
shrink state ack c = leave_recovery state ack (inflate state (fast_retransmit state ack c))

shrink_bounds :
    (state : CongState) (ack : ℕ) (c : Cong)
    → mss ≤ c.cwnd
    → c.cwnd < 2 ^ 31 + mss
    → 2 * mss ≤ c.ssthresh
    → (mss ≤ (shrink state ack c).cwnd)
      × (2 * mss ≤ (shrink state ack c).ssthresh)
      × ((shrink state ack c).cwnd ≤ max (c.cwnd + 3 * mss) (max c.ssthresh (5 * mss)))
unfolding leave_recovery inflate fast_retransmit
shrink_bounds state ack c h b t = ground arith

-- From a window of at least one segment and below 2 ^ 31 bytes, and a threshold of at least two segments,
-- one acknowledgement keeps the window at least one segment and the threshold at least two, and
-- opens the window by at most four segments, or to the threshold on leaving recovery.
pub on_ack-IsCong :
    (ack : ℕ) (c : Cong)
    → IsCong c
    → c.cwnd < 2 ^ 31
    → IsCong (on_ack ack c) × ((on_ack ack c).cwnd ≤ max (c.cwnd + 4 * mss) c.ssthresh)
unfolding on_ack ack_stages
on_ack-IsCong ack c v h =
    let (a, b, e) = grow_bounds ack c v.window h in
    let (f, g, k) =
      shrink_bounds c.cong_state ack (grow ack c) (omega arith) (omega arith)
        (omega (arith, v.threshold)) in
    simp (ne→== c.cwnd 0 (omega (arith, v.window)))
      (record { window = f; threshold = g }, omega (arith, v.window))

-- The third duplicate in a row halves the threshold, but not below two segments, sets the window
-- three segments above it and enters fast recovery.
pub on_ack_third_dup :
    (c : Cong)
    → IsCong c
    → c.cwnd < 2 ^ 31
    → c.cong_state ≢ recovery
    → c.dup_ack_count ≡ 2
    → let c' = on_ack c.last_ack c in
      (c'.cong_state ≡ recovery)
      × (c'.cwnd ≡ c'.ssthresh + 3 * mss)
      × (c'.recover_seq ≡ c.last_ack)
      × (max (c.cwnd / 2) (2 * mss) ≤ c'.ssthresh)
      × (c'.ssthresh ≤ max (c.cwnd / 2) (2 * mss) + mss)
unfolding on_ack ack_stages count_ack grow_slow_start grow_avoidance fast_retransmit inflate
    leave_recovery
on_ack_third_dup c v h s d = ground (arith, v.window, increment-le c v.window)

-- An acknowledgement of new data beyond the point of loss ends fast recovery: the window falls back
-- to the threshold and grows linearly from there.
pub on_ack_recovered :
    (ack : ℕ) (c : Cong)
    → c.cwnd ≢ 0
    → c.cong_state ≡ recovery
    → c.last_ack < ack
    → c.recover_seq < ack
    → let c' = on_ack ack c in
      (c'.cwnd ≡ c.ssthresh)
      × (c'.ssthresh ≡ c.ssthresh)
      × (c'.cong_state ≡ avoidance)
      × (c'.dup_ack_count ≡ 0)
      × (c'.last_ack ≡ ack)
unfolding on_ack ack_stages count_ack grow_slow_start grow_avoidance fast_retransmit inflate
    leave_recovery
on_ack_recovered ack c n s l r = ground arith

-- In slow start an acknowledgement of new data opens the window by one segment, up to the threshold.
pub on_ack_slow_start :
    (ack : ℕ) (c : Cong)
    → IsCong c
    → c.cwnd < 2 ^ 31
    → c.cong_state ≡ slow_start
    → c.cwnd < c.ssthresh
    → c.last_ack < ack
    → let c' = on_ack ack c in
      (c'.cwnd ≡ min (c.cwnd + mss) c.ssthresh)
      × (c'.ssthresh ≡ c.ssthresh)
      × (c'.cong_state ≡ slow_start)
unfolding on_ack ack_stages count_ack grow_slow_start grow_avoidance fast_retransmit inflate
    leave_recovery
on_ack_slow_start ack c v h s b l = ground (arith, v.window)
