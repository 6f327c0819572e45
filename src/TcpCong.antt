-- ===== src/TcpCong.antt =====
-- TCP Reno congestion control, kernel/net/tcp_cong.c. Each function runs whole under
-- `tcp_cong_lock`. Socket numbers are not negative; `uint32_t` arithmetic wraps.
pub mod Ack
pub mod Timeout
pub mod Slots
mod Tests
use aurora_os_live.Base.{
  ℕ, zero, suc, ◌+◌, ◌-◌, ◌*◌, ◌/◌, ◌%◌, ◌^◌, Bool, true, false, not, ◌&&◌, ◌||◌, Option, none,
  some, List, [], ◌∷◌, leb, ltb, ◌==◌, if◌then◌else◌, get_or, set, replicate,
}
use mathlib.Core.Option

-- TCP_CONG_SLOW_START, TCP_CONG_AVOIDANCE, TCP_CONG_RECOVERY
pub data CongState : Type 0 where
  slow_start avoidance recovery : CongState

-- `struct tcp_cong_data`, with the fields that the code here never reads left out: sack_ok,
-- timestamp_ok, recent_ts, last_ts_sent.
pub record Cong : Type 0 where
  pub cwnd : ℕ
  pub ssthresh : ℕ
  pub rtt : ℕ
  pub rttvar : ℕ
  pub srto : ℕ
  pub rtt_seq : ℕ
  pub rtt_ts : ℕ
  pub rtt_measuring : Bool
  pub dup_ack_count : ℕ
  pub last_ack : ℕ
  pub recover_seq : ℕ
  pub cong_state : CongState
  pub window_scale : ℕ

abbrev pub mss : ℕ
mss = 1460

abbrev pub initial_cwnd : ℕ
initial_cwnd = 2 * mss

abbrev pub initial_ssthresh : ℕ
initial_ssthresh = 65535

abbrev pub rto_initial : ℕ
rto_initial = 1000

abbrev pub rto_min : ℕ
rto_min = 200

abbrev pub rto_max : ℕ
rto_max = 60000

abbrev pub max_sockets : ℕ
max_sockets = 16

abbrev pub u32 : ℕ → ℕ
u32 x = x % 2 ^ 32

abbrev pub is_state : CongState → CongState → Bool
is_state slow_start s = elim s [ slow_start ↦ true | _ ↦ false ]
is_state avoidance s = elim s [ avoidance ↦ true | _ ↦ false ]
is_state recovery s = elim s [ recovery ↦ true | _ ↦ false ]

-- The cleared entry of `memset`.
abbrev pub cleared : Cong
cleared = record {
  cwnd = 0;
  ssthresh = 0;
  rtt = 0;
  rttvar = 0;
  srto = 0;
  rtt_seq = 0;
  rtt_ts = 0;
  rtt_measuring = false;
  dup_ack_count = 0;
  last_ack = 0;
  recover_seq = 0;
  cong_state = slow_start;
  window_scale = 0;
}

abbrev pub new_socket : Cong
new_socket = record cleared { cwnd = initial_cwnd; ssthresh = initial_ssthresh; srto = rto_initial }

-- `dup_ack_count >= 3` of an `int`.
abbrev pub three_dups : Cong → Bool
three_dups c = leb 3 c.dup_ack_count && ltb c.dup_ack_count (2 ^ 31)

-- The stages of `tcp_cong_on_ack`, in order. `state` is the state at its start.
pub count_ack : ℕ → Cong → Cong
count_ack ack c =
    if ack == c.last_ack
    then record c { dup_ack_count = u32 (c.dup_ack_count + 1) }
    else if ltb c.last_ack ack
    then record c { dup_ack_count = 0; last_ack = ack }
    else c

abbrev pub grown : Cong → ℕ
grown c = if leb c.cwnd (2 ^ 32 - 1 - mss) then u32 (c.cwnd + mss) else c.cwnd

pub grow_slow_start : CongState → Cong → Cong
grow_slow_start state c =
    if is_state slow_start state
    then (if ltb c.cwnd c.ssthresh
        then record c { cwnd = if ltb c.ssthresh (grown c) then c.ssthresh else grown c }
        else record c { cong_state = avoidance })
    else c

abbrev pub increment : Cong → ℕ
increment c = if u32 (mss * mss / c.cwnd) == 0 then 1 else u32 (mss * mss / c.cwnd)

pub grow_avoidance : Cong → Cong
grow_avoidance c =
    if is_state avoidance c.cong_state then record c { cwnd = u32 (c.cwnd + increment c) } else c

abbrev pub halved : ℕ → ℕ
halved cwnd = if ltb (cwnd / 2) (2 * mss) then 2 * mss else cwnd / 2

pub fast_retransmit : CongState → ℕ → Cong → Cong
fast_retransmit state ack c =
    if three_dups c && not (is_state recovery state)
    then record c {
      ssthresh = halved c.cwnd;
      cwnd = u32 (halved c.cwnd + 3 * mss);
      cong_state = recovery;
      recover_seq = ack;
    }
    else c

pub inflate : CongState → Cong → Cong
inflate state c =
    if is_state recovery state && three_dups c then record c { cwnd = u32 (c.cwnd + mss) } else c

pub leave_recovery : CongState → ℕ → Cong → Cong
leave_recovery state ack c =
    if is_state recovery state && ltb c.recover_seq ack
    then record c { cwnd = c.ssthresh; cong_state = avoidance; dup_ack_count = 0 }
    else c

pub ack_stages : ℕ → Cong → Cong
ack_stages ack c =
    let state = c.cong_state in
    leave_recovery state ack (
      inflate state
        (fast_retransmit state ack (grow_avoidance (grow_slow_start state (count_ack ack c)))))

-- The body of `tcp_cong_on_ack` for one socket.
pub on_ack : ℕ → Cong → Cong
on_ack ack c = if c.cwnd == 0 then c else ack_stages ack c

-- The body of `tcp_cong_on_timeout` for one socket.
pub on_timeout : Cong → Cong
on_timeout c = if c.cwnd == 0 then c else record c {
  ssthresh = halved c.cwnd;
  cwnd = mss;
  srto = if ltb rto_max (u32 (c.srto * 2)) then rto_max else u32 (c.srto * 2);
  cong_state = slow_start;
  dup_ack_count = 0;
  rtt_measuring = false;
}

-- `(int32_t)a - (int32_t)b` made positive.
abbrev pub distance : ℕ → ℕ → ℕ
distance a b =
    if ltb ((u32 a + 2 ^ 32 - u32 b) % 2 ^ 32) (2 ^ 31)
    then (u32 a + 2 ^ 32 - u32 b) % 2 ^ 32
    else 2 ^ 32 - (u32 a + 2 ^ 32 - u32 b) % 2 ^ 32

abbrev pub clamp_rto : ℕ → ℕ
clamp_rto x = if ltb x rto_min then rto_min else if ltb rto_max x then rto_max else x

abbrev pub with_rto : Cong → Cong
with_rto c = record c { srto = clamp_rto (u32 (c.rtt + u32 (4 * c.rttvar))) }

-- A later sample, weighted by an eighth and a quarter.
abbrev pub smoothed : ℕ → Cong → Cong
smoothed measured c = record c {
  rttvar = u32 (u32 (3 * c.rttvar) + distance measured c.rtt) / 4;
  rtt = u32 (u32 (7 * c.rtt) + measured) / 8;
}

pub update_rtt : ℕ → Cong → Cong
update_rtt measured c =
    if measured == 0
    then c
    else if c.rtt == 0
    then with_rto (record c { rtt = measured; rttvar = measured / 2 })
    else with_rto (smoothed measured c)

pub set_window_scale : ℕ → Cong → Cong
set_window_scale shift c = if leb shift 14 then record c { window_scale = shift } else c

pub effective_window : ℕ → Cong → ℕ
effective_window rcv_window c = if ltb narrow mss then mss else narrow
  where
    scaled : ℕ
    scaled = u32 (rcv_window * 2 ^ c.window_scale)

    narrow : ℕ
    narrow = if ltb scaled c.cwnd then scaled else c.cwnd

pub start_rtt_measure : ℕ → Cong → Cong
start_rtt_measure seq c =
    if c.rtt_measuring then c else record c { rtt_seq = seq; rtt_measuring = true; rtt_ts = 0 }

pub complete_rtt_measure : ℕ → Cong → Cong
unfolding update_rtt
complete_rtt_measure measured c =
    if c.rtt_measuring then record (update_rtt measured c) { rtt_measuring = false } else c

-- The table of all sockets.
abbrev pub Table : Type 0
Table = List Cong

-- `tcp_cong_init`
pub init : Table
init = replicate max_sockets cleared

pub find_slot : ℕ → ℕ
find_slot sock = sock % max_sockets

abbrev pub is_free : Cong → Bool
is_free c = c.cwnd == 0 && (c.ssthresh == 0 && c.srto == 0)

-- The search loop of `tcp_cong_socket_init`: the first free entry.
pub first_free : Table → Option ℕ
first_free [] = none
first_free (c ∷ t) = if is_free c then some 0 else Option.map suc (first_free t)

pub socket_init : ℕ → Table → Table
unfolding first_free
socket_init sock t = elim (first_free t) [
  | none ↦ set t (sock % max_sockets) new_socket
  | some i ↦ set t i new_socket
]

-- A function of the interface on the entry of its socket.
abbrev pub at_socket : (Cong → Cong) → ℕ → Table → Table
at_socket f sock t = set t (sock % max_sockets) (f (get_or t (sock % max_sockets) cleared))

pub tcp_cong_on_ack : ℕ → ℕ → Table → Table
tcp_cong_on_ack sock ack t = at_socket (on_ack ack) sock t

pub tcp_cong_on_timeout : ℕ → Table → Table
tcp_cong_on_timeout sock t = at_socket on_timeout sock t

pub tcp_cong_get_rto : ℕ → Table → ℕ
tcp_cong_get_rto sock t = (get_or t (sock % max_sockets) cleared).srto
