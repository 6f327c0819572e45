-- ===== src/TcpCong/Tests.antt =====
-- The congestion control theorems at concrete sockets.
use aurora_os_live.Base.{◌+◌, ◌*◌, ◌≤◌, arith, max}
use aurora_os_live.TcpCong.{Cong, avoidance, recovery, new_socket, mss, on_ack}
use aurora_os_live.TcpCong.Ack.{IsCong, on_ack-IsCong}

new_socket-IsCong : IsCong new_socket
new_socket-IsCong = record { window = omega arith; threshold = omega arith }

abbrev two_dups : Cong
two_dups = record new_socket {
  dup_ack_count = 2;
  last_ack = 1000;
  cwnd = 20000;
  cong_state = avoidance;
}

two_dups-IsCong : IsCong two_dups
two_dups-IsCong = record { window = omega arith; threshold = omega arith }

abbrev recovering : Cong
recovering = record new_socket {
  dup_ack_count = 5;
  last_ack = 1000;
  recover_seq = 1000;
  cwnd = 20000;
  cong_state = recovery;
}

on_ack-IsCong_example :
    IsCong (on_ack 5 new_socket)
    × ((on_ack 5 new_socket).cwnd ≤ max (new_socket.cwnd + 4 * mss) new_socket.ssthresh)
on_ack-IsCong_example = on_ack-IsCong 5 new_socket new_socket-IsCong (omega arith)

abbrev timed : Cong
timed = record new_socket { rtt = 100; rttvar = 10 }
