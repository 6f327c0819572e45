-- ===== src/TcpCong/Slots.antt =====
-- Which entry of the table a socket uses in kernel/net/tcp_cong.c.
use aurora_os_live.Base.{
  ℕ, zero, suc, ◌%◌, ◌≡◌, ◌≢◌, refl, sym, ap, ◌∙◌, get_or, set, replicate, get_or-set_ne,
  set-get_or,
}
use aurora_os_live.TcpCong.{
  Cong, Table, cleared, new_socket, max_sockets, init, socket_init, at_socket, on_ack, on_timeout,
  tcp_cong_on_ack, tcp_cong_on_timeout, tcp_cong_get_rto,
}

get_or-replicate : (n i : ℕ) (c : Cong) → get_or (replicate n c) i c ≡ c
get_or-replicate zero i c = refl
get_or-replicate (suc n) zero c = refl
get_or-replicate (suc n) (suc i) c = get_or-replicate n i c

-- The first socket takes the first entry, whatever its number.
socket_init-init : (sock : ℕ) → socket_init sock init ≡ set init 0 new_socket
unfolding socket_init init
socket_init-init sock = refl

cleared_entry :
    (sock : ℕ)
    → sock % max_sockets ≢ 0
    → get_or (socket_init sock init) (sock % max_sockets) cleared ≡ cleared
unfolding init
cleared_entry sock h =
    ap (λ t. get_or t (sock % max_sockets) cleared) (socket_init-init sock)
    ∙ get_or-set_ne init 0 (sock % max_sockets) new_socket cleared (λ e. h (sym e))
    ∙ init_entry (sock % max_sockets)
  where
    init_entry : (i : ℕ) → get_or init i cleared ≡ cleared
    init_entry i = get_or-replicate max_sockets i cleared

-- A function that leaves a cleared entry alone changes nothing at a socket that has one.
at_socket-cleared :
    (f : Cong → Cong) (sock : ℕ) (t : Table)
    → f cleared ≡ cleared
    → get_or t (sock % max_sockets) cleared ≡ cleared
    → at_socket f sock t ≡ t
at_socket-cleared f sock t keep e =
    ap (set t (sock % max_sockets)) (ap f e ∙ keep ∙ sym e)
    ∙ set-get_or t (sock % max_sockets) cleared

-- `tcp_cong_socket_init` takes the first free entry, the other functions the one that the socket's
-- number names. So the first socket, unless its number is a multiple of 16, has no congestion
-- control: acknowledgements and timeouts do nothing, and its timer reads 0.
pub first_socket_unused :
    (sock ack : ℕ)
    → sock % max_sockets ≢ 0
    → let t = socket_init sock init in
      (tcp_cong_on_ack sock ack t ≡ t)
      × (tcp_cong_on_timeout sock t ≡ t)
      × (tcp_cong_get_rto sock t ≡ 0)
unfolding tcp_cong_on_ack tcp_cong_on_timeout tcp_cong_get_rto on_ack on_timeout
first_socket_unused sock ack h =
    let e = cleared_entry sock h in
    (
      at_socket-cleared (on_ack ack) sock (socket_init sock init) refl e,
      at_socket-cleared on_timeout sock (socket_init sock init) refl e,
      ap (λ c. c.srto) e,
    )
