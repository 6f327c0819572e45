-- ===== src/Pipe/Tests.antt =====
-- The theorems on pipes at concrete pipes.
use aurora_os_live.Base.{
  ℕ, ◌≡◌, ◌<◌, refl, true, false, none, some, [], ◌∷◌, arith, set, replicate, length-replicate,
  take, drop,
}
use aurora_os_live.Base.Int.{pos}
use aurora_os_live.Fd.{fd_close, unused, first_free}
use aurora_os_live.Fd
use aurora_os_live.Pipe.{
  Ring, Task, Pipe, running, blocked, new_ring, buf_size, read_locked, read_sleep, write_locked,
  data_read, wait_data, wrote,
}
use aurora_os_live.Pipe.Bytes.{IsRing, contents}
use aurora_os_live.Pipe.Stream.{World, read_step, write_step, IsStream, run, run-IsStream}
use aurora_os_live.Pipe.Calls.{
  pipe_read, pipe_write, pipe_read_data, pipe_write_total, read_leaves_space,
}
use aurora_os_live.Pipe.Wakeup.{read_lost_wakeup}
use aurora_os_live.Pipe.Create.{Blocks, created, sys_pipe, sys_pipe_never_closed}

abbrev idle_task : Task
idle_task = record { state = running; pending = false; t_errno = 0 }

abbrev sleeper : Task
sleeper = record { state = blocked; pending = false; t_errno = 0 }

abbrev empty_pipe : Pipe
empty_pipe = record { ring = new_ring; tasks = λ p. idle_task }

-- Three bytes round the end of the buffer.
abbrev wrapped_ring : Ring
wrapped_ring = record new_ring { head = 4095; tail = 2; count = 3; blocked_writer = 9 }

abbrev wrapped_pipe : Pipe
wrapped_pipe = record { ring = wrapped_ring; tasks = λ p. sleeper }

new_ring-IsRing : IsRing new_ring
new_ring-IsRing = record {
  size = length-replicate {A = ℕ} buf_size 0;
  head_in = omega arith;
  count_in = omega arith;
  tail_at = refl;
}

wrapped_ring-IsRing : IsRing wrapped_ring
wrapped_ring-IsRing = record {
  size = length-replicate {A = ℕ} buf_size 0;
  head_in = omega arith;
  count_in = omega arith;
  tail_at = refl;
}

abbrev start : World
start = record { pipe = empty_pipe; sent = []; received = []; freed = false }

start-IsStream : IsStream start
start-IsStream = record { ring = new_ring-IsRing; whole = refl }

run-IsStream_example : IsStream (run start (write_step 2 (65 ∷ 66 ∷ []) ∷ read_step 3 1 ∷ []))
run-IsStream_example =
    run-IsStream start (write_step 2 (65 ∷ 66 ∷ []) ∷ read_step 3 1 ∷ []) start-IsStream

pipe_read_data_example :
    let (p', s) = pipe_read 3 2 ((λ p. p) ∷ []) wrapped_pipe in
    (s ≡ data_read (take 2 (contents wrapped_ring)))
    × (contents p'.ring ≡ drop 2 (contents wrapped_ring))
pipe_read_data_example =
    pipe_read_data 3 2 (λ p. p) [] wrapped_pipe wrapped_ring-IsRing (omega arith)

-- Another task that reads up to 8 bytes.
abbrev reader : Pipe → Pipe
reader p = (read_locked 3 8 p).0

-- One byte less than full.
abbrev tight_pipe : Pipe
tight_pipe = record wrapped_pipe { ring = record wrapped_ring { head = 3; tail = 2; count = 4095 } }

tight_pipe-IsRing : IsRing tight_pipe.ring
tight_pipe-IsRing = record {
  size = length-replicate {A = ℕ} buf_size 0;
  head_in = omega arith;
  count_in = omega arith;
  tail_at = refl;
}

pipe_write_total_example :
    (pipe_write 2 (65 ∷ 66 ∷ []) (reader ∷ reader ∷ []) tight_pipe).1 ≡ wrote 2
pipe_write_total_example =
    pipe_write_total 2 (65 ∷ 66 ∷ []) (reader ∷ reader ∷ []) tight_pipe refl tight_pipe-IsRing
      (omega arith)
      (
        λ p v. read_leaves_space 3 8 p (omega arith) v,
        (λ p v. read_leaves_space 3 8 p (omega arith) v, tt),
      )
      (omega arith)

abbrev waiting_pipe : Pipe
waiting_pipe = record { ring = record new_ring { blocked_reader = 3 }; tasks = λ p. sleeper }

read_lost_wakeup_example :
    let p₁ = (read_locked 3 8 empty_pipe).0 in
    let p₂ = (write_locked 2 (65 ∷ []) p₁).0 in
    let (p₃, s) = read_sleep 3 p₂ in
    (s ≡ wait_data)
    × ((p₃.tasks 3).state ≡ blocked)
    × (0 < p₃.ring.count)
    × (p₃.ring.blocked_reader ≡ 3)
read_lost_wakeup_example =
    read_lost_wakeup 3 2 8 (65 ∷ []) empty_pipe refl refl (λ e. cc) (omega arith) refl refl

abbrev blocks : Blocks
blocks = record { ring = 10; rinode = 11; winode = 12; rfilp = 13; wfilp = 14 }

abbrev fresh_task : Fd.Task
fresh_task = record {
  vfs = record {
    files = λ p. none;
    inodes = λ p. record { has_close = false; dentry = 0 };
    dentry_refs = λ p. 0;
    closed = [];
  };
  fd_table = replicate 16 unused;
}

sys_pipe_never_closed_example :
    let s' = created blocks 0 1 fresh_task in
    (sys_pipe true true blocks fresh_task ≡ some (s', pos 0, pos 0, pos 1))
    × (fd_close (pos 0) s'
        ≡ some (record { vfs = s'.vfs; fd_table = set s'.fd_table 0 unused }, pos 0))
    × (fd_close (pos 1) s'
        ≡ some (record { vfs = s'.vfs; fd_table = set s'.fd_table 1 unused }, pos 0))
unfolding first_free
sys_pipe_never_closed_example =
    sys_pipe_never_closed blocks 0 1 fresh_task (omega arith) (omega arith) (omega arith)
      (omega arith) (omega arith) (omega arith) (omega arith) (omega arith) refl refl refl
