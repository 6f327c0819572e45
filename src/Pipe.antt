-- ===== src/Pipe.antt =====
-- Anonymous pipes, kernel/pipe.c: a ring of PIPE_BUF_SIZE bytes under a spinlock, a reader and a
-- writer that sleep and wake one another. Each function below is one stretch of code that runs with
-- the lock held, or one between two of them; the loops of `pipe_read` and `pipe_write` are sequences
-- of these, with any steps of the other end between them.
pub mod Bytes
pub mod Fill
pub mod Calls
pub mod Wakeup
pub mod Stream
pub mod Create
mod Tests
use aurora_os_live.Base.{
  ℕ, zero, suc, ◌+◌, ◌-◌, ◌%◌, ◌^◌, Bool, true, false, not, ◌&&◌, Option, none, some, List, [], ◌∷◌,
  ◌++◌, ltb, ◌==◌, if◌then◌else◌, length, take, drop, memcpy, min, replicate,
}
pub use aurora_os_live.Sched.{TaskState, running, ready, blocked, zombie, dead}

abbrev pub buf_size : ℕ
buf_size = 4096

-- `struct pipe_ring`; a task pointer is a number, NULL is 0.
pub record Ring : Type 0 where
  pub buf : List ℕ
  pub head : ℕ
  pub tail : ℕ
  pub count : ℕ
  pub read_open : Bool
  pub write_open : Bool
  pub blocked_reader : ℕ
  pub blocked_writer : ℕ

-- What the pipe code reads and writes of a task.
pub record Task : Type 0 where
  pub state : TaskState
  pub pending : Bool
  pub t_errno : ℕ

pub record Pipe : Type 0 where
  pub ring : Ring
  pub tasks : ℕ → Task

abbrev pub eintr : ℕ
eintr = 4

abbrev pub epipe : ℕ
epipe = 32

abbrev pub new_ring : Ring
new_ring = record {
  buf = replicate buf_size 0;
  head = 0;
  tail = 0;
  count = 0;
  read_open = true;
  write_open = true;
  blocked_reader = 0;
  blocked_writer = 0;
}

-- `uint32_t` subtraction.
abbrev pub sub32 : ℕ → ℕ → ℕ
sub32 a b = (a % 2 ^ 32 + 2 ^ 32 - b % 2 ^ 32) % 2 ^ 32

abbrev pub put_task : ℕ → Task → (ℕ → Task) → ℕ → Task
put_task p t f q = if p == q then t else f q

abbrev pub is_blocked : Task → Bool
is_blocked t = elim t.state [ blocked ↦ true | _ ↦ false ]

-- `if (who && who->state == TASK_BLOCKED) who->state = TASK_READY`; the caller clears `who` then.
abbrev pub wakes : ℕ → (ℕ → Task) → Bool
wakes who tasks = not (who == 0) && is_blocked (tasks who)

abbrev pub wake : ℕ → (ℕ → Task) → ℕ → Task
wake who tasks =
    if wakes who tasks then put_task who (record (tasks who) { state = ready }) tasks else tasks

-- The bytes that `pipe_read` copies out, and how many those are.
abbrev pub to_read : ℕ → Ring → ℕ
to_read n r = if ltb r.count n then r.count else n

abbrev pub first_chunk : ℕ → ℕ → ℕ
first_chunk at n = if ltb n (sub32 buf_size at) then n else sub32 buf_size at

pub copy_out : ℕ → Ring → List ℕ
copy_out n r =
    let first = first_chunk r.head n in
    if ltb first n
    then take first (drop r.head r.buf) ++ take (n - first) r.buf
    else take first (drop r.head r.buf)

pub take_bytes : ℕ → Ring → List ℕ × Ring
take_bytes n r =
    (copy_out n r, record r { head = (r.head + n) % 2 ^ 64 % buf_size; count = sub32 r.count n })

-- The bytes that `pipe_write` copies in.
abbrev pub to_write : List ℕ → Ring → ℕ
to_write src r =
    if ltb (sub32 buf_size r.count) (length src) then sub32 buf_size r.count else length src

pub copy_in : List ℕ → Ring → List ℕ
copy_in src r =
    let first = first_chunk r.tail (length src) in
    if ltb first (length src)
    then memcpy (memcpy r.buf r.tail (take first src)) 0 (drop first src)
    else memcpy r.buf r.tail (take first src)

pub put_bytes : List ℕ → Ring → Ring
put_bytes src r = record r {
  buf = copy_in src r;
  tail = (r.tail + length src) % 2 ^ 64 % buf_size;
  count = (r.count + length src) % 2 ^ 32;
}

-- How one stretch of `pipe_read` ends: with bytes, at end of file, with -1, or going on to sleep.
pub data ReadStep : Type 0 where
  data_read : List ℕ → ReadStep
  end_of_file : ReadStep
  read_failed : ReadStep
  wait_data : ReadStep

-- The stretch under the lock: `break` with the copy that follows, EOF, or the registration as the
-- reader to wake.
pub read_locked : ℕ → ℕ → Pipe → Pipe × ReadStep
read_locked current n p =
    if ltb 0 r.count
    then (
      record {
        ring = record (out.1) {
          blocked_writer = if wakes r.blocked_writer p.tasks then 0 else r.blocked_writer;
        };
        tasks = wake r.blocked_writer p.tasks;
      },
      data_read out.0,
    )
    else if not r.write_open
    then (p, end_of_file)
    else (record p { ring = record r { blocked_reader = current } }, wait_data)
  where
    r : Ring
    r = p.ring

    out : List ℕ × Ring
    out = take_bytes (to_read n r) r

-- What follows the unlock: give up, or mark the task blocked and call `schedule`.
pub read_sleep : ℕ → Pipe → Pipe × ReadStep
read_sleep current p =
    if current == 0
    then (p, read_failed)
    else if (p.tasks current).pending
    then (
      record {
        ring = record (p.ring) {
          blocked_reader = if p.ring.blocked_reader == current then 0 else p.ring.blocked_reader;
        };
        tasks = put_task current (record (p.tasks current) { t_errno = eintr }) p.tasks;
      },
      read_failed,
    )
    else (
      record p { tasks = put_task current (record (p.tasks current) { state = blocked }) p.tasks },
      wait_data,
    )

pub data WriteStep : Type 0 where
  wrote : ℕ → WriteStep
  write_failed : WriteStep
  wait_space : WriteStep

-- `pipe_write` before its loop.
pub write_allowed : Pipe → Bool
write_allowed p = p.ring.read_open

-- The stretch under the lock, with the bytes still to write.
pub write_locked : ℕ → List ℕ → Pipe → Pipe × WriteStep
write_locked current src p =
    if ltb r.count buf_size
    then (
      record {
        ring = record (put_bytes (take n src) r) {
          blocked_reader = if wakes r.blocked_reader p.tasks then 0 else r.blocked_reader;
        };
        tasks = wake r.blocked_reader p.tasks;
      },
      wrote n,
    )
    else if not r.read_open
    then (
      record p { tasks = put_task current (record (p.tasks current) { t_errno = epipe }) p.tasks },
      write_failed,
    )
    else (p, wait_space)
  where
    r : Ring
    r = p.ring

    n : ℕ
    n = to_write src r

pub write_sleep : ℕ → Pipe → Pipe × WriteStep
write_sleep current p =
    if current == 0
    then (p, write_failed)
    else if (p.tasks current).pending
    then (
      record p { tasks = put_task current (record (p.tasks current) { t_errno = eintr }) p.tasks },
      write_failed,
    )
    else (
      record {
        ring = record (p.ring) { blocked_writer = current };
        tasks = put_task current (record (p.tasks current) { state = blocked }) p.tasks;
      },
      wait_space,
    )

-- `pipe_close`: which end the inode is, and whether the ring is freed and `inode->priv` cleared.
pub close_end : Bool → Pipe → Pipe × Bool
close_end is_read_end p = (record p { ring = r }, not r.read_open && not r.write_open)
  where
    r : Ring
    r =
        if is_read_end
        then record (p.ring) { read_open = false }
        else record (p.ring) { write_open = false }
