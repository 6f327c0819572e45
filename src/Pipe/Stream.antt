-- ===== src/Pipe/Stream.antt =====
-- Any interleaving of the steps of readers, writers and closers of one pipe (kernel/pipe.c), with the
-- bytes written and read so far.
use aurora_os_live.Base.{
  ℕ, ◌+◌, ◌≤◌, ◌≡◌, refl, ap, ap₂, ◌∙◌, sym, List, [], ◌∷◌, ◌++◌, arith, ltb, ◌==◌, if◌then◌else◌,
  Bool-cases, inl, inr, Bool, true, false, length, take, length-take, take-append-drop,
}
use mathlib.Core.List.{append-nil, append_assoc}
use aurora_os_live.Pipe.{
  Ring, Task, Pipe, buf_size, to_read, to_write, ReadStep, data_read, read_locked, read_sleep,
  WriteStep, wrote, write_locked, write_sleep, close_end,
}
use aurora_os_live.Pipe.Bytes.{IsRing, contents, take_bytes_lem}
use aurora_os_live.Pipe.Fill.{put_bytes_lem}

-- One step of anybody. `others` is the scheduler and the signals, which change the tasks.
pub data Act : Type 0 where
  read_step : ℕ → ℕ → Act
  reader_sleeps : ℕ → Act
  write_step : ℕ → List ℕ → Act
  writer_sleeps : ℕ → Act
  close : Bool → Act
  others : ((ℕ → Task) → ℕ → Task) → Act

pub record World : Type 0 where
  pub pipe : Pipe
  pub sent : List ℕ
  pub received : List ℕ
  pub freed : Bool

abbrev pub read_bytes : ReadStep → List ℕ
read_bytes (data_read bytes) = bytes
read_bytes _ = []

abbrev pub written : WriteStep → ℕ
written (wrote n) = n
written _ = 0

pub step : World → Act → World
step w (read_step current n) =
    let (p, s) = read_locked current n w.pipe in
    record w { pipe = p; received = w.received ++ read_bytes s }
step w (reader_sleeps current) = record w { pipe = (read_sleep current w.pipe).0 }
step w (write_step current src) =
    let (p, s) = write_locked current src w.pipe in
    record w { pipe = p; sent = w.sent ++ take (written s) src }
step w (writer_sleeps current) = record w { pipe = (write_sleep current w.pipe).0 }
step w (close is_read_end) =
    let (p, free) = close_end is_read_end w.pipe in record w { pipe = p; freed = free }
step w (others f) = record w { pipe = record (w.pipe) { tasks = f w.pipe.tasks } }

-- Once the ring is freed no descriptor leads to it, and no step is taken.
pub run : World → List Act → World
run w [] = w
run w (a ∷ acts) = run (if w.freed then w else step w a) acts

-- The fields that hold no bytes do not matter to the ring's soundness.
IsRing-rest :
    {r : Ring} (ro wo : Bool) (br bw : ℕ)
    → IsRing r
    → IsRing
        (record r { read_open = ro; write_open = wo; blocked_reader = br; blocked_writer = bw })
IsRing-rest ro wo br bw v = record {
  size = v.size;
  head_in = v.head_in;
  count_in = v.count_in;
  tail_at = v.tail_at;
}

to_read-le : (n : ℕ) (r : Ring) → to_read n r ≤ r.count
to_read-le n r = ground arith

to_write-fits :
    {r : Ring} (src : List ℕ) → IsRing r → r.count + length (take (to_write src r) src) ≤ buf_size
to_write-fits {r} src v = ground (arith, v.count_in, length-take (to_write src r) src)

-- `pipe_read` under the lock takes its bytes off the front of the pipe, or takes none.
pub read_locked_bytes :
    (current n : ℕ) (p : Pipe)
    → IsRing p.ring
    → let (p', s) = read_locked current n p in
      IsRing p'.ring × (contents p.ring ≡ read_bytes s ++ contents p'.ring)
unfolding read_locked
read_locked_bytes current n p v = elim (Bool-cases (ltb 0 p.ring.count)) [
  | inl some_data ↦ rw some_data (
      let (a, b, c) = take_bytes_lem (to_read n p.ring) v (to_read-le n p.ring) in
      (
        IsRing-rest _ _ _ _ a,
        sym (take-append-drop (to_read n p.ring) (contents p.ring)) ∙ sym (ap₂ ◌++◌ b c),
      ))
  | inr empty ↦ elim (Bool-cases p.ring.write_open) [
    | inl still_open ↦ simp (empty, still_open) (IsRing-rest _ _ _ _ v, refl)
    | inr closed ↦ simp (empty, closed) (v, refl)
  ]
]

-- `pipe_write` under the lock adds its bytes at the end of the pipe, or adds none.
pub write_locked_bytes :
    (current : ℕ) (src : List ℕ) (p : Pipe)
    → IsRing p.ring
    → let (p', s) = write_locked current src p in
      IsRing p'.ring × (contents p'.ring ≡ contents p.ring ++ take (written s) src)
unfolding write_locked
write_locked_bytes current src p v = elim (Bool-cases (ltb p.ring.count buf_size)) [
  | inl space ↦ rw space (
      let (a, b) = put_bytes_lem (take (to_write src p.ring) src) v (to_write-fits src v) in
      (IsRing-rest _ _ _ _ a, b))
  | inr full ↦ elim (Bool-cases p.ring.read_open) [
    | inl still_open ↦ simp (full, still_open) (v, sym (append-nil (contents p.ring)))
    | inr closed ↦ simp (full, closed) (v, sym (append-nil (contents p.ring)))
  ]
]

read_sleep_bytes :
    (current : ℕ) (p : Pipe)
    → IsRing p.ring
    → let (p', _) = read_sleep current p in IsRing p'.ring × (contents p'.ring ≡ contents p.ring)
unfolding read_sleep
read_sleep_bytes current p v = elim (Bool-cases (current == 0)) [
  | inl e ↦ rw e (v, refl)
  | inr e ↦ elim (Bool-cases (p.tasks current).pending) [
    | inl k ↦ rw (e, k) (IsRing-rest _ _ _ _ v, refl)
    | inr k ↦ rw (e, k) (v, refl)
  ]
]

write_sleep_bytes :
    (current : ℕ) (p : Pipe)
    → IsRing p.ring
    → let (p', _) = write_sleep current p in IsRing p'.ring × (contents p'.ring ≡ contents p.ring)
unfolding write_sleep
write_sleep_bytes current p v = elim (Bool-cases (current == 0)) [
  | inl e ↦ rw e (v, refl)
  | inr e ↦ elim (Bool-cases (p.tasks current).pending) [
    | inl k ↦ rw (e, k) (v, refl)
    | inr k ↦ rw (e, k) (IsRing-rest _ _ _ _ v, refl)
  ]
]

close_end_bytes :
    (is_read_end : Bool) (p : Pipe)
    → IsRing p.ring
    → let (p', _) = close_end is_read_end p in IsRing p'.ring × (contents p'.ring ≡ contents p.ring)
unfolding close_end
close_end_bytes true p v = (IsRing-rest _ _ _ _ v, refl)
close_end_bytes false p v = (IsRing-rest _ _ _ _ v, refl)

-- What was written is what was read followed by what is still in the pipe.
pub record IsStream (w : World) : Type 0 where
  pub ring : IsRing w.pipe.ring
  pub whole : w.sent ≡ w.received ++ contents w.pipe.ring

step-IsStream : (w : World) (a : Act) → IsStream w → IsStream (step w a)
unfolding step
step-IsStream w (read_step current n) v =
    let (a, b) = read_locked_bytes current n w.pipe v.ring in
    record {
      ring = a;
      whole = v.whole ∙ ap (λ l. w.received ++ l) b ∙ sym (append_assoc w.received _ _);
    }
step-IsStream w (reader_sleeps current) v =
    let (a, b) = read_sleep_bytes current w.pipe v.ring in
    record { ring = a; whole = v.whole ∙ ap (λ l. w.received ++ l) (sym b) }
step-IsStream w (write_step current src) v =
    let (a, b) = write_locked_bytes current src w.pipe v.ring in
    record {
      ring = a;
      whole =
          ap (λ l. l ++ take (written (write_locked current src w.pipe).1) src) v.whole
          ∙ append_assoc w.received _ _
          ∙ ap (λ l. w.received ++ l) (sym b);
    }
step-IsStream w (writer_sleeps current) v =
    let (a, b) = write_sleep_bytes current w.pipe v.ring in
    record { ring = a; whole = v.whole ∙ ap (λ l. w.received ++ l) (sym b) }
step-IsStream w (close e) v =
    let (a, b) = close_end_bytes e w.pipe v.ring in
    record { ring = a; whole = v.whole ∙ ap (λ l. w.received ++ l) (sym b) }
step-IsStream w (others f) v = record { ring = v.ring; whole = v.whole }

-- No interleaving of readers, writers and closers loses, doubles or reorders a byte: the bytes
-- written are at all times the bytes read followed by the bytes in the ring, which stays sound.
pub run-IsStream : (w : World) (acts : List Act) → IsStream w → IsStream (run w acts)
unfolding run
run-IsStream w [] v = v
run-IsStream w (a ∷ acts) v = elim (Bool-cases w.freed) [
  | inl e ↦ simp e (run-IsStream w acts v)
  | inr e ↦ simp e (run-IsStream (step w a) acts (step-IsStream w a v))
]
