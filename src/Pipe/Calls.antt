-- ===== src/Pipe/Calls.antt =====
-- `pipe_read` and `pipe_write` of kernel/pipe.c whole, over a list of turns: what everybody else does
-- to the pipe while the lock is free, once for each round of the loop. The list bounds the rounds.
use aurora_os_live.Base.{
  inl, inr, sym, Bool-cases, ◌-◌, ℕ, ◌+◌, ◌≤◌, ◌<◌, ◌≡◌, refl, ap, ◌∙◌, List, [], ◌∷◌, arith, ltb,
  if◌then◌else◌, length-drop, true, false, length, take, drop,
}
use aurora_os_live.Pipe.{
  Pipe, buf_size, to_read, to_write, ReadStep, data_read, end_of_file, wait_data, read_locked,
  read_sleep, WriteStep, wrote, write_failed, wait_space, write_locked, write_sleep, write_allowed,
}
use aurora_os_live.Pipe.Bytes.{IsRing, contents, length-contents, take_bytes_lem}
use aurora_os_live.Pipe.Stream.{read_locked_bytes, write_locked_bytes}

-- The loop of `pipe_read`. `wait_data` means that the turns have run out with the reader asleep.
pub pipe_read : ℕ → ℕ → List (Pipe → Pipe) → Pipe → Pipe × ReadStep
pipe_read current n [] p = (p, wait_data)
pipe_read current n (turn ∷ turns) p =
    let (p', s) = read_locked current n p in
    elim s [
      | wait_data ↦
          let (p'', s') = read_sleep current p' in
          elim s' [ wait_data ↦ pipe_read current n turns (turn p'') | given_up ↦ (p'', given_up) ]
      | finished ↦ (p', finished)
    ]

-- The loop of `pipe_write`, with `total` bytes written and `src` still to write.
pub write_loop : ℕ → List ℕ → ℕ → List (Pipe → Pipe) → Pipe → Pipe × WriteStep
write_loop current [] total turns p = (p, wrote total)
write_loop current (x ∷ src) total [] p = (p, wait_space)
write_loop current (x ∷ src) total (turn ∷ turns) p =
    let (p', s) = write_locked current (x ∷ src) p in
    elim s [
      | wrote n ↦ write_loop current (drop n (x ∷ src)) (total + n) turns (turn p')
      | write_failed ↦ (p', write_failed)
      | wait_space ↦
          let (p'', s') = write_sleep current p' in
          elim s' [
            | wait_space ↦ write_loop current (x ∷ src) total turns (turn p'')
            | given_up ↦ (p'', given_up)
          ]
    ]

pub pipe_write : ℕ → List ℕ → List (Pipe → Pipe) → Pipe → Pipe × WriteStep
pipe_write current src turns p =
    if write_allowed p then write_loop current src 0 turns p else (p, write_failed)

-- Rounds of the write loop make progress.
write_locked_progress :
    (current x : ℕ) (src : List ℕ) (p : Pipe)
    → p.ring.count < buf_size
    → (n : ℕ) × ((write_locked current (x ∷ src) p).1 ≡ wrote n) × (0 < n) × (n ≤ length (x ∷ src))
unfolding write_locked
write_locked_progress current x src p h =
    (to_write (x ∷ src) p.ring, ground arith, ground arith, ground arith)

-- The others keep the ring sound and leave space in it at each turn, as a reader does.
abbrev pub LeaveSpace : List (Pipe → Pipe) → Type 0
LeaveSpace [] = Unit {0}
LeaveSpace (turn ∷ turns) =
    ((p : Pipe) → IsRing p.ring → IsRing (turn p).ring × ((turn p).ring.count < buf_size))
    × LeaveSpace turns

write_loop_total :
    (current : ℕ) (src : List ℕ) (total : ℕ) (turns : List (Pipe → Pipe)) (p : Pipe)
    → IsRing p.ring
    → p.ring.count < buf_size
    → LeaveSpace turns
    → length src ≤ length turns
    → (write_loop current src total turns p).1 ≡ wrote (total + length src)
unfolding write_loop
write_loop_total current [] total turns p v h l k = ap wrote (omega arith)
write_loop_total current (x ∷ src) total [] p v h l k = absurd (omega arith)
write_loop_total current (x ∷ src) total (turn ∷ turns) p v h l k =
    let (n, e, a, b) = write_locked_progress current x src p h in
    let left = l.0 _ (write_locked_bytes current (x ∷ src) p v).0 in
    let rest =
      write_loop_total current (drop n (x ∷ src)) (total + n) turns
        (turn (write_locked current (x ∷ src) p).0) left.0 left.1 l.1
        (omega (arith, length-drop n (x ∷ src))) in
    rw (e, write_loop) (rest ∙ ap wrote (omega (arith, length-drop n (x ∷ src))))

-- `pipe_write` to a sound pipe whose read end is open, and which is not full, returns only when it has
-- written everything, where the others keep the ring sound and leave space in it at each turn: `length src`
-- turns are enough, and the result is `length src`.
pub pipe_write_total :
    (current : ℕ) (src : List ℕ) (turns : List (Pipe → Pipe)) (p : Pipe)
    → p.ring.read_open ≡ true
    → IsRing p.ring
    → p.ring.count < buf_size
    → LeaveSpace turns
    → length src ≤ length turns
    → (pipe_write current src turns p).1 ≡ wrote (length src)
unfolding pipe_write write_allowed
pipe_write_total current src turns p o v h l k =
    simp o (write_loop_total current src 0 turns p v h l k ∙ ap wrote (omega arith))

read_locked_data :
    (current n : ℕ) (p : Pipe)
    → IsRing p.ring
    → 0 < p.ring.count
    → let (p', s) = read_locked current n p in
      (s ≡ data_read (take (to_read n p.ring) (contents p.ring)))
      × (contents p'.ring ≡ drop (to_read n p.ring) (contents p.ring))
unfolding read_locked
read_locked_data current n p v h =
    let (a, b, c) = take_bytes_lem (to_read n p.ring) v (ground arith) in
    let e : ltb 0 p.ring.count ≡ true = ground arith in rw e (ap data_read b, c)

read_locked_empty :
    (current n : ℕ) (p : Pipe)
    → ltb 0 p.ring.count ≡ false
    → (read_locked current n p).0.ring.count < buf_size
unfolding read_locked
read_locked_empty current n p empty = elim (Bool-cases p.ring.write_open) [
  | inl still_open ↦ simp (empty, still_open) (ground (arith, empty))
  | inr closed ↦ simp (empty, closed) (ground (arith, empty))
]

-- A reader of at least one byte is such a turn.
pub read_leaves_space :
    (current n : ℕ) (p : Pipe)
    → 0 < n
    → IsRing p.ring
    → IsRing (read_locked current n p).0.ring × ((read_locked current n p).0.ring.count < buf_size)
read_leaves_space current n p z v = (
  (read_locked_bytes current n p v).0,
  elim (Bool-cases (ltb 0 p.ring.count)) [
    | inl some_data ↦
        let left = (read_locked_data current n p v (ground (arith, some_data))).1 in
        let p' = (read_locked current n p).0 in
        let fewer : p'.ring.count ≡ p.ring.count - to_read n p.ring =
          sym (length-contents p'.ring)
          ∙ ap length left
          ∙ length-drop (to_read n p.ring) (contents p.ring)
          ∙ ap (λ k. k - to_read n p.ring) (length-contents p.ring) in
        ground (arith, fewer, v.count_in, some_data)
    | inr empty ↦ read_locked_empty current n p empty
  ],
)

pipe_read_once :
    (current n : ℕ) (turn : Pipe → Pipe) (turns : List (Pipe → Pipe)) (p : Pipe) (bytes : List ℕ)
    → (read_locked current n p).1 ≡ data_read bytes
    → pipe_read current n (turn ∷ turns) p ≡ ((read_locked current n p).0, data_read bytes)
unfolding pipe_read
pipe_read_once current n turn turns p bytes e = rw (e, pipe_read)

-- `pipe_read` never sleeps on data: it returns at once the bytes at the front of the pipe, as many
-- as are asked for and there, and leaves the rest in order.
pub pipe_read_data :
    (current n : ℕ) (turn : Pipe → Pipe) (turns : List (Pipe → Pipe)) (p : Pipe)
    → IsRing p.ring
    → 0 < p.ring.count
    → let (p', s) = pipe_read current n (turn ∷ turns) p in
      (s ≡ data_read (take (to_read n p.ring) (contents p.ring)))
      × (contents p'.ring ≡ drop (to_read n p.ring) (contents p.ring))
pipe_read_data current n turn turns p v h =
    let (a, b) = read_locked_data current n p v h in
    rw (pipe_read_once current n turn turns p _ a) (refl, b)

-- End of file: an empty pipe without a writer gives 0 bytes, at once and without a change.
pub pipe_read_eof :
    (current n : ℕ) (turn : Pipe → Pipe) (turns : List (Pipe → Pipe)) (p : Pipe)
    → p.ring.count ≡ 0
    → p.ring.write_open ≡ false
    → pipe_read current n (turn ∷ turns) p ≡ (p, end_of_file)
unfolding pipe_read read_locked
pipe_read_eof current n turn turns p h e = ground arith
