-- ===== src/Log/Ring.antt =====
-- What log_ring_write and log_ring_read of kernel/log.c keep of the messages.
use mathlib.Core.Path.{subst}
use native.Mathlib.Decide.{ℕ_discrete}
use mathlib.Core.List.{append_assoc, append-nil}
use aurora_os_live.Base.{
  ℕ, zero, suc, ◌+◌, ◌-◌, ◌%◌, ◌^◌, ◌≤◌, ◌<◌, ◌≡◌, refl, sym, ap, ap₂, ◌∙◌, false, List, [], ◌∷◌,
  ◌++◌, ltb, length, get_or, set, drop, drop_all, length-append, length-set, get_or-set_self,
  get_or-set_ne, get_or-append_left, get_or-append_right, arith,
}
use aurora_os_live.Log.{
  Log, log_buf_size, put_char, put_chars, terminate, log_ring_write, total, start, read_from,
  read_limit, log_ring_read,
}

-- The ring, not yet full, starts with the text that has been written.
pub record IsLog (text : List ℕ) (s : Log) : Type 0 where
  pub size : length s.log_ring ≡ log_buf_size
  pub wpos : s.log_wpos ≡ length text
  pub room : length text < log_buf_size
  pub kept : (i : ℕ) → i < length text → get_or s.log_ring i 0 ≡ get_or text i 0

put_char-IsLog :
    (c : ℕ) (text : List ℕ) (s : Log)
    → IsLog text s
    → suc (length text) < log_buf_size
    → IsLog (text ++ c ∷ []) (put_char c s)
put_char-IsLog c text s l h =
    let at : s.log_wpos % log_buf_size ≡ length text = omega (arith, l.wpos, l.room) in
    let more : length (text ++ c ∷ []) ≡ suc (length text) =
      omega (arith, length-append text (c ∷ [])) in
    record {
      size = length-set s.log_ring (s.log_wpos % log_buf_size) c ∙ l.size;
      wpos = omega (arith, l.wpos, l.room);
      room = omega arith;
      kept = λ i k. elim (ℕ_discrete (length text) i) [
        | yes e ↦
            let here : s.log_wpos % log_buf_size ≡ i = omega arith in
            ap (λ x. get_or (set s.log_ring x c) i 0) here
            ∙ get_or-set_self s.log_ring i c 0 (omega (arith, l.size))
            ∙ sym (get_or-append_right text (c ∷ []) 0 0)
            ∙ ap (λ x. get_or (text ++ c ∷ []) x 0) (omega arith)
        | no n ↦
            get_or-set_ne s.log_ring (s.log_wpos % log_buf_size) i c 0 (λ e. n (omega arith))
            ∙ l.kept i (omega arith)
            ∙ sym (get_or-append_left text (c ∷ []) i 0 (omega arith))
      ];
    }

put_chars-IsLog :
    (cs text : List ℕ) (s : Log)
    → IsLog text s
    → length text + length cs < log_buf_size
    → IsLog (text ++ cs) (put_chars cs s)
unfolding put_chars
put_chars-IsLog [] text s l h = subst (λ x. IsLog x s) (sym (append-nil text)) l
put_chars-IsLog (c ∷ cs) text s l h =
    let more : length (text ++ c ∷ []) ≡ suc (length text) =
      omega (arith, length-append text (c ∷ [])) in
    subst (λ x. IsLog x (put_chars cs (put_char c s))) (append_assoc text (c ∷ []) cs)
      (put_chars-IsLog cs (text ++ c ∷ []) (put_char c s) (put_char-IsLog c text s l (omega arith))
        (omega arith))

terminate-IsLog : (text : List ℕ) (s : Log) → IsLog text s → IsLog text (terminate s)
terminate-IsLog text s l = record {
  size = length-set s.log_ring (s.log_wpos % log_buf_size) 0 ∙ l.size;
  wpos = l.wpos;
  room = l.room;
  kept = λ i k.
      get_or-set_ne s.log_ring (s.log_wpos % log_buf_size) i 0 0
        (λ e. omega (arith, l.wpos, l.room))
      ∙ l.kept i k;
}

pub log_ring_write-IsLog :
    (m text : List ℕ) (s : Log)
    → IsLog text s
    → length text + length m < log_buf_size
    → IsLog (text ++ m) (log_ring_write m s)
unfolding log_ring_write
log_ring_write-IsLog m text s l h =
    terminate-IsLog (text ++ m) (put_chars m s) (put_chars-IsLog m text s l h)

read_from_lem :
    (n i : ℕ) (text : List ℕ) (s : Log)
    → IsLog text s
    → i + n ≡ length text
    → read_from n i s ≡ drop i text
unfolding read_from
read_from_lem zero i text s l h = sym (drop_all i text (omega arith))
read_from_lem (suc n) i text s l h =
    let from_start : start s ≡ 0 = ground (arith, l.wpos, l.room) in
    let at : (start s + i) % log_buf_size ≡ i = omega (arith, l.room) in
    ap₂ ◌∷◌ (ap (λ x. get_or s.log_ring x 0) at ∙ l.kept i (omega arith))
      (read_from_lem n (suc i) text s l (omega arith))
    ∙ drop_step i text (omega arith)
  where
    drop_step : (j : ℕ) (xs : List ℕ) → j < length xs → get_or xs j 0 ∷ drop (suc j) xs ≡ drop j xs
    drop_step j [] k = absurd (omega arith)
    drop_step zero (x ∷ xs) k = refl
    drop_step (suc j) (x ∷ xs) k = drop_step j xs (omega arith)

pub log_ring_read-IsLog :
    (size : ℕ) (text : List ℕ) (s : Log)
    → IsLog text s
    → length text < size
    → 2 ≤ size
    → size < 2 ^ 31
    → log_ring_read size s ≡ text
unfolding log_ring_read
log_ring_read-IsLog size text s l h b w =
    let some_room : ltb size 2 ≡ false = ground arith in
    let all : total s ≡ length text = ground (arith, l.wpos, l.room) in
    let limit : read_limit size ≡ size - 1 = ground arith in
    let enough : ltb (read_limit size) (total s) ≡ false = ground (arith, limit, all) in
    rw (log_ring_read, some_room, enough)
      (ap (λ n. read_from n 0 s) all ∙ read_from_lem (length text) 0 text s l (omega arith))

-- Where the log holds a text, and a message more leaves it below 4096 bytes, log_ring_write of the
-- message and log_ring_read into a larger buffer, of at least two bytes and less than 2 ^ 31, give the
-- text with the message behind it.
pub log_ring_read-log_ring_write :
    (size : ℕ) (m text : List ℕ) (s : Log)
    → IsLog text s
    → length text + length m < log_buf_size
    → length text + length m < size
    → 2 ≤ size
    → size < 2 ^ 31
    → log_ring_read size (log_ring_write m s) ≡ text ++ m
log_ring_read-log_ring_write size m text s l h k b w =
    log_ring_read-IsLog size (text ++ m) (log_ring_write m s) (log_ring_write-IsLog m text s l h)
      (omega (arith, length-append text m)) b w

pub empty-IsLog :
    (ring : List ℕ)
    → length ring ≡ log_buf_size
    → IsLog [] (record { log_ring = ring; log_wpos = 0 })
empty-IsLog ring e = record {
  size = e;
  wpos = refl;
  room = omega arith;
  kept = λ i k. absurd (omega arith);
}
