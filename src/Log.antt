-- ===== src/Log.antt =====
-- The ring buffer of kernel/log.c. The text of a message is formatted elsewhere; `log_wpos` is an
-- unsigned int.
pub mod Ring
mod Tests
use aurora_os_live.Base.{
  ℕ, zero, suc, ◌+◌, ◌-◌, ◌%◌, ◌^◌, Bool, true, false, List, [], ◌∷◌, ◌++◌, ltb, leb, ◌==◌,
  if◌then◌else◌, get_or, set,
}

abbrev pub log_buf_size : ℕ
log_buf_size = 4096

pub record Log : Type 0 where
  pub log_ring : List ℕ
  pub log_wpos : ℕ

abbrev pub put_char : ℕ → Log → Log
put_char c s = record {
  log_ring = set s.log_ring (s.log_wpos % log_buf_size) c;
  log_wpos = (s.log_wpos + 1) % 2 ^ 32;
}

-- The loop of `log_ring_write`.
unfoldable pub put_chars : List ℕ → Log → Log
put_chars [] s = s
put_chars (c ∷ cs) s = put_chars cs (put_char c s)

abbrev pub terminate : Log → Log
terminate s = record s { log_ring = set s.log_ring (s.log_wpos % log_buf_size) 0 }

unfoldable pub log_ring_write : List ℕ → Log → Log
log_ring_write text s = terminate (put_chars text s)

abbrev pub total : Log → ℕ
total s = if ltb s.log_wpos log_buf_size then s.log_wpos else log_buf_size

abbrev pub start : Log → ℕ
start s = if leb log_buf_size s.log_wpos then s.log_wpos % log_buf_size else 0

-- The loop of `log_ring_read`, from byte `i` on, for `n` bytes.
unfoldable pub read_from : ℕ → ℕ → Log → List ℕ
read_from zero i s = []
read_from (suc n) i s = get_or s.log_ring ((start s + i) % log_buf_size) 0 ∷ read_from n (suc i) s

-- `log_ring_read` into a buffer of `size` bytes that is not NULL: what stands in it before the
-- terminator. The loop ends where `len < (int)size - 1` fails.
abbrev pub read_limit : ℕ → ℕ
read_limit size = if ltb (size % 2 ^ 32) (2 ^ 31) then size % 2 ^ 32 - 1 else 0

unfoldable pub log_ring_read : ℕ → Log → List ℕ
log_ring_read size s =
    if ltb size 2
    then []
    else read_from (if ltb (read_limit size) (total s) then read_limit size else total s) 0 s

-- The loops of `log_ring_dump`: `n` bytes from index `i` on.
unfoldable pub emit_from : ℕ → ℕ → Log → List ℕ
emit_from zero i s = []
emit_from (suc n) i s = get_or s.log_ring i 0 ∷ emit_from n (suc i) s

-- `log_ring_dump`: what it emits.
unfoldable pub log_ring_dump : Log → List ℕ
log_ring_dump s =
    if ltb s.log_wpos log_buf_size
    then emit_from s.log_wpos 0 s
    else (emit_from (log_buf_size - start s) (start s) s
        ++ emit_from (s.log_wpos % log_buf_size) 0 s)
