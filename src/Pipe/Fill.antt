-- ===== src/Pipe/Fill.antt =====
-- The ring of kernel/pipe.c as a queue of bytes: what a write adds.
use aurora_os_live.Base.{
  ◌⊎◌, ap₂, ℕ, ◌+◌, ◌-◌, ◌%◌, ◌≤◌, ◌<◌, ◌≡◌, ap, ◌∙◌, sym, List, ◌++◌, arith, inl, inr, length,
  get_or, take, drop, memcpy, length-memcpy, get_or-memcpy, get_or-memcpy_below,
  get_or-memcpy_above, get_or-take, get_or-drop, get_or-append_left, get_or-append_right, list_ext,
  length-take, length-drop, length-append, take_all,
}
use native.Mathlib.Decide.{dec_lt, dec_le}
use aurora_os_live.Pipe.{Ring, buf_size, first_chunk, copy_in, put_bytes}
use aurora_os_live.Pipe.Bytes.{IsRing, byte_at, contents, length-contents, get_or-contents}

length-copy_in : (src : List ℕ) (r : Ring) → length (copy_in src r) ≡ length r.buf
unfolding copy_in
length-copy_in src r = ground (
  arith,
  length-memcpy (take (first_chunk r.tail (length src)) src) r.buf r.tail,
  length-memcpy (drop (first_chunk r.tail (length src)) src)
      (memcpy r.buf r.tail (take (first_chunk r.tail (length src)) src)) 0,
)

-- Writing keeps the ring sound.
put_bytes-IsRing :
    {r : Ring} (src : List ℕ)
    → IsRing r
    → r.count + length src ≤ buf_size
    → IsRing (put_bytes src r)
unfolding put_bytes
put_bytes-IsRing {r} src v h = record {
  size = length-copy_in src r ∙ v.size;
  head_in = v.head_in;
  count_in = omega arith;
  tail_at = omega (arith, v.tail_at, v.head_in);
}

copy_in_one :
    {r : Ring} (src : List ℕ)
    → IsRing r
    → r.tail + length src ≤ buf_size
    → copy_in src r ≡ memcpy r.buf r.tail src
unfolding copy_in
copy_in_one {r} src v h = ground (arith, take_all (length src) src)

copy_in_two :
    {r : Ring} (src : List ℕ)
    → IsRing r
    → length src ≤ buf_size
    → buf_size < r.tail + length src
    → copy_in src r
      ≡ memcpy (memcpy r.buf r.tail (take (buf_size - r.tail) src)) 0 (drop (buf_size - r.tail) src)
unfolding copy_in
copy_in_two {r} src v b h = ground (arith, v.tail_at)

-- A cell that a write does not reach keeps its byte.
copy_in_old :
    {r : Ring} (src : List ℕ) (k : ℕ)
    → IsRing r
    → length src ≤ buf_size
    → (k < r.tail) ⊎ (r.tail + length src ≤ k)
    → r.tail + length src ≤ buf_size + k
    → k < buf_size
    → get_or (copy_in src r) k 0 ≡ get_or r.buf k 0
copy_in_old {r} src k v b side wrap h = elim (dec_le (r.tail + length src) buf_size) [
  | yes one ↦ ap (λ l. get_or l k 0) (copy_in_one src v one) ∙ kept_one side
  | no two ↦
      ap (λ l. get_or l k 0) (copy_in_two src v b (omega arith))
      ∙ get_or-memcpy_above back middle 0 k 0 (omega (arith, length-drop (buf_size - r.tail) src))
      ∙ get_or-memcpy_below front r.buf r.tail k 0 (ground arith)
]
  where
    front : List ℕ
    front = take (buf_size - r.tail) src

    back : List ℕ
    back = drop (buf_size - r.tail) src

    middle : List ℕ
    middle = memcpy r.buf r.tail front

    kept_one :
        (k < r.tail) ⊎ (r.tail + length src ≤ k)
        → get_or (memcpy r.buf r.tail src) k 0 ≡ get_or r.buf k 0
    kept_one (inl low) = get_or-memcpy_below src r.buf r.tail k 0 low
    kept_one (inr high) = get_or-memcpy_above src r.buf r.tail k 0 high

-- The `j`th byte written stands `j` cells behind the tail.
copy_in_new :
    {r : Ring} (src : List ℕ) (j : ℕ)
    → IsRing r
    → length src ≤ buf_size
    → j < length src
    → get_or (copy_in src r) ((r.tail + j) % buf_size) 0 ≡ get_or src j 0
copy_in_new {r} src j v b h = elim (dec_le (r.tail + length src) buf_size) [
  | yes one ↦
      let e : (r.tail + j) % buf_size ≡ r.tail + j = omega arith in
      ap₂ (λ l k. get_or l k 0) (copy_in_one src v one) e
      ∙ get_or-memcpy src r.buf r.tail j 0 h (omega (arith, v.size))
  | no two ↦
      ap (λ l. get_or l ((r.tail + j) % buf_size) 0) (copy_in_two src v b (omega arith))
      ∙ wrapped (omega arith)
]
  where
    front : List ℕ
    front = take (buf_size - r.tail) src

    back : List ℕ
    back = drop (buf_size - r.tail) src

    middle : List ℕ
    middle = memcpy r.buf r.tail front

    wrapped :
        buf_size < r.tail + length src
        → get_or (memcpy middle 0 back) ((r.tail + j) % buf_size) 0 ≡ get_or src j 0
    wrapped c = elim (dec_lt (r.tail + j) buf_size) [
      | yes low ↦
          let e : (r.tail + j) % buf_size ≡ r.tail + j = omega arith in
          ap (λ k. get_or (memcpy middle 0 back) k 0) e
          ∙ get_or-memcpy_above back middle 0 (r.tail + j) 0
              (omega (arith, length-drop (buf_size - r.tail) src, v.tail_at))
          ∙ get_or-memcpy front r.buf r.tail j 0
              (omega (arith, length-take (buf_size - r.tail) src))
              (omega (arith, length-take (buf_size - r.tail) src, v.size))
          ∙ get_or-take (buf_size - r.tail) j src 0 (omega arith)
      | no high ↦
          let e : (r.tail + j) % buf_size ≡ 0 + (j - (buf_size - r.tail)) =
            omega (arith, v.tail_at) in
          let e' : buf_size - r.tail + (j - (buf_size - r.tail)) ≡ j = omega (arith, v.tail_at) in
          ap (λ k. get_or (memcpy middle 0 back) k 0) e
          ∙ get_or-memcpy back middle 0 (j - (buf_size - r.tail)) 0
              (omega (arith, length-drop (buf_size - r.tail) src))
              (omega (
                arith,
                length-drop (buf_size - r.tail) src,
                length-memcpy front r.buf r.tail,
                v.size,
                v.tail_at,
              ))
          ∙ get_or-drop (buf_size - r.tail) (j - (buf_size - r.tail)) src 0
          ∙ ap (λ k. get_or src k 0) e'
    ]

byte_at-put_bytes_old :
    {r : Ring} (src : List ℕ) (i : ℕ)
    → IsRing r
    → r.count + length src ≤ buf_size
    → i < r.count
    → byte_at (put_bytes src r) i ≡ byte_at r i
unfolding put_bytes
byte_at-put_bytes_old {r} src i v h b =
    copy_in_old src ((r.head + i) % buf_size) v (omega arith) (ground (arith, v.tail_at, v.head_in))
      (omega (arith, v.tail_at, v.head_in)) (omega arith)

byte_at-put_bytes_new :
    {r : Ring} (src : List ℕ) (j : ℕ)
    → IsRing r
    → r.count + length src ≤ buf_size
    → j < length src
    → byte_at (put_bytes src r) (r.count + j) ≡ get_or src j 0
unfolding put_bytes
byte_at-put_bytes_new {r} src j v h b =
    let e : (r.head + (r.count + j)) % buf_size ≡ (r.tail + j) % buf_size =
      omega (arith, v.tail_at) in
    ap (λ k. get_or (copy_in src r) k 0) e ∙ copy_in_new src j v (omega arith) b

count-put_bytes :
    (r : Ring) (src : List ℕ)
    → r.count + length src ≤ buf_size
    → (put_bytes src r).count ≡ r.count + length src
unfolding put_bytes
count-put_bytes r src h = omega arith

contents-put_bytes_at :
    {r : Ring} (src : List ℕ) (i : ℕ)
    → IsRing r
    → r.count + length src ≤ buf_size
    → i < r.count + length src
    → byte_at (put_bytes src r) i ≡ get_or (contents r ++ src) i 0
contents-put_bytes_at {r} src i v h b = elim (dec_lt i r.count) [
  | yes low ↦
      byte_at-put_bytes_old src i v h low
      ∙ sym (
          get_or-append_left (contents r) src i 0 (omega (arith, length-contents r))
          ∙ get_or-contents r i low)
  | no high ↦
      let e : i ≡ r.count + (i - r.count) = omega arith in
      let e' : i ≡ length (contents r) + (i - r.count) = omega (arith, length-contents r) in
      ap (byte_at (put_bytes src r)) e
      ∙ byte_at-put_bytes_new src (i - r.count) v h (omega arith)
      ∙ sym (
          ap (λ k. get_or (contents r ++ src) k 0) e'
          ∙ get_or-append_right (contents r) src (i - r.count) 0)
]

-- Writing bytes that fit adds them to the end of the queue, in order, and leaves a sound ring.
pub put_bytes_lem :
    {r : Ring} (src : List ℕ)
    → IsRing r
    → r.count + length src ≤ buf_size
    → IsRing (put_bytes src r) × (contents (put_bytes src r) ≡ contents r ++ src)
put_bytes_lem {r} src v h = (
  put_bytes-IsRing src v h,
  list_ext _ _ 0
      (omega (
        arith,
        length-contents (put_bytes src r),
        count-put_bytes r src h,
        length-append (contents r) src,
        length-contents r,
      ))
      (λ i b.
        let low : i < r.count + length src =
          omega (arith, length-contents (put_bytes src r), count-put_bytes r src h) in
        get_or-contents (put_bytes src r) i (omega (arith, count-put_bytes r src h))
        ∙ contents-put_bytes_at src i v h low),
)
