-- ===== src/Pipe/Bytes.antt =====
-- The ring of kernel/pipe.c as a queue of bytes: what its copies read and write.
use aurora_os_live.Base.{
  ℕ, ◌+◌, ◌-◌, ◌%◌, ◌^◌, ◌≤◌, ◌<◌, ◌≡◌, ap, ◌∙◌, sym, List, ◌++◌, arith, length, get_or, take, drop,
  tabulate, length-tabulate, get_or-tabulate, get_or-take, get_or-drop, get_or-append_left,
  get_or-append_right, list_ext, length-take, length-drop, length-append,
}
use native.Mathlib.Decide.{dec_lt, dec_le}
use aurora_os_live.Pipe.{Ring, buf_size, copy_out, take_bytes}

-- The ring's representation invariant.
pub record IsRing (r : Ring) : Type 0 where
  pub size : length r.buf ≡ buf_size
  pub head_in : r.head < buf_size
  pub count_in : r.count ≤ buf_size
  pub tail_at : r.tail ≡ (r.head + r.count) % buf_size

-- The byte that stands `i` places behind the oldest one.
abbrev pub byte_at : Ring → ℕ → ℕ
byte_at r i = get_or r.buf ((r.head + i) % buf_size) 0

-- The bytes in the pipe, oldest first.
abbrev pub contents : Ring → List ℕ
contents r = tabulate (byte_at r) r.count

pub length-contents : (r : Ring) → length (contents r) ≡ r.count
length-contents r = length-tabulate (byte_at r) r.count

-- The copy out of the ring, in one piece or two, reads the bytes in order.
copy_out-length : {r : Ring} (n : ℕ) → IsRing r → n ≤ r.count → length (copy_out n r) ≡ n
unfolding copy_out
copy_out-length {r} n v h = ground (
  arith,
  v.size,
  length-append (take (buf_size - r.head) (drop r.head r.buf))
      (take (n - (buf_size - r.head)) r.buf),
  length-take (buf_size - r.head) (drop r.head r.buf),
  length-take n (drop r.head r.buf),
  length-drop r.head r.buf,
  length-take (n - (buf_size - r.head)) r.buf,
)

copy_out_one :
    {r : Ring} (n : ℕ)
    → IsRing r
    → r.head + n ≤ buf_size
    → copy_out n r ≡ take n (drop r.head r.buf)
unfolding copy_out
copy_out_one {r} n v h = ground (arith)

copy_out_two :
    {r : Ring} (n : ℕ)
    → IsRing r
    → buf_size < r.head + n
    → copy_out n r
      ≡ take (buf_size - r.head) (drop r.head r.buf) ++ take (n - (buf_size - r.head)) r.buf
unfolding copy_out
copy_out_two {r} n v h = ground (arith)

pub byte_at_low :
    {r : Ring} (i : ℕ)
    → IsRing r
    → r.head + i < buf_size
    → byte_at r i ≡ get_or r.buf (r.head + i) 0
byte_at_low {r} i v h =
    let e : (r.head + i) % buf_size ≡ r.head + i = omega arith in ap (λ k. get_or r.buf k 0) e

byte_at_high :
    {r : Ring} (i : ℕ)
    → IsRing r
    → buf_size ≤ r.head + i
    → i < buf_size
    → byte_at r i ≡ get_or r.buf (i - (buf_size - r.head)) 0
byte_at_high {r} i v h b =
    let e : (r.head + i) % buf_size ≡ i - (buf_size - r.head) = omega arith in
    ap (λ k. get_or r.buf k 0) e

get_or-copy_out_one :
    {r : Ring} (n i : ℕ)
    → IsRing r
    → r.head + n ≤ buf_size
    → i < n
    → get_or (copy_out n r) i 0 ≡ byte_at r i
get_or-copy_out_one {r} n i v h b =
    ap (λ l. get_or l i 0) (copy_out_one n v h)
    ∙ get_or-take n i (drop r.head r.buf) 0 b
    ∙ get_or-drop r.head i r.buf 0
    ∙ sym (byte_at_low i v (omega arith))

-- A list split at a length that is known.
get_or-append_at :
    (xs ys : List ℕ) (m i : ℕ) → length xs ≡ m → m ≤ i → get_or (xs ++ ys) i 0 ≡ get_or ys (i - m) 0
get_or-append_at xs ys m i e h =
    let k : i ≡ length xs + (i - m) = omega arith in
    ap (λ j. get_or (xs ++ ys) j 0) k ∙ get_or-append_right xs ys (i - m) 0

get_or-copy_out_two :
    {r : Ring} (n i : ℕ)
    → IsRing r
    → buf_size < r.head + n
    → n ≤ buf_size
    → i < n
    → get_or (copy_out n r) i 0 ≡ byte_at r i
get_or-copy_out_two {r} n i v h c b = elim (dec_lt i (buf_size - r.head)) [
  | yes low ↦
      ap (λ l. get_or l i 0) (copy_out_two n v h)
      ∙ get_or-append_left front back i 0 (omega (arith, front_length))
      ∙ get_or-take (buf_size - r.head) i (drop r.head r.buf) 0 low
      ∙ get_or-drop r.head i r.buf 0
      ∙ sym (byte_at_low i v (omega arith))
  | no high ↦
      ap (λ l. get_or l i 0) (copy_out_two n v h)
      ∙ get_or-append_at front back (buf_size - r.head) i front_length (omega arith)
      ∙ get_or-take (n - (buf_size - r.head)) (i - (buf_size - r.head)) r.buf 0 (omega arith)
      ∙ sym (byte_at_high i v (omega arith) (omega arith))
]
  where
    front : List ℕ
    front = take (buf_size - r.head) (drop r.head r.buf)

    back : List ℕ
    back = take (n - (buf_size - r.head)) r.buf

    front_length : length front ≡ buf_size - r.head
    front_length = omega (
      arith,
      v.size,
      length-take (buf_size - r.head) (drop r.head r.buf),
      length-drop r.head r.buf,
    )

get_or-copy_out :
    {r : Ring} (n i : ℕ) → IsRing r → n ≤ r.count → i < n → get_or (copy_out n r) i 0 ≡ byte_at r i
get_or-copy_out {r} n i v h b = elim (dec_le (r.head + n) buf_size) [
  | yes one ↦ get_or-copy_out_one n i v one b
  | no two ↦ get_or-copy_out_two n i v (omega arith) (omega (arith, v.count_in)) b
]

pub get_or-contents : (r : Ring) (i : ℕ) → i < r.count → get_or (contents r) i 0 ≡ byte_at r i
get_or-contents r i h = get_or-tabulate (byte_at r) r.count i 0 h

copy_out-eq-take : {r : Ring} (n : ℕ) → IsRing r → n ≤ r.count → copy_out n r ≡ take n (contents r)
copy_out-eq-take {r} n v h =
    list_ext _ _ 0
      (omega (arith, copy_out-length n v h, length-take n (contents r), length-contents r))
      (λ i b.
        let low : i < n = omega (arith, copy_out-length n v h) in
        get_or-copy_out n i v h low
        ∙ sym (get_or-contents r i (omega arith))
        ∙ sym (get_or-take n i (contents r) 0 low))

-- The same byte stands at one index before and after a read.
byte_at-take_bytes :
    {r : Ring} (n i : ℕ) → IsRing r → n ≤ r.count → byte_at (take_bytes n r).1 i ≡ byte_at r (n + i)
unfolding take_bytes
byte_at-take_bytes {r} n i v h =
    let e : ((r.head + n) % 2 ^ 64 % buf_size + i) % buf_size ≡ (r.head + (n + i)) % buf_size =
      omega (arith, v.head_in, v.count_in) in
    ap (λ k. get_or r.buf k 0) e

count-take_bytes :
    {r : Ring} (n : ℕ) → IsRing r → n ≤ r.count → (take_bytes n r).1.count ≡ r.count - n
unfolding take_bytes
count-take_bytes {r} n v h = omega (arith, v.count_in)

contents-take_bytes :
    {r : Ring} (n : ℕ) → IsRing r → n ≤ r.count → contents (take_bytes n r).1 ≡ drop n (contents r)
contents-take_bytes {r} n v h =
    list_ext _ _ 0
      (omega (
        arith,
        length-contents (take_bytes n r).1,
        count-take_bytes n v h,
        length-drop n (contents r),
        length-contents r,
      ))
      (λ i b.
        let low : i < r.count - n =
          omega (arith, length-contents (take_bytes n r).1, count-take_bytes n v h) in
        get_or-contents (take_bytes n r).1 i (omega (arith, count-take_bytes n v h))
        ∙ byte_at-take_bytes n i v h
        ∙ sym (get_or-contents r (n + i) (omega arith))
        ∙ sym (get_or-drop n i (contents r) 0))

-- Reading `n` bytes takes them off the front of the queue, in order, and leaves a sound ring.
pub take_bytes_lem :
    {r : Ring} (n : ℕ)
    → IsRing r
    → n ≤ r.count
    → let (bytes, r') = take_bytes n r in
      IsRing r' × (bytes ≡ take n (contents r)) × (contents r' ≡ drop n (contents r))
unfolding take_bytes
take_bytes_lem {r} n v h = (
  record {
    size = v.size;
    head_in = omega arith;
    count_in = omega (arith, v.count_in);
    tail_at = omega (arith, v.tail_at, v.count_in, v.head_in);
  },
  copy_out-eq-take n v h,
  contents-take_bytes n v h,
)
