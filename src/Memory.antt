-- ===== src/Memory.antt =====
-- The physical page allocator of kernel/mem.c and kernel/mem.h, a buddy system. A page is its index in
-- `page_array`, and a free list, linked by `next`, is the list of its pages. The lock is the atomicity
-- of an operation; log output and the contents of the pages are left out.
pub mod Blocks
pub mod Ready
pub mod Fields
pub mod Split
pub mod Merge
pub mod Coalesce
pub mod Flags
pub mod Take
pub mod Alloc
pub mod Free
pub mod Boot
mod Tests
use Prim.Native.Nat.{bit_and, bit_or, bit_xor}
use aurora_os_live.Base.{
  ℕ, zero, suc, ◌+◌, ◌-◌, ◌*◌, ◌/◌, ◌%◌, ◌^◌, min, Bool, true, false, ◌&&◌, Option, none, some,
  List, [], ◌∷◌, ltb, leb, ◌==◌, if◌then◌else◌,
}
use aurora_os_live.Base.Bits.{bit_not}
use aurora_os_live.Vfs.{set_at}

abbrev pub max_order : ℕ
max_order = 10

abbrev pub page_size : ℕ
page_size = 4096

abbrev pub buddy_max_pages : ℕ
buddy_max_pages = 65536

abbrev pub phys_mem_base : ℕ
phys_mem_base = 0x100000

abbrev pub kernel_phys_max : ℕ
kernel_phys_max = 0x40000000

abbrev pub page_flag_free : ℕ
page_flag_free = 0x01

abbrev pub page_flag_reserved : ℕ
page_flag_reserved = 0x02

-- The fields of `struct page`, and the variables of the allocator.
pub record Buddy : Type 0 where
  pub flags : ℕ → ℕ
  pub order : ℕ → ℕ
  pub ref_count : ℕ → ℕ
  pub phys_addr : ℕ → ℕ
  pub free_area : ℕ → List ℕ
  pub total_phys_pages : ℕ
  pub stat_total_pages : ℕ
  pub stat_used_pages : ℕ

abbrev pub pfn_to_phys : ℕ → ℕ
pfn_to_phys pfn = phys_mem_base + pfn * page_size

-- `(uint64_t)-1` is `none`.
abbrev pub phys_to_pfn : ℕ → Option ℕ
phys_to_pfn pa = if ltb pa phys_mem_base then none else some ((pa - phys_mem_base) / page_size)

abbrev pub has_flag : ℕ → ℕ → Bool
has_flag f flag = if bit_and f flag == 0 then false else true

abbrev pub is_free : Buddy → ℕ → Bool
is_free s p = has_flag (s.flags p) page_flag_free

abbrev pub get_buddy : ℕ → ℕ → Option ℕ
get_buddy p order =
    if leb buddy_max_pages (bit_xor p (2 ^ order)) then none else some (bit_xor p (2 ^ order))

abbrev pub list_add : ℕ → ℕ → Buddy → Buddy
list_add o p s = record s { free_area = set_at s.free_area o (p ∷ s.free_area o) }

abbrev pub remove : ℕ → List ℕ → List ℕ
remove p [] = []
remove p (q ∷ qs) = if q == p then qs else q ∷ remove p qs

abbrev pub list_del : ℕ → ℕ → Buddy → Buddy
list_del o p s = record s { free_area = set_at s.free_area o (remove p (s.free_area o)) }

abbrev pub mark_free : ℕ → ℕ → Buddy → Buddy
mark_free o p s = record s {
  flags = set_at s.flags p page_flag_free;
  order = set_at s.order p o;
  phys_addr = set_at s.phys_addr p (pfn_to_phys p);
}

-- The loops over a range of pages, of which `n` are left from `pfn` on.
unfoldable pub reserve_from : ℕ → ℕ → Buddy → Buddy
reserve_from zero pfn s = s
reserve_from (suc n) pfn s =
    reserve_from n (suc pfn)
      (record s { flags = set_at s.flags pfn (bit_or (s.flags pfn) page_flag_reserved) })

abbrev pub make_available : ℕ → Buddy → Buddy
make_available pfn s = record (list_add 0 pfn (mark_free 0 pfn s)) {
  ref_count = set_at s.ref_count pfn 0;
  stat_total_pages = (s.stat_total_pages + 1) % 2 ^ 64;
}

unfoldable pub available_from : ℕ → ℕ → Buddy → Buddy
available_from zero pfn s = s
available_from (suc n) pfn s = elim (has_flag (s.flags pfn) page_flag_reserved) [
  | true ↦ available_from n (suc pfn) s
  | false ↦ available_from n (suc pfn) (make_available pfn s)
]

unfoldable pub buddy_mark_reserved : ℕ → ℕ → Buddy → Buddy
buddy_mark_reserved start end s =
    if leb buddy_max_pages start then s else reserve_from (min end buddy_max_pages - start) start s

unfoldable pub buddy_mark_available : ℕ → ℕ → Buddy → Buddy
buddy_mark_available start end s =
    if leb buddy_max_pages start
    then s
    else available_from (min end buddy_max_pages - start) start s

-- The two halves of block `p`, of order `k + 1` and out of its list.
abbrev pub halves : ℕ → ℕ → Buddy → Buddy
halves k p s = list_add k (p + 2 ^ k) (list_add k p (mark_free k (p + 2 ^ k) (mark_free k p s)))

unfoldable pub buddy_split : ℕ → Buddy → Buddy × Option ℕ
buddy_split zero s = (s, none)
buddy_split (suc k) s = if ltb max_order (suc k) then (s, none) else elim (s.free_area (suc k)) [
  | [] ↦ (s, none)
  | p ∷ rest ↦ (halves k p (list_del (suc k) p s), some p)
]

abbrev pub join : ℕ → ℕ → ℕ → Buddy → Buddy
join k p b s =
    let base = min p b in
    list_add (suc k) base (mark_free (suc k) base (list_del k b (list_del k p s)))

-- `buddy_merge`, where `n` is MAX_ORDER less the order of the page.
unfoldable pub merge_up : ℕ → ℕ → Buddy → Buddy × ℕ
merge_up zero p s = (s, p)
merge_up (suc n) p s = elim (get_buddy p (s.order p)) [
  | none ↦ (s, p)
  | some b ↦ elim (is_free s b && (s.order b == s.order p)) [
    | false ↦ (s, p)
    | true ↦ merge_up n (min p b) (join (s.order p) p b s)
  ]
]

unfoldable pub buddy_merge : ℕ → Buddy → Buddy × ℕ
buddy_merge p s = merge_up (max_order - s.order p) p s

-- The search for a list that is not empty, `n` orders from `o` on.
unfoldable pub find_order : ℕ → ℕ → Buddy → ℕ
find_order zero o s = o
find_order (suc n) o s = elim (s.free_area o) [ [] ↦ find_order n (suc o) s | p ∷ rest ↦ o ]

-- `n` splits, from order `order + n` down.
unfoldable pub split_down : ℕ → ℕ → Buddy → Buddy
split_down zero order s = s
split_down (suc n) order s = split_down n order (buddy_split (order + suc n) s).0

abbrev pub take_page : ℕ → ℕ → Buddy → Buddy
take_page o p s = record (list_del o p s) {
  flags = set_at s.flags p (bit_and (s.flags p) (bit_not 32 page_flag_free));
  order = set_at s.order p o;
  ref_count = set_at s.ref_count p 1;
  stat_used_pages = (s.stat_used_pages + 2 ^ o) % 2 ^ 64;
}

abbrev pub give_page : ℕ → ℕ → Buddy → Buddy
give_page o p s = record (list_add o p s) {
  flags = set_at s.flags p (bit_or (s.flags p) page_flag_free);
  order = set_at s.order p o;
  ref_count = set_at s.ref_count p 0;
  stat_used_pages = if leb (2 ^ o) s.stat_used_pages then s.stat_used_pages - 2 ^ o else 0;
}

-- The end of `alloc_pages`, from the first page of the list on; NULL is 0.
unfoldable pub take_first : ℕ → Buddy → Buddy × ℕ
take_first o s = elim (s.free_area o) [
  | [] ↦ (s, 0)
  | p ∷ rest ↦
      if leb kernel_phys_max (s.phys_addr p)
      then (give_page o p (take_page o p s), 0)
      else (take_page o p s, s.phys_addr p)
]

unfoldable pub alloc_pages : ℕ → Buddy → Buddy × ℕ
alloc_pages o s =
    if ltb max_order o
    then (s, 0)
    else (let found = find_order (suc max_order - o) o s in
        if ltb max_order found then (s, 0) else take_first o (split_down (found - o) o s))

-- `free_pages`, once the page is found.
unfoldable pub free_found : ℕ → ℕ → Buddy → Buddy
free_found p o s =
    if has_flag (s.flags p) page_flag_reserved
    then s
    else if has_flag (s.flags p) page_flag_free
    then s
    else (buddy_merge p (give_page o p s)).0

unfoldable pub free_pages : ℕ → ℕ → Buddy → Buddy
free_pages ptr o s = if ptr == 0 then s else if ltb max_order o then s else elim (phys_to_pfn ptr) [
  | none ↦ s
  | some pfn ↦ if leb s.total_phys_pages pfn then s else free_found pfn o s
]

abbrev pub alloc_page : Buddy → Buddy × ℕ
alloc_page s = alloc_pages 0 s

abbrev pub free_page : ℕ → Buddy → Buddy
free_page page s = free_pages page 0 s
