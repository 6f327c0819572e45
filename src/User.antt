-- ===== src/User.antt =====
-- User memory, kernel/include/userspace.h and user_page_present of kernel/pagetable.c: bytes at virtual
-- addresses, the page tables, and the copies between user and kernel memory.
pub mod Words
pub mod Mapped
mod Tests
use Prim.Native.Nat.{bit_and}
use aurora_os_live.Base.{
  ℕ, zero, suc, ◌+◌, ◌-◌, ◌*◌, ◌/◌, ◌%◌, ◌^◌, Bool, true, false, ◌&&◌, Option, none, some, List, [],
  ◌∷◌, ltb, leb, ◌==◌, if◌then◌else◌,
}

-- `memory` holds what user addresses read as; `entry table i` is entry i of the page table at a
-- physical address; `cr3` is the register.
pub record Space : Type 0 where
  pub memory : ℕ → ℕ
  pub entry : ℕ → ℕ → ℕ
  pub cr3 : ℕ

abbrev pub user_addr_max : ℕ
user_addr_max = 0x00007FFFFFFFFFFF

unfoldable pub user_addr_range_ok : ℕ → ℕ → Bool
user_addr_range_ok addr size =
    let end = (addr + size) % 2 ^ 64 in
    if ltb end addr then false else if ltb user_addr_max end then false else true

-- Bits 0 and 7 of an entry, and the address that it holds.
abbrev pub is_present : ℕ → Bool
is_present e = if bit_and e 0x1 == 0 then false else true

abbrev pub is_huge : ℕ → Bool
is_huge e = if bit_and e 0x80 == 0 then false else true

abbrev pub address : ℕ → ℕ
address e = bit_and e 0x000FFFFFFFFFF000

unfoldable pub user_page_present : Space → ℕ → Bool
user_page_present sp vaddr =
    let pml4e = sp.entry sp.cr3 (vaddr / 2 ^ 39 % 512) in
    let pdpte = sp.entry (address pml4e) (vaddr / 2 ^ 30 % 512) in
    let pde = sp.entry (address pdpte) (vaddr / 2 ^ 21 % 512) in
    let pte = sp.entry (address pde) (vaddr / 2 ^ 12 % 512) in
    if ltb user_addr_max vaddr
    then false
    else if is_present pml4e
    then (if is_present pdpte
        then (if is_present pde then (if is_huge pde then true else is_present pte) else false)
        else false)
    else false

-- The loop over the pages up to `end`, with fuel.
unfoldable pub pages_mapped : ℕ → Space → ℕ → ℕ → Bool
pages_mapped zero sp page end = true
pages_mapped (suc fuel) sp page end = elim (ltb page end && user_page_present sp page) [
  | true ↦ pages_mapped fuel sp (page + 0x1000) end
  | false ↦ leb end page
]

-- At most one round for each byte, and one for the start of the first page.
unfoldable pub user_pages_mapped : Space → ℕ → ℕ → Bool
user_pages_mapped sp addr size =
    pages_mapped (size + 1) sp (addr / 2 ^ 12 * 2 ^ 12) ((addr + size) % 2 ^ 64)

-- Bytes from an address on.
unfoldable pub load_bytes : (ℕ → ℕ) → ℕ → ℕ → List ℕ
load_bytes m a zero = []
load_bytes m a (suc n) = m a ∷ load_bytes m (a + 1) n

unfoldable pub store_bytes : (ℕ → ℕ) → ℕ → List ℕ → ℕ → ℕ
store_bytes m a [] = m
store_bytes m a (b ∷ bs) = store_bytes (λ x. if x == a then b else m x) (a + 1) bs

unfoldable pub may_copy : Space → ℕ → ℕ → Bool
may_copy sp addr size =
    if addr == 0
    then false
    else if user_addr_range_ok addr size
    then user_pages_mapped sp addr size
    else false

-- `copy_from_user`, to a kernel buffer that is not NULL; a failure is `none`.
pub copy_from_user : Space → ℕ → ℕ → Option (List ℕ)
copy_from_user sp src size =
    if may_copy sp src size then some (load_bytes sp.memory src size) else none

-- `copy_to_user`, of the bytes of a kernel buffer.
pub copy_to_user : Space → ℕ → ℕ → List ℕ → Option Space
copy_to_user sp dst size bytes =
    if may_copy sp dst size
    then some (record sp { memory = store_bytes sp.memory dst bytes })
    else none
