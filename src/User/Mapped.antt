-- ===== src/User/Mapped.antt =====
-- What the checks before a copy ensure (kernel/include/userspace.h).
use aurora_os_live.Base.{
  ℕ, zero, suc, ◌+◌, ◌-◌, Bool, ◌*◌, ◌/◌, ◌%◌, ◌^◌, ◌≤◌, ◌<◌, ◌≡◌, refl, ap, ap₂, ◌⊎◌, sym, ◌∙◌,
  inl, inr, true, false, ◌&&◌, ltb, leb, Bool-cases, arith,
}
use aurora_os_live.User.{
  Space, user_addr_max, user_addr_range_ok, user_page_present, pages_mapped, user_pages_mapped,
  may_copy, is_present, is_huge, address,
}
use Prim.Native.Nat.{bit_and}
use mathlib.Core.Path.{subst}
use aurora_os_live.Base.Bits.{bit_test, bit_test-le, bit_and-pow}

-- The entries of the four page tables on the way to a byte.
module _ (sp : Space) (x : ℕ) where
  abbrev pub pml4_entry : ℕ
  pml4_entry = sp.entry sp.cr3 (x / 2 ^ 39 % 512)

  abbrev pub pdpt_entry : ℕ
  pdpt_entry = sp.entry (address pml4_entry) (x / 2 ^ 30 % 512)

  abbrev pub pd_entry : ℕ
  pd_entry = sp.entry (address pdpt_entry) (x / 2 ^ 21 % 512)

  abbrev pub pt_entry : ℕ
  pt_entry = sp.entry (address pd_entry) (x / 2 ^ 12 % 512)

-- All are present, but the last where the page is of 2 MiB.
pub record IsTranslated (sp : Space) (x : ℕ) : Type 0 where
  pub pml4 : bit_test (pml4_entry sp x) 0 ≡ 1
  pub pdpt : bit_test (pdpt_entry sp x) 0 ≡ 1
  pub pd : bit_test (pd_entry sp x) 0 ≡ 1
  pub page : (bit_test (pd_entry sp x) 7 ≡ 1) ⊎ (bit_test (pt_entry sp x) 0 ≡ 1)

present_bit : (e : ℕ) → is_present e ≡ true → bit_test e 0 ≡ 1
present_bit e h =
    let one : bit_and e 0x1 ≡ bit_test e 0 * 2 ^ 0 = bit_and-pow e 0 in
    ground (arith, one, bit_test-le e 0)

huge_bit : (e : ℕ) → is_huge e ≡ true → bit_test e 7 ≡ 1
huge_bit e h =
    let bit : bit_and e 0x80 ≡ bit_test e 7 * 2 ^ 7 = bit_and-pow e 7 in
    ground (arith, bit, bit_test-le e 7)

user_page_present-IsTranslated :
    (sp : Space) (x : ℕ) → user_page_present sp x ≡ true → IsTranslated sp x
unfolding user_page_present
user_page_present-IsTranslated sp x h =
    let below : ltb user_addr_max x ≡ false = ground arith in
    let first : is_present (pml4_entry sp x) ≡ true = ground arith in
    let second : is_present (pdpt_entry sp x) ≡ true = ground arith in
    let third : is_present (pd_entry sp x) ≡ true = ground arith in
    record {
      pml4 = present_bit (pml4_entry sp x) first;
      pdpt = present_bit (pdpt_entry sp x) second;
      pd = present_bit (pd_entry sp x) third;
      page = elim (Bool-cases (is_huge (pd_entry sp x))) [
        | inl huge ↦ inl (huge_bit (pd_entry sp x) huge)
        | inr small ↦ inr (present_bit (pt_entry sp x) (ground arith))
      ];
    }

-- The bytes of a page have the same way.
whole_page : (sp : Space) (x : ℕ) → IsTranslated sp (x / 2 ^ 12 * 2 ^ 12) → IsTranslated sp x
whole_page sp x m =
    let e1 : x / 2 ^ 12 * 2 ^ 12 / 2 ^ 39 % 512 ≡ x / 2 ^ 39 % 512 = omega arith in
    let e2 : x / 2 ^ 12 * 2 ^ 12 / 2 ^ 30 % 512 ≡ x / 2 ^ 30 % 512 = omega arith in
    let e3 : x / 2 ^ 12 * 2 ^ 12 / 2 ^ 21 % 512 ≡ x / 2 ^ 21 % 512 = omega arith in
    let e4 : x / 2 ^ 12 * 2 ^ 12 / 2 ^ 12 % 512 ≡ x / 2 ^ 12 % 512 = omega arith in
    let y = x / 2 ^ 12 * 2 ^ 12 in
    let f1 : pml4_entry sp y ≡ pml4_entry sp x = ap (sp.entry sp.cr3) e1 in
    let f2 : pdpt_entry sp y ≡ pdpt_entry sp x = ap₂ (λ t i. sp.entry (address t) i) f1 e2 in
    let f3 : pd_entry sp y ≡ pd_entry sp x = ap₂ (λ t i. sp.entry (address t) i) f2 e3 in
    let f4 : pt_entry sp y ≡ pt_entry sp x = ap₂ (λ t i. sp.entry (address t) i) f3 e4 in
    record {
      pml4 = subst (λ e. bit_test e 0 ≡ 1) f1 m.pml4;
      pdpt = subst (λ e. bit_test e 0 ≡ 1) f2 m.pdpt;
      pd = subst (λ e. bit_test e 0 ≡ 1) f3 m.pd;
      page = elim m.page [
        | inl huge ↦ inl (subst (λ e. bit_test e 7 ≡ 1) f3 huge)
        | inr small ↦ inr (subst (λ e. bit_test e 0 ≡ 1) f4 small)
      ];
    }

and_right : (a b : Bool) → (a && b) ≡ true → b ≡ true
and_right true b h = h
and_right false b h = cc

pages_mapped_sound :
    (fuel : ℕ) (sp : Space) (page end k : ℕ)
    → pages_mapped fuel sp page end ≡ true
    → end ≤ page + 0x1000 * fuel
    → page + 0x1000 * k < end
    → user_page_present sp (page + 0x1000 * k) ≡ true
unfolding pages_mapped
pages_mapped_sound zero sp page end k h e b = absurd (omega arith)
pages_mapped_sound (suc fuel) sp page end zero h e b =
    elim (Bool-cases (ltb page end && user_page_present sp page)) [
      | inl z ↦
          let at : page + 0x1000 * 0 ≡ page = omega arith in
          ap (user_page_present sp) at ∙ and_right (ltb page end) _ z
      | inr z ↦
          let out : leb end page ≡ true = sym (simp (pages_mapped, z) refl) ∙ h in
          absurd (ground arith)
    ]
pages_mapped_sound (suc fuel) sp page end (suc k) h e b =
    elim (Bool-cases (ltb page end && user_page_present sp page)) [
      | inl z ↦
          let rest : pages_mapped fuel sp (page + 0x1000) end ≡ true =
            sym (simp (pages_mapped, z) refl) ∙ h in
          ap (user_page_present sp) (omega arith)
          ∙ pages_mapped_sound fuel sp (page + 0x1000) end k rest (omega arith) (omega arith)
      | inr z ↦
          let out : leb end page ≡ true = sym (simp (pages_mapped, z) refl) ∙ h in
          absurd (ground arith)
    ]

may_copy_parts :
    (sp : Space) (addr size : ℕ)
    → may_copy sp addr size ≡ true
    → (user_addr_range_ok addr size ≡ true) × (user_pages_mapped sp addr size ≡ true)
unfolding may_copy
may_copy_parts sp addr size h = ground arith

range_end :
    (addr size : ℕ)
    → user_addr_range_ok addr size ≡ true
    → addr < 2 ^ 64
    → size < 2 ^ 64
    → ((addr + size) % 2 ^ 64 ≡ addr + size) × (addr + size ≤ user_addr_max)
unfolding user_addr_range_ok
range_end addr size h a b = ground arith

-- Where the checks pass, every byte of the range is a user address in a page that is mapped: the entries
-- on its way through the page tables are present, the last but where the page is of 2 MiB; so the fuel of
-- the page loop is enough. The address and the size are 64-bit words.
pub may_copy_mapped :
    (sp : Space) (addr size x : ℕ)
    → may_copy sp addr size ≡ true
    → addr < 2 ^ 64
    → size < 2 ^ 64
    → addr ≤ x
    → x < addr + size
    → (x < user_addr_max) × (user_page_present sp (x / 2 ^ 12 * 2 ^ 12) ≡ true) × IsTranslated sp x
unfolding user_pages_mapped
may_copy_mapped sp addr size x h a b p q =
    let (range, pages) = may_copy_parts sp addr size h in
    let (no_wrap, low) = range_end addr size range a b in
    let start = addr / 2 ^ 12 * 2 ^ 12 in
    let k = x / 2 ^ 12 - addr / 2 ^ 12 in
    let mapped : pages_mapped (size + 1) sp start (addr + size) ≡ true =
      ap (pages_mapped (size + 1) sp start) (sym no_wrap) ∙ pages in
    let page : x / 2 ^ 12 * 2 ^ 12 ≡ start + 0x1000 * k = omega arith in
    let there : user_page_present sp (x / 2 ^ 12 * 2 ^ 12) ≡ true =
      ap (user_page_present sp) page
      ∙ pages_mapped_sound (size + 1) sp start (addr + size) k mapped (omega arith) (omega arith) in
    (
      omega arith,
      there,
      whole_page sp x (user_page_present-IsTranslated sp (x / 2 ^ 12 * 2 ^ 12) there),
    )
