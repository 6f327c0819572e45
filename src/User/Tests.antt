-- ===== src/User/Tests.antt =====
-- A space with one huge page, and the theorem there.
use aurora_os_live.Base.{◌<◌, ◌/◌, ◌*◌, ◌^◌, ◌≡◌, refl, true, arith}
use aurora_os_live.User.{
  Space, user_addr_max, user_addr_range_ok, user_page_present, pages_mapped, user_pages_mapped,
  may_copy,
}
use aurora_os_live.User.Mapped.{IsTranslated, may_copy_mapped}

abbrev space : Space
space = record { memory = λ x. 0; entry = λ t i. 0x81; cr3 = 0 }

space_mapped : may_copy space 0x1ff8 16 ≡ true
unfolding may_copy user_addr_range_ok user_pages_mapped pages_mapped user_page_present
space_mapped = refl

may_copy_mapped_example :
    (0x2003 < user_addr_max)
    × (user_page_present space (0x2003 / 2 ^ 12 * 2 ^ 12) ≡ true)
    × IsTranslated space 0x2003
may_copy_mapped_example =
    may_copy_mapped space 0x1ff8 16 0x2003 space_mapped (omega arith) (omega arith) (omega arith)
      (omega arith)
