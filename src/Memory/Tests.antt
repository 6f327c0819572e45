-- ===== src/Memory/Tests.antt =====
-- Runs of the allocator, and the theorems at concrete states.
use aurora_os_live.Base.{ℕ, ◌+◌, ◌*◌, ◌≡◌, refl, inl, [], ◌∷◌, arith}
use aurora_os_live.Memory.{
  Buddy, available_from, buddy_mark_available, buddy_split, find_order, split_down, take_first,
  take_page, alloc_pages, merge_up, buddy_merge, free_found, free_pages,
}
use aurora_os_live.Memory.Blocks.{cover}
use aurora_os_live.Memory.Ready.{IsReady}
use aurora_os_live.Memory.Take.{taken-IsReady}
use aurora_os_live.Memory.Alloc.{Allocated, alloc_pages-Allocated}
use aurora_os_live.Memory.Free.{Freed, free_pages-Freed}
use aurora_os_live.Memory.Boot.{empty-IsReady, buddy_mark_available-IsReady}

abbrev nothing : Buddy
nothing = record {
  flags = λ q. 0;
  order = λ q. 0;
  ref_count = λ q. 0;
  phys_addr = λ q. 0;
  free_area = λ j. [];
  total_phys_pages = 4096;
  stat_total_pages = 0;
  stat_used_pages = 0;
}

nothing-IsReady : IsReady nothing []
nothing-IsReady = empty-IsReady nothing (λ j. refl) (λ q. refl)

uncovered : (x : ℕ) → cover nothing [] x ≡ 0
unfolding cover
uncovered x = refl

abbrev pages : Buddy
pages = buddy_mark_available 512 514 nothing

two_pages : pages.free_area 0 ≡ 513 ∷ 512 ∷ []
unfolding buddy_mark_available available_from
two_pages = refl

-- Page 513 is taken and given back: it merges with page 512.
first_taken : (alloc_pages 0 pages).1 ≡ 0x100000 + 513 * 4096
unfolding alloc_pages find_order split_down take_first buddy_mark_available available_from
first_taken = refl

pages-IsReady : IsReady pages []
pages-IsReady =
    buddy_mark_available-IsReady 512 514 nothing [] nothing-IsReady (λ x a b. uncovered x)

abbrev one_taken : Buddy
one_taken = take_page 0 513 pages

one_taken-IsReady : IsReady one_taken ((513, 0) ∷ [])
unfolding buddy_mark_available available_from
one_taken-IsReady = taken-IsReady pages [] 0 513 pages-IsReady (inl refl)

abbrev merged : Buddy
merged = free_pages (0x100000 + 513 * 4096) 0 one_taken

free_pages-Freed_example : Freed one_taken ((513, 0) ∷ []) 513 0 merged
unfolding buddy_mark_available available_from
free_pages-Freed_example =
    free_pages-Freed one_taken ((513, 0) ∷ []) 513 0 one_taken-IsReady (inl (refl, refl))
      (omega arith)

merged-IsReady : IsReady merged []
unfolding buddy_mark_available available_from
merged-IsReady =
    (free_pages-Freed one_taken ((513, 0) ∷ []) 513 0 one_taken-IsReady (inl (refl, refl))
      (omega arith)).0

one_block : merged.free_area 1 ≡ 512 ∷ []
unfolding free_pages free_found buddy_merge merge_up buddy_mark_available available_from
one_block = refl

-- An allocation of one page splits the block of two.
alloc_pages-Allocated_example : Allocated merged [] 0 (alloc_pages 0 merged)
alloc_pages-Allocated_example = alloc_pages-Allocated merged [] 0 merged-IsReady (omega arith)

upper_taken : (alloc_pages 0 merged).1 ≡ 0x100000 + 513 * 4096
unfolding alloc_pages find_order split_down buddy_split take_first free_pages free_found buddy_merge
    merge_up buddy_mark_available available_from
upper_taken = refl
