-- ===== src/Pages/Tests.antt =====
-- The theorems on the page allocator at concrete memory.
use rymos.Prelude.{refl, ◌≡◌, some, [], ◌∷◌, arith}
use rymos.Pages.{PhysPageAllocator, empty_allocator, add_range, take_from, alloc_page, free_page}
use rymos.Pages.Once.{IsSound}
use rymos.Pages.Give.{Allocated, alloc_page-Allocated, Freed, free_page-Freed}
use rymos.Pages.Steps.{Reach, reset, next, adds, gives, Reach-IsSound}

-- Two pages of memory.
abbrev two_pages : PhysPageAllocator
two_pages = add_range empty_allocator 5000 16384

two_pages-Reach : Reach two_pages []
two_pages-Reach = next reset (
    adds 5000 16384 (record {
      apart = λ p low high. omega arith;
      in_words = (omega arith, omega arith);
      countable = omega arith;
    }))

abbrev one_out : PhysPageAllocator
one_out = record {
  ranges = record { next = 12288; end = 16384 } ∷ [];
  total_pages = 2;
  allocated_pages = 1;
  free_stack = [];
}

first_page : alloc_page two_pages ≡ (one_out, some 8192)
unfolding alloc_page add_range take_from
first_page = refl

one_out-Reach : Reach one_out (8192 ∷ [])
one_out-Reach = next two_pages-Reach (gives one_out 8192 first_page)

Reach-IsSound_example : IsSound one_out (8192 ∷ [])
Reach-IsSound_example = Reach-IsSound one_out-Reach

alloc_page-Allocated_example : Allocated one_out (8192 ∷ []) (alloc_page one_out)
alloc_page-Allocated_example =
    alloc_page-Allocated one_out (8192 ∷ []) (Reach-IsSound one_out-Reach)

free_page-Freed_example : Freed one_out (8192 ∷ []) 8192 (free_page one_out 8192)
free_page-Freed_example =
    free_page-Freed one_out (8192 ∷ []) 8192 (Reach-IsSound one_out-Reach) (omega arith)
