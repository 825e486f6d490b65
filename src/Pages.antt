-- ===== src/Pages.antt =====
-- kernel/src/main.rs: the physical page allocator. `ranges[..range_count]` is a list, and so is
-- `free_stack[..free_count]`, the top first.
pub mod Once
pub mod Give
pub mod Steps
mod Tests
use rymos.Prelude.{
  ℕ, ◌+◌, ◌-◌, ◌*◌, ◌/◌, ◌%◌, ◌^◌, Bool, true, false, ◌&&◌, ◌||◌, not, Option, none, some, List, [],
  ◌∷◌, ◌==◌, ltb, leb, if◌then◌else◌, length,
}

abbrev pub page_size : ℕ
page_size = 4096

abbrev pub max_phys_ranges : ℕ
max_phys_ranges = 32

abbrev pub free_page_stack_max : ℕ
free_page_stack_max = 4096

pub record PageRange : Type 0 where
  pub next : ℕ
  pub end : ℕ

pub record PhysPageAllocator : Type 0 where
  pub ranges : List PageRange
  pub total_pages : ℕ
  pub allocated_pages : ℕ
  pub free_stack : List ℕ

-- `PhysPageAllocator::empty()`
abbrev pub empty_allocator : PhysPageAllocator
empty_allocator = record { ranges = []; total_pages = 0; allocated_pages = 0; free_stack = [] }

abbrev pub align_down_u64 : ℕ → ℕ
align_down_u64 value = value / page_size * page_size

abbrev pub align_up_u64 : ℕ → ℕ
align_up_u64 value = align_down_u64 ((value + page_size - 1) % 2 ^ 64)

abbrev pub append_range : List PageRange → PageRange → List PageRange
append_range [] r' = r' ∷ []
append_range (r ∷ rs) r' = r ∷ append_range rs r'

unfoldable pub add_range : PhysPageAllocator → ℕ → ℕ → PhysPageAllocator
add_range a from to =
    let start = align_up_u64 from in
    let end = align_down_u64 to in
    if leb end start || leb max_phys_ranges (length a.ranges) then a else record a {
      ranges = append_range a.ranges (record { next = start; end = end });
      total_pages = (a.total_pages + (end - start) / page_size) % 2 ^ 64;
    }

-- The loop of `alloc_page` over the ranges.
unfoldable pub take_from : List PageRange → List PageRange × Option ℕ
take_from [] = ([], none)
take_from (r ∷ rs) =
    let (rs', page) = take_from rs in
    if ltb r.next r.end
    then (record r { next = (r.next + page_size) % 2 ^ 64 } ∷ rs, some r.next)
    else (r ∷ rs', page)

abbrev pub count_allocated : PhysPageAllocator → PhysPageAllocator
count_allocated a = record a { allocated_pages = (a.allocated_pages + 1) % 2 ^ 64 }

abbrev pub from_ranges :
    PhysPageAllocator → List PageRange × Option ℕ → PhysPageAllocator × Option ℕ
from_ranges a (rs, none) = (a, none)
from_ranges a (rs, some page) = (count_allocated (record a { ranges = rs }), some page)

abbrev pub alloc_with : PhysPageAllocator → List ℕ → PhysPageAllocator × Option ℕ
alloc_with a [] = from_ranges a (take_from a.ranges)
alloc_with a (page ∷ rest) = (count_allocated (record a { free_stack = rest }), some page)

unfoldable pub alloc_page : PhysPageAllocator → PhysPageAllocator × Option ℕ
alloc_page a = alloc_with a a.free_stack

unfoldable pub free_page : PhysPageAllocator → ℕ → PhysPageAllocator × Bool
free_page a page =
    if not (page % page_size == 0) || leb free_page_stack_max (length a.free_stack)
    then (a, false)
    else (
      record a { free_stack = page ∷ a.free_stack; allocated_pages = a.allocated_pages - 1 },
      true,
    )

unfoldable pub free_pages : PhysPageAllocator → ℕ
free_pages a = a.total_pages - a.allocated_pages
