-- ===== src/Pages/Once.antt =====
-- kernel/src/main.rs: which pages the allocator still has, and how often.
use rymos.Prelude.{
  ℕ, ◌+◌, ◌-◌, ◌/◌, ◌%◌, ◌^◌, ◌≤◌, ◌<◌, ◌≡◌, refl, inl, inr, true, ◌&&◌, Option, none, some, List,
  [], ◌∷◌, arith, ◌==◌, ltb, leb, if◌then◌else◌, length, Bool-cases,
}
use rymos.Pages.{PageRange, PhysPageAllocator, page_size, take_from}

-- How often the page is in the list.
abbrev pub count : ℕ → List ℕ → ℕ
count p [] = 0
count p (q ∷ qs) = (if q == p then 1 else 0) + count p qs

-- How many ranges still have the page.
abbrev pub count_ranges : ℕ → List PageRange → ℕ
count_ranges p [] = 0
count_ranges p (r ∷ rs) = (if leb r.next p && ltb p r.end then 1 else 0) + count_ranges p rs

abbrev pub pages_of : List PageRange → ℕ
pages_of [] = 0
pages_of (r ∷ rs) = (r.end - r.next) / page_size + pages_of rs

abbrev pub AreAligned : List ℕ → Type 0
AreAligned [] = Unit {0}
AreAligned (p ∷ ps) = (p % page_size ≡ 0) × AreAligned ps

-- Ranges of whole pages, in 64 bits.
abbrev pub IsRange : PageRange → Type 0
IsRange r = (r.next % page_size ≡ 0) × (r.end % page_size ≡ 0) × (r.next ≤ r.end) × (r.end < 2 ^ 64)

abbrev pub AreRanges : List PageRange → Type 0
AreRanges [] = Unit {0}
AreRanges (r ∷ rs) = IsRange r × AreRanges rs

-- The pages that the allocator can still give.
abbrev pub pages_left : PhysPageAllocator → ℕ
pages_left a = length a.free_stack + pages_of a.ranges

-- The allocator, and the pages `out` that have been given and not been given back: every page is at
-- most once in the ranges, the stack and `out` together, and the two counters are right.
pub record IsSound (a : PhysPageAllocator) (out : List ℕ) : Type 0 where
  pub ranges : AreRanges a.ranges
  pub aligned : AreAligned a.free_stack
  pub once :
      (p : ℕ) → p % page_size ≡ 0 → count_ranges p a.ranges + count p a.free_stack + count p out ≤ 1
  pub counted : a.allocated_pages ≡ length out
  pub total : a.total_pages ≡ length out + pages_left a
  pub fits : a.total_pages < 2 ^ 64

-- What `take_from` does: it gives no page if there is none, and else one that the ranges then have once
-- less.
abbrev pub Taken : List PageRange → List PageRange × Option ℕ → Type 0
Taken rs (rs', none) = pages_of rs ≡ 0
Taken rs (rs', some page) =
    (page % page_size ≡ 0)
    × AreRanges rs'
    × (pages_of rs ≡ 1 + pages_of rs')
    × ((p : ℕ)
        → p % page_size ≡ 0
        → count_ranges p rs ≡ (if page == p then 1 else 0) + count_ranges p rs')

first-Taken :
    (r : PageRange) (rs : List PageRange)
    → IsRange r
    → AreRanges rs
    → ltb r.next r.end ≡ true
    → Taken (r ∷ rs) (record r { next = (r.next + page_size) % 2 ^ 64 } ∷ rs, some r.next)
first-Taken r rs is all more =
    let less : r.next < r.end = ground (arith, more) in
    let below : r.next + page_size ≤ r.end = omega (arith, less, is.0, is.1) in
    let no_wrap : (r.next + page_size) % 2 ^ 64 ≡ r.next + page_size = omega (arith, below, is.3) in
    rw no_wrap (
      is.0,
      ((omega (arith, is.0), is.1, below, is.3), all),
      omega (arith, below, is.0, is.1),
      λ p whole. one p whole below,
    )
  where
    one :
        (p : ℕ)
        → p % page_size ≡ 0
        → r.next + page_size ≤ r.end
        → (if leb r.next p && ltb p r.end then 1 else 0) + count_ranges p rs
          ≡ (if r.next == p then 1 else 0)
            + ((if leb (r.next + page_size) p && ltb p r.end then 1 else 0) + count_ranges p rs)
    one p whole below = ground (arith, whole, below, is.0, is.1)

pub take_from-Taken : (rs : List PageRange) → AreRanges rs → Taken rs (take_from rs)
unfolding take_from
take_from-Taken [] all = refl
take_from-Taken (r ∷ rs) all = elim (Bool-cases (ltb r.next r.end)) [
  | inl more ↦ rw more (first-Taken r rs all.0 all.1 more)
  | inr used ↦ rw used (later (take_from rs) (take_from-Taken rs all.1) (ground (arith, used)))
]
  where
    later :
        (t : List PageRange × Option ℕ)
        → Taken rs t
        → r.end ≤ r.next
        → Taken (r ∷ rs) (r ∷ t.0, t.1)
    later (rs', none) found full = omega (arith, found, full)
    later (rs', some page) found full = (
      found.0,
      (all.0, found.1),
      omega (arith, found.2, full),
      λ p whole. omega (arith, found.3 p whole),
    )
