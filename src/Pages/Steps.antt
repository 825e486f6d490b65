-- ===== src/Pages/Steps.antt =====
-- kernel/src/main.rs: the operations of the page allocator, with the pages that are out.
use rymos.Prelude.{
  ℕ, ◌+◌, ◌-◌, ◌/◌, ◌%◌, ◌^◌, ◌≤◌, ◌<◌, ◌≡◌, ◌≢◌, refl, subst, inl, inr, true, false, ◌&&◌, ◌||◌,
  some, List, [], ◌∷◌, arith, ltb, leb, if◌then◌else◌, length, Bool-cases,
}
use rymos.Pages.{
  PageRange, PhysPageAllocator, page_size, max_phys_ranges, append_range, add_range, alloc_page,
  free_page, align_up_u64, align_down_u64, empty_allocator,
}
use rymos.Pages.Once.{count, count_ranges, pages_of, IsRange, AreRanges, IsSound}
use rymos.Pages.Give.{Allocated, alloc_page-Allocated, Freed, free_page-Freed, remove}

append-AreRanges :
    (rs : List PageRange) (r : PageRange) → AreRanges rs → IsRange r → AreRanges (append_range rs r)
append-AreRanges [] r all is = (is, tt)
append-AreRanges (r' ∷ rs) r all is = (all.0, append-AreRanges rs r all.1 is)

count_ranges-append :
    (p : ℕ) (rs : List PageRange) (r : PageRange)
    → count_ranges p (append_range rs r)
      ≡ count_ranges p rs + (if leb r.next p && ltb p r.end then 1 else 0)
count_ranges-append p [] r = omega arith
count_ranges-append p (r' ∷ rs) r = omega (arith, count_ranges-append p rs r)

pages_of-append :
    (rs : List PageRange) (r : PageRange)
    → pages_of (append_range rs r) ≡ pages_of rs + (r.end - r.next) / page_size
pages_of-append [] r = omega arith
pages_of-append (r' ∷ rs) r = omega (arith, pages_of-append rs r)

-- The pages from `from` to `to` are new, and can be counted.
pub record IsNew (a : PhysPageAllocator) (out : List ℕ) (from to : ℕ) : Type 0 where
  pub apart :
      (p : ℕ) → from ≤ p → p < to → count_ranges p a.ranges + count p a.free_stack + count p out ≡ 0
  pub in_words : (from + page_size < 2 ^ 64) × (to < 2 ^ 64)
  pub countable : a.total_pages + (to - from) / page_size < 2 ^ 64

align_up-whole :
    (v : ℕ) → v + page_size < 2 ^ 64 → (v ≤ align_up_u64 v) × (align_up_u64 v % page_size ≡ 0)
align_up-whole v l = (omega (arith, l), omega arith)

align_down-whole : (v : ℕ) → (align_down_u64 v ≤ v) × (align_down_u64 v % page_size ≡ 0)
align_down-whole v = (omega arith, omega arith)

-- The range of whole pages from `s` to `e`, within new memory.
module _ (a : PhysPageAllocator) (out : List ℕ) (from to s e : ℕ) (good : IsSound a out)
    (new : IsNew a out from to) (low : from ≤ s) (s_whole : s % page_size ≡ 0) (high : e ≤ to)
    (e_whole : e % page_size ≡ 0) (more : s < e) where
  once_more :
      (p : ℕ)
      → p % page_size ≡ 0
      → (if leb s p && ltb p e then 1 else 0)
          + (count_ranges p a.ranges + count p a.free_stack + count p out)
        ≤ 1
  once_more p w = elim (Bool-cases (leb s p && ltb p e)) [
    | inl inside ↦
        let none_yet = new.apart p (ground (arith, inside, low)) (ground (arith, inside, high)) in
        rw inside (omega (arith, none_yet))
    | inr outside ↦ rw outside (omega (arith, good.once p w))
  ]

  added-IsSound :
      IsSound
        (record a {
          ranges = append_range a.ranges (record { next = s; end = e });
          total_pages = (a.total_pages + (e - s) / page_size) % 2 ^ 64;
        })
        out
  added-IsSound =
      let fewer : (e - s) / page_size ≤ (to - from) / page_size = omega (arith, low, high) in
      record {
        ranges =
            append-AreRanges a.ranges (record { next = s; end = e }) good.ranges
              (s_whole, e_whole, omega (arith, more), omega (arith, high, new.in_words.1));
        aligned = good.aligned;
        once = λ p w.
            omega
              (arith, count_ranges-append p a.ranges (record { next = s; end = e }), once_more p w);
        counted = good.counted;
        total = omega (
          arith,
          good.total,
          pages_of-append a.ranges (record { next = s; end = e }),
          fewer,
          new.countable,
        );
        fits = omega arith;
      }

-- Adding memory that the allocator does not have and that is not out keeps it sound, while the number
-- of its pages fits 64 bits.
pub add_range-IsSound :
    (a : PhysPageAllocator) (out : List ℕ) (from to : ℕ)
    → IsSound a out
    → IsNew a out from to
    → IsSound (add_range a from to) out
unfolding add_range
add_range-IsSound a out from to good new =
    elim (Bool-cases
      (leb (align_down_u64 to) (align_up_u64 from) || leb max_phys_ranges (length a.ranges))) [
        | inl skip ↦ rw skip good
        | inr take ↦
            let up = align_up-whole from new.in_words.0 in
            let down = align_down-whole to in
            rw take (
              added-IsSound a out from to (align_up_u64 from) (align_down_u64 to) good new up.0 up.1
                down.0 down.1 (more (align_up_u64 from) (align_down_u64 to) take))
      ]
  where
    more : (s e : ℕ) → (leb e s || leb max_phys_ranges (length a.ranges)) ≡ false → s < e
    more s e take = ground (arith, take)

-- The operations, with the pages that are out. A caller gives back only pages that are out.
pub data Step (a : PhysPageAllocator) (out : List ℕ) : PhysPageAllocator → List ℕ → Type 0 where
  adds : (from to : ℕ) → IsNew a out from to → Step a out (add_range a from to) out
  gives :
      (a' : PhysPageAllocator) (page : ℕ)
      → alloc_page a ≡ (a', some page)
      → Step a out a' (page ∷ out)
  takes_back :
      (a' : PhysPageAllocator) (page : ℕ)
      → count page out ≢ 0
      → free_page a page ≡ (a', true)
      → Step a out a' (remove page out)

pub data Reach : PhysPageAllocator → List ℕ → Type 0 where
  reset : Reach empty_allocator []
  next :
      {a a' : PhysPageAllocator} {out out' : List ℕ}
      → Reach a out
      → Step a out a' out'
      → Reach a' out'

empty-IsSound : IsSound empty_allocator []
empty-IsSound = record {
  ranges = tt;
  aligned = tt;
  once = λ p w. omega arith;
  counted = refl;
  total = omega arith;
  fits = omega arith;
}

Step-IsSound :
    {a a' : PhysPageAllocator} {out out' : List ℕ}
    → IsSound a out
    → Step a out a' out'
    → IsSound a' out'
Step-IsSound {a} {out} good (adds from to new) = add_range-IsSound a out from to good new
Step-IsSound {a} {out} good (gives a' page e) =
    (subst (Allocated a out) e (alloc_page-Allocated a out good)).2
Step-IsSound {a} {out} good (takes_back a' page is_out e) =
    subst (Freed a out page) e (free_page-Freed a out page good is_out)

-- From a reset on, in every sequence of adding new memory, allocating and giving back pages that are
-- out: no page is out twice, or out and still to be given; and the counters say how many pages are out
-- and how many there are.
pub Reach-IsSound : {a : PhysPageAllocator} {out : List ℕ} → Reach a out → IsSound a out
Reach-IsSound reset = empty-IsSound
Reach-IsSound (next r s) = Step-IsSound (Reach-IsSound r) s
