-- ===== src/Pages/Give.antt =====
-- kernel/src/main.rs: `alloc_page` and `free_page`.
use rymos.Prelude.{
  ℕ, ◌+◌, ◌%◌, ◌≤◌, ◌≡◌, ◌≢◌, refl, ap, subst, ◌∙◌, ◌⊎◌, inl, inr, Bool, true, false, ◌||◌, not,
  Option, none, some, List, [], ◌∷◌, arith, ◌==◌, leb, if◌then◌else◌, length, Bool-cases,
}
use rymos.Pages.{
  PageRange, PhysPageAllocator, page_size, free_page_stack_max, take_from, count_allocated,
  from_ranges, alloc_with, alloc_page, free_page,
}
use rymos.Pages.Once.{count, count_ranges, pages_of, AreAligned, IsSound, Taken, take_from-Taken}

-- What `alloc_page` may do: it gives a page that is not out, or it has none left.
abbrev pub Allocated : PhysPageAllocator → List ℕ → PhysPageAllocator × Option ℕ → Type 0
Allocated a out (a', some page) =
    (page % page_size ≡ 0) × (count page out ≡ 0) × IsSound a' (page ∷ out)
Allocated a out (a', none) = (a' ≡ a) × (a.total_pages ≡ length out)

module _ (a : PhysPageAllocator) (out : List ℕ) (good : IsSound a out) where
  from_stack :
      (page : ℕ) (rest : List ℕ)
      → a.free_stack ≡ page ∷ rest
      → Allocated a out (count_allocated (record a { free_stack = rest }), some page)
  from_stack page rest e =
      let whole = subst AreAligned e good.aligned in
      let total : a.total_pages ≡ length out + (length (page ∷ rest) + pages_of a.ranges) =
        good.total ∙ ap (λ s. length out + (length s + pages_of a.ranges)) e in
      let once : (p : ℕ)
          → p % page_size ≡ 0
          → count_ranges p a.ranges + count p (page ∷ rest) + count p out ≤ 1 =
        λ p w.
          subst (λ s. count_ranges p a.ranges + count p s + count p out ≤ 1) e (good.once p w) in
      (
        whole.0,
        fresh (once page whole.0),
        record {
          ranges = good.ranges;
          aligned = whole.1;
          once = λ p w. omega (arith, once p w);
          counted = omega (arith, good.counted, total, good.fits);
          total = omega (arith, total);
          fits = good.fits;
        },
      )
    where
      fresh :
          count_ranges page a.ranges
              + ((if page == page then 1 else 0) + count page rest)
              + count page out
            ≤ 1
          → count page out ≡ 0
      fresh once = ground (arith, once)

  from_range :
      (t : List PageRange × Option ℕ)
      → a.free_stack ≡ []
      → Taken a.ranges t
      → Allocated a out (from_ranges a t)
  from_range (rs', none) e found = (refl, omega (arith, good.total, found, ap length e))
  from_range (rs', some page) e found = (
    found.0,
    fresh (found.3 page found.0) (good.once page found.0),
    record {
      ranges = found.1;
      aligned = good.aligned;
      once = λ p w. omega (arith, good.once p w, found.3 p w);
      counted = omega (arith, good.counted, good.total, good.fits, found.2);
      total = omega (arith, good.total, found.2);
      fits = good.fits;
    },
  )
    where
      fresh :
          count_ranges page a.ranges ≡ (if page == page then 1 else 0) + count_ranges page rs'
          → count_ranges page a.ranges + count page a.free_stack + count page out ≤ 1
          → count page out ≡ 0
      fresh one once = ground (arith, one, once)

  -- Allocation, with the stack named.
  alloc_with-Allocated :
      (stack : List ℕ) → a.free_stack ≡ stack → Allocated a out (alloc_with a stack)
  alloc_with-Allocated [] e =
      from_range (take_from a.ranges) e (take_from-Taken a.ranges good.ranges)
  alloc_with-Allocated (page ∷ rest) e = from_stack page rest e

-- Allocation gives a whole page that is not out and stays sound with that page out; it fails, and
-- changes nothing, exactly when all the pages are out.
pub alloc_page-Allocated :
    (a : PhysPageAllocator) (out : List ℕ) → IsSound a out → Allocated a out (alloc_page a)
unfolding alloc_page
alloc_page-Allocated a out good = alloc_with-Allocated a out good a.free_stack refl

abbrev pub remove : ℕ → List ℕ → List ℕ
remove p [] = []
remove p (q ∷ qs) = if q == p then qs else q ∷ remove p qs

count-remove :
    (p q : ℕ) (out : List ℕ)
    → count p out ≢ 0
    → count q out ≡ (if p == q then 1 else 0) + count q (remove p out)
count-remove p q [] h = absurd (h refl)
count-remove p q (o ∷ os) h = elim (Bool-cases (o == p)) [
  | inl hit ↦ let same : o ≡ p = ground (arith, hit) in rw hit (rw same refl)
  | inr miss ↦
      rw miss (
        let rest = count-remove p q os (λ z. h (rw miss (omega (arith, z)))) in omega (arith, rest))
]

length-remove : (p : ℕ) (out : List ℕ) → count p out ≢ 0 → length out ≡ 1 + length (remove p out)
length-remove p [] h = absurd (h refl)
length-remove p (o ∷ os) h = elim (Bool-cases (o == p)) [
  | inl hit ↦ rw hit (omega arith)
  | inr miss ↦ rw miss (omega (arith, length-remove p os (λ z. h (rw miss (omega (arith, z))))))
]

-- What `free_page` may do with a page that is out.
abbrev pub Freed : PhysPageAllocator → List ℕ → ℕ → PhysPageAllocator × Bool → Type 0
Freed a out page (a', true) = IsSound a' (remove page out)
Freed a out page (a', false) =
    (a' ≡ a) × ((page % page_size ≢ 0) ⊎ (free_page_stack_max ≤ length a.free_stack))

-- Giving back a page that is out keeps the allocator sound, with the page no longer out; it is refused,
-- and changes nothing, only for an address that is no whole page, or with a full stack.
pub free_page-Freed :
    (a : PhysPageAllocator) (out : List ℕ) (page : ℕ)
    → IsSound a out
    → count page out ≢ 0
    → Freed a out page (free_page a page)
unfolding free_page
free_page-Freed a out page good is_out =
    elim (Bool-cases
      (not (page % page_size == 0) || leb free_page_stack_max (length a.free_stack))) [
        | inl refuse ↦ rw refuse (refl, reason refuse)
        | inr fine ↦
            let whole : page % page_size ≡ 0 = ground (arith, fine) in
            rw fine (record {
              ranges = good.ranges;
              aligned = (whole, good.aligned);
              once = λ p w. omega (arith, good.once p w, count-remove page p out is_out);
              counted = omega (arith, good.counted, length-remove page out is_out);
              total = omega (arith, good.total, length-remove page out is_out);
              fits = good.fits;
            })
      ]
  where
    reason :
        (not (page % page_size == 0) || leb free_page_stack_max (length a.free_stack)) ≡ true
        → (page % page_size ≢ 0) ⊎ (free_page_stack_max ≤ length a.free_stack)
    reason refuse = elim (Bool-cases (page % page_size == 0)) [
      | inl whole ↦ inr (ground (arith, whole, refuse))
      | inr part ↦ inl (λ z. absurd (ground (arith, part, z)))
    ]
