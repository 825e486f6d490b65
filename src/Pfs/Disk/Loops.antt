-- ===== src/Pfs/Disk/Loops.antt =====
-- kernel/src/main.rs: the loops of `pfs_write_at` and `pfs_zero_range` as a whole.
use rymos.Prelude.{
  ℕ, zero, suc, ◌+◌, ◌-◌, ◌%◌, ◌≤◌, ◌<◌, ◌≡◌, refl, sym, ap, ap₂, subst, ◌∙◌, inl, Option, none,
  some, List, [], ◌∷◌, ◌++◌, arith, ◌==◌, length, take, drop, length-append, length-take, Table,
  read_slice, fill, fill-Outside, Outside,
}
use rymos.Pfs.Header.{Header}
use rymos.Pfs.Extents.{pfs_entry_lba_for_sector}
use rymos.Pfs.Extents.Disjoint.{IsFile, IsAllocated}
use rymos.Pfs.Disk.{
  Disk, sector_size, logical_sector, chunk, write_chunk, write_from, zero_chunk, zero_from,
  pfs_file_max,
}
use rymos.Pfs.Disk.Sectors.{
  After, After-ok, After-failed, After-and_then, After-weaken, After-test, Works-of, OnlyIn,
}
use rymos.Pfs.Disk.HeaderWrite.{OnlyIn-trans, OnlyIn-weaken}
use rymos.Pfs.Disk.Reading.{Holds, Holds-append}
use rymos.Pfs.Disk.Writing.{
  InRange, Failed, Wrote, Holds-OnlyIn, put-After, bounded, no_chunk, after_read, write_chunk-After,
}

abbrev pub zeros : ℕ → List ℕ
zeros zero = []
zeros (suc n) = 0 ∷ zeros n

pub length-zeros : (n : ℕ) → length (zeros n) ≡ n
length-zeros zero = refl
length-zeros (suc n) = omega (arith, length-zeros n)

zeros-append : (m n : ℕ) → zeros m ++ zeros n ≡ zeros (m + n)
zeros-append zero n = let at : n ≡ zero + n = omega arith in ap zeros at
zeros-append (suc m) n =
    let at : suc (m + n) ≡ suc m + n = omega arith in
    ap (λ zs. 0 ∷ zs) (zeros-append m n) ∙ ap zeros at

take-drop : (n : ℕ) (bs : List ℕ) → take n bs ++ drop n bs ≡ bs
take-drop zero bs = refl
take-drop (suc n) [] = refl
take-drop (suc n) (b ∷ bs) = ap (λ bs. b ∷ bs) (take-drop n bs)

read_slice-zeros :
    (t : Table ℕ) (o n : ℕ) → ((x : ℕ) → o ≤ x → x < o + n → t x ≡ 0) → read_slice t o n ≡ zeros n
unfolding read_slice
read_slice-zeros t o zero all = refl
read_slice-zeros t o (suc n) all =
    ap₂ ◌∷◌ (all o (omega arith) (omega arith))
      (read_slice-zeros t (suc o) n λ x low high. all x (omega arith) (omega arith))

fill-zeros : (t : Table ℕ) (o n : ℕ) → read_slice (fill t o n 0) o n ≡ zeros n
unfolding fill
fill-zeros t o n = read_slice-zeros (fill t o n 0) o n λ x low high. ground (arith, low, high)

module _ (h : Header) (index : ℕ) (good : IsAllocated h) (file : IsFile h index) where
  widen :
      (d d' : Disk) (from n from' n' : ℕ)
      → from ≤ from'
      → from' + n' ≤ from + n
      → OnlyIn (InRange h index from' n') d d'
      → OnlyIn (InRange h index from n) d d'
  widen d d' from n from' n' low high =
      OnlyIn-weaken (InRange h index from' n') (InRange h index from n) d d'
        λ x (p, l, r, at). (p, omega (arith, low, l), omega (arith, high, r), at)

  -- A range is written, and the one after it.
  join :
      (d d' d'' : Disk) (from n : ℕ) (bs more : List ℕ)
      → length bs ≡ n
      → from + (n + length more) ≤ pfs_file_max
      → Wrote h index good file d from bs d' tt
      → Wrote h index good file d' (from + n) more d'' tt
      → Wrote h index good file d from (bs ++ more) d'' tt
  join d d' d'' from n bs more long fits (only, holds) (only', holds') =
      let total = length-append bs more in
      (
        OnlyIn-trans (InRange h index from (length (bs ++ more))) d d' d''
            (widen d d' from (length (bs ++ more)) from (length bs) (omega arith)
              (omega (arith, total)) only)
            (widen d' d'' from (length (bs ++ more)) (from + n) (length more) (omega arith)
              (omega (arith, total, long)) only'),
        Holds-append h index d''.bytes from bs more
            (Holds-OnlyIn h index good file d' d'' (from + n) (length more) from bs only'
              (inl (omega (arith, long))) (omega (arith, fits, long)) (omega (arith, fits)) holds)
            (subst (λ m. Holds h index d''.bytes (from + m) more) (sym long) holds'),
      )

  -- A range is written, and the one after it fails.
  join_failed :
      (d d' d'' : Disk) (from n rest m : ℕ) (bs : List ℕ)
      → length bs ≡ n
      → n + rest ≡ m
      → Wrote h index good file d from bs d' tt
      → Failed h index good file d' (from + n) rest d''
      → Failed h index good file d from m d''
  join_failed d d' d'' from n rest m bs long total (only, holds) (only', why) = (
    OnlyIn-trans (InRange h index from m) d d' d''
        (widen d d' from m from (length bs) (omega arith) (omega (arith, total, long)) only)
        (widen d' d'' from m (from + n) rest (omega arith) (omega (arith, total)) only'),
    λ works.
        let (p, low, high, missing) = why (Works-of d d' only.1 works) in
        (p, omega (arith, low), omega (arith, high, total), missing),
  )

  -- A part of a range fails.
  first_failed :
      (d d' : Disk) (from n m : ℕ)
      → n ≤ m
      → Failed h index good file d from n d'
      → Failed h index good file d from m d'
  first_failed d d' from n m l (only, why) = (
    widen d d' from m from n (omega arith) (omega (arith, l)) only,
    λ works. let (p, low, high, missing) = why works in (p, low, omega (arith, high, l), missing),
  )

  pub write_from-After :
      (fuel from : ℕ) (bs : List ℕ) (d : Disk)
      → length bs ≤ fuel
      → from + length bs ≤ pfs_file_max
      → After
          (Failed h index good file d from (length bs))
          (Wrote h index good file d from bs)
          (write_from h index fuel from bs d)
  unfolding write_from
  write_from-After fuel from [] d l fits = After-ok _ _ _ _ (((λ x out. refl), refl), tt)
  write_from-After zero from (b ∷ bs) d l fits = absurd (omega (arith, l))
  write_from-After (suc fuel) from (b ∷ bs) d l fits =
      After-and_then _
        (write_chunk d from (pfs_entry_lba_for_sector h index (logical_sector from))
          (take count (b ∷ bs)))
        _
        (write_chunk-After h index good file d from (take count (b ∷ bs)) _ refl
          (omega (arith, long)) (omega (arith, long)))
        (λ d' failed.
          first_failed d d' from (length (take count (b ∷ bs))) (length (b ∷ bs))
            (omega (arith, long)) failed)
        (λ d' _ wrote.
          After-weaken _ (write_from h index fuel (from + count) (drop count (b ∷ bs)) d')
            (write_from-After fuel (from + count) (drop count (b ∷ bs)) d' (omega (arith, rest, l))
              (omega (arith, rest, fits)))
            (λ d'' failed.
              join_failed d d' d'' from count (length (drop count (b ∷ bs))) (length (b ∷ bs))
                (take count (b ∷ bs)) long (omega (arith, rest)) wrote failed)
            (λ d'' _ wrote'.
              subst (λ bs. Wrote h index good file d from bs d'' tt) (take-drop count (b ∷ bs))
                (join d d' d'' from count (take count (b ∷ bs)) (drop count (b ∷ bs)) long
                  (omega (arith, rest, fits)) wrote wrote')))
    where
      count : ℕ
      count = chunk (length (b ∷ bs)) from

      long : length (take count (b ∷ bs)) ≡ count
      long = length-take count (b ∷ bs) ∙ omega arith

      rest : length (drop count (b ∷ bs)) + count ≡ length (b ∷ bs)
      rest = omega (
        arith,
        long,
        length-append (take count (b ∷ bs)) (drop count (b ∷ bs)),
        ap length (take-drop count (b ∷ bs)),
      )

  zero_chunk-After :
      (d : Disk) (from n : ℕ) (o : Option ℕ)
      → pfs_entry_lba_for_sector h index (logical_sector from) ≡ o
      → 0 < n
      → from % sector_size + length (zeros n) ≤ sector_size
      → After
          (Failed h index good file d from (length (zeros n)))
          (Wrote h index good file d from (zeros n))
          (zero_chunk d from o n)
  zero_chunk-After d from n none found some_bytes fits = After-failed _ _ d (
      no_chunk h index good file d from (length (zeros n))
        (omega (arith, some_bytes, length-zeros n)) found)
  zero_chunk-After d from n (some lba) found some_bytes fits =
      After-test _ _ (n == sector_size) _ _
        (λ whole.
          let full : n ≡ sector_size = ground (arith, whole) in
          put-After h index good file d from lba (zeros n) (λ _. 0) found fits
            (λ o l out. absurd (omega (arith, fits, full, length-zeros n, out, l)))
            (read_slice-zeros (λ _. 0) (from % sector_size) (length (zeros n)) (λ x low high. refl)
              ∙ ap zeros (length-zeros n))
            (bounded h index good file (logical_sector from) lba found))
        (λ partly.
          after_read h index good file d from lba (zeros n) (λ s. fill s (from % sector_size) n 0)
            found fits
            (λ s o out.
              fill-Outside s (from % sector_size) n 0 o
                (subst (λ n. Outside (from % sector_size) n o) (length-zeros n) out))
            (λ s.
              ap (read_slice (fill s (from % sector_size) n 0) (from % sector_size))
                (length-zeros n)
              ∙ fill-zeros s (from % sector_size) n))

  pub zero_from-After :
      (fuel from n : ℕ) (d : Disk)
      → n ≤ fuel
      → from + n ≤ pfs_file_max
      → After
          (Failed h index good file d from n)
          (Wrote h index good file d from (zeros n))
          (zero_from h index fuel from n d)
  unfolding zero_from
  zero_from-After fuel from zero d l fits = After-ok _ _ _ _ (((λ x out. refl), refl), tt)
  zero_from-After zero from (suc n) d l fits = absurd (omega (arith, l))
  zero_from-After (suc fuel) from (suc n) d l fits =
      After-and_then _
        (zero_chunk d from (pfs_entry_lba_for_sector h index (logical_sector from)) count) _
        (zero_chunk-After d from count _ refl (omega arith) (omega (arith, length-zeros count)))
        (λ d' failed.
          first_failed d d' from (length (zeros count)) (suc n) (omega (arith, length-zeros count))
            failed)
        (λ d' _ wrote.
          After-weaken _ (zero_from h index fuel (from + count) (suc n - count) d')
            (zero_from-After fuel (from + count) (suc n - count) d' (omega (arith, l))
              (omega (arith, fits)))
            (λ d'' failed.
              join_failed d d' d'' from count (suc n - count) (suc n) (zeros count)
                (length-zeros count) (omega arith) wrote failed)
            (λ d'' _ wrote'.
              let all : count + (suc n - count) ≡ suc n = omega arith in
              subst (λ bs. Wrote h index good file d from bs d'' tt)
                (zeros-append count (suc n - count) ∙ ap zeros all)
                (join d d' d'' from count (zeros count) (zeros (suc n - count)) (length-zeros count)
                  (omega (arith, length-zeros (suc n - count), fits)) wrote wrote')))
    where
      count : ℕ
      count = chunk (suc n) from
