-- ===== src/Pfs/Disk/Filling.antt =====
-- kernel/src/main.rs: `pfs_write_at` after the file has its sectors: the gap, then the data.
use rymos.Prelude.{ℕ, ◌+◌, ◌-◌, ◌≤◌, ◌<◌, ◌≡◌, ap, subst, inl, true, List, arith, min, length, ltb}
use native.Mathlib.Decide.{dec_lt}
use mathlib.Core.Path.{fun_ext}
use rymos.Pfs.Header.{Header}
use rymos.Pfs.Extents.{pfs_entry_total_sectors, sectors_for_len}
use rymos.Pfs.Extents.Disjoint.{IsFile, IsAllocated}
use rymos.Pfs.Disk.{
  Disk, pfs_header_bytes, logical_sector, has_magic, zero_gap, pfs_zero_range, write_from,
  write_data, pfs_file_max,
}
use rymos.Pfs.Disk.Sectors.{
  After, After-ok, After-and_then, After-weaken, After-test, Works, Works-of, Same, OnlyIn,
  header_of, read_header_silent-and_then,
}
use rymos.Pfs.Disk.HeaderWrite.{OnlyIn-trans, OnlyIn-weaken}
use rymos.Pfs.Disk.Places.{lba-some, place-after_header}
use rymos.Pfs.Disk.Reading.{Holds, Missing}
use rymos.Pfs.Disk.Writing.{InRange, Holds-OnlyIn, Same-OnlyIn}
use rymos.Pfs.Disk.Loops.{zeros, length-zeros, write_from-After, zero_from-After}

-- The file has a sector for every position before `end`.
abbrev pub HasRoom : Header → ℕ → ℕ → Type 0
HasRoom h index end = sectors_for_len end ≤ pfs_entry_total_sectors h index

module _ (h : Header) (index : ℕ) (good : IsAllocated h) (file : IsFile h index) where
  pub room-Missing :
      (end from n : ℕ)
      → HasRoom h index end
      → end ≤ pfs_file_max
      → from + n ≤ end
      → ¬ Missing h index from n
  unfolding sectors_for_len
  room-Missing end from n room small inside (p, low, high, none_there) =
      let (lba, found) = lba-some h index good file (logical_sector p) enough in
      cc (found, none_there)
    where
      enough : logical_sector p < pfs_entry_total_sectors h index
      enough = ground (arith, room, small, inside, low, high)

  pub InRange-header_of :
      (d d' : Disk) (from n : ℕ) → OnlyIn (InRange h index from n) d d' → header_of d' ≡ header_of d
  InRange-header_of d d' from n (kept, same) = fun_ext λ x. elim (dec_lt x pfs_header_bytes) [
    | yes inside ↦
        let at = kept x λ (p, low, high, there).
          omega (arith, place-after_header h index good file p x there, inside) in
        ground (arith, inside, at)
    | no beyond ↦ ground (arith, beyond)
  ]

module _ (d : Disk) (index old_size offset : ℕ) (bs : List ℕ) (good : IsAllocated (header_of d))
    (file : IsFile (header_of d) index) (room : HasRoom (header_of d) index (offset + length bs))
    (small : offset + length bs ≤ pfs_file_max) where
  -- The positions that change: the gap, if there is one, and those of the data.
  abbrev pub start : ℕ
  start = min old_size offset

  abbrev pub Changed : Disk → Disk → Type 0
  Changed d d' = OnlyIn (InRange (header_of d) index start (offset + length bs - start)) d d'

  abbrev pub Unfilled : Disk → Type 0
  Unfilled d' = Changed d d' × ¬ Works d

  abbrev pub Filled : Disk → Unit {0} → Type 0
  Filled d' _ =
      Changed d d'
      × Holds (header_of d) index d'.bytes offset bs
      × Holds (header_of d) index d'.bytes old_size (zeros (offset - old_size))

  in_range :
      (a b : Disk) (from n : ℕ)
      → start ≤ from
      → from + n ≤ offset + length bs
      → OnlyIn (InRange (header_of d) index from n) a b
      → OnlyIn (InRange (header_of d) index start (offset + length bs - start)) a b
  in_range a b from n low high =
      OnlyIn-weaken (InRange (header_of d) index from n)
        (InRange (header_of d) index start (offset + length bs - start)) a b
        λ x (p, l, r, at). (p, omega (arith, low, l), omega (arith, high, r), at)

  abbrev Gap : Disk → Unit {0} → Type 0
  Gap d' _ =
      OnlyIn (InRange (header_of d) index start (offset - start)) d d'
      × Holds (header_of d) index d'.bytes old_size (zeros (offset - old_size))

  no_gap :
      (d' : Disk)
      → offset ≤ old_size
      → Holds (header_of d) index d'.bytes old_size (zeros (offset - old_size))
  no_gap d' l =
      let nothing : 0 ≡ offset - old_size = omega (arith, l) in
      subst (λ n. Holds (header_of d) index d'.bytes old_size (zeros n)) nothing tt

  zero_gap-After :
      (d' : Disk) → Same d d' → After Unfilled Gap (zero_gap (header_of d) index old_size offset d')
  unfolding pfs_zero_range
  zero_gap-After d' same =
      After-test _ _ (ltb old_size offset) _ _
        (λ gap.
          let below : old_size < offset = ground (arith, gap) in
          After-weaken _ (pfs_zero_range (header_of d) index old_size (offset - old_size) d')
            (zero_from-After (header_of d) index good file (offset - old_size) old_size
              (offset - old_size) d' (omega arith) (omega (arith, small)))
            (λ d'' (only, why). (
              in_range d d'' old_size (offset - old_size) (omega arith) (omega (arith, below))
                  (after_same d'' old_size (offset - old_size) only),
              λ works.
                  room-Missing (header_of d) index good file (offset + length bs) old_size
                    (offset - old_size) room small (omega (arith, below))
                    (why (Works-of d d' same.1 works)),
            ))
            (λ d'' _ (only, holds). (
              OnlyIn-weaken
                  (InRange (header_of d) index old_size (length (zeros (offset - old_size))))
                  (InRange (header_of d) index start (offset - start)) d d''
                  (λ x (p, l, r, at). (
                    p,
                    omega (arith, l),
                    omega (arith, r, length-zeros (offset - old_size), below),
                    at,
                  ))
                  (after_same d'' old_size (length (zeros (offset - old_size))) only),
              holds,
            )))
        (λ none_there.
          After-ok _ _ d' tt
            (((λ x out. ap (λ b. b x) same.0), same.1), no_gap d' (ground (arith, none_there))))
    where
      after_same :
          (d'' : Disk) (from n : ℕ)
          → OnlyIn (InRange (header_of d) index from n) d' d''
          → OnlyIn (InRange (header_of d) index from n) d d''
      after_same d'' from n only =
          Same-OnlyIn (header_of d) index good file (InRange (header_of d) index from n) d d' d''
            same only

  pub write_data-After :
      has_magic (header_of d) ≡ true → After Unfilled Filled (write_data index old_size offset bs d)
  unfolding write_data
  write_data-After has =
      read_header_silent-and_then _ d _
        (λ d' same why. (((λ x out. ap (λ b. b x) same.0), same.1), λ works. cc (has, why works)))
        (λ d' same _.
          After-and_then _ (zero_gap (header_of d) index old_size offset d') _
            (zero_gap-After d' same) (λ d'' failed. failed)
            (λ d'' _ (only, zeroed).
              After-weaken _ (write_from (header_of d) index (length bs) offset bs d'')
                (write_from-After (header_of d) index good file (length bs) offset bs d''
                  (omega arith) small)
                (λ d''' (only', why). (
                  both d'' d''' only only',
                  λ works.
                      room-Missing (header_of d) index good file (offset + length bs) offset
                        (length bs) room small (omega arith) (why (Works-of d d'' only.1 works)),
                ))
                (λ d''' _ (only', holds).
                  (both d'' d''' only only', holds, still_zero d'' d''' only' zeroed))))
    where
      both :
          (d'' d''' : Disk)
          → OnlyIn (InRange (header_of d) index start (offset - start)) d d''
          → OnlyIn (InRange (header_of d) index offset (length bs)) d'' d'''
          → Changed d d'''
      both d'' d''' only only' =
          OnlyIn-trans (InRange (header_of d) index start (offset + length bs - start)) d d'' d'''
            (in_range d d'' start (offset - start) (omega arith) (omega arith) only)
            (in_range d'' d''' offset (length bs) (omega arith) (omega arith) only')

      still_zero :
          (d'' d''' : Disk)
          → OnlyIn (InRange (header_of d) index offset (length bs)) d'' d'''
          → Holds (header_of d) index d''.bytes old_size (zeros (offset - old_size))
          → Holds (header_of d) index d'''.bytes old_size (zeros (offset - old_size))
      still_zero d'' d''' only' zeroed = elim (dec_lt old_size offset) [
        | yes below ↦
            let n = length-zeros (offset - old_size) in
            Holds-OnlyIn (header_of d) index good file d'' d''' offset (length bs) old_size
              (zeros (offset - old_size)) only' (inl (omega (arith, n, below)))
              (omega (arith, n, below, small)) small zeroed
        | no above ↦ no_gap d''' (omega (arith, above))
      ]
