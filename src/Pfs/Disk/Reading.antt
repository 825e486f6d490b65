-- ===== src/Pfs/Disk/Reading.antt =====
-- kernel/src/main.rs: `pfs_read_at`.
use rymos.Prelude.{
  ℕ, zero, suc, ◌+◌, ◌-◌, ◌*◌, ◌%◌, ◌^◌, ◌≤◌, ◌<◌, ◌≡◌, refl, sym, ap, subst, ◌∙◌, ◌⊎◌, inl, inr,
  ◌||◌, not, false, Option, none, some, List, [], ◌∷◌, ◌++◌, arith, ltb, Table, length,
  length-append, read_slice, length-read_slice,
}
use rymos.Pfs.Header.{Header, pfs_entry_used}
use rymos.Pfs.Extents.{pfs_entry_lba_for_sector, pfs_disk_sectors}
use rymos.Pfs.Extents.Disjoint.{IsFile, IsAllocated}
use rymos.Pfs.Disk.{
  Disk, sector_size, logical_sector, chunk, ata_read_sector, read_chunk, read_from, pfs_read_at,
  pfs_file_max, has_magic,
}
use rymos.Pfs.Disk.Sectors.{
  After, After-ok, After-and_then, After-weaken, Works, Works-of, Same, Same-trans, header_of,
  ata_read_sector-After, After-test, After-failed, read_header_silent-and_then,
}
use rymos.Pfs.Disk.Places.{place, place-some, lba-bounds}

-- The bytes are those of the file from the position `from` on.
abbrev pub Holds : Header → ℕ → Table ℕ → ℕ → List ℕ → Type 0
Holds h index bytes from [] = Unit {0}
Holds h index bytes from (b ∷ bs) =
    ((x : ℕ) × (place h index from ≡ some x) × (bytes x ≡ b)) × Holds h index bytes (suc from) bs

pub Holds-append :
    (h : Header) (index : ℕ) (bytes : Table ℕ) (from : ℕ) (xs ys : List ℕ)
    → Holds h index bytes from xs
    → Holds h index bytes (from + length xs) ys
    → Holds h index bytes from (xs ++ ys)
Holds-append h index bytes from [] ys p q = subst (λ n. Holds h index bytes n ys) (omega arith) q
Holds-append h index bytes from (x ∷ xs) ys (here, p) q = (
  here,
  Holds-append h index bytes (suc from) xs ys p
      (subst (λ n. Holds h index bytes n ys) (omega arith) q),
)

-- A position in the same sector lies next to the one before it.
pub place-suc :
    (h : Header) (index p lba : ℕ)
    → pfs_entry_lba_for_sector h index (logical_sector p) ≡ some lba
    → p % sector_size + 1 < sector_size
    → pfs_entry_lba_for_sector h index (logical_sector (suc p)) ≡ some lba
place-suc h index p lba found inside =
    ap (pfs_entry_lba_for_sector h index) (omega (arith, inside)) ∙ found

-- What the slice of a sector holds.
pub slice-Holds :
    (h : Header) (index : ℕ) (bytes : Table ℕ) (n p lba : ℕ)
    → pfs_entry_lba_for_sector h index (logical_sector p) ≡ some lba
    → p % sector_size + n ≤ sector_size
    → Holds h index bytes p (read_slice (λ o. bytes (lba * sector_size + o)) (p % sector_size) n)
unfolding read_slice
slice-Holds h index bytes zero p lba found fits = tt
slice-Holds h index bytes (suc zero) p lba found fits =
    ((_, place-some h index p lba found, refl), tt)
slice-Holds h index bytes (suc (suc n)) p lba found fits = (
  (_, place-some h index p lba found, refl),
  subst
      (λ o. Holds h index bytes (suc p) (read_slice (λ o. bytes (lba * sector_size + o)) o (suc n)))
      (omega (arith, fits))
      (slice-Holds h index bytes (suc n) (suc p) lba
        (place-suc h index p lba found (omega (arith, fits))) (omega (arith, fits))),
)

-- A position of the range has no sector.
abbrev pub Missing : Header → ℕ → ℕ → ℕ → Type 0
Missing h index from rest =
    (p : ℕ) × (from ≤ p)
    × (p < from + rest)
    × (pfs_entry_lba_for_sector h index (logical_sector p) ≡ none)

-- The sectors of the entry are on the disk.
abbrev pub HasPlaces : Header → ℕ → Type 0
HasPlaces h index =
    (k lba : ℕ) → pfs_entry_lba_for_sector h index k ≡ some lba → lba < pfs_disk_sectors

module _ (h : Header) (index : ℕ) (bounded : HasPlaces h index) where
  -- What reading `n` bytes from the position `from` does.
  abbrev Failed : Disk → ℕ → ℕ → Disk → Type 0
  Failed d from n d' = Same d d' × (Works d → Missing h index from n)

  abbrev Read : Disk → ℕ → ℕ → Disk → List ℕ → Type 0
  Read d from n d' bs = Same d d' × (length bs ≡ n) × Holds h index d.bytes from bs

  read_chunk-After :
      (d : Disk) (from count : ℕ) (o : Option ℕ)
      → pfs_entry_lba_for_sector h index (logical_sector from) ≡ o
      → 0 < count
      → from % sector_size + count ≤ sector_size
      → After (Failed d from count) (Read d from count) (read_chunk d from o count)
  unfolding After
  read_chunk-After d from count none found some_bytes fits =
      ((refl, refl), λ works. (from, omega arith, omega (arith, some_bytes), found))
  read_chunk-After d from count (some lba) found some_bytes fits =
      After-and_then _ (ata_read_sector d lba) _
        (ata_read_sector-After d lba (omega (arith, bounded (logical_sector from) lba found)))
        (λ d' (same, broken). (same, λ works. absurd (broken works)))
        (λ d' sector (same, read). (
          same,
          length-read_slice sector (from % sector_size) count,
          subst
              (λ sector. Holds h index d.bytes from (read_slice sector (from % sector_size) count))
              (sym read) (slice-Holds h index d.bytes count from lba found fits),
        ))

  read_from-After :
      (fuel from rest : ℕ) (d : Disk)
      → rest ≤ fuel
      → After (Failed d from rest) (Read d from rest) (read_from h index fuel from rest d)
  unfolding read_from
  read_from-After fuel from zero d l = After-ok _ _ _ _ ((refl, refl), refl, tt)
  read_from-After zero from (suc rest) d l = absurd (omega (arith, l))
  read_from-After (suc fuel) from (suc rest) d l =
      After-and_then _
        (read_chunk d from (pfs_entry_lba_for_sector h index (logical_sector from)) count) _
        (read_chunk-After d from count _ refl (omega arith) (omega arith))
        (λ d' (same, why). (
          same,
          λ works.
              let (p, low, high, none_there) = why works in
              (p, low, omega (arith, high), none_there),
        ))
        (λ d' bs (same, long, holds).
          After-and_then _ (read_from h index fuel (from + count) (suc rest - count) d') _
            (read_from-After fuel (from + count) (suc rest - count) d' (omega (arith, l)))
            (λ d'' (same', why). (
              Same-trans d d' d'' same same',
              λ works.
                  let (p, low, high, none_there) = why (Works-of d d' same.1 works) in
                  (p, omega (arith, low), omega (arith, high), none_there),
            ))
            (λ d'' more (same', long', holds'). After-ok _ _ _ _ (
              Same-trans d d' d'' same same',
              length-append bs more ∙ omega (arith, long, long'),
              Holds-append h index d.bytes from bs more holds (
                  subst (λ n. Holds h index d.bytes (from + n) more) (sym long)
                    (subst (λ b. Holds h index b (from + count) more) same.0 holds')),
            )))
    where
      count : ℕ
      count = chunk (suc rest) from

pub IsFile-HasPlaces : (h : Header) (index : ℕ) → IsAllocated h → IsFile h index → HasPlaces h index
IsFile-HasPlaces h index good file k lba found = (lba-bounds h index good file k lba found).1

-- Why reading or writing a range of a file can fail with a drive that works.
abbrev pub Refuses : Disk → ℕ → ℕ → ℕ → Type 0
Refuses d index offset len =
    (has_magic (header_of d) ≡ false)
    ⊎ ((pfs_file_max < offset + len) ⊎ Missing (header_of d) index offset len)

-- On a disk whose files have sectors of their own, reading a range of a file writes nothing to the
-- disk. The result is the bytes that the file has in
-- the range. With a drive that does every command it fails only if the disk has no RYMFS5 header, if
-- the range goes beyond the largest file, or if a position of it has no sector.
pub pfs_read_at-After :
    (d : Disk) (index offset len : ℕ)
    → IsAllocated (header_of d)
    → IsFile (header_of d) index
    → offset + len < 2 ^ 64
    → After
        (λ d'. Same d d' × (Works d → Refuses d index offset len))
        (λ d' bs. Same d d' × (length bs ≡ len) × Holds (header_of d) index d.bytes offset bs)
        (pfs_read_at index offset len d)
unfolding pfs_read_at
pfs_read_at-After d index offset len good file fits =
    read_header_silent-and_then _ d _ (λ d' same why. (same, λ works. inl (why works)))
      (λ d' same has.
        After-test _ _
          (ltb pfs_file_max ((offset + len) % 2 ^ 64) || not (pfs_entry_used (header_of d) index)) _
          _
          (λ e. After-failed _ _ d' (same, λ works. inr (inl (ground (arith, e, file.0.1, fits)))))
          (λ e.
            After-weaken _ (read_from (header_of d) index len offset len d')
              (read_from-After (header_of d) index (IsFile-HasPlaces (header_of d) index good file)
                len offset len d' (omega arith))
              (λ d'' (same', why). (
                Same-trans d d' d'' same same',
                λ works. inr (inr (why (Works-of d d' same.1 works))),
              ))
              (λ d'' bs (same', long, holds). (
                Same-trans d d' d'' same same',
                long,
                subst (λ b. Holds (header_of d) index b offset bs) same.0 holds,
              ))))
