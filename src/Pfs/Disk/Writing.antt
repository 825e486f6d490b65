-- ===== src/Pfs/Disk/Writing.antt =====
-- kernel/src/main.rs: the loops of `pfs_write_at` and `pfs_zero_range`.
use rymos.Prelude.{
  ℕ, zero, suc, ◌+◌, ◌-◌, ◌*◌, ◌%◌, ◌≤◌, ◌<◌, ◌≡◌, refl, sym, ap, subst, ◌∙◌, ◌⊎◌, inl, inr, ◌&&◌,
  Option, none, some, List, [], ◌∷◌, arith, Bool-cases, ltb, leb, Table, length, read_slice,
  write_slice, read_slice-eq, read_slice-write_slice, write_slice-Outside, Outside,
}
use native.Mathlib.Decide.{dec_lt}
use rymos.Pfs.Header.{Header}
use rymos.Pfs.Extents.{pfs_entry_lba_for_sector, pfs_disk_sectors}
use rymos.Pfs.Extents.Disjoint.{IsFile, IsAllocated}
use rymos.Pfs.Disk.{
  Disk, and_then, sector_size, logical_sector, copy_sector, ata_read_sector, ata_write_sector,
  write_chunk, pfs_file_max,
}
use rymos.Pfs.Disk.Sectors.{
  After, After-failed, After-and_then, After-weaken, Works, Works-of, Same, OnlyIn,
  ata_read_sector-After, ata_write_sector-After,
}
use rymos.Pfs.Disk.Places.{place, place-some, place-injective}
use rymos.Pfs.Disk.Reading.{Holds, place-suc, slice-Holds, Missing, IsFile-HasPlaces}

-- The byte of the disk belongs to a position of the range.
abbrev pub InRange : Header → ℕ → ℕ → ℕ → ℕ → Type 0
InRange h index from n x = (p : ℕ) × (from ≤ p) × (p < from + n) × (place h index p ≡ some x)

-- The place of a position in the sector of `from`.
place-in_sector :
    (h : Header) (index from lba k : ℕ)
    → pfs_entry_lba_for_sector h index (logical_sector from) ≡ some lba
    → from % sector_size + k < sector_size
    → place h index (from + k) ≡ some (lba * sector_size + (from % sector_size + k))
place-in_sector h index from lba zero found l =
    subst (λ p. place h index p ≡ some (lba * sector_size + (from % sector_size + zero)))
      (omega arith) (place-some h index from lba found ∙ ap some (omega arith))
place-in_sector h index from lba (suc k) found l =
    subst (λ p. place h index p ≡ some (lba * sector_size + (from % sector_size + suc k)))
      (omega arith)
      (place-in_sector h index (suc from) lba k
          (place-suc h index from lba found (omega (arith, l))) (omega (arith, l))
        ∙ ap some (omega (arith, l)))

module _ (h : Header) (index : ℕ) (good : IsAllocated h) (file : IsFile h index) where
  -- Bytes at positions outside a range stay.
  pub Holds-OnlyIn :
      (d d' : Disk) (from n start : ℕ) (bs : List ℕ)
      → OnlyIn (InRange h index from n) d d'
      → (start + length bs ≤ from) ⊎ (from + n ≤ start)
      → start + length bs ≤ pfs_file_max
      → from + n ≤ pfs_file_max
      → Holds h index d.bytes start bs
      → Holds h index d'.bytes start bs
  Holds-OnlyIn d d' from n start [] only apart fits fits' holds = tt
  Holds-OnlyIn d d' from n start (b ∷ bs) only apart fits fits' ((x, at, is), holds) = (
    (x, at, only.0 x outside ∙ is),
    Holds-OnlyIn d d' from n (suc start) bs only (omega (arith, apart)) (omega (arith, fits)) fits'
        holds,
  )
    where
      outside : ¬ InRange h index from n x
      outside (p, low, high, there) = omega (
        arith,
        low,
        high,
        apart,
        fits,
        place-injective h index good file p start x (omega (arith, high, fits'))
            (omega (arith, fits)) there at,
      )

  abbrev pub Failed : Disk → ℕ → ℕ → Disk → Type 0
  Failed d from n d' = OnlyIn (InRange h index from n) d d' × (Works d → Missing h index from n)

  abbrev pub Wrote : Disk → ℕ → List ℕ → Disk → Unit {0} → Type 0
  Wrote d from bs d' _ =
      OnlyIn (InRange h index from (length bs)) d d' × Holds h index d'.bytes from bs

  module _ (d : Disk) (from lba : ℕ) (bs : List ℕ) (sector : Table ℕ)
      (found : pfs_entry_lba_for_sector h index (logical_sector from) ≡ some lba)
      (fits : from % sector_size + length bs ≤ sector_size)
      (kept : (o : ℕ)
        → o < sector_size
        → Outside (from % sector_size) (length bs) o
        → sector o ≡ d.bytes (lba * sector_size + o))
      (has : read_slice sector (from % sector_size) (length bs) ≡ bs) where
    patched : Table ℕ
    patched = copy_sector d.bytes (lba * sector_size) sector

    patched-at : (o : ℕ) → o < sector_size → patched (lba * sector_size + o) ≡ sector o
    unfolding patched
    patched-at o l =
        let at : lba * sector_size + o - lba * sector_size ≡ o = omega arith in
        rw at (ground (arith, l))

    patched-kept : (x : ℕ) → ¬ InRange h index from (length bs) x → patched x ≡ d.bytes x
    unfolding patched
    patched-kept x out =
        elim (Bool-cases (leb (lba * sector_size) x && ltb x (lba * sector_size + sector_size))) [
          | inr e ↦ rw e refl
          | inl e ↦
              let low : lba * sector_size ≤ x = ground (arith, e) in
              let high : x < lba * sector_size + sector_size = ground (arith, e) in
              let at : lba * sector_size + (x - lba * sector_size) ≡ x = omega (arith, low) in
              rw e (
                kept (x - lba * sector_size) (omega (arith, low, high)) (beside low high)
                ∙ ap d.bytes at)
        ]
      where
        beside :
            lba * sector_size ≤ x
            → x < lba * sector_size + sector_size
            → Outside (from % sector_size) (length bs) (x - lba * sector_size)
        beside low high = elim (dec_lt (x - lba * sector_size) (from % sector_size)) [
          | yes before ↦ inl before
          | no a ↦ elim (dec_lt (x - lba * sector_size) (from % sector_size + length bs)) [
            | no after ↦ inr (omega (arith, after))
            | yes inside ↦
                let k : ℕ = x - lba * sector_size - from % sector_size in
                absurd (
                  out (
                    from + (x - lba * sector_size - from % sector_size),
                    omega arith,
                    omega (arith, inside, a),
                    place-in_sector h index from lba (x - lba * sector_size - from % sector_size)
                          found (omega (arith, inside, a, fits))
                        ∙ ap some (omega (arith, a, low)),
                  ))
          ]
        ]

    -- Writing the patched sector stores the bytes, or fails and changes none but theirs.
    pub put-After :
        lba < pfs_disk_sectors
        → After (Failed d from (length bs)) (Wrote d from bs) (ata_write_sector d lba sector)
    unfolding patched
    put-After small =
        After-weaken _ (ata_write_sector d lba sector)
          (ata_write_sector-After d lba (omega (arith, small)) sector)
          (λ d' (only, broken, either). ((left d' either, only.1), λ works. absurd (broken works)))
          (λ d' _ (only, at). ((left d' (inr at), only.1), stored d' at))
      where
        left :
            (d' : Disk)
            → (d'.bytes ≡ d.bytes) ⊎ (d'.bytes ≡ patched)
            → (x : ℕ) → ¬ InRange h index from (length bs) x
            → d'.bytes x ≡ d.bytes x
        left d' (inl at) x out = rw at refl
        left d' (inr at) x out = rw at (patched-kept x out)

        stored : (d' : Disk) → d'.bytes ≡ patched → Holds h index d'.bytes from bs
        stored d' at =
            subst (Holds h index d'.bytes from)
              (read_slice-eq (λ o. d'.bytes (lba * sector_size + o)) sector (from % sector_size)
                  (length bs)
                  (λ o low high.
                    ap (λ b. b (lba * sector_size + o)) at
                    ∙ patched-at o (omega (arith, high, fits)))
                ∙ has)
              (slice-Holds h index d'.bytes (length bs) from lba found fits)

  pub bounded : (k lba : ℕ) → pfs_entry_lba_for_sector h index k ≡ some lba → lba < pfs_disk_sectors
  bounded = IsFile-HasPlaces h index good file

  pub no_chunk :
      (d : Disk) (from n : ℕ)
      → 0 < n
      → pfs_entry_lba_for_sector h index (logical_sector from) ≡ none
      → Failed d from n d
  no_chunk d from n some_bytes found =
      (((λ x out. refl), refl), λ works. (from, omega arith, omega (arith, some_bytes), found))

  pub Same-OnlyIn :
      (P : ℕ → Type 0) (d d' d'' : Disk) → Same d d' → OnlyIn P d' d'' → OnlyIn P d d''
  Same-OnlyIn P d d' d'' (bytes, answers) (kept, answers') =
      ((λ x out. kept x out ∙ ap (λ b. b x) bytes), answers' ∙ answers)

  -- A command that reads the sector comes first.
  pub after_read :
      (d : Disk) (from lba : ℕ) (bs : List ℕ) (f : Table ℕ → Table ℕ)
      → pfs_entry_lba_for_sector h index (logical_sector from) ≡ some lba
      → from % sector_size + length bs ≤ sector_size
      → ((s : Table ℕ) (o : ℕ) → Outside (from % sector_size) (length bs) o → f s o ≡ s o)
      → ((s : Table ℕ) → read_slice (f s) (from % sector_size) (length bs) ≡ bs)
      → After
          (Failed d from (length bs))
          (Wrote d from bs)
          (and_then (ata_read_sector d lba) (λ d sector. ata_write_sector d lba (f sector)))
  after_read d from lba bs f found fits kept has =
      After-and_then _ (ata_read_sector d lba) _
        (ata_read_sector-After d lba (omega (arith, bounded (logical_sector from) lba found)))
        (λ d' (same, broken). (
          Same-OnlyIn (InRange h index from (length bs)) d d' d' same ((λ x out. refl), refl),
          λ works. absurd (broken works),
        ))
        (λ d' sector (same, read).
          After-weaken _ (ata_write_sector d' lba (f sector))
            (put-After d' from lba bs (f sector) found fits
              (λ o l out.
                kept sector o out
                ∙ ap (λ s. s o) read
                ∙ ap (λ b. b (lba * sector_size + o)) (sym same.0))
              (has sector) (bounded (logical_sector from) lba found))
            (λ d'' (only, why). (
              Same-OnlyIn (InRange h index from (length bs)) d d' d'' same only,
              λ works. why (Works-of d d' same.1 works),
            ))
            (λ d'' _ (only, holds).
              (Same-OnlyIn (InRange h index from (length bs)) d d' d'' same only, holds)))

  pub write_chunk-After :
      (d : Disk) (from : ℕ) (bs : List ℕ) (o : Option ℕ)
      → pfs_entry_lba_for_sector h index (logical_sector from) ≡ o
      → 0 < length bs
      → from % sector_size + length bs ≤ sector_size
      → After (Failed d from (length bs)) (Wrote d from bs) (write_chunk d from o bs)
  write_chunk-After d from bs none found some_bytes fits =
      After-failed _ _ d (no_chunk d from (length bs) some_bytes found)
  write_chunk-After d from bs (some lba) found some_bytes fits =
      after_read d from lba bs (λ s. write_slice s (from % sector_size) bs) found fits
        (λ s o out. write_slice-Outside s (from % sector_size) bs o out)
        (λ s. read_slice-write_slice s (from % sector_size) (length bs) bs refl)
