-- ===== src/Pfs/Disk/HeaderWrite.antt =====
-- kernel/src/main.rs: `write_header`, sector by sector.
use rymos.Prelude.{
  ℕ, zero, suc, ◌+◌, ◌-◌, ◌*◌, ◌≤◌, ◌<◌, ◌≡◌, refl, ap, ◌∙◌, ◌&&◌, arith, ltb, leb, if◌then◌else◌,
  Table,
}
use native.Mathlib.Decide.{dec_lt}
use mathlib.Core.Path.{fun_ext}
use rymos.Pfs.Header.{Header}
use rymos.Pfs.Extents.{pfs_header_sectors}
use rymos.Pfs.Disk.{
  Disk, sector_size, copy_sector, ata_write_sector, write_sectors, write_header, pfs_header_bytes,
}
use rymos.Pfs.Disk.Sectors.{
  After, After-ok, After-and_then, After-weaken, Works, Works-of, OnlyIn, InSector, header_up_to,
  header_of, ata_write_sector-After,
}

abbrev pub InHeader : ℕ → Type 0
InHeader x = x < pfs_header_bytes

pub OnlyIn-weaken :
    (P Q : ℕ → Type 0) (d d' : Disk) → ((x : ℕ) → P x → Q x) → OnlyIn P d d' → OnlyIn Q d d'
OnlyIn-weaken P Q d d' inside (kept, same) = ((λ x out. kept x λ p. out (inside x p)), same)

pub OnlyIn-trans : (P : ℕ → Type 0) (a b c : Disk) → OnlyIn P a b → OnlyIn P b c → OnlyIn P a c
OnlyIn-trans P a b c (kept, same) (kept', same') =
    ((λ x out. kept' x out ∙ kept x out), same' ∙ same)

-- The bytes after the sectors from `i` to `m` are written from the header.
abbrev written : ℕ → ℕ → Header → Table ℕ → Table ℕ
written i m h bytes x = if leb (i * sector_size) x && ltb x (m * sector_size) then h x else bytes x

written_step :
    (h : Header) (i m : ℕ) (bytes bytes' : Table ℕ)
    → i < m
    → bytes' ≡ copy_sector bytes (i * sector_size) (λ o. h (i * sector_size + o))
    → written (suc i) m h bytes' ≡ written i m h bytes
written_step h i m bytes bytes' l e = rw e (fun_ext λ x. here x)
  where
    here :
        (x : ℕ)
        → written (suc i) m h (copy_sector bytes (i * sector_size) (λ o. h (i * sector_size + o))) x
          ≡ written i m h bytes x
    here x = elim (dec_lt x (i * sector_size)) [
      | yes below ↦ ground (arith, below, l)
      | no above ↦
          let at : i * sector_size + (x - i * sector_size) ≡ x = omega (arith, above) in
          rw at (ground (arith, above, l))
    ]

write_sectors-After :
    (n i m : ℕ) (h : Header) (d : Disk)
    → m ≤ pfs_header_sectors
    → i + n ≡ m
    → After
        (λ d'. OnlyIn InHeader d d' × ¬ Works d)
        (λ d' _. OnlyIn InHeader d d' × (d'.bytes ≡ written i m h d.bytes))
        (write_sectors n i h d)
unfolding write_sectors
write_sectors-After zero i m h d l at =
    After-ok _ _ _ _ (((λ x out. refl), refl), fun_ext λ x. ground (arith, at))
write_sectors-After (suc n) i m h d l at =
    After-and_then _ (ata_write_sector d i (λ o. h (i * sector_size + o))) _
      (ata_write_sector-After d i (omega (arith, l, at)) (λ o. h (i * sector_size + o)))
      (λ d' (only, broken, either). (in_header d' only, broken))
      (λ d' _ (only, put).
        After-weaken _ _ (write_sectors-After n (suc i) m h d' l (omega (arith, at)))
          (λ d'' (only', broken). (
            OnlyIn-trans InHeader d d' d'' (in_header d' only) only',
            λ works. broken (Works-of d d' only.1 works),
          ))
          (λ d'' _ (only', all). (
            OnlyIn-trans InHeader d d' d'' (in_header d' only) only',
            all ∙ written_step h i m d.bytes d'.bytes (omega (arith, at)) put,
          )))
  where
    in_header : (d' : Disk) → OnlyIn (InSector i) d d' → OnlyIn InHeader d d'
    in_header d' = OnlyIn-weaken (InSector i) InHeader d d' λ x inside. omega (arith, inside, l, at)

-- `write_header` changes no byte outside the header, and the header on the disk is then the one that
-- it was given.
pub write_header-After :
    (d : Disk) (h : Header)
    → After
        (λ d'. OnlyIn InHeader d d' × ¬ Works d)
        (λ d' _. OnlyIn InHeader d d' × (header_of d' ≡ header_up_to pfs_header_sectors h))
        (write_header d h)
unfolding write_header
write_header-After d h =
    After-weaken _ (write_sectors pfs_header_sectors 0 h d)
      (write_sectors-After pfs_header_sectors 0 pfs_header_sectors h d (omega arith) (omega arith))
      (λ d' failed. failed)
      (λ d' _ (only, all).
        (only, ap (header_up_to pfs_header_sectors) all ∙ fun_ext λ x. ground arith))
