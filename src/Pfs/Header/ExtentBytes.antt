-- ===== src/Pfs/Header/ExtentBytes.antt =====
-- kernel/src/main.rs: the bytes of an entry's extents, written by `pfs_set_entry` and read back.
use rymos.Prelude.{
  ℕ, zero, suc, ◌+◌, ◌*◌, ◌^◌, ◌≤◌, ◌<◌, ◌≡◌, refl, ap, ap₂, ◌∙◌, inl, List, [], ◌∷◌, arith, length,
  take, write_slice, read_slice, le_bytes, length-le_bytes, write_slice-Outside, read_slice-eq,
  read_slice-write_slice, read_le32_from_slice, read_le32_from_slice-le_bytes,
}
use rymos.Pfs.Header.{
  Header, PfsExtent, pfs_entry_offset, pfs_extents_offset, write_extent, write_extents,
  extents_from, pfs_entry_extent,
}

abbrev pub AllExtents : List PfsExtent → Type 0
AllExtents [] = Unit {0}
AllExtents (e ∷ es) = (e.start < 2 ^ 32) × (e.sectors < 2 ^ 32) × AllExtents es

pub write_extents_before :
    (h : Header) (o : ℕ) (es : List PfsExtent) (x : ℕ) → x < o → write_extents h o es x ≡ h x
unfolding write_extents
write_extents_before h o [] x l = refl
write_extents_before h o (e ∷ es) x l =
    write_extents_before (write_extent h o e) (o + 8) es x (omega arith)
    ∙ write_slice-Outside _ (o + 4) (le_bytes 4 e.sectors) x (inl (omega arith))
    ∙ write_slice-Outside h o (le_bytes 4 e.start) x (inl l)

pub extent_eq : (a b : PfsExtent) → a.start ≡ b.start → a.sectors ≡ b.sectors → a ≡ b
extent_eq a b p q = ground arith

-- An extent is read back from its place.
pub pfs_entry_extent-write_extents :
    (h : Header) (index slot o : ℕ) (e : PfsExtent) (es : List PfsExtent)
    → pfs_entry_offset index + pfs_extents_offset + slot * 8 ≡ o
    → e.start < 2 ^ 32
    → e.sectors < 2 ^ 32
    → pfs_entry_extent (write_extents h o (e ∷ es)) index slot ≡ e
unfolding pfs_entry_extent write_extents
pfs_entry_extent-write_extents h index slot o e es at s l = rw at (extent_eq _ e first second)
  where
    all : Header
    all = write_extents (write_extent h o e) (o + 8) es

    first : read_le32_from_slice (read_slice all o 4) ≡ e.start
    first =
        ap read_le32_from_slice (
          read_slice-eq all (write_slice h o (le_bytes 4 e.start)) o 4 (λ x low high.
            write_extents_before (write_extent h o e) (o + 8) es x (omega arith)
            ∙ write_slice-Outside _ (o + 4) (le_bytes 4 e.sectors) x (inl (omega arith)))
          ∙ read_slice-write_slice h o 4 (le_bytes 4 e.start) (length-le_bytes 4 e.start))
        ∙ read_le32_from_slice-le_bytes e.start s

    second : read_le32_from_slice (read_slice all (o + 4) 4) ≡ e.sectors
    second =
        ap read_le32_from_slice (
          read_slice-eq all (write_extent h o e) (o + 4) 4
            (λ x low high. write_extents_before (write_extent h o e) (o + 8) es x (omega arith))
          ∙ read_slice-write_slice _ (o + 4) 4 (le_bytes 4 e.sectors) (length-le_bytes 4 e.sectors))
        ∙ read_le32_from_slice-le_bytes e.sectors l

pub extents_from-write_extents :
    (h : Header) (index slot o : ℕ) (es : List PfsExtent)
    → pfs_entry_offset index + pfs_extents_offset + slot * 8 ≡ o
    → AllExtents es
    → extents_from (write_extents h o es) index slot (length es) ≡ es
unfolding extents_from write_extents
extents_from-write_extents h index slot o [] at fit = refl
extents_from-write_extents h index slot o (e ∷ es) at fit =
    ap₂ ◌∷◌ (pfs_entry_extent-write_extents h index slot o e es at fit.0 fit.1) (
      extents_from-write_extents (write_extent h o e) index (suc slot) (o + 8) es (omega arith)
        fit.2)

pub take_all : (es : List PfsExtent) (n : ℕ) → length es ≤ n → take n es ≡ es
take_all [] zero l = refl
take_all [] (suc n) l = refl
take_all (e ∷ es) zero l = absurd (omega arith)
take_all (e ∷ es) (suc n) l = ap (◌∷◌ e) (take_all es n (omega arith))

-- The extents depend on the bytes of their places only.
pub extents_from-eq :
    (h h' : Header) (index slot n : ℕ)
    → ((x : ℕ)
        → pfs_entry_offset index + pfs_extents_offset + slot * 8 ≤ x
        → x < pfs_entry_offset index + pfs_extents_offset + (slot + n) * 8
        → h x ≡ h' x)
    → extents_from h index slot n ≡ extents_from h' index slot n
unfolding extents_from pfs_entry_extent
extents_from-eq h h' index slot zero same = refl
extents_from-eq h h' index slot (suc n) same =
    ap₂ ◌∷◌
      (extent_eq _ _
        (ap read_le32_from_slice (read_slice-eq h h' _ 4 λ x low high. same x low (omega arith)))
        (ap read_le32_from_slice
          (read_slice-eq h h' _ 4 λ x low high. same x (omega arith) (omega arith))))
      (extents_from-eq h h' index (suc slot) n λ x low high. same x (omega arith) (omega arith))
