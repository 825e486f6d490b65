-- ===== src/Pfs/Header/Frame.antt =====
-- kernel/src/main.rs: the bytes that an entry depends on and those that writing it changes.
use rymos.Prelude.{
  ℕ, ◌+◌, ◌*◌, ◌≤◌, ◌<◌, ◌≡◌, ◌≢◌, refl, sym, false, ap, ◌∙◌, not, min, List, [], ◌∷◌, arith,
  length, take, fill, le_bytes, length-take, update-Outside, fill-Outside, write_slice-Outside,
  Outside, read_slice-eq, read_slice, read_le32_from_slice, read_le64_from_slice, ◌==◌,
}
use rymos.Pfs.Header.{
  Header, Entry, PfsExtent, pfs_entry_offset, pfs_entry_size, pfs_extent_count_offset,
  pfs_extents_offset, pfs_max_extents, pfs_created_offset, pfs_modified_offset, pfs_mode_offset,
  pfs_name_offset, pfs_name_max, write_extent, write_extents, entry_of, pfs_set_entry,
  pfs_clear_entry, pfs_entry_used, pfs_entry_is_dir, pfs_entry_name, pfs_entry_length,
  pfs_entry_kind, pfs_entry_created, pfs_entry_mode, pfs_entry_extent_count, pfs_entry_extents,
  extents_from, pfs_kind_dir,
}
use rymos.Pfs.Header.Codec.{
  entry_eq, kinded, name_sized, sized, counted, extended, created, modified, moded,
}
use rymos.Pfs.Header.ExtentBytes.{extents_from-eq}

-- The two headers have the same bytes in the place of this entry.
abbrev pub SameBytes : Header → Header → ℕ → Type 0
SameBytes h h' index =
    (x : ℕ) → pfs_entry_offset index ≤ x → x < pfs_entry_offset index + pfs_entry_size → h x ≡ h' x

-- The length byte of the entry's name is at most `PFS_NAME_MAX`.
abbrev pub NameFits : Header → ℕ → Type 0
NameFits h index = h (pfs_entry_offset index + 1) ≤ pfs_name_max

module _ (h h' : Header) (index : ℕ) (same : SameBytes h h' index) where
  pub pfs_entry_used-eq : pfs_entry_used h index ≡ pfs_entry_used h' index
  unfolding pfs_entry_used
  pfs_entry_used-eq =
      ap (λ b. not (b == 0)) (same (pfs_entry_offset index) (omega arith) (omega arith))

  pub pfs_entry_is_dir-eq : pfs_entry_is_dir h index ≡ pfs_entry_is_dir h' index
  unfolding pfs_entry_is_dir
  pfs_entry_is_dir-eq =
      ap (λ b. b == pfs_kind_dir) (same (pfs_entry_offset index) (omega arith) (omega arith))

  pub pfs_entry_name-eq : NameFits h index → pfs_entry_name h index ≡ pfs_entry_name h' index
  unfolding pfs_entry_name
  pfs_entry_name-eq fits =
      read_slice-eq h h' _ _ (λ x low high. same x (omega arith) (omega arith))
      ∙ ap (read_slice h' (pfs_entry_offset index + pfs_name_offset))
          (same (pfs_entry_offset index + 1) (omega arith) (omega arith))

  extents-eq : pfs_entry_extents h index ≡ pfs_entry_extents h' index
  unfolding pfs_entry_extents pfs_entry_extent_count
  extents-eq =
      extents_from-eq h h' index 0 _ (λ x low high. same x (omega arith) (omega arith))
      ∙ ap (λ n. extents_from h' index 0 (min n pfs_max_extents))
          (same (pfs_entry_offset index + pfs_extent_count_offset) (omega arith) (omega arith))

  pub entry_of-eq : NameFits h index → entry_of h index ≡ entry_of h' index
  unfolding pfs_entry_length pfs_entry_kind pfs_entry_created pfs_entry_mode
  entry_of-eq fits =
      entry_eq (entry_of h index) (entry_of h' index) (pfs_entry_name-eq fits)
        (ap read_le32_from_slice
          (read_slice-eq h h' _ 4 λ x low high. same x (omega arith) (omega arith)))
        (same (pfs_entry_offset index) (omega arith) (omega arith)) extents-eq
        (ap read_le64_from_slice
          (read_slice-eq h h' _ 8 λ x low high. same x (omega arith) (omega arith)))
        (same (pfs_entry_offset index + pfs_mode_offset) (omega arith) (omega arith))

write_extents-Outside :
    (h : Header) (o : ℕ) (es : List PfsExtent) (x : ℕ)
    → Outside o (length es * 8) x
    → write_extents h o es x ≡ h x
unfolding write_extents
write_extents-Outside h o [] x out = refl
write_extents-Outside h o (e ∷ es) x out =
    write_extents-Outside (write_extent h o e) (o + 8) es x (omega arith)
    ∙ write_slice-Outside _ (o + 4) (le_bytes 4 e.sectors) x (omega arith)
    ∙ write_slice-Outside h o (le_bytes 4 e.start) x (omega arith)

-- `pfs_set_entry` writes inside the place of its entry.
pub pfs_set_entry-Outside :
    (h : Header) (index : ℕ) (e : Entry) (now x : ℕ)
    → length e.name ≤ pfs_name_max
    → Outside (pfs_entry_offset index) pfs_entry_size x
    → pfs_set_entry h index e now x ≡ h x
unfolding pfs_set_entry
pfs_set_entry-Outside h index e now x fits out =
    write_slice-Outside (moded h index e now) (o + pfs_name_offset) e.name x (omega arith)
    ∙ update-Outside (modified h index e now) (o + pfs_mode_offset) e.mode x (omega arith)
    ∙ write_slice-Outside (created h index e now) (o + pfs_modified_offset) (le_bytes 8 now) x
        (omega arith)
    ∙ write_slice-Outside (extended h index e now) (o + pfs_created_offset)
        (le_bytes 8 e.created_ticks) x (omega arith)
    ∙ write_extents-Outside (counted h index e now) (o + pfs_extents_offset)
        (take pfs_max_extents e.extents) x (omega (arith, length-take pfs_max_extents e.extents))
    ∙ update-Outside (sized h index e now) (o + pfs_extent_count_offset) _ x (omega arith)
    ∙ write_slice-Outside (name_sized h index e now) (o + 2) (le_bytes 4 e.size) x (omega arith)
    ∙ update-Outside (kinded h index e now) (o + 1) _ x (omega arith)
    ∙ update-Outside (fill h o pfs_entry_size 0) o e.kind x (omega arith)
    ∙ fill-Outside h o pfs_entry_size 0 x (omega arith)
  where
    o : ℕ
    o = pfs_entry_offset index

-- Writing an entry leaves the bytes of every other entry.
pub SameBytes-pfs_set_entry :
    (h : Header) (index : ℕ) (e : Entry) (now j : ℕ)
    → length e.name ≤ pfs_name_max
    → index ≢ j
    → SameBytes h (pfs_set_entry h index e now) j
SameBytes-pfs_set_entry h index e now j fits ne x low high =
    sym (pfs_set_entry-Outside h index e now x fits (omega arith))

pub SameBytes-pfs_clear_entry :
    (h : Header) (index j : ℕ) → index ≢ j → SameBytes h (pfs_clear_entry h index) j
unfolding pfs_clear_entry
SameBytes-pfs_clear_entry h index j ne x low high =
    sym (fill-Outside h (pfs_entry_offset index) pfs_entry_size 0 x (omega arith))

pub pfs_entry_used-pfs_clear_entry :
    (h : Header) (index : ℕ) → pfs_entry_used (pfs_clear_entry h index) index ≡ false
unfolding pfs_clear_entry pfs_entry_used fill
pfs_entry_used-pfs_clear_entry h index = ground arith
