-- ===== src/Pfs/Extents/Size.antt =====
-- kernel/src/main.rs: `pfs_update_size` on the header.
use rymos.Prelude.{
  ℕ, ◌+◌, ◌<◌, ◌%◌, ◌^◌, ◌≡◌, ◌≢◌, sym, ap, subst, ◌∙◌, inl, inr, not, min, Option, none, some,
  arith, Bool-cases, ◌==◌, write_slice, write_slice-Outside, read_slice, read_slice-eq,
  read_slice-write_slice, le_bytes, length-le_bytes, Outside, read_le32_from_slice,
  read_le32_from_slice-le_bytes, read_le64_from_slice, read_le64_from_slice-le_bytes,
}
use native.Mathlib.Decide.{ℕ_discrete}
use rymos.Pfs.Header.{
  Header, pfs_entry_offset, pfs_modified_offset, pfs_created_offset, pfs_mode_offset,
  pfs_name_offset, pfs_extent_count_offset, pfs_max_extents, pfs_entry_count, pfs_entry_used,
  pfs_entry_kind, pfs_entry_name, pfs_entry_length, pfs_entry_extents, pfs_entry_extent_count,
  extents_from, pfs_entry_created, pfs_entry_modified, pfs_entry_mode, pfs_touch_modified, entry_of,
}
use rymos.Pfs.Header.Codec.{Fits, entry_eq}
use rymos.Pfs.Header.ExtentBytes.{extents_from-eq}
use rymos.Pfs.Header.Frame.{SameBytes, NameFits}
use rymos.Pfs.Directory.Unique.{
  IsUsed, IsConsistent, Fits-NameFits, IsUsed-back, entry_of-other, IsConsistent-other,
}
use rymos.Pfs.Extents.{update_size}
use rymos.Pfs.Extents.Disjoint.{IsAllocated, IsAllocated-same}

module _ (h : Header) (index size now : ℕ) (size_fits : size < 2 ^ 32)
    (now_fits : now < 2 ^ 64) where
  o : ℕ
  o = pfs_entry_offset index

  sized : Header
  sized = write_slice h (o + 2) (le_bytes 4 (size % 2 ^ 32))

  h' : Header
  h' = pfs_touch_modified sized index now

  -- The bytes beside the two fields.
  elsewhere : (x : ℕ) → Outside (o + 2) 4 x → Outside (o + pfs_modified_offset) 8 x → h x ≡ h' x
  unfolding h' sized o pfs_touch_modified
  elsewhere x out out' = sym (
      write_slice-Outside sized (o + pfs_modified_offset) (le_bytes 8 now) x
        (subst (λ n. Outside (o + pfs_modified_offset) n x) (sym (length-le_bytes 8 now)) out')
      ∙ write_slice-Outside h (o + 2) (le_bytes 4 (size % 2 ^ 32)) x
          (subst (λ n. Outside (o + 2) n x) (sym (length-le_bytes 4 (size % 2 ^ 32))) out))

  SameBytes-update_size : (j : ℕ) → index ≢ j → SameBytes h h' j
  unfolding o
  SameBytes-update_size j ne x low high =
      elsewhere x (omega (arith, low, high, ne)) (omega (arith, low, high, ne))

  modified_here : pfs_entry_modified h' index ≡ now
  unfolding h' o pfs_entry_modified pfs_touch_modified
  modified_here =
      ap read_le64_from_slice (
        read_slice-write_slice sized (o + pfs_modified_offset) 8 (le_bytes 8 now)
          (length-le_bytes 8 now))
      ∙ read_le64_from_slice-le_bytes now now_fits

  length_here : pfs_entry_length h' index ≡ size
  unfolding h' sized o pfs_entry_length pfs_touch_modified
  length_here =
      ap read_le32_from_slice (
        read_slice-eq h' sized (o + 2) 4 (λ x low high.
          write_slice-Outside sized (o + pfs_modified_offset) (le_bytes 8 now) x
            (inl (omega (arith, low, high))))
        ∙ read_slice-write_slice h (o + 2) 4 (le_bytes 4 (size % 2 ^ 32))
            (length-le_bytes 4 (size % 2 ^ 32)))
      ∙ read_le32_from_slice-le_bytes (size % 2 ^ 32) (omega arith)
      ∙ omega (arith, size_fits)

  kind_here : pfs_entry_kind h' index ≡ pfs_entry_kind h index
  unfolding o pfs_entry_kind
  kind_here = sym (elsewhere o (omega arith) (omega arith))

  used_here : pfs_entry_used h' index ≡ pfs_entry_used h index
  unfolding o pfs_entry_used
  used_here = ap (λ b. not (b == 0)) (sym (elsewhere o (omega arith) (omega arith)))

  name_here : NameFits h index → pfs_entry_name h' index ≡ pfs_entry_name h index
  unfolding o pfs_entry_name
  name_here fits = sym (
      read_slice-eq h h' (o + pfs_name_offset) (h (o + 1))
        (λ x low high. elsewhere x (omega (arith, low)) (omega (arith, low)))
      ∙ ap (read_slice h' (o + pfs_name_offset)) (elsewhere (o + 1) (omega arith) (omega arith)))

  extents_here : pfs_entry_extents h' index ≡ pfs_entry_extents h index
  unfolding o pfs_entry_extents pfs_entry_extent_count
  extents_here = sym (
      extents_from-eq h h' index 0 (min (h (o + pfs_extent_count_offset)) pfs_max_extents)
        (λ x low high. elsewhere x (omega (arith, low, high)) (omega (arith, low, high)))
      ∙ ap (λ n. extents_from h' index 0 (min n pfs_max_extents))
          (elsewhere (o + pfs_extent_count_offset) (omega arith) (omega arith)))

  entry_here : NameFits h index → entry_of h' index ≡ record (entry_of h index) { size = size }
  unfolding o pfs_entry_created pfs_entry_mode
  entry_here fits =
      entry_eq (entry_of h' index) (record (entry_of h index) { size = size }) (name_here fits)
        length_here kind_here extents_here
        (ap read_le64_from_slice (
          sym (
            read_slice-eq h h' (o + pfs_created_offset) 8
              (λ x low high. elsewhere x (omega (arith, low, high)) (omega (arith, low, high))))))
        (sym (elsewhere (o + pfs_mode_offset) (omega arith) (omega arith)))

  module _ (good : IsAllocated h) (used : IsUsed h index) where
    fits : NameFits h index
    fits = Fits-NameFits h index (good.consistent.fits index used)

    consistent' : IsConsistent h'
    consistent' =
        IsConsistent-other h h' index SameBytes-update_size good.consistent
          (λ used'. subst Fits (sym (entry_here fits)) sized-Fits)
          (λ j ne used_j used' same.
            ne (sym (good.consistent.unique j index used_j used (same ∙ name_here fits))))
      where
        sized-Fits : Fits (record (entry_of h index) { size = size })
        sized-Fits =
            let before = good.consistent.fits index used in
            record {
              name_fits = before.name_fits;
              size_fits = size_fits;
              extents_fit = before.extents_fit;
              words_fit = before.words_fit;
              created_fits = before.created_fits;
            }

    back : (j : ℕ) → IsUsed h' j → IsUsed h j
    back j used' = elim (ℕ_discrete index j) [
      | yes at ↦ subst (IsUsed h) at used
      | no ne ↦ IsUsed-back h h' index SameBytes-update_size j ne used'
    ]

    same :
        (j : ℕ)
        → IsUsed h' j
        → (pfs_entry_kind h' j ≡ pfs_entry_kind h j)
          × (pfs_entry_extents h' j ≡ pfs_entry_extents h j)
    same j used' = elim (ℕ_discrete index j) [
      | yes at ↦
          subst
            (λ j.
              (pfs_entry_kind h' j ≡ pfs_entry_kind h j)
              × (pfs_entry_extents h' j ≡ pfs_entry_extents h j))
            at (kind_here, extents_here)
      | no ne ↦
          let entry =
            sym (
              entry_of-other h h' index SameBytes-update_size j good.consistent ne
                (back j used')) in
          (ap (λ e. e.kind) entry, ap (λ e. e.extents) entry)
    ]

    sized-IsAllocated : IsAllocated h'
    sized-IsAllocated = IsAllocated-same h h' good consistent' back same

-- What `pfs_update_size` does to the header.
abbrev pub Resized : Header → ℕ → ℕ → ℕ → Option Header → Type 0
Resized h index size now (some h') =
    IsUsed h index
    × IsAllocated h'
    × (entry_of h' index ≡ record (entry_of h index) { size = size })
    × (pfs_entry_modified h' index ≡ now)
    × ((j : ℕ) → index ≢ j → IsUsed h j → entry_of h' j ≡ entry_of h j)
    × ((j : ℕ) → index ≢ j → SameBytes h h' j)
Resized h index size now none = ¬ IsUsed h index

-- In a consistent header whose files have sectors of their own, setting the size of an entry to a 32-bit
-- number changes its size and its modification time and no other field of it, and no byte of another
-- entry's record; the header stays consistent and the sectors of the files stay apart. It is refused
-- only for an entry that is not in use.
pub update_size-Resized :
    (h : Header) (index size now : ℕ)
    → IsAllocated h
    → index < pfs_entry_count
    → size < 2 ^ 32
    → now < 2 ^ 64
    → Resized h index size now (update_size h index size now)
unfolding update_size h' sized o
update_size-Resized h index size now good l size_fits now_fits =
    elim (Bool-cases (not (pfs_entry_used h index))) [
      | inl unused ↦ rw (unused, update_size) (λ used. absurd (ground (arith, unused, used.1)))
      | inr keep ↦
          let used : IsUsed h index = (l, ground (arith, keep)) in
          rw (keep, update_size)
            (
              used,
              sized-IsAllocated h index size now size_fits now_fits good used,
              entry_here h index size now size_fits now_fits
                  (fits h index size now size_fits now_fits good used),
              modified_here h index size now size_fits now_fits,
              (λ j ne used_j. sym (
                  entry_of-other h (h' h index size now size_fits now_fits) index
                    (SameBytes-update_size h index size now size_fits now_fits) j good.consistent ne
                    used_j)),
              SameBytes-update_size h index size now size_fits now_fits,
            )
    ]
