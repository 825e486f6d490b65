-- ===== src/Pfs/Header/Codec.antt =====
-- kernel/src/main.rs: `pfs_set_entry` against the readers of the entry that it writes.
use rymos.Prelude.{
  ℕ, ◌+◌, ◌%◌, ◌^◌, ◌≤◌, ◌<◌, ◌≡◌, refl, ap, ◌∙◌, inl, min, arith, update, length, take,
  write_slice, read_slice, fill, le_bytes, length-le_bytes, update-Outside, write_slice-Outside,
  read_slice-eq, read_slice-write_slice, read_le32_from_slice, read_le64_from_slice,
  read_le32_from_slice-le_bytes, read_le64_from_slice-le_bytes,
}
use rymos.Pfs.Header.{
  Header, Entry, pfs_entry_offset, pfs_entry_size, pfs_extent_count_offset, pfs_extents_offset,
  pfs_max_extents, pfs_created_offset, pfs_modified_offset, pfs_mode_offset, pfs_name_offset,
  pfs_name_max, write_extents, extents_from, pfs_entry_extents, entry_of, pfs_set_entry,
  pfs_entry_name, pfs_entry_length, pfs_entry_kind, pfs_entry_created, pfs_entry_modified,
  pfs_entry_mode, pfs_entry_extent_count,
}
use rymos.Pfs.Header.ExtentBytes.{
  AllExtents, write_extents_before, extents_from-write_extents, take_all, extents_from-eq,
}

-- The fields fit their places in the header.
pub record Fits (e : Entry) : Type 0 where
  pub name_fits : length e.name ≤ pfs_name_max
  pub size_fits : e.size < 2 ^ 32
  pub extents_fit : length e.extents ≤ pfs_max_extents
  pub words_fit : AllExtents e.extents
  pub created_fits : e.created_ticks < 2 ^ 64

module _ (h0 : Header) (index : ℕ) (e : Entry) (now : ℕ) where
  abbrev pub offset : ℕ
  offset = pfs_entry_offset index

  -- The header after each write of `pfs_set_entry`, which go upwards.
  abbrev pub kinded : Header
  kinded = update (fill h0 offset pfs_entry_size 0) offset e.kind

  abbrev pub name_sized : Header
  name_sized = update kinded (offset + 1) (length e.name % 256)

  abbrev pub sized : Header
  sized = write_slice name_sized (offset + 2) (le_bytes 4 e.size)

  abbrev pub counted : Header
  counted =
      update sized (offset + pfs_extent_count_offset) (min (length e.extents) pfs_max_extents % 256)

  abbrev pub extended : Header
  extended = write_extents counted (offset + pfs_extents_offset) (take pfs_max_extents e.extents)

  abbrev pub created : Header
  created = write_slice extended (offset + pfs_created_offset) (le_bytes 8 e.created_ticks)

  abbrev pub modified : Header
  modified = write_slice created (offset + pfs_modified_offset) (le_bytes 8 now)

  abbrev pub moded : Header
  moded = update modified (offset + pfs_mode_offset) e.mode

  abbrev after : Header
  after = pfs_set_entry h0 index e now

  -- Each write leaves what lies before its place.
  after-moded : (x : ℕ) → x < offset + pfs_name_offset → after x ≡ moded x
  unfolding pfs_set_entry
  after-moded x l = write_slice-Outside moded (offset + pfs_name_offset) e.name x (inl l)

  after-modified : (x : ℕ) → x < offset + pfs_mode_offset → after x ≡ modified x
  after-modified x l =
      after-moded x (omega arith)
      ∙ update-Outside modified (offset + pfs_mode_offset) e.mode x (inl l)

  after-created : (x : ℕ) → x < offset + pfs_modified_offset → after x ≡ created x
  after-created x l =
      after-modified x (omega arith)
      ∙ write_slice-Outside created (offset + pfs_modified_offset) (le_bytes 8 now) x (inl l)

  after-extended : (x : ℕ) → x < offset + pfs_created_offset → after x ≡ extended x
  after-extended x l =
      after-created x (omega arith)
      ∙ write_slice-Outside extended (offset + pfs_created_offset) (le_bytes 8 e.created_ticks) x
          (inl l)

  after-counted : (x : ℕ) → x < offset + pfs_extents_offset → after x ≡ counted x
  after-counted x l =
      after-extended x (omega arith)
      ∙ write_extents_before counted (offset + pfs_extents_offset) (take pfs_max_extents e.extents)
          x l

  after-sized : (x : ℕ) → x < offset + pfs_extent_count_offset → after x ≡ sized x
  after-sized x l =
      after-counted x (omega arith)
      ∙ update-Outside sized (offset + pfs_extent_count_offset) _ x (inl l)

  after-name_sized : (x : ℕ) → x < offset + 2 → after x ≡ name_sized x
  after-name_sized x l =
      after-sized x (omega arith)
      ∙ write_slice-Outside name_sized (offset + 2) (le_bytes 4 e.size) x (inl l)

  update_here : (h : Header) (o v : ℕ) → update h o v o ≡ v
  update_here h o v = ground arith

  pub pfs_entry_kind-pfs_set_entry : pfs_entry_kind after index ≡ e.kind
  unfolding pfs_entry_kind
  pfs_entry_kind-pfs_set_entry =
      after-name_sized offset (omega arith)
      ∙ update-Outside kinded (offset + 1) _ offset (inl (omega arith))
      ∙ update_here (fill h0 offset pfs_entry_size 0) offset e.kind

  pub pfs_entry_mode-pfs_set_entry : pfs_entry_mode after index ≡ e.mode
  unfolding pfs_entry_mode
  pfs_entry_mode-pfs_set_entry =
      after-moded (offset + pfs_mode_offset) (omega arith)
      ∙ update_here modified (offset + pfs_mode_offset) e.mode

  pub pfs_entry_length-pfs_set_entry : e.size < 2 ^ 32 → pfs_entry_length after index ≡ e.size
  unfolding pfs_entry_length
  pfs_entry_length-pfs_set_entry fits =
      ap read_le32_from_slice (
        read_slice-eq after sized (offset + 2) 4 (λ x low high. after-sized x (omega arith))
        ∙ read_slice-write_slice name_sized (offset + 2) 4 (le_bytes 4 e.size)
            (length-le_bytes 4 e.size))
      ∙ read_le32_from_slice-le_bytes e.size fits

  pub pfs_entry_created-pfs_set_entry :
      e.created_ticks < 2 ^ 64 → pfs_entry_created after index ≡ e.created_ticks
  unfolding pfs_entry_created
  pfs_entry_created-pfs_set_entry fits =
      ap read_le64_from_slice (
        read_slice-eq after created (offset + pfs_created_offset) 8
          (λ x low high. after-created x (omega arith))
        ∙ read_slice-write_slice extended (offset + pfs_created_offset) 8
            (le_bytes 8 e.created_ticks) (length-le_bytes 8 e.created_ticks))
      ∙ read_le64_from_slice-le_bytes e.created_ticks fits

  pub pfs_entry_modified-pfs_set_entry : now < 2 ^ 64 → pfs_entry_modified after index ≡ now
  unfolding pfs_entry_modified
  pfs_entry_modified-pfs_set_entry fits =
      ap read_le64_from_slice (
        read_slice-eq after modified (offset + pfs_modified_offset) 8
          (λ x low high. after-modified x (omega arith))
        ∙ read_slice-write_slice created (offset + pfs_modified_offset) 8 (le_bytes 8 now)
            (length-le_bytes 8 now))
      ∙ read_le64_from_slice-le_bytes now fits

  pub name_length-pfs_set_entry : length e.name ≤ pfs_name_max → after (offset + 1) ≡ length e.name
  name_length-pfs_set_entry fits =
      after-name_sized (offset + 1) (omega arith)
      ∙ update_here kinded (offset + 1) (length e.name % 256)
      ∙ omega arith

  pub pfs_entry_name-pfs_set_entry :
      length e.name ≤ pfs_name_max → pfs_entry_name after index ≡ e.name
  unfolding pfs_entry_name pfs_set_entry
  pfs_entry_name-pfs_set_entry fits =
      ap (read_slice after (offset + pfs_name_offset)) (name_length-pfs_set_entry fits)
      ∙ read_slice-write_slice moded (offset + pfs_name_offset) (length e.name) e.name refl

  pub pfs_entry_extent_count-pfs_set_entry :
      length e.extents ≤ pfs_max_extents → pfs_entry_extent_count after index ≡ length e.extents
  unfolding pfs_entry_extent_count
  pfs_entry_extent_count-pfs_set_entry fits =
      ap (λ t. min t pfs_max_extents)
        (after-counted (offset + pfs_extent_count_offset) (omega arith)
          ∙ update_here sized (offset + pfs_extent_count_offset) _)
      ∙ omega arith

  pub pfs_entry_extents-pfs_set_entry :
      length e.extents ≤ pfs_max_extents
      → AllExtents e.extents
      → pfs_entry_extents after index ≡ e.extents
  unfolding pfs_entry_extents
  pfs_entry_extents-pfs_set_entry fits words =
      ap (extents_from after index 0) (pfs_entry_extent_count-pfs_set_entry fits)
      ∙ extents_from-eq after extended index 0 (length e.extents)
          (λ x low high. after-extended x (omega arith))
      ∙ ap
          (λ es.
            extents_from (write_extents counted (offset + pfs_extents_offset) es) index 0
              (length e.extents))
          (take_all e.extents pfs_max_extents fits)
      ∙ extents_from-write_extents counted index 0 (offset + pfs_extents_offset) e.extents
          (omega arith) words

pub entry_eq :
    (a b : Entry)
    → a.name ≡ b.name
    → a.size ≡ b.size
    → a.kind ≡ b.kind
    → a.extents ≡ b.extents
    → a.created_ticks ≡ b.created_ticks
    → a.mode ≡ b.mode
    → a ≡ b
entry_eq a b n s k x c m = ground arith

-- An entry whose fields fit is read back as it was written, with the time of the write as its
-- modification time.
pub entry_of-pfs_set_entry :
    (h : Header) (index : ℕ) (e : Entry) (now : ℕ)
    → Fits e
    → now < 2 ^ 64
    → (entry_of (pfs_set_entry h index e now) index ≡ e)
      × (pfs_entry_modified (pfs_set_entry h index e now) index ≡ now)
entry_of-pfs_set_entry h index e now fits now_fits = (
  entry_eq (entry_of (pfs_set_entry h index e now) index) e
      (pfs_entry_name-pfs_set_entry h index e now fits.name_fits)
      (pfs_entry_length-pfs_set_entry h index e now fits.size_fits)
      (pfs_entry_kind-pfs_set_entry h index e now)
      (pfs_entry_extents-pfs_set_entry h index e now fits.extents_fit fits.words_fit)
      (pfs_entry_created-pfs_set_entry h index e now fits.created_fits)
      (pfs_entry_mode-pfs_set_entry h index e now),
  pfs_entry_modified-pfs_set_entry h index e now now_fits,
)
