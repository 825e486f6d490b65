-- ===== src/Pfs/Disk/Ensuring.antt =====
-- kernel/src/main.rs: `pfs_ensure_file_capacity` and `pfs_update_size` with the disk.
use rymos.Prelude.{
  ℕ, ◌≤◌, ◌<◌, ◌^◌, ◌≡◌, refl, sym, ap, subst, ◌∙◌, ◌⊎◌, inl, inr, ◌||◌, not, true, false, Bool,
  Option, none, some, arith, Bool-cases, leb, Outside, List, read_slice, read_slice-eq, bytes_eq,
}
use native.Mathlib.Decide.{dec_lt}
use mathlib.Core.Path.{fun_ext}
use rymos.Pfs.Header.{
  Header, PfsExtent, pfs_entry_used, pfs_entry_is_dir, pfs_entry_offset, pfs_entry_size,
  pfs_set_entry,
}
use rymos.Pfs.Header.Frame.{pfs_set_entry-Outside}
use rymos.Pfs.Extents.{
  pfs_header_sectors, sectors_for_len, pfs_entry_total_sectors, ensure_capacity, with_extents,
}
use rymos.Pfs.Extents.Disjoint.{IsFile, IsAllocated}
use rymos.Pfs.Extents.Capacity.{Ensured, ensure_capacity-Ensured}
use rymos.Pfs.Disk.{
  Disk, pfs_header_bytes, write_header, store_grown, pfs_ensure_file_capacity, has_magic, magic,
}
use rymos.Pfs.Disk.Sectors.{
  After, After-ok, After-failed, After-weaken, Works, Works-of, Same, OnlyIn, header_up_to,
  header_of, read_header_silent-and_then,
}
use rymos.Pfs.Disk.HeaderWrite.{InHeader, write_header-After}

-- The header ends with its sectors.
abbrev pub Ends : Header → Type 0
Ends h = (x : ℕ) → pfs_header_bytes ≤ x → h x ≡ 0

pub header_of-Ends : (d : Disk) → Ends (header_of d)
header_of-Ends d x l = ground (arith, l)

pub header_up_to-Ends : (h : Header) → Ends h → header_up_to pfs_header_sectors h ≡ h
header_up_to-Ends h ends = fun_ext λ x. elim (dec_lt x pfs_header_bytes) [
  | yes inside ↦ ground (arith, inside)
  | no beyond ↦ ground (arith, beyond, ends x (omega (arith, beyond)))
]

-- Growing a file changes the bytes of its entry.
ensure_capacity-Outside :
    (h : Header) (index size now : ℕ) (h' : Header)
    → IsAllocated h
    → IsFile h index
    → ensure_capacity h index size now ≡ some h'
    → (x : ℕ) → Outside (pfs_entry_offset index) pfs_entry_size x
    → h' x ≡ h x
unfolding ensure_capacity
ensure_capacity-Outside h index size now h' good file e x out =
    elim (Bool-cases (not (pfs_entry_used h index) || pfs_entry_is_dir h index)) [
      | inl refuse ↦ absurd (cc (rw refuse at e))
      | inr keep ↦
          elim (Bool-cases (leb (sectors_for_len size) (pfs_entry_total_sectors h index))) [
            | inl enough ↦
                let same : some h ≡ some h' = rw (keep, enough) at e in
                let at : h ≡ h' = cc same in ap (λ h. h x) (sym at)
            | inr short ↦ grown _ (rw (keep, short) at e)
          ]
    ]
  where
    grown :
        (o : Option (List PfsExtent))
        → (elim o [
          | none ↦ none
          | some extents ↦ some (pfs_set_entry h index (with_extents h index extents) now)
        ])
          ≡ some h'
        → h' x ≡ h x
    grown none e = absurd (cc e)
    grown (some es) e =
        let at : pfs_set_entry h index (with_extents h index es) now ≡ h' = cc e in
        ap (λ h. h x) (sym at)
        ∙ pfs_set_entry-Outside h index (with_extents h index es) now x
            ((good.consistent.fits index file.0).name_fits) out

enough-same :
    (h : Header) (index size now : ℕ) (h' : Header)
    → leb (sectors_for_len size) (pfs_entry_total_sectors h index) ≡ true
    → ensure_capacity h index size now ≡ some h'
    → h' ≡ h
unfolding ensure_capacity
enough-same h index size now h' enough e =
    elim (Bool-cases (not (pfs_entry_used h index) || pfs_entry_is_dir h index)) [
      | inl refuse ↦ absurd (cc (rw refuse at e))
      | inr keep ↦ let same : some h ≡ some h' = rw (keep, enough) at e in cc same
    ]

Same-header_of : (d d' : Disk) → Same d d' → header_of d' ≡ header_of d
Same-header_of d d' same = ap (header_up_to pfs_header_sectors) same.0

-- What `pfs_ensure_file_capacity` leaves where it fails: other bytes than the header's stay, and with a
-- drive that works the header stays too, which is no RYMFS5 header or has no room for the file.
abbrev pub NotEnsured : Disk → ℕ → ℕ → ℕ → Disk → Type 0
NotEnsured d index size now d' =
    OnlyIn InHeader d d'
    × (Works d
        → (header_of d' ≡ header_of d)
          × ((has_magic (header_of d) ≡ false)
              ⊎ (ensure_capacity (header_of d) index size now ≡ none)))

abbrev pub IsEnsured : Disk → ℕ → ℕ → Disk → Unit {0} → Type 0
IsEnsured d index size d' _ =
    OnlyIn InHeader d d'
    × Ensured (header_of d) index size (some (header_of d'))
    × (has_magic (header_of d') ≡ has_magic (header_of d))

module _ (d : Disk) (index size now : ℕ) (good : IsAllocated (header_of d))
    (file : IsFile (header_of d) index) (now_fits : now < 2 ^ 64) where
  ensured :
      (o : Option Header)
      → ensure_capacity (header_of d) index size now ≡ o
      → Ensured (header_of d) index size o
  ensured o e =
      subst (Ensured (header_of d) index size) e
        (ensure_capacity-Ensured (header_of d) index size now good file.0.0 now_fits)

  store_grown-After :
      (d' : Disk) (enough : Bool) (o : Option Header)
      → Same d d'
      → leb (sectors_for_len size) (pfs_entry_total_sectors (header_of d) index) ≡ enough
      → ensure_capacity (header_of d) index size now ≡ o
      → After
          (NotEnsured d index size now)
          (IsEnsured d index size)
          (store_grown d' (header_of d) enough o)
  store_grown-After d' enough none same big e =
      After-failed _ _ d'
        (((λ x out. ap (λ b. b x) same.0), same.1), λ works. (Same-header_of d d' same, inr e))
  store_grown-After d' true (some h') same big e = After-ok _ _ d' tt (
    ((λ x out. ap (λ b. b x) same.0), same.1),
    subst (λ h. Ensured (header_of d) index size (some h))
        (enough-same (header_of d) index size now h' big e ∙ sym (Same-header_of d d' same))
        (ensured (some h') e),
    ap has_magic (Same-header_of d d' same),
  )
  store_grown-After d' false (some h') same big e =
      After-weaken _ (write_header d' h') (write_header-After d' h')
        (λ d'' (only, broken).
          (after_same d'' only, λ works. absurd (broken (Works-of d d' same.1 works))))
        (λ d'' _ (only, at).
          let stored : header_of d'' ≡ h' = at ∙ header_up_to-Ends h' ends in
          (
            after_same d'' only,
            subst (λ h. Ensured (header_of d) index size (some h)) (sym stored)
                (ensured (some h') e),
            ap has_magic stored ∙ ap (λ bs. bytes_eq bs magic) magic_kept,
          ))
    where
      outside : (x : ℕ) → Outside (pfs_entry_offset index) pfs_entry_size x → h' x ≡ header_of d x
      outside = ensure_capacity-Outside (header_of d) index size now h' good file e

      ends : Ends h'
      ends x l = outside x (inr (omega (arith, l, file.0.0))) ∙ header_of-Ends d x l

      magic_kept : read_slice h' 0 8 ≡ read_slice (header_of d) 0 8
      magic_kept =
          read_slice-eq h' (header_of d) 0 8 λ x low high. outside x (inl (omega (arith, high)))

      after_same : (d'' : Disk) → OnlyIn InHeader d' d'' → OnlyIn InHeader d d''
      after_same d'' (kept, answers) =
          ((λ x out. kept x out ∙ ap (λ b. b x) same.0), answers ∙ same.1)

  pub pfs_ensure_file_capacity-After :
      After
        (NotEnsured d index size now)
        (IsEnsured d index size)
        (pfs_ensure_file_capacity index size now d)
  unfolding pfs_ensure_file_capacity
  pfs_ensure_file_capacity-After =
      read_header_silent-and_then _ d _
        (λ d' same why. (
          ((λ x out. ap (λ b. b x) same.0), same.1),
          λ works. (Same-header_of d d' same, inl (why works)),
        ))
        (λ d' same has. store_grown-After d' _ _ same refl refl)
