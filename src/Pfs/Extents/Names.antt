-- ===== src/Pfs/Extents/Names.antt =====
-- kernel/src/main.rs: `pfs_unlink_header` and `pfs_rename_header`, and the sectors of all files.
use rymos.Prelude.{
  ℕ, ◌<◌, ◌^◌, ◌≡◌, ◌≢◌, refl, sym, ap, subst, inl, inr, true, ◌&&◌, ◌||◌, not, List, arith,
  Bool-cases, Option-cases,
}
use native.Mathlib.Decide.{ℕ_discrete}
use rymos.Pfs.Header.{
  Header, pfs_entry_used, pfs_entry_kind, pfs_entry_extents, pfs_entry_is_dir, pfs_set_entry,
  pfs_clear_entry,
}
use rymos.Pfs.Header.Codec.{pfs_entry_kind-pfs_set_entry, pfs_entry_extents-pfs_set_entry}
use rymos.Pfs.Header.Frame.{
  SameBytes, SameBytes-pfs_set_entry, SameBytes-pfs_clear_entry, pfs_entry_used-pfs_clear_entry,
}
use rymos.Pfs.Directory.{
  Outcome, changed, refused, valid_pfs_path, pfs_find_entry, pfs_parent_exists, pfs_dir_empty,
  pfs_unlink_header, pfs_rename_header, renamed,
}
use rymos.Pfs.Directory.Unique.{
  IsUsed, IsConsistent, IsUsed-back, entry_of-other, pfs_find_entry-some,
}
use rymos.Pfs.Directory.Unlink.{Unlinked, pfs_unlink_header-Unlinked}
use rymos.Pfs.Directory.Rename.{Renamed, pfs_rename_header-Renamed, valid-length}
use rymos.Pfs.Extents.Disjoint.{IsAllocated, IsAllocated-same}

-- The header after the call, if it changed, is allocated.
abbrev pub KeepsSectors : Outcome → Type 0
KeepsSectors (changed h') = IsAllocated h'
KeepsSectors (refused code) = Unit {0}

-- An entry elsewhere has its kind and its extents as before.
same_there :
    (h h' : Header) (index : ℕ)
    → ((j : ℕ) → index ≢ j → SameBytes h h' j)
    → IsConsistent h
    → (j : ℕ) → index ≢ j
    → IsUsed h' j
    → (pfs_entry_kind h' j ≡ pfs_entry_kind h j) × (pfs_entry_extents h' j ≡ pfs_entry_extents h j)
same_there h h' index others good j ne used' =
    let entry =
      sym (entry_of-other h h' index others j good ne (IsUsed-back h h' index others j ne used')) in
    (ap (λ e. e.kind) entry, ap (λ e. e.extents) entry)

cleared-IsAllocated :
    (h : Header) (index : ℕ)
    → IsAllocated h
    → IsConsistent (pfs_clear_entry h index)
    → IsAllocated (pfs_clear_entry h index)
cleared-IsAllocated h index good consistent =
    IsAllocated-same h h' good consistent
      (λ j used'. IsUsed-back h h' index others j (apart j used') used')
      (λ j used'. same_there h h' index others good.consistent j (apart j used') used')
  where
    h' : Header
    h' = pfs_clear_entry h index

    others : (j : ℕ) → index ≢ j → SameBytes h h' j
    others j ne = SameBytes-pfs_clear_entry h index j ne

    apart : (j : ℕ) → IsUsed h' j → index ≢ j
    apart j used' at =
        absurd
          (cc (used'.1, ap (pfs_entry_used h') (sym at), pfs_entry_used-pfs_clear_entry h index))

-- Where names are consistent and files have sectors of their own, a removal that succeeds keeps it so.
pub pfs_unlink_header-KeepsSectors :
    (h : Header) (name : List ℕ) → IsAllocated h → KeepsSectors (pfs_unlink_header h name)
unfolding pfs_unlink_header
pfs_unlink_header-KeepsSectors h name good = elim (Option-cases (pfs_find_entry h name)) [
  | inl e ↦ rw (e, pfs_unlink_header) tt
  | inr (index, e) ↦ elim (Bool-cases (pfs_entry_is_dir h index && not (pfs_dir_empty h name))) [
    | inl blocked ↦ rw (e, blocked, pfs_unlink_header) tt
    | inr free ↦
        let same : pfs_unlink_header h name ≡ changed (pfs_clear_entry h index) =
          rw (e, free, pfs_unlink_header) refl in
        let after =
          subst (Unlinked h name) same (pfs_unlink_header-Unlinked h name good.consistent) in
        subst KeepsSectors (sym same) (cleared-IsAllocated h index good after.0)
  ]
]

renamed-IsAllocated :
    (h : Header) (index : ℕ) (new : List ℕ) (now : ℕ)
    → IsAllocated h
    → IsUsed h index
    → valid_pfs_path new ≡ true
    → IsConsistent (pfs_set_entry h index (renamed h index new) now)
    → IsAllocated (pfs_set_entry h index (renamed h index new) now)
renamed-IsAllocated h index new now good used valid consistent =
    IsAllocated-same h h' good consistent back same
  where
    h' : Header
    h' = pfs_set_entry h index (renamed h index new) now

    others : (j : ℕ) → index ≢ j → SameBytes h h' j
    others j ne =
        SameBytes-pfs_set_entry h index (renamed h index new) now j (valid-length new valid) ne

    back : (j : ℕ) → IsUsed h' j → IsUsed h j
    back j used' = elim (ℕ_discrete index j) [
      | yes at ↦ subst (IsUsed h) at used
      | no ne ↦ IsUsed-back h h' index others j ne used'
    ]

    same :
        (j : ℕ)
        → IsUsed h' j
        → (pfs_entry_kind h' j ≡ pfs_entry_kind h j)
          × (pfs_entry_extents h' j ≡ pfs_entry_extents h j)
    same j used' = elim (ℕ_discrete index j) [
      | yes at ↦
          let fits = good.consistent.fits index used in
          subst
            (λ j.
              (pfs_entry_kind h' j ≡ pfs_entry_kind h j)
              × (pfs_entry_extents h' j ≡ pfs_entry_extents h j))
            at
            (
              pfs_entry_kind-pfs_set_entry h index (renamed h index new) now,
              pfs_entry_extents-pfs_set_entry h index (renamed h index new) now fits.extents_fit
                  fits.words_fit,
            )
      | no ne ↦ same_there h h' index others good.consistent j ne used'
    ]

-- Where names are consistent and files have sectors of their own, a renaming that succeeds keeps it so.
pub pfs_rename_header-KeepsSectors :
    (h : Header) (old new : List ℕ) (now : ℕ)
    → IsAllocated h
    → now < 2 ^ 64
    → KeepsSectors (pfs_rename_header h old new now)
unfolding pfs_rename_header
pfs_rename_header-KeepsSectors h old new now good now_fits =
    elim (Bool-cases (not (valid_pfs_path old) || not (valid_pfs_path new))) [
      | inl bad ↦ rw (bad, pfs_rename_header) tt
      | inr valid ↦ elim (Option-cases (pfs_find_entry h old)) [
        | inl missing ↦ rw (valid, missing, pfs_rename_header) tt
        | inr (index, at) ↦ elim (Option-cases (pfs_find_entry h new)) [
          | inr (j, taken) ↦ rw (valid, at, taken, pfs_rename_header) tt
          | inl free ↦ elim (Bool-cases (not (pfs_parent_exists h new))) [
            | inl orphan ↦ rw (valid, at, free, orphan, pfs_rename_header) tt
            | inr child ↦
                elim (Bool-cases (pfs_entry_is_dir h index && not (pfs_dir_empty h old))) [
                  | inl full ↦ rw (valid, at, free, child, full, pfs_rename_header) tt
                  | inr movable ↦
                      let same : pfs_rename_header h old new now
                          ≡ changed (pfs_set_entry h index (renamed h index new) now) =
                        rw (valid, at, free, child, movable, pfs_rename_header) refl in
                      let after =
                        subst (Renamed h old new) same
                          (pfs_rename_header-Renamed h old new now good.consistent now_fits) in
                      subst KeepsSectors (sym same) (
                        renamed-IsAllocated h index new now good
                          (pfs_find_entry-some h old index at).0 (ground (arith, valid)) after.0)
                ]
          ]
        ]
      ]
    ]
