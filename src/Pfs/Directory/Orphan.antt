-- ===== src/Pfs/Directory/Orphan.antt =====
-- kernel/src/main.rs: `pfs_rename_header`, where the new name is below the old one.
use rymos.Prelude.{
  ℕ, ◌+◌, ◌<◌, ◌^◌, ◌≡◌, ◌≢◌, refl, ap, ◌∙◌, true, false, ◌||◌, Option, none, some, List, arith,
  length, take, bytes_eq, bytes_eq_self, bytes_eq→eq, subst, sym, inl, inr, Bool-cases,
  Option-cases, ◌==◌, leb,
}
use rymos.Pfs.Header.{Header, Entry, pfs_entry_is_dir, pfs_set_entry}
use rymos.Pfs.Directory.{
  changed, slash, valid_pfs_path, find_last_byte, pfs_find_entry, pfs_parent_exists, pfs_dir_empty,
  pfs_rename_header, renamed, lookup, entry_at,
}
use rymos.Pfs.Directory.Unique.{IsConsistent}
use rymos.Pfs.Directory.Rename.{Renamed, pfs_rename_header-Renamed}

-- `dir` is the parent that `pfs_parent_exists` looks for.
pub record IsParent (dir name : List ℕ) : Type 0 where
  pub not_empty : length dir ≢ 0
  pub last_slash : find_last_byte name slash ≡ some (length dir)
  pub same : take (length dir) name ≡ dir
  pub longer : length dir + 1 < length name

not_outside :
    (dir name : List ℕ)
    → IsParent dir name
    → (length dir == 0 || leb (length name) (length dir + 1)) ≡ false
not_outside dir name p = ground (arith, p.not_empty, p.longer)

parent_exists-some :
    (h : Header) (dir name : List ℕ) (index : ℕ)
    → IsParent dir name
    → pfs_find_entry h dir ≡ some index
    → pfs_parent_exists h name ≡ pfs_entry_is_dir h index
unfolding pfs_parent_exists
parent_exists-some h dir name index p e =
    rw (p.last_slash, not_outside dir name p, p.same, e, pfs_parent_exists) refl

parent_exists-none :
    (h : Header) (dir name : List ℕ)
    → IsParent dir name
    → lookup h dir ≡ none
    → pfs_parent_exists h name ≡ false
unfolding pfs_parent_exists lookup
parent_exists-none h dir name p e = elim (Option-cases (pfs_find_entry h dir)) [
  | inl missing ↦ rw (p.last_slash, not_outside dir name p, p.same, missing, pfs_parent_exists) refl
  | inr (index, at) ↦ absurd (some_not_none _ _ (ap (entry_at h) at) e)
]
  where
    some_not_none : {A : Type 0} (o : Option A) (a : A) → o ≡ some a → o ≢ none
    some_not_none o a e missing = absurd (cc (e, missing))

module _ (h : Header) (old new : List ℕ) (now index : ℕ) (good : IsConsistent h)
    (now_fits : now < 2 ^ 64) (valid : valid_pfs_path old ≡ true)
    (new_valid : valid_pfs_path new ≡ true) (at : pfs_find_entry h old ≡ some index)
    (free : pfs_find_entry h new ≡ none) (dir : pfs_entry_is_dir h index ≡ true)
    (no_entry : pfs_dir_empty h old ≡ true) (below : IsParent old new) where
  moved : Header
  moved = pfs_set_entry h index (renamed h index new) now

  succeeds : pfs_rename_header h old new now ≡ changed moved
  unfolding pfs_rename_header moved
  succeeds =
      rw
        (
          valid,
          new_valid,
          at,
          free,
          parent_exists-some h old new index below at,
          dir,
          no_entry,
          pfs_rename_header,
        )
        refl

  outcome : Renamed h old new (changed moved)
  outcome =
      subst (Renamed h old new) succeeds (pfs_rename_header-Renamed h old new now good now_fits)

  not_new : bytes_eq old new ≡ false
  not_new = elim (Bool-cases (bytes_eq old new)) [
    | inl same ↦ absurd (omega (arith, below.longer, ap length (bytes_eq→eq old new same)))
    | inr apart ↦ apart
  ]

  old_is_gone : lookup moved old ≡ none
  old_is_gone = outcome.2.4 old ∙ rw (not_new, bytes_eq_self old) refl

  new_is_there : lookup moved new ≡ some (renamed h index new)
  unfolding lookup
  new_is_there =
      outcome.2.4 new
      ∙ rw (bytes_eq_self new) (
          ap {A = Entry} (λ e. some (record e { name = new }))
            (some-injective _ _ (sym outcome.2.1 ∙ ap (entry_at h) at)))
    where
      some-injective : (a b : Entry) → some a ≡ some b → a ≡ b
      some-injective a b e = cc e

  orphaned :
      (h' : Header) × (pfs_rename_header h old new now ≡ changed h')
      × (lookup h' new ≡ some (renamed h index new))
      × (pfs_parent_exists h' new ≡ false)
  orphaned = (moved, succeeds, new_is_there, parent_exists-none moved old new below old_is_gone)

-- Renaming an empty directory to a free name directly below itself succeeds, and leaves an entry whose
-- parent does not exist.
pub pfs_rename_header-orphan :
    (h : Header) (old new : List ℕ) (now index : ℕ)
    → IsConsistent h
    → now < 2 ^ 64
    → (valid_pfs_path old ≡ true) × (valid_pfs_path new ≡ true)
    → pfs_find_entry h old ≡ some index
    → pfs_find_entry h new ≡ none
    → pfs_entry_is_dir h index ≡ true
    → pfs_dir_empty h old ≡ true
    → IsParent old new
    → (h' : Header) × (pfs_rename_header h old new now ≡ changed h')
      × (lookup h' new ≡ some (renamed h index new))
      × (pfs_parent_exists h' new ≡ false)
pfs_rename_header-orphan h old new now index good now_fits valid at free dir no_entry below =
    orphaned h old new now index good now_fits valid.0 valid.1 at free dir no_entry below
