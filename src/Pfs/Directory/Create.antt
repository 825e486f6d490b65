-- ===== src/Pfs/Directory/Create.antt =====
-- kernel/src/main.rs: `abi_mkdir` and the names of a consistent header.
use rymos.Prelude.{
  ℕ, ◌<◌, ◌≤◌, ◌^◌, ◌≡◌, ◌≢◌, ◌⊎◌, ap, ◌∙◌, inl, inr, Bool, true, false, not, none, some, List,
  arith, bytes_eq, bytes_eq→eq, if◌then◌else◌, length, Bool-cases, Option-cases, first_from-none,
  first_from-IsFirst,
}
use rymos.Pfs.Header.{
  Header, pfs_entry_count, pfs_name_max, pfs_entry_used, pfs_entry_name, pfs_set_entry,
}
use rymos.Pfs.Header.Codec.{Fits}
use rymos.Pfs.Directory.{
  Outcome, changed, refused, pfs_find_entry, pfs_free_entry, pfs_parent_exists, mkdir_header,
  new_dir, lookup, entry_at,
}
use rymos.Pfs.Directory.Unique.{IsUsed, IsConsistent, pfs_find_entry-none, bytes_eq-false}
use rymos.Pfs.Directory.Written.{IsConsistent-pfs_set_entry, lookup-written, lookup-not_written}

-- The outcomes of creating the directory `name`.
abbrev pub Created : Header → List ℕ → ℕ → Outcome → Type 0
Created h name now (changed h') =
    IsConsistent h'
    × (lookup h name ≡ none)
    × (pfs_parent_exists h name ≡ true)
    × ((n : List ℕ)
        → lookup h' n ≡ (if bytes_eq n name then some (new_dir name now) else lookup h n))
Created h name now (refused code) =
    (pfs_parent_exists h name ≡ false)
    ⊎ (lookup h name ≢ none)
    ⊎ ((i : ℕ) → i < pfs_entry_count → pfs_entry_used h i ≡ true)

not-false : (b : Bool) → not b ≡ false → b ≡ true
not-false b p = ground arith

not-true : (b : Bool) → not b ≡ true → b ≡ false
not-true b p = ground arith

pfs_free_entry-none :
    (h : Header)
    → pfs_free_entry h ≡ none
    → (i : ℕ) → i < pfs_entry_count
    → pfs_entry_used h i ≡ true
unfolding pfs_free_entry
pfs_free_entry-none h e i l =
    not-false _
      (first_from-none pfs_entry_count 0 (λ i. not (pfs_entry_used h i)) i e (omega arith) l)

pfs_free_entry-some :
    (h : Header) (i : ℕ)
    → pfs_free_entry h ≡ some i
    → (i < pfs_entry_count) × (pfs_entry_used h i ≡ false)
unfolding pfs_free_entry
pfs_free_entry-some h i e =
    let found = first_from-IsFirst pfs_entry_count 0 (λ i. not (pfs_entry_used h i)) i e in
    (found.below, not-true _ found.passes)

module _ (h : Header) (good : IsConsistent h) (name : List ℕ) (now later : ℕ)
    (now_fits : now < 2 ^ 64) (later_fits : later < 2 ^ 64) (name_fits : length name ≤ pfs_name_max)
    (index : ℕ) (at : pfs_free_entry h ≡ some index) (free : pfs_find_entry h name ≡ none)
    (parent : pfs_parent_exists h name ≡ true) where
  place : (index < pfs_entry_count) × (pfs_entry_used h index ≡ false)
  place = pfs_free_entry-some h index at

  fits : Fits (new_dir name now)
  fits = record {
    name_fits = name_fits;
    size_fits = omega arith;
    extents_fit = omega arith;
    words_fit = tt;
    created_fits = now_fits;
  }

  own : (j : ℕ) → index ≢ j → IsUsed h j → pfs_entry_name h j ≢ name
  own j _ used = pfs_find_entry-none h name free j used

  kind : (new_dir name now).kind ≢ 0
  kind = omega arith

  unused : ¬ IsUsed h index
  unused used = absurd (cc (used.1, place.1))

  after : Header
  after = pfs_set_entry h index (new_dir name now) later

  changed-Created : Created h name now (changed after)
  unfolding after lookup
  changed-Created = (
    IsConsistent-pfs_set_entry h index (new_dir name now) later good place.0 fits later_fits kind
        own,
    ap (entry_at h) free,
    parent,
    λ n. elim (Bool-cases (bytes_eq n name)) [
      | inl here ↦ rw here (
          ap (lookup after) (bytes_eq→eq n name here)
          ∙ lookup-written h index (new_dir name now) later good place.0 fits later_fits kind own)
      | inr other ↦ rw other (
          lookup-not_written h index (new_dir name now) later good place.0 fits later_fits kind own
            n (λ used. absurd (unused used)) (bytes_eq-false n name other))
    ],
  )

-- Creating a directory keeps a header consistent, for a name that fits an entry and times of 64 bits.
-- On success its parent is a directory, nothing was under the name, which now holds an empty
-- directory, and every other name holds what it held. A refusal has one of the reasons of the code:
-- no parent, a name in use, or a table without a free entry.
pub mkdir_header-Created :
    (h : Header) (name : List ℕ) (now later : ℕ)
    → IsConsistent h
    → length name ≤ pfs_name_max
    → now < 2 ^ 64
    → later < 2 ^ 64
    → Created h name now (mkdir_header h name now later)
unfolding mkdir_header lookup after
mkdir_header-Created h name now later good name_fits now_fits later_fits =
    elim (Bool-cases (not (pfs_parent_exists h name))) [
      | inl orphan ↦ rw (orphan, mkdir_header) (inl (not-true _ orphan))
      | inr child ↦ elim (Option-cases (pfs_find_entry h name)) [
        | inr (j, taken) ↦
            rw (child, taken, mkdir_header)
              (inr (inl λ missing. absurd (cc (missing, ap (entry_at h) taken))))
        | inl free ↦ elim (Option-cases (pfs_free_entry h)) [
          | inl full ↦ rw (child, free, full, mkdir_header) (inr (inr (pfs_free_entry-none h full)))
          | inr (index, at) ↦
              rw (child, free, at, mkdir_header)
                (changed-Created h good name now later now_fits later_fits name_fits index at free
                  (not-false _ child))
        ]
      ]
    ]
