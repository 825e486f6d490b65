-- ===== src/Pfs/Directory/Unlink.antt =====
-- kernel/src/main.rs: `pfs_unlink_header` and the names of a consistent header.
use rymos.Prelude.{
  ℕ, ◌≡◌, ◌≢◌, ◌⊎◌, refl, sym, ap, subst, ◌∙◌, inl, inr, Bool, true, false, ◌&&◌, not, Option, none,
  some, List, arith, bytes_eq, bytes_eq→eq, first_from, if◌then◌else◌, first_from-IsFirst,
  first_from-none, Bool-cases, Option-cases,
}
use native.Mathlib.Decide.{ℕ_discrete}
use rymos.Pfs.Header.{
  pfs_kind_dir, pfs_entry_kind, Entry, Header, pfs_entry_count, pfs_entry_used, pfs_entry_is_dir,
  pfs_entry_name, pfs_clear_entry, entry_of,
}
use rymos.Pfs.Header.Frame.{SameBytes-pfs_clear_entry, pfs_entry_used-pfs_clear_entry}
use rymos.Pfs.Directory.{
  Outcome, changed, refused, pfs_find_entry, pfs_dir_empty, is_below, pfs_unlink_header, lookup,
  entry_at,
}
use rymos.Pfs.Directory.Unique.{
  IsUsed, IsConsistent, IsConsistent-other, lookup-other, lookup-none, pfs_find_entry-some,
  IsUsed-back, name-other, bytes_eq-false,
}

-- An entry stands below the directory `dir`.
abbrev pub HasEntry : Header → List ℕ → Type 0
HasEntry h dir = (i : ℕ) × IsUsed h i × (is_below dir (pfs_entry_name h i) ≡ true)

both : (a b : Bool) → (a && b) ≡ true → (a ≡ true) × (b ≡ true)
both a b h = ground arith

pub pfs_dir_empty-false : (h : Header) (dir : List ℕ) → pfs_dir_empty h dir ≡ false → HasEntry h dir
unfolding pfs_dir_empty
pfs_dir_empty-false h dir e = from (first_from pfs_entry_count 0 test) refl e
  where
    test : ℕ → Bool
    test i = pfs_entry_used h i && is_below dir (pfs_entry_name h i)

    from :
        (o : Option ℕ)
        → first_from pfs_entry_count 0 test ≡ o
        → elim o [ none ↦ true | some _ ↦ false ] ≡ false
        → HasEntry h dir
    from none found c = absurd (cc c)
    from (some i) found c =
        let first = first_from-IsFirst pfs_entry_count 0 test i found in
        let passes = both _ _ first.passes in (i, (first.below, passes.0), passes.1)

-- The outcomes of removing `name`: the header holds what it held, but nothing under `name`; or there
-- was nothing, or there is an entry below it.
abbrev pub Unlinked : Header → List ℕ → Outcome → Type 0
Unlinked h name (changed h') =
    IsConsistent h'
    × ((e : Entry) × (lookup h name ≡ some e) × (e.kind ≡ pfs_kind_dir → ¬ HasEntry h name))
    × ((n : List ℕ) → lookup h' n ≡ (if bytes_eq n name then none else lookup h n))
Unlinked h name (refused code) = (lookup h name ≡ none) ⊎ HasEntry h name

pub pfs_dir_empty-true : (h : Header) (dir : List ℕ) → pfs_dir_empty h dir ≡ true → ¬ HasEntry h dir
unfolding pfs_dir_empty
pfs_dir_empty-true h dir e (i, used, below) = from (first_from pfs_entry_count 0 test) refl e
  where
    test : ℕ → Bool
    test i = pfs_entry_used h i && is_below dir (pfs_entry_name h i)

    passes : test i ≡ true
    passes = rw (used.1, below) refl

    from :
        (o : Option ℕ)
        → first_from pfs_entry_count 0 test ≡ o
        → elim o [ none ↦ true | some _ ↦ false ] ≡ true
        → ⊥
    from none found c =
        absurd (cc (passes, first_from-none pfs_entry_count 0 test i found (omega arith) used.0))
    from (some _) found c = absurd (cc c)

-- A directory that is not refused has no entry below it.
pub no_entry_below :
    (h : Header) (index : ℕ) (name : List ℕ)
    → (pfs_entry_is_dir h index && not (pfs_dir_empty h name)) ≡ false
    → (entry_of h index).kind ≡ pfs_kind_dir
    → ¬ HasEntry h name
unfolding pfs_entry_is_dir pfs_entry_kind
no_entry_below h index name free kind = pfs_dir_empty-true h name (ground (arith, kind, free))

module _ (h : Header) (name : List ℕ) (good : IsConsistent h) (index : ℕ) where
  cleared : Header
  cleared = pfs_clear_entry h index

  not-IsUsed : ¬ IsUsed cleared index
  unfolding cleared
  not-IsUsed used = absurd (cc (used.1, pfs_entry_used-pfs_clear_entry h index))

  cleared-Unlinked :
      pfs_find_entry h name ≡ some index
      → (pfs_entry_is_dir h index && not (pfs_dir_empty h name)) ≡ false
      → Unlinked h name (changed cleared)
  unfolding cleared lookup
  cleared-Unlinked e free = (
    consistent,
    (entry_of h index, lookup_here, no_entry_below h index name free),
    (λ n. elim (Bool-cases (bytes_eq n name)) [
      | inl same ↦ rw same (ap (lookup cleared) (bytes_eq→eq n name same) ∙ gone)
      | inr other ↦ rw other (others n (bytes_eq-false n name other))
    ]),
  )
    where
      lookup_here : lookup h name ≡ some (entry_of h index)
      lookup_here = ap (entry_at h) e

      consistent : IsConsistent cleared
      consistent =
          IsConsistent-other h cleared index (SameBytes-pfs_clear_entry h index) good
            (λ used. absurd (not-IsUsed used)) (λ j ne used used'. absurd (not-IsUsed used'))

      found : IsUsed h index × (pfs_entry_name h index ≡ name)
      found = pfs_find_entry-some h name index e

      gone : lookup cleared name ≡ none
      gone = lookup-none cleared name λ j used same. elim (ℕ_discrete index j) [
        | yes at ↦ not-IsUsed (subst (IsUsed cleared) (sym at) used)
        | no ne ↦
            let before =
              IsUsed-back h cleared index (SameBytes-pfs_clear_entry h index) j ne used in
            ne (
              good.unique index j found.0 before (
                found.1
                ∙ sym same
                ∙ sym (
                    name-other h cleared index (SameBytes-pfs_clear_entry h index) j good ne
                      before)))
      ]

      others : (n : List ℕ) → n ≢ name → lookup cleared n ≡ lookup h n
      others n ne =
          lookup-other h cleared index (SameBytes-pfs_clear_entry h index) n good consistent
            (λ used same. ne (sym same ∙ found.1)) (λ used. absurd (not-IsUsed used))

-- Removing a name keeps a header consistent. On success the name was there and is gone, and every
-- other name holds what it held; where it was a directory, no entry stood below it. On a refusal the
-- name was not there, or an entry stands below it.
pub pfs_unlink_header-Unlinked :
    (h : Header) (name : List ℕ) → IsConsistent h → Unlinked h name (pfs_unlink_header h name)
unfolding pfs_unlink_header lookup cleared
pfs_unlink_header-Unlinked h name good = elim (Option-cases (pfs_find_entry h name)) [
  | inl e ↦ rw (e, pfs_unlink_header) (inl (ap (entry_at h) e))
  | inr (index, e) ↦ elim (Bool-cases (pfs_entry_is_dir h index && not (pfs_dir_empty h name))) [
    | inl blocked ↦
        rw (e, blocked, pfs_unlink_header)
          (inr (pfs_dir_empty-false h name (not-true _ (both _ _ blocked).1)))
    | inr free ↦ rw (e, free, pfs_unlink_header) (cleared-Unlinked h name good index e free)
  ]
]
  where
    not-true : (b : Bool) → not b ≡ true → b ≡ false
    not-true b p = ground arith
