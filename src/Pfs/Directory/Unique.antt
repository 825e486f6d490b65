-- ===== src/Pfs/Directory/Unique.antt =====
-- kernel/src/main.rs: headers whose entries have names of their own, and a change of one entry.
use rymos.Prelude.{
  ℕ, ◌+◌, ◌≤◌, ◌<◌, ◌≡◌, ◌≢◌, refl, sym, ap, subst, ◌∙◌, inl, inr, Bool, true, false, ◌&&◌, none,
  some, List, arith, length-read_slice, bytes_eq, bytes_eq→eq, bytes_eq_self, first_from-none,
  first_from-IsFirst, Option-cases,
}
use native.Mathlib.Decide.{ℕ_discrete}
use rymos.Pfs.Header.{
  Header, pfs_entry_count, pfs_name_max, pfs_name_offset, pfs_entry_offset, pfs_entry_used,
  pfs_entry_name, entry_of,
}
use rymos.Pfs.Header.Codec.{Fits}
use rymos.Pfs.Header.Frame.{SameBytes, NameFits, pfs_entry_used-eq, entry_of-eq}
use rymos.Pfs.Directory.{pfs_find_entry, lookup, entry_at}

pub bytes_eq-false : (xs ys : List ℕ) → bytes_eq xs ys ≡ false → xs ≢ ys
bytes_eq-false xs ys e same = absurd (cc (e, ap (bytes_eq xs) (sym same), bytes_eq_self xs))

-- The entry `index` is in use.
abbrev pub IsUsed : Header → ℕ → Type 0
IsUsed h index = (index < pfs_entry_count) × (pfs_entry_used h index ≡ true)

-- The fields of the used entries fit their places, and no two of them have the same name.
pub record IsConsistent (h : Header) : Type 0 where
  pub fits : (i : ℕ) → IsUsed h i → Fits (entry_of h i)
  pub unique : (i j : ℕ) → IsUsed h i → IsUsed h j → pfs_entry_name h i ≡ pfs_entry_name h j → i ≡ j

pub Fits-NameFits : (h : Header) (i : ℕ) → Fits (entry_of h i) → NameFits h i
unfolding pfs_entry_name
Fits-NameFits h i f =
    subst (λ n. n ≤ pfs_name_max)
      (length-read_slice h (pfs_entry_offset i + pfs_name_offset) (h (pfs_entry_offset i + 1)))
      f.name_fits

pub pfs_find_entry-none :
    (h : Header) (name : List ℕ)
    → pfs_find_entry h name ≡ none
    → (i : ℕ) → IsUsed h i
    → pfs_entry_name h i ≢ name
unfolding pfs_find_entry
pfs_find_entry-none h name e i used same = absurd (
    grind (
      arith,
      bytes_eq_self name,
      same,
      used.1,
      first_from-none pfs_entry_count 0
          (λ i. pfs_entry_used h i && bytes_eq (pfs_entry_name h i) name) i e (omega arith) used.0,
    ))

pub pfs_find_entry-some :
    (h : Header) (name : List ℕ) (i : ℕ)
    → pfs_find_entry h name ≡ some i
    → IsUsed h i × (pfs_entry_name h i ≡ name)
unfolding pfs_find_entry
pfs_find_entry-some h name i e =
    let found =
      first_from-IsFirst pfs_entry_count 0
        (λ i. pfs_entry_used h i && bytes_eq (pfs_entry_name h i) name) i e in
    (
      (found.below, both_left _ _ found.passes),
      bytes_eq→eq (pfs_entry_name h i) name (both_right _ _ found.passes),
    )
  where
    both_left : (a b : Bool) → (a && b) ≡ true → a ≡ true
    both_left a b h = ground arith

    both_right : (a b : Bool) → (a && b) ≡ true → b ≡ true
    both_right a b h = ground arith

pub lookup-used :
    (h : Header) (i : ℕ)
    → IsConsistent h
    → IsUsed h i
    → lookup h (pfs_entry_name h i) ≡ some (entry_of h i)
unfolding lookup
lookup-used h i good used = elim (Option-cases (pfs_find_entry h (pfs_entry_name h i))) [
  | inl e ↦ absurd (pfs_find_entry-none h (pfs_entry_name h i) e i used refl)
  | inr (j, e) ↦
      let found = pfs_find_entry-some h (pfs_entry_name h i) j e in
      ap (entry_at h) e ∙ ap (λ k. some (entry_of h k)) (good.unique j i found.0 used found.1)
]

pub lookup-none :
    (h : Header) (name : List ℕ)
    → ((i : ℕ) → IsUsed h i → pfs_entry_name h i ≢ name)
    → lookup h name ≡ none
unfolding lookup
lookup-none h name no_one = elim (Option-cases (pfs_find_entry h name)) [
  | inl e ↦ ap (entry_at h) e
  | inr (j, e) ↦ let found = pfs_find_entry-some h name j e in absurd (no_one j found.0 found.1)
]

-- `h'` is `h` but for the entry `index`.
module _ (h h' : Header) (index : ℕ) (others : (j : ℕ) → index ≢ j → SameBytes h h' j) where
  pub IsUsed-other : (j : ℕ) → index ≢ j → IsUsed h j → IsUsed h' j
  IsUsed-other j ne used = (used.0, sym (pfs_entry_used-eq h h' j (others j ne)) ∙ used.1)

  pub IsUsed-back : (j : ℕ) → index ≢ j → IsUsed h' j → IsUsed h j
  IsUsed-back j ne used = (used.0, pfs_entry_used-eq h h' j (others j ne) ∙ used.1)

  pub entry_of-other :
      (j : ℕ) → IsConsistent h → index ≢ j → IsUsed h j → entry_of h j ≡ entry_of h' j
  entry_of-other j good ne used =
      entry_of-eq h h' j (others j ne) (Fits-NameFits h j (good.fits j used))

  pub name-other :
      (j : ℕ) → IsConsistent h → index ≢ j → IsUsed h j → pfs_entry_name h j ≡ pfs_entry_name h' j
  name-other j good ne used = ap (λ e. e.name) (entry_of-other j good ne used)

  -- The headers hold the same under a name that neither has at `index`.
  pub lookup-other :
      (name : List ℕ)
      → IsConsistent h
      → IsConsistent h'
      → (IsUsed h index → pfs_entry_name h index ≢ name)
      → (IsUsed h' index → pfs_entry_name h' index ≢ name)
      → lookup h' name ≡ lookup h name
  lookup-other name good good' before after = elim (Option-cases (pfs_find_entry h name)) [
    | inl e ↦
        lookup-none h' name (λ j used same. elim (ℕ_discrete index j) [
          | yes at ↦ after (subst (IsUsed h') (sym at) used) (ap (pfs_entry_name h') at ∙ same)
          | no ne ↦
              pfs_find_entry-none h name e j (IsUsed-back j ne used)
                (name-other j good ne (IsUsed-back j ne used) ∙ same)
        ])
        ∙ sym (lookup-none h name (pfs_find_entry-none h name e))
    | inr (j, e) ↦
        let found = pfs_find_entry-some h name j e in
        let ne : index ≢ j =
          λ at. before (subst (IsUsed h) (sym at) found.0) (ap (pfs_entry_name h) at ∙ found.1) in
        ap (lookup h') (sym found.1 ∙ name-other j good ne found.0)
        ∙ lookup-used h' j good' (IsUsed-other j ne found.0)
        ∙ ap some (sym (entry_of-other j good ne found.0))
        ∙ sym (lookup-used h j good found.0)
        ∙ ap (lookup h) found.1
  ]

  -- A consistent header stays so, when the entry `index` fits and has a name of its own.
  pub IsConsistent-other :
      IsConsistent h
      → (IsUsed h' index → Fits (entry_of h' index))
      → ((j : ℕ)
          → index ≢ j
          → IsUsed h j
          → IsUsed h' index
          → pfs_entry_name h j ≢ pfs_entry_name h' index)
      → IsConsistent h'
  IsConsistent-other good here own = record {
    fits = λ i used. elim (ℕ_discrete index i) [
      | yes at ↦ subst (λ k. Fits (entry_of h' k)) at (here (subst (IsUsed h') (sym at) used))
      | no ne ↦
          subst Fits (entry_of-other i good ne (IsUsed-back i ne used))
            (good.fits i (IsUsed-back i ne used))
    ];
    unique = λ i j used used' same. elim (ℕ_discrete index i) [
      | yes at ↦ elim (ℕ_discrete index j) [
        | yes at' ↦ sym at ∙ at'
        | no ne ↦ absurd (
            own j ne (IsUsed-back j ne used') (subst (IsUsed h') (sym at) used) (
              name-other j good ne (IsUsed-back j ne used')
              ∙ sym same
              ∙ ap (pfs_entry_name h') (sym at)))
      ]
      | no ne ↦ elim (ℕ_discrete index j) [
        | yes at' ↦ absurd (
            own i ne (IsUsed-back i ne used) (subst (IsUsed h') (sym at') used') (
              name-other i good ne (IsUsed-back i ne used)
              ∙ same
              ∙ ap (pfs_entry_name h') (sym at')))
        | no ne' ↦ good.unique i j (IsUsed-back i ne used) (IsUsed-back j ne' used') (
            name-other i good ne (IsUsed-back i ne used)
            ∙ same
            ∙ sym (name-other j good ne' (IsUsed-back j ne' used')))
      ]
    ];
  }
