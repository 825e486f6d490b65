-- ===== src/Ramfs/Entries.antt =====
-- kernel/src/main.rs: the names of `RamFs` and what one entry's change does to them.
use rymos.Prelude.{
  ℕ, ◌<◌, ◌≡◌, ◌≢◌, refl, sym, ap, subst, ◌∙◌, inl, inr, Bool, true, false, Option, none, some,
  List, arith, Bool-cases, Option-cases, update, update_self, update_other, first_from-eq,
  first_from-none, first_from-IsFirst, bytes_eq, bytes_eq→eq, bytes_eq_self,
}
use native.Mathlib.Decide.{ℕ_discrete}
use rymos.Ramfs.{RamFs, FileEntry, file_count, has_name, find}

-- A file of that name is in the entry.
abbrev pub Named : RamFs → List ℕ → ℕ → Type 0
Named fs name i = (i < file_count) × ((fs i).used ≡ true) × ((fs i).name ≡ name)

-- No two entries have the same name.
abbrev pub IsUnique : RamFs → Type 0
IsUnique fs = (name : List ℕ) (i j : ℕ) → Named fs name i → Named fs name j → i ≡ j

-- What is under a name: whether it is a directory, and its data.
abbrev pub content_at : RamFs → Option ℕ → Option (Bool × List ℕ)
content_at fs none = none
content_at fs (some i) = some ((fs i).is_dir, (fs i).data_bytes)

abbrev pub content : RamFs → List ℕ → Option (Bool × List ℕ)
content fs name = content_at fs (find fs name)

has_name-true :
    (name : List ℕ) (e : FileEntry) → has_name name e ≡ true → (e.used ≡ true) × (e.name ≡ name)
has_name-true name e h =
    let used : e.used ≡ true = ground (arith, h) in
    let same : bytes_eq e.name name ≡ true = ground (arith, h) in
    (used, bytes_eq→eq e.name name same)

true-has_name :
    (name : List ℕ) (e : FileEntry) → e.used ≡ true → e.name ≡ name → has_name name e ≡ true
true-has_name name e used same = rw (used, same) (bytes_eq_self name)

has_name-false :
    (name : List ℕ) (e : FileEntry) → ((e.used ≡ true) → e.name ≢ name) → has_name name e ≡ false
has_name-false name e none_such = elim (Bool-cases (has_name name e)) [
  | inl h ↦ let (used, same) = has_name-true name e h in absurd (none_such used same)
  | inr h ↦ h
]

pub find-Named : (fs : RamFs) (name : List ℕ) (i : ℕ) → find fs name ≡ some i → Named fs name i
unfolding find
find-Named fs name i e =
    let f = first_from-IsFirst file_count 0 (λ i. has_name name (fs i)) i e in
    let (used, same) = has_name-true name (fs i) f.passes in (omega (arith, f.below), used, same)

pub find-none : (fs : RamFs) (name : List ℕ) (i : ℕ) → find fs name ≡ none → ¬ Named fs name i
unfolding find
find-none fs name i e (l, used, same) = cc (
  first_from-none file_count 0 (λ i. has_name name (fs i)) i e (omega arith) (omega (arith, l)),
  true-has_name name (fs i) used same,
)

pub Named-find :
    (fs : RamFs) (name : List ℕ) (i : ℕ) → IsUnique fs → Named fs name i → find fs name ≡ some i
Named-find fs name i unique named = elim (Option-cases (find fs name)) [
  | inl e ↦ absurd (find-none fs name i e named)
  | inr (j, e) ↦ e ∙ ap some (unique name j i (find-Named fs name j e) named)
]

-- An entry is changed or taken for a name that no other entry has; what the entry had, if it was in
-- use, was under the same name.
module _ (fs : RamFs) (index : ℕ) (name : List ℕ) (e : FileEntry) (unique : IsUnique fs)
    (bound : index < file_count) (named : e.used ≡ true → e.name ≡ name)
    (alone : (j : ℕ) → Named fs name j → index ≡ j)
    (before : (fs index).used ≡ true → (fs index).name ≡ name) where
  fs' : RamFs
  fs' = update fs index e

  here : fs' index ≡ e
  unfolding fs'
  here = update_self fs index e

  there : (j : ℕ) → index ≢ j → fs' j ≡ fs j
  unfolding fs'
  there j ne = update_other fs index j e ne

  Named-back : (other : List ℕ) (j : ℕ) → index ≢ j → Named fs' other j → Named fs other j
  Named-back other j ne n =
      subst (λ f. (j < file_count) × (f.used ≡ true) × (f.name ≡ other)) (there j ne) n

  put-name : (other : List ℕ) (j : ℕ) → index ≡ j → Named fs' other j → other ≡ name
  put-name other j at (l, u, same) =
      sym same
      ∙ ap (λ j. (fs' j).name) (sym at)
      ∙ ap (λ f. f.name) here
      ∙ named (sym (ap (λ f. f.used) here) ∙ ap (λ j. (fs' j).used) at ∙ u)

  pub put-IsUnique : IsUnique (update fs index e)
  unfolding fs'
  put-IsUnique other i j n n' = elim (ℕ_discrete index i) [
    | yes at ↦ elim (ℕ_discrete index j) [
      | yes at' ↦ sym at ∙ at'
      | no ne' ↦
          sym at
          ∙ alone j (
              subst (λ other. Named fs other j) (put-name other i at n) (Named-back other j ne' n'))
    ]
    | no ne ↦ elim (ℕ_discrete index j) [
      | yes at' ↦
          sym (
            alone i (
              subst (λ other. Named fs other i) (put-name other j at' n')
                (Named-back other i ne n)))
          ∙ at'
      | no ne' ↦ unique other i j (Named-back other i ne n) (Named-back other j ne' n')
    ]
  ]

  pub put-content : e.used ≡ true → content (update fs index e) name ≡ some (e.is_dir, e.data_bytes)
  unfolding fs'
  put-content used =
      ap (content_at fs') (
        Named-find fs' name index put-IsUnique
          (bound, ap (λ f. f.used) here ∙ used, ap (λ f. f.name) here ∙ named used))
      ∙ ap (λ f. some (f.is_dir, f.data_bytes)) here

  pub put-none : e.used ≡ false → content (update fs index e) name ≡ none
  unfolding fs'
  put-none unused = elim (Option-cases (find fs' name)) [
    | inl none_such ↦ rw none_such refl
    | inr (j, found) ↦
        let n = find-Named fs' name j found in
        elim (ℕ_discrete index j) [
          | yes at ↦ absurd (cc (unused, ap (λ f. f.used) here, ap (λ j. (fs' j).used) at, n.1))
          | no ne ↦ absurd (ne (alone j (Named-back name j ne n)))
        ]
  ]

  same_test :
      (other : List ℕ) → other ≢ name → (j : ℕ) → has_name other (fs' j) ≡ has_name other (fs j)
  same_test other ne j = elim (ℕ_discrete index j) [
    | yes at ↦
        subst (λ j. has_name other (fs' j) ≡ has_name other (fs j)) at
          (ap (has_name other) here
            ∙ has_name-false other e (λ u same. ne (sym same ∙ named u))
            ∙ sym (has_name-false other (fs index) λ u same. ne (sym same ∙ before u)))
    | no apart ↦ ap (has_name other) (there j apart)
  ]

  same_find : (other : List ℕ) → other ≢ name → find fs' other ≡ find fs other
  unfolding find
  same_find other ne =
      first_from-eq file_count 0 (λ i. has_name other (fs' i)) (λ i. has_name other (fs i))
        (same_test other ne)

  pub put-other :
      (other : List ℕ) → other ≢ name → content (update fs index e) other ≡ content fs other
  unfolding fs'
  put-other other ne = ap (content_at fs') (same_find other ne) ∙ at (find fs other) refl
    where
      at : (o : Option ℕ) → find fs other ≡ o → content_at fs' o ≡ content_at fs o
      at none found = refl
      at (some j) found =
          ap (λ f. some (f.is_dir, f.data_bytes))
            (there j λ same.
              let (l, u, n) = find-Named fs other j found in
              ne (
                sym n ∙ ap (λ j. (fs j).name) (sym same) ∙ before (ap (λ j. (fs j).used) same ∙ u)))

-- After a change the names are still apart, the name holds the content, and every other name holds
-- what it held.
abbrev pub Stored : RamFs → List ℕ → Option (Bool × List ℕ) → RamFs → Type 0
Stored fs name c fs' =
    IsUnique fs'
    × (content fs' name ≡ c)
    × ((other : List ℕ) → other ≢ name → content fs' other ≡ content fs other)

-- The entry of a name is replaced.
pub replaced-Stored :
    (fs : RamFs) (name : List ℕ) (i : ℕ) (e : FileEntry)
    → IsUnique fs
    → Named fs name i
    → e.used ≡ true
    → e.name ≡ name
    → Stored fs name (some (e.is_dir, e.data_bytes)) (update fs i e)
replaced-Stored fs name i e unique n used named = (
  put-IsUnique fs i name e unique n.0 (λ u. named) (λ j m. unique name i j n m) (λ u. n.2),
  put-content fs i name e unique n.0 (λ u. named) (λ j m. unique name i j n m) (λ u. n.2) used,
  put-other fs i name e unique n.0 (λ u. named) (λ j m. unique name i j n m) (λ u. n.2),
)

-- The entry of a name is cleared.
pub cleared-Stored :
    (fs : RamFs) (name : List ℕ) (i : ℕ) (e : FileEntry)
    → IsUnique fs
    → Named fs name i
    → e.used ≡ false
    → Stored fs name none (update fs i e)
cleared-Stored fs name i e unique n unused = (
  put-IsUnique fs i name e unique n.0 never (λ j m. unique name i j n m) (λ u. n.2),
  put-none fs i name e unique n.0 never (λ j m. unique name i j n m) (λ u. n.2) unused,
  put-other fs i name e unique n.0 never (λ j m. unique name i j n m) (λ u. n.2),
)
  where
    never : e.used ≡ true → e.name ≡ name
    never u = absurd (cc (u, unused))

-- A free entry is taken for a name that is not there.
pub taken-Stored :
    (fs : RamFs) (name : List ℕ) (i : ℕ) (e : FileEntry)
    → IsUnique fs
    → find fs name ≡ none
    → i < file_count
    → (fs i).used ≡ false
    → e.used ≡ true
    → e.name ≡ name
    → Stored fs name (some (e.is_dir, e.data_bytes)) (update fs i e)
taken-Stored fs name i e unique missing bound free used named = (
  put-IsUnique fs i name e unique bound (λ u. named) alone never,
  put-content fs i name e unique bound (λ u. named) alone never used,
  put-other fs i name e unique bound (λ u. named) alone never,
)
  where
    alone : (j : ℕ) → Named fs name j → i ≡ j
    alone j n = absurd (find-none fs name j missing n)

    never : (fs i).used ≡ true → (fs i).name ≡ name
    never u = absurd (cc (u, free))
