-- ===== src/Pfs/Directory/Rename.antt =====
-- kernel/src/main.rs: `pfs_rename_header` and the names of a consistent header.
use rymos.Prelude.{
  ℕ, ◌<◌, ◌≤◌, ◌^◌, ◌≡◌, ◌≢◌, ◌⊎◌, sym, ap, ◌∙◌, inl, inr, Bool, true, false, ◌&&◌, ◌||◌, not,
  Option, none, some, List, arith, bytes_eq, bytes_eq→eq, if◌then◌else◌, length, Bool-cases,
  Option-cases,
}
use rymos.Pfs.Header.{
  pfs_kind_dir, pfs_entry_kind, Entry, Header, Entry, pfs_name_max, pfs_entry_used,
  pfs_entry_is_dir, pfs_entry_name, pfs_entry_kind, entry_of, pfs_set_entry,
}
use rymos.Pfs.Header.Codec.{Fits}
use rymos.Pfs.Directory.{
  Outcome, changed, refused, valid_pfs_path, pfs_find_entry, pfs_parent_exists, pfs_dir_empty,
  pfs_rename_header, renamed, lookup, entry_at,
}
use rymos.Pfs.Directory.Unique.{
  IsUsed, IsConsistent, pfs_find_entry-none, pfs_find_entry-some, bytes_eq-false,
}
use rymos.Pfs.Directory.Unlink.{HasEntry, no_entry_below, pfs_dir_empty-false}
use rymos.Pfs.Directory.Written.{
  IsConsistent-pfs_set_entry, lookup-written, lookup-not_written, lookup-overwritten,
}

-- The outcomes of renaming `old` to `new`.
abbrev pub Renamed : Header → List ℕ → List ℕ → Outcome → Type 0
Renamed h old new (changed h') =
    IsConsistent h'
    × (lookup h new ≡ none)
    × ((e : Entry) × (lookup h old ≡ some e)
        × (e.kind ≡ pfs_kind_dir → ¬ HasEntry h old)
        × (pfs_parent_exists h new ≡ true)
        × ((n : List ℕ)
            → lookup h' n ≡ (
                if bytes_eq n new
                then some (record e { name = new })
                else if bytes_eq n old
                then none
                else lookup h n)))
Renamed h old new (refused code) =
    ((valid_pfs_path old && valid_pfs_path new) ≡ false)
    ⊎ (lookup h old ≡ none)
    ⊎ (lookup h new ≢ none)
    ⊎ (pfs_parent_exists h new ≡ false)
    ⊎ HasEntry h old

not-false : (b : Bool) → not b ≡ false → b ≡ true
not-false b p = ground arith

some_other : {A : Type 0} (o : Option A) (a : A) → o ≡ some a → o ≢ none
some_other o a e missing = absurd (cc (e, missing))

pub valid-length : (name : List ℕ) → valid_pfs_path name ≡ true → length name ≤ pfs_name_max
unfolding valid_pfs_path
valid-length name v = ground arith

used-kind : (h : Header) (i : ℕ) → pfs_entry_used h i ≡ true → pfs_entry_kind h i ≢ 0
unfolding pfs_entry_used pfs_entry_kind
used-kind h i u z = ground arith

module _ (h : Header) (good : IsConsistent h) (now : ℕ) (now_fits : now < 2 ^ 64) where
  module _ (old new : List ℕ) (index : ℕ) (at : pfs_find_entry h old ≡ some index)
      (free : pfs_find_entry h new ≡ none) (new_valid : valid_pfs_path new ≡ true)
      (child : not (pfs_parent_exists h new) ≡ false)
      (movable : (pfs_entry_is_dir h index && not (pfs_dir_empty h old)) ≡ false) where
    e : Entry
    e = renamed h index new

    found : IsUsed h index × (pfs_entry_name h index ≡ old)
    found = pfs_find_entry-some h old index at

    fits : Fits e
    unfolding e
    fits =
        let before = good.fits index found.0 in
        record {
          name_fits = valid-length new new_valid;
          size_fits = before.size_fits;
          extents_fit = before.extents_fit;
          words_fit = before.words_fit;
          created_fits = before.created_fits;
        }

    own : (j : ℕ) → index ≢ j → IsUsed h j → pfs_entry_name h j ≢ e.name
    unfolding e
    own j _ used = pfs_find_entry-none h new free j used

    kind : e.kind ≢ 0
    unfolding e
    kind = used-kind h index found.0.1

    not_new : old ≢ new
    not_new same = pfs_find_entry-none h new free index found.0 (found.1 ∙ same)

    held : lookup h old ≡ some (entry_of h index)
    unfolding lookup
    held = ap (entry_at h) at

    names :
        (n : List ℕ)
        → lookup (pfs_set_entry h index e now) n
          ≡ (if bytes_eq n new then some e else if bytes_eq n old then none else lookup h n)
    unfolding e
    names n = elim (Bool-cases (bytes_eq n new)) [
      | inl here ↦ rw here (
          ap (lookup (pfs_set_entry h index e now)) (bytes_eq→eq n new here)
          ∙ lookup-written h index e now good found.0.0 fits now_fits kind own)
      | inr not_here ↦ elim (Bool-cases (bytes_eq n old)) [
        | inl before ↦
            rw (not_here, before)
              (ap (lookup (pfs_set_entry h index e now)) (bytes_eq→eq n old before ∙ sym found.1)
                ∙ lookup-overwritten h index e now good found.0.0 fits now_fits kind own found.0
                    (λ same. not_new (sym found.1 ∙ same)))
        | inr other ↦
            rw (not_here, other)
              (lookup-not_written h index e now good found.0.0 fits now_fits kind own n
                (λ _ same. bytes_eq-false n old other (sym same ∙ found.1))
                (bytes_eq-false n new not_here))
      ]
    ]

    changed-Renamed : Renamed h old new (changed (pfs_set_entry h index e now))
    unfolding e lookup
    changed-Renamed = (
      IsConsistent-pfs_set_entry h index e now good found.0.0 fits now_fits kind own,
      ap (entry_at h) free,
      (entry_of h index, held, no_entry_below h index old movable, not-false _ child, names),
    )

both_true : (a b : Bool) → (not a || not b) ≡ false → (a ≡ true) × (b ≡ true)
both_true a b p = ground arith

one_false : (a b : Bool) → (not a || not b) ≡ true → (a && b) ≡ false
one_false a b p = ground arith

not-true : (a b : Bool) → (a && not b) ≡ true → b ≡ false
not-true a b p = ground arith

-- Renaming keeps a header consistent. On success nothing was under the new name, which now holds
-- the entry of the old one; nothing is under the old name; and every other name holds what it held.
-- The new name's parent was a directory, and where the entry is a directory nothing stood below its
-- old name. A refusal has one of the reasons of the code.
pub pfs_rename_header-Renamed :
    (h : Header) (old new : List ℕ) (now : ℕ)
    → IsConsistent h
    → now < 2 ^ 64
    → Renamed h old new (pfs_rename_header h old new now)
unfolding pfs_rename_header lookup e
pfs_rename_header-Renamed h old new now good now_fits =
    elim (Bool-cases (not (valid_pfs_path old) || not (valid_pfs_path new))) [
      | inl bad ↦ rw (bad, pfs_rename_header) (inl (one_false _ _ bad))
      | inr valid ↦ elim (Option-cases (pfs_find_entry h old)) [
        | inl missing ↦ rw (valid, missing, pfs_rename_header) (inr (inl (ap (entry_at h) missing)))
        | inr (index, at) ↦ elim (Option-cases (pfs_find_entry h new)) [
          | inr (j, taken) ↦
              rw (valid, at, taken, pfs_rename_header)
                (inr (inr (inl (some_other _ _ (ap (entry_at h) taken)))))
          | inl free ↦ elim (Bool-cases (not (pfs_parent_exists h new))) [
            | inl orphan ↦
                rw (valid, at, free, orphan, pfs_rename_header)
                  (inr (inr (inr (inl (ground arith)))))
            | inr child ↦
                elim (Bool-cases (pfs_entry_is_dir h index && not (pfs_dir_empty h old))) [
                  | inl full ↦
                      rw (valid, at, free, child, full, pfs_rename_header)
                        (inr (inr (inr (inr (pfs_dir_empty-false h old (not-true _ _ full))))))
                  | inr movable ↦
                      rw (valid, at, free, child, movable, pfs_rename_header)
                        (changed-Renamed h good now now_fits old new index at free
                          (both_true _ _ valid).1 child movable)
                ]
          ]
        ]
      ]
    ]
