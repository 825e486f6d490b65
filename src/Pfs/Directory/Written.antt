-- ===== src/Pfs/Directory/Written.antt =====
-- kernel/src/main.rs: `pfs_set_entry` and the names of a consistent header.
use rymos.Prelude.{
  ℕ, ◌<◌, ◌^◌, ◌≡◌, ◌≢◌, sym, ap, subst, ◌∙◌, true, not, some, List, arith, ◌==◌, none,
}
use native.Mathlib.Decide.{ℕ_discrete}
use rymos.Pfs.Header.{
  Header, Entry, pfs_entry_count, pfs_entry_used, pfs_entry_name, pfs_entry_kind, entry_of,
  pfs_set_entry,
}
use rymos.Pfs.Header.Codec.{
  Fits, entry_of-pfs_set_entry, pfs_entry_kind-pfs_set_entry, pfs_entry_name-pfs_set_entry,
}
use rymos.Pfs.Header.Frame.{SameBytes, SameBytes-pfs_set_entry}
use rymos.Pfs.Directory.{lookup}
use rymos.Pfs.Directory.Unique.{
  IsUsed, IsConsistent, IsConsistent-other, lookup-other, lookup-none, lookup-used, IsUsed-back,
  name-other,
}

module _ (h : Header) (index : ℕ) (e : Entry) (now : ℕ) (good : IsConsistent h)
    (inside : index < pfs_entry_count) (fits : Fits e) (now_fits : now < 2 ^ 64) (kind : e.kind ≢ 0)
    (own : (j : ℕ) → index ≢ j → IsUsed h j → pfs_entry_name h j ≢ e.name) where
  written : Header
  written = pfs_set_entry h index e now

  others : (j : ℕ) → index ≢ j → SameBytes h written j
  unfolding written
  others j ne = SameBytes-pfs_set_entry h index e now j fits.name_fits ne

  used : IsUsed written index
  unfolding written pfs_entry_used pfs_entry_kind
  used = (inside, nonzero _ (λ z. kind (sym (pfs_entry_kind-pfs_set_entry h index e now) ∙ z)))
    where
      nonzero : (n : ℕ) → n ≢ 0 → not (n == 0) ≡ true
      nonzero n ne = ground arith

  name_written : pfs_entry_name written index ≡ e.name
  unfolding written
  name_written = pfs_entry_name-pfs_set_entry h index e now fits.name_fits

  entry_written : entry_of written index ≡ e
  unfolding written
  entry_written = (entry_of-pfs_set_entry h index e now fits now_fits).0

  pub IsConsistent-pfs_set_entry : IsConsistent (pfs_set_entry h index e now)
  unfolding written
  IsConsistent-pfs_set_entry =
      IsConsistent-other h written index others good (λ _. subst Fits (sym entry_written) fits)
        (λ j ne used_j _ same. own j ne used_j (same ∙ name_written))

  pub lookup-written : lookup (pfs_set_entry h index e now) e.name ≡ some e
  unfolding written
  lookup-written =
      ap (lookup written) (sym name_written)
      ∙ lookup-used written index IsConsistent-pfs_set_entry used
      ∙ ap some entry_written

  pub lookup-not_written :
      (n : List ℕ)
      → (IsUsed h index → pfs_entry_name h index ≢ n)
      → n ≢ e.name
      → lookup (pfs_set_entry h index e now) n ≡ lookup h n
  unfolding written
  lookup-not_written n before ne =
      lookup-other h written index others n good IsConsistent-pfs_set_entry before
        (λ _ same. ne (sym same ∙ name_written))

  -- The name that a used entry had before it was written is gone, unless it is the new one.
  pub lookup-overwritten :
      IsUsed h index
      → pfs_entry_name h index ≢ e.name
      → lookup (pfs_set_entry h index e now) (pfs_entry_name h index) ≡ none
  unfolding written
  lookup-overwritten was ne = lookup-none written (pfs_entry_name h index) λ j used_j same.
      elim (ℕ_discrete index j) [
        | yes at ↦ ne (sym same ∙ ap (pfs_entry_name written) (sym at) ∙ name_written)
        | no apart ↦
            let before = IsUsed-back h written index others j apart used_j in
            apart (
              good.unique index j was before
                (sym same ∙ sym (name-other h written index others j good apart before)))
      ]
