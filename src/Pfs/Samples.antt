-- ===== src/Pfs/Samples.antt =====
-- Headers with one file, for the tests.
use rymos.Prelude.{ℕ, ◌≡◌, sym, ap, ◌∙◌, subst, [], ◌∷◌, arith, not, ◌==◌}
use native.Mathlib.Decide.{ℕ_discrete}
use rymos.Pfs.Header.{
  Header, Entry, pfs_entry_used, pfs_entry_kind, pfs_entry_extents, pfs_set_entry, entry_of,
}
use rymos.Pfs.Header.Codec.{Fits, entry_of-pfs_set_entry}
use rymos.Pfs.Header.Frame.{SameBytes-pfs_set_entry}
use rymos.Pfs.Directory.Unique.{IsUsed, IsConsistent, IsUsed-back}
use rymos.Pfs.Directory.Written.{IsConsistent-pfs_set_entry}
use rymos.Pfs.Extents.{pfs_data_start}
use rymos.Pfs.Extents.Append.{Ascends}
use rymos.Pfs.Extents.Disjoint.{IsFile, IsAllocated}

abbrev pub empty_a : Entry
empty_a = record { name = b'a' ∷ []; size = 0; kind = 1; extents = []; created_ticks = 5; mode = 3 }

empty_a-Fits : Fits empty_a
empty_a-Fits = record {
  name_fits = omega arith;
  size_fits = omega arith;
  extents_fit = omega arith;
  words_fit = tt;
  created_fits = omega arith;
}

-- A header gets an empty file.
abbrev pub with_file : Header → Header
with_file base = pfs_set_entry base 0 empty_a 6

module _ (base : Header) (unused : (i : ℕ) → ¬ IsUsed base i) where
  base-IsConsistent : IsConsistent base
  base-IsConsistent = record {
    fits = λ i used. absurd (unused i used);
    unique = λ i j used. absurd (unused i used);
  }

  only_file : (i : ℕ) → IsUsed (with_file base) i → 0 ≡ i
  only_file i used = elim (ℕ_discrete 0 i) [
    | yes at ↦ at
    | no ne ↦ absurd (
        unused i (
          IsUsed-back base (with_file base) 0
            (λ j ne. SameBytes-pfs_set_entry base 0 empty_a 6 j (omega arith) ne) i ne used))
  ]

  file_entry : entry_of (with_file base) 0 ≡ empty_a
  file_entry = (entry_of-pfs_set_entry base 0 empty_a 6 empty_a-Fits (omega arith)).0

  pub with_file-IsFile : IsFile (with_file base) 0
  unfolding pfs_entry_used pfs_entry_kind
  with_file-IsFile =
      let kind = ap (λ e. e.kind) file_entry in
      ((omega arith, ap (λ k. not (k == 0)) kind), λ dir. absurd (omega (arith, dir, kind)))

  pub with_file-IsAllocated : IsAllocated (with_file base)
  with_file-IsAllocated = record {
    consistent =
        IsConsistent-pfs_set_entry base 0 empty_a 6 base-IsConsistent (omega arith) empty_a-Fits
          (omega arith) (omega arith) (λ j ne used. absurd (unused j used));
    ascends = λ i file.
        subst (λ i. Ascends pfs_data_start (pfs_entry_extents (with_file base) i))
          (only_file i file.0) (rw (ap (λ e. e.extents) file_entry) (omega arith));
    disjoint = λ i j s file file' ne. absurd (ne (sym (only_file i file.0) ∙ only_file j file'.0));
  }
