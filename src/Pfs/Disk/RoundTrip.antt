-- ===== src/Pfs/Disk/RoundTrip.antt =====
-- kernel/src/main.rs: what `pfs_write_at` has written, `pfs_read_at` reads.
use rymos.Prelude.{
  ℕ, suc, ◌+◌, ◌^◌, ◌≤◌, ◌<◌, ◌≡◌, refl, sym, ap, ap₂, subst, ◌∙◌, inl, inr, some, List, [], ◌∷◌,
  arith, length,
}
use native.Mathlib.Decide.{dec_lt}
use rymos.Pfs.Header.{Header}
use rymos.Pfs.Extents.Disjoint.{IsFile, IsAllocated}
use rymos.Pfs.Disk.{Disk, Io, ok, failed, pfs_read_at, pfs_write_at, pfs_file_max}
use rymos.Pfs.Disk.Sectors.{After, Works, Works-of, header_of}
use rymos.Pfs.Disk.Places.{place-lba}
use rymos.Pfs.Disk.Reading.{Holds, Missing, Refuses, pfs_read_at-After}
use rymos.Pfs.Disk.Contents.{IsWritten}
use rymos.Pfs.Disk.WriteAt.{pfs_write_at-After}

Holds-unique :
    (h : Header) (index : ℕ) (bytes : ℕ → ℕ) (from : ℕ) (xs ys : List ℕ)
    → length xs ≡ length ys
    → Holds h index bytes from xs
    → Holds h index bytes from ys
    → xs ≡ ys
Holds-unique h index bytes from [] [] same p q = refl
Holds-unique h index bytes from [] (y ∷ ys) same p q = absurd (omega (arith, same))
Holds-unique h index bytes from (x ∷ xs) [] same p q = absurd (omega (arith, same))
Holds-unique h index bytes from (x ∷ xs) (y ∷ ys) same ((a, at, is), p) ((b, at', is'), q) =
    let one : some a ≡ some b = sym at ∙ at' in
    let place_eq : a ≡ b = cc one in
    ap₂ ◌∷◌ (sym is ∙ ap bytes place_eq ∙ is')
      (Holds-unique h index bytes (suc from) xs ys (omega (arith, same)) p q)

Holds-Missing :
    (h : Header) (index : ℕ) (bytes : ℕ → ℕ) (from : ℕ) (bs : List ℕ)
    → Holds h index bytes from bs
    → ¬ Missing h index from (length bs)
Holds-Missing h index bytes from [] holds (p, low, high, none_there) = omega (arith, low, high)
Holds-Missing h index bytes from (b ∷ bs) ((x, at, is), holds) (p, low, high, none_there) =
    elim (dec_lt from p) [
      | yes after ↦
          Holds-Missing h index bytes (suc from) bs holds
            (p, after, omega (arith, high), none_there)
      | no here ↦
          let same : p ≡ from = omega (arith, low, here) in
          let (lba, found, is_at) = place-lba h index from x at in cc (found, none_there, same)
    ]

After-result {ℓ} :
    {A : Type ℓ} (F : Disk → Type 0) (P : Disk → A → Type 0) (io : Io A) (d : Disk) (a : A)
    → After F P io
    → io ≡ ok d a
    → P d a
unfolding After
After-result F P io d a holds e = subst (After F P) e holds

pub After-returns {ℓ} :
    {A : Type ℓ} {F : Disk → Type 0} {P : Disk → A → Type 0} (io : Io A)
    → After F P io
    → ((d : Disk) → ¬ F d)
    → (d : Disk) × (a : A) × (io ≡ ok d a) × P d a
unfolding After
After-returns (failed d) fails never = absurd (never d fails)
After-returns (ok d a) holds never = (d, a, refl, holds)

-- On a disk whose files have sectors of their own: after a successful write, reading as many bytes from
-- the same offset of the file returns the bytes that were written, if the drive does every command.
pub pfs_read_at-pfs_write_at :
    (d d' : Disk) (index offset : ℕ) (bs : List ℕ) (now : ℕ)
    → IsAllocated (header_of d)
    → IsFile (header_of d) index
    → offset + length bs ≤ pfs_file_max
    → now < 2 ^ 64
    → Works d
    → pfs_write_at index offset bs now d ≡ ok d' tt
    → (d'' : Disk) × (pfs_read_at index offset (length bs) d' ≡ ok d'' bs)
pfs_read_at-pfs_write_at d d' index offset bs now good file small now_fits works e =
    let w : IsWritten d index offset bs d' =
      After-result _ _ _ d' tt
        (pfs_write_at-After d index offset bs now good file (omega (arith, small)) now_fits) e in
    let (d'', out, returns, (same, long, holds)) =
      After-returns _
        (pfs_read_at-After d' index offset (length bs) w.allocated w.still_file
          (omega (arith, small)))
        (λ d'' (same, why). never w (why (Works-of d d' w.drive_kept works))) in
    (
      d'',
      returns
          ∙ ap (ok d'')
              (Holds-unique (header_of d') index d'.bytes offset out bs long holds w.data_there),
    )
  where
    never : IsWritten d index offset bs d' → ¬ Refuses d' index offset (length bs)
    never w (inl no_magic) = cc (no_magic, w.has_header)
    never w (inr (inl large)) = omega (arith, large, small)
    never w (inr (inr missing)) =
        Holds-Missing (header_of d') index d'.bytes offset bs w.data_there missing
