-- ===== src/Pfs/Disk/Sectors.antt =====
-- kernel/src/main.rs: what the commands to the drive and the transfers of the header do to the disk.
use rymos.Prelude.{
  ℕ, zero, suc, ◌+◌, ◌-◌, ◌*◌, ◌^◌, ◌≤◌, ◌<◌, ◌≡◌, refl, sym, ap, subst, ◌∙◌, inl, inr, ◌⊎◌, Bool,
  true, false, ◌&&◌, arith, Bool-cases, ltb, leb, if◌then◌else◌, Table,
}
use native.Mathlib.Decide.{dec_lt}
use mathlib.Core.Path.{fun_ext}
use rymos.Pfs.Header.{Header}
use rymos.Pfs.Extents.{pfs_header_sectors}
use rymos.Pfs.Disk.{
  Disk, Io, failed, ok, and_then, Answer, done, refused, late_error, sector_size, sector_address,
  copy_sector, ata_read_sector, ata_write_sector, read_sectors, read_header_silent, has_magic,
  checked, no_header,
}

-- What holds of the disk that a function leaves: the first predicate where it fails, the second, with
-- the result, where it does not.
unfoldable pub After {ℓ} : {A : Type ℓ} → (Disk → Type 0) → (Disk → A → Type 0) → Io A → Type 0
After F P (failed d) = F d
After F P (ok d a) = P d a

pub After-ok {ℓ} :
    {A : Type ℓ} (F : Disk → Type 0) (P : Disk → A → Type 0) (d : Disk) (a : A)
    → P d a
    → After F P (ok d a)
unfolding After
After-ok F P d a holds = holds

pub After-failed {ℓ} :
    {A : Type ℓ} (F : Disk → Type 0) (P : Disk → A → Type 0) (d : Disk) → F d → After F P (failed d)
unfolding After
After-failed F P d fails = fails

-- Both branches of a test.
pub After-test {ℓ} :
    {A : Type ℓ} (F : Disk → Type 0) (P : Disk → A → Type 0) (b : Bool) (x y : Io A)
    → (b ≡ true → After F P x)
    → (b ≡ false → After F P y)
    → After F P (elim b [ true ↦ x | false ↦ y ])
After-test F P true x y yes_ no_ = yes_ refl
After-test F P false x y yes_ no_ = no_ refl

pub After-and_then {ℓ ℓ'} :
    {A : Type ℓ} {B : Type ℓ'} {F F' : Disk → Type 0} {P : Disk → A → Type 0}
    (Q : Disk → B → Type 0) (io : Io A) (f : Disk → A → Io B)
    → After F P io
    → ((d : Disk) → F d → F' d)
    → ((d : Disk) (a : A) → P d a → After F' Q (f d a))
    → After F' Q (and_then io f)
unfolding After
After-and_then Q (failed d) f before stays after = stays d before
After-and_then Q (ok d a) f before stays after = after d a before

pub After-weaken {ℓ} :
    {A : Type ℓ} {F F' : Disk → Type 0} {P : Disk → A → Type 0} (Q : Disk → A → Type 0) (io : Io A)
    → After F P io
    → ((d : Disk) → F d → F' d)
    → ((d : Disk) (a : A) → P d a → Q d a)
    → After F' Q io
unfolding After
After-weaken Q (failed d) before fails holds = fails d before
After-weaken Q (ok d a) before fails holds = holds d a before

-- The drive does every command.
abbrev pub Works : Disk → Type 0
Works d = (n : ℕ) → d.answers n ≡ done

-- Nothing was written.
abbrev pub Same : Disk → Disk → Type 0
Same d d' = (d'.bytes ≡ d.bytes) × (d'.answers ≡ d.answers)

-- A byte is changed only where `P` holds.
abbrev pub OnlyIn : (ℕ → Type 0) → Disk → Disk → Type 0
OnlyIn P d d' = ((x : ℕ) → ¬ P x → d'.bytes x ≡ d.bytes x) × (d'.answers ≡ d.answers)

abbrev pub InSector : ℕ → ℕ → Type 0
InSector lba x = (lba * sector_size ≤ x) × (x < lba * sector_size + sector_size)

pub Works-of : (d d' : Disk) → d'.answers ≡ d.answers → Works d → Works d'
Works-of d d' same works n = ap (λ answers. answers n) same ∙ works n

Answer-cases : (a : Answer) → (a ≡ done) ⊎ ((a ≡ refused) ⊎ (a ≡ late_error))
Answer-cases done = inl refl
Answer-cases refused = inr (inl refl)
Answer-cases late_error = inr (inr refl)

module _ (d : Disk) (lba : ℕ) (small : lba < 2 ^ 28) where
  address : sector_address lba ≡ lba * sector_size
  address = omega (arith, small)

  pub ata_read_sector-After :
      After
        (λ d'. Same d d' × ¬ Works d)
        (λ d' sector. Same d d' × (sector ≡ (λ o. d.bytes (lba * sector_size + o))))
        (ata_read_sector d lba)
  unfolding After ata_read_sector
  ata_read_sector-After = elim (Answer-cases (d.answers d.served)) [
    | inl e ↦ rw e ((refl, refl), ap (λ a o. d.bytes (a + o)) address)
    | inr (inl e) ↦ rw e ((refl, refl), λ works. absurd (cc (e, works d.served)))
    | inr (inr e) ↦ rw e ((refl, refl), λ works. absurd (cc (e, works d.served)))
  ]

  pub ata_write_sector-After :
      (sector : Table ℕ)
      → After
          (λ d'.
            OnlyIn (InSector lba) d d'
            × (¬ Works d)
            × ((d'.bytes ≡ d.bytes) ⊎ (d'.bytes ≡ copy_sector d.bytes (lba * sector_size) sector)))
          (λ d' _.
            OnlyIn (InSector lba) d d'
            × (d'.bytes ≡ copy_sector d.bytes (lba * sector_size) sector))
          (ata_write_sector d lba sector)
  unfolding After ata_write_sector
  ata_write_sector-After sector = elim (Answer-cases (d.answers d.served)) [
    | inl e ↦ rw e ((written sector, refl), ap (λ a. copy_sector d.bytes a sector) address)
    | inr (inl e) ↦
        rw e (((λ x out. refl), refl), (λ works. absurd (cc (e, works d.served))), inl refl)
    | inr (inr e) ↦ rw e (
      (written sector, refl),
      (λ works. absurd (cc (e, works d.served))),
      inr (ap (λ a. copy_sector d.bytes a sector) address),
    )
  ]
    where
      written :
          (sector : Table ℕ) (x : ℕ)
          → ¬ InSector lba x
          → copy_sector d.bytes (sector_address lba) sector x ≡ d.bytes x
      written sector x out = rw address (elim (Bool-cases (inside x)) [
        | inl e ↦ absurd (out (ground (arith, e)))
        | inr e ↦ rw e refl
      ])
        where
          inside : ℕ → Bool
          inside x = leb (lba * sector_size) x && ltb x (lba * sector_size + sector_size)

-- The header after the sectors before `n` are read into it, one by one.
abbrev pub header_up_to : ℕ → Table ℕ → Header
header_up_to n bytes x = if ltb x (n * sector_size) then bytes x else 0

-- The header on the disk.
abbrev pub header_of : Disk → Header
header_of d = header_up_to pfs_header_sectors d.bytes

pub Same-trans : (a b c : Disk) → Same a b → Same b c → Same a c
Same-trans a b c (p, q) (r, s) = (r ∙ p, s ∙ q)

-- One more sector is read into the header.
one_more :
    (h : Header) (i : ℕ) (bytes bytes' : Table ℕ) (sector : Table ℕ)
    → h ≡ header_up_to i bytes
    → bytes' ≡ bytes
    → sector ≡ (λ o. bytes (i * sector_size + o))
    → copy_sector h (i * sector_size) sector ≡ header_up_to (suc i) bytes'
one_more h i bytes bytes' sector e same read = rw (e, same, read) (fun_ext λ x. here x)
  where
    here :
        (x : ℕ)
        → copy_sector (header_up_to i bytes) (i * sector_size) (λ o. bytes (i * sector_size + o)) x
          ≡ header_up_to (suc i) bytes x
    here x = elim (dec_lt x (i * sector_size)) [
      | yes below ↦ ground (arith, below)
      | no above ↦
          let at : i * sector_size + (x - i * sector_size) ≡ x = omega (arith, above) in
          rw at (ground (arith, above))
    ]

read_sectors-After :
    (n i m : ℕ) (h : Header) (d : Disk)
    → m ≤ pfs_header_sectors
    → i + n ≡ m
    → h ≡ header_up_to i d.bytes
    → After
        (λ d'. Same d d' × ¬ Works d)
        (λ d' h'. Same d d' × (h' ≡ header_up_to m d.bytes))
        (read_sectors n i h d)
unfolding read_sectors
read_sectors-After zero i m h d l at e =
    After-ok _ _ _ _ ((refl, refl), e ∙ ap (λ i. header_up_to i d.bytes) (omega (arith, at)))
read_sectors-After (suc n) i m h d l at e =
    After-and_then _ (ata_read_sector d i) _ (ata_read_sector-After d i (omega (arith, l, at)))
      (λ d' failed. failed)
      (λ d' sector (same, read).
        After-weaken _ _
          (read_sectors-After n (suc i) m (copy_sector h (i * sector_size) sector) d' l
            (omega (arith, at)) (one_more h i d.bytes d'.bytes sector e same.0 read))
          (λ d'' (same', broken).
            (Same-trans d d' d'' same same', λ works. broken (Works-of d d' same.1 works)))
          (λ d'' h' (same', all).
            (Same-trans d d' d'' same same', all ∙ ap (header_up_to m) same.0)))

-- `read_header_silent` returns the header on the disk, and fails where the drive does or where the
-- header is no RYMFS5 header.
pub read_header_silent-After :
    (d : Disk)
    → After
        (λ d'. Same d d' × (Works d → has_magic (header_of d) ≡ false))
        (λ d' h'. Same d d' × (h' ≡ header_of d) × (has_magic (header_of d) ≡ true))
        (read_header_silent d)
unfolding After read_header_silent
read_header_silent-After d =
    After-and_then _ (read_sectors pfs_header_sectors 0 no_header d) checked
      (read_sectors-After pfs_header_sectors 0 pfs_header_sectors no_header d (omega arith)
        (omega arith) (fun_ext λ x. ground arith))
      (λ d' (same, broken). (same, λ works. absurd (broken works)))
      (λ d' h' (same, all). rw all (elim (Bool-cases (has_magic (header_of d))) [
        | inl e ↦ rw e (same, refl, refl)
        | inr e ↦ rw e (same, λ works. refl)
      ]))

-- What follows on `read_header_silent`.
pub read_header_silent-and_then {ℓ} :
    {A : Type ℓ} {F : Disk → Type 0} (P : Disk → A → Type 0) (d : Disk) (f : Disk → Header → Io A)
    → ((d' : Disk) → Same d d' → (Works d → has_magic (header_of d) ≡ false) → F d')
    → ((d' : Disk) → Same d d' → has_magic (header_of d) ≡ true → After F P (f d' (header_of d)))
    → After F P (and_then (read_header_silent d) f)
read_header_silent-and_then {F} P d f fails goes =
    After-and_then P (read_header_silent d) f (read_header_silent-After d)
      (λ d' (same, why). fails d' same why)
      (λ d' h (same, at, has). subst (λ h. After F P (f d' h)) (sym at) (goes d' same has))
