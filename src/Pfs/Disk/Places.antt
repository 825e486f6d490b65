-- ===== src/Pfs/Disk/Places.antt =====
-- kernel/src/main.rs: the byte of the disk where a position of a file lies.
use rymos.Prelude.{
  ℕ, ◌+◌, ◌-◌, ◌*◌, ◌%◌, ◌^◌, ◌≤◌, ◌<◌, ◌≡◌, ◌≢◌, refl, sym, ◌∙◌, ◌⊎◌, inl, inr, ◌&&◌, not, Option,
  none, some, List, [], ◌∷◌, arith, Bool-cases, Option-cases, ◌==◌, ltb,
}
use rymos.Pfs.Header.{Header, PfsExtent, pfs_entry_extents}
use rymos.Pfs.Extents.{
  lba_from, pfs_entry_lba_for_sector, pfs_entry_total_sectors, pfs_data_start, pfs_disk_sectors,
}
use rymos.Pfs.Extents.Occupied.{Taken}
use rymos.Pfs.Extents.Append.{Ascends, Ascends-bound, size_of}
use rymos.Pfs.Extents.Disjoint.{IsFile, IsAllocated}
use rymos.Pfs.Extents.Capacity.{total-size_of}
use rymos.Pfs.Disk.{sector_size, logical_sector, pfs_header_bytes}

abbrev pub at_offset : Option ℕ → ℕ → Option ℕ
at_offset none o = none
at_offset (some lba) o = some (lba * sector_size + o)

-- Where the position `p` of the file `index` lies on the disk, if the file reaches so far.
abbrev pub place : Header → ℕ → ℕ → Option ℕ
place h index p = at_offset (pfs_entry_lba_for_sector h index (logical_sector p)) (p % sector_size)

pub place-some :
    (h : Header) (index p lba : ℕ)
    → pfs_entry_lba_for_sector h index (logical_sector p) ≡ some lba
    → place h index p ≡ some (lba * sector_size + p % sector_size)
place-some h index p lba e = rw e refl

pub place-lba :
    (h : Header) (index p x : ℕ)
    → place h index p ≡ some x
    → (lba : ℕ) × (pfs_entry_lba_for_sector h index (logical_sector p) ≡ some lba)
      × (x ≡ lba * sector_size + p % sector_size)
place-lba h index p x e =
    elim (Option-cases (pfs_entry_lba_for_sector h index (logical_sector p))) [
      | inl missing ↦ absurd (cc (e, missing))
      | inr (lba, found) ↦ (lba, found, cc (e, found))
    ]

module _ (e : PfsExtent) (es : List PfsExtent) (low k s : ℕ) (a : Ascends low (e ∷ es)) where
  -- The first extent has the sector, or one after it has.
  lba_from-step :
      lba_from (e ∷ es) k ≡ some s
      → ((k < e.sectors) × (s ≡ e.start + k))
        ⊎ ((e.sectors ≤ k) × (lba_from es (k - e.sectors) ≡ some s))
  unfolding lba_from
  lba_from-step found = elim (Bool-cases (not (e.sectors == 0) && ltb k e.sectors)) [
    | inl here ↦
        let bound = Ascends-bound (e.start + e.sectors) es a.1 in
        let inside : k < e.sectors = ground (arith, here) in
        let no_wrap : (e.start + k) % 2 ^ 32 ≡ e.start + k = omega (arith, inside, bound) in
        let head : some ((e.start + k) % 2 ^ 32) ≡ some s = rw here at found in
        let at : (e.start + k) % 2 ^ 32 ≡ s = cc head in inl (inside, sym at ∙ no_wrap)
    | inr past ↦ inr (ground (arith, past), rw past at found)
  ]

pub lba_from-Taken :
    (es : List PfsExtent) (low k s : ℕ)
    → Ascends low es
    → lba_from es k ≡ some s
    → (low ≤ s) × (s < pfs_disk_sectors) × Taken es s
unfolding lba_from
lba_from-Taken [] low k s a found = absurd (cc found)
lba_from-Taken (e ∷ es) low k s a found = elim (lba_from-step e es low k s a found) [
  | inl (inside, at) ↦
      let bound = Ascends-bound (e.start + e.sectors) es a.1 in
      (
        omega (arith, a.0, at),
        omega (arith, bound, inside, at),
        inl (omega (arith, at), omega (arith, at, inside)),
      )
  | inr (past, later) ↦
      let (above, below, taken) =
        lba_from-Taken es (e.start + e.sectors) (k - e.sectors) s a.1 later in
      (omega (arith, a.0, above), below, inr taken)
]

-- Two sectors of a file are at different places.
pub lba_from-injective :
    (es : List PfsExtent) (low k k' s : ℕ)
    → Ascends low es
    → lba_from es k ≡ some s
    → lba_from es k' ≡ some s
    → k ≡ k'
unfolding lba_from
lba_from-injective [] low k k' s a found found' = absurd (cc found)
lba_from-injective (e ∷ es) low k k' s a found found' = elim (lba_from-step e es low k s a found) [
  | inl (inside, at) ↦ elim (lba_from-step e es low k' s a found') [
    | inl (inside', at') ↦ omega (arith, at, at')
    | inr (past', later') ↦
        let (above, below, taken) =
          lba_from-Taken es (e.start + e.sectors) (k' - e.sectors) s a.1 later' in
        absurd (omega (arith, above, at, inside))
  ]
  | inr (past, later) ↦
      let (above, below, taken) =
        lba_from-Taken es (e.start + e.sectors) (k - e.sectors) s a.1 later in
      elim (lba_from-step e es low k' s a found') [
        | inl (inside', at') ↦ absurd (omega (arith, above, at', inside'))
        | inr (past', later') ↦ omega (
          arith,
          past,
          past',
          lba_from-injective es (e.start + e.sectors) (k - e.sectors) (k' - e.sectors) s a.1 later
              later',
        )
      ]
]

pub lba_from-some :
    (es : List PfsExtent) (low k : ℕ)
    → Ascends low es
    → k < size_of es
    → (s : ℕ) × (lba_from es k ≡ some s)
unfolding lba_from
lba_from-some [] low k a l = absurd (omega (arith, l))
lba_from-some (e ∷ es) low k a l = elim (Bool-cases (not (e.sectors == 0) && ltb k e.sectors)) [
  | inl here ↦ ((e.start + k) % 2 ^ 32, rw here refl)
  | inr past ↦
      let after : e.sectors ≤ k = ground (arith, past) in
      let (s, found) =
        lba_from-some es (e.start + e.sectors) (k - e.sectors) a.1 (omega (arith, after, l)) in
      (s, rw past found)
]

pub lba_from-below :
    (es : List PfsExtent) (low k s : ℕ) → Ascends low es → lba_from es k ≡ some s → k < size_of es
unfolding lba_from
lba_from-below [] low k s a found = absurd (cc found)
lba_from-below (e ∷ es) low k s a found = elim (lba_from-step e es low k s a found) [
  | inl (inside, at) ↦ omega (arith, inside)
  | inr (past, later) ↦
      omega (arith, past, lba_from-below es (e.start + e.sectors) (k - e.sectors) s a.1 later)
]

module _ (h : Header) (index : ℕ) (good : IsAllocated h) (file : IsFile h index) where
  extents : List PfsExtent
  extents = pfs_entry_extents h index

  ascends : Ascends pfs_data_start extents
  unfolding extents
  ascends = good.ascends index file

  -- The sector of a file lies after the header and on the disk.
  pub lba-bounds :
      (k lba : ℕ)
      → pfs_entry_lba_for_sector h index k ≡ some lba
      → (pfs_data_start ≤ lba) × (lba < pfs_disk_sectors) × Taken (pfs_entry_extents h index) lba
  unfolding pfs_entry_lba_for_sector extents
  lba-bounds k lba found = lba_from-Taken extents pfs_data_start k lba ascends found

  pub lba-some :
      (k : ℕ)
      → k < pfs_entry_total_sectors h index
      → (lba : ℕ) × (pfs_entry_lba_for_sector h index k ≡ some lba)
  unfolding pfs_entry_lba_for_sector extents
  lba-some k l =
      lba_from-some extents pfs_data_start k ascends
        (omega (arith, total-size_of h index ascends, l))

  pub lba-below :
      (k lba : ℕ)
      → pfs_entry_lba_for_sector h index k ≡ some lba
      → k < pfs_entry_total_sectors h index
  unfolding pfs_entry_lba_for_sector extents
  lba-below k lba found = omega (
    arith,
    total-size_of h index ascends,
    lba_from-below extents pfs_data_start k lba ascends found,
  )

  pub place-after_header : (p x : ℕ) → place h index p ≡ some x → (pfs_header_bytes ≤ x)
  place-after_header p x e =
      let (lba, found, at) = place-lba h index p x e in
      let (above, below, taken) = lba-bounds (logical_sector p) lba found in
      omega (arith, at, above)

  -- Two positions of a file are at different places.
  pub place-injective :
      (p q x : ℕ)
      → p < 2 ^ 41
      → q < 2 ^ 41
      → place h index p ≡ some x
      → place h index q ≡ some x
      → p ≡ q
  unfolding pfs_entry_lba_for_sector extents
  place-injective p q x p_fits q_fits at_p at_q =
      let (lba, found, here) = place-lba h index p x at_p in
      let (lba', found', here') = place-lba h index q x at_q in
      let same_lba : lba' ≡ lba = omega (arith, here, here') in
      let same_sector =
        lba_from-injective extents pfs_data_start (logical_sector p) (logical_sector q) lba ascends
          found (rw same_lba at found') in
      omega (arith, same_sector, here, here', p_fits, q_fits, same_lba)

  -- A place of one file is no place of another.
  pub place-other :
      (j p q x : ℕ) → IsFile h j → index ≢ j → place h index p ≡ some x → place h j q ≢ some x
  unfolding pfs_entry_lba_for_sector extents
  place-other j p q x file' ne at_p at_q =
      let (lba, found, here) = place-lba h index p x at_p in
      let (lba', found', here') = place-lba h j q x at_q in
      let same_lba : lba' ≡ lba = omega (arith, here, here') in
      good.disjoint index j lba file file' ne (lba-bounds (logical_sector p) lba found).2
        (lba_from-Taken (pfs_entry_extents h j) pfs_data_start (logical_sector q) lba
          (good.ascends j file') (rw same_lba at found')).2
