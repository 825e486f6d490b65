-- ===== src/Process/Mappings/Records.antt =====
-- kernel/src/main.rs: `process_track_mapping` and `process_untrack_mapping` on the records.
use rymos.Prelude.{
  ℕ, ◌≤◌, ◌<◌, ◌≡◌, ◌≢◌, ◌⊎◌, refl, inl, inr, Bool, true, false, ◌&&◌, not, arith, ◌==◌, leb,
  first_from, first_from-IsFirst, first_from-none, Bool-cases, Option-cases,
}
use rymos.Process.{Process, Processes, process_count, process_mapping_max, empty_mapping}
use rymos.Process.Mappings.{process_track_mapping, process_untrack_mapping}

-- The process has the record `i` of these pages.
abbrev pub HasRecord : Process → ℕ → ℕ → ℕ → Type 0
HasRecord p virt pages i =
    (i < process_mapping_max)
    × ((p.mappings i).used ≡ true)
    × ((p.mappings i).virt ≡ virt)
    × ((p.mappings i).pages ≡ pages)

-- The two tables are the same but for the record `i` of the process `index`: the other processes, its
-- other records and its other fields.
abbrev pub SameBut : Processes → Processes → ℕ → ℕ → Type 0
SameBut t t' index i =
    ((j : ℕ) → j ≢ index → t' j ≡ t j)
    × ((j : ℕ) → j ≢ i → (t' index).mappings j ≡ (t index).mappings j)
    × (t' index ≡ record (t index) { mappings = (t' index).mappings })

abbrev pub Tracked : Processes → ℕ → ℕ → ℕ → Processes × Bool → Type 0
Tracked t index virt pages (t', true) =
    (i : ℕ) × (((t index).mappings i).used ≡ false)
    × HasRecord (t' index) virt pages i
    × SameBut t t' index i
Tracked t index virt pages (t', false) =
    (t' ≡ t)
    × ((process_count ≤ index)
        ⊎ ((i : ℕ) → i < process_mapping_max → ((t index).mappings i).used ≡ true))

-- A mapping is recorded in an unused record of the process, and no other record, no other field of the
-- process and no other process changes; it is refused only for the idle slot, or with all 64 records in
-- use, and then nothing changes.
pub process_track_mapping-Tracked :
    (t : Processes) (index virt pages : ℕ)
    → Tracked t index virt pages (process_track_mapping t index virt pages)
unfolding process_track_mapping
process_track_mapping-Tracked t index virt pages = elim (Bool-cases (leb process_count index)) [
  | inl idle ↦ rw idle (refl, inl (ground (arith, idle)))
  | inr inside ↦
      elim (Option-cases
        (first_from process_mapping_max 0 (λ i. not ((t index).mappings i).used))) [
          | inl full ↦
              rw (inside, full, process_track_mapping)
                (
                  refl,
                  inr λ i l. of_not (
                      first_from-none process_mapping_max 0 (λ i. not ((t index).mappings i).used) i
                        full (omega arith) (omega (arith, l))),
                )
          | inr (i, free) ↦
              let first =
                first_from-IsFirst process_mapping_max 0 (λ i. not ((t index).mappings i).used) i
                  free in
              rw (inside, free, process_track_mapping)
                (
                  i,
                  of_true first.passes,
                  (first.below, ground arith, ground arith, ground arith),
                  ((λ j ne. ground arith), (λ j ne. ground arith), ground arith),
                )
        ]
]
  where
    of_not : {b : Bool} → not b ≡ false → b ≡ true
    of_not {b} h = ground arith

    of_true : {b : Bool} → not b ≡ true → b ≡ false
    of_true {b} h = ground arith

abbrev pub Untracked : Processes → ℕ → ℕ → ℕ → Processes × Bool → Type 0
Untracked t index virt pages (t', true) =
    (i : ℕ) × HasRecord (t index) virt pages i
    × ((t' index).mappings i ≡ empty_mapping)
    × SameBut t t' index i
Untracked t index virt pages (t', false) =
    (t' ≡ t) × ((process_count ≤ index) ⊎ ((i : ℕ) → ¬ HasRecord (t index) virt pages i))

-- A mapping is given up by clearing one record of exactly these pages, and nothing else changes; it is
-- refused only for the idle slot, or if no record has these pages.
pub process_untrack_mapping-Untracked :
    (t : Processes) (index virt pages : ℕ)
    → Untracked t index virt pages (process_untrack_mapping t index virt pages)
unfolding process_untrack_mapping
process_untrack_mapping-Untracked t index virt pages = elim (Bool-cases (leb process_count index)) [
  | inl idle ↦ rw idle (refl, inl (ground (arith, idle)))
  | inr inside ↦ elim (Option-cases (first_from process_mapping_max 0 test)) [
    | inl missing ↦
        rw (inside, missing, process_untrack_mapping)
          (
            refl,
            inr λ i record_i. differs i record_i (
                first_from-none process_mapping_max 0 test i missing (omega arith)
                  (omega (arith, record_i.0))),
          )
    | inr (i, found) ↦
        let first = first_from-IsFirst process_mapping_max 0 test i found in
        let same = matches i first.passes in
        rw (inside, found, process_untrack_mapping)
          (
            i,
            (first.below, same.0, same.1, same.2),
            ground arith,
            ((λ j ne. ground arith), (λ j ne. ground arith), ground arith),
          )
  ]
]
  where
    test : ℕ → Bool
    test i = let m = (t index).mappings i in m.used && (m.virt == virt && m.pages == pages)

    matches :
        (i : ℕ)
        → test i ≡ true
        → (((t index).mappings i).used ≡ true)
          × (((t index).mappings i).virt ≡ virt)
          × (((t index).mappings i).pages ≡ pages)
    matches i h = (ground arith, ground arith, ground arith)

    differs : (i : ℕ) → HasRecord (t index) virt pages i → test i ≡ false → ⊥
    differs i (l, used, v, p) h = ground arith
