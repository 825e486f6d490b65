-- ===== src/Pfs/Extents/FreeRun.antt =====
-- kernel/src/main.rs: the loop of `pfs_find_free_run`.
use rymos.Prelude.{
  ℕ, zero, suc, ◌+◌, ◌-◌, ◌≤◌, ◌<◌, min, ◌≡◌, refl, inl, inr, Bool, true, false, ◌||◌, Option, none,
  some, arith, Bool-cases, ◌==◌, leb,
}
use native.Mathlib.Decide.{dec_lt}
use rymos.Pfs.Header.{Header, pfs_entry_count}
use rymos.Pfs.Extents.{
  Scan, blocked, clear, scan_entries, run_at, free_run_from, pfs_find_free_run, pfs_disk_sectors,
}
use rymos.Pfs.Extents.Occupied.{TakenByOther, AllOnDisk, Scanned, scan-Scanned}

-- What a search from the sector `start_from` for a run of at most `max_len` sectors finds.
abbrev pub FreeRun : Header → Option ℕ → ℕ → ℕ → Option (ℕ × ℕ) → Type 0
FreeRun h skip start_from max_len none =
    (s : ℕ) → start_from ≤ s → s < pfs_disk_sectors → TakenByOther h skip s
FreeRun h skip start_from max_len (some (run_start, run_len)) =
    (start_from ≤ run_start)
    × (0 < run_len)
    × (run_len ≤ max_len)
    × (run_start + run_len ≤ pfs_disk_sectors)
    × ((s : ℕ) → run_start ≤ s → s < run_start + run_len → ¬ TakenByOther h skip s)
    × ((s : ℕ) → start_from ≤ s → s < run_start → TakenByOther h skip s)

module _ (h : Header) (skip : Option ℕ) (on_disk : AllOnDisk h skip) where
  module _ (max_len : ℕ) (positive : 0 < max_len) where
    run_at-FreeRun :
        (c : ℕ) (o : Option ℕ)
        → c < pfs_disk_sectors
        → Scanned c (TakenByOther h skip) none (clear o)
        → FreeRun h skip c max_len (run_at max_len c o)
    run_at-FreeRun c none l found =
        elim (Bool-cases (leb pfs_disk_sectors c || min (pfs_disk_sectors - c) max_len == 0)) [
          | inl bad ↦ absurd (ground (arith, bad))
          | inr fine ↦ rw fine (
            omega arith,
            omega arith,
            omega arith,
            omega arith,
            λ s low high. found.0 s low tt,
            λ s low high. absurd (omega arith),
          )
        ]
    run_at-FreeRun c (some v) l found =
        elim (Bool-cases
          (leb (min v pfs_disk_sectors) c || min (min v pfs_disk_sectors - c) max_len == 0)) [
            | inl bad ↦ absurd (ground (arith, bad, found.2 tt))
            | inr fine ↦ rw fine (
              omega arith,
              omega (arith, found.2 tt),
              omega arith,
              omega (arith, found.2 tt),
              λ s low high. found.0 s low (omega (arith, found.2 tt)),
              λ s low high. absurd (omega arith),
            )
          ]

    -- A search that goes on from the end of an obstacle.
    past :
        (c c' : ℕ) (r : Option (ℕ × ℕ))
        → c < c'
        → ((s : ℕ) → c ≤ s → s < c' → TakenByOther h skip s)
        → FreeRun h skip c' max_len r
        → FreeRun h skip c max_len r
    past c c' none l taken found = λ s low high. elim (dec_lt s c') [
      | yes before ↦ taken s low before
      | no after ↦ found s (omega arith) high
    ]
    past c c' (some (run_start, run_len)) l taken found = (
      omega (arith, found.0),
      found.1,
      found.2,
      found.3,
      found.4,
      λ s low high. elim (dec_lt s c') [
        | yes before ↦ taken s low before
        | no after ↦ found.5 s (omega arith) high
      ],
    )

    free_run_from-FreeRun :
        (fuel c : ℕ)
        → pfs_disk_sectors < fuel + c
        → FreeRun h skip c max_len (free_run_from h skip max_len fuel c)
    unfolding free_run_from
    free_run_from-FreeRun zero c enough = λ s low high. absurd (omega arith)
    free_run_from-FreeRun (suc fuel) c enough =
        pass (λ c' l. free_run_from-FreeRun fuel c' (omega arith)) (leb pfs_disk_sectors c) refl
      where
        scanned :
            c < pfs_disk_sectors
            → ((c' : ℕ) → c < c' → FreeRun h skip c' max_len (free_run_from h skip max_len fuel c'))
            → (r : Scan) → Scanned c (TakenByOther h skip) none r
            → FreeRun h skip c max_len (elim r [
              | blocked used_end ↦ free_run_from h skip max_len fuel used_end
              | clear next_obstacle ↦ run_at max_len c next_obstacle
            ])
        scanned l again (blocked used_end) found =
            past c used_end (free_run_from h skip max_len fuel used_end) found.0 found.1
              (again used_end found.0)
        scanned l again (clear o) found = run_at-FreeRun c o l found

        pass :
            ((c' : ℕ) → c < c' → FreeRun h skip c' max_len (free_run_from h skip max_len fuel c'))
            → (b : Bool) → leb pfs_disk_sectors c ≡ b
            → FreeRun h skip c max_len (elim b [
              | true ↦ none
              | false ↦ elim (scan_entries h skip pfs_entry_count 0 c none) [
                | blocked used_end ↦ free_run_from h skip max_len fuel used_end
                | clear next_obstacle ↦ run_at max_len c next_obstacle
              ]
            ])
        pass again true at_end = λ s low high. absurd (ground (arith, at_end))
        pass again false inside =
            scanned (ground (arith, inside)) again (scan_entries h skip pfs_entry_count 0 c none)
              (scan-Scanned h skip on_disk c)

-- Where the other files' extents end on the disk and a sector at least is asked for, the search
-- returns the first free sectors at or after `start_from`: no other file takes a sector of the run,
-- which lies on the disk and has between one and `max_len` sectors, and other files take all the
-- sectors before it. It finds none only if other files take all of them up to the end of the disk.
pub pfs_find_free_run-FreeRun :
    (h : Header) (start_from max_len : ℕ) (skip : Option ℕ)
    → AllOnDisk h skip
    → 0 < max_len
    → FreeRun h skip start_from max_len (pfs_find_free_run h start_from max_len skip)
unfolding pfs_find_free_run
pfs_find_free_run-FreeRun h start_from max_len skip on_disk positive =
    free_run_from-FreeRun h skip on_disk max_len positive (suc pfs_disk_sectors) start_from
      (omega arith)
