-- ===== src/Process/Mappings.antt =====
-- kernel/src/main.rs: the records of the pages that a process has mapped.
pub mod Records
use rymos.Prelude.{
  ℕ, Bool, true, false, ◌&&◌, not, none, some, ◌==◌, leb, if◌then◌else◌, update, first_from,
}
use rymos.Process.{Processes, process_count, process_mapping_max, empty_mapping}

unfoldable pub process_track_mapping : Processes → ℕ → ℕ → ℕ → Processes × Bool
process_track_mapping t index virt pages =
    if leb process_count index
    then (t, false)
    else elim (first_from process_mapping_max 0 (λ i. not ((t index).mappings i).used)) [
      | none ↦ (t, false)
      | some i ↦ (
        update t index (record (t index) {
          mappings =
              update (t index).mappings i (record { used = true; virt = virt; pages = pages });
        }),
        true,
      )
    ]

unfoldable pub process_untrack_mapping : Processes → ℕ → ℕ → ℕ → Processes × Bool
process_untrack_mapping t index virt pages =
    if leb process_count index
    then (t, false)
    else elim (first_from process_mapping_max 0
        (λ i. let m = (t index).mappings i in m.used && (m.virt == virt && m.pages == pages))) [
          | none ↦ (t, false)
          | some i ↦ (
            update t index
                (record (t index) { mappings = update (t index).mappings i empty_mapping }),
            true,
          )
        ]
