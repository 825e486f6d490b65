-- ===== src/Process/Tests.antt =====
-- The theorems on the process table at concrete tables.
use rymos.Prelude.{◌+◌, ◌==◌, if◌then◌else◌, [], ◌∷◌, true}
use rymos.Process.{
  Processes, empty_process, ready, exited, blocked, pick_next_ready, process_spawn_with_argv,
}
use rymos.Process.Lookup.{PicksReady, pick_next_ready-PicksReady}
use rymos.Process.Mappings.{process_track_mapping}
use rymos.Process.Mappings.Records.{Tracked, process_track_mapping-Tracked}
use rymos.Process.Spawn.{SpawnResult, process_spawn_with_argv-SpawnResult}

-- Sixteen processes, of which the third is ready and the fourth has been waited for.
abbrev full_table : Processes
full_table i =
    if i == 2
    then record empty_process { pid = 3; state = ready }
    else if i == 3
    then record empty_process { pid = 4; state = exited; waited = true }
    else record empty_process { pid = i + 1; state = blocked }

pick_next_ready-PicksReady_example : PicksReady full_table (pick_next_ready full_table)
pick_next_ready-PicksReady_example = pick_next_ready-PicksReady full_table

process_spawn_with_argv-SpawnResult_example :
    SpawnResult
      (record { slots = full_table; next_pid = 17 })
      (b'a' ∷ [])
      (b'x' ∷ [])
      ((b'x' ∷ []) ∷ [])
      3
      (process_spawn_with_argv
        (record { slots = full_table; next_pid = 17 })
        (b'a' ∷ [])
        (b'x' ∷ [])
        ((b'x' ∷ []) ∷ [])
        3)
process_spawn_with_argv-SpawnResult_example =
    process_spawn_with_argv-SpawnResult (record { slots = full_table; next_pid = 17 }) (b'a' ∷ [])
      (b'x' ∷ []) ((b'x' ∷ []) ∷ []) 3

process_track_mapping-Tracked_example :
    Tracked full_table 2 8192 3 (process_track_mapping full_table 2 8192 3)
process_track_mapping-Tracked_example = process_track_mapping-Tracked full_table 2 8192 3
