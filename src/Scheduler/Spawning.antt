-- ===== src/Scheduler/Spawning.antt =====
-- kernel/src/main.rs: the creation of processes and the scheduler's invariant.
use rymos.Prelude.{
  ℕ, ◌≤◌, ◌<◌, ◌≡◌, ◌≢◌, Bool, true, false, Option, some, List, arith, Option-cases, Bool-cases,
  update, leb, inl, inr,
}
use rymos.Prelude.Int.{ℤ, negsuc}
use rymos.Process.{
  Process, Processes, nothing, running, loading, failed, process_count, process_set_state,
  process_fail_unwaited, process_spawn_with_argv, ProcessTable, spawn_slot,
}
use rymos.Scheduler.{
  Kernel, Preparation, with_slots, kernel_stack_top, initial_rsp, prepare_process,
  app_set_heap_window, prepared, preparation,
}
use rymos.Errors.{err_inval, err_noent, err_nospc, err_io, err_ok}
use rymos.Scheduler.Calls.{
  spawn_prepared, run_program_start, current_pid, inherit, start_child, start_program,
  set_app_error, clear_app_error,
}
use rymos.Scheduler.Soundness.{
  IsSettled, SettledSlots, OnlyRuns, IsSound, SettledSlots-update, OnlyRuns-update,
}

-- A new process's stack pointer is not null, for any pid.
pub initial_rsp-ne-zero : (pid : ℕ) → initial_rsp (kernel_stack_top pid) ≢ 0
initial_rsp-ne-zero pid = omega arith

abbrev pub SoundTable : ℕ → Processes → Type 0
SoundTable c t = SettledSlots t × OnlyRuns c t

pub SoundTable-update :
    (c j : ℕ) (t : Processes) (p : Process)
    → SoundTable c t
    → (j < process_count → IsSettled p × (p.state ≡ running → j ≡ c))
    → SoundTable c (update t j p)
SoundTable-update c j t p s one =
    (SettledSlots-update t j p s.0 (λ l. (one l).0), OnlyRuns-update t c j p s.1 (λ l. (one l).1))

-- A process that `prepare_process` may prepare.
abbrev pub IsNew : Process → Type 0
IsNew p = (p.state ≡ loading) × (p.waiting_for ≡ nothing)

process_set_state-failed :
    (c j : ℕ) (t : Processes) (code : ℤ)
    → SoundTable c t
    → IsNew (t j)
    → SoundTable c (process_set_state t j failed code)
unfolding process_set_state
process_set_state-failed c j t code s new = SoundTable-update c j t _ s λ _. ground arith

pub app_set_heap_window-IsNew :
    (j pid : ℕ) (t : Processes) → IsNew (t j) → IsNew (app_set_heap_window t j pid j)
unfolding app_set_heap_window
app_set_heap_window-IsNew j pid t new = ground arith

app_set_heap_window-SoundTable :
    (c j pid : ℕ) (t : Processes)
    → SoundTable c t
    → IsNew (t j)
    → SoundTable c (app_set_heap_window t j pid)
unfolding app_set_heap_window
app_set_heap_window-SoundTable c j pid t s new = elim (Bool-cases (leb j process_count)) [
  | inl inside ↦ rw inside (SoundTable-update c j t _ s (λ _. ground arith))
  | inr outside ↦ rw outside s
]

prepared-SoundTable :
    (c j pml4 entry pid : ℕ) (t : Processes)
    → SoundTable c t
    → IsNew (t j)
    → SoundTable c (prepared t j pml4 entry (kernel_stack_top pid))
unfolding process_set_state
prepared-SoundTable c j pml4 entry pid t s new =
    SoundTable-update c j _ _
      (SoundTable-update c j t _ s λ _. ground (arith, initial_rsp-ne-zero pid))
      λ _. ground (arith, initial_rsp-ne-zero pid)

prepare_process-SoundTable :
    (r : Preparation) (c j : ℕ) (t : Processes)
    → SoundTable c t
    → IsNew (t j)
    → SoundTable c (prepare_process r t j).0
unfolding prepare_process
prepare_process-SoundTable r c j t s new = elim (Option-cases (preparation r)) [
  | inl e ↦ rw (e, prepare_process) (process_set_state-failed c j t (negsuc 0) s new)
  | inr ((pml4, entry), e) ↦
      let window = app_set_heap_window-SoundTable c j (t j).pid t s new in
      rw (e, prepare_process)
        (prepared-SoundTable c j pml4 entry (t j).pid (app_set_heap_window t j (t j).pid) window
          (app_set_heap_window-IsNew j (t j).pid t new))
]

pub IsSound-of :
    (k : Kernel) → k.current_index ≤ process_count → SoundTable k.current_index k.slots → IsSound k
IsSound-of k l s = record { in_table = l; settled = s.0; only_runs = s.1 }

set_error-SoundTable :
    (c j error : ℕ) (t : Processes)
    → SoundTable c t
    → SoundTable c (update t j (record (t j) { last_error = error }))
set_error-SoundTable c j error t s = SoundTable-update c j t _ s λ l. (s.0 j l, s.1 j l)

set_app_error-IsSound : (error : ℕ) (k : Kernel) → IsSound k → IsSound (set_app_error error k).0
unfolding set_app_error
set_app_error-IsSound error k s =
    IsSound-of _ s.in_table
      (set_error-SoundTable k.current_index k.current_index error k.slots (s.settled, s.only_runs))

clear_app_error-IsSound : (k : Kernel) → IsSound k → IsSound (clear_app_error k)
unfolding clear_app_error
clear_app_error-IsSound k s =
    IsSound-of _ s.in_table
      (set_error-SoundTable k.current_index k.current_index err_ok k.slots (s.settled, s.only_runs))

-- What `process_spawn_with_argv` leaves in the slot that it returns.
process_spawn_with_argv-SoundTable :
    (c : ℕ) (t : ProcessTable) (name args : List ℕ) (argv : List (List ℕ)) (parent : ℕ)
    → SoundTable c t.slots
    → SoundTable c (process_spawn_with_argv t name args argv parent).0.slots
unfolding process_spawn_with_argv
process_spawn_with_argv-SoundTable c t name args argv parent s =
    elim (Option-cases (spawn_slot t.slots)) [
      | inl e ↦ rw (e, process_spawn_with_argv) s
      | inr (k, e) ↦
          rw (e, process_spawn_with_argv) (SoundTable-update c k t.slots _ s λ _. ground arith)
    ]

pub process_spawn_with_argv-IsNew :
    (t : ProcessTable) (name args : List ℕ) (argv : List (List ℕ)) (parent k : ℕ)
    → (process_spawn_with_argv t name args argv parent).1 ≡ some k
    → IsNew ((process_spawn_with_argv t name args argv parent).0.slots k)
unfolding process_spawn_with_argv
process_spawn_with_argv-IsNew t name args argv parent k h =
    elim (Option-cases (spawn_slot t.slots)) [ inl e ↦ ground arith | inr (j, e) ↦ ground arith ]

module _ (r : Preparation) (k : Kernel) (child : ℕ) (s : IsSound k)
    (new : IsNew (k.slots child)) where
  inherit-SoundTable : SoundTable k.current_index (inherit k.slots k.current_index child)
  inherit-SoundTable =
      SoundTable-update k.current_index child k.slots _ (s.settled, s.only_runs) λ _. ground arith

  inherit-IsNew : IsNew (inherit k.slots k.current_index child child)
  inherit-IsNew = ground arith

  start_child-IsSound : (console : Bool) → IsSound (start_child console r k child).0
  unfolding start_child
  start_child-IsSound false = set_app_error-IsSound err_inval _ (
      IsSound-of _ s.in_table (
        process_set_state-failed k.current_index child _ (negsuc 0) inherit-SoundTable
          inherit-IsNew))
  start_child-IsSound true =
      let ready_child : IsSound
          (with_slots k (prepare_process r (inherit k.slots k.current_index child) child).0) =
        IsSound-of _ s.in_table
          (prepare_process-SoundTable r k.current_index child _ inherit-SoundTable inherit-IsNew) in
      elim (Bool-cases (prepare_process r (inherit k.slots k.current_index child) child).1) [
        | inl e ↦ rw (e, start_child) (clear_app_error-IsSound _ ready_child)
        | inr e ↦ rw (e, start_child) (set_app_error-IsSound err_io _ ready_child)
      ]

  start_program-IsSound : (image : Bool) → IsSound (start_program image r k child).0
  unfolding start_program process_fail_unwaited
  start_program-IsSound false = IsSound-of _ s.in_table (
      SoundTable-update k.current_index child _ _ failed_table
        λ l. (failed_table.0 child l, failed_table.1 child l))
    where
      failed_table : SoundTable k.current_index (process_set_state k.slots child failed (negsuc 0))
      failed_table =
          process_set_state-failed k.current_index child k.slots (negsuc 0) (s.settled, s.only_runs)
            new
  start_program-IsSound true = IsSound-of _ s.in_table (
      prepare_process-SoundTable r k.current_index child _
        (SoundTable-update k.current_index child k.slots _ (s.settled, s.only_runs)
          λ _. ground arith)
        (ground arith))

-- Each call of the running task keeps the invariant, whatever it returns.
pub spawn_prepared-IsSound :
    (image console : Bool) (r : Preparation) (name args : List ℕ) (argv : List (List ℕ))
    (k : Kernel)
    → IsSound k
    → IsSound (spawn_prepared image console r name args argv k).0
unfolding spawn_prepared
spawn_prepared-IsSound image console r name args argv k s =
    elim (Bool-cases (leb process_count k.current_index)) [
      | inl idle ↦ rw idle (set_app_error-IsSound err_inval k s)
      | inr inside ↦ rw inside (elim (Bool-cases image) [
        | inr missing ↦ rw missing (set_app_error-IsSound err_noent k s)
        | inl found ↦
            rw (found, spawn_prepared)
              (elim (Option-cases spawn.1) [
                | inl e ↦ rw (e, spawn_prepared) (set_app_error-IsSound err_nospc k' spawned)
                | inr (child, e) ↦
                    rw (e, spawn_prepared)
                      (start_child-IsSound r k' child spawned
                        (process_spawn_with_argv-IsNew k.table name args argv (current_pid k) child
                          e)
                        console)
              ])
      ])
    ]
  where
    spawn : ProcessTable × Option ℕ
    spawn = process_spawn_with_argv k.table name args argv (current_pid k)

    k' : Kernel
    k' = record k { table = spawn.0 }

    spawned : IsSound k'
    spawned = IsSound-of k' s.in_table (
        process_spawn_with_argv-SoundTable k.current_index k.table name args argv (current_pid k)
          (s.settled, s.only_runs))

pub run_program_start-IsSound :
    (image : Bool) (r : Preparation) (name args : List ℕ) (argv : List (List ℕ)) (k : Kernel)
    → IsSound k
    → IsSound (run_program_start image r name args argv k).0
unfolding run_program_start
run_program_start-IsSound image r name args argv k s =
    let k' = record k {
      table = (process_spawn_with_argv k.table name args argv (current_pid k)).0;
    } in
    let spawned : IsSound k' = IsSound-of k' s.in_table (
      process_spawn_with_argv-SoundTable k.current_index k.table name args argv (current_pid k)
        (s.settled, s.only_runs)) in
    elim (Option-cases (process_spawn_with_argv k.table name args argv (current_pid k)).1) [
      | inl e ↦ rw (e, run_program_start) spawned
      | inr (child, e) ↦
          rw (e, run_program_start)
            (start_program-IsSound r k' child spawned
              (process_spawn_with_argv-IsNew k.table name args argv (current_pid k) child e) image)
    ]
