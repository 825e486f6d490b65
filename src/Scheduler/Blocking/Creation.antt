-- ===== src/Scheduler/Blocking/Creation.antt =====
-- kernel/src/main.rs: what the creation of processes does to a blocked process.
use rymos.Prelude.{
  ℕ, inl, inr, Bool, true, false, Option, List, arith, Option-cases, Bool-cases, update, leb,
}
use rymos.Process.{
  Process, Processes, ProcessTable, process_count, process_set_state, process_fail_unwaited,
  process_spawn_with_argv, spawn_slot,
}
use rymos.Process.Lookup.{spawn_slot-IsReusable}
use rymos.Scheduler.{
  Kernel, Preparation, with_slots, app_set_heap_window, preparation, prepare_process,
}
use rymos.Errors.{err_inval, err_noent, err_nospc, err_io}
use rymos.Scheduler.Calls.{
  set_app_error, clear_app_error, inherit, current_pid, start_child, spawn_prepared, start_program,
  run_program_start,
}
use rymos.Scheduler.Spawning.{IsNew, app_set_heap_window-IsNew, process_spawn_with_argv-IsNew}
use rymos.Scheduler.Blocking.Regions.{IsBlockedOn, update-IsBlockedOn, update_twice-IsBlockedOn}

-- The section's process `w` is blocked; each lemma says that a function of the kernel leaves it so.
module _ (pid w : ℕ) where
  pub set_app_error-IsBlockedOn :
      (error : ℕ) (k : Kernel)
      → IsBlockedOn pid (k.slots w)
      → IsBlockedOn pid ((set_app_error error k).0.slots w)
  unfolding set_app_error
  set_app_error-IsBlockedOn error k b =
      update-IsBlockedOn pid w k.slots k.current_index _ b (λ h. h)

  pub clear_app_error-IsBlockedOn :
      (k : Kernel) → IsBlockedOn pid (k.slots w) → IsBlockedOn pid ((clear_app_error k).slots w)
  unfolding clear_app_error
  clear_app_error-IsBlockedOn k b = update-IsBlockedOn pid w k.slots k.current_index _ b (λ h. h)

  -- What is done to a slot in state `Loading` is not done to `w`.
  pub update_new-IsBlockedOn :
      (t : Processes) (j : ℕ) (p : Process)
      → IsNew (t j)
      → IsBlockedOn pid (t w)
      → IsBlockedOn pid (update t j p w)
  update_new-IsBlockedOn t j p new b =
      let l = new.0 in update-IsBlockedOn pid w t j p b λ h. absurd (cc l)

  pub app_set_heap_window-IsBlockedOn :
      (t : Processes) (j p : ℕ)
      → IsNew (t j)
      → IsBlockedOn pid (t w)
      → IsBlockedOn pid (app_set_heap_window t j p w)
  unfolding app_set_heap_window
  app_set_heap_window-IsBlockedOn t j p new b = elim (Bool-cases (leb j process_count)) [
    | inl inside ↦ rw inside (update_new-IsBlockedOn t j _ new b)
    | inr outside ↦ rw outside b
  ]

  pub prepare_process-IsBlockedOn :
      (r : Preparation) (t : Processes) (j : ℕ)
      → IsNew (t j)
      → IsBlockedOn pid (t w)
      → IsBlockedOn pid ((prepare_process r t j).0 w)
  unfolding prepare_process process_set_state
  prepare_process-IsBlockedOn r t j new b = elim (Option-cases (preparation r)) [
    | inl e ↦ rw (e, prepare_process) (update_new-IsBlockedOn t j _ new b)
    | inr ((pml4, entry), e) ↦
        let window : Processes = app_set_heap_window t j (t j).pid in
        let new' : IsNew (window j) = app_set_heap_window-IsNew j (t j).pid t new in
        rw (e, prepare_process)
          (update_twice-IsBlockedOn pid w window j _ _ (λ h. let l = new'.0 in cc l)
            (app_set_heap_window-IsBlockedOn t j (t j).pid new b))
  ]

  pub inherit-IsBlockedOn :
      (t : Processes) (parent child : ℕ)
      → IsNew (t child)
      → IsBlockedOn pid (t w)
      → IsBlockedOn pid (inherit t parent child w)
  inherit-IsBlockedOn t parent child new b = update_new-IsBlockedOn t child _ new b

  pub start_child-IsBlockedOn :
      (console : Bool) (r : Preparation) (k : Kernel) (child : ℕ)
      → IsNew (k.slots child)
      → IsBlockedOn pid (k.slots w)
      → IsBlockedOn pid ((start_child console r k child).0.slots w)
  unfolding start_child process_set_state
  start_child-IsBlockedOn false r k child new b = set_app_error-IsBlockedOn err_inval _ (
      update_new-IsBlockedOn (inherit k.slots k.current_index child) child _ (ground arith)
        (inherit-IsBlockedOn k.slots k.current_index child new b))
  start_child-IsBlockedOn true r k child new b =
      let t : Processes = inherit k.slots k.current_index child in
      let kept : IsBlockedOn pid ((prepare_process r t child).0 w) =
        prepare_process-IsBlockedOn r t child (ground arith)
          (inherit-IsBlockedOn k.slots k.current_index child new b) in
      elim (Bool-cases (prepare_process r t child).1) [
        | inl e ↦
            rw (e, start_child)
              (clear_app_error-IsBlockedOn (with_slots k (prepare_process r t child).0) kept)
        | inr e ↦
            rw (e, start_child)
              (set_app_error-IsBlockedOn err_io (with_slots k (prepare_process r t child).0) kept)
      ]

  pub start_program-IsBlockedOn :
      (image : Bool) (r : Preparation) (k : Kernel) (child : ℕ)
      → IsNew (k.slots child)
      → IsBlockedOn pid (k.slots w)
      → IsBlockedOn pid ((start_program image r k child).0.slots w)
  unfolding start_program process_fail_unwaited process_set_state
  start_program-IsBlockedOn false r k child new b =
      update_twice-IsBlockedOn pid w k.slots child _ _ (λ h. let l = new.0 in cc l) b
  start_program-IsBlockedOn true r k child new b =
      prepare_process-IsBlockedOn r _ child (ground arith)
        (update_new-IsBlockedOn k.slots child _ new b)

  pub process_spawn_with_argv-IsBlockedOn :
      (t : ProcessTable) (name args : List ℕ) (argv : List (List ℕ)) (parent : ℕ)
      → IsBlockedOn pid (t.slots w)
      → IsBlockedOn pid ((process_spawn_with_argv t name args argv parent).0.slots w)
  unfolding process_spawn_with_argv
  process_spawn_with_argv-IsBlockedOn t name args argv parent b =
      elim (Option-cases (spawn_slot t.slots)) [
        | inl e ↦ rw (e, process_spawn_with_argv) b
        | inr (k, e) ↦
            let free = (spawn_slot-IsReusable t.slots k e).1 in
            rw (e, process_spawn_with_argv)
              (update-IsBlockedOn pid w t.slots k _ b λ h. absurd (ground (arith, free, h)))
      ]

  pub run_program_start-IsBlockedOn :
      (image : Bool) (r : Preparation) (name args : List ℕ) (argv : List (List ℕ)) (k : Kernel)
      → IsBlockedOn pid (k.slots w)
      → IsBlockedOn pid ((run_program_start image r name args argv k).0.slots w)
  unfolding run_program_start
  run_program_start-IsBlockedOn image r name args argv k b = elim (Option-cases spawn.1) [
    | inl e ↦ rw (e, run_program_start) kept
    | inr (child, e) ↦
        rw (e, run_program_start)
          (start_program-IsBlockedOn image r (record k { table = spawn.0 }) child
            (process_spawn_with_argv-IsNew k.table name args argv (current_pid k) child e) kept)
  ]
    where
      spawn : ProcessTable × Option ℕ
      spawn = process_spawn_with_argv k.table name args argv (current_pid k)

      kept : IsBlockedOn pid (spawn.0.slots w)
      kept = process_spawn_with_argv-IsBlockedOn k.table name args argv (current_pid k) b

  pub spawn_prepared-IsBlockedOn :
      (image console : Bool) (r : Preparation) (name args : List ℕ) (argv : List (List ℕ))
      (k : Kernel)
      → IsBlockedOn pid (k.slots w)
      → IsBlockedOn pid ((spawn_prepared image console r name args argv k).0.slots w)
  unfolding spawn_prepared
  spawn_prepared-IsBlockedOn image console r name args argv k b =
      elim (Bool-cases (leb process_count k.current_index)) [
        | inl idle ↦ rw idle (set_app_error-IsBlockedOn err_inval k b)
        | inr inside ↦ rw inside (elim (Bool-cases image) [
          | inr missing ↦ rw missing (set_app_error-IsBlockedOn err_noent k b)
          | inl found ↦
              rw (found, spawn_prepared)
                (elim (Option-cases spawn.1) [
                  | inl e ↦ rw (e, spawn_prepared) (set_app_error-IsBlockedOn err_nospc k' kept)
                  | inr (child, e) ↦
                      rw (e, spawn_prepared)
                        (start_child-IsBlockedOn console r k' child
                          (process_spawn_with_argv-IsNew k.table name args argv (current_pid k)
                            child e)
                          kept)
                ])
        ])
      ]
    where
      spawn : ProcessTable × Option ℕ
      spawn = process_spawn_with_argv k.table name args argv (current_pid k)

      k' : Kernel
      k' = record k { table = spawn.0 }

      kept : IsBlockedOn pid (spawn.0.slots w)
      kept = process_spawn_with_argv-IsBlockedOn k.table name args argv (current_pid k) b
