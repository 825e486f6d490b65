-- ===== src/Scheduler/Calls.antt =====
-- kernel/src/main.rs: the calls that create processes and wait for them, `spawn_prepared`,
-- `run_program` and the rounds of `wait_for_pid_blocking` and `wait_for_any_child_blocking`.
use rymos.Prelude.{
  ℕ, Bool, true, false, Option, none, some, List, [], ◌∷◌, leb, if◌then◌else◌, update, not,
}
use rymos.Prelude.Int.{ℤ, negsuc, as_i32}
use rymos.Errors.{err_ok, err_inval, err_noent, err_nospc, err_io}
use rymos.Process.{
  Processes, ProcessStatus, pid_target, any_child, failed, process_count, default_std_fds,
  process_set_state, process_fail_unwaited, process_spawn_with_argv, process_wait_by_pid,
  process_wait_any_child, find_process_index_by_pid, has_live_child,
}
use rymos.Scheduler.{
  Kernel, Preparation, with_slots, current_process, block_current_on, prepare_process,
}

unfoldable pub set_app_error : ℕ → Kernel → Kernel × ℤ
set_app_error error k = (
  with_slots k (update k.slots k.current_index (record (current_process k) { last_error = error })),
  negsuc 0,
)

unfoldable pub clear_app_error : Kernel → Kernel
clear_app_error k =
    with_slots k
      (update k.slots k.current_index (record (current_process k) { last_error = err_ok }))

-- `current_pid`: 0 for the console.
unfoldable pub current_pid : Kernel → ℕ
current_pid k = if leb process_count k.current_index then 0 else (current_process k).pid

-- The child takes over the parent's redirections, directory and environment as they are now.
abbrev pub inherit : Processes → ℕ → ℕ → Processes
inherit t parent child =
    update t child (record (t child) {
      std_fds = (t parent).std_fds;
      cwd = (t parent).cwd;
      env = (t parent).env;
    })

-- The rest of `spawn_prepared` once the child has its slot. `console` says whether the kernel's
-- console is registered.
unfoldable pub start_child : Bool → Preparation → Kernel → ℕ → Kernel × ℤ
start_child false r k child =
    let t = inherit k.slots k.current_index child in
    set_app_error err_inval (with_slots k (process_set_state t child failed (negsuc 0)))
start_child true r k child =
    let (t, prepared) = prepare_process r (inherit k.slots k.current_index child) child in
    elim prepared [
      | false ↦ set_app_error err_io (with_slots k t)
      | true ↦ (clear_app_error (with_slots k t), as_i32 (t child).pid)
    ]

-- `image` says whether BootFS holds the program. The arguments are those that `process_spawn` or
-- the caller has split into `argv`.
unfoldable pub spawn_prepared :
    Bool → Bool → Preparation → List ℕ → List ℕ → List (List ℕ) → Kernel → Kernel × ℤ
spawn_prepared image console r name args argv k =
    if leb process_count k.current_index
    then set_app_error err_inval k
    else if not image
    then set_app_error err_noent k
    else let (table, slot) = process_spawn_with_argv k.table name args argv (current_pid k) in
      let k' = record k { table = table } in
      elim slot [ none ↦ set_app_error err_nospc k' | some child ↦ start_child console r k' child ]

-- One round of a blocking wait: a result, or the process has blocked itself and yields next.
pub data Round {ℓ} (A : Type ℓ) : Type ℓ where
  done : Option A → Round A
  again : Round A

unfoldable pub pid_round :
    ℕ → Kernel → Processes × Option ProcessStatus → Kernel × Round ProcessStatus
pid_round pid k (t, some status) = (with_slots k t, done (some status))
pid_round pid k (t, none) = elim (find_process_index_by_pid k.slots pid) [
  | none ↦ (k, done none)
  | some _ ↦ (block_current_on (pid_target pid) k, again)
]

unfoldable pub wait_for_pid_round : ℕ → Kernel → Kernel × Round ProcessStatus
unfolding pid_round
wait_for_pid_round pid k = pid_round pid k (process_wait_by_pid k.slots pid)

unfoldable pub any_child_round :
    ℕ → Kernel → Processes × Option (ℕ × ProcessStatus) → Kernel × Round (ℕ × ProcessStatus)
any_child_round parent_pid k (t, some result) = (with_slots k t, done (some result))
any_child_round parent_pid k (t, none) =
    if has_live_child k.slots parent_pid
    then (block_current_on any_child k, again)
    else (k, done none)

unfoldable pub wait_for_any_child_round : ℕ → Kernel → Kernel × Round (ℕ × ProcessStatus)
unfolding any_child_round
wait_for_any_child_round parent_pid k =
    any_child_round parent_pid k (process_wait_any_child k.slots parent_pid)

-- The rest of `run_program` up to its wait, once the program has its slot: the pid to wait for, if
-- the program could be loaded and prepared.
unfoldable pub start_program : Bool → Preparation → Kernel → ℕ → Kernel × Option ℕ
start_program false r k index = (with_slots k (process_fail_unwaited k.slots index), none)
start_program true r k index =
    let t = update k.slots index (record (k.slots index) {
      std_fds = default_std_fds;
      cwd = 0x2F ∷ [];
      last_error = err_ok;
    }) in
    let (t', prepared) = prepare_process r t index in
    (with_slots k t', if prepared then some (t' index).pid else none)

-- `run_program` up to its wait. The open descriptors, which `app_close_all_fds` closes, are not
-- part of this state.
unfoldable pub run_program_start :
    Bool → Preparation → List ℕ → List ℕ → List (List ℕ) → Kernel → Kernel × Option ℕ
run_program_start image r name args argv k =
    let (table, slot) = process_spawn_with_argv k.table name args argv (current_pid k) in
    let k' = record k { table = table } in
    elim slot [ none ↦ (k', none) | some index ↦ start_program image r k' index ]

-- The end of `run_program`, after the wait.
unfoldable pub run_program_finish : ℕ → Kernel → Kernel
run_program_finish index k =
    with_slots k (update k.slots index (record (k.slots index) { waited = true }))
