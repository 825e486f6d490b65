-- ===== src/Process.antt =====
-- kernel/src/main.rs: the process table, `Process`, and the functions that search and change it.
-- A fixed-size array with its length field is a list; `PROCESS_TABLE` is a table of 17 slots, of
-- which the last is the idle slot of the kernel's console.
pub mod Lookup
pub mod Mappings
pub mod Spawn
mod Tests
use rymos.Prelude.{
  ℕ, suc, ◌+◌, ◌%◌, ◌^◌, min, Bool, true, false, ◌&&◌, ◌||◌, not, Option, none, some, List, [], ◌∷◌,
  map, ◌==◌, ltb, leb, if◌then◌else◌, Table, update, first_from, take,
}
use rymos.Prelude.Int.{ℤ, pos, negsuc}

abbrev pub process_count : ℕ
process_count = 16

abbrev pub process_name_max : ℕ
process_name_max = 24

abbrev pub process_args_max : ℕ
process_args_max = 64

abbrev pub process_argv_count_max : ℕ
process_argv_count_max = 8

abbrev pub process_argv_value_max : ℕ
process_argv_value_max = 64

abbrev pub process_mapping_max : ℕ
process_mapping_max = 64

pub data ProcessState : Type 0 where
  empty ready running exited failed blocked loading : ProcessState

-- `state as u32`, the discriminants of the enum.
abbrev pub state_as_u32 : ProcessState → ℕ
state_as_u32 empty = 0
state_as_u32 ready = 1
state_as_u32 running = 2
state_as_u32 exited = 3
state_as_u32 failed = 4
state_as_u32 blocked = 5
state_as_u32 loading = 6

unfoldable pub process_state_from_u32 : ℕ → ProcessState
process_state_from_u32 state =
    if state == 1
    then ready
    else if state == 2
    then running
    else if state == 3
    then exited
    else if state == 4
    then failed
    else if state == 5
    then blocked
    else if state == 6
    then loading
    else empty

-- The derived `PartialEq` compares discriminants.
abbrev pub same_state : ProcessState → ProcessState → Bool
same_state a b = state_as_u32 a == state_as_u32 b

-- `matches!(state, ProcessState::Exited | ProcessState::Failed)`
abbrev pub is_dead : ProcessState → Bool
is_dead exited = true
is_dead failed = true
is_dead _ = false

-- `matches!(state, ProcessState::Ready | ProcessState::Running | ProcessState::Blocked)`
abbrev pub is_live : ProcessState → Bool
is_live ready = true
is_live running = true
is_live blocked = true
is_live _ = false

pub data WaitTarget : Type 0 where
  nothing : WaitTarget
  pid_target : ℕ → WaitTarget
  any_child : WaitTarget

pub record ProcessMapping : Type 0 where
  pub used : Bool
  pub virt : ℕ
  pub pages : ℕ

pub record EnvVar : Type 0 where
  pub used : Bool
  pub deleted : Bool
  pub key : List ℕ
  pub value : List ℕ

pub record StdFds : Type 0 where
  pub stdin : ℤ
  pub stdout : ℤ
  pub stderr : ℤ

pub record Process : Type 0 where
  pub pid : ℕ
  pub parent_pid : ℕ
  pub waited : Bool
  pub state : ProcessState
  pub exit_code : ℤ
  pub name : List ℕ
  pub args : List ℕ
  pub argv : List (List ℕ)
  pub heap_base : ℕ
  pub mappings : Table ProcessMapping
  pub pml4_phys : ℕ
  pub std_fds : StdFds
  pub cwd : List ℕ
  pub env : Table EnvVar
  pub last_error : ℕ
  pub heap_next : ℕ
  pub heap_limit : ℕ
  pub mmap_next : ℕ
  pub mmap_limit : ℕ
  pub rsp : ℕ
  pub entry_point : ℕ
  pub waiting_for : WaitTarget

abbrev pub empty_mapping : ProcessMapping
empty_mapping = record { used = false; virt = 0; pages = 0 }

abbrev pub empty_env_var : EnvVar
empty_env_var = record { used = false; deleted = false; key = []; value = [] }

abbrev pub default_std_fds : StdFds
default_std_fds = record { stdin = pos 0; stdout = pos 1; stderr = pos 2 }

-- `Process::empty()`
abbrev pub empty_process : Process
empty_process = record {
  pid = 0;
  parent_pid = 0;
  waited = false;
  state = empty;
  exit_code = pos 0;
  name = [];
  args = [];
  argv = [];
  heap_base = 0;
  mappings = λ _. empty_mapping;
  pml4_phys = 0;
  std_fds = default_std_fds;
  cwd = [];
  env = λ _. empty_env_var;
  last_error = 0;
  heap_next = 0;
  heap_limit = 0;
  mmap_next = 0;
  mmap_limit = 0;
  rsp = 0;
  entry_point = 0;
  waiting_for = nothing;
}

abbrev pub Processes : Type 0
Processes = Table Process

unfoldable pub process_find_slot : Processes → ProcessState → Option ℕ
process_find_slot t state = first_from process_count 0 (λ i. same_state (t i).state state)

-- A reaped `Exited` or `Failed` slot.
unfoldable pub process_find_reapable_slot : Processes → Option ℕ
process_find_reapable_slot t = first_from process_count 0 (λ i. (t i).waited && is_dead (t i).state)

unfoldable pub find_process_index_by_pid : Processes → ℕ → Option ℕ
find_process_index_by_pid t pid =
    first_from process_count 0 (λ i. (t i).pid == pid && not (same_state (t i).state empty))

unfoldable pub pick_next_ready : Processes → Option ℕ
pick_next_ready t = first_from process_count 0 (λ i. same_state (t i).state ready)

unfoldable pub has_live_child : Processes → ℕ → Bool
has_live_child t parent_pid =
    elim (first_from process_count 0 (λ i. (t i).parent_pid == parent_pid && is_live (t i).state)) [
      | none ↦ false
      | some _ ↦ true
    ]

-- `NEXT_PID.wrapping_add(1)`, skipping 0.
unfoldable pub next_pid_after : ℕ → ℕ
next_pid_after pid = let next = (pid + 1) % 2 ^ 32 in if next == 0 then 1 else next

-- The slot that `process_spawn_with_argv` takes: an empty one, else a reaped one.
abbrev or_else : Option ℕ → Option ℕ → Option ℕ
or_else none b = b
or_else (some a) b = some a

unfoldable pub spawn_slot : Processes → Option ℕ
spawn_slot t = or_else (process_find_slot t empty) (process_find_reapable_slot t)

abbrev pub spawned_process : ℕ → ℕ → List ℕ → List ℕ → List (List ℕ) → Process
spawned_process pid parent_pid name args argv = record empty_process {
  pid = pid;
  parent_pid = parent_pid;
  state = loading;
  name = take process_name_max name;
  args = take process_args_max args;
  argv = map (take process_argv_value_max) (take process_argv_count_max argv);
}

-- The process table and `NEXT_PID`.
pub record ProcessTable : Type 0 where
  pub slots : Processes
  pub next_pid : ℕ

unfoldable pub process_spawn_with_argv :
    ProcessTable → List ℕ → List ℕ → List (List ℕ) → ℕ → ProcessTable × Option ℕ
process_spawn_with_argv t name args argv parent_pid =
    let next = next_pid_after t.next_pid in
    elim (spawn_slot t.slots) [
      | none ↦ (record t { next_pid = next }, none)
      | some index ↦ (
        record {
          slots = update t.slots index (spawned_process t.next_pid parent_pid name args argv);
          next_pid = next;
        },
        some index,
      )
    ]

unfoldable pub process_set_state : Processes → ℕ → ProcessState → ℤ → Processes
process_set_state t index state exit_code =
    update t index (record (t index) { state = state; exit_code = exit_code })

unfoldable pub process_fail_unwaited : Processes → ℕ → Processes
unfolding process_set_state
process_fail_unwaited t index =
    let t' = process_set_state t index failed (negsuc 0) in
    update t' index (record (t' index) { waited = true })

-- `RymosProcessStatus`: the state as a `u32`, and the exit code.
abbrev pub ProcessStatus : Type 0
ProcessStatus = ℕ × ℤ

-- The tests of the two loops that collect an exit status.
unfoldable pub find_unwaited_by_pid : Processes → ℕ → Option ℕ
find_unwaited_by_pid t pid =
    first_from process_count 0 (λ i. (t i).pid == pid && (not (t i).waited && is_dead (t i).state))

unfoldable pub find_unwaited_child : Processes → ℕ → Option ℕ
find_unwaited_child t parent_pid =
    first_from process_count 0
      (λ i. (t i).parent_pid == parent_pid && (not (t i).waited && is_dead (t i).state))

abbrev pub mark_waited : Processes → ℕ → Processes
mark_waited t i = update t i (record (t i) { waited = true })

abbrev pub status_of : Process → ProcessStatus
status_of p = (state_as_u32 p.state, p.exit_code)

unfoldable pub process_wait_by_pid : Processes → ℕ → Processes × Option ProcessStatus
process_wait_by_pid t pid = elim (find_unwaited_by_pid t pid) [
  | none ↦ (t, none)
  | some i ↦ (mark_waited t i, some (status_of (t i)))
]

unfoldable pub process_wait_any_child : Processes → ℕ → Processes × Option (ℕ × ProcessStatus)
process_wait_any_child t parent_pid = elim (find_unwaited_child t parent_pid) [
  | none ↦ (t, none)
  | some i ↦ (mark_waited t i, some ((t i).pid, status_of (t i)))
]

abbrev pub wakes : ℕ → WaitTarget → Bool
wakes pid nothing = false
wakes pid (pid_target target) = target == pid
wakes pid any_child = true

abbrev pub wake : ℕ → Process → Process
wake pid p =
    if same_state p.state blocked && wakes pid p.waiting_for
    then record p { waiting_for = nothing; state = ready }
    else p

-- The loop visits each of the sixteen processes once, and each visit touches that process only.
unfoldable pub wake_waiters_for : Processes → ℕ → Processes
wake_waiters_for t pid i = if ltb i process_count then wake pid (t i) else t i

unfoldable pub block_on : Processes → ℕ → WaitTarget → Processes
block_on t index target =
    if ltb index process_count
    then update t index (record (t index) { waiting_for = target; state = blocked })
    else t
