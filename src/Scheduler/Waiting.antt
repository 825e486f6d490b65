-- ===== src/Scheduler/Waiting.antt =====
-- kernel/src/main.rs: the rounds of `wait_for_pid_blocking`.
use rymos.Prelude.{ℕ, ◌<◌, ◌≡◌, ◌≢◌, true, false, none, some}
use rymos.Process.{
  Process, ProcessStatus, empty, is_dead, process_count, mark_waited, status_of, pid_target,
}
use rymos.Scheduler.{Kernel, with_slots, block_current_on}
use rymos.Scheduler.Calls.{Round, done, again}

-- The child `pid` has exited, and nobody has collected its status.
abbrev pub IsUnwaited : ℕ → Process → Type 0
IsUnwaited pid p = (p.pid ≡ pid) × (p.waited ≡ false) × (is_dead p.state ≡ true)

-- What a round of `wait_for_pid_blocking` for `pid` may do.
abbrev pub Waits : ℕ → Kernel → Kernel × Round ProcessStatus → Type 0
Waits pid k (k', done (some status)) =
    (i : ℕ) × (i < process_count)
    × IsUnwaited pid (k.slots i)
    × (status ≡ status_of (k.slots i))
    × (k' ≡ with_slots k (mark_waited k.slots i))
Waits pid k (k', done none) =
    (k' ≡ k) × ((i : ℕ) → i < process_count → (k.slots i).pid ≡ pid → (k.slots i).state ≡ empty)
Waits pid k (k', again) =
    (k' ≡ block_current_on (pid_target pid) k)
    × ((i : ℕ) → i < process_count → ¬ IsUnwaited pid (k.slots i))
    × ((i : ℕ) × (i < process_count) × ((k.slots i).pid ≡ pid) × ((k.slots i).state ≢ empty))
