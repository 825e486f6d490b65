-- ===== src/Scheduler/Interleaving/Uninterrupted.antt =====
-- kernel/src/main.rs: `prepare_process` as a whole and as its writes, one after the other.
use rymos.Prelude.{◌+◌, ◌%◌, ◌^◌, if◌then◌else◌, ◌==◌, ℕ, List, [], ◌∷◌}
use rymos.Process.{Process, ready, Processes}
use rymos.Scheduler.{
  window_base, user_heap_base, user_heap_stride, user_mmap_base, user_mmap_stride, user_mmap_size,
  initial_rsp, kernel_stack_top,
}
use rymos.Prelude.Int.{pos}
use rymos.Scheduler.Interleaving.{
  Write, write_slot, Finish, finish_slot, Late, late_slot, late_writes,
}

abbrev pub run_writes : ℕ → List Write → Processes → ℕ → Processes
run_writes parent [] t c = t
run_writes parent (x ∷ xs) t c = run_writes parent xs (write_slot parent x t c) c

abbrev pub run_late : List Late → Processes → ℕ → Processes
run_late [] t c = t
run_late (x ∷ xs) t c = run_late xs (late_slot x t c) c

-- A creation that nothing interrupts.
abbrev pub created : ℕ → List Write × Finish → Processes → ℕ → Processes
created parent (xs, f) t c = run_late (late_writes f) (finish_slot f (run_writes parent xs t c) c) c

-- The process with the windows of its pid.
abbrev windowed : ℕ → Process → Process
windowed pid p =
    let base = window_base user_heap_base user_heap_stride pid in
    let mmap_base = window_base user_mmap_base user_mmap_stride pid in
    record p {
      heap_base = base;
      heap_limit = (base + user_heap_stride) % 2 ^ 64;
      mmap_limit = (mmap_base + user_mmap_size) % 2 ^ 64;
      heap_next = if p.heap_base == 0 then base else p.heap_next;
      mmap_next = if p.heap_base == 0 then mmap_base else p.mmap_next;
    }

-- The process that `prepare_process` leaves where it succeeds.
abbrev made : ℕ → ℕ → ℕ → Process → Process
made pid pml4 entry p = record (windowed pid p) {
  pml4_phys = pml4;
  entry_point = entry;
  rsp = initial_rsp (kernel_stack_top pid);
  state = ready;
  exit_code = pos 0;
}
