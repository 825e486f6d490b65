-- ===== src/Process/Spawn.antt =====
-- kernel/src/main.rs: `process_spawn_with_argv`.
use rymos.Prelude.{
  ℕ, ◌+◌, ◌%◌, ◌^◌, ◌==◌, sym, subst, update_self, map, take, false, ◌<◌, ◌≡◌, refl, inl, inr, ◌≢◌,
  Option, none, some, List, arith, Option-cases,
}
use rymos.Process.{
  process_name_max, Process, loading, nothing, next_pid_after, process_args_max,
  process_argv_value_max, process_argv_count_max, ProcessTable, process_count, spawn_slot,
  spawned_process, process_spawn_with_argv,
}
use rymos.Process.Lookup.{IsReusable, spawn_slot-IsReusable, spawn_slot-none}

-- The process in its slot: not yet to be scheduled, without a stack, waiting for nothing, and with its
-- name and arguments cut to what the slot holds.
pub record IsSpawned (pid parent_pid : ℕ) (name args : List ℕ) (argv : List (List ℕ)) (p : Process)
    : Type 0 where
  pub has_pid : p.pid ≡ pid
  pub has_parent : p.parent_pid ≡ parent_pid
  pub loads : p.state ≡ loading
  pub unwaited : p.waited ≡ false
  pub no_stack : p.rsp ≡ 0
  pub no_pages : p.pml4_phys ≡ 0
  pub waits_for_nothing : p.waiting_for ≡ nothing
  pub has_name : p.name ≡ take process_name_max name
  pub has_args : p.args ≡ take process_args_max args
  pub has_argv : p.argv ≡ map (take process_argv_value_max) (take process_argv_count_max argv)

-- The counter of pids goes up, and past the largest `u32` back to 1.
abbrev pub Advanced : ℕ → ℕ → Type 0
Advanced pid pid' = (pid + 1 < 2 ^ 32 → pid' ≡ pid + 1) × (pid + 1 ≡ 2 ^ 32 → pid' ≡ 1)

next_pid_after-Advanced : (pid : ℕ) → Advanced pid (next_pid_after pid)
unfolding next_pid_after
next_pid_after-Advanced pid = (
  (λ l.
      let small : (pid + 1) % 2 ^ 32 ≡ pid + 1 = omega (arith, l) in
      let more : (pid + 1 == 0) ≡ false = ground arith in rw (small, more) refl),
  λ e. let wraps : (pid + 1) % 2 ^ 32 ≡ 0 = omega (arith, e) in rw wraps refl,
)

module _ (t : ProcessTable) (name args : List ℕ) (argv : List (List ℕ)) (parent_pid : ℕ) where
  abbrev pub SpawnResult : ProcessTable × Option ℕ → Type 0
  SpawnResult (t', none) =
      ((i : ℕ) → i < process_count → ¬ IsReusable (t.slots i))
      × (t'.slots ≡ t.slots)
      × Advanced t.next_pid t'.next_pid
  SpawnResult (t', some k) =
      (k < process_count)
      × IsReusable (t.slots k)
      × (t'.slots k ≡ spawned_process t.next_pid parent_pid name args argv)
      × ((i : ℕ) → i ≢ k → t'.slots i ≡ t.slots i)
      × IsSpawned t.next_pid parent_pid name args argv (t'.slots k)
      × Advanced t.next_pid t'.next_pid

  -- `process_spawn_with_argv` fails only if every slot holds a process that has not been waited for.
  -- Else the new process takes a slot that is empty or whose process has been waited for, and no
  -- other slot changes: its pid is `NEXT_PID`, it has the caller's pid as its parent, is loading,
  -- unwaited, without a stack or pages, waits for nothing, and has the name and the arguments, cut to
  -- their limits. Either way `NEXT_PID` goes up by one, or from the largest `u32` to 1.
  pub process_spawn_with_argv-SpawnResult :
      SpawnResult (process_spawn_with_argv t name args argv parent_pid)
  unfolding process_spawn_with_argv
  process_spawn_with_argv-SpawnResult = elim (Option-cases (spawn_slot t.slots)) [
    | inl e ↦
        rw (e, process_spawn_with_argv)
          ((λ i l. spawn_slot-none t.slots i e l), refl, next_pid_after-Advanced t.next_pid)
    | inr (k, e) ↦
        rw (e, process_spawn_with_argv)
          (let slot = spawn_slot-IsReusable t.slots k e in
            (
              slot.0,
              slot.1,
              update_self t.slots k made,
              (λ i ne. ground arith),
              subst (IsSpawned t.next_pid parent_pid name args argv)
                  (sym (update_self t.slots k made))
                  (record {
                    has_pid = refl;
                    has_parent = refl;
                    loads = refl;
                    unwaited = refl;
                    no_stack = refl;
                    no_pages = refl;
                    waits_for_nothing = refl;
                    has_name = refl;
                    has_args = refl;
                    has_argv = refl;
                  }),
              next_pid_after-Advanced t.next_pid,
            ))
  ]
    where
      made : Process
      made = spawned_process t.next_pid parent_pid name args argv
