-- ===== src/Scheduler/Interleaving/Sound.antt =====
-- kernel/src/main.rs: what holds whenever the timer interrupts the kernel's calls.
use rymos.Prelude.{
  ℕ, ◌≤◌, ◌<◌, ◌≡◌, ◌≢◌, refl, sym, ap, ◌∙◌, subst, false, List, [], ◌∷◌, arith, update,
  update_self, update_other,
}
use native.Mathlib.Decide.{ℕ_discrete}
use rymos.Prelude.Int.{ℤ}
use rymos.Process.{
  Process, Processes, WaitTarget, blocked, loading, exited, is_live, process_count,
  process_set_state, wake_waiters_for,
}
use rymos.Scheduler.{
  Kernel, with_slots, mark_exit, maybe_preempt, run_scheduler_step, reclaim_pending_stacks,
}
use rymos.Scheduler.Calls.{set_app_error}
use rymos.Scheduler.Soundness.{OnlyRuns-update, NoneRuns, HasYielded, wake_waiters_for-OnlyRuns}
use rymos.Scheduler.Steps.{IsActive}
use rymos.Scheduler.Interleaving.{
  Write, Finish, Late, sets_exit_code, marks_waited, late_slot, Leave, drops_mappings, loads_cr3,
  forgets_pml4, queues_stack, leave, leaves, Phase, outside, preparing, closing, blocking, leaving,
  World, into, act, phase, target, Step, ticks, yields, claims, acts, targets, returns, marks,
  errors, reclaims, Reach, boot, next,
}
use rymos.Scheduler.Interleaving.Tables.{
  IsFine, Fine, Keeps, Loading-update, Loading-trans, IsGood, Handed, run_scheduler_step-Handed,
  maybe_preempt-Handed, wake_waiters_for-Fine, wake_waiters_for-Loading, wake_waiters_for-loading,
}
use rymos.Scheduler.Interleaving.Safety.{
  is_blocking, about, IsSafe, good-IsSafe, into-before, advanced-IsSafe, kept-IsGood,
}
use rymos.Scheduler.Interleaving.Creation.{write-IsSafe, finish-IsSafe}
use rymos.Scheduler.Interleaving.Claims.{claim-IsSafe}

-- A change of one process that keeps the fields of the invariant.
update-Keeps :
    (t : Processes) (j : ℕ) (p : Process) → Keeps (t j) p → (i : ℕ) → Keeps (t i) (update t j p i)
update-Keeps t j p kept i = elim (ℕ_discrete j i) [
  | yes same ↦
      subst (λ i. Keeps (t i) (update t j p i)) same
        (subst (Keeps (t j)) (sym (update_self t j p)) kept)
  | no ne ↦ subst (Keeps (t i)) (sym (at_other ne)) (refl, refl, refl)
]
  where
    at_other : j ≢ i → update t j p i ≡ t i
    at_other ne = ground arith

late_slot-Keeps : (x : Late) (t : Processes) (c i : ℕ) → Keeps (t i) (late_slot x t c i)
late_slot-Keeps (sets_exit_code code) t c i = update-Keeps t c _ (refl, refl, refl) i
late_slot-Keeps marks_waited t c i = update-Keeps t c _ (refl, refl, refl) i

-- What a write of a task that ends leaves.
leave-kept :
    (x : Leave) (k : Kernel)
    → ((leave x k).current_index ≡ k.current_index)
      × ((i : ℕ) → Keeps (k.slots i) ((leave x k).slots i))
unfolding leave
leave-kept drops_mappings k = (refl, update-Keeps k.slots k.current_index _ (refl, refl, refl))
leave-kept (loads_cr3 pml4) k = (refl, λ i. (refl, refl, refl))
leave-kept forgets_pml4 k = (refl, update-Keeps k.slots k.current_index _ (refl, refl, refl))
leave-kept queues_stack k = (refl, λ i. (refl, refl, refl))

module _ (w : World) (safe : IsSafe w) where
  abbrev cur : ℕ
  cur = (w.kernel).current_index

  abbrev t : Processes
  t = (w.kernel).slots

  -- Other tables, and no change of a phase.
  Handed-IsSafe : (k : Kernel) → Handed (about w) w.kernel k → IsSafe (record w { kernel = k })
  Handed-IsSafe k (n, good) = good-IsSafe w (record w { kernel = k }) safe n good (λ i c xs f e. e)

  kept-IsSafe :
      (k : Kernel)
      → k.current_index ≡ cur
      → ((i : ℕ) → Keeps (t i) (k.slots i))
      → IsSafe (record w { kernel = k })
  kept-IsSafe k same kept = Handed-IsSafe k (
    subst (λ c. c ≤ process_count) (sym same) safe.in_table,
    subst (λ c. IsGood (about w) t c k.slots) (sym same) (kept-IsGood w k.slots safe kept),
  )

  -- The current task gets other fields, and goes on from another phase.
  module _ (k : Kernel) (new : Phase) (p : Process)
      (fine : cur < process_count → IsFine (is_blocking new) p)
      (started : cur < process_count → p.state ≢ loading) where
    put-Fine : Fine (about (into w k new)) (update t cur p)
    put-Fine i l = elim (ℕ_discrete cur i) [
      | yes same ↦
          subst (λ i. IsFine (about (into w k new) i) (update t cur p i)) same
            (subst (λ ph. IsFine (is_blocking ph) (update t cur p cur))
              (sym (update_self w.phases cur new))
              (subst (IsFine (is_blocking new)) (sym (update_self t cur p))
                (fine (omega (arith, same, l)))))
      | no ne ↦
          subst (λ ph. IsFine (is_blocking ph) (update t cur p i))
            (sym (update_other w.phases cur i new ne))
            (subst (IsFine (about w i)) (sym (update_other t cur i p ne)) (safe.fine i l))
    ]

    put-IsGood : IsGood (about (into w k new)) t cur (update t cur p)
    put-IsGood = record {
      fine = put-Fine;
      only_runs = OnlyRuns-update t cur cur p safe.only_runs (λ l r. refl);
      not_loading = λ l loads. started l (sym (ap (λ q. q.state) (update_self t cur p)) ∙ loads);
      keeps = Loading-update t cur p λ l loads. absurd (safe.not_loading l loads);
    }

  target-IsSafe :
      (tg : WaitTarget) → phase w ≡ outside → IsSafe (into w (target tg w.kernel) blocking)
  unfolding target
  target-IsSafe tg at =
      let p = record (t cur) { waiting_for = tg } in
      let k = with_slots w.kernel (update t cur p) in
      good-IsSafe w (into w k blocking) safe safe.in_table
        (put-IsGood k blocking p (λ l. ((safe.fine cur l).0, λ _ e. absurd (cc e)))
          safe.not_loading)
        (into-before w k blocking λ c xs f e. cc e)

  -- A task blocks itself while it runs.
  block-IsSafe :
      IsActive w.kernel
      → IsSafe
          (into w (with_slots w.kernel (update t cur (record (t cur) { state = blocked }))) outside)
  block-IsSafe active =
      let p = record (t cur) { state = blocked } in
      let k = with_slots w.kernel (update t cur p) in
      good-IsSafe w (into w k outside) safe safe.in_table
        (put-IsGood k outside p
          (λ l. ((λ _. (safe.fine cur l).0 (ap is_live (active l))), λ ne. absurd (ne refl)))
          (λ l e. cc e))
        (into-before w k outside λ c xs f e. cc e)

  -- The task exits, and wakes those that wait for it.
  exit-IsSafe :
      (xs : List Leave) (code : ℤ)
      → IsActive w.kernel
      → phase w ≡ leaving xs code
      → IsSafe (into w (mark_exit cur code w.kernel) outside)
  unfolding mark_exit process_set_state
  exit-IsSafe xs code active at =
      let p = record (t cur) { state = exited; exit_code = code } in
      let k = with_slots w.kernel (wake_waiters_for (update t cur p) (t cur).pid) in
      let put =
        put-IsGood k outside p
          (λ l. (
            (λ live. absurd (cc live)),
            λ _ quiet. (safe.fine cur l).1 (λ e. absurd (cc (e, active l))) (ap is_blocking at),
          ))
          (λ l e. cc e) in
      good-IsSafe w (into w k outside) safe safe.in_table
        (record {
          fine =
              wake_waiters_for-Fine (about (into w k outside)) (update t cur p) (t cur).pid
                put.fine;
          only_runs = wake_waiters_for-OnlyRuns (update t cur p) (t cur).pid cur put.only_runs;
          not_loading =
              λ l. wake_waiters_for-loading (update t cur p) (t cur).pid cur (put.not_loading l);
          keeps =
              Loading-trans t (update t cur p) (wake_waiters_for (update t cur p) (t cur).pid)
                put.keeps (wake_waiters_for-Loading (update t cur p) (t cur).pid);
        })
        (into-before w k outside λ c xs f e. cc e)

  -- A task goes on to a phase in which it neither blocks nor creates a process.
  on-IsSafe :
      (k : Kernel) (old new : Phase)
      → phase w ≡ old
      → is_blocking old ≡ false
      → is_blocking new ≡ false
      → ((c : ℕ) (xs : List Write) (f : Finish) → new ≢ preparing c xs f)
      → k.current_index ≡ cur
      → ((i : ℕ) → Keeps (t i) (k.slots i))
      → IsSafe (into w k new)
  on-IsSafe k old new at quiet quiet' other same kept =
      advanced-IsSafe w k new safe (ap is_blocking at ∙ quiet) quiet' other same
        (kept-IsGood w k.slots safe kept)

  act-IsSafe : (ph : Phase) → phase w ≡ ph → IsActive w.kernel → IsSafe (act w ph)
  unfolding act
  act-IsSafe outside at active = safe
  act-IsSafe (preparing c (x ∷ xs) f) at active = write-IsSafe w c x xs f safe active at
  act-IsSafe (preparing c [] f) at active = finish-IsSafe w c f safe active at
  act-IsSafe (closing c (x ∷ xs)) at active =
      on-IsSafe (with_slots w.kernel (late_slot x t c)) (closing c (x ∷ xs)) (closing c xs) at refl
        refl (λ d ys g e. cc e) refl (late_slot-Keeps x t c)
  act-IsSafe (closing c []) at active =
      on-IsSafe w.kernel (closing c []) outside at refl refl (λ d ys g e. cc e) refl
        (λ i. (refl, refl, refl))
  act-IsSafe blocking at active = block-IsSafe active
  act-IsSafe (leaving (x ∷ xs) code) at active =
      let kept = leave-kept x w.kernel in
      on-IsSafe (leave x w.kernel) (leaving (x ∷ xs) code) (leaving xs code) at refl refl
        (λ d ys g e. cc e) kept.0 kept.1
  act-IsSafe (leaving [] code) at active = exit-IsSafe [] code active at

yielded-NoneRuns : (w : World) → IsSafe w → HasYielded w.kernel → NoneRuns (w.kernel).slots
yielded-NoneRuns w safe yielded i l r =
    let at : i ≡ (w.kernel).current_index = safe.only_runs i l r in
    yielded (subst (λ i. i < process_count) at l)
      (sym (ap (λ i. ((w.kernel).slots i).state) at) ∙ r)

Step-IsSafe : {w w' : World} → Step w w' → IsSafe w → IsSafe w'
unfolding set_app_error reclaim_pending_stacks
Step-IsSafe {w} (ticks rsp pml4 stack) safe =
    Handed-IsSafe w safe (maybe_preempt rsp pml4 w.kernel) (
      maybe_preempt-Handed (about w) rsp pml4 w.kernel stack safe.in_table safe.fine safe.only_runs
        safe.not_loading)
Step-IsSafe {w} (yields rsp pml4 stack yielded) safe =
    Handed-IsSafe w safe (run_scheduler_step rsp pml4 w.kernel) (
      run_scheduler_step-Handed (about w) rsp pml4 w.kernel stack safe.fine
        (yielded-NoneRuns w safe yielded) safe.not_loading)
Step-IsSafe {w} (claims p name args argv active at) safe =
    claim-IsSafe w safe active at p name args argv
Step-IsSafe {w} (acts active) safe = act-IsSafe w safe (phase w) refl active
Step-IsSafe {w} (targets tg l active at) safe = target-IsSafe w safe tg at
Step-IsSafe {w} (returns pml4 code l active at) safe =
    on-IsSafe w safe w.kernel outside (leaving (leaves pml4) code) at refl refl (λ d ys g e. cc e)
      refl (λ i. (refl, refl, refl))
Step-IsSafe {w} (marks i) safe =
    kept-IsSafe w safe _ refl (update-Keeps (w.kernel).slots i _ (refl, refl, refl))
Step-IsSafe {w} (errors error active at) safe =
    kept-IsSafe w safe _ refl
      (update-Keeps (w.kernel).slots (w.kernel).current_index _ (refl, refl, refl))
Step-IsSafe {w} reclaims safe = kept-IsSafe w safe _ refl (λ i. (refl, refl, refl))

-- Whatever the processes, the console and the timer do from boot on, with the timer between any two
-- writes of the calls that create, block and end processes, in every order: at most one process is
-- marked as running and it is the current one; every process that is ready, running or blocked has a
-- stack to resume on; no process that is not blocked waits for another, unless it is about to block
-- itself; a process that is being created is created by one task alone, stays loading until that task
-- ends the creation, and has a stack before it becomes ready. Choosing the next process and switching
-- to it is one step, and so are an exit from its change of state on, and a claim of a slot.
pub Reach-IsSafe : {w : World} → Reach w → IsSafe w
Reach-IsSafe boot = record {
  in_table = omega arith;
  fine = λ i l. ((λ live. absurd (cc live)), λ _ _. refl);
  only_runs = λ i l r. absurd (cc r);
  not_loading = λ l loads. absurd (cc loads);
  owned = λ i c xs f e. absurd (cc e);
  alone = λ i j c xs ys f g e e'. absurd (cc e);
}
Reach-IsSafe (next before step) = Step-IsSafe step (Reach-IsSafe before)
