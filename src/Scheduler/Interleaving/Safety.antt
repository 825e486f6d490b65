-- ===== src/Scheduler/Interleaving/Safety.antt =====
-- kernel/src/main.rs: the invariant of the interleaved calls, and the steps of one task.
use rymos.Prelude.{
  ℕ, ◌≤◌, ◌<◌, ◌≡◌, ◌≢◌, sym, ap, ◌∙◌, subst, Bool, true, false, List, [], ◌∷◌, arith, update_self,
  update_other,
}
use native.Mathlib.Decide.{ℕ_discrete}
use rymos.Process.{Processes, nothing, loading, is_live, process_count}
use rymos.Scheduler.{Kernel}
use rymos.Scheduler.Soundness.{OnlyRuns}
use rymos.Scheduler.Interleaving.{
  Write, takes_over, resets, sets_window, sets_pml4, sets_entry, sets_stack, Finish, becomes_ready,
  Phase, outside, preparing, closing, blocking, leaving, World, into, phase,
}
use rymos.Scheduler.Interleaving.Tables.{IsFine, Fine, Keeps, KeepsLoading, IsGood}

abbrev pub is_blocking : Phase → Bool
is_blocking outside = false
is_blocking (preparing c xs f) = false
is_blocking (closing c xs) = false
is_blocking blocking = true
is_blocking (leaving xs code) = false

abbrev pub about : World → ℕ → Bool
about w i = is_blocking (w.phases i)

-- The stack pointer once the writes are done.
abbrev pub stack_after : List Write → ℕ → ℕ
stack_after [] r = r
stack_after (takes_over ∷ xs) r = stack_after xs r
stack_after (resets ∷ xs) r = stack_after xs r
stack_after (sets_window pid ∷ xs) r = stack_after xs r
stack_after (sets_pml4 pml4 ∷ xs) r = stack_after xs r
stack_after (sets_entry entry ∷ xs) r = stack_after xs r
stack_after (sets_stack rsp ∷ xs) r = stack_after xs rsp

-- A process that a task is creating cannot be scheduled, and has a stack before it becomes ready.
abbrev pub Owned : Processes → ℕ → List Write → Finish → Type 0
Owned t child xs finish =
    (child < process_count)
    × ((t child).state ≡ loading)
    × ((t child).waiting_for ≡ nothing)
    × (finish ≡ becomes_ready → stack_after xs (t child).rsp ≢ 0)

-- Besides the claim itself: the task that runs is not being created, and no process is created by two
-- tasks.
pub record IsSafe (w : World) : Type 0 where
  pub in_table : (w.kernel).current_index ≤ process_count
  pub fine : Fine (about w) (w.kernel).slots
  pub only_runs : OnlyRuns (w.kernel).current_index (w.kernel).slots
  pub not_loading :
      (w.kernel).current_index < process_count
      → ((w.kernel).slots (w.kernel).current_index).state ≢ loading
  pub owned :
      (i c : ℕ) (xs : List Write) (f : Finish)
      → w.phases i ≡ preparing c xs f
      → Owned (w.kernel).slots c xs f
  pub alone :
      (i j c : ℕ) (xs ys : List Write) (f g : Finish)
      → w.phases i ≡ preparing c xs f
      → w.phases j ≡ preparing c ys g
      → i ≡ j

Owned-kept :
    (t t' : Processes) (c : ℕ) (xs : List Write) (f : Finish)
    → KeepsLoading t t'
    → Owned t c xs f
    → Owned t' c xs f
Owned-kept t t' c xs f keeps (l, loads, waits, stack) =
    let kept = keeps c l loads in
    (
      l,
      kept.0 ∙ loads,
      kept.1 ∙ waits,
      λ e. subst (λ r. stack_after xs r ≢ 0) (sym kept.2) (stack e),
    )

-- A step after which no task has more to create than before.
pub good-IsSafe :
    (w w' : World)
    → IsSafe w
    → (w'.kernel).current_index ≤ process_count
    → IsGood (about w') (w.kernel).slots (w'.kernel).current_index (w'.kernel).slots
    → ((i c : ℕ) (xs : List Write) (f : Finish)
        → w'.phases i ≡ preparing c xs f
        → w.phases i ≡ preparing c xs f)
    → IsSafe w'
good-IsSafe w w' safe n good before = record {
  in_table = n;
  fine = good.fine;
  only_runs = good.only_runs;
  not_loading = good.not_loading;
  owned = λ i c xs f e.
      Owned-kept (w.kernel).slots (w'.kernel).slots c xs f good.keeps
        (safe.owned i c xs f (before i c xs f e));
  alone =
      λ i j c xs ys f g e e'. safe.alone i j c xs ys f g (before i c xs f e) (before j c ys g e');
}

-- The phases after a step of the current task.
module _ (w : World) (k : Kernel) (new : Phase) where
  phase-here : (into w k new).phases (w.kernel).current_index ≡ new
  phase-here = update_self w.phases (w.kernel).current_index new

  phase-there : (i : ℕ) → (w.kernel).current_index ≢ i → (into w k new).phases i ≡ w.phases i
  phase-there i ne = update_other w.phases (w.kernel).current_index i new ne

  pub into-Fine :
      (t : Processes)
      → Fine (about w) t
      → ((w.kernel).current_index < process_count
          → IsFine (is_blocking new) (t (w.kernel).current_index))
      → Fine (about (into w k new)) t
  into-Fine t fine here i l = elim (ℕ_discrete (w.kernel).current_index i) [
    | yes at ↦
        subst (λ i. IsFine (about (into w k new) i) (t i)) at
          (subst (λ ph. IsFine (is_blocking ph) (t (w.kernel).current_index)) (sym phase-here)
            (here (omega (arith, at, l))))
    | no ne ↦ subst (λ ph. IsFine (is_blocking ph) (t i)) (sym (phase-there i ne)) (fine i l)
  ]

  pub into-before :
      ((c : ℕ) (xs : List Write) (f : Finish) → new ≢ preparing c xs f)
      → (i c : ℕ) (xs : List Write) (f : Finish) → (into w k new).phases i ≡ preparing c xs f
      → w.phases i ≡ preparing c xs f
  into-before other i c xs f e = elim (ℕ_discrete (w.kernel).current_index i) [
    | yes at ↦ absurd (other c xs f (sym phase-here ∙ ap (into w k new).phases at ∙ e))
    | no ne ↦ sym (phase-there i ne) ∙ e
  ]

  -- The task goes on from a phase in which it was not about to block.
  pub advanced-IsSafe :
      IsSafe w
      → is_blocking (phase w) ≡ false
      → is_blocking new ≡ false
      → ((c : ℕ) (xs : List Write) (f : Finish) → new ≢ preparing c xs f)
      → k.current_index ≡ (w.kernel).current_index
      → IsGood (about w) (w.kernel).slots (w.kernel).current_index k.slots
      → IsSafe (into w k new)
  advanced-IsSafe safe quiet quiet' other same good =
      good-IsSafe w (into w k new) safe (subst (λ c. c ≤ process_count) (sym same) safe.in_table)
        (subst (λ c. IsGood (about (into w k new)) (w.kernel).slots c k.slots) (sym same)
          (record {
            fine = into-Fine k.slots good.fine λ l.
                subst (λ b. IsFine b (k.slots (w.kernel).current_index)) (quiet ∙ sym quiet')
                  (good.fine (w.kernel).current_index l);
            only_runs = good.only_runs;
            not_loading = good.not_loading;
            keeps = good.keeps;
          }))
        (into-before other)

-- A write to fields that the invariant does not read.
pub kept-IsGood :
    (w : World) (t : Processes)
    → IsSafe w
    → ((i : ℕ) → Keeps ((w.kernel).slots i) (t i))
    → IsGood (about w) (w.kernel).slots (w.kernel).current_index t
kept-IsGood w t safe kept = record {
  fine = λ i l.
      let k = kept i in
      let before = safe.fine i l in
      (
        (λ live stack. before.0 (ap is_live (sym k.0) ∙ live) (sym k.2 ∙ stack)),
        λ ne quiet. k.1 ∙ before.1 (λ e. ne (k.0 ∙ e)) quiet,
      );
  only_runs = λ i l r. safe.only_runs i l (sym (kept i).0 ∙ r);
  not_loading = λ l loads. safe.not_loading l (sym (kept (w.kernel).current_index).0 ∙ loads);
  keeps = λ i l loads. kept i;
}
