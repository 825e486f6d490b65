-- ===== src/Scheduler/Interleaving/Claims.antt =====
-- kernel/src/main.rs: claiming a slot for a new process keeps the invariant.
use rymos.Prelude.{
  ℕ, ◌<◌, ◌≡◌, ◌≢◌, refl, sym, ap, ◌∙◌, ◌⊎◌, inl, inr, subst, true, false, Option, none, some, List,
  arith, Option-cases, update, update_self, update_other,
}
use native.Mathlib.Decide.{ℕ_discrete}
use rymos.Process.{
  Process, Processes, ProcessTable, nothing, running, loading, is_live, is_dead, process_count,
  process_spawn_with_argv,
}
use rymos.Process.Lookup.{IsReusable}
use rymos.Process.Spawn.{SpawnResult, process_spawn_with_argv-SpawnResult}
use rymos.Scheduler.{Preparation, preparation}
use rymos.Scheduler.Calls.{current_pid}
use rymos.Scheduler.Spawning.{initial_rsp-ne-zero}
use rymos.Scheduler.Steps.{IsActive}
use rymos.Scheduler.Interleaving.{
  Write, Finish, becomes_ready, outside, preparing, World, phase, Plan, spawns, runs,
  prepare_writes, plan, claimed, claim,
}
use rymos.Scheduler.Interleaving.Tables.{IsFine}
use rymos.Scheduler.Interleaving.Safety.{
  is_blocking, about, stack_after, Owned, IsSafe, good-IsSafe, kept-IsGood,
}

-- A process that is to become ready gets a stack first.
prepare_writes-stack :
    (q : Preparation) (pid r : ℕ)
    → (prepare_writes q pid).1 ≡ becomes_ready
    → stack_after (prepare_writes q pid).0 r ≢ 0
unfolding prepare_writes
prepare_writes-stack q pid r = elim (Option-cases (preparation q)) [
  | inl e ↦ rw (e, prepare_writes) (λ f. absurd (cc f))
  | inr (loaded, e) ↦ rw (e, prepare_writes) (λ f. initial_rsp-ne-zero pid)
]

plan-stack :
    (p : Plan) (pid r : ℕ) → (plan p pid).1 ≡ becomes_ready → stack_after (plan p pid).0 r ≢ 0
unfolding plan
plan-stack (spawns false q) pid r e = absurd (cc e)
plan-stack (spawns true q) pid r e = prepare_writes-stack q pid r e
plan-stack (runs false q) pid r e = absurd (cc e)
plan-stack (runs true q) pid r e = prepare_writes-stack q pid r e

-- A slot that may be taken is not being created, and does not run.
reusable-loading : (p : Process) → IsReusable p → p.state ≢ loading
reusable-loading p (inl e) loads = cc (e, loads)
reusable-loading p (inr (waited, dead)) loads = cc (dead, ap is_dead loads)

reusable-running : (p : Process) → IsReusable p → p.state ≢ running
reusable-running p (inl e) r = cc (e, r)
reusable-running p (inr (waited, dead)) r = cc (dead, ap is_dead r)

module _ (w : World) (safe : IsSafe w) (active : IsActive w.kernel) (at : phase w ≡ outside)
    (p : Plan) (table : ProcessTable) (child : ℕ) (bound : child < process_count)
    (free : IsReusable ((w.kernel).slots child))
    (others : (i : ℕ) → i ≢ child → table.slots i ≡ (w.kernel).slots i)
    (loads : (table.slots child).state ≡ loading)
    (waits : (table.slots child).waiting_for ≡ nothing) where
  abbrev cur : ℕ
  cur = (w.kernel).current_index

  abbrev t : Processes
  t = (w.kernel).slots

  abbrev t' : Processes
  t' = table.slots

  abbrev writes : List Write
  writes = (plan p (t' child).pid).0

  abbrev finish : Finish
  finish = (plan p (t' child).pid).1

  abbrev w' : World
  w' = claimed w p table (some child)

  apart : child ≢ cur
  apart same =
      reusable-running (t child) free
        (ap (λ i. (t i).state) same ∙ active (omega (arith, same, bound)))

  here : w'.phases cur ≡ preparing child writes finish
  here = update_self (update w.phases child outside) cur (preparing child writes finish)

  at_child : w'.phases child ≡ outside
  at_child =
      update_other (update w.phases child outside) cur child (preparing child writes finish)
        (λ same. apart (sym same))
      ∙ update_self w.phases child outside

  there : (i : ℕ) → cur ≢ i → child ≢ i → w'.phases i ≡ w.phases i
  there i ne ne' =
      update_other (update w.phases child outside) cur i (preparing child writes finish) ne
      ∙ update_other w.phases child i outside ne'

  -- A task that creates a process is the current one, with the new process, or creates it already.
  creates-cases :
      (i d : ℕ) (ys : List Write) (g : Finish)
      → w'.phases i ≡ preparing d ys g
      → ((cur ≡ i) × (preparing child writes finish ≡ preparing d ys g))
        ⊎ (w.phases i ≡ preparing d ys g)
  creates-cases i d ys g e = elim (ℕ_discrete cur i) [
    | yes same ↦ inl (same, sym here ∙ ap w'.phases same ∙ e)
    | no ne ↦ elim (ℕ_discrete child i) [
      | yes same ↦ absurd (cc (sym at_child ∙ ap w'.phases same ∙ e))
      | no ne' ↦ inr (sym (there i ne ne') ∙ e)
    ]
  ]

  -- The slot was not being created.
  other_child : (i d : ℕ) (ys : List Write) (g : Finish) → w.phases i ≡ preparing d ys g → d ≢ child
  other_child i d ys g e same =
      reusable-loading (t child) free (sym (ap (λ i. (t i).state) same) ∙ (safe.owned i d ys g e).1)

  new-Owned : Owned t' child writes finish
  new-Owned = (bound, loads, waits, plan-stack p (t' child).pid (t' child).rsp)

  owned' :
      (i d : ℕ) (ys : List Write) (g : Finish) → w'.phases i ≡ preparing d ys g → Owned t' d ys g
  owned' i d ys g e = elim (creates-cases i d ys g e) [
    | inl (same, now) ↦
        let same_c : child ≡ d = cc now in
        let same_xs : writes ≡ ys = cc now in
        let same_f : finish ≡ g = cc now in
        subst (λ g. Owned t' d ys g) same_f
          (subst (λ ys. Owned t' d ys finish) same_xs
            (subst (λ d. Owned t' d writes finish) same_c new-Owned))
    | inr before ↦
        subst
          (λ q.
            (d < process_count)
            × (q.state ≡ loading)
            × (q.waiting_for ≡ nothing)
            × (g ≡ becomes_ready → stack_after ys q.rsp ≢ 0))
          (sym (others d (other_child i d ys g before))) (safe.owned i d ys g before)
  ]

  alone' :
      (i j d : ℕ) (xs ys : List Write) (g h : Finish)
      → w'.phases i ≡ preparing d xs g
      → w'.phases j ≡ preparing d ys h
      → i ≡ j
  alone' i j d xs ys g h e e' = elim (creates-cases i d xs g e) [
    | inl (same, now) ↦ elim (creates-cases j d ys h e') [
      | inl (same', now') ↦ sym same ∙ same'
      | inr before' ↦
          absurd (other_child j d ys h before' (let same_c : child ≡ d = cc now in sym same_c))
    ]
    | inr before ↦ elim (creates-cases j d ys h e') [
      | inl (same', now') ↦
          absurd (other_child i d xs g before (let same_c : child ≡ d = cc now' in sym same_c))
      | inr before' ↦ safe.alone i j d xs ys g h before before'
    ]
  ]

  fine' : (i : ℕ) → i < process_count → IsFine (about w' i) (t' i)
  fine' i l = elim (ℕ_discrete child i) [
    | yes same ↦
        subst (λ i. IsFine (about w' i) (t' i)) same
          ((λ live. absurd (cc (sym live ∙ ap is_live loads))), λ _ _. waits)
    | no ne ↦
        subst (IsFine (about w' i)) (sym (others i λ same. ne (sym same)))
          (elim (ℕ_discrete cur i) [
            | yes same ↦
                subst (λ i. IsFine (about w' i) (t i)) same
                  (subst (λ b. IsFine b (t cur)) (ap is_blocking at ∙ sym (ap is_blocking here))
                    (safe.fine cur (omega (arith, same, l))))
            | no ne' ↦
                subst (λ b. IsFine b (t i)) (sym (ap is_blocking (there i ne' ne))) (safe.fine i l)
          ])
  ]

  taken-IsSafe : IsSafe (claimed w p table (some child))
  taken-IsSafe = record {
    in_table = safe.in_table;
    fine = fine';
    only_runs = λ i l r. elim (ℕ_discrete child i) [
      | yes same ↦ absurd (cc (sym loads ∙ ap (λ i. (t' i).state) same ∙ r))
      | no ne ↦ safe.only_runs i l (sym (ap (λ q. q.state) (others i λ same. ne (sym same))) ∙ r)
    ];
    not_loading = λ l is_loading.
        safe.not_loading l
          (sym (ap (λ q. q.state) (others cur λ same. apart (sym same))) ∙ is_loading);
    owned = owned';
    alone = alone';
  }

module _ (w : World) (safe : IsSafe w) (active : IsActive w.kernel) (at : phase w ≡ outside)
    (p : Plan) (name args : List ℕ) (argv : List (List ℕ)) where
  claimed-IsSafe :
      (r : ProcessTable × Option ℕ)
      → SpawnResult (w.kernel).table name args argv (current_pid w.kernel) r
      → IsSafe (claimed w p r.0 r.1)
  claimed-IsSafe (table, none) (full, same, counter) =
      good-IsSafe w (claimed w p table none) safe safe.in_table
        (kept-IsGood w table.slots safe λ i.
          subst
            (λ q.
              (q.state ≡ ((w.kernel).slots i).state)
              × (q.waiting_for ≡ ((w.kernel).slots i).waiting_for)
              × (q.rsp ≡ ((w.kernel).slots i).rsp))
            (sym (ap (λ s. s i) same)) (refl, refl, refl))
        (λ i c xs f e. e)
  claimed-IsSafe (table, some child) (bound, free, made, others, spawned, counter) =
      taken-IsSafe w safe active at p table child bound free others spawned.loads
        spawned.waits_for_nothing

  pub claim-IsSafe : IsSafe (claim p name args argv w)
  unfolding claim
  claim-IsSafe =
      claimed-IsSafe
        (process_spawn_with_argv (w.kernel).table name args argv (current_pid w.kernel))
        (process_spawn_with_argv-SpawnResult (w.kernel).table name args argv (current_pid w.kernel))
