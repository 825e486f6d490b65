-- ===== src/Scheduler/Interleaving/Creation.antt =====
-- kernel/src/main.rs: the creation of a process, write by write, keeps the invariant.
use rymos.Prelude.{
  ℕ, ◌<◌, ◌≡◌, ◌≢◌, refl, sym, ap, ◌∙◌, subst, Bool, true, false, List, [], ◌∷◌, arith, update,
  update_self, update_other, leb,
}
use native.Mathlib.Decide.{ℕ_discrete}
use rymos.Process.{
  Process, Processes, ProcessState, nothing, ready, running, loading, failed, is_live,
  process_count,
}
use rymos.Scheduler.{with_slots, app_set_heap_window}
use rymos.Scheduler.Soundness.{OnlyRuns}
use rymos.Scheduler.Steps.{IsActive}
use rymos.Scheduler.Interleaving.{
  Write, takes_over, resets, sets_window, sets_pml4, sets_entry, sets_stack, write_slot, Finish,
  becomes_ready, fails, fails_unwaited, finish_slot, late_writes, Phase, preparing, closing, World,
  into, phase,
}
use rymos.Scheduler.Interleaving.Tables.{IsFine, Fine}
use rymos.Scheduler.Interleaving.Safety.{is_blocking, about, stack_after, Owned, IsSafe, into-Fine}

-- One process is changed; it still waits for what it waited for.
pub record IsChanged (t t' : Processes) (c : ℕ) (s : ProcessState) (r : ℕ) : Type 0 where
  pub others : (i : ℕ) → c ≢ i → t' i ≡ t i
  pub state : (t' c).state ≡ s
  pub waits : (t' c).waiting_for ≡ (t c).waiting_for
  pub stack : (t' c).rsp ≡ r

update-IsChanged :
    (t : Processes) (c : ℕ) (p : Process) (s : ProcessState) (r : ℕ)
    → p.state ≡ s
    → p.waiting_for ≡ (t c).waiting_for
    → p.rsp ≡ r
    → IsChanged t (update t c p) c s r
update-IsChanged t c p s r state waits stack = record {
  others = λ i ne. update_other t c i p ne;
  state = ap (λ q. q.state) (update_self t c p) ∙ state;
  waits = ap (λ q. q.waiting_for) (update_self t c p) ∙ waits;
  stack = ap (λ q. q.rsp) (update_self t c p) ∙ stack;
}

write_slot-IsChanged :
    (parent : ℕ) (x : Write) (t : Processes) (c : ℕ)
    → c < process_count
    → IsChanged t (write_slot parent x t c) c (t c).state (stack_after (x ∷ []) (t c).rsp)
unfolding write_slot app_set_heap_window
write_slot-IsChanged parent takes_over t c l =
    update-IsChanged t c _ (t c).state (t c).rsp refl refl refl
write_slot-IsChanged parent resets t c l =
    update-IsChanged t c _ (t c).state (t c).rsp refl refl refl
write_slot-IsChanged parent (sets_window pid) t c l =
    let inside : leb c process_count ≡ true = ground (arith, l) in
    rw inside (update-IsChanged t c _ (t c).state (t c).rsp refl refl refl)
write_slot-IsChanged parent (sets_pml4 pml4) t c l =
    update-IsChanged t c _ (t c).state (t c).rsp refl refl refl
write_slot-IsChanged parent (sets_entry entry) t c l =
    update-IsChanged t c _ (t c).state (t c).rsp refl refl refl
write_slot-IsChanged parent (sets_stack rsp) t c l =
    update-IsChanged t c _ (t c).state rsp refl refl refl

stack_after-next :
    (x : Write) (xs : List Write) (r : ℕ)
    → stack_after (x ∷ xs) r ≡ stack_after xs (stack_after (x ∷ []) r)
stack_after-next takes_over xs r = refl
stack_after-next resets xs r = refl
stack_after-next (sets_window pid) xs r = refl
stack_after-next (sets_pml4 pml4) xs r = refl
stack_after-next (sets_entry entry) xs r = refl
stack_after-next (sets_stack rsp) xs r = refl

-- A process that is not marked as running gets a state that is not running.
module _ (about : ℕ → Bool) (t t' : Processes) (c : ℕ) (s : ProcessState) (r : ℕ)
    (changed : IsChanged t t' c s r) (quiet : (t c).waiting_for ≡ nothing) where
  changed-Fine : Fine about t → (is_live s ≡ true → r ≢ 0) → Fine about t'
  changed-Fine fine stack i l = elim (ℕ_discrete c i) [
    | yes at ↦
        subst (λ i. IsFine (about i) (t' i)) at
          (
            (λ live zero. stack (ap is_live (sym changed.state) ∙ live) (sym changed.stack ∙ zero)),
            λ _ _. changed.waits ∙ quiet,
          )
    | no ne ↦ subst (IsFine (about i)) (sym (changed.others i ne)) (fine i l)
  ]

  changed-OnlyRuns : (current : ℕ) → s ≢ running → OnlyRuns current t → OnlyRuns current t'
  changed-OnlyRuns current ne_s only i l run = elim (ℕ_discrete c i) [
    | yes at ↦ absurd (ne_s (sym changed.state ∙ ap (λ i. (t' i).state) at ∙ run))
    | no ne ↦ only i l (sym (ap (λ p. p.state) (changed.others i ne)) ∙ run)
  ]

-- A task goes on with the creation of the process `c`, which gets the state `s`.
module _ (w : World) (safe : IsSafe w) (active : IsActive w.kernel) (c : ℕ) (zs : List Write)
    (f : Finish) (at : phase w ≡ preparing c zs f) (t' : Processes) (s : ProcessState) (r : ℕ)
    (changed : IsChanged (w.kernel).slots t' c s r) (new : Phase) where
  abbrev cur : ℕ
  cur = (w.kernel).current_index

  abbrev t : Processes
  t = (w.kernel).slots

  abbrev w' : World
  w' = into w (with_slots w.kernel t') new

  mine : Owned t c zs f
  mine = safe.owned cur c zs f at

  -- The task that runs is another one.
  apart : c ≢ cur
  apart same =
      let at_c : (t c).state ≡ running =
        ap (λ i. (t i).state) same ∙ active (omega (arith, same, mine.0)) in
      cc (at_c, mine.1)

  here : w'.phases cur ≡ new
  here = update_self w.phases cur new

  there : (i : ℕ) → cur ≢ i → w'.phases i ≡ w.phases i
  there i ne = update_other w.phases cur i new ne

  module _ (ne_s : s ≢ running) (stack : is_live s ≡ true → r ≢ 0) (quiet : is_blocking new ≡ false)
      (more : (d : ℕ) (ys : List Write) (g : Finish)
        → new ≡ preparing d ys g
        → (c ≡ d) × Owned t' d ys g) where
    fine' : Fine (about w) t'
    fine' = changed-Fine (about w) t t' c s r changed mine.2 safe.fine stack

    owned' :
        (i d : ℕ) (ys : List Write) (g : Finish) → w'.phases i ≡ preparing d ys g → Owned t' d ys g
    owned' i d ys g e = elim (ℕ_discrete cur i) [
      | yes same ↦ (more d ys g (sym here ∙ ap w'.phases same ∙ e)).1
      | no ne ↦
          let before = sym (there i ne) ∙ e in
          let other : c ≢ d = λ same_c.
            ne (safe.alone cur i d zs ys f g (at ∙ ap (λ c. preparing c zs f) same_c) before) in
          subst
            (λ p.
              (d < process_count)
              × (p.state ≡ loading)
              × (p.waiting_for ≡ nothing)
              × (g ≡ becomes_ready → stack_after ys p.rsp ≢ 0))
            (sym (changed.others d other)) (safe.owned i d ys g before)
    ]

    mine_of :
        (i d : ℕ) (ys : List Write) (g : Finish)
        → cur ≡ i
        → w'.phases i ≡ preparing d ys g
        → w.phases cur ≡ preparing d zs f
    mine_of i d ys g same e =
        at ∙ ap (λ c. preparing c zs f) (more d ys g (sym here ∙ ap w'.phases same ∙ e)).0

    alone' :
        (i j d : ℕ) (xs ys : List Write) (g h : Finish)
        → w'.phases i ≡ preparing d xs g
        → w'.phases j ≡ preparing d ys h
        → i ≡ j
    alone' i j d xs ys g h e e' = elim (ℕ_discrete cur i) [
      | yes same ↦ elim (ℕ_discrete cur j) [
        | yes same' ↦ sym same ∙ same'
        | no ne' ↦
            sym same
            ∙ safe.alone cur j d zs ys f h (mine_of i d xs g same e) (sym (there j ne') ∙ e')
      ]
      | no ne ↦ elim (ℕ_discrete cur j) [
        | yes same' ↦
            safe.alone i cur d xs zs g f (sym (there i ne) ∙ e) (mine_of j d ys h same' e') ∙ same'
        | no ne' ↦ safe.alone i j d xs ys g h (sym (there i ne) ∙ e) (sym (there j ne') ∙ e')
      ]
    ]

    pub child-IsSafe : IsSafe (into w (with_slots w.kernel t') new)
    child-IsSafe = record {
      in_table = safe.in_table;
      fine =
          into-Fine w (with_slots w.kernel t') new t' fine'
            λ l. subst (λ b. IsFine b (t' cur)) (ap is_blocking at ∙ sym quiet) (fine' cur l);
      only_runs = changed-OnlyRuns (about w) t t' c s r changed mine.2 cur ne_s safe.only_runs;
      not_loading = λ l loads.
          safe.not_loading l (sym (ap (λ p. p.state) (changed.others cur apart)) ∙ loads);
      owned = owned';
      alone = alone';
    }

pub write-IsSafe :
    (w : World) (c : ℕ) (x : Write) (xs : List Write) (f : Finish)
    → IsSafe w
    → IsActive w.kernel
    → phase w ≡ preparing c (x ∷ xs) f
    → IsSafe (
        into w
          (with_slots w.kernel (write_slot (w.kernel).current_index x (w.kernel).slots c))
          (preparing c xs f))
write-IsSafe w c x xs f safe active at =
    let t = (w.kernel).slots in
    let t' = write_slot (w.kernel).current_index x t c in
    let mine = safe.owned (w.kernel).current_index c (x ∷ xs) f at in
    let r = stack_after (x ∷ []) (t c).rsp in
    let changed = write_slot-IsChanged (w.kernel).current_index x t c mine.0 in
    let mine' : Owned t' c xs f = (
      mine.0,
      changed.state ∙ mine.1,
      changed.waits ∙ mine.2,
      λ e zero.
          mine.3 e
            (stack_after-next x xs (t c).rsp ∙ ap (stack_after xs) (sym changed.stack) ∙ zero),
    ) in
    child-IsSafe w safe active c (x ∷ xs) f at t' (t c).state r changed (preparing c xs f)
      (λ e. absurd (cc (e, mine.1))) (λ live. absurd (cc (live, ap is_live mine.1))) refl
      (λ d ys g now.
        let same_c : c ≡ d = cc now in
        let same_xs : xs ≡ ys = cc now in
        let same_f : f ≡ g = cc now in
        (
          same_c,
          subst (λ g. Owned t' d ys g) same_f
              (subst (λ ys. Owned t' d ys f) same_xs (subst (λ d. Owned t' d xs f) same_c mine')),
        ))

-- The state that a creation ends with.
abbrev end_state : Finish → ProcessState
end_state becomes_ready = ready
end_state fails = failed
end_state fails_unwaited = failed

finish_slot-IsChanged :
    (f : Finish) (t : Processes) (c : ℕ) → IsChanged t (finish_slot f t c) c (end_state f) (t c).rsp
unfolding finish_slot
finish_slot-IsChanged becomes_ready t c = update-IsChanged t c _ ready (t c).rsp refl refl refl
finish_slot-IsChanged fails t c = update-IsChanged t c _ failed (t c).rsp refl refl refl
finish_slot-IsChanged fails_unwaited t c = update-IsChanged t c _ failed (t c).rsp refl refl refl

end_state-stack :
    (f : Finish) (r : ℕ) → (f ≡ becomes_ready → r ≢ 0) → is_live (end_state f) ≡ true → r ≢ 0
end_state-stack becomes_ready r stack live = stack refl
end_state-stack fails r stack live = absurd (cc live)
end_state-stack fails_unwaited r stack live = absurd (cc live)

end_state-quiet : (f : Finish) → end_state f ≢ running
end_state-quiet becomes_ready e = cc e
end_state-quiet fails e = cc e
end_state-quiet fails_unwaited e = cc e

pub finish-IsSafe :
    (w : World) (c : ℕ) (f : Finish)
    → IsSafe w
    → IsActive w.kernel
    → phase w ≡ preparing c [] f
    → IsSafe (
        into w (with_slots w.kernel (finish_slot f (w.kernel).slots c)) (closing c (late_writes f)))
finish-IsSafe w c f safe active at =
    let t = (w.kernel).slots in
    let mine = safe.owned (w.kernel).current_index c [] f at in
    child-IsSafe w safe active c [] f at (finish_slot f t c) (end_state f) (t c).rsp
      (finish_slot-IsChanged f t c) (closing c (late_writes f)) (end_state-quiet f)
      (end_state-stack f (t c).rsp mine.3) refl (λ d ys g now. absurd (cc now))
