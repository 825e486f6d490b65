-- ===== src/Process/Lookup.antt =====
-- kernel/src/main.rs: the scans of the process table.
use mathlib.Core.Bool.{◌&&◌}
use rymos.Prelude.{
  ℕ, ◌<◌, ◌≡◌, ◌⊎◌, inl, inr, ◌≢◌, true, Option, none, some, arith, Option-cases,
  first_from-IsFirst, first_from-none,
}
use rymos.Process.{
  ProcessState, Process, Processes, empty, ready, is_dead, process_count, same_state, state_as_u32,
  process_state_from_u32, process_find_slot, process_find_reapable_slot, pick_next_ready,
  spawn_slot,
}

pub same_state→eq : (a b : ProcessState) → same_state a b ≡ true → a ≡ b
same_state→eq a b h = ground arith

pub same_state_self : (a : ProcessState) → same_state a a ≡ true
same_state_self a = ground arith

-- Every state read back from its number is that state.
pub process_state_from_u32-state_as_u32 :
    (s : ProcessState) → process_state_from_u32 (state_as_u32 s) ≡ s
unfolding process_state_from_u32
process_state_from_u32-state_as_u32 s = ground arith

abbrev pub PicksReady : Processes → Option ℕ → Type 0
PicksReady t none = (i : ℕ) → i < process_count → (t i).state ≢ ready
PicksReady t (some k) =
    (k < process_count) × ((t k).state ≡ ready) × ((j : ℕ) → j < k → (t j).state ≢ ready)

-- The scheduler picks the first ready process of the table, never the idle slot, and picks none
-- only if none is ready.
pub pick_next_ready-PicksReady : (t : Processes) → PicksReady t (pick_next_ready t)
unfolding pick_next_ready
pick_next_ready-PicksReady t = elim (Option-cases (pick_next_ready t)) [
  | inl e ↦ rw e λ i h ready_i.
      grind (arith, first_from-none process_count 0 _ i e (omega arith) (omega arith))
  | inr (k, e) ↦
      let first = first_from-IsFirst process_count 0 _ k e in
      rw e (
        first.below,
        same_state→eq _ _ first.passes,
        λ j before ready_j. grind (arith, first.before j (omega arith) before),
      )
]

-- A slot that holds no process, or one that has exited and been waited for.
abbrev pub IsReusable : Process → Type 0
IsReusable p = (p.state ≡ empty) ⊎ ((p.waited ≡ true) × (is_dead p.state ≡ true))

process_find_slot-empty :
    (t : Processes) (k : ℕ)
    → process_find_slot t empty ≡ some k
    → (k < process_count) × ((t k).state ≡ empty)
unfolding process_find_slot
process_find_slot-empty t k e =
    let first = first_from-IsFirst process_count 0 _ k e in
    (first.below, same_state→eq _ _ first.passes)

process_find_reapable_slot_lem :
    (t : Processes) (k : ℕ)
    → process_find_reapable_slot t ≡ some k
    → (k < process_count) × ((t k).waited ≡ true) × (is_dead (t k).state ≡ true)
unfolding process_find_reapable_slot
process_find_reapable_slot_lem t k e =
    let first = first_from-IsFirst process_count 0 _ k e in
    let reaped : ((t k).waited && is_dead (t k).state) ≡ true = first.passes in
    (first.below, ground arith, ground arith)

pub spawn_slot-IsReusable :
    (t : Processes) (k : ℕ) → spawn_slot t ≡ some k → (k < process_count) × IsReusable (t k)
unfolding spawn_slot
spawn_slot-IsReusable t k e = elim (Option-cases (process_find_slot t empty)) [
  | inl full ↦
      let reaped = process_find_reapable_slot_lem t k (rw full at e) in
      (reaped.0, inr (reaped.1, reaped.2))
  | inr (j, found) ↦
      let at : j ≡ k = ground arith in
      let slot = process_find_slot-empty t j found in rw (← at) (slot.0, inl slot.1)
]

pub spawn_slot-none :
    (t : Processes) (i : ℕ) → spawn_slot t ≡ none → i < process_count → ¬ IsReusable (t i)
unfolding spawn_slot process_find_slot process_find_reapable_slot
spawn_slot-none t i e l = elim (Option-cases (process_find_slot t empty)) [
  | inr (j, found) ↦ absurd (ground arith)
  | inl full ↦ elim [
    | inl none_there ↦
        grind (arith, first_from-none process_count 0 _ i full (omega arith) (omega arith))
    | inr reaped ↦
        let full' : process_find_reapable_slot t ≡ none = ground arith in
        let out = first_from-none process_count 0 _ i full' (omega arith) (omega arith) in
        ground arith
  ]
]
