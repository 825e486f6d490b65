-- ===== src/Environment/Slot.antt =====
-- kernel/src/main.rs: the slot that `env_set_overlay` chooses.
use rymos.Prelude.{
  ℕ, zero, suc, ◌+◌, ◌≤◌, ◌<◌, ◌≡◌, ◌≢◌, ◌⊎◌, refl, sym, subst, ◌∙◌, inl, inr, true, false, ◌&&◌,
  not, none, some, List, arith, ◌==◌, if◌then◌else◌, first_from, Bool-cases,
}
use native.Mathlib.Decide.{ℕ_discrete}
use rymos.Environment.{Env, app_env_count, has_key, find_key, slot_from}

-- A free entry: the one chosen before, or one of the range; with none, every entry is used.
abbrev IsFree : Env → ℕ → ℕ → ℕ → ℕ → Type 0
IsFree env n index slot r =
    ((r ≢ app_env_count) × ((r ≡ slot) ⊎ ((index ≤ r) × (r < index + n) × ((env r).used ≡ false))))
    ⊎ ((r ≡ app_env_count)
        × (slot ≡ app_env_count)
        × ((j : ℕ) → index ≤ j → j < index + n → (env j).used ≡ true))

-- The slot of the key's first entry, else a free one.
abbrev Chosen : Env → List ℕ → ℕ → ℕ → ℕ → ℕ → Type 0
Chosen env key n index slot r =
    (first_from n index (λ i. has_key key (env i)) ≡ some r)
    ⊎ ((first_from n index (λ i. has_key key (env i)) ≡ none) × IsFree env n index slot r)

module _ (env : Env) (key : List ℕ) where
  widen :
      (n index slot slot' r : ℕ)
      → index + suc n ≤ app_env_count
      → slot' ≡ (if slot == app_env_count && not (env index).used then index else slot)
      → IsFree env n (suc index) slot' r
      → IsFree env (suc n) index slot r
  widen n index slot slot' r l e free =
      elim (Bool-cases (slot == app_env_count && not (env index).used)) [
        | inl here ↦
            let at : slot' ≡ index = e ∙ rw here refl in
            let unused : (env index).used ≡ false = ground (arith, here) in
            elim free [
              | inl (ne, inl same) ↦
                  let r_at : r ≡ index = same ∙ at in
                  inl (ne, inr (omega (arith, r_at), omega (arith, r_at), rw r_at unused))
              | inl (ne, inr (low, high, free_r)) ↦
                  inl (ne, inr (omega (arith, low), omega (arith, high), free_r))
              | inr (r_full, slot_full, all) ↦ absurd (omega (arith, at, slot_full, l))
            ]
        | inr not_here ↦
            let at : slot' ≡ slot = e ∙ rw not_here refl in
            elim free [
              | inl (ne, inl same) ↦ inl (ne, inl (same ∙ at))
              | inl (ne, inr (low, high, free_r)) ↦
                  inl (ne, inr (omega (arith, low), omega (arith, high), free_r))
              | inr (r_full, slot_full, all) ↦
                  let full : slot ≡ app_env_count = sym at ∙ slot_full in
                  inr (
                    r_full,
                    full,
                    λ j low high. elim (ℕ_discrete index j) [
                      | yes here ↦
                          subst (λ j. (env j).used ≡ true) here (ground (arith, not_here, full))
                      | no later ↦ all j (omega (arith, low, later)) (omega (arith, high))
                    ],
                  )
            ]
      ]

  slot_from-Chosen :
      (n index slot : ℕ)
      → index + n ≤ app_env_count
      → Chosen env key n index slot (slot_from env key n index slot)
  unfolding slot_from first_from
  slot_from-Chosen zero index slot l = elim (ℕ_discrete slot app_env_count) [
    | yes full ↦ inr (refl, inr (full, full, λ j low high. absurd (omega arith)))
    | no chosen ↦ inr (refl, inl (chosen, inl refl))
  ]
  slot_from-Chosen (suc n) index slot l = elim (Bool-cases (has_key key (env index))) [
    | inl hit ↦ rw hit (inl refl)
    | inr miss ↦ rw miss (
        step (slot_from env key n (suc index) slot')
          (slot_from-Chosen n (suc index) slot' (omega arith)))
  ]
    where
      slot' : ℕ
      slot' = if slot == app_env_count && not (env index).used then index else slot

      step :
          (r : ℕ)
          → Chosen env key n (suc index) slot' r
          → (first_from n (suc index) (λ i. has_key key (env i)) ≡ some r)
            ⊎ ((first_from n (suc index) (λ i. has_key key (env i)) ≡ none)
                × IsFree env (suc n) index slot r)
      step r (inl found) = inl found
      step r (inr (none_there, free)) = inr (none_there, widen n index slot slot' r l refl free)

-- The entry that holds the key, else a free one; with neither, every entry is used.
abbrev pub SlotFor : Env → List ℕ → ℕ → Type 0
SlotFor env key r =
    (find_key env key ≡ some r)
    ⊎ ((find_key env key ≡ none) × (r < app_env_count) × ((env r).used ≡ false))
    ⊎ ((find_key env key ≡ none)
        × (r ≡ app_env_count)
        × ((j : ℕ) → j < app_env_count → (env j).used ≡ true))

pub slot_from-SlotFor :
    (env : Env) (key : List ℕ) → SlotFor env key (slot_from env key app_env_count 0 app_env_count)
unfolding find_key
slot_from-SlotFor env key =
    from (slot_from env key app_env_count 0 app_env_count)
      (slot_from-Chosen env key app_env_count 0 app_env_count (omega arith))
  where
    from : (r : ℕ) → Chosen env key app_env_count 0 app_env_count r → SlotFor env key r
    from r (inl found) = inl found
    from r (inr (none_there, inl (ne, inl same))) = absurd (ne same)
    from r (inr (none_there, inl (ne, inr (low, high, free)))) =
        inr (inl (none_there, omega (arith, high), free))
    from r (inr (none_there, inr (full, same, all))) =
        inr (inr (none_there, full, λ j l. all j (omega arith) (omega (arith, l))))
