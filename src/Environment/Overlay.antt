-- ===== src/Environment/Overlay.antt =====
-- kernel/src/main.rs: `env_set_overlay` against `env_lookup`.
use rymos.Prelude.{
  ℕ, ◌<◌, ◌≡◌, ◌≢◌, ◌⊎◌, refl, sym, ap, subst, ◌∙◌, inl, inr, Bool, true, false, Option, none, some,
  List, arith, ◌==◌, if◌then◌else◌, update, first_from-eq, first_from-some, first_from-IsFirst,
  first_from-none, bytes_eq, bytes_eq→eq, bytes_eq_self, Bool-cases,
}
use native.Mathlib.Decide.{ℕ_discrete}
use rymos.Process.{EnvVar}
use rymos.Errors.{err_inval, err_nospc}
use rymos.Environment.{
  Env, EnvOutcome, stored, refused, app_env_count, has_key, find_key, boot_lookup, env_lookup,
  slot_from, is_bad_entry, env_set_overlay,
}
use rymos.Environment.Slot.{SlotFor, slot_from-SlotFor}

abbrev held : List (List ℕ × List ℕ) → Env → List ℕ → Option ℕ → Option (List ℕ)
held boot env key none = boot_lookup boot key
held boot env key (some i) = if (env i).deleted then none else some (env i).value

env_lookup-held :
    (boot : List (List ℕ × List ℕ)) (env : Env) (key : List ℕ) (o : Option ℕ)
    → find_key env key ≡ o
    → env_lookup boot env key ≡ held boot env key o
unfolding env_lookup
env_lookup-held boot env key none e = rw (e, env_lookup) refl
env_lookup-held boot env key (some i) e = rw (e, env_lookup) refl

-- An entry that holds one key does not hold another.
has_key-other :
    (entry : EnvVar) (key k : List ℕ) → has_key key entry ≡ true → key ≢ k → has_key k entry ≡ false
has_key-other entry key k holds ne = elim (Bool-cases (has_key k entry)) [
  | inl too ↦ absurd (
      ne (
        sym (bytes_eq→eq entry.key key (ground (arith, holds)))
        ∙ bytes_eq→eq entry.key k (ground (arith, too))))
  | inr differs ↦ differs
]

has_key-unused : (entry : EnvVar) (key : List ℕ) → entry.used ≡ false → has_key key entry ≡ false
has_key-unused entry key unused = rw unused refl

module _ (boot : List (List ℕ × List ℕ)) (env : Env) (key value : List ℕ) (deleted : Bool)
    (r : ℕ) where
  entry : EnvVar
  entry = record { used = true; deleted = deleted; key = key; value = value }

  env' : Env
  env' = update env r entry

  entry-has_key : has_key key entry ≡ true
  unfolding entry
  entry-has_key = bytes_eq_self key

  at_slot : env' r ≡ entry
  unfolding env'
  at_slot = ground arith

  elsewhere : (j : ℕ) → r ≢ j → env' j ≡ env j
  unfolding env'
  elsewhere j ne = ground (arith, ne)

  -- The slot held this key, or nothing.
  module _ (slot : (has_key key (env r) ≡ true) ⊎ ((env r).used ≡ false)) where
    lookup_other : (k : List ℕ) → key ≢ k → env_lookup boot env' k ≡ env_lookup boot env k
    unfolding find_key
    lookup_other k ne =
        env_lookup-held boot env' k (find_key env k) (
          first_from-eq app_env_count 0 (λ i. has_key k (env' i)) (λ i. has_key k (env i))
            same_test)
        ∙ same_held (find_key env k) refl
        ∙ sym (env_lookup-held boot env k (find_key env k) refl)
      where
        old_slot : has_key k (env r) ≡ false
        old_slot = elim slot [
          | inl holds ↦ has_key-other (env r) key k holds ne
          | inr unused ↦ has_key-unused (env r) k unused
        ]

        same_test : (j : ℕ) → has_key k (env' j) ≡ has_key k (env j)
        same_test j = elim (ℕ_discrete r j) [
          | yes at ↦
              subst (λ j. has_key k (env' j) ≡ has_key k (env j)) at
                (ap (has_key k) at_slot ∙ has_key-other entry key k entry-has_key ne ∙ sym old_slot)
          | no apart ↦ ap (has_key k) (elsewhere j apart)
        ]

        same_held : (o : Option ℕ) → find_key env k ≡ o → held boot env' k o ≡ held boot env k o
        same_held none e = refl
        same_held (some i) e = elim (ℕ_discrete r i) [
          | yes at ↦ absurd (
              cc (
                old_slot,
                subst (λ i. has_key k (env i) ≡ true) (sym at)
                    (first_from-IsFirst app_env_count 0 (λ i. has_key k (env i)) i e).passes,
              ))
          | no apart ↦
              ap (λ (v : EnvVar). if v.deleted then none else some v.value) (elsewhere i apart)
        ]

  -- No entry before the slot holds the key.
  lookup_here :
      r < app_env_count
      → ((j : ℕ) → j < r → has_key key (env j) ≡ false)
      → env_lookup boot env' key ≡ (if deleted then none else some value)
  unfolding find_key entry
  lookup_here l before =
      env_lookup-held boot env' key (some r) (
        first_from-some app_env_count 0 (λ i. has_key key (env' i)) r
          (record {
            from = omega arith;
            below = omega (arith, l);
            passes = ap (has_key key) at_slot ∙ entry-has_key;
            before =
                λ j low high. ap (has_key key) (elsewhere j (omega (arith, high))) ∙ before j high;
          }))
      ∙ ap (λ (v : EnvVar). if v.deleted then none else some v.value) at_slot

-- The outcomes of setting `key` to `value`, or deleting it.
abbrev pub Overlaid : List (List ℕ × List ℕ) → Env → List ℕ → List ℕ → Bool → EnvOutcome → Type 0
Overlaid boot env key value deleted (stored env') =
    (k : List ℕ)
    → env_lookup boot env' k
      ≡ (if bytes_eq key k then (if deleted then none else some value) else env_lookup boot env k)
Overlaid boot env key value deleted (refused code) =
    ((code ≡ err_inval) × (is_bad_entry key value ≡ true))
    ⊎ ((code ≡ err_nospc)
        × (find_key env key ≡ none)
        × ((j : ℕ) → j < app_env_count → (env j).used ≡ true))

stored-Overlaid :
    (boot : List (List ℕ × List ℕ)) (env : Env) (key value : List ℕ) (deleted : Bool) (r : ℕ)
    → r < app_env_count
    → (has_key key (env r) ≡ true) ⊎ ((env r).used ≡ false)
    → ((j : ℕ) → j < r → has_key key (env j) ≡ false)
    → Overlaid boot env key value deleted (
        stored (update env r (record { used = true; deleted = deleted; key = key; value = value })))
unfolding entry env'
stored-Overlaid boot env key value deleted r l slot before k = elim (Bool-cases (bytes_eq key k)) [
  | inl same ↦ rw same (
      ap (env_lookup boot (env' boot env key value deleted r)) (sym (bytes_eq→eq key k same))
      ∙ lookup_here boot env key value deleted r l before)
  | inr other ↦ rw other (lookup_other boot env key value deleted r slot k (bytes_eq-differs other))
]
  where
    bytes_eq-differs : bytes_eq key k ≡ false → key ≢ k
    bytes_eq-differs differs same =
        absurd (cc (differs, ap (bytes_eq key) (sym same), bytes_eq_self key))

-- After `env_set_overlay` the key has the new value, or none where it was deleted, and every other key
-- has what it had, whether the table overrides it or not. A refusal is for an entry that the kernel
-- does not take, or for a new key in a full table.
pub env_set_overlay-Overlaid :
    (boot : List (List ℕ × List ℕ)) (env : Env) (key value : List ℕ) (deleted : Bool)
    → Overlaid boot env key value deleted (env_set_overlay env key value deleted)
unfolding env_set_overlay find_key
env_set_overlay-Overlaid boot env key value deleted = elim (Bool-cases (is_bad_entry key value)) [
  | inl bad ↦ rw (bad, env_set_overlay) (inl (refl, bad))
  | inr fine ↦
      rw (fine, env_set_overlay)
        (choose (slot_from env key app_env_count 0 app_env_count) (slot_from-SlotFor env key))
]
  where
    inside :
        (r : ℕ)
        → r < app_env_count
        → Overlaid boot env key value deleted (
            stored
              (update env r (record { used = true; deleted = deleted; key = key; value = value })))
        → Overlaid boot env key value deleted (
            if r == app_env_count
            then refused err_nospc
            else stored (
                update env r (record { used = true; deleted = deleted; key = key; value = value })))
    inside r l good = let apart : (r == app_env_count) ≡ false = ground (arith, l) in rw apart good

    choose :
        (r : ℕ)
        → SlotFor env key r
        → Overlaid boot env key value deleted (
            if r == app_env_count
            then refused err_nospc
            else stored (
                update env r (record { used = true; deleted = deleted; key = key; value = value })))
    choose r (inl found) =
        let first = first_from-IsFirst app_env_count 0 (λ i. has_key key (env i)) r found in
        inside r first.below (
          stored-Overlaid boot env key value deleted r first.below (inl first.passes)
            (λ j l. first.before j (omega arith) l))
    choose r (inr (inl (none_there, l, unused))) = inside r l (
        stored-Overlaid boot env key value deleted r l (inr unused) (λ j low.
          first_from-none app_env_count 0 (λ i. has_key key (env i)) j none_there (omega arith)
            (omega (arith, low, l))))
    choose r (inr (inr (none_there, full, all))) =
        let at : (r == app_env_count) ≡ true = ground (arith, full) in
        rw at (inr (refl, none_there, all))
