-- ===== src/Environment.antt =====
-- kernel/src/main.rs: the environment of a process, a table of overrides and deletions over the
-- constant table `ENV`, which is an argument here.
pub mod Slot
pub mod Overlay
mod Tests
use rymos.Prelude.{
  ℕ, zero, suc, Bool, true, false, ◌&&◌, ◌||◌, not, Option, none, some, List, [], ◌∷◌, ◌==◌, ltb,
  if◌then◌else◌, Table, update, first_from, length, bytes_eq,
}
use rymos.Errors.{err_inval, err_nospc}
use rymos.Process.{EnvVar}

abbrev pub app_env_count : ℕ
app_env_count = 64

abbrev pub app_env_key_max : ℕ
app_env_key_max = 24

abbrev pub app_env_value_max : ℕ
app_env_value_max = 96

abbrev pub Env : Type 0
Env = Table EnvVar

-- `entry.used && &entry.key[..entry.key_len] == key`
abbrev pub has_key : List ℕ → EnvVar → Bool
has_key key entry = entry.used && bytes_eq entry.key key

-- The loops over the table that stop at the key.
unfoldable pub find_key : Env → List ℕ → Option ℕ
find_key env key = first_from app_env_count 0 (λ i. has_key key (env i))

-- The loop over `ENV`.
abbrev pub boot_lookup : List (List ℕ × List ℕ) → List ℕ → Option (List ℕ)
boot_lookup [] key = none
boot_lookup ((env_key, env_value) ∷ rest) key =
    if bytes_eq env_key key then some env_value else boot_lookup rest key

unfoldable pub env_lookup : List (List ℕ × List ℕ) → Env → List ℕ → Option (List ℕ)
env_lookup boot env key = elim (find_key env key) [
  | none ↦ boot_lookup boot key
  | some i ↦ if (env i).deleted then none else some (env i).value
]

unfoldable pub env_overlay_has_key : Env → List ℕ → Bool
env_overlay_has_key env key = elim (find_key env key) [ none ↦ false | some _ ↦ true ]

-- The loop of `env_set_overlay`, over `n` entries from `index` on.
unfoldable pub slot_from : Env → List ℕ → ℕ → ℕ → ℕ → ℕ
slot_from env key zero index slot = slot
slot_from env key (suc n) index slot =
    let rest =
      slot_from env key n (suc index)
        (if slot == app_env_count && not (env index).used then index else slot) in
    if has_key key (env index) then index else rest

abbrev pub has_bad_byte : List ℕ → Bool
has_bad_byte [] = false
has_bad_byte (b ∷ bs) = b == b'=' || b == 0 || has_bad_byte bs

abbrev pub is_empty : List ℕ → Bool
is_empty [] = true
is_empty (b ∷ bs) = false

abbrev pub is_bad_entry : List ℕ → List ℕ → Bool
is_bad_entry key value =
    is_empty key
    || ltb app_env_key_max (length key)
    || ltb app_env_value_max (length value)
    || has_bad_byte key

-- The environment after the call, or the error that it sets.
pub data EnvOutcome : Type 0 where
  stored : Env → EnvOutcome
  refused : ℕ → EnvOutcome

unfoldable pub env_set_overlay : Env → List ℕ → List ℕ → Bool → EnvOutcome
env_set_overlay env key value deleted =
    if is_bad_entry key value
    then refused err_inval
    else if slot_from env key app_env_count 0 app_env_count == app_env_count
    then refused err_nospc
    else stored (
        update env (slot_from env key app_env_count 0 app_env_count)
          (record { used = true; deleted = deleted; key = key; value = value }))
