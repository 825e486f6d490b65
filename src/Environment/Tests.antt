-- ===== src/Environment/Tests.antt =====
-- The theorems on the environment at a concrete one.
use rymos.Prelude.{ℕ, ◌==◌, if◌then◌else◌, List, [], ◌∷◌, true, false}
use rymos.Process.{empty_env_var}
use rymos.Environment.{Env, env_set_overlay}
use rymos.Environment.Overlay.{Overlaid, env_set_overlay-Overlaid}

-- `A=x`, of the kernel's constant table.
abbrev boot : List (List ℕ × List ℕ)
boot = (b'A' ∷ [], b'x' ∷ []) ∷ []

-- `B=y`, set by the program in the third entry.
abbrev env : Env
env i =
    if i == 2
    then record { used = true; deleted = false; key = b'B' ∷ []; value = b'y' ∷ [] }
    else empty_env_var

-- The program deletes `A`.
env_set_overlay-Overlaid_example :
    Overlaid boot env (b'A' ∷ []) [] true (env_set_overlay env (b'A' ∷ []) [] true)
env_set_overlay-Overlaid_example = env_set_overlay-Overlaid boot env (b'A' ∷ []) [] true
