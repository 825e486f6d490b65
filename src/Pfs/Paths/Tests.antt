-- ===== src/Pfs/Paths/Tests.antt =====
-- The theorems on paths at a concrete path.
use rymos.Prelude.{ℕ, ◌≡◌, refl, some, List, [], ◌∷◌, ◌++◌}
use rymos.Pfs.Directory.{slash, find_last_byte, last_below, valid_pfs_path, valid_from}
use rymos.Pfs.Paths.{
  components, components_from, skip_slashes, until_slash, from_slash, normalize_pfs_path, push_all,
  walk, pfs_push_component, pfs_pop_component, valid_pfs_component, all_name_bytes, dot_dot,
}
use rymos.Pfs.Paths.Components.{Splits, joined, without_slashes, ArePieces, components-joined}
use rymos.Pfs.Paths.Resolve.{bytes_of, resolved, IsName, normalize_pfs_path-resolved}

-- `x/y`
abbrev base : List ℕ
base = b'x' ∷ slash ∷ b'y' ∷ []

-- `..//z`
abbrev path : List ℕ
path = dot_dot ++ slash ∷ slash ∷ b'z' ∷ []

-- `x/z`
normalized : normalize_pfs_path base path ≡ some (b'x' ∷ slash ∷ b'z' ∷ [])
unfolding normalize_pfs_path push_all walk pfs_push_component pfs_pop_component valid_pfs_component
    all_name_bytes components_from skip_slashes until_slash from_slash find_last_byte last_below
    valid_pfs_path valid_from
normalized = refl

normalize_pfs_path-resolved_example :
    (normalize_pfs_path base path ≡ bytes_of (resolved base path))
    × IsName (normalize_pfs_path base path)
normalize_pfs_path-resolved_example = normalize_pfs_path-resolved base path

components-joined_example :
    (joined (components path) ≡ without_slashes path)
    × Splits path (components path)
    × ArePieces (components path)
components-joined_example = components-joined path
