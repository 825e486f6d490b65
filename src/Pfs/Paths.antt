-- ===== src/Pfs/Paths.antt =====
-- kernel/src/main.rs: the resolution of a program's path to a name of RYMFS5. The bytes
-- `output[..len]` are a list.
pub mod Components
pub mod Stack
pub mod Valid
pub mod Resolve
mod Tests
use rymos.Prelude.{
  ℕ, zero, suc, ◌+◌, Bool, true, false, ◌&&◌, ◌||◌, not, Option, none, some, List, [], ◌∷◌, ◌++◌,
  ◌==◌, ltb, leb, if◌then◌else◌, length, take, drop, bytes_eq, starts_with,
}
use rymos.Pfs.Header.{pfs_name_max}
use rymos.Pfs.Directory.{slash, is_name_byte, find_last_byte, valid_pfs_path}

-- The loop of `valid_pfs_component`.
unfoldable pub all_name_bytes : List ℕ → Bool
all_name_bytes [] = true
all_name_bytes (b ∷ bs) = is_name_byte b && all_name_bytes bs

abbrev pub is_empty : List ℕ → Bool
is_empty [] = true
is_empty (b ∷ bs) = false

unfoldable pub valid_pfs_component : List ℕ → Bool
valid_pfs_component component = not (is_empty component) && all_name_bytes component

-- The first loop of `PfsComponents::next`.
unfoldable pub skip_slashes : List ℕ → List ℕ
skip_slashes [] = []
skip_slashes (b ∷ bs) = let rest = skip_slashes bs in if b == slash then rest else b ∷ bs

-- Its second loop: the component, and what comes after it.
unfoldable pub until_slash : List ℕ → List ℕ
until_slash [] = []
until_slash (b ∷ bs) = let rest = until_slash bs in if b == slash then [] else b ∷ rest

unfoldable pub from_slash : List ℕ → List ℕ
from_slash [] = []
from_slash (b ∷ bs) = let rest = from_slash bs in if b == slash then b ∷ bs else rest

-- The components that the iterator gives, on fuel.
unfoldable pub components_from : ℕ → List ℕ → List (List ℕ)
components_from zero bytes = []
components_from (suc fuel) bytes = elim (skip_slashes bytes) [
  | [] ↦ []
  | b ∷ bs ↦ until_slash (b ∷ bs) ∷ components_from fuel (from_slash (b ∷ bs))
]

-- Each component takes a byte at least.
abbrev pub components : List ℕ → List (List ℕ)
components bytes = components_from (length bytes) bytes

-- The separator that `pfs_push_component` writes first.
abbrev pub with_separator : List ℕ → Option (List ℕ)
with_separator [] = some []
with_separator (b ∷ bs) =
    if leb pfs_name_max (length (b ∷ bs)) then none else some ((b ∷ bs) ++ slash ∷ [])

unfoldable pub pfs_push_component : List ℕ → List ℕ → Option (List ℕ)
pfs_push_component output component =
    if is_empty component || not (valid_pfs_component component)
    then none
    else elim (with_separator output) [
      | none ↦ none
      | some separated ↦
          if ltb pfs_name_max (length separated + length component)
          then none
          else some (separated ++ component)
    ]

-- Its loop is that of `find_last_byte`.
unfoldable pub pfs_pop_component : List ℕ → List ℕ
pfs_pop_component output = elim (find_last_byte output slash) [
  | none ↦ []
  | some index ↦ take index output
]

abbrev pub dot : List ℕ
dot = b'.' ∷ []

abbrev pub dot_dot : List ℕ
dot_dot = b'.' ∷ b'.' ∷ []

-- The loop over the base's components.
unfoldable pub push_all : List ℕ → List (List ℕ) → Option (List ℕ)
push_all output [] = some output
push_all output (c ∷ cs) = elim (pfs_push_component output c) [
  | none ↦ none
  | some pushed ↦ push_all pushed cs
]

-- The loop over the path's components.
unfoldable pub walk : List ℕ → List (List ℕ) → Option (List ℕ)
walk output [] = some output
walk output (c ∷ cs) = elim (bytes_eq c dot) [
  | true ↦ walk output cs
  | false ↦ elim (bytes_eq c dot_dot) [
    | true ↦ walk (pfs_pop_component output) cs
    | false ↦ elim (pfs_push_component output c) [ none ↦ none | some pushed ↦ walk pushed cs ]
  ]
]

abbrev pub is_absolute : List ℕ → Bool
is_absolute [] = false
is_absolute (b ∷ bs) = b == slash

-- The final test of `normalize_pfs_path`.
abbrev pub checked : Option (List ℕ) → Option (List ℕ)
checked none = none
checked (some output) = if is_empty output || not (valid_pfs_path output) then none else some output

unfoldable pub normalize_pfs_path : List ℕ → List ℕ → Option (List ℕ)
normalize_pfs_path base path =
    elim (push_all [] (if is_absolute path then [] else components base)) [
      | none ↦ none
      | some output ↦
          checked (walk output (components (if is_absolute path then drop 1 path else path)))
    ]

-- `b"pfs:"`
abbrev pub pfs_prefix : List ℕ
pfs_prefix = b'p' ∷ b'f' ∷ b's' ∷ b':' ∷ []

abbrev pub app_cwd_is_pfs : List ℕ → Bool
app_cwd_is_pfs cwd = starts_with cwd pfs_prefix

abbrev pub app_cwd_pfs_name : List ℕ → List ℕ
app_cwd_pfs_name cwd = take pfs_name_max (drop 4 cwd)

-- `pfs_resolve_path`, in the working directory `cwd`.
unfoldable pub pfs_resolve_path : List ℕ → List ℕ → Option (List ℕ)
pfs_resolve_path cwd path =
    if starts_with path pfs_prefix
    then normalize_pfs_path [] (drop 4 path)
    else if app_cwd_is_pfs cwd
    then normalize_pfs_path (app_cwd_pfs_name cwd) path
    else none
