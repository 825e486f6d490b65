-- ===== src/Pfs/Paths/Resolve.antt =====
-- kernel/src/main.rs: `normalize_pfs_path` against the resolution of components on a stack.
use rymos.Prelude.{
  ℕ, ◌≤◌, ◌≡◌, refl, ◌∙◌, Bool, true, false, ◌&&◌, ◌||◌, not, Option, none, some, List, [], ◌∷◌,
  arith, if◌then◌else◌, length, length-append, drop, bytes_eq, Bool-cases, inl, inr,
}
use rymos.Pfs.Header.{pfs_name_max}
use rymos.Pfs.Directory.{slash, valid_pfs_path}
use rymos.Pfs.Paths.{
  is_empty, valid_pfs_component, components, pfs_push_component, pfs_pop_component, dot, dot_dot,
  push_all, walk, is_absolute, checked, normalize_pfs_path,
}
use rymos.Pfs.Paths.Stack.{
  path_of, AreComponents, room, pfs_pop_component-path_of, pfs_pop_component-empty,
  pfs_push_component-path_of, path_of-not_empty,
}
use rymos.Pfs.Paths.Valid.{valid_pfs_path-path_of}

abbrev pub Stack : Type 0
Stack = List (List ℕ)

abbrev pub push : List ℕ → Stack → Option Stack
push c cs = if valid_pfs_component c && room c cs then some (c ∷ cs) else none

abbrev pub pop : Stack → Stack
pop [] = []
pop (c ∷ cs) = cs

-- The components of the base, pushed one after the other.
abbrev pub pushed : Stack → List (List ℕ) → Option Stack
pushed st [] = some st
pushed st (c ∷ cs) = elim (push c st) [ none ↦ none | some st' ↦ pushed st' cs ]

-- The components of the path: `.` stays, `..` pops, any other is pushed.
abbrev pub resolve : Stack → List (List ℕ) → Option Stack
resolve st [] = some st
resolve st (c ∷ cs) = elim (bytes_eq c dot) [
  | true ↦ resolve st cs
  | false ↦ elim (bytes_eq c dot_dot) [
    | true ↦ resolve (pop st) cs
    | false ↦ elim (push c st) [ none ↦ none | some st' ↦ resolve st' cs ]
  ]
]

abbrev pub bytes_of : Option Stack → Option (List ℕ)
bytes_of none = none
bytes_of (some st) = some (path_of st)

-- Valid components, whose bytes fit a name.
abbrev pub IsStack : Stack → Type 0
IsStack st = AreComponents st × (length (path_of st) ≤ pfs_name_max)

-- The bytes are those of the stack, if there is one.
abbrev pub Follows : Option (List ℕ) → Option Stack → Type 0
Follows o none = o ≡ none
Follows o (some st) = (o ≡ some (path_of st)) × IsStack st

pop-IsStack :
    (st : Stack)
    → IsStack st
    → (pfs_pop_component (path_of st) ≡ path_of (pop st)) × IsStack (pop st)
pop-IsStack [] good = (pfs_pop_component-empty, good)
pop-IsStack (c ∷ []) good = (pfs_pop_component-path_of c [] good.0.0, (good.0.1, omega arith))
pop-IsStack (c ∷ c' ∷ cs) good = (
  pfs_pop_component-path_of c (c' ∷ cs) good.0.0,
  (good.0.1, omega (arith, good.1, length-append (path_of (c' ∷ cs)) (slash ∷ c))),
)

push-Follows :
    (c : List ℕ) (st : Stack) → IsStack st → Follows (pfs_push_component (path_of st) c) (push c st)
push-Follows c st good = elim (Bool-cases (valid_pfs_component c && room c st)) [
  | inl fine ↦ rw fine (
    pfs_push_component-path_of c st good.0 ∙ (rw fine refl),
    ((ground (arith, fine), good.0), ground (arith, fine)),
  )
  | inr bad ↦ rw bad (pfs_push_component-path_of c st good.0 ∙ (rw bad refl))
]

push_all-Follows :
    (st : Stack) (cs : List (List ℕ))
    → IsStack st
    → Follows (push_all (path_of st) cs) (pushed st cs)
unfolding push_all
push_all-Follows st [] good = (refl, good)
push_all-Follows st (c ∷ cs) good =
    step (λ st' good'. push_all-Follows st' cs good') (pfs_push_component (path_of st) c)
      (push c st) (push-Follows c st good)
  where
    step :
        ((st' : Stack) → IsStack st' → Follows (push_all (path_of st') cs) (pushed st' cs))
        → (o : Option (List ℕ)) (o' : Option Stack) → Follows o o'
        → Follows
            (elim o [ none ↦ none | some output ↦ push_all output cs ])
            (elim o' [ none ↦ none | some st' ↦ pushed st' cs ])
    step again o none at = rw at refl
    step again o (some st') at = rw (at.0) (again st' at.1)

walk-Follows :
    (st : Stack) (cs : List (List ℕ)) → IsStack st → Follows (walk (path_of st) cs) (resolve st cs)
unfolding walk
walk-Follows st [] good = (refl, good)
walk-Follows st (c ∷ cs) good =
    step (λ st' good'. walk-Follows st' cs good') (bytes_eq c dot) (bytes_eq c dot_dot)
  where
    pushes :
        ((st' : Stack) → IsStack st' → Follows (walk (path_of st') cs) (resolve st' cs))
        → (o : Option (List ℕ)) (o' : Option Stack) → Follows o o'
        → Follows
            (elim o [ none ↦ none | some output ↦ walk output cs ])
            (elim o' [ none ↦ none | some st' ↦ resolve st' cs ])
    pushes again o none at = rw at refl
    pushes again o (some st') at = rw (at.0) (again st' at.1)

    step :
        ((st' : Stack) → IsStack st' → Follows (walk (path_of st') cs) (resolve st' cs))
        → (stays ups : Bool)
        → Follows
            (elim stays [
              | true ↦ walk (path_of st) cs
              | false ↦ elim ups [
                | true ↦ walk (pfs_pop_component (path_of st)) cs
                | false ↦ elim (pfs_push_component (path_of st) c) [
                  | none ↦ none
                  | some output ↦ walk output cs
                ]
              ]
            ])
            (elim stays [
              | true ↦ resolve st cs
              | false ↦ elim ups [
                | true ↦ resolve (pop st) cs
                | false ↦ elim (push c st) [ none ↦ none | some st' ↦ resolve st' cs ]
              ]
            ])
    step again true ups = again st good
    step again false true = let up = pop-IsStack st good in rw (up.0) (again (pop st) up.1)
    step again false false =
        pushes again (pfs_push_component (path_of st) c) (push c st) (push-Follows c st good)

-- The resolution on stacks, whose result is not empty.
abbrev pub not_root : Option Stack → Option Stack
not_root none = none
not_root (some []) = none
not_root (some (c ∷ cs)) = some (c ∷ cs)

abbrev pub resolved : List ℕ → List ℕ → Option Stack
resolved base path = elim (pushed [] (if is_absolute path then [] else components base)) [
  | none ↦ none
  | some st ↦ not_root (resolve st (components (if is_absolute path then drop 1 path else path)))
]

-- A name that an entry may have.
abbrev pub IsName : Option (List ℕ) → Type 0
IsName none = Unit {0}
IsName (some name) = valid_pfs_path name ≡ true

checked-not_root :
    (o : Option (List ℕ)) (o' : Option Stack)
    → Follows o o'
    → (checked o ≡ bytes_of (not_root o')) × IsName (checked o)
checked-not_root o none at = rw at (refl, tt)
checked-not_root o (some []) at = rw (at.0) (refl, tt)
checked-not_root o (some (c ∷ cs)) at =
    let valid = valid_pfs_path-path_of c cs at.1 in
    let fine : (is_empty (path_of (c ∷ cs)) || not (valid_pfs_path (path_of (c ∷ cs)))) ≡ false =
      rw (path_of-not_empty c cs at.1.0.0, valid) refl in
    rw (at.0, fine) (refl, valid)

-- Resolving a path byte by byte, in a buffer, is the resolution of its components on a stack: the
-- base's components are pushed unless the path is absolute, then `.` stays, `..` pops (and stays at the
-- root), and every other component is pushed. It fails exactly if a component has a byte that no name
-- may have, the name would get longer than 96 bytes, or nothing is left; what it returns is a valid
-- name.
pub normalize_pfs_path-resolved :
    (base path : List ℕ)
    → (normalize_pfs_path base path ≡ bytes_of (resolved base path))
      × IsName (normalize_pfs_path base path)
unfolding normalize_pfs_path
normalize_pfs_path-resolved base path =
    whole (push_all [] (if is_absolute path then [] else components base))
      (pushed [] (if is_absolute path then [] else components base))
      (push_all-Follows [] (if is_absolute path then [] else components base) (tt, omega arith))
  where
    rest : List (List ℕ)
    rest = components (if is_absolute path then drop 1 path else path)

    whole :
        (o : Option (List ℕ)) (o' : Option Stack)
        → Follows o o'
        → (elim o [ none ↦ none | some output ↦ checked (walk output rest) ]
            ≡ bytes_of (elim o' [ none ↦ none | some st ↦ not_root (resolve st rest) ]))
          × IsName (elim o [ none ↦ none | some output ↦ checked (walk output rest) ])
    whole o none at = rw at (refl, tt)
    whole o (some st) at =
        rw (at.0)
          (checked-not_root (walk (path_of st) rest) (resolve st rest) (walk-Follows st rest at.1))
