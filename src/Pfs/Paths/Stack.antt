-- ===== src/Pfs/Paths/Stack.antt =====
-- kernel/src/main.rs: the component stack that `pfs_push_component` and `pfs_pop_component` keep in
-- their output.
use mathlib.Core.List.{◌++◌}
use rymos.Prelude.{
  ℕ, zero, suc, ◌+◌, ◌-◌, inl, inr, ◌≤◌, ◌<◌, ◌≡◌, ◌≢◌, refl, sym, ap, ◌∙◌, Bool, true, false, ◌&&◌,
  ◌||◌, not, none, some, List, [], ◌∷◌, arith, ◌==◌, ltb, leb, if◌then◌else◌, length, take,
  length-append, get_or, Bool-cases,
}
use native.Mathlib.Decide.{ℕ_discrete}
use rymos.Pfs.Header.{pfs_name_max}
use rymos.Pfs.Directory.{slash, is_name_byte, find_last_byte, last_below}
use rymos.Pfs.Paths.{
  all_name_bytes, is_empty, valid_pfs_component, with_separator, pfs_push_component,
  pfs_pop_component,
}

-- The bytes of a stack of components, the last one first.
abbrev pub path_of : List (List ℕ) → List ℕ
path_of [] = []
path_of (c ∷ []) = c
path_of (c ∷ c' ∷ cs) = path_of (c' ∷ cs) ++ slash ∷ c

abbrev pub IsComponent : List ℕ → Type 0
IsComponent c = valid_pfs_component c ≡ true

abbrev pub AreComponents : List (List ℕ) → Type 0
AreComponents [] = Unit {0}
AreComponents (c ∷ cs) = IsComponent c × AreComponents cs

pub append_assoc : (xs ys zs : List ℕ) → (xs ++ ys) ++ zs ≡ xs ++ (ys ++ zs)
append_assoc [] ys zs = refl
append_assoc (x ∷ xs) ys zs = ap (◌∷◌ x) (append_assoc xs ys zs)

pub append-nil : (xs : List ℕ) → xs ++ [] ≡ xs
append-nil [] = refl
append-nil (x ∷ xs) = ap (◌∷◌ x) (append-nil xs)

take-append : (xs ys : List ℕ) → take (length xs) (xs ++ ys) ≡ xs
take-append [] ys = refl
take-append (x ∷ xs) ys = ap (◌∷◌ x) (take-append xs ys)

both : (a b : Bool) → (a && b) ≡ true → (a ≡ true) × (b ≡ true)
both a b h = ground arith

pub IsComponent-bytes :
    (c : List ℕ) → IsComponent c → (is_empty c ≡ false) × (all_name_bytes c ≡ true)
unfolding valid_pfs_component
IsComponent-bytes c v = (ground (arith, v), ground (arith, v))

-- Reading at an index of the second part.
get_or-append :
    (xs ys : List ℕ) (i d : ℕ) → length xs ≤ i → get_or (xs ++ ys) i d ≡ get_or ys (i - length xs) d
get_or-append [] ys i d l = let same : i ≡ i - 0 = omega arith in ap (λ n. get_or ys n d) same
get_or-append (x ∷ xs) ys zero d l = absurd (omega arith)
get_or-append (x ∷ xs) ys (suc i) d l =
    let same : i - length xs ≡ suc i - suc (length xs) = omega arith in
    get_or-append xs ys i d (omega arith) ∙ ap (λ n. get_or ys n d) same

pub name_not_slash : (b : ℕ) → is_name_byte b ≡ true → b ≢ slash
name_not_slash b name at = absurd (ground (arith, name, at))

get_or-name : (c : List ℕ) (i : ℕ) → all_name_bytes c ≡ true → i < length c → get_or c i 0 ≢ slash
unfolding all_name_bytes
get_or-name [] i names l = absurd (omega arith)
get_or-name (b ∷ bs) zero names l =
    λ at. name_not_slash b (both (is_name_byte b) (all_name_bytes bs) names).0 at
get_or-name (b ∷ bs) (suc i) names l =
    get_or-name bs i (both (is_name_byte b) (all_name_bytes bs) names).1 (omega arith)

last_below-some :
    (n i : ℕ) (bs : List ℕ) (needle : ℕ)
    → i < n
    → get_or bs i 0 ≡ needle
    → ((j : ℕ) → i < j → j < n → get_or bs j 0 ≢ needle)
    → last_below n bs needle ≡ some i
unfolding last_below
last_below-some zero i bs needle l at after = absurd (omega arith)
last_below-some (suc n) i bs needle l at after = elim (ℕ_discrete i n) [
  | yes here ↦
      let hit : (get_or bs n 0 == needle) ≡ true =
        ground (arith, ap (λ n. get_or bs n 0) here, at) in
      rw hit (ap some (sym here))
  | no before ↦
      let miss : (get_or bs n 0 == needle) ≡ false =
        ground (arith, after n (omega arith) (omega arith)) in
      rw miss
        (last_below-some n i bs needle (omega arith) at (λ j low high. after j low (omega arith)))
]

last_below-none :
    (n : ℕ) (bs : List ℕ) (needle : ℕ)
    → ((j : ℕ) → j < n → get_or bs j 0 ≢ needle)
    → last_below n bs needle ≡ none
unfolding last_below
last_below-none zero bs needle absent = refl
last_below-none (suc n) bs needle absent =
    let miss : (get_or bs n 0 == needle) ≡ false = ground (arith, absent n (omega arith)) in
    rw miss (last_below-none n bs needle (λ j l. absent j (omega arith)))

-- The last slash is before the last component.
find_last_byte-append :
    (xs c : List ℕ)
    → all_name_bytes c ≡ true
    → find_last_byte (xs ++ slash ∷ c) slash ≡ some (length xs)
unfolding find_last_byte
find_last_byte-append xs c names =
    last_below-some (length (xs ++ slash ∷ c)) (length xs) (xs ++ slash ∷ c) slash
      (omega (arith, length-append xs (slash ∷ c)))
      (get_or-append xs (slash ∷ c) (length xs) 0 (omega arith)
        ∙ at_start (length xs - length xs) (omega arith))
      (λ j low high at.
        get_or-name c (j - length xs - 1) names (omega (arith, length-append xs (slash ∷ c))) (
          sym (inside (j - length xs) (omega arith))
          ∙ sym (get_or-append xs (slash ∷ c) j 0 (omega arith))
          ∙ at))
  where
    at_start : (i : ℕ) → i ≡ 0 → get_or (slash ∷ c) i 0 ≡ slash
    at_start zero z = refl
    at_start (suc i) z = absurd (omega arith)

    inside : (i : ℕ) → 0 < i → get_or (slash ∷ c) i 0 ≡ get_or c (i - 1) 0
    inside zero l = absurd (omega arith)
    inside (suc i) l = let same : i ≡ suc i - 1 = omega arith in ap (λ n. get_or c n 0) same

-- Popping the bytes of a stack pops the stack.
pub pfs_pop_component-path_of :
    (c : List ℕ) (cs : List (List ℕ))
    → IsComponent c
    → pfs_pop_component (path_of (c ∷ cs)) ≡ path_of cs
unfolding pfs_pop_component find_last_byte
pfs_pop_component-path_of c [] v =
    let none_there : find_last_byte c slash ≡ none =
      last_below-none (length c) c slash (λ j l. get_or-name c j (IsComponent-bytes c v).1 l) in
    rw (none_there, pfs_pop_component) refl
pfs_pop_component-path_of c (c' ∷ cs) v =
    rw (find_last_byte-append (path_of (c' ∷ cs)) c (IsComponent-bytes c v).1, pfs_pop_component)
      (take-append (path_of (c' ∷ cs)) (slash ∷ c))

pub pfs_pop_component-empty : pfs_pop_component [] ≡ []
unfolding pfs_pop_component find_last_byte last_below
pfs_pop_component-empty = refl

pub path_of-not_empty :
    (c : List ℕ) (cs : List (List ℕ)) → IsComponent c → is_empty (path_of (c ∷ cs)) ≡ false
path_of-not_empty c [] v = (IsComponent-bytes c v).0
path_of-not_empty c (c' ∷ cs) v = append-not_empty (path_of (c' ∷ cs))
  where
    append-not_empty : (xs : List ℕ) → is_empty (xs ++ slash ∷ c) ≡ false
    append-not_empty [] = refl
    append-not_empty (x ∷ xs) = refl

not_empty-cons : (xs : List ℕ) → is_empty xs ≡ false → 0 < length xs
not_empty-cons [] e = absurd (cc e)
not_empty-cons (x ∷ xs) e = omega arith

with_separator-not_empty :
    (xs : List ℕ)
    → is_empty xs ≡ false
    → with_separator xs ≡ (if leb pfs_name_max (length xs) then none else some (xs ++ slash ∷ []))
with_separator-not_empty [] e = absurd (cc e)
with_separator-not_empty (x ∷ xs) e = refl

-- The new component fits.
abbrev pub room : List ℕ → List (List ℕ) → Bool
room c cs = leb (length (path_of (c ∷ cs))) pfs_name_max

-- Pushing to the bytes of a stack pushes to the stack, where the component is valid and fits.
pub pfs_push_component-path_of :
    (c : List ℕ) (cs : List (List ℕ))
    → AreComponents cs
    → pfs_push_component (path_of cs) c
      ≡ (if valid_pfs_component c && room c cs then some (path_of (c ∷ cs)) else none)
unfolding pfs_push_component
pfs_push_component-path_of c cs all = elim (Bool-cases (valid_pfs_component c)) [
  | inr bad ↦
      let refuse : (is_empty c || not (valid_pfs_component c)) ≡ true = ground (arith, bad) in
      rw (refuse, pfs_push_component, bad) refl
  | inl good ↦
      let parts = IsComponent-bytes c good in
      let keep : (is_empty c || not (valid_pfs_component c)) ≡ false =
        ground (arith, good, parts.0) in
      rw (keep, pfs_push_component, good) (push cs all)
]
  where
    first : ltb pfs_name_max (0 + length c) ≡ not (leb (length c) pfs_name_max)
    first = ground arith

    choose :
        (b : Bool) (x y : List ℕ)
        → x ≡ y
        → (if not b then none else some x) ≡ (if b then some y else none)
    choose true x y e = ap some e
    choose false x y e = refl

    push :
        (cs : List (List ℕ))
        → AreComponents cs
        → elim (with_separator (path_of cs)) [
          | none ↦ none
          | some separated ↦
              if ltb pfs_name_max (length separated + length c) then none else some (separated ++ c)
        ]
          ≡ (if room c cs then some (path_of (c ∷ cs)) else none)
    push [] all = rw first (choose (leb (length c) pfs_name_max) c c refl)
    push (c' ∷ cs) all =
        rw (with_separator-not_empty (path_of (c' ∷ cs)) (path_of-not_empty c' cs all.0))
          (behind (path_of (c' ∷ cs)))
      where
        behind :
            (xs : List ℕ)
            → elim (if leb pfs_name_max (length xs) then none else some (xs ++ slash ∷ [])) [
              | none ↦ none
              | some separated ↦
                  if ltb pfs_name_max (length separated + length c)
                  then none
                  else some (separated ++ c)
            ]
              ≡ (if leb (length (xs ++ slash ∷ c)) pfs_name_max
                  then some (xs ++ slash ∷ c)
                  else none)
        behind xs = elim (Bool-cases (leb pfs_name_max (length xs))) [
          | inl full ↦
              let out : leb (length (xs ++ slash ∷ c)) pfs_name_max ≡ false =
                ground (arith, full, length-append xs (slash ∷ c)) in
              rw (full, out) refl
          | inr free ↦
              let same : ltb pfs_name_max (length (xs ++ slash ∷ []) + length c)
                  ≡ not (leb (length (xs ++ slash ∷ c)) pfs_name_max) =
                ground (arith, length-append xs (slash ∷ c), length-append xs (slash ∷ [])) in
              rw (free, same)
                (choose (leb (length (xs ++ slash ∷ c)) pfs_name_max) ((xs ++ slash ∷ []) ++ c)
                  (xs ++ slash ∷ c) (append_assoc xs (slash ∷ []) c))
        ]
