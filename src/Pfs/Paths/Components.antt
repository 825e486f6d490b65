-- ===== src/Pfs/Paths/Components.antt =====
-- kernel/src/main.rs: the iterator `PfsComponents`.
use rymos.Prelude.{
  ℕ, zero, suc, ◌≤◌, ◌≡◌, refl, sym, ap, subst, ◌∙◌, false, List, [], ◌∷◌, ◌++◌, arith, ◌==◌,
  if◌then◌else◌, length, Bool-cases, inl, inr,
}
use rymos.Pfs.Directory.{slash}
use rymos.Pfs.Paths.{is_empty, skip_slashes, until_slash, from_slash, components_from, components}

-- The bytes that are no slash.
abbrev pub without_slashes : List ℕ → List ℕ
without_slashes [] = []
without_slashes (b ∷ bs) = if b == slash then without_slashes bs else b ∷ without_slashes bs

abbrev pub joined : List (List ℕ) → List ℕ
joined [] = []
joined (c ∷ cs) = c ++ joined cs

-- Parts that have bytes, none of them a slash.
abbrev pub ArePieces : List (List ℕ) → Type 0
ArePieces [] = Unit {0}
ArePieces (c ∷ cs) = (is_empty c ≡ false) × (without_slashes c ≡ c) × ArePieces cs

-- The end, or a slash.
abbrev pub Bounded : List ℕ → Type 0
Bounded [] = Unit {0}
Bounded (b ∷ bs) = b ≡ slash

-- A path is cut at its slashes: each part is a longest run of bytes that are no slash.
pub data Splits : List ℕ → List (List ℕ) → Type 0 where
  at_end : Splits [] []
  at_slash : {bs : List ℕ} {cs : List (List ℕ)} → Splits bs cs → Splits (slash ∷ bs) cs
  piece :
      (c rest : List ℕ) {cs : List (List ℕ)}
      → is_empty c ≡ false
      → without_slashes c ≡ c
      → Bounded rest
      → Splits rest cs
      → Splits (c ++ rest) (c ∷ cs)

skip_slashes-Splits :
    (bs : List ℕ) (cs : List (List ℕ)) → Splits (skip_slashes bs) cs → Splits bs cs
unfolding skip_slashes
skip_slashes-Splits [] cs s = s
skip_slashes-Splits (b ∷ bs) cs s = elim (Bool-cases (b == slash)) [
  | inl hit ↦
      let at : slash ≡ b = ground (arith, hit) in
      subst (λ b. Splits (b ∷ bs) cs) at (at_slash (skip_slashes-Splits bs cs (rw hit at s)))
  | inr miss ↦ rw miss at s
]

until_from : (bs : List ℕ) → until_slash bs ++ from_slash bs ≡ bs
unfolding until_slash from_slash
until_from [] = refl
until_from (b ∷ bs) = elim (Bool-cases (b == slash)) [
  | inl hit ↦ rw hit refl
  | inr miss ↦ rw miss (ap (◌∷◌ b) (until_from bs))
]

from_slash-Bounded : (bs : List ℕ) → Bounded (from_slash bs)
unfolding from_slash
from_slash-Bounded [] = tt
from_slash-Bounded (b ∷ bs) = elim (Bool-cases (b == slash)) [
  | inl hit ↦ rw hit (let at : b ≡ slash = ground (arith, hit) in at)
  | inr miss ↦ rw miss (from_slash-Bounded bs)
]

-- What is left after the slashes that come first.
record Skipped (bs rest : List ℕ) : Type 0 where
  same : without_slashes rest ≡ without_slashes bs
  shorter : length rest ≤ length bs

skip_slashes-Skipped : (bs : List ℕ) → Skipped bs (skip_slashes bs)
unfolding skip_slashes
skip_slashes-Skipped [] = record { same = refl; shorter = omega arith }
skip_slashes-Skipped (b ∷ bs) = elim (Bool-cases (b == slash)) [
  | inl hit ↦
      let rest = skip_slashes-Skipped bs in
      rw hit (record { same = rw hit (rest.same); shorter = omega (arith, rest.shorter) })
  | inr miss ↦ rw miss (record { same = refl; shorter = omega arith })
]

skip_slashes-head :
    (bs : List ℕ) (b : ℕ) (rest : List ℕ) → skip_slashes bs ≡ b ∷ rest → (b == slash) ≡ false
unfolding skip_slashes
skip_slashes-head [] b rest e = absurd (cc e)
skip_slashes-head (b' ∷ bs) b rest e = elim (Bool-cases (b' == slash)) [
  | inl hit ↦ skip_slashes-head bs b rest (rw hit at e)
  | inr miss ↦
      let same : b' ∷ bs ≡ b ∷ rest = rw miss at e in
      let head : b' ≡ b = cc same in subst (λ b. (b == slash) ≡ false) head miss
]

until_slash-pieces : (bs : List ℕ) → without_slashes (until_slash bs) ≡ until_slash bs
unfolding until_slash
until_slash-pieces [] = refl
until_slash-pieces (b ∷ bs) = elim (Bool-cases (b == slash)) [
  | inl hit ↦ rw hit refl
  | inr miss ↦ rw miss (rw miss (ap (◌∷◌ b) (until_slash-pieces bs)))
]

split_at_slash :
    (bs : List ℕ) → until_slash bs ++ without_slashes (from_slash bs) ≡ without_slashes bs
unfolding until_slash from_slash
split_at_slash [] = refl
split_at_slash (b ∷ bs) = elim (Bool-cases (b == slash)) [
  | inl hit ↦ rw hit (rw hit refl)
  | inr miss ↦ rw miss (ap (◌∷◌ b) (split_at_slash bs))
]

length-from_slash : (bs : List ℕ) → length (from_slash bs) ≤ length bs
unfolding from_slash
length-from_slash [] = omega arith
length-from_slash (b ∷ bs) = elim (Bool-cases (b == slash)) [
  | inl hit ↦ rw hit (omega arith)
  | inr miss ↦ rw miss (omega (arith, length-from_slash bs))
]

-- The iterator gives what is between the slashes.
abbrev Covers : List ℕ → List (List ℕ) → Type 0
Covers bs cs = (joined cs ≡ without_slashes bs) × Splits bs cs × ArePieces cs

components_from-Covers :
    (fuel : ℕ) (bs : List ℕ) → length bs ≤ fuel → Covers bs (components_from fuel bs)
unfolding components_from until_slash from_slash
components_from-Covers zero [] l = (refl, at_end, tt)
components_from-Covers zero (b ∷ bs) l = absurd (omega arith)
components_from-Covers (suc fuel) bs l =
    next (λ bs' l'. components_from-Covers fuel bs' l') (skip_slashes bs) refl
      (skip_slashes-Skipped bs)
  where
    next :
        ((bs' : List ℕ) → length bs' ≤ fuel → Covers bs' (components_from fuel bs'))
        → (r : List ℕ) → skip_slashes bs ≡ r
        → Skipped bs r
        → Covers bs (elim r [
          | [] ↦ []
          | b ∷ rest ↦ until_slash (b ∷ rest) ∷ components_from fuel (from_slash (b ∷ rest))
        ])
    next again [] e skipped =
        (skipped.same, skip_slashes-Splits bs [] (subst (λ r. Splits r []) (sym e) at_end), tt)
    next again (b ∷ rest) e skipped =
        let miss = skip_slashes-head bs b rest e in
        let short : length (from_slash (b ∷ rest)) ≤ fuel =
          rw miss (omega (arith, length-from_slash rest, skipped.shorter)) in
        let later = again (from_slash (b ∷ rest)) short in
        (
          ap (◌++◌ (until_slash (b ∷ rest))) later.0 ∙ split_at_slash (b ∷ rest) ∙ skipped.same,
          skip_slashes-Splits bs
              (until_slash (b ∷ rest) ∷ components_from fuel (from_slash (b ∷ rest)))
              (subst
                (λ r.
                  Splits r (until_slash (b ∷ rest) ∷ components_from fuel (from_slash (b ∷ rest))))
                (until_from (b ∷ rest) ∙ sym e)
                (piece (until_slash (b ∷ rest)) (from_slash (b ∷ rest)) (rw miss refl)
                  (until_slash-pieces (b ∷ rest)) (from_slash-Bounded (b ∷ rest)) later.1)),
          (rw miss refl, until_slash-pieces (b ∷ rest), later.2),
        )

-- A path is cut at its slashes, and there only: its components are, in order, the longest runs of bytes
-- that are no slash. None of them is empty or has a slash, and together they are all the bytes but the
-- slashes.
pub components-joined :
    (bytes : List ℕ)
    → (joined (components bytes) ≡ without_slashes bytes)
      × Splits bytes (components bytes)
      × ArePieces (components bytes)
components-joined bytes = components_from-Covers (length bytes) bytes (omega arith)
