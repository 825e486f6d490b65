-- ===== src/Prelude/Tables.antt =====
-- Fixed-size arrays as functions of the index, and the loops that scan them.
use Prim.Native.Nat.{ℕ, zero, suc, ◌+◌, ◌≤◌, ◌<◌}
use mathlib.Core.Path.{◌≡◌, refl, ap, subst, ◌∙◌}
use mathlib.Core.Logic.{◌≢◌, inl, inr}
use mathlib.Core.Bool.{Bool, true, false}
use mathlib.Core.Option.{Option, none, some}
use native.Mathlib.Omega.{arith}
use native.Mathlib.Decide.{dec_lt}
use rymos.Prelude.Tests.{◌==◌, if◌then◌else◌, Bool-cases, Option-cases}

abbrev pub Table {ℓ} : Type ℓ → Type ℓ
Table A = ℕ → A

-- `table[i] = v`.
abbrev pub update {ℓ} : {A : Type ℓ} → Table A → ℕ → A → Table A
update t i v j = if i == j then v else t j

-- `for index in i..i + n { if test(index) { return Some(index); } } None`
unfoldable pub first_from : ℕ → ℕ → (ℕ → Bool) → Option ℕ
first_from zero i p = none
first_from (suc n) i p = let rest = first_from n (suc i) p in if p i then some i else rest

-- `first_from` stops at a passing index of its range, the first one.
pub record IsFirst (n i : ℕ) (p : ℕ → Bool) (k : ℕ) : Type 0 where
  pub from : i ≤ k
  pub below : k < i + n
  pub passes : p k ≡ true
  pub before : (j : ℕ) → i ≤ j → j < k → p j ≡ false

pub first_from-none :
    (n i : ℕ) (p : ℕ → Bool) (k : ℕ) → first_from n i p ≡ none → i ≤ k → k < i + n → p k ≡ false
unfolding first_from
first_from-none zero i p k e h l = absurd (omega arith)
first_from-none (suc n) i p k e h l = elim (dec_lt i k) [
  | yes after ↦ ground (arith, first_from-none n (suc i) p k)
  | no here ↦ let at : k ≡ i = omega arith in ground (arith, at)
]

pub first_from-IsFirst :
    (n i : ℕ) (p : ℕ → Bool) (k : ℕ) → first_from n i p ≡ some k → IsFirst n i p k
unfolding first_from
first_from-IsFirst zero i p k e = cc
first_from-IsFirst (suc n) i p k e = elim (Bool-cases (p i)) [
  | inl hit ↦
      let at : i ≡ k = ground arith in
      record {
        from = omega arith;
        below = omega arith;
        passes = rw at at hit;
        before = λ j low high. absurd (omega arith);
      }
  | inr miss ↦
      let rest = first_from-IsFirst n (suc i) p k (rw miss at e) in
      record {
        from = omega arith;
        below = omega arith;
        passes = rest.passes;
        before = λ j low high. elim (dec_lt i j) [
          | yes after ↦ rest.before j after high
          | no here ↦ let at : j ≡ i = omega arith in rw at miss
        ];
      }
]

-- A passing index of the range makes the loop return one, at most as large.
pub first_from-some_of :
    (n i : ℕ) (p : ℕ → Bool) (k : ℕ)
    → p k ≡ true
    → i ≤ k
    → k < i + n
    → (j : ℕ) × (first_from n i p ≡ some j) × (j ≤ k)
first_from-some_of n i p k pass h l = elim (Option-cases (first_from n i p)) [
  | inl e ↦ absurd (grind (arith, first_from-none n i p k e h l))
  | inr (j, e) ↦
      let found = first_from-IsFirst n i p j e in
      (
        j,
        e,
        elim (dec_lt k j) [
          | yes early ↦ absurd (grind (arith, found.before k h early))
          | no late ↦ omega arith
        ],
      )
]

pub first_from-eq :
    (n i : ℕ) (p q : ℕ → Bool) → ((j : ℕ) → p j ≡ q j) → first_from n i p ≡ first_from n i q
unfolding first_from
first_from-eq zero i p q same = refl
first_from-eq (suc n) i p q same = rw (same i, first_from-eq n (suc i) p q same) refl

-- The first passing index is what the loop returns.
pub first_from-some : (n i : ℕ) (p : ℕ → Bool) (k : ℕ) → IsFirst n i p k → first_from n i p ≡ some k
first_from-some n i p k first = elim (Option-cases (first_from n i p)) [
  | inl e ↦ absurd (cc (first.passes, first_from-none n i p k e first.from first.below))
  | inr (j, e) ↦
      let found = first_from-IsFirst n i p j e in
      e
      ∙ ap some (elim (dec_lt j k) [
        | yes early ↦ absurd (cc (found.passes, first.before j found.from early))
        | no a ↦ elim (dec_lt k j) [
          | yes late ↦ absurd (cc (first.passes, found.before k first.from late))
          | no b ↦ omega (arith, a, b)
        ]
      ])
]

-- What holds of the new value at its place and of the old values holds of every value.
pub update-all {ℓ ℓ'} :
    {A : Type ℓ} (P : ℕ → A → Type ℓ') (t : Table A) (index : ℕ) (v : A)
    → P index v
    → ((i : ℕ) → index ≢ i → P i (t i))
    → (i : ℕ) → P i (update t index v i)
update-all P t index v here there i = elim (Bool-cases (index == i)) [
  | inl e ↦ let at : index ≡ i = ground (arith, e) in rw e (subst (λ i. P i v) at here)
  | inr e ↦ rw e (there i (ground (arith, e)))
]

pub update_self {ℓ} : {A : Type ℓ} (t : Table A) (index : ℕ) (v : A) → update t index v index ≡ v
update_self t index v = elim (Bool-cases (index == index)) [
  | inl e ↦ rw e refl
  | inr e ↦ absurd (ground (arith, e))
]

pub update_other {ℓ} :
    {A : Type ℓ} (t : Table A) (index i : ℕ) (v : A) → index ≢ i → update t index v i ≡ t i
update_other t index i v ne = elim (Bool-cases (index == i)) [
  | inl e ↦ absurd (ne (ground (arith, e)))
  | inr e ↦ rw e refl
]
