-- ===== src/Prelude/Memory.antt =====
-- Byte arrays as tables: slices read, written and filled.
use rymos.Prelude.Tests.{ltb, leb, if◌then◌else◌}
use rymos.Prelude.Tables.{Table, update}
use rymos.Prelude.Bytes.{length}
use Prim.Native.Nat.{ℕ, zero, suc, ◌+◌, ◌≤◌, ◌<◌}
use mathlib.Core.Path.{◌≡◌, refl, ap₂, ◌∙◌}
use mathlib.Core.Bool.{◌&&◌}
use mathlib.Core.Logic.{◌⊎◌}
use mathlib.Core.List.{List, [], ◌∷◌}
use native.Mathlib.Omega.{arith}

-- `array[o..o + bytes.len()].copy_from_slice(bytes)`
unfoldable pub write_slice : Table ℕ → ℕ → List ℕ → Table ℕ
write_slice h o [] = h
write_slice h o (b ∷ bs) = write_slice (update h o b) (suc o) bs

-- `&array[o..o + n]`
unfoldable pub read_slice : Table ℕ → ℕ → ℕ → List ℕ
read_slice h o zero = []
read_slice h o (suc n) = h o ∷ read_slice h (suc o) n

-- `array[o..o + n].fill(v)`
unfoldable pub fill : Table ℕ → ℕ → ℕ → ℕ → Table ℕ
fill h o n v x = if leb o x && ltb x (o + n) then v else h x

pub length-read_slice : (h : Table ℕ) (o n : ℕ) → length (read_slice h o n) ≡ n
unfolding read_slice
length-read_slice h o zero = refl
length-read_slice h o (suc n) = omega (arith, length-read_slice h (suc o) n)

-- A place outside what is written keeps its byte.
abbrev pub Outside : ℕ → ℕ → ℕ → Type 0
Outside o n x = (x < o) ⊎ (o + n ≤ x)

pub update-Outside : (h : Table ℕ) (o v x : ℕ) → Outside o 1 x → update h o v x ≡ h x
update-Outside h o v x out = ground arith

pub fill-Outside : (h : Table ℕ) (o n v x : ℕ) → Outside o n x → fill h o n v x ≡ h x
unfolding fill
fill-Outside h o n v x out = ground arith

pub write_slice-Outside :
    (h : Table ℕ) (o : ℕ) (bs : List ℕ) (x : ℕ)
    → Outside o (length bs) x
    → write_slice h o bs x ≡ h x
unfolding write_slice
write_slice-Outside h o [] x out = refl
write_slice-Outside h o (b ∷ bs) x out =
    write_slice-Outside (update h o b) (suc o) bs x (omega arith)
    ∙ update-Outside h o b x (omega arith)

-- Two tables with the same bytes in a range have the same slices there.
pub read_slice-eq :
    (h h' : Table ℕ) (o n : ℕ)
    → ((x : ℕ) → o ≤ x → x < o + n → h x ≡ h' x)
    → read_slice h o n ≡ read_slice h' o n
unfolding read_slice
read_slice-eq h h' o zero same = refl
read_slice-eq h h' o (suc n) same =
    ap₂ ◌∷◌ (same o (omega arith) (omega arith))
      (read_slice-eq h h' (suc o) n λ x low high. same x (omega arith) (omega arith))

-- What is written is read back.
pub read_slice-write_slice :
    (h : Table ℕ) (o n : ℕ) (bs : List ℕ) → length bs ≡ n → read_slice (write_slice h o bs) o n ≡ bs
unfolding write_slice read_slice
read_slice-write_slice h o zero [] e = refl
read_slice-write_slice h o (suc n) [] e = absurd (omega arith)
read_slice-write_slice h o zero (b ∷ bs) e = absurd (omega arith)
read_slice-write_slice h o (suc n) (b ∷ bs) e =
    ap₂ ◌∷◌ (write_slice-Outside (update h o b) (suc o) bs o (omega arith) ∙ ground arith)
      (read_slice-write_slice (update h o b) (suc o) n bs (omega arith))
