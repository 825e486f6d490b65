-- ===== src/Pfs/Paths/Valid.antt =====
-- kernel/src/main.rs: `valid_pfs_path` on the bytes of a stack of components.
use rymos.Prelude.{
  ℕ, ◌≤◌, ◌<◌, ◌≡◌, refl, sym, ap, ◌∙◌, Bool, true, false, ◌||◌, List, [], ◌∷◌, ◌++◌, arith, ◌==◌,
  ltb, length,
}
use rymos.Pfs.Header.{pfs_name_max}
use rymos.Pfs.Directory.{slash, is_name_byte, valid_from, valid_pfs_path}
use rymos.Pfs.Paths.{all_name_bytes, is_empty}
use rymos.Pfs.Paths.Stack.{
  path_of, AreComponents, IsComponent-bytes, append_assoc, append-nil, name_not_slash,
  path_of-not_empty,
}

valid_from-byte :
    (b : ℕ) (bs : List ℕ) (last : Bool)
    → is_name_byte b ≡ true
    → valid_from last (b ∷ bs) ≡ valid_from false bs
unfolding valid_from
valid_from-byte b bs last name =
    let other : (b == slash) ≡ false = ground (arith, name_not_slash b name) in
    rw (other, name) refl

-- The bytes of a component, as the loop of `valid_pfs_path` reads them.
valid_from-name :
    (c ys : List ℕ) (last : Bool)
    → all_name_bytes c ≡ true
    → is_empty c ≡ false
    → valid_from last (c ++ ys) ≡ valid_from false ys
unfolding all_name_bytes
valid_from-name [] ys last names e = absurd (cc e)
valid_from-name (b ∷ []) ys last names e = valid_from-byte b ys last (ground (arith, names))
valid_from-name (b ∷ b' ∷ bs) ys last names e =
    valid_from-byte b ((b' ∷ bs) ++ ys) last (ground (arith, names))
    ∙ valid_from-name (b' ∷ bs) ys false (ground (arith, names)) refl

valid_from-path_of :
    (c : List ℕ) (cs : List (List ℕ)) (ys : List ℕ)
    → AreComponents (c ∷ cs)
    → valid_from false (path_of (c ∷ cs) ++ ys) ≡ valid_from false ys
unfolding valid_from
valid_from-path_of c [] ys all =
    let parts = IsComponent-bytes c all.0 in valid_from-name c ys false parts.1 parts.0
valid_from-path_of c (c' ∷ cs) ys all =
    let parts = IsComponent-bytes c all.0 in
    ap (valid_from false) (append_assoc (path_of (c' ∷ cs)) (slash ∷ c) ys)
    ∙ valid_from-path_of c' cs (slash ∷ c ++ ys) all.1
    ∙ after_slash (c ++ ys)
    ∙ valid_from-name c ys true parts.1 parts.0
  where
    after_slash : (bs : List ℕ) → valid_from false (slash ∷ bs) ≡ valid_from true bs
    after_slash bs = refl

-- A stack of valid components that fits is the path of an entry.
pub valid_pfs_path-path_of :
    (c : List ℕ) (cs : List (List ℕ))
    → AreComponents (c ∷ cs) × (length (path_of (c ∷ cs)) ≤ pfs_name_max)
    → valid_pfs_path (path_of (c ∷ cs)) ≡ true
unfolding valid_pfs_path valid_from
valid_pfs_path-path_of c cs good =
    let fits : (length (path_of (c ∷ cs)) == 0 || ltb pfs_name_max (length (path_of (c ∷ cs))))
        ≡ false =
      ground (arith, good.1, positive (path_of (c ∷ cs)) (path_of-not_empty c cs good.0.0)) in
    rw fits (
      ap (valid_from false) (sym (append-nil (path_of (c ∷ cs))))
      ∙ valid_from-path_of c cs [] good.0
      ∙ ended)
  where
    positive : (xs : List ℕ) → is_empty xs ≡ false → 0 < length xs
    positive [] e = absurd (cc e)
    positive (x ∷ xs) e = omega arith

    ended : valid_from false [] ≡ true
    ended = refl
