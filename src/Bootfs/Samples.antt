-- ===== src/Bootfs/Samples.antt =====
-- An archive for the tests.
use rymos.Prelude.{ℕ, List, [], ◌∷◌, ◌++◌, write_slice}
use rymos.Bootfs.{BootFs, bootfs_magic}

abbrev pub a : List ℕ
a = b'a' ∷ []

-- One entry of 42 bytes, the file `a` with its two bytes of data behind it.
abbrev head : List ℕ
head = bootfs_magic ++ (1 ∷ 0 ∷ 42 ∷ 0 ∷ 1 ∷ 1 ∷ 54 ∷ 0 ∷ 0 ∷ 0 ∷ 2 ∷ 0 ∷ 0 ∷ 0 ∷ b'a' ∷ [])

abbrev pub image : BootFs
image = record {
  base = 1048576;
  size = 56;
  bytes = write_slice (write_slice (λ _. 0) 0 head) 54 (b'h' ∷ b'i' ∷ []);
}
