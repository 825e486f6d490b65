-- ===== src/Ramfs/Commands.antt =====
-- kernel/src/main.rs: the commands on `RamFs` as changes of what is under a name.
use rymos.Prelude.{
  ℕ, ◌+◌, ◌≤◌, ◌≡◌, refl, ap, subst, ◌∙◌, ◌⊎◌, inl, inr, Bool, true, false, Option, none, some,
  List, ◌++◌, arith, either_branch, ltb, length, update, if◌then◌else◌,
}
use rymos.Ramfs.{
  RamFs, Message, done, invalid_name, is_full, too_large, not_found, is_a_directory,
  not_a_directory, too_long, file_data_max, valid_name, find, empty_entry, touch_raw, touched,
  touch, write, same_kind, remove_at, remove, append_at, append, copy_at, copy,
}
use rymos.Ramfs.Entries.{
  IsUnique, content, content_at, find-Named, Stored, replaced-Stored, cleared-Stored,
}
use rymos.Ramfs.Writing.{Keeps, Touched, Wrote, touch_raw-Touched, write_raw-Wrote}

pub data Command : Type 0 where
  touches : List ℕ → Bool → Command
  writes : List ℕ → List ℕ → Command
  removes : List ℕ → Bool → Command
  appends : List ℕ → List ℕ → Command
  copies : List ℕ → List ℕ → Command

unfoldable pub run_command : RamFs → Command → RamFs × Message
run_command fs (touches name is_dir) = touch fs name is_dir
run_command fs (writes name text) = write fs name text
run_command fs (removes name dir) = remove fs name dir
run_command fs (appends name text) = append fs name text
run_command fs (copies src dst) = copy fs src dst

-- What a command that reports success has done.
abbrev pub Effect : RamFs → Command → RamFs → Type 0
Effect fs (touches name is_dir) fs' =
    (bytes : List ℕ) × Keeps fs name bytes × Stored fs name (some (is_dir, bytes)) fs'
Effect fs (writes name text) fs' = Wrote fs name text fs'
Effect fs (removes name dir) fs' =
    (bytes : List ℕ) × (content fs name ≡ some (dir, bytes)) × Stored fs name none fs'
Effect fs (appends name text) fs' =
    ((content fs name ≡ none) × Wrote fs name text fs')
    ⊎ ((bytes : List ℕ) × (content fs name ≡ some (false, bytes))
        × (length bytes + length text ≤ file_data_max)
        × Stored fs name (some (false, bytes ++ text)) fs')
Effect fs (copies src dst) fs' =
    (bytes : List ℕ) × (content fs src ≡ some (false, bytes)) × Wrote fs dst bytes fs'

abbrev is_done : Message → Bool
is_done done = true
is_done invalid_name = false
is_done is_full = false
is_done too_large = false
is_done not_found = false
is_done is_a_directory = false
is_done not_a_directory = false
is_done too_long = false

-- Any other message leaves the table as it is.
abbrev pub Ran : RamFs → Command → RamFs × Message → Type 0
Ran fs c (fs', m) = ((m ≡ done) × Effect fs c fs') ⊎ ((is_done m ≡ false) × (fs' ≡ fs))

write-Ran :
    (fs : RamFs) (name text : List ℕ) → IsUnique fs → Ran fs (writes name text) (write fs name text)
unfolding write
write-Ran fs name text unique =
    either_branch (Ran fs (writes name text)) (valid_name name) _ _
      (λ e.
        either_branch (Ran fs (writes name text)) (ltb file_data_max (length text)) _ _
          (λ e'. inr (refl, refl)) (λ e'. inl (refl, write_raw-Wrote fs name text unique)))
      (λ e. inr (refl, refl))

touched-Ran :
    (fs : RamFs) (name : List ℕ) (is_dir : Bool) (r : RamFs × Bool)
    → Touched fs name is_dir r
    → Ran fs (touches name is_dir) (touched r)
touched-Ran fs name is_dir (fs', true) t = inl (refl, t)
touched-Ran fs name is_dir (fs', false) t = inr (refl, t.1)

touch-Ran :
    (fs : RamFs) (name : List ℕ) (is_dir : Bool)
    → IsUnique fs
    → Ran fs (touches name is_dir) (touch fs name is_dir)
unfolding touch
touch-Ran fs name is_dir unique =
    either_branch (Ran fs (touches name is_dir)) (valid_name name) _ _
      (λ e.
        touched-Ran fs name is_dir (touch_raw fs name is_dir)
          (touch_raw-Touched fs name is_dir unique))
      (λ e. inr (refl, refl))

same_kind-eq : (a b : Bool) → same_kind a b ≡ true → a ≡ b
same_kind-eq true true e = refl
same_kind-eq true false e = absurd (cc e)
same_kind-eq false true e = absurd (cc e)
same_kind-eq false false e = refl

kind_message : (dir : Bool) → is_done (if dir then not_a_directory else is_a_directory) ≡ false
kind_message true = refl
kind_message false = refl

found-content :
    (fs : RamFs) (name : List ℕ) (i : ℕ)
    → find fs name ≡ some i
    → content fs name ≡ some ((fs i).is_dir, (fs i).data_bytes)
found-content fs name i e = ap (content_at fs) e

remove_at-Ran :
    (fs : RamFs) (name : List ℕ) (dir : Bool) (o : Option ℕ)
    → IsUnique fs
    → find fs name ≡ o
    → Ran fs (removes name dir) (remove_at fs dir o)
remove_at-Ran fs name dir none unique e = inr (refl, refl)
remove_at-Ran fs name dir (some i) unique e =
    either_branch (Ran fs (removes name dir)) (same_kind (fs i).is_dir dir) _ _
      (λ same. inl (
        refl,
        (
          (fs i).data_bytes,
          found-content fs name i e
              ∙ ap (λ b. some (b, (fs i).data_bytes)) (same_kind-eq (fs i).is_dir dir same),
          cleared-Stored fs name i empty_entry unique (find-Named fs name i e) refl,
        ),
      ))
      (λ other. inr (kind_message dir, refl))

append_at-Ran :
    (fs : RamFs) (name text : List ℕ) (o : Option ℕ)
    → IsUnique fs
    → find fs name ≡ o
    → Ran fs (appends name text) (append_at fs name text o)
append_at-Ran fs name text none unique e =
    missing (write fs name text) (write-Ran fs name text unique)
  where
    missing : (r : RamFs × Message) → Ran fs (writes name text) r → Ran fs (appends name text) r
    missing (fs', m) (inl (is, wrote)) = inl (is, inl (ap (content_at fs) e, wrote))
    missing (fs', m) (inr other) = inr other
append_at-Ran fs name text (some i) unique e =
    either_branch (Ran fs (appends name text)) (fs i).is_dir _ _ (λ dir. inr (refl, refl))
      (λ file.
        either_branch (Ran fs (appends name text))
          (ltb file_data_max (length (fs i).data_bytes + length text)) _ _
          (λ large. inr (refl, refl))
          (λ fits.
            let n = find-Named fs name i e in
            inl (
              refl,
              inr (
                (fs i).data_bytes,
                found-content fs name i e ∙ ap (λ b. some (b, (fs i).data_bytes)) file,
                ground (arith, fits),
                subst
                    (λ b.
                      Stored fs name (some (b, (fs i).data_bytes ++ text))
                        (update fs i (record (fs i) { data_bytes = (fs i).data_bytes ++ text })))
                    file (replaced-Stored fs name i _ unique n n.1 n.2),
              ),
            )))

copy_at-Ran :
    (fs : RamFs) (src dst : List ℕ) (o : Option ℕ)
    → IsUnique fs
    → find fs src ≡ o
    → Ran fs (copies src dst) (copy_at fs dst o)
copy_at-Ran fs src dst none unique e = inr (refl, refl)
copy_at-Ran fs src dst (some i) unique e =
    either_branch (Ran fs (copies src dst)) (fs i).is_dir _ _ (λ dir. inr (refl, refl))
      (λ file. inl (
        refl,
        (
          (fs i).data_bytes,
          found-content fs src i e ∙ ap (λ b. some (b, (fs i).data_bytes)) file,
          write_raw-Wrote fs dst (fs i).data_bytes unique,
        ),
      ))

-- In a table in which no two entries have the same name, a command that reports success has done what
-- its name says, under one name: touched it as a file or a directory with the bytes it had, written, removed, extended or
-- copied. Every other name holds what it held, and no two entries have the same name after it. Only a
-- write into a full table reports success and changes nothing; any other message comes with no change.
pub run_command-Ran : (fs : RamFs) (c : Command) → IsUnique fs → Ran fs c (run_command fs c)
unfolding run_command remove append copy
run_command-Ran fs (touches name is_dir) unique = touch-Ran fs name is_dir unique
run_command-Ran fs (writes name text) unique = write-Ran fs name text unique
run_command-Ran fs (removes name dir) unique = remove_at-Ran fs name dir (find fs name) unique refl
run_command-Ran fs (appends name text) unique =
    either_branch (Ran fs (appends name text)) (valid_name name) _ _
      (λ e. append_at-Ran fs name text (find fs name) unique refl) (λ e. inr (refl, refl))
run_command-Ran fs (copies src dst) unique =
    either_branch (Ran fs (copies src dst)) (valid_name dst) _ _
      (λ e. copy_at-Ran fs src dst (find fs src) unique refl) (λ e. inr (refl, refl))
