-- ===== src/Ramfs/Tests.antt =====
-- The theorems on the files in memory at concrete tables.
use rymos.Prelude.{ℕ, ◌≡◌, refl, true, false, List, [], ◌∷◌, ◌==◌, arith, if◌then◌else◌}
use rymos.Ramfs.{
  FileEntry, RamFs, done, empty_entry, valid_name, find, free_slot, write, move_entry,
}
use rymos.Ramfs.Entries.{Named, IsUnique}
use rymos.Ramfs.Commands.{appends, run_command, Ran, run_command-Ran}
use rymos.Ramfs.Faults.{write-full, move_entry-twice}

abbrev a : List ℕ
a = b'a' ∷ []

abbrev b : List ℕ
b = b'b' ∷ []

abbrev file : List ℕ → FileEntry
file name = record { used = true; is_dir = false; name = name; data_bytes = b'x' ∷ [] }

-- The file `a` in the third entry.
abbrev one_file : RamFs
one_file i = if i == 2 then file a else empty_entry

-- The file `a` in the third entry and `b` in the sixth.
abbrev two_files : RamFs
two_files i = if i == 2 then file a else if i == 5 then file b else empty_entry

-- The file `a` in the third entry and `b` in every other one.
abbrev full : RamFs
full i = if i == 2 then file a else file b

one_file-IsUnique : IsUnique one_file
one_file-IsUnique name i j (l, u, n) (l', u', n') = ground (arith, u, u')

run_command-Ran_example :
    Ran one_file (appends a (b'y' ∷ [])) (run_command one_file (appends a (b'y' ∷ [])))
run_command-Ran_example = run_command-Ran one_file (appends a (b'y' ∷ [])) one_file-IsUnique

write-full_example : write full (b'c' ∷ []) (b'y' ∷ []) ≡ (full, done)
unfolding valid_name find free_slot rymos.Prelude.first_from
write-full_example = write-full full (b'c' ∷ []) (b'y' ∷ []) refl (omega arith) refl refl

move_entry-twice_example :
    let r = move_entry two_files a b in (r.1 ≡ done) × Named r.0 b 2 × Named r.0 b 5
unfolding valid_name find rymos.Prelude.first_from
move_entry-twice_example =
    move_entry-twice two_files a b 2 5 refl refl (omega arith, refl, refl) (λ e. omega (arith, e))
