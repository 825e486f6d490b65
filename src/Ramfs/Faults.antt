-- ===== src/Ramfs/Faults.antt =====
-- kernel/src/main.rs: what `RamFs::write` does in a full table, and `RamFs::move_entry` with the name of
-- another entry.
use rymos.Prelude.{
  ℕ, ◌≤◌, ◌<◌, ◌≡◌, ◌≢◌, refl, sym, subst, true, false, none, some, List, arith, either_branch, ltb,
  length, update, update_self, update_other,
}
use rymos.Ramfs.{
  RamFs, Message, done, file_count, file_data_max, file_name_max, valid_name, find, free_slot,
  touch_raw, write_raw, write, move_entry,
}
use rymos.Ramfs.Entries.{Named, find-Named}

fitting : (name : List ℕ) → valid_name name ≡ true → ltb file_name_max (length name) ≡ false
unfolding valid_name
fitting name valid = ground (arith, valid)

-- A write that finds no room reports success: for a valid name that is not there, a text that is not
-- too long and a table without a free entry, the message is `ok` and the table is as it was.
pub write-full :
    (fs : RamFs) (name text : List ℕ)
    → valid_name name ≡ true
    → length text ≤ file_data_max
    → find fs name ≡ none
    → free_slot fs ≡ none
    → write fs name text ≡ (fs, done)
unfolding write write_raw touch_raw
write-full fs name text valid short missing full =
    let fits : ltb file_data_max (length text) ≡ false = ground (arith, short) in
    rw (valid, fits, missing, full, write) refl

-- Moving an entry to the name of another entry reports success, and then both entries have that name.
pub move_entry-twice :
    (fs : RamFs) (src dst : List ℕ) (i j : ℕ)
    → valid_name dst ≡ true
    → find fs src ≡ some i
    → Named fs dst j
    → i ≢ j
    → let r = move_entry fs src dst in (r.1 ≡ done) × Named r.0 dst i × Named r.0 dst j
unfolding move_entry
move_entry-twice fs src dst i j valid found named ne =
    subst (λ r. (r.1 ≡ done) × Named r.0 dst i × Named r.0 dst j) (sym moved) (refl, first, second)
  where
    after : RamFs
    after = update fs i (record (fs i) { name = dst })

    moved : move_entry fs src dst ≡ (after, done)
    moved =
        let fits : ltb file_name_max (length dst) ≡ false = fitting dst valid in
        rw (valid, found, move_entry)
          (either_branch (λ (r : RamFs × Message). r ≡ (after, done))
            (ltb file_name_max (length dst)) _ _ (λ e. absurd (cc (e, fits))) (λ e. refl))

    first : Named after dst i
    first =
        let (l, used, same) = find-Named fs src i found in
        subst (λ f. (i < file_count) × (f.used ≡ true) × (f.name ≡ dst))
          (sym (update_self fs i (record (fs i) { name = dst }))) (l, used, refl)

    second : Named after dst j
    second =
        subst (λ f. (j < file_count) × (f.used ≡ true) × (f.name ≡ dst))
          (sym (update_other fs i j (record (fs i) { name = dst }) ne)) named
