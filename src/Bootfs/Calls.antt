-- ===== src/Bootfs/Calls.antt =====
-- kernel/src/main.rs: `abi_file_size` and `abi_file_read` one after the other.
use rymos.Prelude.{
  false, ◌<◌, ◌==◌, ◌||◌, ℕ, ◌≤◌, ◌≡◌, refl, sym, ap, ◌∙◌, inl, inr, none, some, List, [], ◌∷◌,
  arith, Option-cases, either_if, length, take, min, ltb, ◌^◌, ◌-◌, length-read_slice,
}
use rymos.Prelude.Int.{pos, negsuc, as_isize}
use rymos.Bootfs.{
  checked_app_slice, checked_data, BootFs, BootFsEntry, find_data, find_entry, entry_data, size_of,
  copied, abi_file_size, abi_file_read,
}
use rymos.Bootfs.Search.{data_of, find_data-find_entry}

as_isize-pos : (n size : ℕ) → as_isize n ≡ pos size → n ≡ size
as_isize-pos n size e =
    either_if (λ z. z ≡ pos size → n ≡ size) (ltb n (2 ^ 63)) (pos n) (negsuc (2 ^ 64 - 1 - n))
      (λ c r. cc r) (λ c r. absurd (cc r)) e

take_all : (xs : List ℕ) → take (length xs) xs ≡ xs
take_all [] = refl
take_all (x ∷ xs) = ap (◌∷◌ x) (take_all xs)

-- The buffer is large enough for the bytes.
copied_all :
    (n size : ℕ) (bytes : List ℕ)
    → as_isize (length bytes) ≡ pos size
    → size ≤ n
    → copied n (some bytes) ≡ (pos size, bytes)
copied_all n size bytes is large =
    let len : min n (length bytes) ≡ length bytes =
      omega (arith, as_isize-pos (length bytes) size is, large) in
    ap (λ k. (as_isize k, take k bytes)) len
    ∙ ap (λ z. (z, take (length bytes) bytes)) is
    ∙ ap (λ bs. (pos size, bs)) (take_all bytes)

found-all :
    (fs : BootFs) (path : List ℕ) (size n : ℕ)
    → size_of (find_data fs path) ≡ pos size
    → size ≤ n
    → (e : BootFsEntry) × (find_entry fs path ≡ some e)
      × (e.data_len ≡ size)
      × (copied n (find_data fs path) ≡ (pos size, entry_data fs e))
found-all fs path size n is large = elim (Option-cases (find_entry fs path)) [
  | inl none_such ↦
      let missing : find_data fs path ≡ none =
        find_data-find_entry fs path ∙ ap (data_of fs) none_such in
      absurd (cc (is, ap size_of missing))
  | inr (e, found) ↦
      let there : find_data fs path ≡ some (entry_data fs e) =
        find_data-find_entry fs path ∙ ap (data_of fs) found in
      let long : as_isize (length (entry_data fs e)) ≡ pos size = sym (ap size_of there) ∙ is in
      (
        e,
        found,
        sym (length-read_slice fs.bytes e.data_offset e.data_len)
            ∙ as_isize-pos (length (entry_data fs e)) size long,
        ap (copied n) there ∙ copied_all n size (entry_data fs e) long large,
      )
]

pub checked_app_slice-short :
    (path : List ℕ) → 0 < length path → length path ≤ 128 → checked_app_slice path ≡ some path
unfolding checked_app_slice
checked_app_slice-short path some_bytes short =
    let passes : (length path == 0 || ltb 128 (length path)) ≡ false =
      ground (arith, some_bytes, short) in
    rw passes refl

checked_app_slice-same : (path path' : List ℕ) → checked_app_slice path ≡ some path' → path' ≡ path
unfolding checked_app_slice
checked_app_slice-same path path' e =
    either_if (λ o. o ≡ some path' → path' ≡ path) (length path == 0 || ltb 128 (length path)) none
      (some path) (λ c r. absurd (cc r)) (λ c r. let same : path ≡ path' = cc r in sym same) e

-- A program that asks for the size of a file and then reads it into a buffer of at least that many
-- bytes gets the data of the entry that `find_entry` returns, all of it, and its length.
pub abi_file_read-all :
    (fs : BootFs) (path : List ℕ) (size n : ℕ)
    → abi_file_size fs path ≡ pos size
    → size ≤ n
    → (e : BootFsEntry) × (find_entry fs path ≡ some e)
      × (e.data_len ≡ size)
      × (abi_file_read fs path n ≡ (pos size, entry_data fs e))
unfolding abi_file_size abi_file_read
abi_file_read-all fs path size n is large = elim (Option-cases (checked_app_slice path)) [
  | inl bad ↦ absurd (cc (sym is ∙ ap (λ o. size_of (checked_data fs o)) bad))
  | inr (path', checked) ↦
      let read : checked_data fs (checked_app_slice path) ≡ find_data fs path =
        ap (checked_data fs) checked
        ∙ ap (find_data fs) (checked_app_slice-same path path' checked) in
      let (e, found, len, copy) = found-all fs path size n (sym (ap size_of read) ∙ is) large in
      (e, found, len, ap (copied n) read ∙ copy)
]
