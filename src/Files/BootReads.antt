-- ===== src/Files/BootReads.antt =====
-- kernel/src/main.rs: `abi_open` and `abi_read` on a file of the archive of the boot loader.
use rymos.Prelude.{
  ◌≤◌, ℕ, zero, suc, ◌+◌, ◌-◌, ◌<◌, ◌≡◌, refl, sym, ap, ap₂, subst, ◌∙◌, ◌==◌, ltb, not, inl, inr,
  true, false, none, some, List, [], ◌∷◌, ◌++◌, arith, Option-cases, length, take, drop, get_or,
  min, read_slice, starts_with, update_self, first_from, first_from-IsFirst, first_from-none,
  either_branch, ◌^◌,
}
use rymos.Prelude.Int.{ℤ, pos, as_isize}
use rymos.Scheduler.{Kernel, current_process}
use rymos.Pfs.Paths.{pfs_prefix, pfs_resolve_path}
use rymos.Bootfs.Calls.{checked_app_slice-short}
use rymos.Bootfs.{BootFs, find_data}
use rymos.Files.{Files, AppFd, app_fd_count, app_fd_index, app_resolve_fd, fd_write, has_flag}
use rymos.Files.Calls.{
  ReadResult, advanced, read_file, read_handle, handle_at, read_resolved, abi_read,
}
use rymos.Files.Control.{is_closed}
use rymos.Files.Open.{open_handle}
use rymos.Files.Boot.{boot_fd, open_path, abi_open}

abbrev byte_of : List ℕ → ℕ → ℕ
byte_of bs i = get_or bs i 0

take_nil : (n : ℕ) → take {A = ℕ} n [] ≡ []
take_nil zero = refl
take_nil (suc n) = refl

drop_nil : (n : ℕ) → drop {A = ℕ} n [] ≡ []
drop_nil zero = refl
drop_nil (suc n) = refl

slice_tail :
    (b : ℕ) (bs : List ℕ) (o n : ℕ)
    → read_slice (byte_of (b ∷ bs)) (suc o) n ≡ read_slice (byte_of bs) o n
unfolding read_slice
slice_tail b bs o zero = refl
slice_tail b bs o (suc n) = ap (◌∷◌ (byte_of bs o)) (slice_tail b bs (suc o) n)

slice_start :
    (bs : List ℕ) (n k : ℕ) → k ≡ min n (length bs) → read_slice (byte_of bs) 0 k ≡ take n bs
unfolding read_slice
slice_start [] n zero e = sym (take_nil n)
slice_start [] n (suc k) e = absurd (omega (arith, e))
slice_start (b ∷ bs) zero zero e = refl
slice_start (b ∷ bs) zero (suc k) e = absurd (omega (arith, e))
slice_start (b ∷ bs) (suc n) zero e = absurd (omega (arith, e))
slice_start (b ∷ bs) (suc n) (suc k) e =
    ap (◌∷◌ b) (slice_tail b bs 0 k ∙ slice_start bs n k (omega (arith, e)))

-- What is read at an offset.
slice_at :
    (bs : List ℕ) (o n k : ℕ)
    → k ≡ min n (length bs - o)
    → read_slice (byte_of bs) o k ≡ take n (drop o bs)
unfolding read_slice
slice_at bs zero n k e = slice_start bs n k (omega (arith, e))
slice_at [] (suc o) n zero e = sym (take_nil n)
slice_at [] (suc o) n (suc k) e = absurd (omega (arith, e))
slice_at (b ∷ bs) (suc o) n k e = slice_tail b bs o k ∙ slice_at bs o n k (omega (arith, e))

-- What is left after it.
left_at :
    (bs : List ℕ) (o n o' : ℕ) → o' ≡ o + min n (length bs - o) → drop o' bs ≡ drop n (drop o bs)
left_at [] o n o' e = drop_nil o' ∙ sym (ap (drop n) (drop_nil o) ∙ drop_nil n)
left_at (b ∷ bs) zero zero zero e = refl
left_at (b ∷ bs) zero zero (suc o') e = absurd (omega (arith, e))
left_at (b ∷ bs) zero (suc n) zero e = absurd (omega (arith, e))
left_at (b ∷ bs) zero (suc n) (suc o') e = left_at bs zero n o' (omega (arith, e))
left_at (b ∷ bs) (suc o) n zero e = absurd (omega (arith, e))
left_at (b ∷ bs) (suc o) n (suc o') e = left_at bs o n o' (omega (arith, e))

take_add : (n m : ℕ) (xs : List ℕ) → take n xs ++ take m (drop n xs) ≡ take (n + m) xs
take_add zero m xs = let same : m ≡ 0 + m = omega arith in ap (λ k. take k xs) same
take_add (suc n) m [] = take_nil m ∙ sym (take_nil (suc n + m))
take_add (suc n) m (x ∷ xs) =
    let next : suc (n + m) ≡ suc n + m = omega arith in
    ap (◌∷◌ x) (take_add n m xs) ∙ ap (λ k. take k (x ∷ xs)) next

-- The handle with some bytes read.
abbrev handle_after : List ℕ → ℕ → AppFd
handle_after bs o = record (boot_fd bs) { offset = o }

resolved : (k : Kernel) (i : ℕ) → app_resolve_fd k (pos (i + 3)) ≡ pos (i + 3)
unfolding app_resolve_fd
resolved k i = let high : ltb (i + 3) 3 ≡ false = ground arith in rw high refl

index_of : (i : ℕ) → i < app_fd_count → app_fd_index (pos (i + 3)) ≡ some i
unfolding app_fd_index
index_of i l =
    let high : ltb (i + 3) 3 ≡ false = ground arith in
    let same : i + 3 - 3 ≡ i = omega arith in
    let low : ltb i 32 ≡ true = ground (arith, l) in rw (high, same, low) refl

read-handle :
    (i n : ℕ) (s : Files)
    → i < app_fd_count
    → abi_read false [] (pos (i + 3)) n s ≡ read_handle s (s.fds i) n (some i)
unfolding abi_read
read-handle i n s l =
    let index = app_fd_index (pos (i + 3)) in
    ap (read_resolved false [] n s) (resolved s.kernel i)
    ∙ either_branch (λ r. r ≡ read_handle s (s.fds i) n (some i)) (i + 3 == 0) (s, [], as_isize 0)
        (read_handle s (handle_at s index) n index) (λ zero_fd. absurd (ground (arith, zero_fd)))
        (λ other. ap (λ o. read_handle s (handle_at s o) n o) (index_of i l))

-- A read returns what stands at the offset, and moves the offset behind it.
abbrev Reads : List ℕ → ℕ → ℕ → ℕ → ReadResult → Type 0
Reads bs i o n r =
    (r.1 ≡ take n (drop o bs)) × ((r.0).fds i ≡ handle_after bs (o + min n (length bs - o)))

read_file-Reads :
    (i n o : ℕ) (bs : List ℕ) (s : Files)
    → s.fds i ≡ handle_after bs o
    → Reads bs i o n (read_file s i (handle_after bs o) n)
unfolding read_slice
read_file-Reads i n o bs s at =
    let k = min n (length bs - o) in
    either_branch (Reads bs i o n) (k == 0) (s, [], pos 0)
      (advanced s i (handle_after bs o) k, read_slice (byte_of bs) o k, as_isize k)
      (λ none_left.
        let zero_left : k ≡ 0 = ground (arith, none_left) in
        (slice_at bs o n 0 (sym zero_left), at ∙ ap (handle_after bs) (omega (arith, zero_left))))
      (λ some_left. (slice_at bs o n k refl, update_self s.fds i _))

abi_read-Reads :
    (i n o : ℕ) (bs : List ℕ) (s : Files)
    → i < app_fd_count
    → s.fds i ≡ handle_after bs o
    → Reads bs i o n (abi_read false [] (pos (i + 3)) n s)
abi_read-Reads i n o bs s l at =
    subst (Reads bs i o n) (sym (read-handle i n s l ∙ ap (λ h. read_handle s h n (some i)) at))
      (read_file-Reads i n o bs s at)

-- What a program reads that reads as often, up to so many bytes each time.
abbrev pub read_all : List ℕ → ℤ → Files → List ℕ
read_all [] fd s = []
read_all (n ∷ ns) fd s = let r = abi_read false [] fd n s in r.1 ++ read_all ns fd r.0

abbrev pub sum : List ℕ → ℕ
sum [] = 0
sum (n ∷ ns) = n + sum ns

read_all-eq :
    (ns : List ℕ) (i o : ℕ) (bs : List ℕ) (s : Files)
    → i < app_fd_count
    → s.fds i ≡ handle_after bs o
    → read_all ns (pos (i + 3)) s ≡ take (sum ns) (drop o bs)
read_all-eq [] i o bs s l at = refl
read_all-eq (n ∷ ns) i o bs s l at =
    let r = abi_read-Reads i n o bs s l at in
    ap₂ ◌++◌ r.0 (
      read_all-eq ns i (o + min n (length bs - o)) bs _ l r.1
      ∙ ap (take (sum ns)) (left_at bs o n (o + min n (length bs - o)) refl))
    ∙ take_add n (sum ns) (drop o bs)

-- The first closed place gets the handle, and its number is the result.
open_handle-free :
    (s : Files) (handle : AppFd) (free : ℕ)
    → free < app_fd_count
    → (s.fds free).opened ≡ false
    → (i : ℕ) × (i < app_fd_count)
      × ((open_handle s handle).1 ≡ pos (i + 3))
      × ((open_handle s handle).0.fds i ≡ handle)
unfolding open_handle
open_handle-free s handle free l shut =
    elim (Option-cases (first_from app_fd_count 0 (is_closed s))) [
      | inl e ↦ absurd (
          cc (
            first_from-none app_fd_count 0 (is_closed s) free e (omega arith) (omega (arith, l)),
            ap not shut,
          ))
      | inr (i, e) ↦
          let f = first_from-IsFirst app_fd_count 0 (is_closed s) i e in
          let below : i < app_fd_count = omega (arith, f.below) in
          let small : ltb (i + 3) (2 ^ 31) ≡ true = ground (arith, below) in
          (i, below, rw (e, small) refl, rw e (update_self s.fds i handle))
    ]

-- A program opens a file of the archive for reading, where its path has from 1 to 128 bytes and is none
-- of RYMFS5, the archive has the file and a handle is closed: the call returns a descriptor. However many reads on it follow, and
-- however many bytes each asks for, the bytes they return are one after the other the first bytes of
-- the file, as many as they ask for together, or all of them if the file has fewer.
pub abi_open-read_all :
    (archive : BootFs) (path : List ℕ) (flags now now' now'' : ℕ) (s : Files) (bs : List ℕ)
    (free : ℕ) (ns : List ℕ)
    → 0 < length path
    → length path ≤ 128
    → pfs_resolve_path (current_process s.kernel).cwd path ≡ none
    → starts_with path pfs_prefix ≡ false
    → has_flag flags fd_write ≡ false
    → find_data archive path ≡ some bs
    → free < app_fd_count
    → (s.fds free).opened ≡ false
    → let r = abi_open archive path flags now now' now'' s in
      (fd : ℕ) × (r.1 ≡ pos fd) × (read_all ns (pos fd) r.0 ≡ take (sum ns) bs)
unfolding abi_open
abi_open-read_all archive path flags now now' now'' s bs free ns some_bytes short resolve prefix
      mode found l shut =
    let (i, below, is, at) = open_handle-free s (boot_fd bs) free l shut in
    rw (checked_app_slice-short path some_bytes short, resolve, prefix, mode, found, open_path)
      (i + 3, is, read_all-eq ns i 0 bs _ below at)
