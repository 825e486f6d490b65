-- ===== src/Files/Fifo.antt =====
-- kernel/src/main.rs: a pipe's buffer as a queue of bytes.
use rymos.Prelude.{
  ℕ, zero, suc, ◌+◌, ◌-◌, ◌≤◌, ◌≡◌, ◌≢◌, refl, sym, ap, ap₂, subst, ◌∙◌, inl, inr, ◌&&◌, not, min,
  Option, none, some, List, [], ◌∷◌, ◌++◌, arith, Bool-cases, ◌==◌, Table, length, take,
  length-take, read_slice, length-read_slice, write_slice, write_slice-Outside, read_slice-eq,
  read_slice-write_slice,
}
use mathlib.Core.List.{append-nil, append_assoc}
use rymos.Files.{AppPipe, pending, read_pipe, write_pipe, app_pipe_buffer_size}

-- The offsets of a pipe are in order and in its buffer.
abbrev pub IsPipe : AppPipe → Type 0
IsPipe pipe = (pipe.read_offset ≤ pipe.len) × (pipe.len ≤ app_pipe_buffer_size)

-- A slice is cut in two.
pub read_slice-append :
    (t : Table ℕ) (o m n : ℕ) → read_slice t o (m + n) ≡ read_slice t o m ++ read_slice t (o + m) n
unfolding read_slice
read_slice-append t o zero n =
    let same : zero + n ≡ n = omega arith in
    let at : o + zero ≡ o = omega arith in rw (same, at) refl
read_slice-append t o (suc m) n =
    let same : suc m + n ≡ suc (m + n) = omega arith in
    let at : o + suc m ≡ suc o + m = omega arith in
    rw (same, at) (ap (λ bs. t o ∷ bs) (read_slice-append t (suc o) m n))

-- What a write does to the queue: the accepted bytes come at its end. Nothing is accepted only where
-- the buffer is full.
abbrev pub Queued : AppPipe → List ℕ → Option (AppPipe × ℕ) → Type 0
Queued pipe bytes none = (length bytes ≢ 0) × (pipe.len ≡ app_pipe_buffer_size)
Queued pipe bytes (some (pipe', n)) =
    IsPipe pipe'
    × (pending pipe' ≡ pending pipe ++ take n bytes)
    × (n ≡ min (length bytes) (app_pipe_buffer_size - pipe.len))

-- What a read does to the queue: the bytes come from its front, as many as are asked for and there.
abbrev pub Dequeued : AppPipe → ℕ → AppPipe × List ℕ → Type 0
Dequeued pipe n (pipe', bytes) =
    IsPipe pipe'
    × (pending pipe ≡ bytes ++ pending pipe')
    × (length bytes ≡ min n (length (pending pipe)))

stored-pending :
    (pipe : AppPipe) (bs : List ℕ)
    → IsPipe pipe
    → read_slice
        (write_slice pipe.buffer pipe.len bs)
        pipe.read_offset
        (pipe.len + length bs - pipe.read_offset)
      ≡ pending pipe ++ bs
stored-pending pipe bs fits =
    let split : pipe.len + length bs - pipe.read_offset ≡ pipe.len - pipe.read_offset + length bs =
      omega (arith, fits) in
    let at : pipe.read_offset + (pipe.len - pipe.read_offset) ≡ pipe.len = omega (arith, fits) in
    ap (read_slice (write_slice pipe.buffer pipe.len bs) pipe.read_offset) split
    ∙ read_slice-append (write_slice pipe.buffer pipe.len bs) pipe.read_offset
        (pipe.len - pipe.read_offset) (length bs)
    ∙ ap₂ ◌++◌
        (read_slice-eq (write_slice pipe.buffer pipe.len bs) pipe.buffer pipe.read_offset
          (pipe.len - pipe.read_offset)
          (λ x low high.
            write_slice-Outside pipe.buffer pipe.len bs x (inl (omega (arith, high, fits)))))
        (ap (λ o. read_slice (write_slice pipe.buffer pipe.len bs) o (length bs)) at
          ∙ read_slice-write_slice pipe.buffer pipe.len (length bs) bs refl)

pub write_pipe-Queued :
    (pipe : AppPipe) (bytes : List ℕ) → IsPipe pipe → Queued pipe bytes (write_pipe pipe bytes)
unfolding write_pipe
write_pipe-Queued pipe bytes fits = elim (Bool-cases (n == 0 && not (length bytes == 0))) [
  | inl full ↦
      rw (full, write_pipe) ((λ e. absurd (ground (arith, full, e))), ground (arith, full, fits))
  | inr room ↦
      let long : length (take n bytes) ≡ n = length-take n bytes ∙ omega arith in
      rw (room, write_pipe)
        (
          (omega (arith, fits), omega (arith, fits)),
          subst
              (λ m.
                read_slice (write_slice pipe.buffer pipe.len (take n bytes)) pipe.read_offset
                  (pipe.len + m - pipe.read_offset)
                ≡ pending pipe ++ take n bytes)
              long (stored-pending pipe (take n bytes) fits),
          refl,
        )
]
  where
    n : ℕ
    n = min (length bytes) (app_pipe_buffer_size - pipe.len)

pub read_pipe-Dequeued : (pipe : AppPipe) (n : ℕ) → IsPipe pipe → Dequeued pipe n (read_pipe pipe n)
unfolding read_pipe read_slice
read_pipe-Dequeued pipe n fits = elim (Bool-cases (copy == 0)) [
  | inl nothing ↦ rw (nothing, read_pipe) (fits, refl, ground (arith, nothing, there))
  | inr some_bytes ↦ elim (Bool-cases (pipe.read_offset + copy == pipe.len)) [
    | inl all ↦
        let same : copy ≡ pipe.len - pipe.read_offset = ground (arith, all) in
        rw (some_bytes, all, read_pipe)
          (
            (omega arith, omega arith),
            ap (read_slice pipe.buffer pipe.read_offset) (sym same) ∙ sym (append-nil _),
            length-read_slice pipe.buffer pipe.read_offset copy ∙ omega (arith, there),
          )
    | inr part ↦
        rw (some_bytes, part, read_pipe)
          (
            (omega (arith, fits), fits.1),
            ap (read_slice pipe.buffer pipe.read_offset) rest
                ∙ read_slice-append pipe.buffer pipe.read_offset copy
                    (pipe.len - (pipe.read_offset + copy)),
            length-read_slice pipe.buffer pipe.read_offset copy ∙ omega (arith, there),
          )
  ]
]
  where
    copy : ℕ
    copy = min n (pipe.len - pipe.read_offset)

    there : length (pending pipe) ≡ pipe.len - pipe.read_offset
    there = length-read_slice pipe.buffer pipe.read_offset (pipe.len - pipe.read_offset)

    rest : pipe.len - pipe.read_offset ≡ copy + (pipe.len - (pipe.read_offset + copy))
    rest = omega arith

-- A use of a pipe by the processes at its ends.
pub data PipeOp : Type 0 where
  write : List ℕ → PipeOp
  read : ℕ → PipeOp

-- The pipe after its uses, all bytes that the writes have accepted, and all bytes that the reads have
-- returned.
pub record Run : Type 0 where
  pub pipe : AppPipe
  pub accepted : List ℕ
  pub received : List ℕ

abbrev after_write : AppPipe → List ℕ → Option (AppPipe × ℕ) → (AppPipe → Run) → Run
after_write pipe bytes none more = more pipe
after_write pipe bytes (some (pipe', n)) more =
    let r = more pipe' in record r { accepted = take n bytes ++ r.accepted }

abbrev after_read : AppPipe × List ℕ → (AppPipe → Run) → Run
after_read (pipe, bytes) more = let r = more pipe in record r { received = bytes ++ r.received }

unfoldable pub run : List PipeOp → AppPipe → Run
run [] pipe = record { pipe = pipe; accepted = []; received = [] }
run (write bytes ∷ ops) pipe = after_write pipe bytes (write_pipe pipe bytes) (run ops)
run (read n ∷ ops) pipe = after_read (read_pipe pipe n) (run ops)

-- What is in the pipe before and what is accepted is, in order, what is received and what is in the
-- pipe after.
abbrev pub IsFifo : AppPipe → Run → Type 0
IsFifo pipe r = IsPipe r.pipe × (pending pipe ++ r.accepted ≡ r.received ++ pending r.pipe)

module _ (ops : List PipeOp) (more : (pipe : AppPipe) → IsPipe pipe → IsFifo pipe (run ops pipe))
    (pipe : AppPipe) (fits : IsPipe pipe) where
  after_write-IsFifo :
      (bytes : List ℕ) (o : Option (AppPipe × ℕ))
      → Queued pipe bytes o
      → IsFifo pipe (after_write pipe bytes o (run ops))
  after_write-IsFifo bytes none full = more pipe fits
  after_write-IsFifo bytes (some (pipe', n)) (fits', at, count) =
      let (fits'', rest) = more pipe' fits' in
      (
        fits'',
        sym (append_assoc (pending pipe) (take n bytes) ((run ops pipe').accepted))
            ∙ ap (λ bs. bs ++ (run ops pipe').accepted) (sym at)
            ∙ rest,
      )

  after_read-IsFifo :
      (n : ℕ) (r : AppPipe × List ℕ) → Dequeued pipe n r → IsFifo pipe (after_read r (run ops))
  after_read-IsFifo n (pipe', bytes) (fits', at, count) =
      let (fits'', rest) = more pipe' fits' in
      (
        fits'',
        ap (λ bs. bs ++ (run ops pipe').accepted) at
            ∙ append_assoc bytes (pending pipe') ((run ops pipe').accepted)
            ∙ ap (λ bs. bytes ++ bs) rest
            ∙ sym (append_assoc bytes ((run ops pipe').received) (pending ((run ops pipe').pipe))),
      )

-- Writes to a pipe and reads from it, in any order, are those of a queue: the bytes that were in it,
-- followed by those that the writes accepted, are the bytes that the reads returned, followed by those
-- that are left. The offsets stay in order and in the buffer.
pub run-IsFifo : (ops : List PipeOp) (pipe : AppPipe) → IsPipe pipe → IsFifo pipe (run ops pipe)
unfolding run
run-IsFifo [] pipe fits = (fits, append-nil (pending pipe))
run-IsFifo (write bytes ∷ ops) pipe fits =
    after_write-IsFifo ops (run-IsFifo ops) pipe fits bytes (write_pipe pipe bytes)
      (write_pipe-Queued pipe bytes fits)
run-IsFifo (read n ∷ ops) pipe fits =
    after_read-IsFifo ops (run-IsFifo ops) pipe fits n (read_pipe pipe n)
      (read_pipe-Dequeued pipe n fits)
