-- ===== src/Files/Redirect.antt =====
-- kernel/src/main.rs: `abi_dup2` and `app_resolve_fd`.
use rymos.Prelude.{
  ℕ, zero, suc, ◌≡◌, ◌<◌, refl, sym, ap, ◌∙◌, inl, inr, ◌++◌, not, true, false, List, arith,
  Bool-cases, ◌==◌, ltb, update, update_self, if◌then◌else◌, length,
}
use rymos.Prelude.Int.{ℤ, pos, negsuc, as_isize}
use rymos.Process.{StdFds}
use rymos.Scheduler.{current_process}
use rymos.Scheduler.Calls.{clear_app_error}
use rymos.Files.{Files, std_fd, set_std_fd, app_resolve_fd, app_fd_open, app_fd_base}
use rymos.Files.Calls.{write_resolved, abi_write_fd}
use rymos.Files.Control.{clear, with_std, same_fd, abi_dup2}

stds : Files → StdFds
stds s = (current_process s.kernel).std_fds

-- The standard descriptors after a change that is followed by `clear_app_error`.
stds-changed : (s : Files) (f : StdFds → StdFds) → stds (clear (with_std s f)) ≡ f (stds s)
unfolding stds clear_app_error
stds-changed s f =
    ap (λ p. p.std_fds)
      (update_self
        (update ((s.kernel).slots) ((s.kernel).current_index)
          (record (current_process s.kernel) { std_fds = f (stds s) }))
        ((s.kernel).current_index) _)
    ∙ ap (λ p. p.std_fds)
        (update_self ((s.kernel).slots) ((s.kernel).current_index)
          (record (current_process s.kernel) { std_fds = f (stds s) }))

std_fd-set_std_fd :
    (std : StdFds) (m n : ℕ) (fd : ℤ)
    → m < app_fd_base
    → n < app_fd_base
    → std_fd (set_std_fd std m fd) n ≡ (if n == m then fd else std_fd std n)
std_fd-set_std_fd std zero zero fd l l' = refl
std_fd-set_std_fd std zero (suc zero) fd l l' = refl
std_fd-set_std_fd std zero (suc (suc zero)) fd l l' = refl
std_fd-set_std_fd std (suc zero) zero fd l l' = refl
std_fd-set_std_fd std (suc zero) (suc zero) fd l l' = refl
std_fd-set_std_fd std (suc zero) (suc (suc zero)) fd l l' = refl
std_fd-set_std_fd std (suc (suc zero)) zero fd l l' = refl
std_fd-set_std_fd std (suc (suc zero)) (suc zero) fd l l' = refl
std_fd-set_std_fd std (suc (suc zero)) (suc (suc zero)) fd l l' = refl
std_fd-set_std_fd std m (suc (suc (suc n))) fd l l' = absurd (omega (arith, l'))
std_fd-set_std_fd std (suc (suc (suc m))) n fd l l' = absurd (omega (arith, l))

app_resolve_fd-stds :
    (s : Files) (n : ℕ) → n < app_fd_base → app_resolve_fd s.kernel (pos n) ≡ std_fd (stds s) n
unfolding app_resolve_fd stds
app_resolve_fd-stds s n l = elim (Bool-cases (ltb n app_fd_base)) [
  | inl e ↦ rw e refl
  | inr e ↦ absurd (ground (arith, e, l))
]

-- What a standard descriptor resolves to after one of them was set.
set-resolves :
    (s : Files) (m n : ℕ) (fd : ℤ)
    → m < app_fd_base
    → n < app_fd_base
    → app_resolve_fd ((clear (with_std s (λ std. set_std_fd std m fd))).kernel) (pos n)
      ≡ (if n == m then fd else app_resolve_fd s.kernel (pos n))
set-resolves s m n fd l l' =
    app_resolve_fd-stds (clear (with_std s (λ std. set_std_fd std m fd))) n l'
    ∙ ap (λ std. std_fd std n) (stds-changed s (λ std. set_std_fd std m fd))
    ∙ std_fd-set_std_fd (stds s) m n fd l l'
    ∙ ap (λ other. if n == m then fd else other) (sym (app_resolve_fd-stds s n l'))

same_fd-eq : (a b : ℤ) → same_fd a b ≡ true → a ≡ b
same_fd-eq (pos m) (pos n) e = ap pos (ground (arith, e))
same_fd-eq (pos m) (negsuc n) e = absurd (cc e)
same_fd-eq (negsuc m) (pos n) e = absurd (cc e)
same_fd-eq (negsuc m) (negsuc n) e = ap negsuc (ground (arith, e))

-- `dup2` of an open descriptor onto a standard one returns that one, which from then on resolves to
-- the descriptor that was given; the other standard descriptors resolve to what they did.
pub abi_dup2-resolves :
    (s : Files) (old_fd : ℤ) (m n : ℕ)
    → m < app_fd_base
    → n < app_fd_base
    → app_fd_open s.fds old_fd ≡ true
    → ((abi_dup2 old_fd (pos m) s).1 ≡ pos m)
      × (app_resolve_fd (((abi_dup2 old_fd (pos m) s).0).kernel) (pos n)
          ≡ (if n == m then old_fd else app_resolve_fd s.kernel (pos n)))
unfolding abi_dup2
abi_dup2-resolves s old_fd m n l l' opened = elim (Bool-cases (not (ltb m app_fd_base))) [
  | inl e ↦ absurd (ground (arith, e, l))
  | inr e ↦ elim (Bool-cases (same_fd old_fd (pos m))) [
    | inl e' ↦
        rw (e, e')
          (
            refl,
            set-resolves s m n (pos m) l l'
                ∙ ap (λ fd. if n == m then fd else app_resolve_fd s.kernel (pos n))
                    (sym (same_fd-eq old_fd (pos m) e')),
          )
    | inr e' ↦ rw (e, e', opened) (refl, set-resolves s m n old_fd l l')
  ]
]

open_one : (s : Files) → app_fd_open s.fds (pos 1) ≡ true
unfolding app_fd_open
open_one s = refl

-- A redirection is not followed: after `dup2` of the standard output onto the standard error, what is
-- written to the standard error goes to the console, wherever the standard output was redirected to.
pub abi_dup2-not_followed :
    (s : Files) (bytes : List ℕ) (now : ℕ)
    → let s' = (abi_dup2 (pos 1) (pos 2) s).0 in
      abi_write_fd false (pos 2) bytes now s'
      ≡ (record s' { console = s'.console ++ bytes }, as_isize (length bytes))
unfolding abi_write_fd
abi_dup2-not_followed s bytes now =
    ap (λ fd. write_resolved false fd bytes now (abi_dup2 (pos 1) (pos 2) s).0) resolved
  where
    resolved : app_resolve_fd (((abi_dup2 (pos 1) (pos 2) s).0).kernel) (pos 2) ≡ pos 1
    resolved = (abi_dup2-resolves s (pos 1) 2 2 (omega arith) (omega arith) (open_one s)).1
