-- ===== src/Files/Sides.antt =====
-- kernel/src/main.rs: the two sides of a pipe, and the handles that are no end of one.
use rymos.Prelude.{
  ℕ, ◌<◌, ◌≡◌, ◌≢◌, refl, sym, ap, subst, ◌∙◌, ◌⊎◌, inl, inr, true, update, update_self,
  update_other,
}
use native.Mathlib.Decide.{ℕ_discrete}
use rymos.Files.{empty, boot_fs, pfs, Files, AppFd, with_fd, app_fd_count}
use rymos.Files.Ends.{Side, reader, writer, side_kind, IsEnd, HasEnds}

abbrev pub other : Side → Side
other reader = writer
other writer = reader

-- Both ends are one side and the other.
pub side-cases : (a b : Side) → (b ≡ a) ⊎ (b ≡ other a)
side-cases reader reader = inl refl
side-cases reader writer = inr refl
side-cases writer reader = inr refl
side-cases writer writer = inl refl

pub side_kind-injective : (a b : Side) → side_kind a ≡ side_kind b → a ≡ b
side_kind-injective reader reader e = refl
side_kind-injective reader writer e = absurd (cc e)
side_kind-injective writer reader e = absurd (cc e)
side_kind-injective writer writer e = refl

-- A handle that is no end of a pipe is replaced by one that is none.
module _ (s : Files) (good : HasEnds s) (index : ℕ) (handle : AppFd)
    (before : (side : Side) (p : ℕ) → ¬ IsEnd s side p index)
    (after : (side : Side) → handle.opened ≡ true → handle.kind ≢ side_kind side) where
  s' : Files
  s' = with_fd s index handle

  elsewhere : (i : ℕ) → index ≢ i → s'.fds i ≡ s.fds i
  unfolding s'
  elsewhere i ne = update_other s.fds index i handle ne

  back : (side : Side) (p i : ℕ) → IsEnd s' side p i → IsEnd s side p i
  unfolding s'
  back side p i (l, opened, kind, at) = elim (ℕ_discrete index i) [
    | yes same ↦
        let now : s'.fds i ≡ handle =
          subst (λ i. update s.fds index handle i ≡ handle) same (update_self s.fds index handle) in
        absurd
          (after side (ap (λ f. f.opened) (sym now) ∙ opened) (ap (λ f. f.kind) (sym now) ∙ kind))
    | no ne ↦
        subst
          (λ f.
            (i < app_fd_count) × (f.opened ≡ true) × (f.kind ≡ side_kind side) × (f.pfs_index ≡ p))
          (elsewhere i ne) (l, opened, kind, at)
  ]

  there : (side : Side) (p i : ℕ) → IsEnd s side p i → IsEnd s' side p i
  there side p i is_end = elim (ℕ_discrete index i) [
    | yes same ↦ absurd (before side p (subst (IsEnd s side p) (sym same) is_end))
    | no ne ↦
        subst
          (λ f.
            (i < app_fd_count) × (f.opened ≡ true) × (f.kind ≡ side_kind side) × (f.pfs_index ≡ p))
          (sym (elsewhere i ne)) is_end
  ]

  pub HasEnds-replaced : HasEnds (with_fd s index handle)
  unfolding s'
  HasEnds-replaced = record {
    fits = good.fits;
    ends = λ side p i e. good.ends side p i (back side p i e);
    one = λ side p i j e e'. good.one side p i j (back side p i e) (back side p j e');
    has = λ side p l opened. let (i, e) = good.has side p l opened in (i, there side p i e);
    in_use = good.in_use;
  }

pub empty-no_side : (side : Side) → empty ≢ side_kind side
empty-no_side reader e = cc e
empty-no_side writer e = cc e

pub boot_fs-no_side : (side : Side) → boot_fs ≢ side_kind side
boot_fs-no_side reader e = cc e
boot_fs-no_side writer e = cc e

pub pfs-no_side : (side : Side) → pfs ≢ side_kind side
pfs-no_side reader e = cc e
pfs-no_side writer e = cc e
