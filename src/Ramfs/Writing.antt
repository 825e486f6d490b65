-- ===== src/Ramfs/Writing.antt =====
-- kernel/src/main.rs: `touch_raw` and `write_raw` as changes of what is under a name.
use rymos.Prelude.{
  ℕ, ◌≡◌, refl, sym, ap, ◌∙◌, ◌⊎◌, inl, inr, not, Bool, true, false, Option, none, some, List,
  arith, update, first_from-IsFirst,
}
use rymos.Ramfs.{
  RamFs, file_count, find, free_slot, touch_at, touch_raw, unwrap_or_zero, write_touched, write_raw,
}
use rymos.Ramfs.Entries.{
  IsUnique, content, content_at, find-Named, Stored, replaced-Stored, taken-Stored,
}

-- The name is not there, and no entry is free for it.
abbrev pub IsFull : RamFs → List ℕ → Type 0
IsFull fs name = (find fs name ≡ none) × (free_slot fs ≡ none)

-- The bytes are those that the name had, if it was there.
abbrev pub Keeps : RamFs → List ℕ → List ℕ → Type 0
Keeps fs name bytes =
    (is_dir : Bool) (old : List ℕ) → content fs name ≡ some (is_dir, old) → bytes ≡ old

-- What `touch_raw` does.
abbrev pub Touched : RamFs → List ℕ → Bool → RamFs × Bool → Type 0
Touched fs name is_dir (fs', true) =
    (bytes : List ℕ) × Keeps fs name bytes × Stored fs name (some (is_dir, bytes)) fs'
Touched fs name is_dir (fs', false) = IsFull fs name × (fs' ≡ fs)

touch_at-Touched :
    (fs : RamFs) (name : List ℕ) (is_dir : Bool) (o free : Option ℕ)
    → IsUnique fs
    → find fs name ≡ o
    → free_slot fs ≡ free
    → Touched fs name is_dir (touch_at fs name is_dir o free)
unfolding free_slot
touch_at-Touched fs name is_dir none none unique e e' = ((e, e'), refl)
touch_at-Touched fs name is_dir none (some i) unique e e' =
    let f = first_from-IsFirst file_count 0 (λ i. not (fs i).used) i e' in
    (
      (fs i).data_bytes,
      (λ b old there. absurd (cc (ap (content_at fs) e, there))),
      taken-Stored fs name i _ unique e (omega (arith, f.below)) (ground (arith, f.passes)) refl
          refl,
    )
touch_at-Touched fs name is_dir (some i) free unique e e' =
    let n = find-Named fs name i e in
    (
      (fs i).data_bytes,
      λ b old there. cc (ap (content_at fs) e, there),
      replaced-Stored fs name i _ unique n n.1 n.2,
    )

pub touch_raw-Touched :
    (fs : RamFs) (name : List ℕ) (is_dir : Bool)
    → IsUnique fs
    → Touched fs name is_dir (touch_raw fs name is_dir)
unfolding touch_raw
touch_raw-Touched fs name is_dir unique =
    touch_at-Touched fs name is_dir (find fs name) (free_slot fs) unique refl refl

-- The text is under the name, or there was no room and nothing has changed.
abbrev pub Wrote : RamFs → List ℕ → List ℕ → RamFs → Type 0
Wrote fs name text fs' = Stored fs name (some (false, text)) fs' ⊎ (IsFull fs name × (fs' ≡ fs))

Stored-trans :
    (a b c : RamFs) (name : List ℕ) (x y : Option (Bool × List ℕ))
    → Stored a name x b
    → Stored b name y c
    → Stored a name y c
Stored-trans a b c name x y (u, at, others) (u', at', others') =
    (u', at', λ other ne. others' other ne ∙ others other ne)

write_touched-Wrote :
    (fs : RamFs) (name text : List ℕ) (r : RamFs × Bool)
    → Touched fs name false r
    → Wrote fs name text (write_touched name text r)
write_touched-Wrote fs name text (fs', false) full = inr full
write_touched-Wrote fs name text (fs', true) (bytes, keeps, stored) =
    inl (found (find fs' name) refl)
  where
    found :
        (o : Option ℕ)
        → find fs' name ≡ o
        → Stored fs name (some (false, text)) (
            update fs'
              (unwrap_or_zero o)
              (record (fs' (unwrap_or_zero o)) { is_dir = false; data_bytes = text }))
    found none e = absurd (cc (ap (content_at fs') (sym e), stored.1))
    found (some i) e =
        let n = find-Named fs' name i e in
        Stored-trans fs fs' _ name (some (false, bytes)) (some (false, text)) stored (
          replaced-Stored fs' name i (record (fs' i) { is_dir = false; data_bytes = text }) stored.0
            n n.1 n.2)

pub write_raw-Wrote :
    (fs : RamFs) (name text : List ℕ) → IsUnique fs → Wrote fs name text (write_raw fs name text)
unfolding write_raw
write_raw-Wrote fs name text unique =
    write_touched-Wrote fs name text (touch_raw fs name false)
      (touch_raw-Touched fs name false unique)
