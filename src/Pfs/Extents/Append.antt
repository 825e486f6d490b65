-- ===== src/Pfs/Extents/Append.antt =====
-- kernel/src/main.rs: one run of `pfs_grow_extents` added to a file's list of extents.
use rymos.Prelude.{
  ℕ, suc, ◌+◌, ◌-◌, ◌≤◌, ◌<◌, ◌%◌, ◌^◌, ◌≡◌, refl, ◌∙◌, ◌⊎◌, inl, inr, true, ◌&&◌, not, none, some,
  List, [], ◌∷◌, arith, Bool-cases, ◌==◌, leb, ltb, length, subst, ap,
}
use native.Mathlib.Decide.{dec_lt}
use rymos.Pfs.Header.{PfsExtent, pfs_max_extents}
use rymos.Pfs.Extents.{
  total_from, lba_from, last_ends_at, extend_last, append_extent, add_run, pfs_disk_sectors,
}
use rymos.Pfs.Extents.Occupied.{Taken, OnDisk}

-- The extents follow one another upwards from the sector `low`, and end on the disk.
abbrev pub Ascends : ℕ → List PfsExtent → Type 0
Ascends low [] = low ≤ pfs_disk_sectors
Ascends low (e ∷ es) = (low ≤ e.start) × Ascends (e.start + e.sectors) es

-- Where the last extent ends.
abbrev pub end_from : ℕ → List PfsExtent → ℕ
end_from low [] = low
end_from low (e ∷ es) = end_from (e.start + e.sectors) es

abbrev pub size_of : List PfsExtent → ℕ
size_of [] = 0
size_of (e ∷ es) = e.sectors + size_of es

pub Ascends-bound :
    (low : ℕ) (es : List PfsExtent) → Ascends low es → low + size_of es ≤ pfs_disk_sectors
Ascends-bound low [] a = omega (arith, a)
Ascends-bound low (e ∷ es) a = omega (arith, a.0, Ascends-bound (e.start + e.sectors) es a.1)

pub Ascends-OnDisk : (low : ℕ) (es : List PfsExtent) → Ascends low es → OnDisk es
Ascends-OnDisk low [] a = tt
Ascends-OnDisk low (e ∷ es) a = (
  omega (arith, Ascends-bound (e.start + e.sectors) es a.1),
  Ascends-OnDisk (e.start + e.sectors) es a.1,
)

pub Ascends-end :
    (low : ℕ) (es : List PfsExtent) → Ascends low es → end_from low es ≤ pfs_disk_sectors
Ascends-end low [] a = a
Ascends-end low (e ∷ es) a = Ascends-end (e.start + e.sectors) es a.1

pub total_from-size_of :
    (t low : ℕ) (es : List PfsExtent) → Ascends low es → t ≤ low → total_from t es ≡ t + size_of es
unfolding total_from
total_from-size_of t low [] a l = omega arith
total_from-size_of t low (e ∷ es) a l =
    let bound = Ascends-bound (e.start + e.sectors) es a.1 in
    let no_wrap : (t + e.sectors) % 2 ^ 32 ≡ t + e.sectors = omega (arith, a.0, bound) in
    rw no_wrap (
      total_from-size_of (t + e.sectors) (e.start + e.sectors) es a.1 (omega (arith, a.0))
      ∙ omega arith)

-- The sectors are after the end of the extents.
Taken-before_end :
    (low : ℕ) (es : List PfsExtent) (s : ℕ) → Ascends low es → Taken es s → s < end_from low es
Taken-before_end low [] s a t = elim t [ ]
Taken-before_end low (e ∷ es) s a (inl here) =
    omega (arith, here.1, end_above (e.start + e.sectors) es a.1)
  where
    end_above : (low : ℕ) (es : List PfsExtent) → Ascends low es → low ≤ end_from low es
    end_above low [] a = omega arith
    end_above low (e ∷ es) a = omega (arith, a.0, end_above (e.start + e.sectors) es a.1)
Taken-before_end low (e ∷ es) s a (inr there) =
    Taken-before_end (e.start + e.sectors) es s a.1 there

-- The run of `n` sectors from `start` on has been added at the end of `es`.
pub record Added (low : ℕ) (es : List PfsExtent) (start n : ℕ) (es' : List PfsExtent) : Type 0 where
  pub ascends : Ascends low es'
  pub ends : end_from low es' ≡ start + n
  pub size : size_of es' ≡ size_of es + n
  pub kept : (s : ℕ) → Taken es s → Taken es' s
  pub gained : (s : ℕ) → Taken es' s → Taken es s ⊎ ((start ≤ s) × (s < start + n))
  pub places : (k : ℕ) → k < size_of es → lba_from es' k ≡ lba_from es k

module _ (start n : ℕ) (on_disk : start + n ≤ pfs_disk_sectors) where
  Added-cons :
      (low : ℕ) (e : PfsExtent) (es es' : List PfsExtent)
      → low ≤ e.start
      → Added (e.start + e.sectors) es start n es'
      → Added low (e ∷ es) start n (e ∷ es')
  unfolding lba_from
  Added-cons low e es es' l added = record {
    ascends = (l, added.ascends);
    ends = added.ends;
    size = omega (arith, added.size);
    kept = λ s. elim [ inl t ↦ inl t | inr t ↦ inr (added.kept s t) ];
    gained = λ s. elim [
      | inl t ↦ inl (inl t)
      | inr t ↦ elim (added.gained s t) [ inl old ↦ inl (inr old) | inr new ↦ inr new ]
    ];
    places = λ k l. elim (Bool-cases (not (e.sectors == 0) && ltb k e.sectors)) [
      | inl here ↦ rw here refl
      | inr there ↦ rw there (added.places (k - e.sectors) (ground (arith, l, there)))
    ];
  }

  append_extent-Added :
      (low : ℕ) (es : List PfsExtent)
      → Ascends low es
      → end_from low es ≤ start
      → Added low es start n (append_extent es (record { start = start; sectors = n }))
  unfolding lba_from
  append_extent-Added low [] a l = record {
    ascends = (l, on_disk);
    ends = refl;
    size = omega arith;
    kept = λ s t. elim t [ ];
    gained = λ s. elim [ inl t ↦ inr t | inr t ↦ elim t [ ] ];
    places = λ k k_l. absurd (omega arith);
  }
  append_extent-Added low (e ∷ es) a l =
      Added-cons low e es (append_extent es (record { start = start; sectors = n })) a.0
        (append_extent-Added (e.start + e.sectors) es a.1 l)

  extend_last-Added :
      (low : ℕ) (es : List PfsExtent)
      → Ascends low es
      → last_ends_at es start ≡ true
      → Added low es start n (extend_last es n)
  unfolding lba_from
  extend_last-Added low [] a h = absurd (cc h)
  extend_last-Added low (e ∷ []) a h =
      let at : start ≡ e.start + e.sectors = ground (arith, h, a.1) in
      let no_wrap : (e.sectors + n) % 2 ^ 32 ≡ e.sectors + n = omega (arith, at) in
      record {
        ascends = rw no_wrap (a.0, omega (arith, at));
        ends = rw no_wrap (omega (arith, at));
        size = rw no_wrap (omega arith);
        kept = λ s. rw no_wrap elim [ inl t ↦ inl (t.0, omega (arith, t.1)) | inr t ↦ elim t [ ] ];
        gained = λ s. rw no_wrap elim [
          | inl t ↦ elim (dec_lt s start) [
            | yes old ↦ inl (inl (t.0, omega (arith, at)))
            | no new ↦ inr (omega (arith, new), omega (arith, at, t.1))
          ]
          | inr t ↦ elim t [ ]
        ];
        places = λ k l. rw no_wrap (ground arith);
      }
  extend_last-Added low (e ∷ e' ∷ es) a h =
      Added-cons low e (e' ∷ es) (extend_last (e' ∷ es) n) a.0
        (extend_last-Added (e.start + e.sectors) (e' ∷ es) a.1 h)

  pub add_run-Added :
      (low : ℕ) (es es' : List PfsExtent)
      → Ascends low es
      → end_from low es ≤ start
      → add_run es start n ≡ some es'
      → Added low es start n es'
  unfolding add_run
  add_run-Added low es es' a l e = elim (Bool-cases (last_ends_at es start)) [
    | inl adjacent ↦
        subst (Added low es start n) (cc (adjacent, e)) (extend_last-Added low es a adjacent)
    | inr apart ↦ elim (Bool-cases (leb pfs_max_extents (length es))) [
      | inl full ↦ absurd (cc (apart, full, e))
      | inr room ↦
          subst (Added low es start n) (cc (apart, room, e)) (append_extent-Added low es a l)
    ]
  ]

abbrev pub HasFew : List PfsExtent → Type 0
HasFew es = length es ≤ pfs_max_extents

pub add_run-HasFew :
    (start n : ℕ) (es es' : List PfsExtent) → HasFew es → add_run es start n ≡ some es' → HasFew es'
unfolding add_run
add_run-HasFew start n es es' few e = elim (Bool-cases (last_ends_at es start)) [
  | inl adjacent ↦
      let same : extend_last es n ≡ es' = cc (adjacent, e) in
      subst HasFew same (omega (arith, few, length-extend_last es))
  | inr apart ↦ elim (Bool-cases (leb pfs_max_extents (length es))) [
    | inl full ↦ absurd (cc (apart, full, e))
    | inr room ↦
        let same : append_extent es (record { start = start; sectors = n }) ≡ es' =
          cc (apart, room, e) in
        subst HasFew same (ground (arith, room, length-append_extent es))
  ]
]
  where
    length-extend_last : (es : List PfsExtent) → length (extend_last es n) ≡ length es
    length-extend_last [] = refl
    length-extend_last (e ∷ []) = refl
    length-extend_last (e ∷ e' ∷ es) = ap suc (length-extend_last (e' ∷ es))

    length-append_extent :
        (es : List PfsExtent)
        → length (append_extent es (record { start = start; sectors = n })) ≡ suc (length es)
    length-append_extent [] = refl
    length-append_extent (e ∷ es) = ap suc (length-append_extent es)

pub add_run-none :
    (start n : ℕ) (es : List PfsExtent) → add_run es start n ≡ none → pfs_max_extents ≤ length es
unfolding add_run
add_run-none start n es e = elim (Bool-cases (last_ends_at es start)) [
  | inl adjacent ↦ absurd (cc (adjacent, e))
  | inr apart ↦ elim (Bool-cases (leb pfs_max_extents (length es))) [
    | inl full ↦ ground (arith, full)
    | inr room ↦ absurd (cc (apart, room, e))
  ]
]
