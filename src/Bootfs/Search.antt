-- ===== src/Bootfs/Search.antt =====
-- kernel/src/main.rs: what `BootFs::entry`, `find_entry` and `find_data` return.
use rymos.Prelude.{
  ℕ, zero, suc, ◌+◌, ◌≤◌, ◌<◌, ◌≡◌, refl, sym, ap, subst, ◌∙◌, true, false, not, ◌||◌, Option, none,
  some, List, inl, inr, arith, Bool-cases, either_if, ltb, bytes_eq, bytes_eq→eq, bytes_eq_self,
  if◌then◌else◌, ◌*◌, ◌⊎◌,
}
use native.Mathlib.Decide.{ℕ_discrete}
use rymos.Bootfs.{
  BootFs, BootFsEntry, valid, entry_count, entry_size, entry_at, entry, entry_name, entry_data,
  read_le32, data_round, data_from, find_data, entry_round, entry_from, find_entry,
}

-- The name and the data of an entry lie in the archive.
pub record IsInside (fs : BootFs) (e : BootFsEntry) : Type 0 where
  pub name_inside : e.name + e.name_len ≤ fs.size
  pub name_short : e.name_len ≤ 32
  pub data_inside : e.data_offset + e.data_len ≤ fs.size

entry_at-IsInside :
    (fs : BootFs) (offset : ℕ) (e : BootFsEntry)
    → offset + 42 ≤ fs.size
    → entry_at fs offset ≡ some e
    → IsInside fs e
entry_at-IsInside fs offset e fits found =
    let name_len = fs.bytes (offset + 1) in
    let data_offset = read_le32 fs (offset + 2) in
    let data_len = read_le32 fs (offset + 6) in
    let made : BootFsEntry = record {
      kind = fs.bytes offset;
      name = offset + 10;
      name_len = name_len;
      data_offset = data_offset;
      data_len = data_len;
    } in
    either_if (λ r. r ≡ some e → IsInside fs e)
      (ltb 32 name_len || ltb fs.size (data_offset + data_len)) none (some made)
      (λ c r. absurd (cc r))
      (λ c r.
        let short : name_len ≤ 32 = ground (arith, c) in
        let inside : data_offset + data_len ≤ fs.size = ground (arith, c) in
        let same : made ≡ e = cc r in
        subst (IsInside fs) same (record {
          name_inside = omega (arith, short, fits);
          name_short = short;
          data_inside = inside;
        }))
      found

pub entry-IsInside :
    (fs : BootFs) (index : ℕ) (e : BootFsEntry) → entry fs index ≡ some e → IsInside fs e
unfolding entry
entry-IsInside fs index e found =
    let offset = 12 + index * entry_size fs in
    either_if (λ r. r ≡ some e → IsInside fs e) (ltb (entry_size fs) 42) none
      (if ltb fs.size (offset + 42) then none else entry_at fs offset) (λ c r. absurd (cc r))
      (λ c.
        either_if (λ r. r ≡ some e → IsInside fs e) (ltb fs.size (offset + 42)) none
          (entry_at fs offset) (λ c' r. absurd (cc r))
          (λ c' r. entry_at-IsInside fs offset e (ground (arith, c')) r))
      found

-- An entry of that name is at the index.
abbrev pub NamedAt : BootFs → List ℕ → ℕ → BootFsEntry → Type 0
NamedAt fs name index e = (entry fs index ≡ some e) × (entry_name fs e ≡ name)

-- The first of the indices from `index` on, `n` of them, with an entry of that name.
pub record IsFirstNamed (fs : BootFs) (name : List ℕ) (n index : ℕ) (e : BootFsEntry) : Type 0 where
  pub at : ℕ
  pub from : index ≤ at
  pub below : at < index + n
  pub named : NamedAt fs name at e
  pub before : (j : ℕ) (e' : BootFsEntry) → index ≤ j → j < at → ¬ NamedAt fs name j e'

abbrev pub Found : BootFs → List ℕ → ℕ → ℕ → Option BootFsEntry → Type 0
Found fs name n index none =
    (j : ℕ) (e : BootFsEntry) → index ≤ j → j < index + n → ¬ NamedAt fs name j e
Found fs name n index (some e) = IsFirstNamed fs name n index e

unnamed :
    (fs : BootFs) (name : List ℕ) (index : ℕ) (e : BootFsEntry)
    → entry fs index ≡ some e
    → bytes_eq (entry_name fs e) name ≡ false
    → (e' : BootFsEntry) → ¬ NamedAt fs name index e'
unnamed fs name index e at other e' (at', same) =
    let here : e ≡ e' = cc (at, at') in cc (other, here, same, bytes_eq_self name)

-- One more round before those from the next index on.
later :
    (fs : BootFs) (name : List ℕ) (n index : ℕ) (o : Option BootFsEntry)
    → ((e : BootFsEntry) → ¬ NamedAt fs name index e)
    → Found fs name n (suc index) o
    → Found fs name (suc n) index o
later fs name n index none miss rest = λ j e low high. elim (ℕ_discrete index j) [
  | yes at ↦ λ named. miss e (subst (λ j. NamedAt fs name j e) (sym at) named)
  | no apart ↦ rest j e (omega (arith, low, apart)) (omega (arith, high))
]
later fs name n index (some e) miss rest = record {
  at = rest.at;
  from = omega (arith, rest.from);
  below = omega (arith, rest.below);
  named = rest.named;
  before = λ j e' low high. elim (ℕ_discrete index j) [
    | yes here ↦ λ named. miss e' (subst (λ j. NamedAt fs name j e') (sym here) named)
    | no apart ↦ rest.before j e' (omega (arith, low, apart)) high
  ];
}

round-Found :
    (fs : BootFs) (name : List ℕ) (n index : ℕ) (o rest : Option BootFsEntry)
    → entry fs index ≡ o
    → Found fs name n (suc index) rest
    → Found fs name (suc n) index (entry_round fs name o rest)
round-Found fs name n index none rest at found =
    later fs name n index rest (λ e named. absurd (cc (at, named.0))) found
round-Found fs name n index (some e) rest at found =
    either_if (Found fs name (suc n) index) (bytes_eq (entry_name fs e) name) (some e) rest
      (λ same. record {
        at = index;
        from = omega arith;
        below = omega arith;
        named = (at, bytes_eq→eq (entry_name fs e) name same);
        before = λ j e' low high. absurd (omega (arith, low, high));
      })
      (λ other. later fs name n index rest (unnamed fs name index e at other) found)

entry_from-Found :
    (fs : BootFs) (name : List ℕ) (n index : ℕ) → Found fs name n index (entry_from fs name n index)
unfolding entry_from
entry_from-Found fs name zero index = λ j e low high. absurd (omega (arith, low, high))
entry_from-Found fs name (suc n) index =
    round-Found fs name n index (entry fs index) (entry_from fs name n (suc index)) refl
      (entry_from-Found fs name n (suc index))

-- What `find_entry` returns.
abbrev pub Search : BootFs → List ℕ → Option BootFsEntry → Type 0
Search fs name none = (valid fs ≡ false) ⊎ Found fs name (entry_count fs) 0 none
Search fs name (some e) =
    (valid fs ≡ true) × IsFirstNamed fs name (entry_count fs) 0 e × IsInside fs e

search :
    (fs : BootFs) (name : List ℕ) (o : Option BootFsEntry)
    → valid fs ≡ true
    → Found fs name (entry_count fs) 0 o
    → Search fs name o
search fs name none good found = inr found
search fs name (some e) good found = (good, found, entry-IsInside fs found.at e found.named.0)

-- `find_entry` returns the first entry of the archive that has the name, if the archive is valid and
-- there is one; the name and the data of the entry lie in the archive, and its name has at most 32
-- bytes. Otherwise it returns none.
pub find_entry-Search : (fs : BootFs) (name : List ℕ) → Search fs name (find_entry fs name)
unfolding find_entry
find_entry-Search fs name =
    either_if (Search fs name) (not (valid fs)) none (entry_from fs name (entry_count fs) 0)
      (λ bad. inl (ground (arith, bad)))
      (λ good.
        search fs name (entry_from fs name (entry_count fs) 0) (ground (arith, good))
          (entry_from-Found fs name (entry_count fs) 0))

-- The data of the entry that is found.
abbrev pub data_of : BootFs → Option BootFsEntry → Option (List ℕ)
data_of fs none = none
data_of fs (some e) = some (entry_data fs e)

round-data :
    (fs : BootFs) (name : List ℕ) (o rest : Option BootFsEntry)
    → data_round fs name o (data_of fs rest) ≡ data_of fs (entry_round fs name o rest)
round-data fs name none rest = refl
round-data fs name (some e) rest = elim (Bool-cases (bytes_eq (entry_name fs e) name)) [
  | inl same ↦ rw same refl
  | inr other ↦ rw other refl
]

from-data :
    (fs : BootFs) (name : List ℕ) (n index : ℕ)
    → data_from fs name n index ≡ data_of fs (entry_from fs name n index)
unfolding data_from entry_from
from-data fs name zero index = refl
from-data fs name (suc n) index =
    ap (data_round fs name (entry fs index)) (from-data fs name n (suc index))
    ∙ round-data fs name (entry fs index) (entry_from fs name n (suc index))

-- `find_data`, a loop of its own, returns the data of the entry that `find_entry` returns, and none
-- where that returns none.
pub find_data-find_entry :
    (fs : BootFs) (name : List ℕ) → find_data fs name ≡ data_of fs (find_entry fs name)
unfolding find_data find_entry
find_data-find_entry fs name = elim (Bool-cases (valid fs)) [
  | inl good ↦ rw good (from-data fs name (entry_count fs) 0)
  | inr bad ↦ rw bad refl
]
