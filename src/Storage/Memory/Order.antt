-- ===== src/Storage/Memory/Order.antt =====
-- Listings in which no two directories have the same creation time: what they hold determines the
-- order of their ids, whatever algorithm has sorted them.
use native.Mathlib.Decide.{dec_lt}
use fertilesoil.Base.{
  ℕ, ◌≤◌, ◌<◌, ◌≡◌, refl, sym, ◌∙◌, Bool, ◌&&◌, List, [], ◌∷◌, ◌==◌, map, arith, count, count_mono,
  select, SameItems, count-select, Bool-cases, inl, inr, ==_self,
}
use fertilesoil.Api.{DirectoryId, Directory}
use fertilesoil.Storage.Memory.Listing.{IsSorted}

abbrev has_time : ℕ → Directory → Bool
has_time t d = d.created_at.instant == t

-- The directory has this creation time and this id.
abbrev has_key : ℕ → DirectoryId → Directory → Bool
has_key t i d = d.created_at.instant == t && d.id == i

-- No creation time stands twice.
abbrev pub DistinctTimes : List Directory → Type 0
DistinctTimes ds = (t : ℕ) → count (λ (d : Directory). d.created_at.instant == t) ds ≤ 1

key-time-le :
    (t : ℕ) (i : DirectoryId) (ds : List Directory) → count (has_key t i) ds ≤ count (has_time t) ds
key-time-le t i ds = count_mono (has_key t i) (has_time t) ds (λ d h. ground arith)

-- Nothing is older than the first of a sorted list.
older_absent :
    (t : ℕ) (d : Directory) (ds : List Directory)
    → IsSorted (d ∷ ds)
    → t < d.created_at.instant
    → count (has_time t) (d ∷ ds) ≡ 0
older_absent t d [] sorted older = ground arith
older_absent t d (e ∷ ds) (le, sorted) older =
    ground (arith, older_absent t e ds sorted (omega arith))

IsSorted-tail : (d : Directory) (ds : List Directory) → IsSorted (d ∷ ds) → IsSorted ds
IsSorted-tail d [] sorted = tt
IsSorted-tail d (e ∷ ds) (le, sorted) = sorted

DistinctTimes-tail :
    (d : Directory) (ds : List Directory) → DistinctTimes (d ∷ ds) → DistinctTimes ds
DistinctTimes-tail d ds once t = ground (arith, once t)

abbrev SameKeys : List Directory → List Directory → Type 0
SameKeys xs ys = (t : ℕ) (i : DirectoryId) → count (has_key t i) xs ≡ count (has_key t i) ys

-- The first of one list is no older than the first of the other.
first-le :
    (x y : Directory) (xs ys : List Directory)
    → IsSorted (y ∷ ys)
    → SameKeys (x ∷ xs) (y ∷ ys)
    → y.created_at.instant ≤ x.created_at.instant
first-le x y xs ys sorted same = elim (dec_lt x.created_at.instant y.created_at.instant) [
  | no le ↦ omega arith
  | yes older ↦
      let t = x.created_at.instant in
      absurd (
        ground (
          arith,
          same t x.id,
          ==_self t,
          ==_self x.id,
          key-time-le t x.id (y ∷ ys),
          older_absent t y ys sorted older,
        ))
]

first_id :
    (x y : Directory) (xs ys : List Directory)
    → x.created_at.instant ≡ y.created_at.instant
    → DistinctTimes (y ∷ ys)
    → SameKeys (x ∷ xs) (y ∷ ys)
    → x.id ≡ y.id
first_id x y xs ys at_once once same = elim (Bool-cases (y.id == x.id)) [
  | inl equal ↦ ground arith
  | inr differ ↦
      let t = x.created_at.instant in
      absurd (
        ground (
          arith,
          same t x.id,
          once t,
          ==_self t,
          ==_self x.id,
          ==_self y.created_at.instant,
          key-time-le t x.id ys,
        ))
]

-- Two sorted listings of the same directories, with creation times that differ, have the same ids in
-- the same order.
pub sorted_ids :
    (xs ys : List Directory)
    → IsSorted xs
    → IsSorted ys
    → DistinctTimes ys
    → SameKeys xs ys
    → map (λ (d : Directory). d.id) xs ≡ map (λ (d : Directory). d.id) ys
sorted_ids [] [] sx sy once same = refl
sorted_ids [] (y ∷ ys) sx sy once same =
    absurd
      (ground (arith, same y.created_at.instant y.id, ==_self y.created_at.instant, ==_self y.id))
sorted_ids (x ∷ xs) [] sx sy once same =
    absurd
      (ground (arith, same x.created_at.instant x.id, ==_self x.created_at.instant, ==_self x.id))
sorted_ids (x ∷ xs) (y ∷ ys) sx sy once same =
    let at_once : x.created_at.instant ≡ y.created_at.instant =
      omega (arith, first-le x y xs ys sy same, first-le y x ys xs sx (λ t i. sym (same t i))) in
    let same_id : x.id ≡ y.id = first_id x y xs ys at_once once same in
    let rest =
      sorted_ids xs ys (IsSorted-tail x xs sx) (IsSorted-tail y ys sy)
        (DistinctTimes-tail y ys once) (λ t i. ground (arith, same t i)) in
    λ k. same_id k ∷ rest k

-- Two sorted lists with the items of a third that has no creation time twice.
pub sorted_as :
    (xs ys zs : List Directory)
    → IsSorted xs
    → IsSorted ys
    → SameItems xs zs
    → SameItems ys zs
    → DistinctTimes zs
    → map (λ (d : Directory). d.id) xs ≡ map (λ (d : Directory). d.id) ys
sorted_as xs ys zs sx sy like_x like_y once =
    sorted_ids xs ys sx sy (λ t. omega (arith, once t, like_y (has_time t)))
      (λ t i. like_x (has_key t i) ∙ sym (like_y (has_key t i)))

-- The items that pass a test are the same in lists with the same items.
pub select-SameItems :
    (test : Directory → Bool) (xs ys : List Directory)
    → SameItems xs ys
    → SameItems (select test xs) (select test ys)
select-SameItems test xs ys same p =
    count-select p test xs ∙ same (λ d. p d && test d) ∙ sym (count-select p test ys)
