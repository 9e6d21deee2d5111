-- ===== src/Base/Count.antt =====
-- How often a test holds in a list. Two lists hold the same items when every test holds equally
-- often in both.
use Prim.Native.Nat.{ℕ, zero, suc, ◌+◌, ◌≤◌}
use mathlib.Core.Path.{◌≡◌, refl}
use mathlib.Core.Bool.{Bool, true, false, not, ◌&&◌, ◌||◌}
use mathlib.Core.List.{List, [], ◌∷◌, ◌++◌, reverse, reverse-cons}
use native.Mathlib.Omega.{arith}
use fertilesoil.Base.Tests.{if◌then◌else◌}
use fertilesoil.Base.Lists.{length, take, All}

module _ {A : Type 0} where
  abbrev pub count : (A → Bool) → List A → ℕ
  count p [] = 0
  count p (x ∷ xs) = if p x then suc (count p xs) else count p xs

  -- The elements that pass a test.
  abbrev pub select : (A → Bool) → List A → List A
  select t [] = []
  select t (x ∷ xs) = if t x then x ∷ select t xs else select t xs

  abbrev pub SameItems : List A → List A → Type 0
  SameItems xs ys = (p : A → Bool) → count p xs ≡ count p ys

module _ {A : Type 0} where
  pub count-append : (p : A → Bool) (xs ys : List A) → count p (xs ++ ys) ≡ count p xs + count p ys
  count-append p [] ys = omega arith
  count-append p (x ∷ xs) ys = ground (arith, count-append p xs ys)

  pub count-reverse : (p : A → Bool) (xs : List A) → count p (reverse xs) ≡ count p xs
  count-reverse p [] = refl
  count-reverse p (x ∷ xs) =
      rw (reverse-cons x xs)
        (ground (arith, count-append p (reverse xs) (x ∷ []), count-reverse p xs))

  pub count-select :
      (p t : A → Bool) (xs : List A) → count p (select t xs) ≡ count (λ x. p x && t x) xs
  count-select p t [] = refl
  count-select p t (x ∷ xs) = ground (arith, count-select p t xs)

  pub count-le-length : (p : A → Bool) (xs : List A) → count p xs ≤ length xs
  count-le-length p [] = omega arith
  count-le-length p (x ∷ xs) = ground (arith, count-le-length p xs)

  pub count-all : (xs : List A) → count (λ x. true) xs ≡ length xs
  count-all [] = refl
  count-all (x ∷ xs) = omega (arith, count-all xs)

  pub count_mono :
      (p q : A → Bool) (xs : List A) → ((x : A) → p x ≡ true → q x ≡ true) → count p xs ≤ count q xs
  count_mono p q [] h = omega arith
  count_mono p q (x ∷ xs) h = ground (arith, h x, count_mono p q xs h)

  pub count_ext : (p q : A → Bool) (xs : List A) → ((x : A) → p x ≡ q x) → count p xs ≡ count q xs
  count_ext p q [] h = refl
  count_ext p q (x ∷ xs) h = ground (arith, h x, count_ext p q xs h)

  -- Tests that never hold together count apart.
  pub count_or :
      (p q r : A → Bool) (xs : List A)
      → ((x : A) → r x ≡ (p x || q x))
      → ((x : A) → p x ≡ true → q x ≡ false)
      → count r xs ≡ count p xs + count q xs
  count_or p q r [] h d = omega arith
  count_or p q r (x ∷ xs) h d = ground (arith, h x, d x, count_or p q r xs h d)

  pub length_of_SameItems : (xs ys : List A) → SameItems xs ys → length xs ≡ length ys
  length_of_SameItems xs ys h = omega (arith, h (λ x. true), count-all xs, count-all ys)

  pub count_ext-All :
      (p q : A → Bool) (xs : List A) → All (λ x. p x ≡ q x) xs → count p xs ≡ count q xs
  count_ext-All p q [] h = refl
  count_ext-All p q (x ∷ xs) h = ground (arith, count_ext-All p q xs h.1)

  pub select_ext :
      (p q : A → Bool) (xs : List A) → ((x : A) → p x ≡ q x) → select p xs ≡ select q xs
  select_ext p q [] h = refl
  select_ext p q (x ∷ xs) h = rw (h x, select_ext p q xs h) refl

  pub select_ext-All :
      (p q : A → Bool) (xs : List A) → All (λ x. p x ≡ q x) xs → select p xs ≡ select q xs
  select_ext-All p q [] h = refl
  select_ext-All p q (x ∷ xs) (here, h) = rw (here, select_ext-All p q xs h) refl

  pub select_none : (p : A → Bool) (xs : List A) → ((x : A) → p x ≡ false) → select p xs ≡ []
  select_none p [] h = refl
  select_none p (x ∷ xs) h = rw (h x, select_none p xs h) refl

  pub count_none : (p : A → Bool) (xs : List A) → All (λ x. p x ≡ false) xs → count p xs ≡ 0
  count_none p [] h = refl
  count_none p (x ∷ xs) h = ground (arith, count_none p xs h.1)

  -- A test whose negation is never met holds everywhere.
  pub All-of_count :
      (p : A → Bool) (xs : List A) → count (λ x. not (p x)) xs ≡ 0 → All (λ x. p x ≡ true) xs
  All-of_count p [] h = tt
  All-of_count p (x ∷ xs) h = (ground arith, All-of_count p xs (ground arith))

  pub count-take-le : (p : A → Bool) (n : ℕ) (xs : List A) → count p (take n xs) ≤ count p xs
  count-take-le p zero xs = omega arith
  count-take-le p (suc n) [] = omega arith
  count-take-le p (suc n) (x ∷ xs) = ground (arith, count-take-le p n xs)
