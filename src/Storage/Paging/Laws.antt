-- ===== src/Storage/Paging/Laws.antt =====
-- What a page is: the elements of the list from `skipped` on, `size` of them, as long as the
-- arithmetic on `int` does not overflow.
use fertilesoil.Base.{
  ℕ, zero, suc, ◌+◌, ◌-◌, ◌*◌, ◌≤◌, ◌<◌, ◌≡◌, refl, List, [], ◌∷◌, length, take, drop, take-map,
  drop-map, map, min, length-drop, take-nil, take-min, drop_of_length-le, arith, ok, get_elem?,
  some,
}
use native.Mathlib.Numerals.{add-one}
use fertilesoil.Base.Int.{pos, pos_part, int_half, wrap64, wrap64_pos, +ℤ_pos, -ℤ_pos, *ℤ_pos, ◌+ℤ◌}
use fertilesoil.Storage.Options.{Options, get_page, get_page_size, get_page_offset}
use fertilesoil.Storage.Paging.{read_from, make_and_read, slice, page_limit, copy_page, slice_page}

-- The page size and the page number as natural numbers; pages count from 1.
abbrev pub size_of : Options → ℕ
size_of o = pos_part (get_page_size o)

abbrev pub page_of : Options → ℕ
page_of o = pos_part (get_page o)

-- The number of elements before the page.
abbrev pub skipped : Options → ℕ
skipped o = size_of o * (page_of o - 1)

-- The page that the options name.
abbrev pub window : {A : Type 0} → Options → List A → List A
window o xs = take (size_of o) (drop (skipped o) xs)

pub window-map :
    {A B : Type 0} (o : Options) (f : A → B) (xs : List A)
    → window o (map f xs) ≡ map f (window o xs)
window-map o f xs = rw (drop-map (skipped o) f xs) (take-map (size_of o) f (drop (skipped o) xs))

pub get_page_pos : (o : Options) → (get_page o ≡ pos (page_of o)) × (1 ≤ page_of o)
unfolding get_page
get_page_pos o = ground arith

pub get_page_size_pos : (o : Options) → (get_page_size o ≡ pos (size_of o)) × (1 ≤ size_of o)
unfolding get_page_size
get_page_size_pos o = ground arith

-- The offset as computed, before any assumption on its range.
pub get_page_offset_lem :
    (o : Options) → page_of o < int_half → get_page_offset o ≡ wrap64 (pos (skipped o))
unfolding get_page_offset
get_page_offset_lem o h = rw (get_page_pos o).0 (
    rw (-ℤ_pos (page_of o) 1 (get_page_pos o).1) (
      rw (wrap64_pos (page_of o - 1) (omega arith))
        (rw (get_page_size_pos o).0 (rw (*ℤ_pos (size_of o) (page_of o - 1)) refl))))

next_index : (i : ℕ) → suc i < int_half → wrap64 (pos i +ℤ pos 1) ≡ pos (suc i)
next_index i h = rw (+ℤ_pos i 1) (rw (add-one i) (wrap64_pos (suc i) h))

module _ {A : Type 0} where
  -- In range, an element heads what is left when those before it are dropped.
  drop_in_range :
      (i : ℕ) (xs : List A)
      → i < length xs
      → (x : A) × (get_elem? xs i ≡ some x) × (drop i xs ≡ x ∷ drop (suc i) xs)
  drop_in_range zero (x ∷ xs) h = (x, refl, refl)
  drop_in_range (suc i) (x ∷ xs) h =
      let (y, found, rest) = drop_in_range i xs (omega arith) in (y, found, rest)
  drop_in_range i [] h = absurd (omega arith)

  read_from_lem :
      (n i : ℕ) (xs : List A)
      → i + n ≤ length xs
      → length xs < int_half
      → read_from n (pos i) xs ≡ ok (take n (drop i xs))
  unfolding read_from
  read_from_lem zero i xs h k = refl
  read_from_lem (suc n) i xs h k =
      let (x, found, rest) = drop_in_range i xs (omega arith) in
      let tail = read_from_lem n (suc i) xs (omega arith) k in
      ground (arith, next_index i (omega arith))

  pub slice_lem :
      (lo hi : ℕ) (xs : List A)
      → lo ≤ hi
      → slice xs (pos lo) (pos hi) ≡ ok (take (hi - lo) (drop lo xs))
  unfolding slice
  slice_lem lo hi xs h = ground arith

  page_limit_lem :
      (o : Options) (xs : List A)
      → page_of o < int_half
      → skipped o + size_of o < int_half
      → page_limit o xs ≡ pos (min (skipped o + size_of o) (length xs))
  unfolding page_limit
  page_limit_lem o xs h k = rw (get_page_offset_lem o h) (
      rw (wrap64_pos (skipped o) (omega arith)) (
        rw (get_page_size_pos o).0 (
          rw (+ℤ_pos (skipped o) (size_of o))
            (rw (wrap64_pos (skipped o + size_of o) k) (ground arith)))))

  -- The elements between the two bounds of a page are its window.
  pub window_of_bounds :
      (o : Options) (xs : List A)
      → take (min (skipped o + size_of o) (length xs) - skipped o) (drop (skipped o) xs)
        ≡ window o xs
  window_of_bounds o xs =
      let e : min (skipped o + size_of o) (length xs) - skipped o
          ≡ min (size_of o) (length (drop (skipped o) xs)) =
        omega (arith, length-drop (skipped o) xs) in
      rw e (take-min (size_of o) (drop (skipped o) xs))

  pub window_past_end : (o : Options) (xs : List A) → length xs ≤ skipped o → window o xs ≡ []
  window_past_end o xs h = rw (drop_of_length-le (skipped o) xs h) (take-nil (size_of o))

  -- The window of the options is what the end of ListRoots and GetChildren returns, for a page that
  -- ends below 2 ^ 63 and a list shorter than 2 ^ 63: there is no panic.
  pub copy_page_lem :
      (o : Options) (xs : List A)
      → page_of o < int_half
      → skipped o + size_of o < int_half
      → length xs < int_half
      → copy_page o xs ≡ ok (window o xs)
  unfolding copy_page make_and_read
  copy_page_lem o xs h k l = rw (page_limit_lem o xs h k) (
      rw (get_page_offset_lem o h) (
        rw (wrap64_pos (skipped o) (omega arith)) (
          ground (
            arith,
            window_past_end o xs,
            window_of_bounds o xs,
            read_from_lem (min (skipped o + size_of o) (length xs) - skipped o) (skipped o) xs,
            -ℤ_pos (min (skipped o + size_of o) (length xs)) (skipped o),
            wrap64_pos (min (skipped o + size_of o) (length xs) - skipped o),
          ))))

  -- The window of the options is what the end of GetParents and GetParentsUntilAncestor returns, for
  -- a page that ends below 2 ^ 63: there is no panic.
  pub slice_page_lem :
      (o : Options) (xs : List A)
      → page_of o < int_half
      → skipped o + size_of o < int_half
      → slice_page o xs ≡ ok (window o xs)
  unfolding slice_page
  slice_page_lem o xs h k = rw (page_limit_lem o xs h k) (
      rw (get_page_offset_lem o h) (
        rw (wrap64_pos (skipped o) (omega arith)) (
          ground (
            arith,
            window_past_end o xs,
            window_of_bounds o xs,
            slice_lem (skipped o) (min (skipped o + size_of o) (length xs)) xs,
          ))))
