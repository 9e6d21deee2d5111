-- ===== src/Storage/Paging/Overflow.antt =====
-- Pages so far out that the offset passes 2 ^ 63.
use fertilesoil.Base.{
  ℕ, zero, suc, ◌+◌, ◌-◌, ◌≤◌, ◌<◌, ◌≡◌, refl, List, arith, Outcome, ok, err, err_with, panic,
  diverge, index_out_of_range, slice_bounds_out_of_range,
}
use fertilesoil.Base.Int.{
  negsuc, int_half, int_modulus, wrap64_pos, wrap64_neg, wrap64_negsuc, +ℤ_negsuc, -ℤ_negsuc,
}
use fertilesoil.Storage.Options.{Options, get_page_offset}
use fertilesoil.Storage.Paging.{read_from, make_and_read, slice, page_limit, copy_page, slice_page}
use fertilesoil.Storage.Paging.Laws.{
  size_of, page_of, skipped, get_page_size_pos, get_page_offset_lem,
}

-- The options name a page whose offset, taken as a 64-bit pattern, has its sign bit set.
pub record OffsetOverflows (o : Options) : Type 0 where
  pub page_fits : page_of o < int_half
  pub size_fits : size_of o < int_half
  pub offset_high : int_half ≤ skipped o
  pub end_in_word : skipped o + size_of o < int_modulus

-- The call ends in a panic, whichever it is.
abbrev pub Panics : {A : Type 0} → Outcome A → Type 0
Panics (panic p) = Unit
Panics (ok a) = ⊥
Panics (err e) = ⊥
Panics (err_with a e) = ⊥
Panics diverge = ⊥

-- The distance of the offset below zero, less one.
abbrev below_zero : Options → ℕ
below_zero o = int_modulus - 1 - skipped o

read_from_negative :
    {A : Type 0} (n q : ℕ) (xs : List A)
    → 1 ≤ n
    → read_from n (negsuc q) xs ≡ panic index_out_of_range
unfolding read_from
read_from_negative zero q xs h = absurd (omega arith)
read_from_negative (suc n) q xs h = refl

module _ (o : Options) (over : OffsetOverflows o) where
  offset_negative : get_page_offset o ≡ negsuc (below_zero o)
  offset_negative =
      rw (get_page_offset_lem o over.page_fits)
        (wrap64_neg (skipped o) over.offset_high (omega arith))

  page_limit_negative :
      {A : Type 0} (xs : List A) → page_limit o xs ≡ negsuc (below_zero o - size_of o)
  unfolding page_limit
  page_limit_negative xs = rw offset_negative (
      rw (get_page_size_pos o).0 (
        rw (+ℤ_negsuc (below_zero o) (size_of o) (omega arith))
          (rw (wrap64_negsuc (below_zero o - size_of o) (omega arith)) (ground arith))))

  copy_page_index : {A : Type 0} (xs : List A) → copy_page o xs ≡ panic index_out_of_range
  unfolding copy_page make_and_read
  copy_page_index xs = rw (page_limit_negative xs) (
      rw offset_negative (
        rw (-ℤ_negsuc (below_zero o) (size_of o) (omega arith)) (
          rw (wrap64_pos (size_of o) over.size_fits) (
            ground
              (arith, read_from_negative (size_of o) (below_zero o) xs (get_page_size_pos o).1)))))

  -- For options whose offset is 2^63 or more, with a page that ends below 2^64, the end of ListRoots and
  -- GetChildren panics on every list, when page and page size are below 2^63.
  pub copy_page_overflow : {A : Type 0} (xs : List A) → Panics (copy_page o xs)
  copy_page_overflow xs = rw (copy_page_index xs) tt

  -- So does the end of GetParents and GetParentsUntilAncestor.
  pub slice_page_overflow :
      {A : Type 0} (xs : List A) → slice_page o xs ≡ panic slice_bounds_out_of_range
  unfolding slice_page slice
  slice_page_overflow xs = rw (page_limit_negative xs) (rw offset_negative (ground arith))
