-- ===== src/Storage/Paging.antt =====
-- How the in-memory driver cuts a page out of a list (storage/memory/memory.go): the bounds from
-- the options, then either a new slice filled by an index loop, or a slice expression.
pub mod Laws
pub mod Overflow
pub mod Pages
use fertilesoil.Base.{
  ℕ, zero, suc, ◌-◌, List, [], ◌∷◌, Option, none, some, Bool, length, get_elem?, take, drop,
  if◌then◌else◌, Outcome, ok, panic, index_out_of_range, makeslice_len_out_of_range,
  slice_bounds_out_of_range,
}
use fertilesoil.Base.Results.{◌>>=◌}
use fertilesoil.Base.Int.{ℤ, pos, negsuc, ◌+ℤ◌, ◌-ℤ◌, ltb_ℤ, wrap64}
use fertilesoil.Storage.Options.{Options, get_page_size, get_page_offset}

module _ {ℓ} {A : Type ℓ} where
  -- `xs[i]`
  abbrev pub index : List A → ℤ → Outcome A
  index xs (pos i) = elim (get_elem? xs i) [ none ↦ panic index_out_of_range | some x ↦ ok x ]
  index xs (negsuc i) = panic index_out_of_range

  -- `for i := range out { out[i] = xs[offset+i] }`, on the rounds left
  unfoldable pub read_from : ℕ → ℤ → List A → Outcome (List A)
  read_from zero i xs = ok []
  read_from (suc n) i xs = do
    x ← index xs i
    rest ← read_from n (wrap64 (i +ℤ pos 1)) xs
    ok (x ∷ rest)

  -- `out := make([]T, n)` and the loop. A length that the memory does not hold makes `make` panic too;
  -- here the loop panics for it, past the end of the list.
  unfoldable pub make_and_read : ℤ → ℤ → List A → Outcome (List A)
  make_and_read (pos n) offset xs = read_from n offset xs
  make_and_read (negsuc n) offset xs = panic makeslice_len_out_of_range

  -- `xs[lo:hi]`, with `hi` at most the length
  unfoldable pub slice : List A → ℤ → ℤ → Outcome (List A)
  slice xs (pos lo) (pos hi) =
      if ltb_ℤ (pos hi) (pos lo)
      then panic slice_bounds_out_of_range
      else ok (take (hi - lo) (drop lo xs))
  slice xs _ _ = panic slice_bounds_out_of_range

  -- `limit := offset + size; if limit > len(xs) { limit = len(xs) }`
  unfoldable pub page_limit : Options → List A → ℤ
  page_limit o xs =
      let limit = wrap64 (get_page_offset o +ℤ get_page_size o) in
      if ltb_ℤ (pos (length xs)) limit then pos (length xs) else limit

  -- The end of ListRoots and GetChildren.
  unfoldable pub copy_page : Options → List A → Outcome (List A)
  copy_page o xs =
      if ltb_ℤ (pos (length xs)) (get_page_offset o)
      then ok []
      else make_and_read (wrap64 (page_limit o xs -ℤ get_page_offset o)) (get_page_offset o) xs

  -- The end of GetParents and GetParentsUntilAncestor.
  unfoldable pub slice_page : Options → List A → Outcome (List A)
  slice_page o xs =
      if ltb_ℤ (pos (length xs)) (get_page_offset o)
      then ok []
      else slice xs (get_page_offset o) (page_limit o xs)
