-- ===== src/Storage/SortSlice.antt =====
-- Go's `sort.Slice` (used in storage/memory/memory.go), as the insertion sort that the runtime
-- runs on slices of up to 12 elements. On longer slices Go's order among equal times may be another.
use fertilesoil.Base.{List, [], ◌∷◌, reverse, if◌then◌else◌}
use fertilesoil.Api.{Time, before, Directory}

-- The inner loop, on the sorted prefix read from its right end: the element moves left while it
-- is smaller than its neighbour.
unfoldable pub sink : Directory → List Directory → List Directory
sink x [] = x ∷ []
sink x (y ∷ ys) = if before x.created_at y.created_at then y ∷ sink x ys else x ∷ y ∷ ys

unfoldable pub sort_loop : List Directory → List Directory → List Directory
sort_loop sorted [] = reverse sorted
sort_loop sorted (x ∷ xs) = sort_loop (sink x sorted) xs

-- `sort.Slice(ds, func(i, j int) bool { return ds[i].CreatedAt.Before(ds[j].CreatedAt) })`
unfoldable pub sort_by_created : List Directory → List Directory
sort_by_created ds = sort_loop [] ds

-- The same algorithm where `less` reads another slice, which the swaps leave alone: the test of
-- an element against its neighbour is that of their positions. `k` and `ks` are what that other
-- slice holds at the position of the element and at those left of it.
module _ {A : Type 0} where
  unfoldable pub sink_at : Time → A → List Time → List A → List A
  sink_at k x (k' ∷ ks) (y ∷ ys) = if before k k' then y ∷ sink_at k' x ks ys else x ∷ y ∷ ys
  sink_at k x _ ys = x ∷ ys

  unfoldable pub sort_at_loop : List Time → List A → List Time → List A → List A
  sort_at_loop left sorted (k ∷ keys) (x ∷ xs) =
      sort_at_loop (k ∷ left) (sink_at k x left sorted) keys xs
  sort_at_loop left sorted _ _ = reverse sorted

  -- `sort.Slice(xs, func(i, j int) bool { return keys[i].Before(keys[j]) })`
  unfoldable pub sort_at : List Time → List A → List A
  sort_at keys xs = sort_at_loop [] [] keys xs
