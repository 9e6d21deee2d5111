-- ===== src/Storage/Crdb/Chunk.antt =====
-- The pages of the CockroachDB driver.
use fertilesoil.Base.{
  suc, ◌+◌, ◌-◌, ◌<◌, ◌≡◌, List, ◌∷◌, length, min, ltb, ok, arith, Bool-cases, inl, inr,
}
use fertilesoil.Base.Int.{pos, int_half, wrap64, wrap64_pos, ◌+ℤ◌, +ℤ_pos}
use fertilesoil.Api.{DirectoryId}
use fertilesoil.Storage.Options.{Options, get_page_size, get_page_offset}
use fertilesoil.Storage.Paging.Laws.{
  page_of, size_of, skipped, window, get_page_offset_lem, get_page_size_pos, slice_lem,
  window_past_end, window_of_bounds,
}
use fertilesoil.Storage.Crdb.Driver.{chunk}

module _ (o : Options) (h : page_of o < int_half) (k : suc (skipped o + size_of o) < int_half) where
  from_lem : wrap64 (get_page_offset o +ℤ pos 1) ≡ pos (suc (skipped o))
  from_lem = rw (get_page_offset_lem o h) (
      rw (wrap64_pos (skipped o) (omega arith)) (
        rw (+ℤ_pos (skipped o) 1) (
          let e : skipped o + 1 ≡ suc (skipped o) = omega arith in
          rw e (wrap64_pos (suc (skipped o)) (omega arith)))))

  limit_lem : wrap64 (pos (suc (skipped o)) +ℤ get_page_size o) ≡ pos (suc (skipped o) + size_of o)
  limit_lem = rw (get_page_size_pos o).0 (
      rw (+ℤ_pos (suc (skipped o)) (size_of o))
        (wrap64_pos (suc (skipped o) + size_of o) (omega arith)))

  -- The first id is skipped, and the rest is cut into pages, for a page that ends below 2 ^ 63.
  pub chunk_lem : (x : DirectoryId) (ids : List DirectoryId) → chunk o (x ∷ ids) ≡ ok (window o ids)
  unfolding chunk
  chunk_lem x ids = rw from_lem (
      rw limit_lem (elim (Bool-cases (ltb (skipped o) (length ids))) [
        | inr past ↦ ground (arith, window_past_end o ids)
        | inl inside ↦
            let bound : min (suc (skipped o) + size_of o) (suc (length ids)) - suc (skipped o)
                ≡ min (skipped o + size_of o) (length ids) - skipped o =
              omega arith in
            ground (
              arith,
              window_of_bounds o ids,
              slice_lem (suc (skipped o)) (min (suc (skipped o) + size_of o) (suc (length ids)))
                  (x ∷ ids),
              bound,
            )
      ]))
