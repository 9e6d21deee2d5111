-- ===== src/Storage/Paging/Pages.antt =====
-- A client that reads page after page.
use fertilesoil.Base.{
  ℕ, zero, suc, ◌+◌, ◌*◌, ◌≤◌, ◌<◌, ◌≡◌, refl, ap, List, [], ◌++◌, length, take, take_of_length-le,
  take-append-take-drop, arith, Outcome, ok,
}
use fertilesoil.Base.Results.{◌>>=◌}
use fertilesoil.Base.Int.{pos, int_half}
use fertilesoil.Storage.Options.{Options, get_page, get_page_size}
use fertilesoil.Storage.Paging.{copy_page}
use fertilesoil.Storage.Paging.Laws.{size_of, page_of, skipped, window, copy_page_lem}

-- The same options at another page.
abbrev pub at_page : Options → ℕ → Options
at_page o p = record o { page = pos p }

at_page_lem :
    (o : Options) (n : ℕ)
    → (page_of (at_page o (suc n)) ≡ suc n) × (size_of (at_page o (suc n)) ≡ size_of o)
unfolding get_page get_page_size
at_page_lem o n = (ground arith, refl)

skipped-at_page : (o : Options) (n : ℕ) → skipped (at_page o (suc n)) ≡ n * size_of o
skipped-at_page o n = rw (at_page_lem o n).0 (rw (at_page_lem o n).1 (grind arith))

module _ {A : Type 0} where
  -- A client that reads the pages 1 to n of a listing and joins them.
  pub read_pages : Options → List A → ℕ → Outcome (List A)
  read_pages o xs zero = ok []
  read_pages o xs (suc n) = do
    before ← read_pages o xs n
    here ← copy_page (at_page o (suc n)) xs
    ok (before ++ here)

  joined :
      (o : Options) (xs : List A) (n : ℕ)
      → take (n * size_of o) xs ++ window (at_page o (suc n)) xs ≡ take (suc n * size_of o) xs
  joined o xs n = rw (skipped-at_page o n) (
      rw (at_page_lem o n).1 (
        let e : suc n * size_of o ≡ n * size_of o + size_of o = grind arith in
        rw e (take-append-take-drop (n * size_of o) (size_of o) xs)))

  -- The first n pages, joined, are the first n times the page size elements, in their order, as
  -- long as these counts are below 2 ^ 63.
  pub read_pages-take :
      (o : Options) (xs : List A) (n : ℕ)
      → n * size_of o < int_half
      → n < int_half
      → length xs < int_half
      → read_pages o xs n ≡ ok (take (n * size_of o) xs)
  unfolding read_pages
  read_pages-take o xs zero h k l = let e : 0 * size_of o ≡ 0 = omega arith in rw e
  read_pages-take o xs (suc n) h k l = rw (read_pages-take o xs n (omega arith) (omega arith) l) (
      rw
        (copy_page_lem (at_page o (suc n)) xs (rw (at_page_lem o n).0 k)
          (rw (skipped-at_page o n) (rw (at_page_lem o n).1 (omega arith))) l)
        (ap ok (joined o xs n)))

  -- Enough pages, joined, are the whole list: no element is left out and none comes twice.
  pub read_pages-all :
      (o : Options) (xs : List A) (n : ℕ)
      → length xs ≤ n * size_of o
      → n * size_of o < int_half
      → n < int_half
      → read_pages o xs n ≡ ok xs
  read_pages-all o xs n e h k =
      rw (read_pages-take o xs n h k (omega arith)) (rw (take_of_length-le (n * size_of o) xs e))
