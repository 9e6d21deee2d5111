-- ===== src/Http/Query.antt =====
-- The query of a request, as storage options, and back (storageOptionsFromGetQuery,
-- storageOptionsToURLValues; addStorageOptionsToURL of client/v1/impl.go).
use fertilesoil.Base.{
  ◌||◌, Option, none, some, List, [], ◌∷◌, ◌++◌, if◌then◌else◌, Outcome, ok, err, bad_query,
}
use fertilesoil.Base.Results.{◌>>=◌}
use fertilesoil.Base.Int.{ℤ, pos, ltb_ℤ}
use fertilesoil.Storage.Options.{
  Setting, with_deleted, pagination, Options, get_page, get_page_size, build_options,
}
use fertilesoil.Http.Strconv.{Text, parse_bool, atoi, itoa}

-- The values of the three keys that are read; other keys are ignored.
pub record Query : Type 0 where
  pub with_deleted_value : Option Text
  pub page_value : Option Text
  pub limit_value : Option Text

abbrev pub no_query : Query
no_query = record { with_deleted_value = none; page_value = none; limit_value = none }

-- `if value, ok := c.GetQuery("with_deleted"); ok`
abbrev pub deleted_settings : Option Text → Outcome (List Setting)
deleted_settings none = ok []
deleted_settings (some value) = elim (parse_bool value) [
  | none ↦ err bad_query
  | some b ↦ ok (if b then with_deleted ∷ [] else [])
]

-- `if value, ok := c.GetQuery("page"); ok`, and the same for "limit"
abbrev pub positive_value : Option Text → Outcome ℤ
positive_value none = ok (pos 0)
positive_value (some value) = elim (atoi value) [
  | none ↦ err bad_query
  | some n ↦ ok (if ltb_ℤ (pos 0) n then n else pos 0)
]

unfoldable pub storage_options_from_get_query : Query → Outcome (List Setting)
storage_options_from_get_query q = do
  shown ← deleted_settings q.with_deleted_value
  page ← positive_value q.page_value
  limit ← positive_value q.limit_value
  ok (
      shown
      ++ (if ltb_ℤ (pos 0) page || ltb_ℤ (pos 0) limit then pagination page limit ∷ [] else []))

-- "true"
abbrev pub true_text : Text
true_text = 116 ∷ 114 ∷ 117 ∷ 101 ∷ []

unfoldable pub storage_options_to_url_values : Options → ℤ → Query
storage_options_to_url_values o page = record {
  with_deleted_value = if o.with_deleted_directories then some true_text else none;
  page_value =
      if ltb_ℤ (pos 0) page
      then (if ltb_ℤ (get_page o) (pos 1) then none else some (itoa page))
      else none;
  limit_value = if ltb_ℤ (pos 0) page then some (itoa (get_page_size o)) else none;
}

-- What the client puts into the query of its URL, which had none.
unfoldable pub client_query : List Setting → Query
client_query settings =
    let o = build_options settings in
    record {
      with_deleted_value = if o.with_deleted_directories then some true_text else none;
      page_value = if ltb_ℤ (pos 0) o.page then some (itoa o.page) else none;
      limit_value = if ltb_ℤ (pos 0) o.page_size then some (itoa o.page_size) else none;
    }
