-- ===== src/Http/Pages.antt =====
-- What the query of a link, or of the client, asks for when the server reads it.
use fertilesoil.Base.{
  ℕ, zero, suc, ◌<◌, ◌≡◌, ◌≢◌, refl, ap, not, ◌∙◌, Bool, true, false, Option, none, some, List, [],
  ◌∷◌, ◌++◌, if◌then◌else◌, ◌||◌, arith, Outcome, ok, Bool-cases, inl, inr, ltb,
}
use fertilesoil.Base.Results.{◌>>=◌}
use fertilesoil.Base.Int.{pos, ltb_ℤ, ◌+ℤ◌, wrap64, wrap64_pos, int_half}
use fertilesoil.Storage.Options.{
  Setting, with_deleted, pagination, Options, get_page, get_page_size, build_options, apply_all,
}
use fertilesoil.Http.Strconv.{parse_bool, itoa, atoi-itoa}
use fertilesoil.Http.Query.{
  Query, deleted_settings, positive_value, storage_options_from_get_query,
  storage_options_to_url_values, client_query, true_text,
}
use fertilesoil.Http.Link.{Origin, Url, pagination_response, build_url}

-- The settings that the server reads from the values of a query.
abbrev settings_of : Bool → ℕ → ℕ → List Setting
settings_of shown page limit =
    (if shown then with_deleted ∷ [] else [])
    ++ (if ltb_ℤ (pos 0) (pos page) || ltb_ℤ (pos 0) (pos limit)
        then pagination (pos page) (pos limit) ∷ []
        else [])

abbrev query_of : Bool → ℕ → ℕ → Query
query_of shown page limit = record {
  with_deleted_value = if shown then some true_text else none;
  page_value = if ltb 0 page then some (itoa (pos page)) else none;
  limit_value = if ltb 0 limit then some (itoa (pos limit)) else none;
}

positive_value-itoa :
    (n : ℕ)
    → n < int_half
    → positive_value (if ltb 0 n then some (itoa (pos n)) else none) ≡ ok (pos n)
positive_value-itoa zero small = refl
positive_value-itoa (suc n) small = ground (arith, atoi-itoa (suc n) small)

read_shown :
    (shown : Bool)
    → deleted_settings (if shown then some true_text else none)
      ≡ ok (if shown then with_deleted ∷ [] else [])
unfolding parse_bool
read_shown true = refl
read_shown false = refl

read_query :
    (shown : Bool) (page limit : ℕ)
    → page < int_half
    → limit < int_half
    → storage_options_from_get_query (query_of shown page limit) ≡ ok (settings_of shown page limit)
unfolding storage_options_from_get_query
read_query shown page limit h k =
    rw (read_shown shown, positive_value-itoa page h, positive_value-itoa limit k) refl

build_settings :
    (shown : Bool) (page limit : ℕ)
    → build_options (settings_of shown page limit)
      ≡ record { with_deleted_directories = shown; page = pos page; page_size = pos limit }
unfolding build_options apply_all
build_settings true page limit = ground arith
build_settings false page limit = ground arith

-- The options that the server builds from a query.
abbrev pub requested_options : Query → Outcome Options
requested_options q = storage_options_from_get_query q >>= λ settings. ok (build_options settings)

requested_query_of :
    (shown : Bool) (page limit : ℕ)
    → page < int_half
    → limit < int_half
    → requested_options (query_of shown page limit)
      ≡ ok (record { with_deleted_directories = shown; page = pos page; page_size = pos limit })
requested_query_of shown page limit h k =
    rw (read_query shown page limit h k, build_settings shown page limit) refl

plus_one : (n : ℕ) → pos n +ℤ pos 1 ≡ pos (suc n)
unfolding ◌+ℤ◌
plus_one n = ground arith

next_query :
    (o : Options) (page limit : ℕ)
    → get_page o ≡ pos (suc page)
    → get_page_size o ≡ pos (suc limit)
    → suc (suc page) < int_half
    → storage_options_to_url_values o (wrap64 (get_page o +ℤ pos 1))
      ≡ query_of o.with_deleted_directories (suc (suc page)) (suc limit)
unfolding storage_options_to_url_values
next_query o page limit at size small =
    let e : wrap64 (get_page o +ℤ pos 1) ≡ pos (suc (suc page)) =
      rw (at, plus_one (suc page)) (wrap64_pos (suc (suc page)) small) in
    rw (e, at, size) (ground arith)

-- A link is there just when `count` is the size of a page, and then asks for the given options.
abbrev pub LinksTo : ℕ → ℕ → Options → Option Url → Type 0
LinksTo count limit o none = count ≢ limit
LinksTo count limit o (some url) = (count ≡ limit) × (requested_options url.raw_query ≡ ok o)

linked :
    (count limit : ℕ) (o : Options) (url : Url) (b : Bool)
    → ltb_ℤ (pos count) (pos limit) ≡ b
    → requested_options url.raw_query ≡ ok o
    → LinksTo count limit o
        (if (if b then false else not (ltb_ℤ (pos limit) (pos count))) then some url else none)
linked count limit o url true below asks = λ same. absurd (ground arith)
linked count limit o url false upto asks = elim (Bool-cases (ltb_ℤ (pos limit) (pos count))) [
  | inl above ↦ rw above (λ same. absurd (ground arith))
  | inr equal ↦ rw equal (ground arith, asks)
]

-- A listing has a link to the next page exactly when it holds as many ids as a page has. What the
-- server reads from the query of that link is the next page, of the same size and with the same
-- choice on deleted directories, as long as the numbers of the next page and of the size are below 2 ^ 63.
pub next_link_lem :
    (r : Origin) (count : ℕ) (settings : List Setting) (page limit : ℕ)
    → get_page (build_options settings) ≡ pos (suc page)
    → get_page_size (build_options settings) ≡ pos (suc limit)
    → suc (suc page) < int_half
    → suc limit < int_half
    → LinksTo count
        (suc limit)
        (record (build_options settings) {
          page = pos (suc (suc page));
          page_size = pos (suc limit);
        })
        (pagination_response r count settings).next
unfolding pagination_response build_url
next_link_lem r count settings page limit at size h k =
    rw (next_query (build_options settings) page limit at size h, size)
      (linked count (suc limit) _ _ _ refl (requested_query_of _ (suc (suc page)) (suc limit) h k))

client_query_of :
    (settings : List Setting) (page limit : ℕ)
    → (build_options settings).page ≡ pos page
    → (build_options settings).page_size ≡ pos limit
    → client_query settings ≡ query_of (build_options settings).with_deleted_directories page limit
unfolding client_query
client_query_of settings page limit at size = rw (at, size) (ground arith)

-- The options that the server builds from the query of the client are the options that the client was
-- given, when page and size are natural numbers below 2 ^ 63.
pub client_query_lem :
    (settings : List Setting) (page limit : ℕ)
    → (build_options settings).page ≡ pos page
    → (build_options settings).page_size ≡ pos limit
    → page < int_half
    → limit < int_half
    → requested_options (client_query settings) ≡ ok (build_options settings)
client_query_lem settings page limit at size h k =
    rw (client_query_of settings page limit at size) (
      requested_query_of (build_options settings).with_deleted_directories page limit h k
      ∙ ap (λ o. ok o) (rw (← at, ← size) refl))
