-- ===== src/Http/Link.antt =====
-- The link to the next page of a listing (paginationResponse, buildURL).
use fertilesoil.Base.{ℕ, Bool, not, Option, none, some, List, [], ◌∷◌, if◌then◌else◌}
use fertilesoil.Base.Int.{ℤ, pos, ◌+ℤ◌, eq_ℤ, wrap64}
use fertilesoil.Storage.Options.{Setting, get_page, get_page_size, build_options}
use fertilesoil.Http.Strconv.{Text, text_eq}
use fertilesoil.Http.Query.{Query, storage_options_to_url_values}

-- What buildURL reads of a request that came in over HTTP.
pub record Origin : Type 0 where
  pub path : Text
  pub client_ip : Text
  pub remote_ip : Text
  pub forwarded_proto : Text
  pub forwarded_host : Text
  pub url_scheme : Text
  pub over_tls : Bool
  pub host : Text

pub record Url : Type 0 where
  pub scheme : Text
  pub url_host : Text
  pub url_path : Text
  pub raw_query : Query

-- "http", and "https"
abbrev pub http_text : Text
http_text = 104 ∷ 116 ∷ 116 ∷ 112 ∷ []

abbrev pub https_text : Text
https_text = 104 ∷ 116 ∷ 116 ∷ 112 ∷ 115 ∷ []

-- `if t == "" { t = u }`
abbrev pub or_else : Text → Text → Text
or_else [] u = u
or_else (c ∷ t) u = c ∷ t

-- The client's address differs from the peer's: the request came over a trusted proxy.
abbrev pub is_proxied : Origin → Bool
is_proxied r = not (text_eq r.client_ip r.remote_ip)

unfoldable pub build_url : Origin → Query → Url
build_url r values =
    let own = or_else r.url_scheme (if r.over_tls then https_text else http_text) in
    record {
      scheme = or_else (if is_proxied r then r.forwarded_proto else []) own;
      url_host = or_else (if is_proxied r then r.forwarded_host else []) r.host;
      url_path = r.path;
      raw_query = values;
    }

pub record Pagination : Type 0 where
  pub page : ℤ
  pub page_size : ℤ
  pub next : Option Url

unfoldable pub pagination_response : Origin → ℕ → List Setting → Pagination
pagination_response r count settings =
    let o = build_options settings in
    record {
      page = get_page o;
      page_size = get_page_size o;
      next =
          if eq_ℤ (pos count) (get_page_size o)
          then some (build_url r (storage_options_to_url_values o (wrap64 (get_page o +ℤ pos 1))))
          else none;
    }
