-- ===== src/Tests/Client.antt =====
-- The theorems on the client and on messages, at a root with a child and a grandchild.
use fertilesoil.Base.{
  err, directory_not_found, ℕ, zero, suc, ◌≡◌, refl, ap, ◌∙◌, false, Option, none, some, List, [],
  ◌∷◌, ◌==◌, if◌then◌else◌, String, ok, arith,
}
use fertilesoil.Base.Int.{wrap64, ◌*ℤ◌, ◌-ℤ◌, ◌+ℤ◌}
use fertilesoil.Api.{Directory}
use fertilesoil.Storage.Options.{
  Setting, build_options, apply_all, get_page, get_page_size, get_page_offset,
}
use fertilesoil.Storage.Paging.{copy_page, make_and_read, page_limit, read_from}
use fertilesoil.Storage.SortSlice.{sink, sort_loop, sort_by_created}
use fertilesoil.Storage.DirMap.{DirMap, directory, load_or_store}
use fertilesoil.Storage.Interface.{memory_driver}
use fertilesoil.Storage.Memory.Write.{stamp, insert_new}
use fertilesoil.Storage.Memory.Write
use fertilesoil.Storage.Memory.Read
use fertilesoil.Storage.Memory.Descendants
use fertilesoil.Http.Link.{Origin, pagination_response}
use fertilesoil.Http.Handlers.{
  CreateDirectoryRequest, UpdateDirectoryRequest, Body, message, one_directory, listing, Route,
  get_roots, post_roots, get_id, post_id, patch_id, delete_id, get_children, get_parents,
  get_parents_until, requested,
}
use fertilesoil.Client.Calls.{
  status_error, Method, get, post, patch, delete, Wire, DirectoryList, HttpClient,
}
use fertilesoil.Client.Calls
use fertilesoil.Client.Server.{Front, Matched, method_of, path_of}
use fertilesoil.Client.Missing.{reading_missing_served}
use fertilesoil.Client.Served.{
  IsConnected, matched_of, connected, children_origin, get_children_served, create_directory_served,
}
use fertilesoil.Tests.{time_at, child_dir, three, around}

-- Bytes that show what they stand for.
pub data Message : Type 0 where
  creation : CreateDirectoryRequest → Message
  update : UpdateDirectoryRequest → Message
  answer : Body → Message

-- An id as a text of that many characters.
abbrev unary : ℕ → String
unary zero = String.[]
unary (suc n) = String.◌∷◌ "i" (unary n)

abbrev count_chars : String → ℕ
count_chars String.[] = 0
count_chars (String.◌∷◌ c s) = suc (count_chars s)

count_chars-unary : (n : ℕ) → count_chars (unary n) ≡ n
count_chars-unary zero = refl
count_chars-unary (suc n) = ap suc (count_chars-unary n)

abbrev read_fetch : Message → Option Directory
read_fetch (answer (one_directory d)) = some d
read_fetch _ = none

abbrev read_list : Message → Option DirectoryList
read_list (answer (listing ids p)) = some (record { directories = ids; pagination = p })
read_list _ = none

abbrev read_creation : Message → Option CreateDirectoryRequest
read_creation (creation req) = some req
read_creation _ = none

abbrev read_update : Message → Option UpdateDirectoryRequest
read_update (update req) = some req
read_update _ = none

abbrev pub wire : Wire Message
wire = record {
  uuid_text = unary;
  encode_create = λ req. some (creation req);
  encode_update = λ req. some (update req);
  parse_fetch = read_fetch;
  parse_list = read_list;
}

-- A router that looks at the method and at the length of the path.
abbrev find_route : Method → List String → Option Matched
find_route get (a ∷ v ∷ r ∷ []) = some (matched_of get_roots "" "")
find_route post (a ∷ v ∷ r ∷ []) = some (matched_of post_roots "" "")
find_route get (a ∷ v ∷ d ∷ id ∷ []) = some (matched_of get_id id "")
find_route post (a ∷ v ∷ d ∷ id ∷ []) = some (matched_of post_id id "")
find_route patch (a ∷ v ∷ d ∷ id ∷ []) = some (matched_of patch_id id "")
find_route delete (a ∷ v ∷ d ∷ id ∷ []) = some (matched_of delete_id id "")
find_route get (a ∷ v ∷ d ∷ id ∷ k ∷ []) =
    some
      (if count_chars k == 8 then matched_of get_children id "" else matched_of get_parents id "")
find_route get (a ∷ v ∷ d ∷ id ∷ k ∷ until ∷ []) = some (matched_of get_parents_until id until)
find_route _ _ = none

abbrev origin : Origin
origin = record {
  path = 47 ∷ [];
  client_ip = 49 ∷ [];
  remote_ip = 49 ∷ [];
  forwarded_proto = [];
  forwarded_host = [];
  url_scheme = [];
  over_tls = false;
  host = 104 ∷ [];
}

abbrev pub front : Front Message
front = record {
  find_route = find_route;
  uuid_parse = λ s. some (count_chars s);
  decode_create = read_creation;
  decode_update = read_update;
  render = answer;
  origin_of = λ url. origin;
  no_route = record { status = 404; body = message "404 page not found" };
}

front-routed :
    (r : Route) (id until : String)
    → find_route (method_of r) (path_of r id until) ≡ some (matched_of r id until)
front-routed get_roots id until = refl
front-routed post_roots id until = refl
front-routed get_id id until = refl
front-routed post_id id until = refl
front-routed patch_id id until = refl
front-routed delete_id id until = refl
front-routed get_children id until = refl
front-routed get_parents id until = refl
front-routed get_parents_until id until = refl

pub front-IsConnected : IsConnected wire front
front-IsConnected = record {
  routed = front-routed;
  parsed_id = λ id. ap (λ n. some n) (count_chars-unary id);
  parsed_list = λ ids p. refl;
}

found_child :
    (asked : List Setting)
    → build_options asked ≡ build_options []
    → (memory_driver around).get_directory 2 asked three ≡ (ok child_dir, three)
unfolding Read.get_directory
found_child asked same = refl

children_asked :
    (asked : List Setting)
    → build_options asked ≡ build_options []
    → (memory_driver around).get_children 2 asked three
      ≡ (memory_driver around).get_children 2 [] three
unfolding Descendants.get_children
children_asked asked same = rw same refl

children_plain : (memory_driver around).get_children 2 [] three ≡ (ok (3 ∷ []), three)
unfolding Descendants.get_children Descendants.get_descendants Read.collect Descendants.descend
    copy_page sort_by_created sort_loop sink get_page_offset wrap64 ◌*ℤ◌ ◌-ℤ◌ ◌+ℤ◌ get_page_size
    build_options get_page make_and_read page_limit apply_all read_from
children_plain = refl

abbrev client : HttpClient DirMap Message
client = connected wire front (memory_driver around)

get_children_served_example : Calls.get_children wire client 2 [] three ≡ (
  ok (record {
    directories = 3 ∷ [];
    pagination = pagination_response (children_origin wire front (memory_driver around) 2 []) 1 [];
  }),
  three,
)
unfolding build_options apply_all
get_children_served_example =
    get_children_served wire front (memory_driver around) [] 0 0 2 child_dir (3 ∷ []) three three
      three front-IsConnected refl refl (omega arith) (omega arith) found_child
      (λ asked same. children_asked asked same ∙ children_plain)

abbrev new_below : CreateDirectoryRequest
new_below = record { name = "n"; metadata = none }

created : (memory_driver around).create_directory (requested new_below (some 2)) three ≡ (
  ok (stamp 4 (time_at 40) (time_at 41) (requested new_below (some 2))),
  (4, directory (stamp 4 (time_at 40) (time_at 41) (requested new_below (some 2)))) ∷ three,
)
unfolding Write.create_directory insert_new load_or_store
created = refl

create_directory_served_example : Calls.create_directory wire client new_below 2 three ≡ (
  ok (stamp 4 (time_at 40) (time_at 41) (requested new_below (some 2))),
  (4, directory (stamp 4 (time_at 40) (time_at 41) (requested new_below (some 2)))) ∷ three,
)
create_directory_served_example =
    create_directory_served wire front (memory_driver around) new_below (creation new_below) 2
      child_dir (stamp 4 (time_at 40) (time_at 41) (requested new_below (some 2))) three three
      ((4, directory (stamp 4 (time_at 40) (time_at 41) (requested new_below (some 2)))) ∷ three)
      front-IsConnected refl refl refl (found_child [] refl) created

missing_nine :
    (asked : List Setting)
    → (memory_driver around).get_directory 9 asked three ≡ (err directory_not_found, three)
unfolding Read.get_directory
missing_nine asked = refl

reading_missing_served_example :
    (Calls.get_directory wire client 9 [] three
      ≡ (err (status_error "error getting directory" 404), three))
    × (Calls.get_children wire client 9 [] three
        ≡ (err (status_error "error getting children" 404), three))
    × (Calls.get_parents wire client 9 [] three
        ≡ (err (status_error "error getting parents" 404), three))
    × (Calls.get_parents_until wire client 9 1 [] three
        ≡ (err (status_error "error getting parents" 404), three))
unfolding build_options apply_all
reading_missing_served_example =
    reading_missing_served wire front (memory_driver around) [] 0 0 9 1 directory_not_found three
      three front-IsConnected refl refl (omega arith) (omega arith)
      (λ asked same. missing_nine asked) refl refl
