-- ===== src/Tests/Http.antt =====
-- The theorems on the server, at a root with a child and a grandchild.
use fertilesoil.Base.{
  ◌≡◌, refl, false, Option, none, some, List, [], ◌∷◌, String, other, ok, arith, raise,
}
use fertilesoil.Base.Int.{pos}
use fertilesoil.Api.{DirectoryId}
use fertilesoil.Storage.Options.{
  Setting, pagination, build_options, get_page, get_page_size, apply_all,
}
use fertilesoil.Storage.DirMap.{DirMap}
use fertilesoil.Storage.Interface.{DirectoryAdmin, memory_driver}
use fertilesoil.Storage.Memory.Tree.{IsTree}
use fertilesoil.Storage.Memory.Read
use fertilesoil.Http.Strconv.{atoi, itoa, atoi-itoa}
use fertilesoil.Http.Query.{no_query, storage_options_from_get_query, client_query}
use fertilesoil.Http.Link.{Origin, pagination_response}
use fertilesoil.Http.Pages.{LinksTo, requested_options, next_link_lem, client_query_lem}
use fertilesoil.Http.Handlers.{
  Request, CreateDirectoryRequest, UpdateDirectoryRequest, post_id, delete_id, patch_id,
  one_directory, create_directory, get_directory,
}
use fertilesoil.Http.Invariant.{serve_all, serve_all-IsTree}
use fertilesoil.Http.Responses.{made_below, created_is_served}
use fertilesoil.Tests.{child_dir, three, three-IsTree, around}

-- A parser of ids that knows two texts.
abbrev pub known : String → Option DirectoryId
known String.[] = some 4
known text = some 2

abbrev origin : Origin
origin = record {
  path = 47 ∷ [];
  client_ip = 49 ∷ [];
  remote_ip = 49 ∷ [];
  forwarded_proto = [];
  forwarded_host = [];
  url_scheme = [];
  over_tls = false;
  host = 104 ∷ [];
}

abbrev new_below : CreateDirectoryRequest
new_below = record { name = "n"; metadata = none }

abbrev renaming : UpdateDirectoryRequest
renaming = record { new_name = some "m"; new_metadata = none }

-- A request on the directory 2, with both bodies.
abbrev pub on_child : Request
on_child = record {
  id = "2";
  until = "2";
  query = no_query;
  origin = origin;
  create_body = some new_below;
  update_body = some renaming;
}

abbrev on_new : Request
on_new = record on_child { id = "" }

serve_all-IsTree_example : IsTree (
    serve_all known
      ((around, post_id, on_child)
        ∷ (around, patch_id, on_child)
        ∷ (around, delete_id, on_child)
        ∷ [])
      three)
serve_all-IsTree_example =
    serve_all-IsTree known
      ((around, post_id, on_child)
        ∷ (around, patch_id, on_child)
        ∷ (around, delete_id, on_child)
        ∷ [])
      three three-IsTree

found_child : Read.get_directory three 2 [] ≡ ok child_dir
unfolding Read.get_directory
found_child = refl

no_settings : storage_options_from_get_query no_query ≡ ok []
unfolding storage_options_from_get_query
no_settings = refl

created_is_served_example :
    (create_directory known (memory_driver around) on_child three).0
      ≡ ok (record {
        status = 201;
        body = one_directory (made_below known around three 2 new_below);
      })
    × (get_directory known
        (memory_driver around)
        on_new
        (create_directory known (memory_driver around) on_child three).1).0
      ≡ ok (record {
        status = 200;
        body = one_directory (made_below known around three 2 new_below);
      })
created_is_served_example =
    created_is_served known around three on_child on_new new_below 2 child_dir [] refl refl
      found_child refl refl no_settings

-- A storage whose reads fail.
abbrev broken : DirectoryAdmin DirMap
broken = record (memory_driver around) { get_directory = λ id settings. raise (other 1) }

-- Three directories a page, the second page.
abbrev second : List Setting
second = pagination (pos 2) (pos 3) ∷ []

next_link_lem_example :
    LinksTo 3 3
      (record (build_options second) { page = pos 3; page_size = pos 3 })
      (pagination_response origin 3 second).next
unfolding build_options apply_all get_page get_page_size
next_link_lem_example = next_link_lem origin 3 second 1 2 refl refl (omega arith) (omega arith)

client_query_lem_example : requested_options (client_query second) ≡ ok (build_options second)
unfolding build_options apply_all
client_query_lem_example = client_query_lem second 2 3 refl refl (omega arith) (omega arith)

atoi-itoa_example : atoi (itoa (pos 120)) ≡ some (pos 120)
atoi-itoa_example = atoi-itoa 120 (omega arith)
