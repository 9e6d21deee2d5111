-- ===== src/Http/Responses.antt =====
-- What the handlers answer.
use fertilesoil.Base.{
  ◌≡◌, refl, ap, ◌∙◌, false, Option, none, some, List, [], String, Error, Outcome, ok, err, panic,
  nil_dereference, is_not_found, resume, ==_self,
}
use fertilesoil.Api.{DirectoryId, Directory, parse_directory_id}
use fertilesoil.Storage.Options.{Setting}
use fertilesoil.Storage.DirMap.{DirMap, lookup}
use fertilesoil.Storage.Interface.{DirectoryAdmin, Surroundings, memory_driver}
use fertilesoil.Storage.Memory.Write.{stamp}
use fertilesoil.Storage.Memory.Writes.{get_directory-create_directory, create_directory_fresh}
use fertilesoil.Http.Query.{storage_options_from_get_query}
use fertilesoil.Http.Handlers.{
  Request, CreateDirectoryRequest, UpdateDirectoryRequest, requested, one_directory, internal_error,
  respond, create_directory, get_directory, update_directory,
}
use fertilesoil.Storage.Memory.Read
use fertilesoil.Storage.Memory.Write

module _ (uuid_parse : String → Option DirectoryId) {S : Type 0} (t : DirectoryAdmin S) where
  -- When the storage fails to read, for another reason than that the directory is not there, the
  -- handler of updates panics, before it writes anything.
  pub update_directory_unread :
      (r : Request) (req : UpdateDirectoryRequest) (id : DirectoryId) (e : Error) (before after : S)
      → parse_directory_id uuid_parse r.id ≡ ok id
      → r.update_body ≡ some req
      → t.get_directory id [] before ≡ (err e, after)
      → is_not_found e ≡ false
      → update_directory uuid_parse t r before ≡ (panic nil_dereference, after)
  unfolding update_directory
  update_directory_unread r req id e before after parsed body failed unfound =
      rw (parsed, body, failed, unfound) refl

module _ (uuid_parse : String → Option DirectoryId) (e : Surroundings) (m : DirMap) where
  -- The directory that a request makes below the directory `p`.
  abbrev pub made_below : DirectoryId → CreateDirectoryRequest → Directory
  made_below p req = stamp e.new_id e.now e.later (requested req (some p))

  answered :
      (x : Outcome Directory × DirMap) (c : Directory)
      → x.0 ≡ ok c
      → resume x internal_error (λ d. respond 201 (one_directory d))
        ≡ (ok (record { status = 201; body = one_directory c }), x.1)
  answered (r, s) c made = rw made refl

  create_directory_answer :
      (r : Request) (req : CreateDirectoryRequest) (p : DirectoryId) (d : Directory)
      → parse_directory_id uuid_parse r.id ≡ ok p
      → r.create_body ≡ some req
      → Read.get_directory m p [] ≡ ok d
      → lookup e.new_id m ≡ none
      → create_directory uuid_parse (memory_driver e) r m ≡ (
        ok (record { status = 201; body = one_directory (made_below d.id req) }),
        (Write.create_directory e.new_id e.now e.later (requested req (some d.id)) m).1,
      )
  unfolding create_directory
  create_directory_answer r req p d parsed body found fresh =
      rw (parsed, body, found)
        (answered (Write.create_directory e.new_id e.now e.later (requested req (some d.id)) m)
          (made_below d.id req)
          (create_directory_fresh e.new_id e.now e.later (requested req (some d.id)) m refl fresh))

  get_directory_answer :
      (g : Request) (id : DirectoryId) (settings : List Setting) (c : Directory) (s : DirMap)
      → parse_directory_id uuid_parse g.id ≡ ok id
      → storage_options_from_get_query g.query ≡ ok settings
      → Read.get_directory s id settings ≡ ok c
      → get_directory uuid_parse (memory_driver e) g s
        ≡ (ok (record { status = 200; body = one_directory c }), s)
  unfolding get_directory
  get_directory_answer g id settings c s parsed read found = rw (read, parsed, found) refl

  -- In-memory, a POST below a directory that is found, with a body that is accepted and a new id that is
  -- not in use, answers 201 with the directory that it made: the new id, the two times, the name and
  -- the metadata of the body, and the found directory as its parent. A GET of that id right after it,
  -- with a query that is accepted, answers 200 with the same directory.
  pub created_is_served :
      (r g : Request) (req : CreateDirectoryRequest) (p : DirectoryId) (d : Directory)
      (settings : List Setting)
      → parse_directory_id uuid_parse r.id ≡ ok p
      → r.create_body ≡ some req
      → Read.get_directory m p [] ≡ ok d
      → lookup e.new_id m ≡ none
      → parse_directory_id uuid_parse g.id ≡ ok e.new_id
      → storage_options_from_get_query g.query ≡ ok settings
      → (create_directory uuid_parse (memory_driver e) r m).0
          ≡ ok (record { status = 201; body = one_directory (made_below d.id req) })
        × (get_directory uuid_parse
            (memory_driver e)
            g
            (create_directory uuid_parse (memory_driver e) r m).1).0
          ≡ ok (record { status = 200; body = one_directory (made_below d.id req) })
  created_is_served r g req p d settings parsed body found fresh asked read =
      let after = (Write.create_directory e.new_id e.now e.later (requested req (some d.id)) m).1 in
      let stored : Read.get_directory after e.new_id settings ≡ ok (made_below d.id req) =
        get_directory-create_directory e.new_id e.now e.later (requested req (some d.id)) m d.id
          e.new_id settings refl refl fresh
        ∙ rw (==_self e.new_id) refl in
      rw (create_directory_answer r req p d parsed body found fresh) (
        refl,
        ap (λ x. x.0)
            (get_directory_answer g e.new_id settings (made_below d.id req) after asked read
              stored),
      )
