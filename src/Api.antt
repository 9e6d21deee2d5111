-- ===== src/Api.antt =====
-- The data of the program (api/v1/types.gen.go, api/v1/typeshelpers.go, api/v1/event.go).
-- A DirectoryID is a UUID: 16 bytes, read as one number. A `time.Time` is its instant, in
-- nanoseconds from the zero time, with the location that it is shown in.
use fertilesoil.Base.{
  ℕ, String, Bool, false, not, ◌&&◌, ◌||◌, Option, none, some, List, [], ◌∷◌, ◌==◌, ltb, is_none,
  Outcome, ok, err, parsing_id,
}

abbrev pub DirectoryId : Type 0
DirectoryId = ℕ

pub record Time : Type 0 where
  pub instant : ℕ
  pub location : ℕ

-- `t.IsZero()`
abbrev pub is_zero : Time → Bool
is_zero t = t.instant == 0

-- `t.Before(u)`
abbrev pub before : Time → Time → Bool
before t u = ltb t.instant u.instant

-- `t != u`, on the struct
abbrev pub time_ne : Time → Time → Bool
time_ne t u = not (t.instant == u.instant && t.location == u.location)

abbrev pub Metadata : Type 0
Metadata = List (String × String)

pub record Directory : Type 0 where
  pub created_at : Time
  pub deleted_at : Option Time
  pub id : DirectoryId
  pub metadata : Option Metadata
  pub name : String
  pub parent : Option DirectoryId
  pub updated_at : Time

abbrev pub is_root : Directory → Bool
is_root d = is_none d.parent

-- A deletion time that is there and not the zero time.
abbrev pub is_deleted : Directory → Bool
is_deleted d = elim d.deleted_at [ none ↦ false | some t ↦ not (is_zero t) ]

pub data EventType : Type 0 where
  create update delete delete_hard : EventType

pub record DirectoryEvent : Type 0 where
  pub version : String
  pub event_type : EventType
  pub time : Time
  pub directory : Directory

abbrev pub api_version : String
api_version = "v1"

-- `uuid.Parse` is a parameter.
abbrev pub parse_directory_id : (String → Option DirectoryId) → String → Outcome DirectoryId
parse_directory_id uuid_parse s = elim (uuid_parse s) [ none ↦ err parsing_id | some u ↦ ok u ]

-- A directory with this id is in the list.
abbrev pub has_id : DirectoryId → List Directory → Bool
has_id x [] = false
has_id x (d ∷ ds) = d.id == x || has_id x ds
