-- ===== src/Tests.antt =====
-- Concrete data, and the theorems at it.
pub mod Memory
pub mod Line
pub mod App
pub mod Notifier
pub mod Http
pub mod Crdb
pub mod Client
pub mod System
pub mod Start
pub mod Cmd
use fertilesoil.Base.{
  ℕ, ◌<◌, ◌+◌, ◌≡◌, refl, Option, none, some, List, [], ◌∷◌, arith, Error, Outcome, ok, err,
}
use fertilesoil.Base.Int.{int_half}
use fertilesoil.Api.{DirectoryId, Time, Directory}
use fertilesoil.Storage.Options.{Options, build_options, get_page, get_page_size}
use fertilesoil.Storage.Paging.Laws.{page_of, size_of, skipped}
use fertilesoil.Storage.DirMap.{DirMap, directory}
use fertilesoil.Storage.Interface.{Surroundings}
use fertilesoil.Storage.Memory.Tree.{IsTree}

abbrev pub time_at : ℕ → Time
time_at n = record { instant = n; location = 0 }

abbrev pub plain : DirectoryId → Option DirectoryId → ℕ → Directory
plain id parent n = record {
  created_at = time_at n;
  deleted_at = none;
  id = id;
  metadata = some [];
  name = "d";
  parent = parent;
  updated_at = time_at n;
}

abbrev pub root_dir : Directory
root_dir = plain 1 none 10

abbrev pub child_dir : Directory
child_dir = plain 2 (some 1) 20

abbrev pub grandchild_dir : Directory
grandchild_dir = plain 3 (some 2) 30

-- A root, its child and its grandchild.
abbrev pub three : DirMap
three = (3, directory grandchild_dir) ∷ (2, directory child_dir) ∷ (1, directory root_dir) ∷ []

pub three-IsTree : IsTree three
three-IsTree = (
  refl,
  refl,
  λ p h. ground arith,
  (refl, refl, λ p h. ground arith, (refl, refl, λ p h. ground arith, tt)),
)

pub plain_page : page_of (build_options []) < int_half
unfolding build_options get_page
plain_page = omega arith

pub plain_end : skipped (build_options []) + size_of (build_options []) < int_half
unfolding build_options get_page get_page_size
plain_end = omega arith

abbrev pub around : Surroundings
around = record { visit = λ m. m; new_id = 4; now = time_at 40; later = time_at 41 }
