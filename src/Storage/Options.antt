-- ===== src/Storage/Options.antt =====
-- The options of a storage call (storage/options.go). Go's `int` is 64 bits wide.
use fertilesoil.Base.{Bool, true, false, List, [], ◌∷◌, if◌then◌else◌}
use fertilesoil.Base.Int.{ℤ, pos, ◌-ℤ◌, ◌*ℤ◌, ltb_ℤ, wrap64}

abbrev pub default_page_size : ℤ
default_page_size = pos 10

pub record Options : Type 0 where
  pub with_deleted_directories : Bool
  pub page : ℤ
  pub page_size : ℤ

unfoldable pub get_page : Options → ℤ
get_page o = if ltb_ℤ o.page (pos 1) then pos 1 else o.page

unfoldable pub get_page_size : Options → ℤ
get_page_size o = if ltb_ℤ o.page_size (pos 1) then default_page_size else o.page_size

unfoldable pub get_page_offset : Options → ℤ
get_page_offset o = wrap64 (get_page_size o *ℤ wrap64 (get_page o -ℤ pos 1))

-- `Option`, a change to the options.
pub data Setting : Type 0 where
  with_deleted : Setting
  pagination : ℤ → ℤ → Setting

abbrev pub apply_setting : Setting → Options → Options
apply_setting with_deleted o = record o { with_deleted_directories = true }
apply_setting (pagination page size) o = record o { page = page; page_size = size }

-- `new(Options)`
abbrev pub no_options : Options
no_options = record { with_deleted_directories = false; page = pos 0; page_size = pos 0 }

unfoldable pub apply_all : List Setting → Options → Options
apply_all [] o = o
apply_all (s ∷ ss) o = apply_all ss (apply_setting s o)

unfoldable pub build_options : List Setting → Options
unfolding apply_all
build_options settings = apply_all settings no_options
