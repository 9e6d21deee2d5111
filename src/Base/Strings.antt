-- ===== src/Base/Strings.antt =====
-- Go's `+` on strings.
use Prim.Native.String.{String, ◌++◌}
use mathlib.Core.Bool.{Bool}
use text.Mathlib.Text.{◌==◌}

abbrev pub concat : String → String → String
concat s t = s ++ t

-- Go's `==` on strings.
abbrev pub same_text : String → String → Bool
same_text s t = s == t
