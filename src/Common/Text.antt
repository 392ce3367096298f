-- ===== src/Common/Text.antt =====
-- Tests on text.
use Prim.Native.String.{String}
use mathlib.Core.Bool.{Bool}
use text.Mathlib.Text.{◌==◌}

-- `not s`
abbrev pub is_empty : String → Bool
is_empty s = s == ""
