-- ===== src/Prelude/Names.antt =====
-- Lists of texts as sets: `HashSet<String>`.
use Prim.Native.String.{String}
use mathlib.Core.Bool.{Bool, true, not, ◌&&◌}
use mathlib.Core.List.{List, [], ◌∷◌}
use overacp.Prelude.Tests.{◌==◌, string_eq}
use overacp.Prelude.Lists.{any}

-- `contains`
abbrev pub includes : List String → String → Bool
includes ids i = any (λ j. j == i) ids

-- Whether no text of a list is there twice.
unfoldable pub distinct : List String → Bool
distinct [] = true
distinct (i ∷ ids) = not (includes ids i) && distinct ids
