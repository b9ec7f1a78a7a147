-- ===== src/Prelude/Maps.antt =====
-- Go's map[string]string, as an association list: a missing key reads as "", and a nil map is
-- the empty list. The program never iterates over such a map.
use Prim.Native.String.{String}
use mathlib.Core.Path.{◌≡◌, refl}
use mathlib.Core.List.{List, [], ◌∷◌}
use native.Mathlib.Omega.{arith}
use text.Mathlib.Text.{◌==◌}
use text.Mathlib.TextEquality.{eq_iff}
use forge_operator.Prelude.Tests.{if◌then◌else◌}

abbrev pub StringMap : Type 0
StringMap = List (String × String)

-- m[k]
unfoldable pub lookup : StringMap → String → String
lookup [] k = ""
lookup ((j, v) ∷ m) k = if j == k then v else lookup m k

-- m[k] = v
unfoldable pub insert : StringMap → String → String → StringMap
insert [] k v = (k, v) ∷ []
insert ((j, w) ∷ m) k v = if j == k then (k, v) ∷ m else (j, w) ∷ insert m k v

pub lookup-insert :
    (m : StringMap) (k j v : String) → lookup (insert m k v) j ≡ (if k == j then v else lookup m j)
unfolding lookup insert
lookup-insert [] k j v = refl
lookup-insert ((i, w) ∷ m) k j v =
    ground (arith, eq_iff k j, eq_iff i k, eq_iff i j, lookup-insert m k j v)
