-- ===== src/Naming/Text.antt =====
-- The parts of Go's package strings that internal/controller/naming/naming.go uses on a grant:
-- strings.SplitSeq with the separator "," and strings.TrimSpace.
use Prim.Native.Char.{Char, code}
use Prim.Native.String.{[], ◌∷◌}
use forge_operator.Prelude.{ℕ, String, Bool, ◌&&◌, ◌||◌, List, leb, nat_eq, ◌==◌, if◌then◌else◌}

push_front : Char → List String → List String
push_front c List.[] = List.◌∷◌ (c ∷ []) List.[]
push_front c (List.◌∷◌ p ps) = List.◌∷◌ (c ∷ p) ps

unfoldable pub split_comma : String → List String
unfolding push_front
split_comma [] = List.◌∷◌ "" List.[]
split_comma (c ∷ s) =
    let parts = split_comma s in
    if nat_eq (code c) b',' then List.◌∷◌ "" parts else push_front c parts

-- Unicode's White_Space
is_space : ℕ → Bool
is_space n =
    (leb 9 n && leb n 13)
    || nat_eq n 32
    || nat_eq n 0x85
    || nat_eq n 0xa0
    || nat_eq n 0x1680
    || (leb 0x2000 n && leb n 0x200a)
    || nat_eq n 0x2028
    || nat_eq n 0x2029
    || nat_eq n 0x202f
    || nat_eq n 0x205f
    || nat_eq n 0x3000

trim_left : String → String
trim_left [] = ""
trim_left (c ∷ s) = let rest = trim_left s in if is_space (code c) then rest else c ∷ s

trim_right : String → String
trim_right [] = ""
trim_right (c ∷ s) =
    let rest = trim_right s in if is_space (code c) && (rest == "") then "" else c ∷ rest

unfoldable pub trim_space : String → String
unfolding is_space trim_left trim_right
trim_space s = trim_right (trim_left s)
