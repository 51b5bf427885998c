-- ===== src/Base/Lines.antt =====
-- The lines of a text.
use Prim.Native.Char.{code}
use Prim.Native.String.{String, ◌∷◌, [], ◌++◌}
use mathlib.Core.List.{List}
use gonit.Base.Tests.{◌==◌, if◌then◌else◌}

-- `strings.Join(msgs, "\n")`
abbrev pub join_lines : List String → String
join_lines List.[] = ""
join_lines (List.◌∷◌ msg List.[]) = msg
join_lines (List.◌∷◌ msg msgs) = msg ++ "\n" ++ join_lines msgs

abbrev pub first_with : String → List String → List String
first_with s List.[] = List.◌∷◌ s List.[]
first_with s (List.◌∷◌ t ts) = List.◌∷◌ (s ++ t) ts

-- `strings.Split(data, "\n")`
unfoldable pub split_lines : String → List String
split_lines [] = List.◌∷◌ "" List.[]
split_lines (c ∷ s) =
    let lines = split_lines s in
    if code c == b'\n' then List.◌∷◌ "" lines else first_with (c ∷ "") lines
