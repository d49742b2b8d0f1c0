-- ===== src/Prelude/Lines.antt =====
-- Lines and white space: `str.splitlines`, `str.strip` and `str.split` with a limit of one.
use Prim.Native.Nat.{ℕ}
use Prim.Native.Char.{Char, code}
use Prim.Native.String.{String, [], ◌∷◌}
use mathlib.Core.Path.{◌≡◌, refl}
use mathlib.Core.Bool.{Bool, false, ◌&&◌, ◌||◌}
use mathlib.Core.List.{List, [] as nil, ◌∷◌ as link}
use text.Mathlib.Text.{◌==◌}
use world_class_seo_agent_sy.Prelude.Tests.{eqb, if◌then◌else◌}
use world_class_seo_agent_sy.Prelude.Strings.{is_break, is_space}

unfoldable pub prepend : Char → List String → List String
prepend c nil = link (c ∷ []) nil
prepend c (link line lines) = link (c ∷ line) lines

unfoldable pub split_from : Bool → String → List String
unfolding prepend is_break
split_from after_cr [] = nil
split_from after_cr (c ∷ s) =
    let joined = split_from false s in
    let broken = link "" (split_from (eqb (code c) 13) s) in
    let further = prepend c (split_from false s) in
    if after_cr && eqb (code c) 10 then joined else if is_break c then broken else further

-- `s.splitlines()`
unfoldable pub split_lines : String → List String
unfolding split_from
split_lines s = split_from false s

-- `s.split(c, 1)[0]`, for a character by its code
unfoldable pub before : ℕ → String → String
before n [] = []
before n (c ∷ s) = let rest = before n s in if eqb (code c) n then [] else c ∷ rest

-- `s.split(c, 1)[1]`, where there is one
unfoldable pub after : ℕ → String → String
after n [] = []
after n (c ∷ s) = if eqb (code c) n then s else after n s

-- `c in s`
unfoldable pub has_char : ℕ → String → Bool
has_char n [] = false
has_char n (c ∷ s) = eqb (code c) n || has_char n s

unfoldable pub lstrip : String → String
unfolding is_space
lstrip [] = []
lstrip (c ∷ s) = if is_space c then lstrip s else c ∷ s

unfoldable pub rstrip : String → String
unfolding is_space
rstrip [] = []
rstrip (c ∷ s) = let rest = rstrip s in if is_space c && rest == "" then [] else c ∷ rest

-- `s.strip()`
unfoldable pub strip : String → String
unfolding lstrip rstrip
strip s = rstrip (lstrip s)

lines_tests :
    (split_lines "a: b \r\n\n#" ≡ link "a: b " (link "" (link "#" nil)))
    × (strip "  a b  " ≡ "a b")
    × (after 58 "a:b:c" ≡ "b:c")
unfolding split_lines strip after
lines_tests = (refl, refl, refl)
