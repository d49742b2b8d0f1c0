-- ===== src/Prelude/Strings.antt =====
-- The methods of Python's `str` that the program uses, for ASCII text.
use Prim.Native.Nat.{ℕ, zero, suc, ◌+◌, ◌-◌}
use Prim.Native.Char.{Char, code}
use Prim.Native.String.{String, [], ◌∷◌, ◌++◌, count, char_at}
use mathlib.Core.Path.{◌≡◌, refl}
use mathlib.Core.Bool.{Bool, true, false, ◌&&◌, ◌||◌}
use text.Mathlib.Text.{starts_with}
use world_class_seo_agent_sy.Prelude.Tests.{leb, eqb, if◌then◌else◌}

lower_char : Char → Char
lower_char c =
    if leb 65 (code c) && leb (code c) 90
    then char_at "abcdefghijklmnopqrstuvwxyz" (code c - 65)
    else c

-- `s.lower()`
unfoldable pub lower : String → String
unfolding lower_char
lower [] = []
lower (c ∷ s) = lower_char c ∷ lower s

upper_char : Char → Char
upper_char c =
    if leb 97 (code c) && leb (code c) 122
    then char_at "ABCDEFGHIJKLMNOPQRSTUVWXYZ" (code c - 97)
    else c

-- `s.upper()`
unfoldable pub upper : String → String
unfolding upper_char
upper [] = []
upper (c ∷ s) = upper_char c ∷ upper s

replace_from : ℕ → String → String → String → String
replace_from skip old new [] = []
replace_from (suc skip) old new (c ∷ s) = replace_from skip old new s
replace_from zero old new (c ∷ s) =
    let replaced = new ++ replace_from (count old - 1) old new s in
    let kept = c ∷ replace_from zero old new s in if starts_with (c ∷ s) old then replaced else kept

-- `s.replace(old, new)`, for a text `old` that is not empty
unfoldable pub replace : String → String → String → String
unfolding replace_from
replace old new s = replace_from zero old new s

-- `sub in s`
unfoldable pub occurs : String → String → Bool
occurs sub [] = starts_with [] sub
occurs sub (c ∷ s) = starts_with (c ∷ s) sub || occurs sub s

strings_tests :
    (lower "SEO E-commerce" ≡ "seo e-commerce")
    × (replace " / " "-" "geo / aio" ≡ "geo-aio")
    × (occurs "local" "a local shop" ≡ true)
    × (occurs "local" "retail" ≡ false)
unfolding lower replace occurs
strings_tests = (refl, refl, refl, refl)

-- A line boundary of `str.splitlines`.
unfoldable pub is_break : Char → Bool
is_break c =
    leb 10 (code c) && leb (code c) 13
    || leb 28 (code c) && leb (code c) 30
    || eqb (code c) 133
    || leb 8232 (code c) && leb (code c) 8233

-- `c.isspace()`
unfoldable pub is_space : Char → Bool
unfolding is_break
is_space c =
    is_break c
    || (eqb (code c) 9
        || leb 31 (code c) && leb (code c) 32
        || eqb (code c) 160
        || eqb (code c) 5760
        || leb 8192 (code c) && leb (code c) 8202
        || eqb (code c) 8239
        || eqb (code c) 8287
        || eqb (code c) 12288)

-- `not s.strip()`
unfoldable pub blank : String → Bool
unfolding is_space
blank [] = true
blank (c ∷ s) = is_space c && blank s

-- `s[:n]`
unfoldable pub prefix : ℕ → String → String
prefix zero s = []
prefix (suc n) [] = []
prefix (suc n) (c ∷ s) = c ∷ prefix n s

-- `len(s)`, by recursion
abbrev pub text_length : String → ℕ
text_length [] = 0
text_length (c ∷ s) = suc (text_length s)

utf8_size : Char → ℕ
utf8_size c =
    if leb (code c) 127
    then 1
    else if leb (code c) 2047
    then 2
    else if leb (code c) 65535
    then 3
    else 4

-- `len(s.encode("utf-8"))`
unfoldable pub utf8_length : String → ℕ
unfolding utf8_size
utf8_length [] = 0
utf8_length (c ∷ s) = utf8_size c + utf8_length s

-- `s.replace(c, "")`, for a character by its code
unfoldable pub remove_char : ℕ → String → String
remove_char n [] = []
remove_char n (c ∷ s) = let rest = remove_char n s in if eqb (code c) n then rest else c ∷ rest
