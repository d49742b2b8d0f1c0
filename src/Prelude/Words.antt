-- ===== src/Prelude/Words.antt =====
-- `re.findall(r"[a-z0-9]+", text)`, for ASCII text.
use Prim.Native.Char.{Char, code}
use Prim.Native.String.{String, [], ◌∷◌, ◌++◌}
use mathlib.Core.Path.{◌≡◌, refl}
use mathlib.Core.Bool.{Bool, ◌&&◌, ◌||◌}
use mathlib.Core.List.{List, [] as nil, ◌∷◌ as prepend}
use text.Mathlib.Text.{◌==◌}
use world_class_seo_agent_sy.Prelude.Tests.{leb, if◌then◌else◌}

is_word_char : Char → Bool
is_word_char c = leb 97 (code c) && leb (code c) 122 || leb 48 (code c) && leb (code c) 57

-- The word read so far, and the words that follow it.
flush : String → List String → List String
flush word rest = if word == "" then rest else prepend word rest

words_from : String → String → List String
unfolding is_word_char flush
words_from word [] = flush word nil
words_from word (c ∷ s) =
    let longer = words_from (word ++ c ∷ []) s in
    let ended = flush word (words_from "" s) in if is_word_char c then longer else ended

unfoldable pub words : String → List String
unfolding words_from
words s = words_from "" s

words_test :
    words "seo-audit  2 x" ≡ prepend "seo" (prepend "audit" (prepend "2" (prepend "x" nil)))
unfolding words
words_test = refl
