-- ===== src/Agents/Fences.antt =====
-- `_extract_json`: the code fence around an answer, and the text from the first brace to the last.
use Prim.Native.Char.{code}
use Prim.Native.String.{String, [], ◌∷◌}
use world_class_seo_agent_sy.Prelude.{
  ℕ, zero, suc, Bool, true, false, eqb, ◌==◌, Option, none, some, ◌≡◌, refl, if◌then◌else◌,
}
use world_class_seo_agent_sy.Prelude.Strings.{prefix, lower}
use world_class_seo_agent_sy.Prelude.Lines.{strip, lstrip, rstrip}
use text.Mathlib.Text.{starts_with}

abbrev pub skip : ℕ → String → String
skip zero s = s
skip (suc n) [] = []
skip (suc n) (c ∷ s) = skip n s

cut_end : String → String
cut_end [] = []
cut_end (c ∷ s) = let rest = c ∷ cut_end s in if c ∷ s == "```" then [] else rest

-- Without "```" at the end, and the white space before it.
unfoldable pub without_end : String → String
unfolding cut_end
without_end s = rstrip (cut_end s)

ends_in_fence : String → Bool
ends_in_fence [] = false
ends_in_fence (c ∷ s) = let later = ends_in_fence s in if c ∷ s == "```" then true else later

-- "```" or "```json" at the start, and the white space behind it.
unfoldable pub without_start : String → String
without_start s =
    let rest = skip 3 s in
    if lower (prefix 4 rest) == "json" then lstrip (skip 4 rest) else lstrip rest

unfoldable pub unfenced : String → String
unfolding ends_in_fence
unfenced content =
    let text = strip content in
    let inner = without_start text in
    if starts_with text "```"
    then (if ends_in_fence inner then without_end inner else inner)
    else text

from_first : ℕ → String → Option String
from_first n [] = none
from_first n (c ∷ s) = if eqb (code c) n then some (c ∷ s) else from_first n s

to_last : ℕ → String → Option String
to_last n [] = none
to_last n (c ∷ s) = elim (to_last n s) [
  | some t ↦ some (c ∷ t)
  | none ↦ if eqb (code c) n then some (c ∷ []) else none
]

-- `text[text.find("{") : text.rfind("}") + 1]`
unfoldable pub object_text : String → Option String
unfolding from_first to_last
object_text text = elim (from_first 123 text) [ none ↦ none | some t ↦ to_last 125 t ]

fences_tests :
    (unfenced " ```JSON\n{a}\n``` " ≡ "{a}")
    × (object_text "so: {a} {b}." ≡ some "{a} {b}")
    × (object_text "} {" ≡ none)
unfolding unfenced strip lstrip rstrip lower prefix without_start without_end object_text
fences_tests = (refl, refl, refl)
