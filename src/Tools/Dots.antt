-- ===== src/Tools/Dots.antt =====
-- `host.rstrip(".")`
use Prim.Native.Char.{code}
use Prim.Native.String.{String, [], ◌∷◌}
use world_class_seo_agent_sy.Prelude.{◌≡◌, refl, eqb, ◌&&◌, ◌==◌, if◌then◌else◌}

unfoldable pub without_dots : String → String
without_dots [] = []
without_dots (c ∷ s) =
    let rest = without_dots s in if eqb (code c) 46 && rest == "" then [] else c ∷ rest

without_dots_tests : (without_dots "a.b.." ≡ "a.b") × (without_dots "." ≡ "")
unfolding without_dots
without_dots_tests = (refl, refl)
