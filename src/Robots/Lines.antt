-- ===== src/Robots/Lines.antt =====
-- Lines of robots.txt that hold no white space and no comment are read back.
use Prim.Native.Char.{Char, code}
use Prim.Native.String.{String, [], ◌∷◌, ◌++◌}
use text.Mathlib.TextLemmas.{nil-append, cons-append}
use mathlib.Core.List.{[] as nil, ◌∷◌ as link}
use world_class_seo_agent_sy.Prelude.{
  ◌≡◌, inl, inr, refl, sym, ap, ◌∙◌, false≢true, Bool-cases, Bool, true, false, not, ◌&&◌, eqb,
  ◌==◌, eq_iff, arith,
}
use world_class_seo_agent_sy.Prelude.Strings.{is_break, is_space, lower}
use world_class_seo_agent_sy.Prelude.Lines.{
  prepend, split_from, split_lines, before, after, has_char, lstrip, rstrip, strip,
}
use world_class_seo_agent_sy.Robots.Parse.{line_directive}

-- Neither white space nor `#`.
abbrev pub plain : String → Bool
plain [] = true
plain (c ∷ s) = not (is_space c) && not (eqb (code c) 35) && plain s

plain-append : (s t : String) → plain s ≡ true → plain t ≡ true → plain (s ++ t) ≡ true
plain-append [] t h k = rw (nil-append t) k
plain-append (c ∷ s) t h k =
    rw (cons-append c s t) (ground (arith, plain-append s t (ground arith) k))

space-break : (c : Char) → is_space c ≡ false → is_break c ≡ false
unfolding is_space
space-break c h = ground arith

split_from-plain :
    (v rest : String)
    → plain v ≡ true
    → split_from false (v ++ ("\n" ∷ rest)) ≡ link v (split_from false rest)
unfolding split_from is_break
split_from-plain [] rest h = rw (nil-append ("\n" ∷ rest)) refl
split_from-plain (c ∷ v) rest h =
    let e : is_break c ≡ false = space-break c (ground arith) in
    rw (cons-append c v ("\n" ∷ rest), e) (ap (prepend c) (split_from-plain v rest (ground arith)))

before-plain : (s : String) → plain s ≡ true → before 35 s ≡ s
unfolding before
before-plain [] h = refl
before-plain (c ∷ s) h = ground (arith, before-plain s (ground arith))

strip-plain : (s : String) → plain s ≡ true → strip s ≡ s
unfolding strip
strip-plain s h = rw (lead s h) (trail s h)
  where
    lead : (s : String) → plain s ≡ true → lstrip s ≡ s
    lead [] h = refl
    lead (c ∷ s) h = ground arith

    trail : (s : String) → plain s ≡ true → rstrip s ≡ s
    trail [] h = refl
    trail (c ∷ s) h = ground (arith, trail s (ground arith))

module _ (v : String) where
  before-colon : (f : String) → has_char 58 f ≡ false → before 58 (f ++ (":" ∷ v)) ≡ f
  unfolding before has_char
  before-colon [] h = rw (nil-append (":" ∷ v)) refl
  before-colon (c ∷ f) h =
      rw (cons-append c f (":" ∷ v)) (ground (arith, before-colon f (ground arith)))

  after-colon : (f : String) → has_char 58 f ≡ false → after 58 (f ++ (":" ∷ v)) ≡ v
  unfolding after has_char
  after-colon [] h = rw (nil-append (":" ∷ v)) refl
  after-colon (c ∷ f) h =
      rw (cons-append c f (":" ∷ v)) (ground (arith, after-colon f (ground arith)))

  has_char-colon : (f : String) → has_char 58 (f ++ (":" ∷ v)) ≡ true
  unfolding has_char
  has_char-colon [] = rw (nil-append (":" ∷ v)) refl
  has_char-colon (c ∷ f) = rw (cons-append c f (":" ∷ v)) (ground (arith, has_char-colon f))

  colon-ne-empty : (f : String) → ((f ++ (":" ∷ v)) == "") ≡ false
  unfolding has_char
  colon-ne-empty f = elim (Bool-cases ((f ++ (":" ∷ v)) == "")) [
    | inl e ↦
        absurd (
          false≢true (sym (ap (has_char 58) ((eq_iff (f ++ (":" ∷ v)) "").0 e)) ∙ has_char-colon f))
    | inr e ↦ e
  ]

abbrev pub line : String → String → String
line field value = field ++ (":" ∷ value)

-- A line `field:value` is one directive.
pub line_directive-line :
    (field value : String)
    → plain field ≡ true
    → has_char 58 field ≡ false
    → plain value ≡ true
    → line_directive (line field value)
      ≡ link (record { field = lower field; value = value; raw = line field value }) nil
unfolding line_directive is_space
line_directive-line field value h k p =
    let whole : plain (line field value) ≡ true = plain-append field (":" ∷ value) h p in
    rw
      (
        before-plain (line field value) whole,
        strip-plain (line field value) whole,
        colon-ne-empty value field,
        has_char-colon value field,
        before-colon value field k,
        after-colon value field k,
        strip-plain field h,
        strip-plain value p,
      )
      refl

-- And the first line of what follows it.
pub split_lines-line :
    (field value rest : String)
    → plain field ≡ true
    → plain value ≡ true
    → split_lines (line field value ++ ("\n" ∷ rest)) ≡ link (line field value) (split_lines rest)
unfolding split_lines is_space
split_lines-line field value rest h p =
    split_from-plain (line field value) rest (plain-append field (":" ∷ value) h p)
