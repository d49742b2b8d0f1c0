-- ===== src/Robots/Globs.antt =====
-- What it means for a path of robots.txt to match a target, with no search order in it: a star
-- stands for any run of characters, and a path without a final dollar sign matches every longer
-- target too.
use Prim.Native.Char.{Char, code}
use Prim.Native.String.{String, [], ◌∷◌}
use world_class_seo_agent_sy.Prelude.{◌≡◌, ◌⊎◌, inl, inr, Bool, true, false, eqb}

abbrev pub is_star : Char → Bool
is_star c = eqb (code c) 42

-- Some end of the text has the property.
abbrev pub Suffix : (String → Type 0) → String → Type 0
Suffix P [] = P []
Suffix P (c ∷ t) = P (c ∷ t) ⊎ Suffix P t

-- The text begins with the character, and the rest has the property.
abbrev pub Head : Char → (String → Type 0) → String → Type 0
Head q P [] = ⊥
Head q P (c ∷ t) = (code q ≡ code c) × P t

abbrev pub Globs : (anchored : Bool) → String → String → Type 0
Globs anchored [] t = (anchored ≡ false) ⊎ (t ≡ [])
Globs anchored (q ∷ p) t =
    ((is_star q ≡ true) × Suffix (Globs anchored p) t)
    ⊎ ((is_star q ≡ false) × Head q (Globs anchored p) t)

module _ (P : String → Type 0) where
  pub Suffix-here : (t : String) → P t → Suffix P t
  Suffix-here [] h = h
  Suffix-here (c ∷ t) h = inl h

  pub Suffix-nested : (t : String) → Suffix (Suffix P) t → Suffix P t
  Suffix-nested [] h = h
  Suffix-nested (c ∷ t) (inl h) = h
  Suffix-nested (c ∷ t) (inr h) = inr (Suffix-nested t h)

  pub Suffix-tail : (c : Char) (t : String) → Suffix P (c ∷ t) → (P (c ∷ t) → ⊥) → Suffix P t
  Suffix-tail c t (inl h) no_match = absurd (no_match h)
  Suffix-tail c t (inr h) no_match = h

  pub Suffix-Head : (q : Char) (t : String) → Suffix (Head q P) t → Suffix P t
  Suffix-Head q [] h = absurd h
  Suffix-Head q (c ∷ t) (inl h) = inr (Suffix-here t h.1)
  Suffix-Head q (c ∷ t) (inr h) = inr (Suffix-Head q t h)

  pub Suffix-Head_tail : (q c : Char) (t : String) → Suffix (Head q P) (c ∷ t) → Suffix P t
  Suffix-Head_tail q c t (inl h) = Suffix-here t h.1
  Suffix-Head_tail q c t (inr h) = Suffix-Head q t h

pub Suffix-map :
    (P Q : String → Type 0) → ((t : String) → P t → Q t) → (t : String) → Suffix P t → Suffix Q t
Suffix-map P Q f [] h = f [] h
Suffix-map P Q f (c ∷ t) (inl h) = inl (f (c ∷ t) h)
Suffix-map P Q f (c ∷ t) (inr h) = inr (Suffix-map P Q f t h)

module _ (anchored : Bool) (q : Char) (p : String) where
  pub Globs-star :
      is_star q ≡ true → (t : String) → Globs anchored (q ∷ p) t → Suffix (Globs anchored p) t
  Globs-star e t (inl h) = h.1
  Globs-star e t (inr h) = absurd (cc (e, h.0))

  pub Globs-char :
      is_star q ≡ false → (t : String) → Globs anchored (q ∷ p) t → Head q (Globs anchored p) t
  Globs-char e t (inl h) = absurd (cc (e, h.0))
  Globs-char e t (inr h) = h.1
