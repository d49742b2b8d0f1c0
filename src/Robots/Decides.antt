-- ===== src/Robots/Decides.antt =====
-- The matcher decides `Globs`, and has done so before the work is up unless little was left.
use Prim.Native.Char.{Char, code}
use Prim.Native.String.{String, [], ◌∷◌}
use world_class_seo_agent_sy.Prelude.{
  ◌≡◌, ◌↔◌, inl, inr, refl, ℕ, zero, suc, ◌+◌, ◌*◌, ◌≤◌, ◌<◌, Bool, true, false, eqb, none, some,
  ok, err, Bool-cases, arith,
}
use world_class_seo_agent_sy.Prelude.Strings.{text_length}
use world_class_seo_agent_sy.Robots.Globs.{
  is_star, Suffix, Head, Globs, Suffix-here, Suffix-nested, Suffix-tail, Suffix-Head_tail,
  Suffix-map, Globs-star, Globs-char,
}
use world_class_seo_agent_sy.Robots.Matcher.{
  Back, Found, all_stars, retry, glob_from, ends_in_dollar, pattern_of, matches_path,
}

-- An answer is right about `G`, the work left has `L`, and where there is no answer `E` holds.
abbrev pub Answers : Type 0 → Type 0 → (ℕ → Type 0) → Found → Type 0
Answers G E L (ok (true, left)) = G × L left
Answers G E L (ok (false, left)) = (G → ⊥) × L left
Answers G E L (err e) = E

Answers-ok :
    (G E : Type 0) (L : ℕ → Type 0) (b : Bool) (left : ℕ)
    → (b ≡ true) ↔ G
    → L left
    → Answers G E L (ok (b, left))
Answers-ok G E L true left e l = (e.0 refl, l)
Answers-ok G E L false left e l = (λ g. cc (e.1 g), l)

all_stars-Globs : (anchored : Bool) (p : String) → all_stars p ≡ true → Globs anchored p []
unfolding all_stars
all_stars-Globs anchored [] h = inr refl
all_stars-Globs anchored (q ∷ p) h = inl (ground arith, all_stars-Globs anchored p (ground arith))

Globs-all_stars : (anchored : Bool) (p : String) → Globs anchored p [] → all_stars p ≡ true
unfolding all_stars
Globs-all_stars anchored [] h = refl
Globs-all_stars anchored (q ∷ p) (inl h) = rw h.0 (Globs-all_stars anchored p h.1)
Globs-all_stars anchored (q ∷ p) (inr h) = absurd h.1

not_at_end :
    (anchored : Bool) (c : Char) (t : String) → anchored ≡ true → Globs anchored [] (c ∷ t) → ⊥
not_at_end anchored c t e (inl h) = cc (e, h)
not_at_end anchored c t e (inr h) = cc h

-- `G` is the question that was asked, `E` what an exception tells, `L` what is to hold of the work
-- left, and `k` is above every pattern.
module _ (G E : Type 0) (L : ℕ → Type 0) (anchored : Bool) (k : ℕ) where
  -- What the star tried last says of the question; `m` bounds the target that is left to retry.
  abbrev Saved : ℕ → String → String → Back → Type 0
  Saved m p t none = G → Globs anchored p t
  Saved m p t (some (bp, bt)) =
      (G ↔ Suffix (Globs anchored bp) bt)
      × (Globs anchored bp bt → Globs anchored p t)
      × (text_length t ≤ text_length bt)
      × (text_length bt ≤ m)
      × (text_length bp < k)

  record Inv (work m : ℕ) (p t : String) (back : Back) : Type 0 where
    now : Globs anchored p t → G
    later : G → Suffix (Globs anchored p) t
    saved : Saved m p t back
    target_bound : text_length t ≤ m
    pattern_bound : text_length p < k
    spent : work ≤ m * k + text_length p → E
    rest : (left : ℕ) → work ≤ left + (m * k + text_length p) → L left

  Inv-restart :
      (work m : ℕ) (p t : String)
      → G ↔ Suffix (Globs anchored p) t
      → text_length t ≤ m
      → text_length p < k
      → (work ≤ m * k + text_length p → E)
      → ((left : ℕ) → work ≤ left + (m * k + text_length p) → L left)
      → Inv work m p t (some (p, t))
  Inv-restart work m p t e ht hp he hl = record {
    now = λ g. e.1 (Suffix-here (Globs anchored p) t g);
    later = e.0;
    saved = (e, λ g. g, omega arith, ht, hp);
    target_bound = ht;
    pattern_bound = hp;
    spent = he;
    rest = hl;
  }

  Saved-char :
      (m : ℕ) (q c : Char) (p t : String) (back : Back)
      → is_star q ≡ false
      → Saved m (q ∷ p) (c ∷ t) back
      → Saved m p t back
  Saved-char m q c p t none e h = λ g. (Globs-char anchored q p e (c ∷ t) (h g)).1
  Saved-char m q c p t (some (bp, bt)) e (same, down, shorter, ht, hp) =
      (same, λ g. (Globs-char anchored q p e (c ∷ t) (down g)).1, omega arith, ht, hp)

  Inv-char :
      (work m : ℕ) (q c : Char) (p t : String) (back : Back)
      → Inv (suc work) m (q ∷ p) (c ∷ t) back
      → is_star q ≡ false
      → code q ≡ code c
      → Inv work m p t back
  Inv-char work m q c p t back i e same = record {
    now = λ g. i.now (inr (e, (same, g)));
    later = λ g. Suffix-Head_tail (Globs anchored p) q c t (
        Suffix-map (Globs anchored (q ∷ p)) (Head q (Globs anchored p)) (Globs-char anchored q p e)
          (c ∷ t) (i.later g));
    saved = Saved-char m q c p t back e i.saved;
    target_bound = omega (arith, i.target_bound);
    pattern_bound = omega (arith, i.pattern_bound);
    spent = λ h. i.spent (omega (arith, h));
    rest = λ left h. i.rest left (omega (arith, h));
  }

  retry-Answers :
      (work m : ℕ) (p t : String) (c : Char) (back : Back) (next : String → String → Back → Found)
      → ((m' : ℕ) (p' t' : String) (b : Back) → Inv work m' p' t' b → Answers G E L (next p' t' b))
      → Inv (suc work) m p (c ∷ t) back
      → (Globs anchored p (c ∷ t) → ⊥)
      → Answers G E L (retry work back next)
  retry-Answers work m p t c none next ih i no_match =
      (λ g. no_match (i.saved g), i.rest work (grind (arith, i.target_bound, i.pattern_bound)))
  retry-Answers work m p t c (some (bp, [])) next ih i no_match = absurd (omega (arith, i.saved.2))
  retry-Answers work zero p t c (some (bp, x ∷ bt)) next ih i no_match =
      absurd (omega (arith, i.saved.3))
  retry-Answers work (suc m) p t c (some (bp, x ∷ bt)) next ih i no_match =
      let (same, down, shorter, ht, hp) = i.saved in
      ih m bp bt (some (bp, bt)) (
        Inv-restart work m bp bt
          (
            λ g. Suffix-tail (Globs anchored bp) x bt (same.0 g) (λ d. no_match (down d)),
            λ d. same.1 (inr d),
          )
          (omega arith) hp (λ h. i.spent (omega (arith, h, hp)))
          (λ left h. i.rest left (omega (arith, h, hp))))

  glob_from-Answers :
      (work m : ℕ) (p t : String) (back : Back)
      → Inv work m p t back
      → Answers G E L (glob_from work anchored p t back)
  unfolding glob_from
  glob_from-Answers work m p [] back i =
      Answers-ok G E L (all_stars p) work
        (λ h. i.now (all_stars-Globs anchored p h), λ g. Globs-all_stars anchored p (i.later g))
        (i.rest work (omega arith))
  glob_from-Answers zero m p (c ∷ t) back i = i.spent (omega arith)
  glob_from-Answers (suc work) m [] (c ∷ t) back i = elim (Bool-cases anchored) [
    | inr e ↦ rw e (i.now (inl e), i.rest work (grind (arith, i.target_bound, i.pattern_bound)))
    | inl e ↦ rw e (
        retry-Answers work m [] t c back (glob_from work anchored) (glob_from-Answers work) i
          (not_at_end anchored c t e))
  ]
  glob_from-Answers (suc work) m (q ∷ p) (c ∷ t) back i = elim (Bool-cases (is_star q)) [
    | inl e ↦ rw e (
        glob_from-Answers work m p (c ∷ t) (some (p, c ∷ t)) (
          Inv-restart work m p (c ∷ t)
            (
              λ g. Suffix-nested (Globs anchored p) (c ∷ t) (
                  Suffix-map (Globs anchored (q ∷ p)) (Suffix (Globs anchored p))
                    (Globs-star anchored q p e) (c ∷ t) (i.later g)),
              λ g. i.now (inl (e, g)),
            )
            i.target_bound (omega (arith, i.pattern_bound)) (λ h. i.spent (omega (arith, h)))
            (λ left h. i.rest left (omega (arith, h)))))
    | inr e ↦ rw e (elim (Bool-cases (eqb (code q) (code c))) [
      | inl same ↦ rw same (
          glob_from-Answers work m p t back
            (Inv-char work m q c p t back i e (ground (arith, same))))
      | inr other ↦ rw other (
          retry-Answers work m (q ∷ p) t c back (glob_from work anchored) (glob_from-Answers work) i
            (λ g. ground (arith, other, (Globs-char anchored q p e (c ∷ t) g).0)))
    ])
  ]

-- The work that is enough for a path and a target.
abbrev pub enough : String → String → ℕ
enough path target = (text_length target + 1) * (text_length (pattern_of path) + 1)

pub matches_path-Answers :
    (path target : String) (work : ℕ)
    → Answers
        (Globs (ends_in_dollar path) (pattern_of path) target)
        (work < enough path target)
        (λ left. work ≤ left + enough path target)
        (matches_path path target work)
unfolding matches_path
matches_path-Answers path target work =
    glob_from-Answers (Globs (ends_in_dollar path) (pattern_of path) target)
      (work < enough path target) (λ left. work ≤ left + enough path target) (ends_in_dollar path)
      (text_length (pattern_of path) + 1) work (text_length target) (pattern_of path) target none
      (record {
        now = λ g. g;
        later = λ g. Suffix-here (Globs (ends_in_dollar path) (pattern_of path)) target g;
        saved = λ g. g;
        target_bound = omega arith;
        pattern_bound = omega arith;
        spent = λ h. grind (arith, h);
        rest = λ left h. grind (arith, h);
      })
