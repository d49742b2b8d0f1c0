-- ===== src/Graph/Numbered.antt =====
-- The numbered nodes of a built graph: their ids differ from one another and from the fixed ids.
use Prim.Native.String.{◌++◌ as append, count}
use text.Mathlib.Text.{starts_with}
use text.Mathlib.TextPositions.{starts_with-append}
use text.Mathlib.TextLemmas.{append_cancel_left, append_inj}
use world_class_seo_agent_sy.Prelude.{
  ℕ, zero, suc, ◌+◌, ◌≤◌, ◌<◌, ◌≡◌, ◌≢◌, refl, sym, ap, ◌∙◌, Bool, true, false, not, ◌&&◌, ◌||◌,
  String, List, [], ◌∷◌, ◌++◌, contains, has_duplicates, ◌==◌, eq_iff, All, arith, Bool-cases,
  and_left, and_right, subst, ◌≤◌, inl, inr, length, eqb,
}
use world_class_seo_agent_sy.Prelude.Numerals.{padded}
use world_class_seo_agent_sy.Graph.Nodes.{WorkflowNode, ids}
use world_class_seo_agent_sy.Graph.Build.{slug, numbered_id, numbered}

-- Whether the test passes at `first` and at the `more` numbers behind it.
passes : (ℕ → Bool) → ℕ → ℕ → Bool
passes test first zero = test first
passes test first (suc more) = test first && passes test (suc first) more

passes_at :
    (test : ℕ → Bool) (first more n : ℕ)
    → passes test first more ≡ true
    → first ≤ n
    → n ≤ first + more
    → test n ≡ true
unfolding passes
passes_at test first zero n ok low high =
    let same : first ≡ n = omega arith in subst (λ m. test m ≡ true) same ok
passes_at test first (suc more) n ok low high = elim (Bool-cases (eqb first n)) [
  | inl e ↦ let same : first ≡ n = ground arith in subst (λ m. test m ≡ true) same (and_left _ _ ok)
  | inr e ↦ passes_at test (suc first) more n (and_right _ _ ok) (ground arith) (omega arith)
]

abbrev two_long : ℕ → Bool
two_long i = eqb (count (padded 2 i)) 2

abbrev told_apart : ℕ → ℕ → Bool
told_apart i j = eqb i j || not (padded 2 i == padded 2 j)

lengths_checked : passes two_long 0 9 ≡ true
unfolding passes padded
lengths_checked = refl

pairs_checked : passes (λ i. passes (told_apart i) 0 9) 0 9 ≡ true
unfolding passes padded
pairs_checked = refl

count-padded : (i : ℕ) → i < 10 → count (padded 2 i) ≡ 2
count-padded i h =
    let e = passes_at two_long 0 9 i lengths_checked (omega arith) (omega arith) in ground arith

padded-injective : (i j : ℕ) → i < 10 → j < 10 → padded 2 i ≡ padded 2 j → i ≡ j
padded-injective i j hi hj e =
    let row =
      passes_at (λ k. passes (told_apart k) 0 9) 0 9 i pairs_checked (omega arith) (omega arith) in
    let cell = passes_at (told_apart i) 0 9 j row (omega arith) (omega arith) in
    ground (arith, cell, eq_iff (padded 2 i) (padded 2 j))

numbered_id-ne :
    (p : String) (i j : ℕ) (a b : String) → i < j → j < 10 → numbered_id p i a ≢ numbered_id p j b
numbered_id-ne p i j a b lt h e =
    let tails = append_cancel_left p _ _ e in
    let (same, _) = append_inj tails (count-padded i (omega arith) ∙ sym (count-padded j h)) in
    absurd (omega (arith, padded-injective i j (omega arith) h same))

module _ (p role : String) where
  pub contains-numbered :
      (i : ℕ) (agents : List String) (k : String)
      → starts_with k p ≡ false
      → contains (ids (numbered p role i agents)) k ≡ false
  contains-numbered i [] k h = refl
  contains-numbered i (a ∷ as') k h =
      let prefixed = starts_with-append p (append (padded 2 i) (append "-" (slug a))) in
      elim (Bool-cases (numbered_id p i a == k)) [
        | inl e ↦ cc (prefixed, (eq_iff (numbered_id p i a) k).0 e, h)
        | inr e ↦ rw e (contains-numbered (suc i) as' k h)
      ]

  contains-numbered_later :
      (i j : ℕ) (a : String) (agents : List String)
      → i < j
      → j + length agents ≤ 10
      → contains (ids (numbered p role j agents)) (numbered_id p i a) ≡ false
  contains-numbered_later i j a [] lt h = refl
  contains-numbered_later i j a (b ∷ bs) lt h =
      elim (Bool-cases (numbered_id p j b == numbered_id p i a)) [
        | inl e ↦ absurd (
            numbered_id-ne p i j a b lt (omega arith)
              (sym ((eq_iff (numbered_id p j b) (numbered_id p i a)).0 e)))
        | inr e ↦ rw e (contains-numbered_later i (suc j) a bs (omega arith) (omega arith))
      ]

  -- Behind the numbered nodes stand nodes whose ids do not begin like theirs.
  contains-fixed :
      (tail : List WorkflowNode) (k : String)
      → starts_with k p ≡ true
      → All (λ n. starts_with n.id p ≡ false) tail
      → contains (ids tail) k ≡ false
  contains-fixed [] k h f = refl
  contains-fixed (n ∷ ns) k h (e, f) = elim (Bool-cases (n.id == k)) [
    | inl same ↦ cc (ap (λ s. starts_with s p) ((eq_iff n.id k).0 same), e, h)
    | inr other ↦ rw other (contains-fixed ns k h f)
  ]

  pub contains-numbered_append :
      (i : ℕ) (agents : List String) (tail : List WorkflowNode) (k : String)
      → contains (ids (numbered p role i agents ++ tail)) k
        ≡ (contains (ids (numbered p role i agents)) k || contains (ids tail) k)
  contains-numbered_append i [] tail k = refl
  contains-numbered_append i (a ∷ as') tail k =
      ground (arith, contains-numbered_append (suc i) as' tail k)

  pub has_duplicates-numbered :
      (i : ℕ) (agents : List String) (tail : List WorkflowNode)
      → i + length agents ≤ 10
      → All (λ n. starts_with n.id p ≡ false) tail
      → has_duplicates (ids tail) ≡ false
      → has_duplicates (ids (numbered p role i agents ++ tail)) ≡ false
  has_duplicates-numbered i [] tail h f u = u
  has_duplicates-numbered i (a ∷ as') tail h f u =
      rw
        (
          contains-numbered_append (suc i) as' tail (numbered_id p i a),
          contains-numbered_later i (suc i) a as' (omega arith) (omega arith),
          contains-fixed tail (numbered_id p i a) (starts_with-append p _) f,
        )
        (has_duplicates-numbered (suc i) as' tail (omega arith) f u)

  pub length-numbered :
      (i : ℕ) (agents : List String) → length (numbered p role i agents) ≡ length agents
  length-numbered i [] = refl
  length-numbered i (a ∷ as') = ap suc (length-numbered (suc i) as')

  pub numbered_prefixed :
      (i : ℕ) (agents : List String)
      → All (λ k. starts_with k p ≡ true) (ids (numbered p role i agents))
  numbered_prefixed i [] = tt
  numbered_prefixed i (a ∷ as') = (starts_with-append p _, numbered_prefixed (suc i) as')
