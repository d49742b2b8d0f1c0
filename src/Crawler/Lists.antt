-- ===== src/Crawler/Lists.antt =====
-- How often a text stands in a list, and the two lists that links are added to.
use world_class_seo_agent_sy.Prelude.{
  ◌≡◌, refl, ap, ℕ, suc, ◌+◌, ◌≤◌, Bool, true, false, not, ◌&&◌, ltb, String, List, [], ◌∷◌, ◌++◌,
  map, length, length-append, contains, All, All-append, ◌==◌, eq_iff, if◌then◌else◌, Bool-cases,
  ltb→lt, inl, inr, arith,
}
use world_class_seo_agent_sy.Crawler.{enqueue_link, enqueue_links}

abbrev pub occurrences : String → List String → ℕ
occurrences u [] = 0
occurrences u (x ∷ xs) = (if x == u then 1 else 0) + occurrences u xs

pub occurrences-append :
    (u : String) (xs ys : List String)
    → occurrences u (xs ++ ys) ≡ occurrences u xs + occurrences u ys
occurrences-append u [] ys = omega arith
occurrences-append u (x ∷ xs) ys = omega (arith, occurrences-append u xs ys)

pub occurrences-absent :
    (u : String) (xs : List String) → contains xs u ≡ false → occurrences u xs ≡ 0
occurrences-absent u [] h = refl
occurrences-absent u (x ∷ xs) h = ground (arith, occurrences-absent u xs)

pub occurrences-present :
    (u : String) (xs : List String) → contains xs u ≡ true → 1 ≤ occurrences u xs
occurrences-present u [] h = cc
occurrences-present u (x ∷ xs) h = ground (arith, occurrences-present u xs)

pub length-map {ℓ κ} :
    {A : Type ℓ} {B : Type κ} (f : A → B) (xs : List A) → length (map f xs) ≡ length xs
length-map f [] = refl
length-map f (x ∷ xs) = omega (arith, length-map f xs)

pub map-snoc {ℓ κ} :
    {A : Type ℓ} {B : Type κ} (f : A → B) (xs : List A) (x : A)
    → map f (xs ++ x ∷ []) ≡ map f xs ++ f x ∷ []
map-snoc f [] x = refl
map-snoc f (y ∷ xs) x = ap (λ ys. f y ∷ ys) (map-snoc f xs x)

abbrev pub urls : List (String × ℕ) → List String
urls queue = map (λ q. q.0) queue

-- What was enqueued is what was handled and what waits, each once, and no more than the limit.
pub record IsLedger (handled : String → ℕ) (count limit : ℕ) (Q : String × ℕ → Type 0)
    (lists : List String × List (String × ℕ)) : Type 0 where
  pub counted : (u : String) → handled u + occurrences u (urls lists.1) ≡ occurrences u lists.0
  pub once : (u : String) → occurrences u lists.0 ≤ 1
  pub total : count + length lists.1 ≡ length lists.0
  pub bounded : length lists.0 ≤ limit
  pub waiting : All Q lists.1

module _ (is_local : String → Bool) (handled : String → ℕ) (count limit : ℕ)
    (Q : String × ℕ → Type 0) (depth : ℕ) where
  enqueue_link-IsLedger :
      (target : String) (lists : List String × List (String × ℕ))
      → (is_local target ≡ true → Q (target, suc depth))
      → IsLedger handled count limit Q lists
      → IsLedger handled count limit Q (enqueue_link is_local limit depth target lists)
  unfolding enqueue_link
  enqueue_link-IsLedger target lists q l =
      elim (Bool-cases
        (is_local target && (not (contains lists.0 target) && ltb (length lists.0) limit))) [
          | inl e ↦
              let unseen : contains lists.0 target ≡ false = ground (arith, e) in
              let room : ltb (length lists.0) limit ≡ true = ground (arith, e) in
              rw e (record {
                counted = λ u. omega (
                  arith,
                  l.counted u,
                  occurrences-append u lists.0 (target ∷ []),
                  ap (occurrences u)
                      (map-snoc (λ (x : String × ℕ). x.0) lists.1 (target, suc depth)),
                  occurrences-append u (urls lists.1) (target ∷ []),
                );
                once = λ u. once_more u unseen;
                total = omega (
                  arith,
                  l.total,
                  length-append lists.0 (target ∷ []),
                  length-append lists.1 ((target, suc depth) ∷ []),
                );
                bounded = omega (
                  arith,
                  length-append lists.0 (target ∷ []),
                  ltb→lt (length lists.0) limit room,
                );
                waiting =
                    All-append Q lists.1 ((target, suc depth) ∷ []) l.waiting
                      (q (ground (arith, e)), tt);
              })
          | inr e ↦ rw e l
        ]
    where
      once_more :
          (u : String)
          → contains lists.0 target ≡ false
          → occurrences u (lists.0 ++ target ∷ []) ≤ 1
      once_more u unseen = ground (
        arith,
        occurrences-append u lists.0 (target ∷ []),
        l.once u,
        occurrences-absent target lists.0 unseen,
        eq_iff target u,
      )

  pub enqueue_links-IsLedger :
      (targets : List String) (lists : List String × List (String × ℕ))
      → All (λ t. is_local t ≡ true → Q (t, suc depth)) targets
      → IsLedger handled count limit Q lists
      → IsLedger handled count limit Q (enqueue_links is_local limit depth targets lists)
  unfolding enqueue_links
  enqueue_links-IsLedger [] lists q l = l
  enqueue_links-IsLedger (target ∷ targets) lists q l =
      enqueue_links-IsLedger targets (enqueue_link is_local limit depth target lists) q.1
        (enqueue_link-IsLedger target lists q.0 l)
