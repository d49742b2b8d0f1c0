-- ===== src/Crawler/Texts.antt =====
-- Membership and repetition in lists of texts that are sorted, filtered, cut off or added to.
use world_class_seo_agent_sy.Prelude.{
  ◌≡◌, refl, ℕ, zero, suc, true, false, not, ◌&&◌, ◌||◌, String, List, [], ◌∷◌, keep, length, take,
  contains, has_duplicates, sort_by, insert_by, All, ◌==◌, eq_iff, eq_refl, arith, ◌++◌,
  contains-append,
}
use world_class_seo_agent_sy.Crawler.{add_host}

contains-insert_by :
    (x : String) (xs : List String) (k : String)
    → contains (insert_by (λ t. t) x xs) k ≡ (x == k || contains xs k)
contains-insert_by x [] k = refl
contains-insert_by x (y ∷ ys) k = ground (arith, contains-insert_by x ys k)

pub contains-sort_by :
    (xs : List String) (k : String) → contains (sort_by (λ t. t) xs) k ≡ contains xs k
contains-sort_by [] k = refl
contains-sort_by (x ∷ xs) k =
    ground (arith, contains-insert_by x (sort_by (λ t. t) xs) k, contains-sort_by xs k)

has_duplicates-insert_by :
    (x : String) (xs : List String)
    → contains xs x ≡ false
    → has_duplicates xs ≡ false
    → has_duplicates (insert_by (λ t. t) x xs) ≡ false
has_duplicates-insert_by x [] c h = refl
has_duplicates-insert_by x (y ∷ ys) c h =
    ground (arith, has_duplicates-insert_by x ys, contains-insert_by x ys y, eq_iff x y, eq_iff y x)

pub has_duplicates-sort_by :
    (xs : List String) → has_duplicates xs ≡ false → has_duplicates (sort_by (λ t. t) xs) ≡ false
has_duplicates-sort_by [] h = refl
has_duplicates-sort_by (x ∷ xs) h = ground (
  arith,
  has_duplicates-insert_by x (sort_by (λ t. t) xs),
  contains-sort_by xs x,
  has_duplicates-sort_by xs,
)

module _ (root : String) where
  pub contains-keep :
      (xs : List String) (k : String)
      → contains (keep (λ h. not (h == root)) xs) k ≡ (not (k == root) && contains xs k)
  contains-keep [] k = ground arith
  contains-keep (x ∷ xs) k =
      ground (arith, contains-keep xs k, eq_iff x k, eq_iff x root, eq_iff k root)

  pub has_duplicates-keep :
      (xs : List String)
      → has_duplicates xs ≡ false
      → has_duplicates (keep (λ h. not (h == root)) xs) ≡ false
  has_duplicates-keep [] h = refl
  has_duplicates-keep (x ∷ xs) h = ground (arith, has_duplicates-keep xs, contains-keep xs x)

pub contains-take :
    (n : ℕ) (xs : List String) (k : String) → contains (take n xs) k ≡ true → contains xs k ≡ true
contains-take zero xs k h = cc
contains-take (suc n) [] k h = cc
contains-take (suc n) (x ∷ xs) k h = ground (arith, contains-take n xs k)

pub has_duplicates-take :
    (n : ℕ) (xs : List String) → has_duplicates xs ≡ false → has_duplicates (take n xs) ≡ false
has_duplicates-take zero xs h = refl
has_duplicates-take (suc n) [] h = refl
has_duplicates-take (suc n) (x ∷ xs) h =
    ground (arith, contains-take n xs x, has_duplicates-take n xs)

-- A text that is left out is left out because as many as the limit are taken.
pub length-take_full :
    (n : ℕ) (xs : List String) (k : String)
    → contains xs k ≡ true
    → contains (take n xs) k ≡ false
    → length (take n xs) ≡ n
length-take_full zero xs k h l = refl
length-take_full (suc n) [] k h l = cc
length-take_full (suc n) (x ∷ xs) k h l = ground (arith, length-take_full n xs k)

pub contains-All :
    (P : String → Type 0) (xs : List String)
    → ((k : String) → contains xs k ≡ true → P k)
    → All P xs
contains-All P [] h = tt
contains-All P (x ∷ xs) h =
    (h x (ground (arith, eq_refl x)), contains-All P xs (λ k c. h k (ground (arith, c))))

pub contains-add_host :
    (hosts : List String) (x k : String)
    → contains (add_host hosts x) k ≡ (contains hosts k || (not (k == "") && x == k))
contains-add_host hosts x k =
    ground (arith, eq_iff x k, eq_iff x "", eq_iff k "", contains-append hosts (x ∷ []) k)

has_duplicates-snoc :
    (xs : List String) (x : String)
    → contains xs x ≡ false
    → has_duplicates xs ≡ false
    → has_duplicates (xs ++ x ∷ []) ≡ false
has_duplicates-snoc [] x c h = refl
has_duplicates-snoc (y ∷ ys) x c h =
    ground (arith, has_duplicates-snoc ys x, contains-append ys (x ∷ []) y, eq_iff x y, eq_iff y x)

pub has_duplicates-add_host :
    (hosts : List String) (x : String)
    → has_duplicates hosts ≡ false
    → has_duplicates (add_host hosts x) ≡ false
has_duplicates-add_host hosts x h = ground (arith, has_duplicates-snoc hosts x)
