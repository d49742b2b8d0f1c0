-- ===== src/Prelude/Texts.antt =====
-- Texts as keys: tests, membership in a list of texts, association lists, and sorting.
use Prim.Native.Nat.{Ordering}
use Prim.Native.String.{String, compare, ◌++◌ as append}
use mathlib.Core.Path.{◌≡◌, refl}
use mathlib.Core.Bool.{Bool, true, false, ◌&&◌, ◌||◌}
use mathlib.Core.Option.{Option, none, some}
use mathlib.Core.List.{List, [], ◌∷◌, ◌++◌}
use native.Mathlib.Omega.{arith}
pub use text.Mathlib.Text.{◌==◌}
pub use text.Mathlib.TextEquality.{eq_iff}
pub use text.Mathlib.TextPositions.{eq_refl}
use world_class_seo_agent_sy.Prelude.Tests.{if◌then◌else◌}

-- `x in xs`
abbrev pub contains : List String → String → Bool
contains [] x = false
contains (y ∷ ys) x = y == x || contains ys x

-- `set(xs).issubset(ys)`
abbrev pub subset : List String → List String → Bool
subset [] ys = true
subset (x ∷ xs) ys = contains ys x && subset xs ys

-- `len(xs) != len(set(xs))`, by looking for a repetition
abbrev pub has_duplicates : List String → Bool
has_duplicates [] = false
has_duplicates (x ∷ xs) = contains xs x || has_duplicates xs

pub contains-append :
    (xs ys : List String) (a : String) → contains (xs ++ ys) a ≡ (contains xs a || contains ys a)
contains-append [] ys a = refl
contains-append (x ∷ xs) ys a = ground (arith, contains-append xs ys a)

pub contains-head : (x : String) (xs : List String) → contains (x ∷ xs) x ≡ true
contains-head x xs = rw eq_refl

pub subset-contains :
    (xs ys : List String) (a : String)
    → subset xs ys ≡ true
    → contains xs a ≡ true
    → contains ys a ≡ true
subset-contains [] ys a h m = cc
subset-contains (x ∷ xs) ys a h m = ground (arith, eq_iff x a, subset-contains xs ys a)

subset-weaken : (x : String) (xs ys : List String) → subset xs ys ≡ true → subset xs (x ∷ ys) ≡ true
subset-weaken x [] ys h = refl
subset-weaken x (y ∷ xs) ys h = ground (arith, subset-weaken x xs ys)

pub subset_refl : (xs : List String) → subset xs xs ≡ true
subset_refl [] = refl
subset_refl (x ∷ xs) = rw (eq_refl, subset-weaken x xs xs (subset_refl xs))

pub subset-of_contains :
    (xs ys : List String)
    → ((k : String) → contains xs k ≡ true → contains ys k ≡ true)
    → subset xs ys ≡ true
subset-of_contains [] ys h = refl
subset-of_contains (x ∷ xs) ys h =
    rw (h x (contains-head x xs)) (subset-of_contains xs ys (λ k m. h k (ground (arith, m))))

pub contains-of_eq :
    (a b : String) (xs : List String) → a ≡ b → contains xs a ≡ true → contains xs b ≡ true
contains-of_eq a b xs e h = rw (← e) h

module _ {ℓ} {V : Type ℓ} where
  -- `table.get(wanted)`, for a dict whose keys are texts
  abbrev pub lookup : String → List (String × V) → Option V
  lookup wanted [] = none
  lookup wanted (entry ∷ table) = if entry.0 == wanted then some entry.1 else lookup wanted table

  -- `table[key] = value`: where the key stands, or at the end
  abbrev pub insert : String → V → List (String × V) → List (String × V)
  insert key value [] = (key, value) ∷ []
  insert key value (entry ∷ table) =
      let further = entry ∷ insert key value table in
      if entry.0 == key then (entry.0, value) ∷ table else further

  pub lookup-insert :
      (key wanted : String) (value : V) (table : List (String × V))
      → lookup wanted (insert key value table)
        ≡ (if key == wanted then some value else lookup wanted table)
  lookup-insert key wanted value [] = refl
  lookup-insert key wanted value (entry ∷ table) = ground (
    arith,
    lookup-insert key wanted value table,
    eq_iff key wanted,
    eq_iff entry.0 wanted,
    eq_iff entry.0 key,
  )

-- The order of texts by code points, as Python compares them.
abbrev pub text_le : String → String → Bool
text_le a b = elim (compare a b) [ Ordering.gt ↦ false | _ ↦ true ]

-- `sorted(xs, key=key)`: stable
module _ {ℓ} {A : Type ℓ} (key : A → String) where
  abbrev pub insert_by : A → List A → List A
  insert_by a [] = a ∷ []
  insert_by a (b ∷ bs) =
      let rest = insert_by a bs in if text_le (key a) (key b) then a ∷ b ∷ bs else b ∷ rest

  abbrev pub sort_by : List A → List A
  sort_by [] = []
  sort_by (a ∷ as') = insert_by a (sort_by as')

-- `xs == ys`, for lists of texts
abbrev pub texts_eq : List String → List String → Bool
texts_eq [] [] = true
texts_eq [] (y ∷ ys) = false
texts_eq (x ∷ xs) [] = false
texts_eq (x ∷ xs) (y ∷ ys) = x == y && texts_eq xs ys

pub texts_eq-eq : (xs ys : List String) → texts_eq xs ys ≡ true → xs ≡ ys
texts_eq-eq [] [] h = refl
texts_eq-eq [] (y ∷ ys) h = cc
texts_eq-eq (x ∷ xs) [] h = cc
texts_eq-eq (x ∷ xs) (y ∷ ys) h = ground (arith, eq_iff x y, texts_eq-eq xs ys)

-- `sorted(xs) == sorted(ys)`
abbrev pub same_texts : List String → List String → Bool
same_texts xs ys = texts_eq (sort_by (λ x. x) xs) (sort_by (λ y. y) ys)

-- `sep.join(xs)`
abbrev pub join : String → List String → String
join sep [] = ""
join sep (x ∷ []) = x
join sep (x ∷ y ∷ rest) = append x (append sep (join sep (y ∷ rest)))
