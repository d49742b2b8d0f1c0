-- ===== src/Prelude/Sorting.antt =====
-- Sorting and splitting a list rearranges it.
use mathlib.Core.List.Perm
use mathlib.Core.List.{Perm, perm_middle}
use world_class_seo_agent_sy.Prelude.Tests.{Bool-cases}
use world_class_seo_agent_sy.Prelude.Lists.{keep, length, All}
use world_class_seo_agent_sy.Prelude.Texts.{insert_by, sort_by, text_le}
use Prim.Native.Nat.{◌+◌}
use Prim.Native.String.{String}
use mathlib.Core.Path.{◌≡◌, refl}
use mathlib.Core.Logic.{inl, inr}
use mathlib.Core.Bool.{Bool, not}
use mathlib.Core.List.{List, [], ◌∷◌, ◌++◌}
use native.Mathlib.Omega.{arith}

module _ {ℓ} {A : Type ℓ} (key : A → String) where
  insert_by-perm : (a : A) (xs : List A) → Perm (insert_by key a xs) (a ∷ xs)
  insert_by-perm a [] = Perm.refl _
  insert_by-perm a (x ∷ xs) = elim (Bool-cases (text_le (key a) (key x))) [
    | inl e ↦ rw e (Perm.refl _)
    | inr e ↦ rw e (Perm.trans (Perm.cons x (insert_by-perm a xs)) (Perm.swap a x xs))
  ]

  pub sort_by-perm : (xs : List A) → Perm (sort_by key xs) xs
  sort_by-perm [] = Perm.refl _
  sort_by-perm (x ∷ xs) =
      Perm.trans (insert_by-perm x (sort_by key xs)) (Perm.cons x (sort_by-perm xs))

module _ {ℓ κ} {A : Type ℓ} (P : A → Type κ) (key : A → String) where
  All-insert_by : (a : A) (xs : List A) → P a → All P xs → All P (insert_by key a xs)
  All-insert_by a [] h hs = (h, tt)
  All-insert_by a (x ∷ xs) h (k, ks) = elim (Bool-cases (text_le (key a) (key x))) [
    | inl e ↦ rw e (h, (k, ks))
    | inr e ↦ rw e (k, All-insert_by a xs h ks)
  ]

  pub All-sort_by : (xs : List A) → All P xs → All P (sort_by key xs)
  All-sort_by [] h = tt
  All-sort_by (x ∷ xs) (h, hs) = All-insert_by x (sort_by key xs) h (All-sort_by xs hs)

module _ {ℓ} {A : Type ℓ} (p : A → Bool) where
  pub keep-split-perm : (xs : List A) → Perm (keep p xs ++ keep (λ x. not (p x)) xs) xs
  keep-split-perm [] = Perm.refl _
  keep-split-perm (x ∷ xs) = elim (Bool-cases (p x)) [
    | inl e ↦ rw e (Perm.cons x (keep-split-perm xs))
    | inr e ↦ rw e (Perm.trans (perm_middle (keep p xs) _) (Perm.cons x (keep-split-perm xs)))
  ]

  pub length-keep_split :
      (xs : List A) → length (keep p xs) + length (keep (λ x. not (p x)) xs) ≡ length xs
  length-keep_split [] = refl
  length-keep_split (x ∷ xs) = ground (arith, length-keep_split xs)
