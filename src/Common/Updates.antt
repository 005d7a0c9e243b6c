-- ===== src/Common/Updates.antt =====
-- What an update of rows, an append and a filter leave to find and to count.
use Prim.Native.Nat.{◌+◌, ◌≤◌}
use mathlib.Core.Path.{◌≡◌, refl}
use mathlib.Core.Logic.{inl, inr}
use mathlib.Core.Bool.{Bool, true, false}
use mathlib.Core.Option.{none, some}
use mathlib.Core.List.{List, [], ◌∷◌, ◌++◌}
use native.Mathlib.Omega.{arith}
use dbflow.Common.Tests.{Bool-cases}
use dbflow.Common.Lists.{find, filter, update_where, In, length}

module _ {A : Type 0} (p : A → Bool) (f : A → A) (keeps : (x : A) → p (f x) ≡ p x) where
  pub find-update_where :
      (xs : List A) (a : A) → find p xs ≡ some a → find p (update_where p f xs) ≡ some (f a)
  find-update_where [] a e = cc
  find-update_where (x ∷ xs) a e = ground (arith, keeps x, find-update_where xs a)

  pub find-update_where-none :
      (xs : List A) → find p xs ≡ none → find p (update_where p f xs) ≡ none
  find-update_where-none [] e = refl
  find-update_where-none (x ∷ xs) e = ground (arith, keeps x, find-update_where-none xs)

module _ {A : Type 0} (p q : A → Bool) (f : A → A)
    (apart : (x : A) → p x ≡ true → (q x ≡ false) × (q (f x) ≡ false)) where
  pub find-update_where_other : (xs : List A) → find q (update_where p f xs) ≡ find q xs
  find-update_where_other [] = refl
  find-update_where_other (x ∷ xs) = ground (arith, apart x, find-update_where_other xs)

module _ {A : Type 0} (p : A → Bool) where
  pub find-append_none : (xs ys : List A) → find p xs ≡ none → find p (xs ++ ys) ≡ find p ys
  find-append_none [] ys e = refl
  find-append_none (x ∷ xs) ys e = ground (arith, find-append_none xs ys)

  pub find-append_some : (xs ys : List A) (a : A) → find p xs ≡ some a → find p (xs ++ ys) ≡ some a
  find-append_some [] ys a e = cc
  find-append_some (x ∷ xs) ys a e = ground (arith, find-append_some xs ys a)

  pub filter-append : (xs ys : List A) → filter p (xs ++ ys) ≡ filter p xs ++ filter p ys
  filter-append [] ys = refl
  filter-append (x ∷ xs) ys = ground (arith, filter-append xs ys)

  pub length-filter-append :
      (xs ys : List A) → length (filter p (xs ++ ys)) ≡ length (filter p xs) + length (filter p ys)
  length-filter-append [] ys = omega arith
  length-filter-append (x ∷ xs) ys = ground (arith, length-filter-append xs ys)

  pub length-filter-le : (xs : List A) → length (filter p xs) ≤ length xs
  length-filter-le [] = omega arith
  length-filter-le (x ∷ xs) = ground (arith, length-filter-le xs)

  -- A filter that keeps the length keeps every member.
  pub length-filter-all :
      (xs : List A) → length (filter p xs) ≡ length xs → (a : A) → In a xs → p a ≡ true
  length-filter-all [] e a m = absurd m
  length-filter-all (x ∷ xs) e a m = elim (Bool-cases (p x)) [
    | inl yes' ↦ elim m [
      | inl same ↦ rw same yes'
      | inr later ↦ length-filter-all xs (ground arith) a later
    ]
    | inr no' ↦ absurd (ground (arith, length-filter-le xs))
  ]

  pub length-filter_of_all :
      (xs : List A) → ((a : A) → In a xs → p a ≡ true) → length (filter p xs) ≡ length xs
  length-filter_of_all [] h = refl
  length-filter_of_all (x ∷ xs) h =
      ground (arith, h x (inl refl), length-filter_of_all xs (λ a m. h a (inr m)))

module _ {A : Type 0} (p : A → Bool) where
  pub filter-eq-nil : (xs : List A) → ((a : A) → In a xs → p a ≡ false) → filter p xs ≡ []
  filter-eq-nil [] h = refl
  filter-eq-nil (x ∷ xs) h = ground (arith, h x (inl refl), filter-eq-nil xs (λ a m. h a (inr m)))
