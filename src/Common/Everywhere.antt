-- ===== src/Common/Everywhere.antt =====
-- A predicate on all members of the lists that the operations build.
use mathlib.Core.Path.{subst, sym}
use mathlib.Core.Logic.{inl, inr}
use mathlib.Core.Bool.{Bool}
use mathlib.Core.List.{List, [], ◌∷◌, ◌++◌}
use dbflow.Common.Tests.{if◌then◌else◌, Bool-cases}
use dbflow.Common.Lists.{filter, update_where, All, In}

module _ {A : Type 0} (P : A → Type 0) where
  pub All-append : (xs : List A) (a : A) → All P xs → P a → All P (xs ++ (a ∷ []))
  All-append [] a h p = (p, tt)
  All-append (x ∷ xs) a h p = (h.0, All-append xs a h.1 p)

  pub All-filter : (test : A → Bool) (xs : List A) → All P xs → All P (filter test xs)
  All-filter test [] h = tt
  All-filter test (x ∷ xs) h = elim (Bool-cases (test x)) [
    | inl yes' ↦ rw (yes', if◌then◌else◌) (h.0, All-filter test xs h.1)
    | inr no' ↦ rw (no', if◌then◌else◌) (All-filter test xs h.1)
  ]

  pub All-update_where :
      (test : A → Bool) (f : A → A) (xs : List A)
      → ((a : A) → P a → P (f a))
      → All P xs
      → All P (update_where test f xs)
  All-update_where test f [] keep h = tt
  All-update_where test f (x ∷ xs) keep h = elim (Bool-cases (test x)) [
    | inl yes' ↦ rw (yes', if◌then◌else◌) (keep x h.0, All-update_where test f xs keep h.1)
    | inr no' ↦ rw (no', if◌then◌else◌) (h.0, All-update_where test f xs keep h.1)
  ]

  pub All-In : (xs : List A) (a : A) → All P xs → In a xs → P a
  All-In [] a h m = absurd m
  All-In (x ∷ xs) a h (inl e) = subst P (sym e) h.0
  All-In (x ∷ xs) a h (inr m) = All-In xs a h.1 m
