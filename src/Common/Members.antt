-- ===== src/Common/Members.antt =====
-- Membership in the lists that the operations build: what `find`, `filter`, `any`, the sorts and the
-- updates find and keep.
use Prim.Native.Nat.{ℕ}
use mathlib.Core.Path.{◌≡◌, refl, ap, sym}
use mathlib.Core.Logic.{◌⊎◌, inl, inr, ◌↔◌}
use mathlib.Core.Bool.{Bool, true, false}
use mathlib.Core.Option.{none, some}
use mathlib.Core.List.{List, [], ◌∷◌, ◌++◌, map}
use native.Mathlib.Omega.{arith}
use dbflow.Common.Tests.{if◌then◌else◌, ◌==◌, Bool-cases}
use dbflow.Common.Lists.{any, find, filter, head?, update_where, In, includes}

module _ {A : Type 0} where
  pub find-In : (p : A → Bool) (xs : List A) (a : A) → find p xs ≡ some a → In a xs × (p a ≡ true)
  find-In p [] a e = cc
  find-In p (x ∷ xs) a e = elim (Bool-cases (p x)) [
    | inl yes' ↦ let same : x ≡ a = ground arith in (inl (sym same), rw (← same) yes')
    | inr no' ↦
        let rest : find p xs ≡ some a = ground arith in
        let (here, holds) = find-In p xs a rest in (inr here, holds)
  ]

  -- What holds of a member is found.
  pub find_of_In :
      (p : A → Bool) (xs : List A) (a : A) → In a xs → p a ≡ true → (b : A) × (find p xs ≡ some b)
  find_of_In p (x ∷ xs) a m h = elim (Bool-cases (p x)) [
    | inl yes' ↦ (x, ground arith)
    | inr no' ↦ elim m [
      | inl e ↦ absurd (cc (ap p e))
      | inr later ↦ let (b, e) = find_of_In p xs a later h in (b, ground arith)
    ]
  ]
  find_of_In p [] a m h = absurd m

  pub find-eq-none :
      (p : A → Bool) (xs : List A) → find p xs ≡ none → (a : A) → In a xs → p a ≡ false
  find-eq-none p xs e a m = elim (Bool-cases (p a)) [
    | inl yes' ↦ let (b, found) = find_of_In p xs a m yes' in absurd (cc)
    | inr no' ↦ no'
  ]

  pub any-In : (p : A → Bool) (xs : List A) → any p xs ≡ true → (a : A) × In a xs × (p a ≡ true)
  any-In p [] e = cc
  any-In p (x ∷ xs) e = elim (Bool-cases (p x)) [
    | inl yes' ↦ (x, inl refl, yes')
    | inr no' ↦ let (a, m, h) = any-In p xs (ground arith) in (a, inr m, h)
  ]

  pub any_of_In : (p : A → Bool) (xs : List A) (a : A) → In a xs → p a ≡ true → any p xs ≡ true
  any_of_In p [] a m h = absurd m
  any_of_In p (x ∷ xs) a (inl e) h = rw (← e) (ground arith)
  any_of_In p (x ∷ xs) a (inr m) h = ground (arith, any_of_In p xs a m h)

  pub any-eq-false :
      (p : A → Bool) (xs : List A) → any p xs ≡ false → (a : A) → In a xs → p a ≡ false
  any-eq-false p xs e a m = elim (Bool-cases (p a)) [
    | inl yes' ↦ absurd (cc (any_of_In p xs a m yes'))
    | inr no' ↦ no'
  ]

  pub any-eq-false_of :
      (p : A → Bool) (xs : List A) → ((a : A) → In a xs → p a ≡ false) → any p xs ≡ false
  any-eq-false_of p xs h = elim (Bool-cases (any p xs)) [
    | inl some' ↦ let (a, m, t) = any-In p xs some' in absurd (cc (h a m))
    | inr none' ↦ none'
  ]

  pub In-filter :
      (p : A → Bool) (xs : List A) (a : A) → In a (filter p xs) ↔ (In a xs × (p a ≡ true))
  In-filter p [] a = (λ m. absurd m, λ m. m.0)
  In-filter p (x ∷ xs) a = elim (Bool-cases (p x)) [
    | inl yes' ↦
        rw (yes', if◌then◌else◌)
          (
            λ m. elim m [
              | inl e ↦ (inl e, rw e yes')
              | inr l ↦ let r = (In-filter p xs a).0 l in (inr r.0, r.1)
            ],
            λ m. elim m.0 [ inl e ↦ inl e | inr l ↦ inr ((In-filter p xs a).1 (l, m.1)) ],
          )
    | inr no' ↦
        rw (no', if◌then◌else◌)
          (
            λ m. let r = (In-filter p xs a).0 m in (inr r.0, r.1),
            λ m. elim m.0 [
              | inl e ↦ absurd (cc (m.1, ap p e))
              | inr l ↦ (In-filter p xs a).1 (l, m.1)
            ],
          )
  ]

  pub In-map :
      {B : Type 0} (f : A → B) (xs : List A) (b : B)
      → In b (map f xs)
      → (a : A) × In a xs × (b ≡ f a)
  In-map f [] b m = absurd m
  In-map f (x ∷ xs) b (inl e) = (x, inl refl, e)
  In-map f (x ∷ xs) b (inr m) = let (a, l, e) = In-map f xs b m in (a, inr l, e)

  pub In-map_of : {B : Type 0} (f : A → B) (xs : List A) (a : A) → In a xs → In (f a) (map f xs)
  In-map_of f [] a m = absurd m
  In-map_of f (x ∷ xs) a (inl e) = inl (ap f e)
  In-map_of f (x ∷ xs) a (inr m) = inr (In-map_of f xs a m)

  pub In-append : (xs ys : List A) (a : A) → In a (xs ++ ys) ↔ (In a xs ⊎ In a ys)
  In-append [] ys a = (λ m. inr m, λ m. elim m [ inl l ↦ absurd l | inr r ↦ r ])
  In-append (x ∷ xs) ys a = (
    λ m. elim m [
      | inl e ↦ inl (inl e)
      | inr l ↦ elim ((In-append xs ys a).0 l) [ inl h ↦ inl (inr h) | inr t ↦ inr t ]
    ],
    λ m. elim m [
      | inl h ↦ elim h [ inl e ↦ inl e | inr l ↦ inr ((In-append xs ys a).1 (inl l)) ]
      | inr t ↦ inr ((In-append xs ys a).1 (inr t))
    ],
  )

  pub In-update_where :
      (p : A → Bool) (f : A → A) (xs : List A) (b : A)
      → In b (update_where p f xs)
      → (a : A) × In a xs × (b ≡ (if p a then f a else a))
  In-update_where p f [] b m = absurd m
  In-update_where p f (x ∷ xs) b (inl e) = (x, inl refl, e)
  In-update_where p f (x ∷ xs) b (inr m) =
      let (a, l, e) = In-update_where p f xs b m in (a, inr l, e)

pub head?-In : {A : Type 0} (xs : List A) (a : A) → head? xs ≡ some a → In a xs
head?-In [] a e = cc
head?-In (x ∷ xs) a e = inl (ground arith)

pub head?_of_In : {A : Type 0} (xs : List A) (a : A) → In a xs → (b : A) × (head? xs ≡ some b)
head?_of_In [] a m = absurd m
head?_of_In (x ∷ xs) a m = (x, refl)

pub includes-In : (xs : List ℕ) (k : ℕ) → (includes xs k ≡ true) ↔ In k xs
includes-In xs k = (
  λ h.
      let (a, m, e) = any-In (λ x. x == k) xs h in let same : a ≡ k = ground arith in rw (← same) m,
  λ m. any_of_In (λ x. x == k) xs k m (ground arith),
)
