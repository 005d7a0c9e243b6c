-- ===== src/Common/Sorting.antt =====
-- The members of the sorted lists, and the head of a sort by a key.
use Prim.Native.Nat.{ℕ, ◌≤◌}
use mathlib.Core.Path.{◌≡◌, refl}
use mathlib.Core.Logic.{inl, inr, ◌↔◌}
use mathlib.Core.Option.{some}
use mathlib.Core.List.{List, [], ◌∷◌}
use native.Mathlib.Omega.{arith}
use dbflow.Common.Tests.{if◌then◌else◌, leb, Bool-cases}
use dbflow.Common.Lists.{head?, insert_by, sort_asc, insert_desc, sort_desc, In}

module _ {A : Type 0} (key : A → ℕ) where
  In-insert_by : (x : A) (ys : List A) (a : A) → In a (insert_by key x ys) ↔ In a (x ∷ ys)
  In-insert_by x [] a = (λ m. m, λ m. m)
  In-insert_by x (y ∷ ys) a = elim (Bool-cases (leb (key x) (key y))) [
    | inl yes' ↦ rw (yes', if◌then◌else◌) (λ m. m, λ m. m)
    | inr no' ↦
        rw (no', if◌then◌else◌)
          (
            λ m. elim m [
              | inl e ↦ inr (inl e)
              | inr l ↦ elim ((In-insert_by x ys a).0 l) [ inl e ↦ inl e | inr r ↦ inr (inr r) ]
            ],
            λ m. elim m [
              | inl e ↦ inr ((In-insert_by x ys a).1 (inl e))
              | inr r ↦ elim r [ inl e ↦ inl e | inr l ↦ inr ((In-insert_by x ys a).1 (inr l)) ]
            ],
          )
  ]

  pub In-sort_asc : (xs : List A) (a : A) → In a (sort_asc key xs) ↔ In a xs
  In-sort_asc [] a = (λ m. m, λ m. m)
  In-sort_asc (x ∷ xs) a = (
    λ m. elim ((In-insert_by x (sort_asc key xs) a).0 m) [
      | inl e ↦ inl e
      | inr l ↦ inr ((In-sort_asc xs a).0 l)
    ],
    λ m.
        (In-insert_by x (sort_asc key xs) a).1
          (elim m [ inl e ↦ inl e | inr l ↦ inr ((In-sort_asc xs a).1 l) ]),
  )

  In-insert_desc : (x : A) (ys : List A) (a : A) → In a (insert_desc key x ys) ↔ In a (x ∷ ys)
  In-insert_desc x [] a = (λ m. m, λ m. m)
  In-insert_desc x (y ∷ ys) a = elim (Bool-cases (leb (key y) (key x))) [
    | inl yes' ↦ rw (yes', if◌then◌else◌) (λ m. m, λ m. m)
    | inr no' ↦
        rw (no', if◌then◌else◌)
          (
            λ m. elim m [
              | inl e ↦ inr (inl e)
              | inr l ↦ elim ((In-insert_desc x ys a).0 l) [ inl e ↦ inl e | inr r ↦ inr (inr r) ]
            ],
            λ m. elim m [
              | inl e ↦ inr ((In-insert_desc x ys a).1 (inl e))
              | inr r ↦ elim r [ inl e ↦ inl e | inr l ↦ inr ((In-insert_desc x ys a).1 (inr l)) ]
            ],
          )
  ]

  pub In-sort_desc : (xs : List A) (a : A) → In a (sort_desc key xs) ↔ In a xs
  In-sort_desc [] a = (λ m. m, λ m. m)
  In-sort_desc (x ∷ xs) a = (
    λ m. elim ((In-insert_desc x (sort_desc key xs) a).0 m) [
      | inl e ↦ inl e
      | inr l ↦ inr ((In-sort_desc xs a).0 l)
    ],
    λ m.
        (In-insert_desc x (sort_desc key xs) a).1
          (elim m [ inl e ↦ inl e | inr l ↦ inr ((In-sort_desc xs a).1 l) ]),
  )

  -- The head of a sorted list is a least element.
  insert_by-head :
      (x : A) (ys : List A)
      → ((b : A) → In b ys → (y : A) → head? ys ≡ some y → key y ≤ key b)
      → (b : A) → In b (x ∷ ys)
      → (y : A) → head? (insert_by key x ys) ≡ some y
      → key y ≤ key b
  insert_by-head x [] h b (inl e) y found = rw e (ground arith)
  insert_by-head x [] h b (inr m) y found = absurd m
  insert_by-head x (z ∷ zs) h b (inl e) y found = rw e (ground arith)
  insert_by-head x (z ∷ zs) h b (inr m) y found = ground (arith, h b m z refl)

  pub sort_asc-head :
      (xs : List A) (b : A) → In b xs → (y : A) → head? (sort_asc key xs) ≡ some y → key y ≤ key b
  sort_asc-head [] b m y found = absurd m
  sort_asc-head (x ∷ xs) b m y found =
      insert_by-head x (sort_asc key xs)
        (λ c l z e. sort_asc-head xs c ((In-sort_asc xs c).0 l) z e) b
        (elim m [ inl e ↦ inl e | inr l ↦ inr ((In-sort_asc xs b).1 l) ]) y found
