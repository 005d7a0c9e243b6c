-- ===== src/SchemaDiff/Effects.antt =====
-- What the edits of SchemaDiff.Edits mean: their effect on a list of named parts, and on the part that
-- one name stands for. The effect of an edit is that of the ALTER TABLE clause it becomes.
use dbflow.Common.{
  ◌≡◌, refl, ◌∙◌, ap, ◌↔◌, false, not, List, [], ◌∷◌, ◌++◌, Option, none, some, if◌then◌else◌,
  filter, update_where, same_text, same_text_iff, arith,
}
use dbflow.Store.{Text}
use dbflow.SchemaDiff.Edits.{Edit, last_named, has_name}

module _ {A : Type 0} (name : A → Text) where
  -- An addition appends, a modification replaces the parts of its name, a drop removes them.
  abbrev pub apply_edit : Edit A → List A → List A
  apply_edit (Edit.add a) xs = xs ++ a ∷ []
  apply_edit (Edit.modify a) xs = update_where (λ x. same_text (name x) (name a)) (λ _. a) xs
  apply_edit (Edit.drop key) xs = filter (λ x. not (same_text (name x) key)) xs

  abbrev pub apply_edits : List (Edit A) → List A → List A
  apply_edits [] xs = xs
  apply_edits (e ∷ es) xs = apply_edits es (apply_edit e xs)

  -- No two parts share a name.
  abbrev pub IsDistinct : List A → Type 0
  IsDistinct [] = Unit
  IsDistinct (a ∷ rest) = (has_name name (name a) rest ≡ false) × IsDistinct rest

  -- The effect of an edit on the part that a name stands for.
  unfoldable pub effect : Text → Edit A → Option A → Option A
  effect key (Edit.add a) o = if same_text (name a) key then some a else o
  effect key (Edit.modify a) none = none
  effect key (Edit.modify a) (some x) = if same_text (name a) key then some a else some x
  effect key (Edit.drop gone) o = if same_text gone key then none else o

  unfoldable pub effects : Text → List (Edit A) → Option A → Option A
  effects key [] o = o
  effects key (e ∷ es) o = effects key es (effect key e o)

  pub effects-append :
      (key : Text) (es fs : List (Edit A)) (o : Option A)
      → effects key (es ++ fs) o ≡ effects key fs (effects key es o)
  unfolding effects
  effects-append key [] fs o = refl
  effects-append key (e ∷ es) fs o = effects-append key es fs (effect key e o)

  last_named-append :
      (key : Text) (xs : List A) (a : A)
      → last_named name key (xs ++ a ∷ [])
        ≡ (if same_text (name a) key then some a else last_named name key xs)
  unfolding last_named
  last_named-append key [] a = ground arith
  last_named-append key (x ∷ xs) a = ground (arith, last_named-append key xs a)

  last_named-modify :
      (key : Text) (a : A) (xs : List A)
      → last_named name key (apply_edit (Edit.modify a) xs)
        ≡ effect key (Edit.modify a) (last_named name key xs)
  unfolding last_named effect
  last_named-modify key a [] = refl
  last_named-modify key a (x ∷ xs) = ground (
    arith,
    last_named-modify key a xs,
    same_text_iff (name x) (name a),
    same_text_iff (name x) key,
    same_text_iff (name a) key,
  )

  last_named-drop :
      (key gone : Text) (xs : List A)
      → last_named name key (apply_edit (Edit.drop gone) xs)
        ≡ effect key (Edit.drop gone) (last_named name key xs)
  unfolding last_named effect
  last_named-drop key gone [] = ground arith
  last_named-drop key gone (x ∷ xs) = ground (
    arith,
    last_named-drop key gone xs,
    same_text_iff (name x) gone,
    same_text_iff (name x) key,
    same_text_iff gone key,
  )

  pub last_named-apply_edits :
      (key : Text) (es : List (Edit A)) (xs : List A)
      → last_named name key (apply_edits es xs) ≡ effects key es (last_named name key xs)
  unfolding effects effect
  last_named-apply_edits key [] xs = refl
  last_named-apply_edits key (e ∷ es) xs =
      last_named-apply_edits key es (apply_edit e xs) ∙ ap (effects key es) (one e)
    where
      one :
          (e : Edit A)
          → last_named name key (apply_edit e xs) ≡ effect key e (last_named name key xs)
      one (Edit.add a) = last_named-append key xs a
      one (Edit.modify a) = last_named-modify key a xs
      one (Edit.drop gone) = last_named-drop key gone xs

  pub has_name-last_named :
      (key : Text) (xs : List A) → (last_named name key xs ≡ none) ↔ (has_name name key xs ≡ false)
  unfolding last_named
  has_name-last_named key [] = (λ e. refl, λ e. refl)
  has_name-last_named key (x ∷ xs) =
      let rest = has_name-last_named key xs in
      (λ e. ground (arith, rest.0), λ e. ground (arith, rest.1))

  -- What a name finds has that name.
  pub last_named-name :
      (key : Text) (xs : List A) (a : A) → last_named name key xs ≡ some a → name a ≡ key
  unfolding last_named
  last_named-name key [] a e = absurd (cc)
  last_named-name key (x ∷ xs) a e =
      ground (arith, last_named-name key xs a, same_text_iff (name x) key)
