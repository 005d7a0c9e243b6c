-- ===== src/SchemaDiff/NoEdits.antt =====
-- When the comparison of two lists of named parts has no edits.
use dbflow.Common.{
  ◌≡◌, refl, sym, subst, ◌↔◌, inl, inr, Bool, true, false, List, [], ◌∷◌, some, In, if◌then◌else◌,
  any_of_In, same_text, same_text_self, Bool-cases, Option-cases, arith,
}
use dbflow.Store.{Text}
use dbflow.SchemaDiff.Effects.{apply_edits, IsDistinct, has_name-last_named}
use dbflow.SchemaDiff.Edits.{last_named, revise_one, revise, has_name, removals, edits}
use dbflow.SchemaDiff.Applying.{Agrees, edits-Agrees}

module _ {A : Type 0} (name : A → Text) (differs : A → A → Bool) where
  -- Where all agree, no part is revised and none is removed.
  revise-eq-nil :
      (desired current : List A)
      → IsDistinct name desired
      → ((d : A) → In d desired → Agrees name differs (some d) (last_named name (name d) current))
      → revise name differs desired current ≡ []
  unfolding revise revise_one
  revise-eq-nil [] current h agree = refl
  revise-eq-nil (d ∷ ds) current h agree = elim (Option-cases (last_named name (name d) current)) [
    | inl none' ↦ absurd (subst (λ o. Agrees name differs (some d) o) none' (agree d (inl refl)))
    | inr (c, found) ↦
        let same = subst (λ o. Agrees name differs (some d) o) found (agree d (inl refl)) in
        let same' = same.1 in
        let rest = revise-eq-nil ds current h.1 (λ e m. agree e (inr m)) in
        rw (found, same', if◌then◌else◌) rest
  ]

  removals-eq-nil :
      (desired current : List A)
      → ((c : A) → In c current → has_name name (name c) desired ≡ true)
      → removals name differs desired current ≡ []
  unfolding removals
  removals-eq-nil desired [] kept = refl
  removals-eq-nil desired (c ∷ current) kept =
      ground (arith, kept c (inl refl), removals-eq-nil desired current (λ e m. kept e (inr m)))

  last_named_of_In :
      (ds : List A) (d : A) → IsDistinct name ds → In d ds → last_named name (name d) ds ≡ some d
  unfolding last_named
  last_named_of_In [] d h m = absurd m
  last_named_of_In (x ∷ ds) d h (inl e) =
      let last' = (has_name-last_named name (name x) ds).1 h.0 in
      subst (λ z. last_named name (name z) (x ∷ ds) ≡ some z) (sym e)
        (ground (arith, last', same_text_self (name x)))
  last_named_of_In (x ∷ ds) d h (inr m) = rw (last_named_of_In ds d h.1 m) refl

  -- There is no edit exactly when each name agrees.
  pub edits-eq-nil_iff :
      ((a : A) → differs a a ≡ false)
      → (desired current : List A) → IsDistinct name desired
      → (edits name differs desired current ≡ []) ↔ (
          (key : Text)
          → Agrees name differs (last_named name key desired) (last_named name key current))
  unfolding edits
  edits-eq-nil_iff settled desired current h = (
    λ e key.
        subst
          (λ es.
            Agrees name differs (last_named name key desired)
              (last_named name key (apply_edits name es current)))
          e (edits-Agrees name differs settled desired current h key),
    λ agree.
        rw
          (
            revise-eq-nil desired current h (λ d m.
                subst (λ o. Agrees name differs o (last_named name (name d) current))
                  (last_named_of_In desired d h m) (agree (name d))),
            removals-eq-nil desired current (λ c m.
                elim (Bool-cases (has_name name (name c) desired)) [
                  | inl kept ↦ kept
                  | inr gone ↦ elim (Option-cases (last_named name (name c) current)) [
                    | inl none' ↦ absurd (
                        cc (
                          (has_name-last_named name (name c) current).0 none',
                          any_of_In (λ a. same_text (name a) (name c)) current c m
                              (same_text_self (name c)),
                        ))
                    | inr (x, found) ↦ absurd (
                        subst (λ o. Agrees name differs o (some x))
                          ((has_name-last_named name (name c) desired).1 gone)
                          (subst (λ o. Agrees name differs (last_named name (name c) desired) o)
                            found (agree (name c))))
                  ]
                ]),
          )
          refl,
  )
