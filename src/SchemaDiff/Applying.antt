-- ===== src/SchemaDiff/Applying.antt =====
-- The comparison of two lists of named parts against its meaning: what the edits make of the current
-- list.
use dbflow.Common.{
  ◌≡◌, refl, sym, ◌∙◌, ap, subst, inl, inr, Bool, true, false, List, [], ◌∷◌, Option, none, some,
  if◌then◌else◌, same_text, same_text_iff, Bool-cases, Option-cases, arith,
}
use dbflow.Store.{Text}
use dbflow.SchemaDiff.Effects.{
  apply_edits, IsDistinct, effect, effects, effects-append, last_named-apply_edits,
  has_name-last_named, last_named-name,
}
use dbflow.SchemaDiff.Edits.{last_named, revise_one, revise, has_name, removals, edits}

module _ {A : Type 0} (name : A → Text) (differs : A → A → Bool) where
  -- The part that stands for a desired one afterwards.
  converge : A → Option A → A
  converge d none = d
  converge d (some c) = if differs c d then d else c

  revise_one-other :
      (key : Text) (d : A) (q o : Option A)
      → same_text (name d) key ≡ false
      → effects name key (revise_one name differs d q) o ≡ o
  unfolding effects effect revise_one
  revise_one-other key d none o h = ground arith
  revise_one-other key d (some c) none h = ground arith
  revise_one-other key d (some c) (some x) h = ground arith

  revise_one-own :
      (key : Text) (d : A) (o : Option A)
      → same_text (name d) key ≡ true
      → effects name key (revise_one name differs d o) o ≡ some (converge d o)
  unfolding effects effect revise_one converge
  revise_one-own key d none h = ground arith
  revise_one-own key d (some c) h = ground arith

  revise-absent :
      (key : Text) (desired current : List A) (o : Option A)
      → has_name name key desired ≡ false
      → effects name key (revise name differs desired current) o ≡ o
  unfolding revise effects
  revise-absent key [] current o h = refl
  revise-absent key (d ∷ ds) current o h =
      effects-append name key (revise_one name differs d (last_named name (name d) current)) _ o
      ∙ ap (effects name key (revise name differs ds current))
          (revise_one-other key d (last_named name (name d) current) o (ground arith))
      ∙ revise-absent key ds current o (ground arith)

  revise-present :
      (key : Text) (desired current : List A) (d : A)
      → IsDistinct name desired
      → last_named name key desired ≡ some d
      → effects name key (revise name differs desired current) (last_named name key current)
        ≡ some (converge d (last_named name key current))
  unfolding revise last_named
  revise-present key [] current d h e = absurd (cc)
  revise-present key (x ∷ ds) current d h e =
      effects-append name key (revise_one name differs x (last_named name (name x) current)) _ _
      ∙ elim (Option-cases (last_named name key ds)) [
        | inl last' ↦
            let own : same_text (name x) key ≡ true = ground arith in
            let same : x ≡ d = ground arith in
            let named : name x ≡ key = (same_text_iff (name x) key).0 own in
            revise-absent key ds current _ ((has_name-last_named name key ds).0 last')
            ∙ rw named (revise_one-own key x (last_named name key current) own)
            ∙ ap (λ z. some (converge z (last_named name key current))) same
        | inr (z, later) ↦
            let same : last_named name key ds ≡ some d = ground arith in
            let other : same_text (name x) key ≡ false =
              elim (Bool-cases (same_text (name x) key)) [
                | inl own ↦
                    let named : name x ≡ key = (same_text_iff (name x) key).0 own in
                    let none' : last_named name key ds ≡ none =
                      (has_name-last_named name key ds).1
                        (subst (λ k. has_name name k ds ≡ false) named h.0) in
                    absurd (cc)
                | inr o ↦ o
              ] in
            ap (effects name key (revise name differs ds current)) (
              revise_one-other key x (last_named name (name x) current)
                (last_named name key current) other)
            ∙ revise-present key ds current d h.1 same
      ]

  removals-kept :
      (key : Text) (desired current : List A) (o : Option A)
      → has_name name key desired ≡ true
      → effects name key (removals name differs desired current) o ≡ o
  unfolding removals effects effect
  removals-kept key desired [] o h = refl
  removals-kept key desired (c ∷ current) o h = elim (Bool-cases (has_name name (name c) desired)) [
    | inl kept ↦ rw (kept, if◌then◌else◌) (removals-kept key desired current o h)
    | inr gone ↦
        let other : same_text (name c) key ≡ false = elim (Bool-cases (same_text (name c) key)) [
          | inl own ↦ absurd (
              cc (
                subst (λ k. has_name name k desired ≡ false) ((same_text_iff (name c) key).0 own)
                  gone))
          | inr o' ↦ o'
        ] in
        ground (arith, removals-kept key desired current o h)
  ]

  removals-gone :
      (key : Text) (desired current : List A) (o : Option A)
      → has_name name key desired ≡ false
      → effects name key (removals name differs desired current) o
        ≡ (if has_name name key current then none else o)
  unfolding removals effects effect
  removals-gone key desired [] o h = refl
  removals-gone key desired (c ∷ current) o h = elim (Bool-cases (same_text (name c) key)) [
    | inl own ↦
        let gone : has_name name (name c) desired ≡ false =
          subst (λ k. has_name name k desired ≡ false) (sym ((same_text_iff (name c) key).0 own))
            h in
        ground (arith, removals-gone key desired current none h)
    | inr other ↦ ground (arith, removals-gone key desired current o h)
  ]

  -- The current part of a name agrees with the desired one: both are there or neither, and the
  -- comparison sees no difference.
  abbrev pub Agrees : Option A → Option A → Type 0
  Agrees none none = Unit
  Agrees (some d) (some c) = (name c ≡ name d) × (differs c d ≡ false)
  Agrees _ _ = ⊥

  converge-Agrees :
      (settled : (a : A) → differs a a ≡ false) (d : A) (o : Option A)
      → ((c : A) → o ≡ some c → name c ≡ name d)
      → Agrees (some d) (some (converge d o))
  unfolding converge
  converge-Agrees settled d none h = (refl, settled d)
  converge-Agrees settled d (some c) h = elim (Bool-cases (differs c d)) [
    | inl yes' ↦ rw (yes', if◌then◌else◌) (refl, settled d)
    | inr no' ↦ rw (no', if◌then◌else◌) (h c refl, no')
  ]

  -- The edits lead from the current parts to the desired ones.
  pub edits-Agrees :
      ((a : A) → differs a a ≡ false)
      → (desired current : List A) → IsDistinct name desired
      → (key : Text)
      → Agrees
          (last_named name key desired)
          (last_named name key (apply_edits name (edits name differs desired current) current))
  unfolding edits
  edits-Agrees settled desired current h key =
      let steps =
        last_named-apply_edits name key (edits name differs desired current) current
        ∙ effects-append name key (revise name differs desired current)
            (removals name differs desired current) (last_named name key current) in
      elim (Option-cases (last_named name key desired)) [
        | inl none' ↦
            let absent = (has_name-last_named name key desired).0 none' in
            let end : last_named name key
                  (apply_edits name (edits name differs desired current) current)
                ≡ none =
              steps
              ∙ ap (effects name key (removals name differs desired current))
                  (revise-absent key desired current _ absent)
              ∙ removals-gone key desired current (last_named name key current) absent
              ∙ (elim (Bool-cases (has_name name key current)) [
                | inl there ↦ rw there refl
                | inr not_there ↦ rw not_there ((has_name-last_named name key current).1 not_there)
              ]) in
            rw (none', end) tt
        | inr (d, found) ↦
            let present : has_name name key desired ≡ true =
              elim (Bool-cases (has_name name key desired)) [
                | inl there ↦ there
                | inr not_there ↦ absurd (cc ((has_name-last_named name key desired).1 not_there))
              ] in
            let end : last_named name key
                  (apply_edits name (edits name differs desired current) current)
                ≡ some (converge d (last_named name key current)) =
              steps
              ∙ ap (effects name key (removals name differs desired current))
                  (revise-present key desired current d h found)
              ∙ removals-kept key desired current _ present in
            rw (found, end)
              (converge-Agrees settled d (last_named name key current) (λ c e.
                last_named-name name key current c e
                ∙ sym (last_named-name name key desired d found)))
      ]
