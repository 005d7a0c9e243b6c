-- ===== src/SchemaDiff/Edits.antt =====
-- The comparison of two lists of named parts, which `diffColumns` and `diffIndexes` of
-- apps/api/src/schema-diff/schema-diff.engine.ts share: what is new or changed, in the desired order,
-- and then what is gone, in the current order.
use dbflow.Common.{Bool, List, [], ◌∷◌, ◌++◌, Option, none, some, if◌then◌else◌, any, same_text}
use dbflow.Store.{Text}

pub data Edit (A : Type 0) : Type 0 where
  add modify : A → Edit A
  drop : Text → Edit A

module _ {A : Type 0} (name : A → Text) where
  -- `new Map(parts.map((p) => [p.name, p])).get(key)`: the last of that name.
  unfoldable pub last_named : Text → List A → Option A
  last_named key [] = none
  last_named key (a ∷ parts) =
      let later = last_named key parts in
      elim later [ some b ↦ some b | none ↦ if same_text (name a) key then some a else none ]

  abbrev pub has_name : Text → List A → Bool
  has_name key parts = any (λ a. same_text (name a) key) parts

module _ {A : Type 0} (name : A → Text) (differs : A → A → Bool) where
  -- What becomes of one desired part.
  unfoldable pub revise_one : A → Option A → List (Edit A)
  revise_one desired none = Edit.add desired ∷ []
  revise_one desired (some current) =
      if differs current desired then Edit.modify desired ∷ [] else []

  -- Additions and modifications.
  unfoldable pub revise : List A → List A → List (Edit A)
  revise [] current = []
  revise (d ∷ desired) current =
      revise_one d (last_named name (name d) current) ++ revise desired current

  -- Drops.
  unfoldable pub removals : List A → List A → List (Edit A)
  removals desired [] = []
  removals desired (c ∷ current) =
      (if has_name name (name c) desired then [] else Edit.drop (name c) ∷ [])
      ++ removals desired current

  unfoldable pub edits : List A → List A → List (Edit A)
  unfolding revise removals
  edits desired current = revise desired current ++ removals desired current
