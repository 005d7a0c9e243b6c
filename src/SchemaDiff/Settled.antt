-- ===== src/SchemaDiff/Settled.antt =====
-- When the comparison of apps/api/src/schema-diff/schema-diff.engine.ts finds nothing, and what it calls
-- destructive.
use dbflow.Common.{
  ◌≡◌, refl, sym, ◌∙◌, subst, ◌↔◌, inl, inr, false, List, [], ◌∷◌, ◌++◌, map, none, some,
  Option-cases,
}
use dbflow.Store.{Text}
use dbflow.SchemaDiff.NoEdits.{edits-eq-nil_iff}
use dbflow.SchemaDiff.Model.{TableDef, Schema, map_get}
use dbflow.SchemaDiff.Effects.{IsDistinct}
use dbflow.SchemaDiff.Applying.{}
use dbflow.SchemaDiff.Indexes.{
  index_name, has_index, named_indexes, named_indexes-IsDistinct, named_indexes-has_name,
}
use dbflow.SchemaDiff.Engine.{
  column_differs, column_item, column_edits, diff_columns, index_item, index_edits, diff_indexes,
  diff_table, diff_schemas,
}
use dbflow.SchemaDiff.Convergence.{
  column_name, IsSameColumn, IsSameColumn-iff-Agrees, column_at, column_differs_self, IndexAgrees,
  same_names_iff,
}

-- The current table has the columns and the named indexes of the desired one.
abbrev pub IsSameTable : TableDef → TableDef → Type 0
IsSameTable d c =
    ((key : Text) → IsSameColumn (column_at key d.columns) (column_at key c.columns))
    × ((key : Text) → has_index key c.indexes ≡ has_index key d.indexes)

map-eq-nil : {A B : Type 0} (f : A → B) (xs : List A) → (map f xs ≡ []) ↔ (xs ≡ [])
map-eq-nil f [] = (λ e. refl, λ e. refl)
map-eq-nil f (x ∷ xs) = (λ e. absurd (cc), λ e. absurd (cc))

append-eq-nil : {A : Type 0} (xs ys : List A) → (xs ++ ys ≡ []) ↔ ((xs ≡ []) × (ys ≡ []))
append-eq-nil [] ys = (λ e. (refl, e), λ h. h.1)
append-eq-nil (x ∷ xs) ys = (λ e. absurd (cc), λ h. absurd (cc (h.0)))

new_table : (name : Text) (d : TableDef) → diff_table name d none ≡ [] → ⊥
unfolding diff_table
new_table name d e = cc

diff_table-eq-nil_iff :
    (name : Text) (desired current : TableDef)
    → IsDistinct column_name desired.columns
    → (diff_table name desired (some current) ≡ []) ↔ IsSameTable desired current
unfolding diff_table diff_columns diff_indexes column_edits index_edits IndexAgrees
diff_table-eq-nil_iff name desired current h =
    let columns =
      edits-eq-nil_iff column_name column_differs column_differs_self desired.columns
        current.columns h in
    let indexes =
      edits-eq-nil_iff index_name (λ _ _. false) (λ i. refl) (named_indexes desired.indexes)
        (named_indexes current.indexes) (named_indexes-IsDistinct desired.indexes) in
    let bridge = λ (key : Text).
      same_names_iff (named_indexes desired.indexes) (named_indexes current.indexes) key in
    (
      λ e.
          let both =
            (append-eq-nil (diff_columns name desired current)
                (diff_indexes name desired current)).0
              e in
          (
            λ key. (IsSameColumn-iff-Agrees _ _).0 (
                columns.0 ((map-eq-nil (column_item name) (column_edits desired current)).0 both.0)
                  key),
            λ key.
                sym (named_indexes-has_name key current.indexes)
                ∙ (bridge key).0 (
                    indexes.0
                      ((map-eq-nil (index_item name) (index_edits desired current)).0 both.1) key)
                ∙ named_indexes-has_name key desired.indexes,
          ),
      λ same. (append-eq-nil _ _).1 (
        (map-eq-nil _ _).1 (columns.1 (λ key. (IsSameColumn-iff-Agrees _ _).1 (same.0 key))),
        (map-eq-nil _ _).1 (
            indexes.1 (λ key. (bridge key).1 (
              named_indexes-has_name key current.indexes
              ∙ same.1 key
              ∙ sym (named_indexes-has_name key desired.indexes)))),
      ),
    )

-- Every desired table is there with its columns and named indexes.
abbrev pub IsSatisfied : Schema → Schema → Type 0
IsSatisfied [] current = Unit
IsSatisfied ((name, d) ∷ rest) current =
    ((c : TableDef) × (map_get name current ≡ some c) × IsSameTable d c) × IsSatisfied rest current

abbrev pub HasDistinctColumns : Schema → Type 0
HasDistinctColumns [] = Unit
HasDistinctColumns ((name, d) ∷ rest) = IsDistinct column_name d.columns × HasDistinctColumns rest

-- The comparison is empty exactly when the current schema has every desired table, with the same column
-- (type and nullability) under each name and the same names of indexes, if no two columns of a desired
-- table share a name.
pub diff_schemas-eq-nil_iff :
    (desired current : Schema)
    → HasDistinctColumns desired
    → (diff_schemas desired current ≡ []) ↔ IsSatisfied desired current
unfolding diff_schemas
diff_schemas-eq-nil_iff [] current h = (λ e. tt, λ s. refl)
diff_schemas-eq-nil_iff ((name, d) ∷ rest) current h =
    let later = diff_schemas-eq-nil_iff rest current h.1 in
    let split =
      append-eq-nil (diff_table name d (map_get name current)) (diff_schemas rest current) in
    (
      λ e. let both = split.0 e in (satisfied both.0, later.0 both.1),
      λ s. split.1 (
        subst (λ o. diff_table name d o ≡ []) (sym s.0.1)
            ((diff_table-eq-nil_iff name d s.0.0 h.0).1 s.0.2),
        later.1 s.1,
      ),
    )
  where
    satisfied :
        diff_table name d (map_get name current) ≡ []
        → (c : TableDef) × (map_get name current ≡ some c) × IsSameTable d c
    satisfied e = elim (Option-cases (map_get name current)) [
      | inl none' ↦ absurd (new_table name d (subst (λ o. diff_table name d o ≡ []) none' e))
      | inr (c, found) ↦ (
        c,
        found,
        (diff_table-eq-nil_iff name d c h.0).0 (subst (λ o. diff_table name d o ≡ []) found e),
      )
    ]
