-- ===== src/SchemaDiff/Convergence.antt =====
-- What the comparison of apps/api/src/schema-diff/schema-diff.engine.ts finds, table by table.
use dbflow.Common.{
  ◌≡◌, refl, sym, ◌∙◌, ◌↔◌, inl, inr, ◌⊎◌, true, false, List, Option, none, some, same_text_iff,
  Bool-cases, Option-cases, arith,
}
use dbflow.Store.{Text}
use dbflow.SchemaDiff.Model.{ColumnDef, IndexDef, TableDef}
use dbflow.SchemaDiff.Edits.{last_named, has_name}
use dbflow.SchemaDiff.Effects.{IsDistinct, apply_edits, last_named-name, has_name-last_named}
use dbflow.SchemaDiff.Applying.{Agrees, edits-Agrees}
use dbflow.SchemaDiff.Indexes.{
  index_name, has_index, named_indexes, named_indexes-IsDistinct, named_indexes-has_name,
}
use dbflow.SchemaDiff.Engine.{column_differs, column_edits, index_edits}

abbrev pub column_name : ColumnDef → Text
column_name c = c.name

-- Both columns are missing, or they have the same name, type and nullability.
abbrev pub IsSameColumn : Option ColumnDef → Option ColumnDef → Type 0
IsSameColumn none none = Unit
IsSameColumn (some d) (some c) = (c.name ≡ d.name) × (c.type ≡ d.type) × (c.nullable ≡ d.nullable)
IsSameColumn _ _ = ⊥

column_differs_iff :
    (c d : ColumnDef)
    → (column_differs c d ≡ false) ↔ ((c.type ≡ d.type) × (c.nullable ≡ d.nullable))
unfolding column_differs
column_differs_iff c d = (
  λ e. ground (arith, (same_text_iff c.type d.type).0),
  λ e. ground (arith, (same_text_iff c.type d.type).1),
)

pub IsSameColumn-iff-Agrees :
    (d c : Option ColumnDef) → Agrees column_name column_differs d c ↔ IsSameColumn d c
IsSameColumn-iff-Agrees none none = (λ h. h, λ h. h)
IsSameColumn-iff-Agrees none (some c) = (λ h. h, λ h. h)
IsSameColumn-iff-Agrees (some d) none = (λ h. h, λ h. h)
IsSameColumn-iff-Agrees (some d) (some c) =
    let differs = column_differs_iff c d in
    (λ h. let r = differs.0 h.1 in (h.0, r.0, r.1), λ h. (h.0, differs.1 (h.1, h.2)))

-- The column that a table has under a name.
abbrev pub column_at : Text → List ColumnDef → Option ColumnDef
column_at key columns = last_named column_name key columns

pub column_differs_self : (c : ColumnDef) → column_differs c c ≡ false
column_differs_self c = (column_differs_iff c c).1 (refl, refl)

last_named-cases :
    (key : Text) (xs : List IndexDef)
    → ((last_named index_name key xs ≡ none) × (has_name index_name key xs ≡ false))
      ⊎ ((i : IndexDef) × (last_named index_name key xs ≡ some i)
          × (has_name index_name key xs ≡ true))
last_named-cases key xs = elim (Option-cases (last_named index_name key xs)) [
  | inl none' ↦ inl (none', (has_name-last_named index_name key xs).0 none')
  | inr (i, found) ↦ inr (
    i,
    found,
    elim (Bool-cases (has_name index_name key xs)) [
      | inl there ↦ there
      | inr gone ↦ absurd (cc ((has_name-last_named index_name key xs).1 gone))
    ],
  )
]

unfoldable pub IndexAgrees : Option IndexDef → Option IndexDef → Type 0
IndexAgrees = Agrees index_name (λ _ _. false)

pub same_names_iff :
    (xs ys : List IndexDef) (key : Text)
    → IndexAgrees (last_named index_name key xs) (last_named index_name key ys)
      ↔ (has_name index_name key ys ≡ has_name index_name key xs)
unfolding IndexAgrees
same_names_iff xs ys key = elim (last_named-cases key xs) [
  | inl (x, x') ↦ elim (last_named-cases key ys) [
    | inl (y, y') ↦ rw (x, y) (λ a. y' ∙ sym x', λ e. tt)
    | inr (j, y, y') ↦ rw (x, y) (λ a. absurd a, λ e. absurd (cc))
  ]
  | inr (i, x, x') ↦ elim (last_named-cases key ys) [
    | inl (y, y') ↦ rw (x, y) (λ a. absurd a, λ e. absurd (cc))
    | inr (j, y, y') ↦
        rw (x, y)
          (
            λ a. y' ∙ sym x',
            λ e. (
              last_named-name index_name key ys j y ∙ sym (last_named-name index_name key xs i x),
              refl,
            ),
          )
  ]
]

-- Applied to the columns of the current table and to its named indexes, the edits leave under every
-- name the desired column, with its type and nullability, or none where none is desired, and a
-- named index under exactly the names of the desired ones, if no two desired columns share a name. What
-- an index of a name that stays covers is not compared.
pub table_edits-converge :
    (desired current : TableDef)
    → IsDistinct column_name desired.columns
    → ((key : Text)
        → IsSameColumn (column_at key desired.columns) (
            column_at key (apply_edits column_name (column_edits desired current) current.columns)))
      × ((key : Text)
          → has_name index_name key
              (apply_edits index_name (index_edits desired current) (named_indexes current.indexes))
            ≡ has_index key desired.indexes)
unfolding column_edits index_edits IndexAgrees
table_edits-converge desired current h = (
  λ key. (IsSameColumn-iff-Agrees _ _).0 (
      edits-Agrees column_name column_differs column_differs_self desired.columns current.columns h
        key),
  λ key.
      (same_names_iff (named_indexes desired.indexes)
          (apply_edits index_name (index_edits desired current) (named_indexes current.indexes))
          key).0
        (edits-Agrees index_name (λ _ _. false) (λ i. refl) (named_indexes desired.indexes)
          (named_indexes current.indexes) (named_indexes-IsDistinct desired.indexes) key)
      ∙ named_indexes-has_name key desired.indexes,
)
