-- ===== src/SchemaDiff/Destructive.antt =====
-- What the comparison of apps/api/src/schema-diff/schema-diff.engine.ts marks as destructive.
use dbflow.Common.{
  ◌≡◌, refl, sym, ◌∙◌, ap, subst, ◌↔◌, inl, inr, ◌⊎◌, Bool, true, false, List, [], ◌∷◌, Option,
  none, some, In, In-append, In-map, In-map_of, if◌then◌else◌, Bool-cases, Option-cases,
}
use dbflow.Store.{Text}
use dbflow.SchemaDiff.Model.{ColumnDef, IndexDef, TableDef, Schema, map_get, DiffItem}
use dbflow.SchemaDiff.Edits.{Edit, last_named, has_name, revise_one, revise, removals, edits}
use dbflow.SchemaDiff.Engine.{
  column_differs, column_item, column_edits, diff_columns, index_item, index_edits, diff_indexes,
  diff_table, diff_schemas,
}
use dbflow.SchemaDiff.Convergence.{column_name}

abbrev drops : Edit ColumnDef → Bool
drops (Edit.add c) = false
drops (Edit.modify c) = false
drops (Edit.drop key) = true

column_item-destructive :
    (table : Text) (e : Edit ColumnDef) → (column_item table e).destructive ≡ drops e
unfolding column_item
column_item-destructive table (Edit.add c) = refl
column_item-destructive table (Edit.modify c) = refl
column_item-destructive table (Edit.drop key) = refl

index_item-destructive :
    (table : Text) (e : Edit IndexDef) → (index_item table e).destructive ≡ false
unfolding index_item
index_item-destructive table (Edit.add c) = refl
index_item-destructive table (Edit.modify c) = refl
index_item-destructive table (Edit.drop key) = refl

revise-keeps :
    (desired current : List ColumnDef) (e : Edit ColumnDef)
    → In e (revise column_name column_differs desired current)
    → drops e ≡ false
unfolding revise revise_one
revise-keeps [] current e m = absurd m
revise-keeps (d ∷ ds) current e m =
    elim ((In-append
        (revise_one column_name column_differs d (last_named column_name d.name current))
        (revise column_name column_differs ds current) e).0
      m) [
        | inl here ↦ one (last_named column_name d.name current) here
        | inr later ↦ revise-keeps ds current e later
      ]
  where
    modified : (b : Bool) → In e (if b then Edit.modify d ∷ [] else []) → drops e ≡ false
    modified true (inl same) = ap drops same
    modified true (inr m') = absurd m'
    modified false m' = absurd m'

    one :
        (o : Option ColumnDef) → In e (revise_one column_name column_differs d o) → drops e ≡ false
    one none (inl same) = ap drops same
    one none (inr m') = absurd m'
    one (some c) m' = modified (column_differs c d) m'

-- The column is in the current table and not in the desired one.
abbrev IsGone : List ColumnDef → List ColumnDef → Edit ColumnDef → Type 0
IsGone desired current e =
    (c : ColumnDef) × In c current
    × (has_name column_name c.name desired ≡ false)
    × (e ≡ Edit.drop c.name)

In-removals :
    (desired current : List ColumnDef) (e : Edit ColumnDef)
    → In e (removals column_name column_differs desired current) ↔ IsGone desired current e
unfolding removals
In-removals desired [] e = (λ m. absurd m, λ g. absurd g.1)
In-removals desired (c ∷ current) e =
    let later = In-removals desired current e in
    elim (Bool-cases (has_name column_name c.name desired)) [
      | inl kept ↦
          rw (kept, if◌then◌else◌)
            (
              λ m. let (x, l, h, same) = later.0 m in (x, inr l, h, same),
              λ g. elim g.1 [
                | inl own ↦ absurd (cc (ap (λ z. has_name column_name z.name desired) own, g.2))
                | inr l ↦ later.1 (g.0, l, g.2, g.3)
              ],
            )
      | inr gone ↦
          rw (gone, if◌then◌else◌)
            (
              λ m. elim m [
                | inl same ↦ (c, inl refl, gone, same)
                | inr l ↦ let (x, l', h, same) = later.0 l in (x, inr l', h, same)
              ],
              λ g. elim g.1 [
                | inl own ↦ inl (g.3 ∙ ap (λ z. Edit.drop z.name) own)
                | inr l ↦ inr (later.1 (g.0, l, g.2, g.3))
              ],
            )
    ]

-- A column of a table of both schemas that the desired table lacks, and the statement that drops it.
abbrev pub IsDroppedColumn : Schema → Schema → DiffItem → Type 0
IsDroppedColumn desired current item =
    (name : Text) × (d : TableDef) × (c : TableDef) × (column : ColumnDef) × In (name, d) desired
    × (map_get name current ≡ some c)
    × In column c.columns
    × (has_name column_name column.name d.columns ≡ false)
    × (item ≡ column_item name (Edit.drop column.name))

diff_table-new :
    (name : Text) (d : TableDef) (item : DiffItem)
    → In item (diff_table name d none)
    → item.destructive ≡ false
unfolding diff_table
diff_table-new name d item (inl same) = ap (λ i. i.destructive) same
diff_table-new name d item (inr m) = absurd m

diff_table-destructive :
    (name : Text) (d : TableDef) (c : TableDef) (item : DiffItem)
    → In item (diff_table name d (some c))
    → item.destructive ≡ true
    → (column : ColumnDef) × In column c.columns
      × (has_name column_name column.name d.columns ≡ false)
      × (item ≡ column_item name (Edit.drop column.name))
unfolding diff_table diff_columns diff_indexes column_edits edits
diff_table-destructive name d c item m h =
    elim ((In-append (diff_columns name d c) (diff_indexes name d c) item).0 m) [
      | inl l ↦
          let (e, l', same) = In-map (column_item name) (column_edits d c) item l in
          let drop' : drops e ≡ true =
            sym (column_item-destructive name e) ∙ sym (ap (λ i. i.destructive) same) ∙ h in
          elim ((In-append (revise column_name column_differs d.columns c.columns)
              (removals column_name column_differs d.columns c.columns) e).0
            l') [
              | inl kept ↦ absurd (cc (revise-keeps d.columns c.columns e kept))
              | inr gone ↦
                  let (col, there, lacks, is_drop) = (In-removals d.columns c.columns e).0 gone in
                  (col, there, lacks, same ∙ ap (column_item name) is_drop)
            ]
      | inr r ↦
          let (e, l', same) = In-map (index_item name) (index_edits d c) item r in
          absurd (cc (index_item-destructive name e, ap (λ i. i.destructive) same))
    ]

diff_table-drop :
    (name : Text) (d : TableDef) (c : TableDef) (column : ColumnDef)
    → In column c.columns
    → has_name column_name column.name d.columns ≡ false
    → In (column_item name (Edit.drop column.name)) (diff_table name d (some c))
unfolding diff_table diff_columns column_edits edits
diff_table-drop name d c column m h =
    (In-append (diff_columns name d c) (diff_indexes name d c) _).1 (
      inl (
        In-map_of (column_item name) (column_edits d c) (Edit.drop column.name) (
          (In-append (revise column_name column_differs d.columns c.columns)
              (removals column_name column_differs d.columns c.columns) (Edit.drop column.name)).1
            (inr
              ((In-removals d.columns c.columns (Edit.drop column.name)).1 (column, m, h, refl))))))

-- A statement of the comparison is marked destructive exactly when it drops a column, which a table of
-- both schemas has in the current one and not in the desired one; and every such column has its
-- statement.
pub diff_schemas-destructive_iff :
    (desired current : Schema) (item : DiffItem)
    → (In item (diff_schemas desired current) × (item.destructive ≡ true))
      ↔ IsDroppedColumn desired current item
unfolding diff_schemas
diff_schemas-destructive_iff [] current item = (λ m. absurd m.0, λ d. absurd d.4)
diff_schemas-destructive_iff ((name, d) ∷ rest) current item =
    let later = diff_schemas-destructive_iff rest current item in
    let parts =
      In-append (diff_table name d (map_get name current)) (diff_schemas rest current) item in
    (
      λ m. elim (parts.0 m.0) [
        | inl here ↦ elim (Option-cases (map_get name current)) [
          | inl none' ↦ absurd (
              cc (
                m.1,
                diff_table-new name d item (subst (λ o. In item (diff_table name d o)) none' here),
              ))
          | inr (c, found) ↦
              let (col, there, lacks, same) =
                diff_table-destructive name d c item
                  (subst (λ o. In item (diff_table name d o)) found here) m.1 in
              (name, d, c, col, inl refl, found, there, lacks, same)
        ]
        | inr l ↦
            let (n, d', c, col, l', found, there, lacks, same) = later.0 (l, m.1) in
            (n, d', c, col, inr l', found, there, lacks, same)
      ],
      λ g. (
        parts.1 (place (λ h. (later.1 h).0) g),
        ap (λ i. i.destructive) g.8 ∙ column_item-destructive g.0 (Edit.drop g.3.name),
      ),
    )
  where
    place :
        (IsDroppedColumn rest current item → In item (diff_schemas rest current))
        → (g : IsDroppedColumn ((name, d) ∷ rest) current item)
        → In item (diff_table name d (map_get name current)) ⊎ In item (diff_schemas rest current)
    place later (n, d', c, col, inl own, found, there, lacks, same) = inl (
        subst (λ p. In item (diff_table p.0 p.1 (map_get p.0 current))) own
          (subst (λ o. In item (diff_table n d' o)) (sym found)
            (subst (λ i. In i (diff_table n d' (some c))) (sym same)
              (diff_table-drop n d' c col there lacks))))
    place later (n, d', c, col, inr l, found, there, lacks, same) =
        inr (later (n, d', c, col, l, found, there, lacks, same))
