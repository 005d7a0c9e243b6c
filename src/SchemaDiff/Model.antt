-- ===== src/SchemaDiff/Model.antt =====
-- A schema and its differences: apps/api/src/schema-diff/schema-model.ts. A `Map` is a list of pairs in
-- the order in which its keys were first set.
use dbflow.Common.{
  ℕ, Bool, false, List, [], ◌∷◌, map, Option, none, some, if◌then◌else◌, same_text, length,
}
use dbflow.Store.{Text}
use dbflow.Sql.Regex.{is_space, lower, trim}

pub record ColumnDef : Type 0 where
  pub name : Text
  pub type : Text
  pub nullable : Bool
  pub raw : Text

pub record IndexDef : Type 0 where
  pub name : Text
  pub columns : List Text
  pub unique : Bool

pub record TableDef : Type 0 where
  pub name : Text
  pub columns : List ColumnDef
  pub indexes : List IndexDef
  pub raw_create_statement : Option Text

-- `map.get(key)`.
abbrev pub map_get {ℓ} : {A : Type ℓ} → Text → List (Text × A) → Option A
map_get key [] = none
map_get key ((k, a) ∷ rest) = if same_text k key then some a else map_get key rest

-- `map.set(key, value)`: in place where the key is there, else at the end.
unfoldable pub map_set {ℓ} : {A : Type ℓ} → Text → A → List (Text × A) → List (Text × A)
map_set key value [] = (key, value) ∷ []
map_set key value ((k, a) ∷ rest) =
    let later = map_set key value rest in
    if same_text k key then (k, value) ∷ rest else (k, a) ∷ later

-- `map.values()`.
abbrev pub map_values {ℓ} : {A : Type ℓ} → List (Text × A) → List A
map_values [] = []
map_values ((k, a) ∷ rest) = a ∷ map_values rest

abbrev pub Schema : Type 0
Schema = List (Text × TableDef)

pub data DiffKind : Type 0 where
  create_table add_column drop_column modify_column add_index drop_index drop_table : DiffKind

pub record DiffItem : Type 0 where
  pub kind : DiffKind
  pub table : Text
  pub statement : Text
  pub destructive : Bool

-- `.replace(/\s+/g, ' ')`.
unfoldable pub collapse : Bool → Text → Text
collapse after_space [] = []
collapse after_space (c ∷ s) =
    let rest = collapse (is_space c) s in
    if is_space c then (if after_space then rest else 32 ∷ rest) else c ∷ rest

-- `normalizeType`.
unfoldable pub normalize_type : Text → Text
unfolding collapse trim
normalize_type type = collapse false (map lower (trim type))

pub record TableSummary : Type 0 where
  pub name : Text
  pub columns : ℕ
  pub indexes : ℕ

pub record CurrentSnapshotSummary : Type 0 where
  pub database : Text
  pub table_count : ℕ
  pub tables : List TableSummary

table_summary : TableDef → TableSummary
table_summary t = record { name = t.name; columns = length t.columns; indexes = length t.indexes }

-- `summarize`.
unfoldable pub summarize : Text → Schema → CurrentSnapshotSummary
unfolding table_summary
summarize database current =
    let tables = map table_summary (map_values current) in
    record { database = database; table_count = length tables; tables = tables }
