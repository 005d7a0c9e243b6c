-- ===== src/SchemaDiff/Indexes.antt =====
-- The named indexes of a table, as `diffIndexes` of apps/api/src/schema-diff/schema-diff.engine.ts
-- collects them by name.
use dbflow.Common.{
  ◌≡◌, refl, sym, ◌∙◌, subst, inl, inr, Bool, false, ◌&&◌, ◌||◌, List, [], ◌∷◌, any, if◌then◌else◌,
  same_text, same_text_iff, Bool-cases, arith,
}
use dbflow.Store.{Text}
use dbflow.SchemaDiff.Model.{IndexDef, map_set, map_values}
use dbflow.SchemaDiff.Edits.{has_name}
use dbflow.SchemaDiff.Effects.{IsDistinct}
use dbflow.SchemaDiff.Engine.{is_named, by_name}

abbrev pub index_name : IndexDef → Text
index_name i = i.name

-- The table has an index of this name, other than the primary key.
abbrev pub has_index : Text → List IndexDef → Bool
has_index key indexes = any (λ i. is_named i && same_text i.name key) indexes

abbrev pub named_indexes : List IndexDef → List IndexDef
named_indexes indexes = map_values (by_name [] indexes)

-- Each key is its index's name.
abbrev IsKeyed : List (Text × IndexDef) → Type 0
IsKeyed [] = Unit
IsKeyed ((key, i) ∷ rest) = (key ≡ i.name) × IsKeyed rest

map_set-IsKeyed :
    (i : IndexDef) (seen : List (Text × IndexDef)) → IsKeyed seen → IsKeyed (map_set i.name i seen)
unfolding map_set
map_set-IsKeyed i [] h = (refl, tt)
map_set-IsKeyed i ((key, j) ∷ rest) h =
    ground (arith, map_set-IsKeyed i rest h.1, same_text_iff key i.name)

has_name-map_set :
    (key : Text) (i : IndexDef) (seen : List (Text × IndexDef))
    → IsKeyed seen
    → has_name index_name key (map_values (map_set i.name i seen))
      ≡ (same_text i.name key || has_name index_name key (map_values seen))
unfolding map_set
has_name-map_set key i [] h = ground arith
has_name-map_set key i ((k, j) ∷ rest) h = ground (
  arith,
  has_name-map_set key i rest h.1,
  same_text_iff k i.name,
  same_text_iff i.name key,
  same_text_iff j.name key,
)

map_set-IsDistinct :
    (i : IndexDef) (seen : List (Text × IndexDef))
    → IsKeyed seen
    → IsDistinct index_name (map_values seen)
    → IsDistinct index_name (map_values (map_set i.name i seen))
unfolding map_set
map_set-IsDistinct i [] k h = (refl, tt)
map_set-IsDistinct i ((key, j) ∷ rest) k h = elim (Bool-cases (same_text key i.name)) [
  | inl same ↦
      let named : j.name ≡ i.name = sym k.0 ∙ (same_text_iff key i.name).0 same in
      rw (same, if◌then◌else◌)
        (subst (λ n. has_name index_name n (map_values rest) ≡ false) named h.0, h.1)
  | inr other ↦
      let apart : same_text i.name j.name ≡ false =
        ground (arith, same_text_iff i.name j.name, same_text_iff key i.name, k.0) in
      rw (other, if◌then◌else◌)
        (ground (arith, has_name-map_set j.name i rest k.1, h.0), map_set-IsDistinct i rest k.1 h.1)
]

by_name_lem :
    (key : Text) (seen : List (Text × IndexDef)) (indexes : List IndexDef)
    → IsKeyed seen
    → has_name index_name key (map_values (by_name seen indexes))
      ≡ (has_name index_name key (map_values seen) || has_index key indexes)
unfolding by_name
by_name_lem key seen [] k = ground arith
by_name_lem key seen (i ∷ indexes) k = ground (
  arith,
  by_name_lem key seen indexes k,
  map_set-IsKeyed i seen k,
  has_name-map_set key i seen k,
  by_name_lem key (map_set i.name i seen) indexes (map_set-IsKeyed i seen k),
)

by_name-IsDistinct :
    (seen : List (Text × IndexDef)) (indexes : List IndexDef)
    → IsKeyed seen
    → IsDistinct index_name (map_values seen)
    → IsDistinct index_name (map_values (by_name seen indexes))
unfolding by_name
by_name-IsDistinct seen [] k h = h
by_name-IsDistinct seen (i ∷ indexes) k h = elim (Bool-cases (is_named i)) [
  | inl yes' ↦
      rw (yes', if◌then◌else◌)
        (by_name-IsDistinct (map_set i.name i seen) indexes (map_set-IsKeyed i seen k)
          (map_set-IsDistinct i seen k h))
  | inr no' ↦ rw (no', if◌then◌else◌) (by_name-IsDistinct seen indexes k h)
]

pub named_indexes-IsDistinct :
    (indexes : List IndexDef) → IsDistinct index_name (named_indexes indexes)
named_indexes-IsDistinct indexes = by_name-IsDistinct [] indexes tt tt

pub named_indexes-has_name :
    (key : Text) (indexes : List IndexDef)
    → has_name index_name key (named_indexes indexes) ≡ has_index key indexes
named_indexes-has_name key indexes = by_name_lem key [] indexes tt
