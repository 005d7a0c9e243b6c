-- ===== src/Audit/CsvReader.antt =====
-- A reader of CSV texts (fields that are quoted or plain, lines that end with a line feed), and that it
-- reads back what `toCsv` of Audit.Csv writes.
use dbflow.Common.{
  ℕ, ◌==◌, ◌≡◌, refl, ap, ◌∙◌, inl, inr, false, List, [], ◌∷◌, ◌++◌, map, if◌then◌else◌, any, join,
  All, Bool-cases, arith,
}
use mathlib.Core.List.{append_assoc}
use dbflow.Store.{Text}
use dbflow.Sql.Regex.{codes}
use dbflow.Audit.Csv.{Cell, cols, is_special, double_quotes, quote_field, esc, csv_line, to_csv}
use dbflow.Audit.CsvTexts.{row_texts, value_texts, BeginsNoFormula, all_texts_lem, rows_lem}

pub data Mode : Type 0 where
  start plain quoted closed : Mode

-- The rest of a field, the other fields of its line, and the lines that follow.
abbrev Read : Type 0
Read = Text × List Text × List (List Text)

abbrev push : ℕ → Read → Read
push c (field, fields, lines) = (c ∷ field, fields, lines)

abbrev next_field : Read → Read
next_field (field, fields, lines) = ([], field ∷ fields, lines)

abbrev next_line : Read → Read
next_line (field, fields, lines) = ([], [], (field ∷ fields) ∷ lines)

-- A character outside quotes, given what follows at the start of a field and within a plain one.
abbrev plain_step : ℕ → Read → Read → Read
plain_step c at_start in_plain =
    if c == 44 then next_field at_start else if c == 10 then next_line at_start else push c in_plain

unfoldable pub read : Mode → Text → Read
read mode [] = ([], [], [])
read Mode.start (c ∷ s) =
    let inside = read Mode.quoted s in
    let outside = plain_step c (read Mode.start s) (read Mode.plain s) in
    if c == 34 then inside else outside
read Mode.plain (c ∷ s) = plain_step c (read Mode.start s) (read Mode.plain s)
read Mode.quoted (c ∷ s) =
    let end = read Mode.closed s in
    let more = push c (read Mode.quoted s) in if c == 34 then end else more
read Mode.closed (c ∷ s) =
    let more = push 34 (read Mode.quoted s) in
    let outside = plain_step c (read Mode.start s) (read Mode.plain s) in
    if c == 34 then more else outside

abbrev all_lines : Read → List (List Text)
all_lines (field, fields, lines) = (field ∷ fields) ∷ lines

-- The lines of a text; after the last line feed comes one line with an empty field.
unfoldable pub read_csv : Text → List (List Text)
unfolding read
read_csv s = all_lines (read Mode.start s)

abbrev set_field : Text → Read → Read
set_field field (f, fields, lines) = (field, fields, lines)

-- A separator ends a field.
module _ (sep : ℕ) (rest : Text) (end : Read) (other : (sep == 34) ≡ false)
    (ends : plain_step sep (read Mode.start rest) (read Mode.plain rest) ≡ set_field [] end) where
  read-plain :
      (s : Text) → any is_special s ≡ false → read Mode.plain (s ++ (sep ∷ rest)) ≡ set_field s end
  unfolding read
  read-plain [] h = ends
  read-plain (c ∷ s) h = ground (arith, read-plain s)

  read-start :
      (s : Text) → any is_special s ≡ false → read Mode.start (s ++ (sep ∷ rest)) ≡ set_field s end
  unfolding read
  read-start [] h = rw (other, if◌then◌else◌) ends
  read-start (c ∷ s) h = ground (arith, read-plain s)

  read-quoted :
      (s : Text) → read Mode.quoted (double_quotes s ++ (34 ∷ sep ∷ rest)) ≡ set_field s end
  unfolding read double_quotes
  read-quoted [] = rw (other, if◌then◌else◌) ends
  read-quoted (c ∷ s) = elim (Bool-cases (c == 34)) [
    | inl yes' ↦ ground (arith, read-quoted s)
    | inr no' ↦ ground (arith, read-quoted s)
  ]

  read-quote_field : (s : Text) → read Mode.start (quote_field s ++ (sep ∷ rest)) ≡ set_field s end
  unfolding quote_field read
  read-quote_field s = elim (Bool-cases (any is_special s)) [
    | inr no' ↦ rw (no', if◌then◌else◌) (read-start s no')
    | inl yes' ↦
        let assoc : (double_quotes s ++ (34 ∷ [])) ++ (sep ∷ rest)
            ≡ double_quotes s ++ (34 ∷ sep ∷ rest) =
          append_assoc (double_quotes s) (34 ∷ []) (sep ∷ rest) in
        rw (yes', if◌then◌else◌) (ap (read Mode.quoted) assoc ∙ read-quoted s)
  ]

abbrev field_line : List Text → Text
field_line fields = join (44 ∷ []) (map quote_field fields)

read-field_line :
    (f : Text) (fs : List Text) (rest : Text)
    → read Mode.start (field_line (f ∷ fs) ++ (10 ∷ rest))
      ≡ (f, fs, all_lines (read Mode.start rest))
unfolding join
read-field_line f [] rest = read-quote_field 10 rest (next_line (read Mode.start rest)) refl refl f
read-field_line f (g ∷ gs) rest =
    let later = field_line (g ∷ gs) ++ (10 ∷ rest) in
    ap (read Mode.start) (append_assoc (quote_field f) (44 ∷ field_line (g ∷ gs)) (10 ∷ rest))
    ∙ read-quote_field 44 later (next_field (read Mode.start later)) refl refl f
    ∙ ap (λ r. set_field f (next_field r)) (read-field_line g gs rest)

-- Lines that have a field each.
abbrev text_of : (Text × List Text) → List (Text × List Text) → Text
text_of (f, fs) lines =
    join (10 ∷ []) (field_line (f ∷ fs) ∷ map (λ l. field_line (l.0 ∷ l.1)) lines) ++ (10 ∷ [])

read_csv-text_of :
    (f : Text) (fs : List Text) (lines : List (Text × List Text))
    → read_csv (text_of (f, fs) lines) ≡ (f ∷ fs) ∷ (map (λ l. l.0 ∷ l.1) lines ++ (([] ∷ []) ∷ []))
unfolding join read_csv
read_csv-text_of f fs [] = ap all_lines (read-field_line f fs [])
read_csv-text_of f fs ((g, gs) ∷ lines) =
    ap (λ t. all_lines (read Mode.start t))
      (append_assoc (field_line (f ∷ fs))
        (10 ∷ join (10 ∷ []) (field_line (g ∷ gs) ∷ map (λ l. field_line (l.0 ∷ l.1)) lines))
        (10 ∷ []))
    ∙ ap all_lines (read-field_line f fs (text_of (g, gs) lines))
    ∙ ap (λ r. (f ∷ fs) ∷ r) (read_csv-text_of g gs lines)

abbrev row_fields : (ℕ → Text) → (Text → Cell) → Text × List Text
row_fields to_iso r = elim (row_texts to_iso r) [ [] ↦ ([], []) | f ∷ fs ↦ (f, fs) ]

csv_line_lem :
    (to_iso : ℕ → Text) (rows : List (Text → Cell))
    → map (csv_line to_iso) rows ≡ map (λ l. field_line (l.0 ∷ l.1)) (map (row_fields to_iso) rows)
unfolding csv_line esc
csv_line_lem to_iso [] = refl
csv_line_lem to_iso (r ∷ rows) = ap (λ t. csv_line to_iso r ∷ t) (csv_line_lem to_iso rows)

row_texts_lem :
    (to_iso : ℕ → Text) (rows : List (Text → Cell))
    → map (λ l. l.0 ∷ l.1) (map (row_fields to_iso) rows) ≡ map (row_texts to_iso) rows
row_texts_lem to_iso [] = refl
row_texts_lem to_iso (r ∷ rows) = ap (λ t. row_texts to_iso r ∷ t) (row_texts_lem to_iso rows)

header_line : join (44 ∷ []) cols ≡ field_line cols
unfolding quote_field join
header_line = refl

-- The export reads back as the header, one line for each row, and the empty line after the last line
-- feed. In a line each value stands as its text, whatever commas, quotes and line feeds it holds, with a
-- quote before it where it begins with = + - or @, and no text of a row begins with one of these.
pub read_csv-to_csv :
    (to_iso : ℕ → Text) (rows : List (Text → Cell))
    → (read_csv (to_csv to_iso rows) ≡ cols ∷ (map (value_texts to_iso) rows ++ (([] ∷ []) ∷ [])))
      × All (All BeginsNoFormula) (map (value_texts to_iso) rows)
unfolding to_csv
read_csv-to_csv to_iso rows = (
  ap (λ t. read_csv (join (10 ∷ []) t ++ (10 ∷ [])))
        (ap (λ h. h ∷ map (csv_line to_iso) rows) header_line
          ∙ ap (λ ls. field_line cols ∷ ls) (csv_line_lem to_iso rows))
      ∙ read_csv-text_of (codes "id") _ (map (row_fields to_iso) rows)
      ∙ ap (λ t. cols ∷ (t ++ (([] ∷ []) ∷ [])))
          (row_texts_lem to_iso rows ∙ all_texts_lem to_iso rows),
  rows_lem to_iso rows,
)
