-- ===== src/Audit/CsvTexts.antt =====
-- What stands for a value in the export of Audit.Csv, described on its own.
use dbflow.Common.{
  ℕ, ◌≡◌, refl, inl, inr, List, [], ◌∷◌, map, if◌then◌else◌, All, Bool-cases, includes, ◌≢◌, arith,
}
use dbflow.Store.{Text}
use dbflow.Audit.Csv.{Cell, cols, harmless, shown}

-- The texts of a row, as the export makes them.
abbrev pub row_texts : (ℕ → Text) → (Text → Cell) → List Text
row_texts to_iso r = map (λ c. harmless (shown to_iso (r c))) cols

-- The characters that begin a formula: = + - @.
abbrev pub formula_starts : List ℕ
formula_starts = 61 ∷ 43 ∷ 45 ∷ 64 ∷ []

-- A text with a quote before it where it would begin a formula.
abbrev pub neutral_text : Text → Text
neutral_text [] = []
neutral_text (c ∷ s) = if includes formula_starts c then 39 ∷ c ∷ s else c ∷ s

-- What a reader is to find in place of a value.
abbrev pub value_text : (ℕ → Text) → Cell → Text
value_text to_iso Cell.null = []
value_text to_iso (Cell.date t) = neutral_text (to_iso t)
value_text to_iso (Cell.json s) = neutral_text s
value_text to_iso (Cell.plain s) = neutral_text s

abbrev pub value_texts : (ℕ → Text) → (Text → Cell) → List Text
value_texts to_iso r = map (λ c. value_text to_iso (r c)) cols

abbrev pub BeginsNoFormula : Text → Type 0
BeginsNoFormula [] = Unit
BeginsNoFormula (c ∷ s) = (c ≢ 61) × (c ≢ 43) × (c ≢ 45) × (c ≢ 64)

harmless-neutral_text : (s : Text) → harmless s ≡ neutral_text s
unfolding harmless
harmless-neutral_text [] = refl
harmless-neutral_text (c ∷ s) = ground arith

value_text_lem : (to_iso : ℕ → Text) (v : Cell) → harmless (shown to_iso v) ≡ value_text to_iso v
unfolding harmless
value_text_lem to_iso Cell.null = refl
value_text_lem to_iso (Cell.date t) = harmless-neutral_text (to_iso t)
value_text_lem to_iso (Cell.json s) = harmless-neutral_text s
value_text_lem to_iso (Cell.plain s) = harmless-neutral_text s

value_texts_lem :
    (to_iso : ℕ → Text) (r : Text → Cell) (columns : List Text)
    → map (λ c. harmless (shown to_iso (r c))) columns ≡ map (λ c. value_text to_iso (r c)) columns
value_texts_lem to_iso r [] = refl
value_texts_lem to_iso r (c ∷ columns) =
    rw (value_text_lem to_iso (r c), value_texts_lem to_iso r columns) refl

pub all_texts_lem :
    (to_iso : ℕ → Text) (rows : List (Text → Cell))
    → map (row_texts to_iso) rows ≡ map (value_texts to_iso) rows
all_texts_lem to_iso [] = refl
all_texts_lem to_iso (r ∷ rows) = rw (value_texts_lem to_iso r cols, all_texts_lem to_iso rows) refl

neutral_text-BeginsNoFormula : (s : Text) → BeginsNoFormula (neutral_text s)
neutral_text-BeginsNoFormula [] = tt
neutral_text-BeginsNoFormula (c ∷ s) = elim (Bool-cases (includes formula_starts c)) [
  | inl yes' ↦
      rw (yes', if◌then◌else◌)
        ((λ e. omega arith), (λ e. omega arith), (λ e. omega arith), (λ e. omega arith))
  | inr no' ↦
      rw (no', if◌then◌else◌)
        ((λ e. ground arith), (λ e. ground arith), (λ e. ground arith), (λ e. ground arith))
]

value_text-BeginsNoFormula : (to_iso : ℕ → Text) (v : Cell) → BeginsNoFormula (value_text to_iso v)
value_text-BeginsNoFormula to_iso Cell.null = tt
value_text-BeginsNoFormula to_iso (Cell.date t) = neutral_text-BeginsNoFormula (to_iso t)
value_text-BeginsNoFormula to_iso (Cell.json s) = neutral_text-BeginsNoFormula s
value_text-BeginsNoFormula to_iso (Cell.plain s) = neutral_text-BeginsNoFormula s

value_texts-BeginsNoFormula :
    (to_iso : ℕ → Text) (r : Text → Cell) (columns : List Text)
    → All BeginsNoFormula (map (λ c. value_text to_iso (r c)) columns)
value_texts-BeginsNoFormula to_iso r [] = tt
value_texts-BeginsNoFormula to_iso r (c ∷ columns) =
    (value_text-BeginsNoFormula to_iso (r c), value_texts-BeginsNoFormula to_iso r columns)

pub rows_lem :
    (to_iso : ℕ → Text) (rows : List (Text → Cell))
    → All (All BeginsNoFormula) (map (value_texts to_iso) rows)
rows_lem to_iso [] = tt
rows_lem to_iso (r ∷ rows) = (value_texts-BeginsNoFormula to_iso r cols, rows_lem to_iso rows)
