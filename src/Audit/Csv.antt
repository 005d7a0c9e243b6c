-- ===== src/Audit/Csv.antt =====
-- The CSV export: `toCsv` of apps/api/src/audit/audit.service.ts.
use dbflow.Common.{ℕ, ◌==◌, Bool, false, ◌||◌, List, [], ◌∷◌, ◌++◌, map, if◌then◌else◌, any, join}
use dbflow.Store.{Text}
use dbflow.Sql.Regex.{codes}

-- A value of a row.
pub data Cell : Type 0 where
  null : Cell
  date : ℕ → Cell
  json plain : Text → Cell

abbrev pub cols : List Text
cols =
    codes "id"
    ∷ codes "createdAt"
    ∷ codes "actorName"
    ∷ codes "action"
    ∷ codes "targetType"
    ∷ codes "targetId"
    ∷ codes "outcome"
    ∷ codes "summary"
    ∷ codes "metadata"
    ∷ codes "actorId"
    ∷ codes "actorRole"
    ∷ codes "actorDept"
    ∷ codes "ip"
    ∷ codes "userAgent"
    ∷ []

-- `/^[=+\-@]/`.
abbrev pub is_formula : Text → Bool
is_formula [] = false
is_formula (c ∷ s) = (c == b'=') || ((c == b'+') || ((c == b'-') || (c == b'@')))

-- A quote before a formula.
unfoldable pub harmless : Text → Text
harmless s = if is_formula s then 39 ∷ s else s

-- `/[",\n]/`.
abbrev pub is_special : ℕ → Bool
is_special c = (c == 34) || ((c == 44) || (c == 10))

-- `s.replace(/"/g, '""')`.
unfoldable pub double_quotes : Text → Text
double_quotes [] = []
double_quotes (c ∷ s) = let rest = double_quotes s in if c == 34 then 34 ∷ 34 ∷ rest else c ∷ rest

unfoldable pub quote_field : Text → Text
unfolding double_quotes
quote_field s = if any is_special s then 34 ∷ (double_quotes s ++ (34 ∷ [])) else s

-- The text of a value; `to_iso` is `Date.toISOString`, and a JSON value comes as its text.
abbrev pub shown : (ℕ → Text) → Cell → Text
shown to_iso Cell.null = []
shown to_iso (Cell.date t) = to_iso t
shown to_iso (Cell.json s) = s
shown to_iso (Cell.plain s) = s

-- `esc`.
unfoldable pub esc : (ℕ → Text) → Cell → Text
unfolding harmless quote_field
esc to_iso v = quote_field (harmless (shown to_iso v))

unfoldable pub csv_line : (ℕ → Text) → (Text → Cell) → Text
unfolding esc join
csv_line to_iso r = join (44 ∷ []) (map (λ c. esc to_iso (r c)) cols)

-- `toCsv`.
unfoldable pub to_csv : (ℕ → Text) → List (Text → Cell) → Text
unfolding csv_line join
to_csv to_iso rows = join (10 ∷ []) (join (44 ∷ []) cols ∷ map (csv_line to_iso) rows) ++ (10 ∷ [])
