-- ===== src/Sql/Patterns.antt =====
-- The pieces from which the sources' patterns are written.
use dbflow.Common.{ℕ, String, ◌==◌, true, not, [], ◌∷◌, includes}
use dbflow.Sql.Regex.{
  Regex, empty, set, seq, alt, star, group, Text, codes, is_space, is_word, lower,
}

infixr 60 ◌>>>◌
abbrev pub ◌>>>◌ : Regex → Regex → Regex
a >>> b = seq a b

-- A letter matches in either case.
abbrev pub chr : ℕ → Regex
chr c = set (λ x. lower x == lower c)

abbrev pub word_of : Text → Regex
word_of [] = empty
word_of (c ∷ s) = seq (chr c) (word_of s)

-- A literal word.
abbrev pub lit : String → Regex
lit s = word_of (codes s)

-- `\s`, `\s*`, `\s+`.
abbrev pub space : Regex
space = set is_space

abbrev pub spaces? : Regex
spaces? = star space

abbrev pub spaces : Regex
spaces = seq space (star space)

-- `r?`.
abbrev pub maybe : Regex → Regex
maybe r = alt r empty

-- `r+`.
abbrev pub many : Regex → Regex
many r = seq r (star r)

-- The characters of a quoted identifier: a backtick or a double quote.
abbrev pub quote : Regex
quote = maybe (set (λ c. includes (b'`' ∷ b'"' ∷ []) c))

-- `[`"]?([A-Za-z0-9_]+)[`"]?`, with the name as group 1.
abbrev pub name : Regex
name = seq quote (seq (group 1 (many (set is_word))) quote)

-- Any character, `[\s\S]`, and any but a newline, `[^\n]`.
abbrev pub any_char : Regex
any_char = set (λ c. true)

abbrev pub not_newline : Regex
not_newline = set (λ c. not (c == 10))
