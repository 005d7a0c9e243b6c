-- ===== src/Sql/Regex.antt =====
-- JavaScript regular expressions, as far as the sources use them, over lists of code points, with
-- JavaScript's backtracking order. Letters match in either case, as under the flag `i`; the sources
-- leave that flag out only where a pattern holds no letter outside a class of both cases.
use Prim.Native.Char.{code}
use dbflow.Common.{
  ℕ, zero, suc, ◌+◌, ◌-◌, String, ◌==◌, leb, Bool, true, false, not, ◌&&◌, ◌||◌, List, [], ◌∷◌,
  ◌++◌, Option, none, some, if◌then◌else◌, length, take, includes, is_some,
}
use mathlib.Core.List.{reverse}

abbrev pub Text : Type 0
Text = List ℕ

-- The code points of a text.
abbrev pub codes : String → Text
codes String.[] = []
codes (String.◌∷◌ c s) = code c ∷ codes s

-- `\s`: white space and line terminators.
abbrev pub is_space : ℕ → Bool
is_space c =
    (leb 9 c && leb c 13)
    || ((leb 0x2000 c && leb c 0x200a)
        || includes (32 ∷ 0xa0 ∷ 0x1680 ∷ 0x2028 ∷ 0x2029 ∷ 0x202f ∷ 0x205f ∷ 0x3000 ∷ 0xfeff ∷ [])
            c)

abbrev pub is_digit : ℕ → Bool
is_digit c = leb b'0' c && leb c b'9'

abbrev pub is_letter : ℕ → Bool
is_letter c = (leb b'a' c && leb c b'z') || (leb b'A' c && leb c b'Z')

-- `[A-Za-z0-9_]`, which is `\w`.
abbrev pub is_word : ℕ → Bool
is_word c = is_letter c || (is_digit c || c == b'_')

abbrev pub lower : ℕ → ℕ
lower c = if leb b'A' c && leb c b'Z' then c + 32 else c

-- `trim()`.
abbrev pub trim_start : Text → Text
trim_start [] = []
trim_start (c ∷ s) = let rest = trim_start s in if is_space c then rest else c ∷ s

unfoldable pub trim : Text → Text
trim s = reverse (trim_start (reverse (trim_start s)))

pub data Regex : Type 0 where
  empty word_edge at_end : Regex
  set : (ℕ → Bool) → Regex
  seq alt : Regex → Regex → Regex
  star star_lazy : Regex → Regex
  group : ℕ → Regex → Regex

-- A position in the text, with the groups captured so far.
pub record Cursor : Type 0 where
  pub before : Option ℕ
  pub rest : Text
  pub groups : List (ℕ × Text)

abbrev word_at : Option ℕ → Bool
word_at none = false
word_at (some c) = is_word c

abbrev first_of_text : Text → Option ℕ
first_of_text [] = none
first_of_text (c ∷ s) = some c

abbrev differ : Bool → Bool → Bool
differ true b = not b
differ false b = b

-- What lies between two positions.
abbrev between : Cursor → Cursor → Text
between s t = take (length s.rest - length t.rest) s.rest

abbrev Step : Type 0
Step = Cursor → (Cursor → Option Cursor) → Option Cursor

-- A round that consumes nothing fails, so the length of the text bounds the rounds.
repeat : ℕ → Step → Step
repeat zero round s k = k s
repeat (suc n) round s k =
    elim (round s
      (λ t. elim (length t.rest == length s.rest) [ true ↦ none | false ↦ repeat n round t k ])) [
        | some r ↦ some r
        | none ↦ k s
      ]

repeat_lazy : ℕ → Step → Step
repeat_lazy zero round s k = k s
repeat_lazy (suc n) round s k = elim (k s) [
  | some r ↦ some r
  | none ↦
      round s (λ t. elim (length t.rest == length s.rest) [
        | true ↦ none
        | false ↦ repeat_lazy n round t k
      ])
]

set_step : (ℕ → Bool) → Option ℕ → Text → List (ℕ × Text) → (Cursor → Option Cursor) → Option Cursor
set_step p before [] groups k = none
set_step p before (c ∷ rest) groups k = elim (p c) [
  | true ↦ k (record { before = some c; rest = rest; groups = groups })
  | false ↦ none
]

end_step : Text → Option Cursor → Option Cursor
end_step [] r = r
end_step (c ∷ s) r = none

-- Matches at the cursor, and goes on with the continuation; the first success counts.
run : Regex → Step
run empty s k = k s
run word_edge s k = elim (differ (word_at s.before) (word_at (first_of_text s.rest))) [
  | true ↦ k s
  | false ↦ none
]
run at_end s k = end_step s.rest (k s)
run (set p) s k = set_step p s.before s.rest s.groups k
run (seq a b) s k = run a s (λ t. run b t k)
run (alt a b) s k = elim (run a s k) [ some r ↦ some r | none ↦ run b s k ]
run (star a) s k = repeat (suc (length s.rest)) (run a) s k
run (star_lazy a) s k = repeat_lazy (suc (length s.rest)) (run a) s k
run (group i a) s k = run a s (λ t. k (record t { groups = (i, between s t) ∷ t.groups }))

-- A match at the start of the text: a pattern that begins with `^`.
unfoldable pub match_at_start : Regex → Text → Option Cursor
unfolding run repeat repeat_lazy set_step end_step
match_at_start r s = run r (record { before = none; rest = s; groups = [] }) some

search_from : Regex → Option ℕ → Text → Option Cursor
unfolding run repeat repeat_lazy set_step end_step
search_from r before [] = run r (record { before = before; rest = []; groups = [] }) some
search_from r before (c ∷ s) =
    let later = search_from r (some c) s in
    elim (run r (record { before = before; rest = c ∷ s; groups = [] }) some) [
      | some t ↦ some t
      | none ↦ later
    ]

-- `r.test(s)`.
unfoldable pub test : Regex → Text → Bool
unfolding search_from
test r s = is_some (search_from r none s)

-- The text of a group.
abbrev pub captured : ℕ → List (ℕ × Text) → Option Text
captured i [] = none
captured i ((j, s) ∷ groups) = if i == j then some s else captured i groups

-- `s.replace(r, f)` with the flag `g`. The fuel is at least the length of the text.
replace_from : ℕ → Regex → (Text → Text) → Option ℕ → Text → Text
replace_from zero r f before s = s
replace_from (suc n) r f before [] = []
replace_from (suc n) r f before (c ∷ s) =
    let at : Cursor = record { before = before; rest = c ∷ s; groups = [] } in
    elim (run r at some) [
      | none ↦ c ∷ replace_from n r f (some c) s
      | some t ↦ elim (length t.rest == length (c ∷ s)) [
        | true ↦ c ∷ replace_from n r f (some c) s
        | false ↦ f (between at t) ++ replace_from n r f t.before t.rest
      ]
    ]

unfoldable pub replace_all : Regex → (Text → Text) → Text → Text
unfolding replace_from run repeat repeat_lazy set_step end_step
replace_all r f s = replace_from (length s) r f none s
