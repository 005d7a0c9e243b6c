-- ===== src/Common/Texts.antt =====
-- Texts as lists of code points: their equality as a test, `join` and `split`.
use Prim.Native.Nat.{ℕ}
use mathlib.Core.Path.{◌≡◌, refl, ◌∙◌, ap}
use mathlib.Core.Logic.{◌↔◌, ◌≢◌}
use mathlib.Core.Bool.{Bool, true, false, ◌&&◌, ◌||◌}
use mathlib.Core.List.{List, [], ◌∷◌, ◌++◌}
use native.Mathlib.Omega.{arith}
use dbflow.Common.Tests.{◌==◌, if◌then◌else◌}
use dbflow.Common.Lists.{any, All}

-- `===` on texts.
abbrev pub same_text : List ℕ → List ℕ → Bool
same_text [] [] = true
same_text (a ∷ s) (b ∷ t) = (a == b) && same_text s t
same_text _ _ = false

pub same_text_iff : (s t : List ℕ) → (same_text s t ≡ true) ↔ (s ≡ t)
same_text_iff [] [] = (λ e. refl, λ e. refl)
same_text_iff [] (b ∷ t) = (λ e. absurd (ground arith), λ e. absurd (ground arith))
same_text_iff (a ∷ s) [] = (λ e. absurd (ground arith), λ e. absurd (ground arith))
same_text_iff (a ∷ s) (b ∷ t) =
    let rest = same_text_iff s t in (λ e. ground (arith, rest.0), λ e. ground (arith, rest.1))

pub same_text_self : (s : List ℕ) → same_text s s ≡ true
same_text_self s = (same_text_iff s s).1 refl

pub same_text-eq-false : (s t : List ℕ) → s ≢ t → same_text s t ≡ false
same_text-eq-false s t other = ground (arith, (same_text_iff s t).0)

-- `parts.join(separator)`.
unfoldable pub join : List ℕ → List (List ℕ) → List ℕ
join separator [] = []
join separator (t ∷ []) = t
join separator (t ∷ u ∷ rest) = t ++ (separator ++ join separator (u ∷ rest))

abbrev on_first : ℕ → List (List ℕ) → List (List ℕ)
on_first c [] = (c ∷ []) ∷ []
on_first c (t ∷ parts) = (c ∷ t) ∷ parts

-- `text.split(separator)`, for a separator of one character.
unfoldable pub split : ℕ → List ℕ → List (List ℕ)
split separator [] = [] ∷ []
split separator (c ∷ s) =
    let rest = split separator s in if c == separator then [] ∷ rest else on_first c rest

abbrev begins_with : List ℕ → List ℕ → Bool
begins_with [] s = true
begins_with (c ∷ t) [] = false
begins_with (c ∷ t) (d ∷ s) = (c == d) && begins_with t s

-- `text.includes(part)`.
unfoldable pub includes_text : List ℕ → List ℕ → Bool
includes_text part [] = begins_with part []
includes_text part (c ∷ s) = begins_with part (c ∷ s) || includes_text part s

-- The text has no such character.
abbrev pub Lacks : ℕ → List ℕ → Type 0
Lacks c s = any (λ x. x == c) s ≡ false

split-lacking : (c : ℕ) (t : List ℕ) → Lacks c t → split c t ≡ t ∷ []
unfolding split
split-lacking c [] h = refl
split-lacking c (x ∷ t) h = ground (arith, split-lacking c t)

split-append : (c : ℕ) (t s : List ℕ) → Lacks c t → split c (t ++ (c ∷ s)) ≡ t ∷ split c s
unfolding split
split-append c [] s h = ground arith
split-append c (x ∷ t) s h = ground (arith, split-append c t s)

pub split-join :
    (c : ℕ) (t : List ℕ) (parts : List (List ℕ))
    → Lacks c t
    → All (Lacks c) parts
    → split c (join (c ∷ []) (t ∷ parts)) ≡ t ∷ parts
unfolding join
split-join c t [] h hs = split-lacking c t h
split-join c t (u ∷ parts) h hs =
    split-append c t (join (c ∷ []) (u ∷ parts)) h
    ∙ ap (λ p. t ∷ p) (split-join c u parts hs.0 hs.1)
