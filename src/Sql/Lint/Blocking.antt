-- ===== src/Sql/Lint/Blocking.antt =====
-- When the lint blocks: `hasBlock` of a `lintFiles` result.
use dbflow.Common.{
  ℕ, String, ltb, Bool, true, false, ◌≡◌, refl, subst, ◌↔◌, ◌⊎◌, inl, inr, List, [], ◌∷◌, ◌++◌,
  Option, none, some, if◌then◌else◌, In, In-append, Bool-cases, arith,
}
use dbflow.Store.{SqlReviewLevel}
use dbflow.Sql.Analyzer.{AnalyzedStatement, analyze_sql}
use dbflow.Sql.Lint.{
  LintSeverity, Rule, rules, rule_key, matches, LintItem, PolicyMap, policy_get, severity_of,
  report, lint_rules, lint_statements, LintFile, lint_items, severity_order, max_severity,
  lint_files, has_block,
}

abbrev HasBlockItem : List LintItem → Type 0
HasBlockItem items = (i : LintItem) × In i items × (i.severity ≡ LintSeverity.block)

-- The rule is at level BLOCK and matches the statement.
abbrev pub IsBlocked : PolicyMap → AnalyzedStatement → Rule → Type 0
IsBlocked policy s rule =
    (matches rule s ≡ true) × (policy_get (rule_key rule) policy ≡ some SqlReviewLevel.block)

max_severity_iff :
    (items : List LintItem) (most : LintSeverity)
    → (max_severity most items ≡ LintSeverity.block)
      ↔ ((most ≡ LintSeverity.block) ⊎ HasBlockItem items)
unfolding max_severity
max_severity_iff [] most = (inl, λ h. elim h [ inl e ↦ e | inr (i, m, e) ↦ absurd m ])
max_severity_iff (i ∷ items) most =
    let rest =
      max_severity_iff items
        (if ltb (severity_order most) (severity_order i.severity) then i.severity else most) in
    (
      λ e. elim (rest.0 e) [
        | inr (j, m, b) ↦ inr (j, inr m, b)
        | inl b ↦ elim (Bool-cases (ltb (severity_order most) (severity_order i.severity))) [
          | inl higher ↦ inr (i, inl refl, ground arith)
          | inr lower ↦ inl (ground arith)
        ]
      ],
      λ h. rest.1 (elim h [
        | inl e ↦ inl (ground arith)
        | inr (j, inr m, b) ↦ inr (j, m, b)
        | inr (j, inl same, b) ↦ inl (ground arith)
      ]),
    )

HasBlockItem-append :
    (xs ys : List LintItem) → HasBlockItem (xs ++ ys) ↔ (HasBlockItem xs ⊎ HasBlockItem ys)
HasBlockItem-append xs ys = (
  λ (i, m, b). elim ((In-append xs ys i).0 m) [ inl l ↦ inl (i, l, b) | inr r ↦ inr (i, r, b) ],
  λ h. elim h [
    | inl (i, m, b) ↦ (i, (In-append xs ys i).1 (inl m), b)
    | inr (i, m, b) ↦ (i, (In-append xs ys i).1 (inr m), b)
  ],
)

module _ {A : Type 0} (P : A → Type 0) {X Y : Type 0} where
  exists-cons :
      (x : A) (xs : List A)
      → X ↔ P x
      → Y ↔ ((a : A) × In a xs × P a)
      → (X ⊎ Y) ↔ ((a : A) × In a (x ∷ xs) × P a)
  exists-cons x xs first rest = (
    λ h. elim h [
      | inl l ↦ (x, inl refl, first.0 l)
      | inr r ↦ let (a, m, p) = rest.0 r in (a, inr m, p)
    ],
    λ (a, m, p). elim m [ inl e ↦ inl (first.1 (subst P e p)) | inr l ↦ inr (rest.1 (a, l, p)) ],
  )

↔-trans : {X Y Z : Type 0} → X ↔ Y → Y ↔ Z → X ↔ Z
↔-trans (f, g) (h, k) = (λ x. h (f x), λ z. g (k z))

-- What one rule reports on a statement.
abbrev reported : PolicyMap → String → AnalyzedStatement → Rule → List LintItem
reported policy filename s rule =
    if matches rule s
    then report filename s.line rule (severity_of (policy_get (rule_key rule) policy))
    else []

reported_iff :
    (hit : Bool) (filename : String) (line : ℕ) (rule : Rule) (level : Option SqlReviewLevel)
    → HasBlockItem (if hit then report filename line rule (severity_of level) else [])
      ↔ ((hit ≡ true) × (level ≡ some SqlReviewLevel.block))
unfolding report
reported_iff false filename line rule level = (λ (i, m, b). absurd m, λ h. absurd (ground arith))
reported_iff true filename line rule none = (λ (i, m, b). absurd m, λ h. absurd (ground arith))
reported_iff true filename line rule (some SqlReviewLevel.block) =
    (λ h. (refl, refl), λ h. (_, inl refl, refl))
reported_iff true filename line rule (some SqlReviewLevel.disabled) =
    (λ (i, m, b). absurd m, λ h. absurd (ground arith))
reported_iff true filename line rule (some SqlReviewLevel.info) =
    (λ h. ground arith, λ h. absurd (ground arith))
reported_iff true filename line rule (some SqlReviewLevel.warn) =
    (λ h. ground arith, λ h. absurd (ground arith))

lint_rules_iff :
    (policy : PolicyMap) (filename : String) (s : AnalyzedStatement) (rs : List Rule)
    → HasBlockItem (lint_rules policy filename s rs) ↔ ((r : Rule) × In r rs × IsBlocked policy s r)
unfolding lint_rules
lint_rules_iff policy filename s [] = (λ (i, m, b). absurd m, λ (r, m, b). absurd m)
lint_rules_iff policy filename s (rule ∷ rs) =
    ↔-trans
      (HasBlockItem-append (reported policy filename s rule) (lint_rules policy filename s rs))
      (exists-cons (IsBlocked policy s) rule rs
        (reported_iff (matches rule s) filename s.line rule (policy_get (rule_key rule) policy))
        (lint_rules_iff policy filename s rs))

lint_statements_iff :
    (policy : PolicyMap) (filename : String) (ss : List AnalyzedStatement)
    → HasBlockItem (lint_statements policy filename ss)
      ↔ ((s : AnalyzedStatement) × In s ss × ((r : Rule) × In r rules × IsBlocked policy s r))
unfolding lint_statements
lint_statements_iff policy filename [] = (λ (i, m, b). absurd m, λ (s, m, b). absurd m)
lint_statements_iff policy filename (s ∷ ss) =
    ↔-trans
      (HasBlockItem-append (lint_rules policy filename s rules)
        (lint_statements policy filename ss))
      (exists-cons (λ (s : AnalyzedStatement). (r : Rule) × In r rules × IsBlocked policy s r) s ss
        (lint_rules_iff policy filename s rules) (lint_statements_iff policy filename ss))

-- A rule at level BLOCK matches a statement of one of the files.
abbrev pub IsBlockedFile : PolicyMap → LintFile → Type 0
IsBlockedFile policy f =
    (s : AnalyzedStatement) × In s (analyze_sql f.content)
    × ((r : Rule) × In r rules × IsBlocked policy s r)

lint_items_iff :
    (policy : PolicyMap) (files : List LintFile)
    → HasBlockItem (lint_items policy files)
      ↔ ((f : LintFile) × In f files × IsBlockedFile policy f)
unfolding lint_items
lint_items_iff policy [] = (λ (i, m, b). absurd m, λ (f, m, b). absurd m)
lint_items_iff policy (f ∷ fs) =
    ↔-trans
      (HasBlockItem-append (lint_statements policy f.filename (analyze_sql f.content))
        (lint_items policy fs))
      (exists-cons (IsBlockedFile policy) f fs
        (lint_statements_iff policy f.filename (analyze_sql f.content)) (lint_items_iff policy fs))

-- The lint blocks exactly when one of the files holds a statement that a rule at level BLOCK matches.
pub has_block_iff :
    (files : List LintFile) (policy : PolicyMap)
    → (has_block (lint_files files policy) ≡ true)
      ↔ ((f : LintFile) × In f files × IsBlockedFile policy f)
unfolding has_block lint_files
has_block_iff files policy =
    let items = lint_items policy files in
    let most = max_severity_iff items LintSeverity.info in
    let blocked = lint_items_iff policy files in
    (
      λ e. elim (most.0 (ground arith)) [ inl e' ↦ absurd (ground arith) | inr h ↦ blocked.0 h ],
      λ h. let top = most.1 (inr (blocked.1 h)) in ground arith,
    )
