-- ===== src/ApplySchedule/Laws.antt =====
-- When an apply is allowed: `checkApplyAllowed`.
use dbflow.Common.{
  ℕ, ◌+◌, ◌*◌, true, false, ◌≡◌, refl, ◌↔◌, ◌⊎◌, inl, inr, List, [], ◌∷◌, Option, none, some,
  filter, head?, sort_desc, In, In-filter, In-sort_desc, head?-In, head?_of_In, any-In, any_of_In,
  Bool-cases, Option-cases, arith,
}
use dbflow.Store.{TargetEnv, ApplyWindow, FreezePeriod, Db}
use dbflow.ApplySchedule.{
  Zone, ScheduleStatus, is_frozen, active_freeze, windows_of, is_open_at, check_windows,
  check_freeze, check_apply_allowed,
}

active_freeze-none :
    (env : TargetEnv) (now : ℕ) (db : Db)
    → (active_freeze env now db ≡ none)
      ↔ ((f : FreezePeriod) → In f db.freezes → is_frozen env now f ≡ false)
unfolding active_freeze
active_freeze-none env now db = (to, from)
  where
    sorted : List FreezePeriod
    sorted = sort_desc (λ f. f.ends_at) (filter (is_frozen env now) db.freezes)

    to : head? sorted ≡ none → (f : FreezePeriod) → In f db.freezes → is_frozen env now f ≡ false
    to e f m = elim (Bool-cases (is_frozen env now f)) [
      | inr no' ↦ no'
      | inl yes' ↦
          let (g, found) = head?_of_In sorted f (
            (In-sort_desc (λ (f : FreezePeriod). f.ends_at) _ f).1
              ((In-filter _ db.freezes f).1 (m, yes'))) in
          absurd (ground arith)
    ]

    from :
        ((f : FreezePeriod) → In f db.freezes → is_frozen env now f ≡ false) → head? sorted ≡ none
    from h = elim (Option-cases (head? sorted)) [
      | inl e ↦ e
      | inr (f, e) ↦
          let (m, yes') =
            (In-filter (is_frozen env now) db.freezes f).0
              ((In-sort_desc (λ (f : FreezePeriod). f.ends_at) _ f).0 (head?-In sorted f e)) in
          absurd (ground (arith, h f m))
    ]

-- `some` of the windows, where there are any.
abbrev pub IsOpen : ℕ → ℕ → List ApplyWindow → Type 0
IsOpen day minute windows =
    (windows ≡ []) ⊎ ((w : ApplyWindow) × In w windows × (is_open_at day minute w ≡ true))

check_windows_iff :
    (day minute : ℕ) (windows : List ApplyWindow)
    → (check_windows windows day minute ≡ ScheduleStatus.allowed) ↔ IsOpen day minute windows
unfolding check_windows
check_windows_iff day minute [] = (λ e. inl refl, λ o. refl)
check_windows_iff day minute (v ∷ ws) = (
  λ e. inr (any-In (is_open_at day minute) (v ∷ ws) (ground arith)),
  λ o. elim o [
    | inl e ↦ absurd (ground arith)
    | inr (w, m, e) ↦ let yes' = any_of_In (is_open_at day minute) (v ∷ ws) w m e in ground arith
  ],
)

check_freeze-allowed :
    (f : Option FreezePeriod) (status : ScheduleStatus)
    → (check_freeze f status ≡ ScheduleStatus.allowed)
      ↔ ((f ≡ none) × (status ≡ ScheduleStatus.allowed))
unfolding check_freeze
check_freeze-allowed none status = (λ e. (refl, e), λ p. p.1)
check_freeze-allowed (some f) status = (λ e. absurd (ground arith), λ p. absurd (ground arith))

-- An apply is allowed exactly when no freeze of the environment is in force and, if the environment has
-- windows at all, one of them is open at the local day and minute.
pub check_apply_allowed_iff :
    (zone : Zone) (db : Db) (env : TargetEnv) (now : ℕ)
    → (check_apply_allowed zone db env now ≡ ScheduleStatus.allowed) ↔ (
        ((f : FreezePeriod) → In f db.freezes → is_frozen env now f ≡ false)
        × IsOpen
            (zone.get_day now)
            (zone.get_hours now * 60 + zone.get_minutes now)
            (windows_of env db))
unfolding check_apply_allowed
check_apply_allowed_iff zone db env now =
    let day = zone.get_day now in
    let minute = zone.get_hours now * 60 + zone.get_minutes now in
    let split =
      check_freeze-allowed (active_freeze env now db)
        (check_windows (windows_of env db) day minute) in
    let frozen = active_freeze-none env now db in
    let open' = check_windows_iff day minute (windows_of env db) in
    (
      λ e. let (a, b) = split.0 e in (frozen.0 a, open'.0 b),
      λ p. split.1 (frozen.1 p.0, open'.1 p.1),
    )
