-- ===== src/ApplySchedule/NextWindow.antt =====
-- Which window comes next: `findNextWindow`.
use dbflow.Common.{
  ℕ, zero, suc, ◌+◌, ◌%◌, ◌-◌, ◌≤◌, ◌<◌, ◌==◌, ltb, true, false, ◌≡◌, sym, ◌∙◌, ◌⊎◌, inl, inr, List,
  none, some, if◌then◌else◌, filter, In, In-filter, In-sort_asc, head?-In, head?_of_In,
  sort_asc-head, Bool-cases, Option-cases, arith,
}
use dbflow.Store.{ApplyWindow}
use dbflow.ApplySchedule.{is_candidate, first_window, scan_days, find_next_window}

-- The days until the window next starts, from a day and a minute of that day.
abbrev pub days_until : ℕ → ℕ → ApplyWindow → ℕ
days_until day minute w =
    if w.day_of_week == day
    then (if ltb minute w.start_minute then 0 else 7)
    else (w.day_of_week + 7 - day) % 7

-- The first window starts no later than the second.
abbrev pub IsNoLater : ℕ → ℕ → ApplyWindow → ApplyWindow → Type 0
IsNoLater day minute w v =
    (days_until day minute w < days_until day minute v)
    ⊎ ((days_until day minute w ≡ days_until day minute v) × (w.start_minute ≤ v.start_minute))

module _ (day minute : ℕ) (valid : day < 7) where
  candidate-days_until :
      (w : ApplyWindow)
      → w.day_of_week < 7
      → is_candidate day minute (days_until day minute w) w ≡ true
  candidate-days_until w small = ground arith

  days_until-le :
      (w : ApplyWindow) (offset : ℕ)
      → w.day_of_week < 7
      → is_candidate day minute offset w ≡ true
      → days_until day minute w ≤ offset
  days_until-le w offset small e = ground arith

  first_window-none :
      (offset : ℕ) (ws : List ApplyWindow)
      → first_window day minute offset ws ≡ none
      → (v : ApplyWindow) → In v ws
      → is_candidate day minute offset v ≡ false
  unfolding first_window
  first_window-none offset ws e v m = elim (Bool-cases (is_candidate day minute offset v)) [
    | inr no' ↦ no'
    | inl yes' ↦
        let kept = (In-filter (is_candidate day minute offset) ws v).1 (m, yes') in
        let (w, found) =
          head?_of_In _ v ((In-sort_asc (λ (w : ApplyWindow). w.start_minute) _ v).1 kept) in
        absurd (cc (e, found))
  ]

  -- The candidate found starts no later than another of the same day.
  first_window-some :
      (offset : ℕ) (ws : List ApplyWindow) (w : ApplyWindow)
      → first_window day minute offset ws ≡ some w
      → In w ws
        × (is_candidate day minute offset w ≡ true)
        × ((v : ApplyWindow)
            → In v ws
            → is_candidate day minute offset v ≡ true
            → w.start_minute ≤ v.start_minute)
  unfolding first_window
  first_window-some offset ws w e =
      let candidates = filter (is_candidate day minute offset) ws in
      let (m, c) =
        (In-filter (is_candidate day minute offset) ws w).0
          ((In-sort_asc (λ (w : ApplyWindow). w.start_minute) candidates w).0 (head?-In _ w e)) in
      (
        m,
        c,
        λ v n d.
            sort_asc-head (λ (w : ApplyWindow). w.start_minute) candidates v
              ((In-filter (is_candidate day minute offset) ws v).1 (n, d)) w e,
      )

  module _ (ws : List ApplyWindow) (small : (v : ApplyWindow) → In v ws → v.day_of_week < 7) where
    -- No window starts before the offset that is left to try.
    abbrev IsPassed : ℕ → Type 0
    IsPassed offset = (v : ApplyWindow) → In v ws → offset ≤ days_until day minute v

    pass :
        (offset : ℕ)
        → IsPassed offset
        → first_window day minute offset ws ≡ none
        → IsPassed (suc offset)
    pass offset passed e v m = elim (Bool-cases (days_until day minute v == offset)) [
      | inl at ↦
          let same : days_until day minute v ≡ offset = ground arith in
          let c = candidate-days_until v (small v m) in
          let c' = first_window-none offset ws e v m in absurd (cc (same, c, c'))
      | inr later ↦ ground (arith, passed v m)
    ]

    scan_days-some :
        (rounds offset : ℕ) (w : ApplyWindow)
        → IsPassed offset
        → scan_days rounds offset day minute ws ≡ some w
        → In w ws × ((v : ApplyWindow) → In v ws → IsNoLater day minute w v)
    unfolding scan_days
    scan_days-some zero offset w passed e = absurd (ground arith)
    scan_days-some (suc rounds) offset w passed e =
        elim (Option-cases (first_window day minute offset ws)) [
          | inl none' ↦
              scan_days-some rounds (suc offset) w (pass offset passed none') (ground arith)
          | inr (u, found) ↦
              let same : u ≡ w = ground arith in
              let (m, c, least) = first_window-some offset ws u found in
              let at : days_until day minute u ≡ offset =
                ground (arith, passed u m, days_until-le u offset (small u m) c) in
              rw (← same) (
                m,
                λ v n. elim (Bool-cases (days_until day minute v == offset)) [
                  | inl here ↦
                      let here' : days_until day minute v ≡ offset = ground arith in
                      inr (
                        at ∙ sym here',
                        least v n (rw (← here') (candidate-days_until v (small v n))),
                      )
                  | inr later ↦ inl (ground (arith, passed v n))
                ],
              )
        ]

    scan_days-total :
        (rounds offset : ℕ) (v : ApplyWindow)
        → IsPassed offset
        → In v ws
        → days_until day minute v < rounds + offset
        → (w : ApplyWindow) × (scan_days rounds offset day minute ws ≡ some w)
    unfolding scan_days
    scan_days-total zero offset v passed m bound = absurd (ground (arith, passed v m))
    scan_days-total (suc rounds) offset v passed m bound =
        elim (Option-cases (first_window day minute offset ws)) [
          | inr (u, found) ↦ (u, ground arith)
          | inl none' ↦
              let (w, e) =
                scan_days-total rounds (suc offset) v (pass offset passed none') m (ground arith) in
              (w, ground arith)
        ]

    -- Of windows that have a weekday, if there is one at all, the search finds one that starts soonest,
    -- counted in days and then in minutes of the day.
    pub find_next_window-soonest :
        (v : ApplyWindow)
        → In v ws
        → (w : ApplyWindow) × (find_next_window ws day minute ≡ some w)
          × In w ws
          × ((u : ApplyWindow) → In u ws → IsNoLater day minute w u)
    unfolding find_next_window
    find_next_window-soonest v m =
        let start : IsPassed 0 = λ u n. ground arith in
        let (w, e) = scan_days-total 8 0 v start m (ground (arith, small v m)) in
        let (n, least) = scan_days-some 8 0 w start e in (w, e, n, least)
