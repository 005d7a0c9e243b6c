-- ===== src/TargetDatabases/Visible.antt =====
-- Who sees which target database (TargetDatabases): `list` and `findOne` agree.
use mathlib.Core.List.{reverse_aux}
use dbflow.Common.{
  ◌==◌, ==_iff, ◌&&◌, ◌≡◌, sym, ◌∙◌, ap, subst, ◌↔◌, ◌⊎◌, inl, inr, true, List, [], ◌∷◌,
  Option-cases, find, find-In, find_of_In, filter, In, In-filter, In-map, In-map_of, and-true,
  arith,
}
use dbflow.Store.{Key, TargetDatabase, Actor, Db, ok}
use dbflow.TargetDatabases.{
  SanitizedTargetDatabase, sanitize, target_visible, find_target_for, list_targets,
}

In-reverse_aux :
    {A : Type 0} (xs ys : List A) (a : A) → In a (reverse_aux xs ys) ↔ (In a xs ⊎ In a ys)
In-reverse_aux [] ys a = (λ m. inr m, λ m. elim m [ inl l ↦ absurd l | inr r ↦ r ])
In-reverse_aux (x ∷ xs) ys a =
    let later = In-reverse_aux xs (x ∷ ys) a in
    (
      λ m. elim (later.0 m) [
        | inl l ↦ inl (inr l)
        | inr r ↦ elim r [ inl e ↦ inl (inl e) | inr t ↦ inr t ]
      ],
      λ m.
          later.1 (elim m [
            | inl h ↦ elim h [ inl e ↦ inr (inl e) | inr l ↦ inl l ]
            | inr t ↦ inr (inr t)
          ]),
    )

-- A key belongs to one row.
abbrev pub HaveUniqueKeys : List TargetDatabase → Type 0
HaveUniqueKeys targets = (t u : TargetDatabase) → In t targets → In u targets → t.id ≡ u.id → t ≡ u

-- A user finds a database under a key exactly when his list holds its view under that key, if each key
-- belongs to one database.
pub find_target_for_iff :
    (db : Db) (actor : Actor) (id : Key) (view : SanitizedTargetDatabase)
    → HaveUniqueKeys db.targets
    → (find_target_for db actor id ≡ ok view) ↔ (In view (list_targets db actor) × (view.id ≡ id))
unfolding find_target_for list_targets sanitize
find_target_for_iff db actor id view unique =
    let sees = λ (t : TargetDatabase). (t.id == id) && target_visible actor t in
    let shown = filter (target_visible actor) db.targets in
    (
      λ e. elim (Option-cases (find sees db.targets)) [
        | inl none' ↦ absurd (ground arith)
        | inr (t, found) ↦
            let (there, both) = find-In sees db.targets t found in
            let (own, visible) = and-true (t.id == id) (target_visible actor t) both in
            let same : sanitize t ≡ view = ground arith in
            let listed = (In-filter (target_visible actor) db.targets t).1 (there, visible) in
            (
              subst (λ v. In v (list_targets db actor)) same
                  (In-map_of sanitize (reverse_aux shown []) t
                    ((In-reverse_aux shown [] t).1 (inl listed))),
              ap (λ v. v.id) (sym same) ∙ (==_iff t.id id).0 own,
            )
      ],
      λ h.
          let (t, m, same) = In-map sanitize (reverse_aux shown []) view h.0 in
          let listed : In t shown = elim ((In-reverse_aux shown [] t).0 m) [
            | inl l ↦ l
            | inr n ↦ absurd n
          ] in
          let (there, visible) = (In-filter (target_visible actor) db.targets t).0 listed in
          let own : t.id ≡ id = ap (λ v. v.id) (sym same) ∙ h.1 in
          let seen : sees t ≡ true = ground (arith, ==_iff t.id id) in
          let (u, found) = find_of_In sees db.targets t there seen in
          let (there', both) = find-In sees db.targets u found in
          let (own', visible') = and-true (u.id == id) (target_visible actor u) both in
          let only : u ≡ t = unique u t there' there ((==_iff u.id id).0 own' ∙ sym own) in
          let step : find_target_for db actor id ≡ ok (sanitize u) = ground arith in
          step ∙ ap (λ x. ok (sanitize x)) only ∙ ap ok (sym same),
    )
