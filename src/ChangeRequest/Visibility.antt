-- ===== src/ChangeRequest/Visibility.antt =====
-- Who sees a change request: `visibilityWhere` and `findOne` of change-request.service.ts.
use dbflow.Common.{
  ◌==◌, Bool, true, ◌&&◌, ◌||◌, ◌≡◌, refl, ◌≢◌, ◌↔◌, ◌⊎◌, inl, inr, List, Option, none, some, any,
  find, In, any-In, any_of_In, includes, includes-In, is_key, find-In, find_of_In, and-true,
  Bool-cases, Option-cases, arith,
}
use dbflow.Store.{
  Key, Role, same_role, Actor, Db, Context, Status, same_status, Approver, Result, Result-cases, ok,
  err, ◌>>=◌, or_throw,
}
use dbflow.Store
use dbflow.ChangeRequest.Records.{slots_of}
use dbflow.ChangeRequest.Views.{delegator_ids_for, is_visible, visible_to, is_key_in, not_draft}
use dbflow.ChangeRequest.Detail.{Detail, asked_id, find_one}

-- The user is the person, or stands in for him now.
abbrev pub ActsFor : Context → Db → Actor → Key → Type 0
ActsFor ctx db actor person =
    (actor.user_id ≡ person) ⊎ In person (delegator_ids_for db actor ctx.now)

-- A developer sees what he has made. A reviewer and an approver see what they, or those for whom they
-- stand in, are to decide, once it is submitted. An administrator sees none.
abbrev pub MaySee : Context → Db → Actor → Store.ChangeRequest → Role → Type 0
MaySee ctx db actor cr Role.developer = cr.author_id ≡ actor.user_id
MaySee ctx db actor cr Role.reviewer =
    (cr.status ≢ Status.draft) × ((k : Key) × (cr.reviewer_id ≡ some k) × ActsFor ctx db actor k)
MaySee ctx db actor cr Role.approver =
    (cr.status ≢ Status.draft)
    × ((a : Approver) × In a (slots_of cr.id db) × ActsFor ctx db actor a.user_id)
MaySee ctx db actor cr Role.admin = cr.id ≡ 0

reviewer_iff :
    (user : Key) (delegators : List Key) (reviewer : Option Key)
    → ((is_key reviewer user || is_key_in delegators reviewer) ≡ true)
      ↔ ((k : Key) × (reviewer ≡ some k) × ((user ≡ k) ⊎ In k delegators))
reviewer_iff user delegators none = (λ e. absurd (ground arith), λ (k, e, h). absurd (ground arith))
reviewer_iff user delegators (some k) = (
  λ e. (
    k,
    refl,
    elim (Bool-cases (includes delegators k)) [
      | inl hit ↦ inr ((includes-In delegators k).0 hit)
      | inr miss ↦ inl (ground arith)
    ],
  ),
  λ (j, e, h). elim h [
    | inl same ↦ ground arith
    | inr m ↦
        let same : k ≡ j = ground arith in
        let hit = (includes-In delegators k).1 (rw same m) in ground arith
  ],
)

approver_iff :
    (user : Key) (delegators : List Key) (slots : List Approver)
    → ((any (λ a. a.user_id == user) slots || any (λ a. includes delegators a.user_id) slots)
        ≡ true)
      ↔ ((a : Approver) × In a slots × ((user ≡ a.user_id) ⊎ In a.user_id delegators))
approver_iff user delegators slots = (
  λ e. elim (Bool-cases (any (λ (a : Approver). a.user_id == user) slots)) [
    | inl own ↦
        let (a, m, h) = any-In (λ (a : Approver). a.user_id == user) slots own in
        (a, m, inl (ground arith))
    | inr others ↦
        let (a, m, h) =
          any-In (λ (a : Approver). includes delegators a.user_id) slots (ground arith) in
        (a, m, inr ((includes-In delegators a.user_id).0 h))
  ],
  λ (a, m, h). elim h [
    | inl same ↦
        let own = any_of_In (λ (a : Approver). a.user_id == user) slots a m (ground arith) in
        ground arith
    | inr l ↦
        let hit =
          any_of_In (λ (a : Approver). includes delegators a.user_id) slots a m
            ((includes-In delegators a.user_id).1 l) in
        ground arith
  ],
)

is_visible_iff :
    (ctx : Context) (db : Db) (actor : Actor) (cr : Store.ChangeRequest) (role : Role)
    → (visible_to role actor.user_id (delegator_ids_for db actor ctx.now) db cr ≡ true)
      ↔ MaySee ctx db actor cr role
unfolding visible_to
is_visible_iff ctx db actor cr Role.developer = (λ e. ground arith, λ h. ground arith)
is_visible_iff ctx db actor cr Role.admin = (λ e. ground arith, λ h. ground arith)
is_visible_iff ctx db actor cr Role.reviewer =
    let who = reviewer_iff actor.user_id (delegator_ids_for db actor ctx.now) cr.reviewer_id in
    (
      λ e. let (a, b) = and-true _ (not_draft cr.status) e in ((λ h. ground arith), who.0 a),
      λ (sent, h). let a = who.1 h in ground arith,
    )
is_visible_iff ctx db actor cr Role.approver =
    let who = approver_iff actor.user_id (delegator_ids_for db actor ctx.now) (slots_of cr.id db) in
    (
      λ e. let (a, b) = and-true _ (not_draft cr.status) e in ((λ h. ground arith), who.0 a),
      λ (sent, h). let a = who.1 h in ground arith,
    )

-- The detail view is given to a user exactly when a row of that key is one that he may see; to others it
-- is as if the change request did not exist. For an administrator the empty key stands in place of the
-- one asked for.
pub find_one_iff :
    (ctx : Context) (db : Db) (actor : Actor) (id : Key)
    → ((d : Detail) × (find_one ctx db actor id ≡ ok d)) ↔ (
        (cr : Store.ChangeRequest) × In cr db.change_requests
        × (cr.id ≡ asked_id actor.role id)
        × MaySee ctx db actor cr actor.role)
unfolding find_one is_visible
find_one_iff ctx db actor id =
    let delegators = delegator_ids_for db actor ctx.now in
    let sought : Store.ChangeRequest → Bool =
      λ cr. (cr.id == asked_id actor.role id) && is_visible actor delegators db cr in
    (
      λ (d, e). elim (Option-cases (find sought db.change_requests)) [
        | inl missing ↦ absurd (ground arith)
        | inr (cr, found) ↦
            let (m, holds) = find-In sought db.change_requests cr found in
            let (key, sees) = and-true (cr.id == asked_id actor.role id) _ holds in
            (cr, m, ground arith, (is_visible_iff ctx db actor cr actor.role).0 sees)
      ],
      λ (cr, m, key, sees).
          let shown = (is_visible_iff ctx db actor cr actor.role).1 sees in
          let (row, found) = find_of_In sought db.change_requests cr m (ground arith) in
          elim (Result-cases (find_one ctx db actor id)) [
            | inl shown' ↦ shown'
            | inr (f, refused) ↦ absurd (ground arith)
          ],
    )
