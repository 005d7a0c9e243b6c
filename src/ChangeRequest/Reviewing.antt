-- ===== src/ChangeRequest/Reviewing.antt =====
-- Who may review, and the reviewer's inbox.
use dbflow.Common.{
  ◌==◌, Bool, true, ◌||◌, ◌≡◌, refl, ap, ◌≢◌, ◌↔◌, ◌⊎◌, inl, inr, List, Option, none, some, is_key,
  In, find-In, includes-In, Bool-cases, Option-cases, ==_iff, arith,
}
use dbflow.Store.{
  Key, Role, Actor, Db, Context, Status, same_status, Decision, AuditAction, Result, ok, err, ◌>>=◌,
  ◌>>◌, guard, or_throw, >>=-eq-ok, guard-eq-ok, or_throw-eq-ok,
}
use dbflow.Store
use dbflow.Audit.{append_log}
use dbflow.Delegation.{active_delegator_ids, is_active_delegate_for}
use dbflow.Delegation.Laws.{active_delegator_ids_iff}
use dbflow.ChangeRequest.StateMachine.{to_status, get_next_status}
use dbflow.ChangeRequest.Records.{find_cr, set_status}
use dbflow.ChangeRequest.Submit.{cr_log}
use dbflow.ChangeRequest.Views.{delegator_ids_for, is_visible, to_summary, in_inbox, inbox}
use dbflow.ChangeRequest.Decide.{
  DecisionDto, review_action, acts_for_reviewer, reviewer_name, with_delegate_note, review_db,
}
use dbflow.ChangeRequest.Choosing.{summary_in, inbox_iff}

-- The assigned reviewer, or a user who holds an active delegation from him.
abbrev pub MayReview : Context → Db → Key → Option Key → Type 0
MayReview ctx db user reviewer =
    (reviewer ≡ some user)
    ⊎ ((rid : Key) × (reviewer ≡ some rid) × In rid (active_delegator_ids db user ctx.now))

abbrev may_act : Context → Db → Key → Option Key → Bool
may_act ctx db user reviewer = is_key reviewer user || acts_for_reviewer ctx db user reviewer

may_act_iff :
    (ctx : Context) (db : Db) (user : Key) (reviewer : Option Key)
    → reviewer ≢ some 0
    → (may_act ctx db user reviewer ≡ true) ↔ MayReview ctx db user reviewer
may_act_iff ctx db user none given = (λ h. cc, λ h. elim h [ inl e ↦ cc | inr (r, e, m) ↦ cc ])
may_act_iff ctx db user (some rid) given = (to, from)
  where
    for' :
        In rid (active_delegator_ids db user ctx.now)
        ↔ (is_active_delegate_for db user rid ctx.now ≡ true)
    for' = active_delegator_ids_iff db user rid ctx.now

    nonzero : rid ≢ 0
    nonzero e = given (ap some e)

    to : may_act ctx db user (some rid) ≡ true → MayReview ctx db user (some rid)
    to h = elim (Bool-cases (rid == user)) [
      | inl direct ↦ inl (ap some ((==_iff rid user).0 direct))
      | inr other ↦ inr (rid, refl, for'.1 (ground arith))
    ]

    from : MayReview ctx db user (some rid) → may_act ctx db user (some rid) ≡ true
    from (inl e) = ground arith
    from (inr (r, e, m)) =
        let same : rid ≡ r = ground arith in
        let active = for'.0 (rw same m) in
        elim (Bool-cases (rid == user)) [ inl a ↦ ground arith | inr b ↦ ground arith ]

-- The database after a review of the row.
abbrev reviewed : Context → Db → Actor → Key → DecisionDto → Store.ChangeRequest → Db
reviewed ctx db actor id dto cr = append_log (cr_log actor AuditAction.cr_reviewed id) (
    set_status ctx id cr.status (to_status (review_action dto.decision)) actor.user_id
      (with_delegate_note dto.comment
        (reviewer_name db (acts_for_reviewer ctx db actor.user_id cr.reviewer_id) cr.reviewer_id))
      db)

-- A row is in a reviewer's inbox exactly when it is submitted and his to review.
reviewer_row_iff :
    (ctx : Context) (db : Db) (actor : Actor) (cr : Store.ChangeRequest)
    → actor.role ≡ Role.reviewer
    → ((is_visible actor (delegator_ids_for db actor ctx.now) db cr ≡ true)
        × (in_inbox db actor (summary_in ctx db actor cr) ≡ true))
      ↔ ((cr.status ≡ Status.submitted) × MayReview ctx db actor.user_id cr.reviewer_id)
unfolding is_visible in_inbox to_summary delegator_ids_for
reviewer_row_iff ctx db actor cr role = (to, from)
  where
    ds : List Key
    ds = active_delegator_ids db actor.user_id ctx.now

    to :
        (is_visible actor (delegator_ids_for db actor ctx.now) db cr ≡ true)
          × (in_inbox db actor (summary_in ctx db actor cr) ≡ true)
        → (cr.status ≡ Status.submitted) × MayReview ctx db actor.user_id cr.reviewer_id
    to (v, b) = elim (Option-cases cr.reviewer_id) [
      | inl none' ↦ absurd (ground arith)
      | inr (rid, e) ↦ elim (Bool-cases (rid == actor.user_id)) [
        | inl mine ↦ (ground arith, inl (ground arith))
        | inr other ↦ (ground arith, inr (rid, e, (includes-In ds rid).0 (ground arith)))
      ]
    ]

    from :
        (cr.status ≡ Status.submitted) × MayReview ctx db actor.user_id cr.reviewer_id
        → (is_visible actor (delegator_ids_for db actor ctx.now) db cr ≡ true)
          × (in_inbox db actor (summary_in ctx db actor cr) ≡ true)
    from (status, inl e) = (ground arith, ground arith)
    from (status, inr (rid, e, m)) =
        let listed = (includes-In ds rid).1 m in
        elim (Bool-cases (rid == actor.user_id)) [
          | inl mine ↦ (ground arith, ground arith)
          | inr other ↦ (ground arith, ground arith)
        ]

-- A review of a change request, whose reviewer is not the empty key, goes through exactly when it is
-- submitted and the actor is its reviewer or acts for him.
pub review_iff :
    (ctx : Context) (db : Db) (actor : Actor) (id : Key) (dto : DecisionDto)
    (cr : Store.ChangeRequest)
    → find_cr id db ≡ some cr
    → cr.reviewer_id ≢ some 0
    → ((after : Db) × (review_db ctx db actor id dto ≡ ok after))
      ↔ ((cr.status ≡ Status.submitted) × MayReview ctx db actor.user_id cr.reviewer_id)
unfolding review_db get_next_status
review_iff ctx db actor id dto cr found given = (to, from)
  where
    to :
        ((after : Db) × (review_db ctx db actor id dto ≡ ok after))
        → (cr.status ≡ Status.submitted) × MayReview ctx db actor.user_id cr.reviewer_id
    to (after, e) = elim (Bool-cases (may_act ctx db actor.user_id cr.reviewer_id)) [
      | inl may ↦ (ground arith, (may_act_iff ctx db actor.user_id cr.reviewer_id given).0 may)
      | inr no' ↦ absurd (ground arith)
    ]

    from :
        (cr.status ≡ Status.submitted) × MayReview ctx db actor.user_id cr.reviewer_id
        → (after : Db) × (review_db ctx db actor id dto ≡ ok after)
    from (status, may) =
        let b = (may_act_iff ctx db actor.user_id cr.reviewer_id given).1 may in
        (reviewed ctx db actor id dto cr, ground arith)

-- For a reviewer, the inbox shows a change request, whose reviewer is not the empty key, exactly when
-- each review of his goes through.
pub inbox-review_iff :
    (ctx : Context) (db : Db) (actor : Actor) (id : Key) (cr : Store.ChangeRequest)
    → actor.role ≡ Role.reviewer
    → find_cr id db ≡ some cr
    → cr.reviewer_id ≢ some 0
    → In (summary_in ctx db actor cr) (inbox ctx db actor)
      ↔ ((dto : DecisionDto) → (after : Db) × (review_db ctx db actor id dto ≡ ok after))
inbox-review_iff ctx db actor id cr role found given = (to, from)
  where
    stands : In cr db.change_requests
    stands = (find-In (λ cr. cr.id == id) db.change_requests cr found).0

    to :
        In (summary_in ctx db actor cr) (inbox ctx db actor)
        → (dto : DecisionDto) → (after : Db) × (review_db ctx db actor id dto ≡ ok after)
    to m dto =
        let h = (inbox_iff ctx db actor cr (inl role) stands).0 m in
        (review_iff ctx db actor id dto cr found given).1
          ((reviewer_row_iff ctx db actor cr role).0 h)

    from :
        ((dto : DecisionDto) → (after : Db) × (review_db ctx db actor id dto ≡ ok after))
        → In (summary_in ctx db actor cr) (inbox ctx db actor)
    from h =
        let p =
          (review_iff ctx db actor id _ cr found given).0
            (h (record { decision = Decision.approve; comment = none })) in
        (inbox_iff ctx db actor cr (inl role) stands).1
          ((reviewer_row_iff ctx db actor cr role).1 p)
