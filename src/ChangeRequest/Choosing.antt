-- ===== src/ChangeRequest/Choosing.antt =====
-- What leads to a successful `approve`, and what the inbox lists.
use dbflow.Common.{
  String, ◌==◌, true, false, ◌&&◌, ◌||◌, ◌≡◌, refl, ap, ◌↔◌, ◌⊎◌, inl, inr, List, map, Option, none,
  some, if◌then◌else◌, filter, is_some, is_key, length, In, In-filter, In-map, In-map_of,
  In-sort_asc, sort_asc, find-In, find_of_In, any-eq-false, any-eq-false_of, and-true, includes,
  includes-In, Bool-cases, Option-cases, arith,
}
use dbflow.Store.{
  Key, Role, same_role, Actor, Db, Context, Status, same_status, Approver, Decision, is_approve,
  AuditAction, Result, ok, err, ◌>>=◌, or_throw, guard,
}
use dbflow.Store
use dbflow.Delegation.{active_delegator_ids}
use dbflow.Audit.{append_log}
use dbflow.ChangeRequest.Submit.{cr_log}
use dbflow.ChangeRequest.StateMachine.{get_next_status}
use dbflow.ChangeRequest.Records.{find_cr, slots_of, set_status}
use dbflow.ChangeRequest.Views.{
  delegator_ids_for, is_visible, is_open, already_acted, Summary, to_summary, visible_rows,
  in_inbox, inbox, by_order,
}
use dbflow.ChangeRequest.Decide.{
  DecisionDto, own_slot, keep_open, Choice, choose_slot, acted_before, final_action,
  finish_approval, approve_db, decide_slot, with_delegate_note, owner_name,
}
use dbflow.ChangeRequest.Slots.{HasSlotKeys}

-- What the database's keys guarantee, and that an open slot has no decider.
pub record IsKeyed (db : Db) : Type 0 where
  pub crs :
      (a b : Store.ChangeRequest)
      → In a db.change_requests
      → In b db.change_requests
      → a.id ≡ b.id
      → a ≡ b
  pub slots : HasSlotKeys db
  pub owners :
      (a b : Approver)
      → In a db.approvers
      → In b db.approvers
      → a.change_request_id ≡ b.change_request_id
      → a.user_id ≡ b.user_id
      → a ≡ b
  pub clean : (a : Approver) → In a db.approvers → is_open a ≡ true → a.decided_by_id ≡ none

abbrev pub summary_in : Context → Db → Actor → Store.ChangeRequest → Summary
summary_in ctx db actor = to_summary db actor.user_id (delegator_ids_for db actor ctx.now)

-- A summary of the inbox: that of a visible row which passes the filter.
pub inbox_iff :
    (ctx : Context) (db : Db) (actor : Actor) (cr : Store.ChangeRequest)
    → (actor.role ≡ Role.reviewer) ⊎ (actor.role ≡ Role.approver)
    → In cr db.change_requests
    → In (summary_in ctx db actor cr) (inbox ctx db actor) ↔ (
        (is_visible actor (delegator_ids_for db actor ctx.now) db cr ≡ true)
        × (in_inbox db actor (summary_in ctx db actor cr) ≡ true))
unfolding inbox to_summary
inbox_iff ctx db actor cr role stands =
    elim (Bool-cases (same_role actor.role Role.reviewer || same_role actor.role Role.approver)) [
      | inr no' ↦ absurd (ground arith)
      | inl yes' ↦ rw (yes', if◌then◌else◌) (to, from)
    ]
  where
    rows : List Store.ChangeRequest
    rows = sort_asc (λ cr. cr.updated_at) (visible_rows db actor ctx.now)

    to :
        In
          (summary_in ctx db actor cr)
          (filter (in_inbox db actor) (map (summary_in ctx db actor) rows))
        → (is_visible actor (delegator_ids_for db actor ctx.now) db cr ≡ true)
          × (in_inbox db actor (summary_in ctx db actor cr) ≡ true)
    to m =
        let (l, holds) = (In-filter (in_inbox db actor) _ _).0 m in
        let (c, l', e) = In-map (summary_in ctx db actor) rows _ l in
        let same : cr ≡ c = ap (λ (s : Summary). s.row) e in
        let v =
          (In-sort_asc (λ (cr : Store.ChangeRequest). cr.updated_at) (visible_rows db actor ctx.now)
              c).0
            l' in
        (rw same ((In-filter _ db.change_requests c).0 v).1, holds)

    from :
        (is_visible actor (delegator_ids_for db actor ctx.now) db cr ≡ true)
          × (in_inbox db actor (summary_in ctx db actor cr) ≡ true)
        → In
            (summary_in ctx db actor cr)
            (filter (in_inbox db actor) (map (summary_in ctx db actor) rows))
    from h = (In-filter (in_inbox db actor) _ _).1 (
      In-map_of (summary_in ctx db actor) rows cr (
          (In-sort_asc (λ (cr : Store.ChangeRequest). cr.updated_at) (visible_rows db actor ctx.now)
              cr).1
            ((In-filter _ db.change_requests cr).1 (stands, h.0))),
      h.1,
    )

module _ (ctx : Context) (db : Db) (actor : Actor) (id : Key) (keys : IsKeyed db) where
  -- An open slot that the actor may fill is enough to choose one.
  pub choose_slot_of :
      (delegators : List Key) (a : Approver)
      → In a db.approvers
      → a.change_request_id ≡ id
      → is_open a ≡ true
      → (a.user_id ≡ actor.user_id) ⊎ In a.user_id delegators
      → (c : Choice) × (choose_slot delegators db id actor.user_id ≡ some c)
  unfolding choose_slot
  choose_slot_of delegators a m here open' (inl mine) =
      let (b, found) =
        find_of_In (λ b. (b.change_request_id == id) && (b.user_id == actor.user_id)) db.approvers a
          m (ground arith) in
      let (stands, holds) = find-In _ db.approvers b found in
      let (p, q) = and-true (b.change_request_id == id) _ holds in
      let same : b ≡ a = keys.owners b a stands m (ground arith) (ground arith) in
      (record { slot = b; for_other = false }, rw found (ground arith))
  choose_slot_of delegators a m here open' (inr listed) =
      let (b, found) =
        find_of_In
          (λ b. (b.change_request_id == id) && (includes delegators b.user_id && is_open b))
          (sort_asc by_order db.approvers) a ((In-sort_asc by_order db.approvers a).1 m)
          (let l = (includes-In delegators a.user_id).1 listed in ground arith) in
      elim (Option-cases (keep_open (own_slot db id actor.user_id))) [
        | inl no' ↦ (record { slot = b; for_other = true }, rw (no', found) refl)
        | inr (o, own) ↦ (record { slot = o; for_other = false }, rw own refl)
      ]

  -- Who has not acted on the change request has filled no other slot of it.
  pub acted_before_of :
      (slot_id : Key)
      → already_acted (slots_of id db) (some actor.user_id) ≡ false
      → acted_before db id slot_id actor.user_id ≡ false
  unfolding acted_before already_acted
  acted_before_of slot_id h = any-eq-false_of _ db.approvers λ b m.
      elim (Bool-cases (b.change_request_id == id)) [
        | inr no' ↦ rw (no', ◌&&◌) refl
        | inl here ↦
            let inside = (In-filter (λ a. a.change_request_id == id) db.approvers b).1 (m, here) in
            ground (
              arith,
              any-eq-false (λ a. (a.user_id == actor.user_id) && is_some a.decision)
                  (slots_of id db) (ground arith) b inside,
              any-eq-false (λ a. is_key a.decided_by_id actor.user_id) (slots_of id db)
                  (ground arith) b inside,
            )
      ]

finish_approval_total :
    (ctx : Context) (id : Key) (d : Decision) (slots : List Approver) (user : Key)
    (remark : Option String) (db : Db)
    → (after : Db) × (finish_approval ctx id Status.review_approved
          (final_action d slots)
          user
          remark
          db
        ≡ ok after)
unfolding finish_approval get_next_status final_action
finish_approval_total ctx id Decision.reject slots user remark db = (_, refl)
finish_approval_total ctx id Decision.approve slots user remark db =
    elim (Bool-cases (length (filter (λ a. is_approve a.decision) slots) == length slots)) [
      | inl all ↦ (
        set_status ctx id Status.review_approved Status.final_approved user remark db,
        ground arith,
      )
      | inr some' ↦ (db, ground arith)
    ]

pub approve_db_total :
    (ctx : Context) (db : Db) (actor : Actor) (id : Key) (dto : DecisionDto)
    (cr : Store.ChangeRequest) (c : Choice)
    → find_cr id db ≡ some cr
    → cr.status ≡ Status.review_approved
    → choose_slot (active_delegator_ids db actor.user_id ctx.now) db id actor.user_id ≡ some c
    → acted_before db id c.slot.id actor.user_id ≡ false
    → (after : Db) × (approve_db ctx db actor id dto ≡ ok after)
unfolding approve_db
approve_db_total ctx db actor id dto cr c found status chosen first =
    let decided = decide_slot ctx actor.user_id c dto db in
    let (after, e) =
      finish_approval_total ctx id dto.decision (slots_of id decided) actor.user_id
        (with_delegate_note dto.comment (owner_name db c)) decided in
    (append_log (cr_log actor AuditAction.cr_approved id) after, ground arith)
