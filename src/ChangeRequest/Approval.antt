-- ===== src/ChangeRequest/Approval.antt =====
-- The status that `approve` leaves.
use dbflow.Common.{
  String, ◌==◌, true, ◌≡◌, refl, sym, ap, ◌∙◌, ◌↔◌, ◌⊎◌, inl, inr, List, Option, some, filter,
  length, In, Bool-cases, subst, length-filter-all, length-filter_of_all, arith,
}
use dbflow.Store.{
  Key, Actor, Db, Context, Status, Approver, Decision, is_approve, Result, ok, err, ◌>>=◌,
  >>=-eq-ok,
}
use dbflow.Store
use dbflow.ChangeRequest.StateMachine.{TransitionAction, get_next_status}
use dbflow.ChangeRequest.Records.{find_cr, slots_of, write_status}
use dbflow.ChangeRequest.Status.{find_cr-set_status}
use dbflow.ChangeRequest.Decide.{
  DecisionDto, final_action, finish_approval, approve_db, decide_slot,
}
use dbflow.ChangeRequest.Slots.{Approved, approve_db-Approved, Approved-approvers}

-- Every slot of the change request holds an approval.
abbrev pub IsAllApproved : Key → Db → Type 0
IsAllApproved id db = (a : Approver) → In a (slots_of id db) → is_approve a.decision ≡ true

-- The status that a decision leads to, when it is made on the slots given.
abbrev status_after : Option TransitionAction → Status
status_after (some TransitionAction.final_reject) = Status.final_rejected
status_after (some TransitionAction.final_approve) = Status.final_approved
status_after _ = Status.review_approved

final_action-approve_iff :
    (d : Decision) (slots : List Approver)
    → (status_after (final_action d slots) ≡ Status.final_approved)
      ↔ ((d ≡ Decision.approve) × ((a : Approver) → In a slots → is_approve a.decision ≡ true))
unfolding final_action
final_action-approve_iff Decision.reject slots = (λ e. cc, λ h. cc h.0)
final_action-approve_iff Decision.approve slots = (
  λ e. (refl, length-filter-all (λ a. is_approve a.decision) slots (ground arith)),
  λ h. let all = length-filter_of_all (λ a. is_approve a.decision) slots h.1 in ground arith,
)

final_action-reject_iff :
    (d : Decision) (slots : List Approver)
    → (status_after (final_action d slots) ≡ Status.final_rejected) ↔ (d ≡ Decision.reject)
unfolding final_action
final_action-reject_iff Decision.reject slots = (λ e. refl, λ h. refl)
final_action-reject_iff Decision.approve slots = (λ e. ground arith, λ h. cc)

finish_approval-status :
    (ctx : Context) (id : Key) (d : Decision) (slots : List Approver) (user : Key)
    (remark : Option String) (db : Db) (after : Db) (cr : Store.ChangeRequest)
    → cr.status ≡ Status.review_approved
    → find_cr id db ≡ some cr
    → finish_approval ctx id cr.status (final_action d slots) user remark db ≡ ok after
    → (c : Store.ChangeRequest) × (find_cr id after ≡ some c)
      × (c.status ≡ status_after (final_action d slots))
unfolding finish_approval get_next_status final_action
finish_approval-status ctx id Decision.reject slots user remark db after cr h found e = (
  write_status ctx id Status.final_rejected cr,
  ground (arith, find_cr-set_status ctx id cr.status Status.final_rejected user remark db cr found),
  refl,
)
finish_approval-status ctx id Decision.approve slots user remark db after cr h found e =
    elim (Bool-cases (length (filter (λ a. is_approve a.decision) slots) == length slots)) [
      | inl all ↦ (
        write_status ctx id Status.final_approved cr,
        ground (
          arith,
          find_cr-set_status ctx id cr.status Status.final_approved user remark db cr found,
        ),
        ground arith,
      )
      | inr some' ↦ (cr, ground arith, ground arith)
    ]

slots_after :
    {ctx : Context} {db : Db} {actor : Actor} {id : Key} {dto : DecisionDto} {after : Db}
    (f : Approved ctx db actor id dto after)
    → slots_of id after ≡ slots_of id (decide_slot ctx actor.user_id f.choice dto db)
unfolding decide_slot
slots_after {id} f = ap (filter (λ a. a.change_request_id == id)) (Approved-approvers f)

IsAllApproved-of :
    (id : Key) (after decided : Db)
    → slots_of id after ≡ slots_of id decided
    → IsAllApproved id decided
    → IsAllApproved id after
IsAllApproved-of id after decided e h a m = h a (subst (In a) e m)

-- After a successful `approve` the change request is finally approved exactly when the decision was an
-- approval and every slot now holds one, finally rejected exactly when it was a rejection, and in one of
-- these statuses or REVIEW_APPROVED.
pub approve_status :
    (ctx : Context) (db : Db) (actor : Actor) (id : Key) (dto : DecisionDto) (after : Db)
    → approve_db ctx db actor id dto ≡ ok after
    → (c : Store.ChangeRequest) × (find_cr id after ≡ some c)
      × ((c.status ≡ Status.final_approved)
          ↔ ((dto.decision ≡ Decision.approve) × IsAllApproved id after))
      × ((c.status ≡ Status.final_rejected) ↔ (dto.decision ≡ Decision.reject))
      × ((c.status ≡ Status.review_approved)
          ⊎ ((c.status ≡ Status.final_approved) ⊎ (c.status ≡ Status.final_rejected)))
unfolding final_action decide_slot
approve_status ctx db actor id dto after e =
    let f = approve_db-Approved ctx db actor id dto after e in
    let (c, found, status) =
      finish_approval-status ctx id dto.decision
        (slots_of id (decide_slot ctx actor.user_id f.choice dto db)) actor.user_id f.note
        (decide_slot ctx actor.user_id f.choice dto db) f.finished f.cr f.status f.found
        f.finishes in
    let same = slots_after f in
    (
      c,
      subst (λ d. find_cr id d ≡ some c) (sym f.result) found,
      (
        λ e'.
            let (said, all) = (final_action-approve_iff dto.decision _).0 (sym status ∙ e') in
            (
              said,
              IsAllApproved-of id after (decide_slot ctx actor.user_id f.choice dto db) same all,
            ),
        λ h.
            status
            ∙ (final_action-approve_iff dto.decision _).1 (
              h.0,
              IsAllApproved-of id (decide_slot ctx actor.user_id f.choice dto db) after (sym same)
                  h.1,
            ),
      ),
      (
        λ e'. (final_action-reject_iff dto.decision _).0 (sym status ∙ e'),
        λ h. status ∙ (final_action-reject_iff dto.decision _).1 h,
      ),
      outcomes dto.decision _ status,
    )
  where
    outcomes :
        {s : Status} (d : Decision) (slots : List Approver)
        → s ≡ status_after (final_action d slots)
        → (s ≡ Status.review_approved) ⊎ ((s ≡ Status.final_approved) ⊎ (s ≡ Status.final_rejected))
    outcomes Decision.reject slots e = inr (inr e)
    outcomes Decision.approve slots e = ground arith
