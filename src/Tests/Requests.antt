-- ===== src/Tests/Requests.antt =====
-- Examples of the requests that change a change request.
use dbflow.Common.{
  true, ◌≡◌, refl, sym, ◌∙◌, ◌<◌, ◌↔◌, ◌⊎◌, inl, inr, List, [], ◌∷◌, none, some, In, arith,
}
use dbflow.Store.{
  Key, Role, Actor, Status, Approver, Decision, Db, Context, Result, ok, err, AuditAction,
}
use dbflow.Store
use dbflow.Audit.{append_log}
use dbflow.ApprovalPolicy.{get_required}
use dbflow.Delegation.{active_delegator_ids, is_active_delegate_for}
use dbflow.Delegation.Laws.{active_delegator_ids_iff}
use dbflow.ChangeRequest.StateMachine.{TransitionAction, get_next_status, terminal_statuses}
use dbflow.ChangeRequest.Records.{find_cr, set_status, get_or_throw}
use dbflow.ChangeRequest.Views.{inbox}
use dbflow.ChangeRequest.Detail.{Detail, find_one}
use dbflow.ChangeRequest.Submit.{submit_db, cr_log}
use dbflow.ChangeRequest.Decide.{
  DecisionDto, review_db, approve_db, choose_slot, acted_before, decide_slot, finish_approval,
  final_action,
}
use dbflow.ChangeRequest.Workflow.{
  run_actions, get_next_status_forward, draft_to_applied, terminal_iff,
}
use dbflow.ChangeRequest.Slots.{HasSlotKeys, IsSeparated}
use dbflow.ChangeRequest.Duties.{approve-IsSeparated}
use dbflow.ChangeRequest.Approval.{IsAllApproved, approve_status}
use dbflow.ChangeRequest.Choosing.{IsKeyed, summary_in}
use dbflow.ChangeRequest.Inbox.{inbox-approve_iff}
use dbflow.ChangeRequest.Reviewing.{MayReview, review_iff, inbox-review_iff}
use dbflow.ChangeRequest.Submitting.{IsReady, submit_iff}
use dbflow.ChangeRequest.Visibility.{MaySee, find_one_iff}
use dbflow.Tests.Fixtures.{developer, reviewer, deputy, request, ctx, db_with}

abbrev yes_dto : DecisionDto
yes_dto = record { decision = Decision.approve; comment = none }

abbrev half : Db
half = db_with Status.review_approved (some Decision.approve)

-- The second approval, given by the deputy.
abbrev approved : Result Db
approved = approve_db ctx half deputy 10 yes_dto

abbrev db_or : Db → Result Db → Db
db_or db (ok after) = after
db_or db (err e) = db

approved-ok : approved ≡ ok (db_or half approved)
unfolding approve_db choose_slot active_delegator_ids acted_before finish_approval final_action
    decide_slot get_next_status
approved-ok = refl

half-HasSlotKeys : HasSlotKeys half
half-HasSlotKeys a b (inl e) (inl f) same = e ∙ sym f
half-HasSlotKeys a b (inl e) (inr (inl f)) same = absurd (ground arith)
half-HasSlotKeys a b (inr (inl e)) (inl f) same = absurd (ground arith)
half-HasSlotKeys a b (inr (inl e)) (inr (inl f)) same = e ∙ sym f
half-HasSlotKeys a b (inr (inr m)) n same = absurd m
half-HasSlotKeys a b m (inr (inr n)) same = absurd n

half-IsSeparated : IsSeparated half
half-IsSeparated a b m n same da db fill = ground arith

approve-IsSeparated_example : IsSeparated (db_or half approved)
approve-IsSeparated_example =
    approve-IsSeparated ctx half deputy 10 yes_dto (db_or half approved) half-HasSlotKeys
      half-IsSeparated approved-ok

approve_status_example :
    (c : Store.ChangeRequest) × (find_cr 10 (db_or half approved) ≡ some c)
    × ((c.status ≡ Status.final_approved)
        ↔ ((Decision.approve ≡ Decision.approve) × IsAllApproved 10 (db_or half approved)))
    × ((c.status ≡ Status.final_rejected) ↔ (Decision.approve ≡ Decision.reject))
    × ((c.status ≡ Status.review_approved)
        ⊎ ((c.status ≡ Status.final_approved) ⊎ (c.status ≡ Status.final_rejected)))
approve_status_example = approve_status ctx half deputy 10 yes_dto (db_or half approved) approved-ok

one_owner :
    (a b : Approver) → In a half.approvers → In b half.approvers → a.user_id ≡ b.user_id → a ≡ b
one_owner a b (inl e) (inl f) same = e ∙ sym f
one_owner a b (inl e) (inr (inl f)) same = absurd (ground arith)
one_owner a b (inr (inl e)) (inl f) same = absurd (ground arith)
one_owner a b (inr (inl e)) (inr (inl f)) same = e ∙ sym f
one_owner a b (inr (inr m)) n same = absurd m
one_owner a b m (inr (inr n)) same = absurd n

half-IsKeyed : IsKeyed half
half-IsKeyed = record {
  crs = λ a b m n same. ground arith;
  slots = half-HasSlotKeys;
  owners = λ a b m n request user. one_owner a b m n user;
  clean = λ a m open'. ground arith;
}

inbox-approve_iff_example :
    In (summary_in ctx half deputy (request Status.review_approved)) (inbox ctx half deputy)
    ↔ ((dto : DecisionDto) → (after : Db) × (approve_db ctx half deputy 10 dto ≡ ok after))
inbox-approve_iff_example =
    inbox-approve_iff ctx half deputy 10 (request Status.review_approved) refl half-IsKeyed refl

abbrev fresh_db : Db
fresh_db = db_with Status.submitted none

review_iff_example :
    ((after : Db) × (review_db ctx fresh_db reviewer 10 yes_dto ≡ ok after))
    ↔ ((Status.submitted ≡ Status.submitted) × MayReview ctx fresh_db 2 (some 2))
review_iff_example =
    review_iff ctx fresh_db reviewer 10 yes_dto (request Status.submitted) refl (λ e. ground arith)

inbox-review_iff_example :
    In (summary_in ctx fresh_db reviewer (request Status.submitted)) (inbox ctx fresh_db reviewer)
    ↔ ((dto : DecisionDto) → (after : Db) × (review_db ctx fresh_db reviewer 10 dto ≡ ok after))
inbox-review_iff_example =
    inbox-review_iff ctx fresh_db reviewer 10 (request Status.submitted) refl refl
      (λ e. ground arith)

abbrev drafted : Db
drafted = db_with Status.draft none

submitted-ok :
    submit_db ctx drafted developer 10 ≡ ok (db_or drafted (submit_db ctx drafted developer 10))
unfolding submit_db get_or_throw get_required get_next_status
submitted-ok = refl

submit_iff_example :
    (submit_db ctx drafted developer 10 ≡ ok (db_or drafted (submit_db ctx drafted developer 10)))
    ↔ ((cr : Store.ChangeRequest) × (find_cr 10 drafted ≡ some cr)
        × IsReady ctx drafted developer 10 cr
        × (db_or drafted (submit_db ctx drafted developer 10)
            ≡ append_log
                (cr_log developer AuditAction.cr_submitted 10)
                (set_status ctx 10 Status.draft Status.submitted 1 none drafted)))
submit_iff_example =
    submit_iff ctx drafted developer 10 (db_or drafted (submit_db ctx drafted developer 10))

find_one_iff_example : ((d : Detail) × (find_one ctx half deputy 10 ≡ ok d)) ↔ (
    (cr : Store.ChangeRequest) × In cr half.change_requests
    × (cr.id ≡ 10)
    × MaySee ctx half deputy cr Role.approver)
find_one_iff_example = find_one_iff ctx half deputy 10

active_delegator_ids_iff_example :
    In 4 (active_delegator_ids half 5 1000) ↔ (is_active_delegate_for half 5 4 1000 ≡ true)
active_delegator_ids_iff_example = active_delegator_ids_iff half 5 4 1000

first_step : get_next_status Status.draft TransitionAction.submit ≡ ok Status.submitted
unfolding get_next_status
first_step = refl

get_next_status_forward_example : 0 < 1
get_next_status_forward_example =
    get_next_status_forward Status.draft Status.submitted TransitionAction.submit first_step

terminal_iff_example :
    In Status.applied terminal_statuses
    ↔ ((a : TransitionAction) (t : Status) → ¬ (get_next_status Status.applied a ≡ ok t))
terminal_iff_example = terminal_iff Status.applied

abbrev way : List TransitionAction
way =
    TransitionAction.submit ∷ TransitionAction.review_approve ∷ TransitionAction.final_approve
    ∷ TransitionAction.apply ∷ []

way-applied : run_actions Status.draft way ≡ ok Status.applied
unfolding get_next_status
way-applied = refl

draft_to_applied_example :
    way
    ≡ TransitionAction.submit ∷ TransitionAction.review_approve ∷ TransitionAction.final_approve
      ∷ TransitionAction.apply ∷ []
draft_to_applied_example = draft_to_applied way way-applied
