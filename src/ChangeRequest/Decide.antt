-- ===== src/ChangeRequest/Decide.antt =====
-- `review` and `approve` of change-request.service.ts. A handler's transaction holds the lock of the
-- change request's row, so it is one step; `commit` adds the response.
use Prim.Native.String.{◌++◌ as str_append}
use text.Mathlib.Text.{◌==◌ as str_eq}
use dbflow.Common.{
  String, ◌==◌, Bool, true, false, not, ◌&&◌, ◌||◌, List, Option, none, some, if◌then◌else◌, find,
  any, filter, length, is_some, is_key, includes, update_where, sort_asc,
}
use dbflow.Store.{
  Key, Role, Actor, Db, Context, Status, same_status, Approver, Decision, is_approve, AuditAction,
  Failure, forbidden, not_found, conflict, Message, Result, ok, ◌>>=◌, ◌>>◌, guard, or_throw,
  commit,
}
use dbflow.Audit.{append_log}
use dbflow.Delegation.{active_delegator_ids, is_active_delegate_for}
use dbflow.ChangeRequest.StateMachine.{TransitionAction, get_next_status}
use dbflow.ChangeRequest.Records.{find_cr, get_or_throw, slots_of, set_status}
use dbflow.ChangeRequest.Views.{is_open, name_of, by_order}
use dbflow.ChangeRequest.Detail.{Detail, find_one}
use dbflow.ChangeRequest.Submit.{cr_log}

pub record DecisionDto : Type 0 where
  pub decision : Decision
  pub comment : Option String

-- `base ? base + ' ' : ''`.
comment_prefix : Option String → String
comment_prefix none = ""
comment_prefix (some s) = if str_eq s "" then "" else str_append s " "

delegate_note : String → String
delegate_note name = str_append "(위임: " (str_append name " 대리)")

-- `withDelegateNote`.
unfoldable pub with_delegate_note : Option String → Option String → Option String
unfolding comment_prefix delegate_note
with_delegate_note comment none = comment
with_delegate_note comment (some name) =
    if str_eq name ""
    then comment
    else some (str_append (comment_prefix comment) (delegate_note name))

abbrev pub review_action : Decision → TransitionAction
review_action Decision.approve = TransitionAction.review_approve
review_action Decision.reject = TransitionAction.review_reject

-- `!isDirect && !!rid && isActiveDelegateFor(actor, rid)`.
abbrev pub acts_for_reviewer : Context → Db → Key → Option Key → Bool
acts_for_reviewer ctx db user none = false
acts_for_reviewer ctx db user (some rid) =
    not (rid == user) && (not (rid == 0) && is_active_delegate_for db user rid ctx.now)

-- The name that the delegate's note shows, null unless a delegate acts.
abbrev pub reviewer_name : Db → Bool → Option Key → Option String
reviewer_name db true (some rid) = name_of db rid
reviewer_name db _ _ = none

-- `review`, the transaction.
unfoldable pub review_db : Context → Db → Actor → Key → DecisionDto → Result Db
review_db ctx db actor id dto = do
  cr ← or_throw (find_cr id db) (not_found Message.change_request_not_found)
  let as_delegate = acts_for_reviewer ctx db actor.user_id cr.reviewer_id
  guard (is_key cr.reviewer_id actor.user_id || as_delegate) (forbidden Message.review_forbidden)
  to ← get_next_status cr.status (review_action dto.decision)
  let note = with_delegate_note dto.comment (reviewer_name db as_delegate cr.reviewer_id)
  ok (
      append_log (cr_log actor AuditAction.cr_reviewed id)
        (set_status ctx id cr.status to actor.user_id note db))

-- `review`.
unfoldable pub review : Context → Db → Actor → Key → DecisionDto → Db × Result Detail
review ctx db actor id dto =
    commit db (review_db ctx db actor id dto) (λ after. find_one ctx after actor id)

-- The actor's own slot, by the unique key (change request, user).
abbrev pub own_slot : Db → Key → Key → Option Approver
own_slot db id user = find (λ a. (a.change_request_id == id) && (a.user_id == user)) db.approvers

abbrev pub keep_open : Option Approver → Option Approver
keep_open none = none
keep_open (some a) = if is_open a then some a else none

-- The first open slot of somebody for whom the actor may act.
abbrev pub delegated_slot : List Key → Db → Key → Option Approver
delegated_slot delegators db id =
    find (λ a. (a.change_request_id == id) && (includes delegators a.user_id && is_open a))
      (sort_asc by_order db.approvers)

-- A slot to fill, and whether it is filled for another.
pub record Choice : Type 0 where
  pub slot : Approver
  pub for_other : Bool

abbrev pub choice_of : Option Approver → Option Approver → Option Choice
choice_of (some a) other = some (record { slot = a; for_other = false })
choice_of none (some a) = some (record { slot = a; for_other = true })
choice_of none none = none

-- The own open slot comes first.
unfoldable pub choose_slot : List Key → Db → Key → Key → Option Choice
choose_slot delegators db id user =
    choice_of (keep_open (own_slot db id user)) (delegated_slot delegators db id)

-- With no slot to fill: a decided slot of one's own is a conflict, no slot is a refusal.
abbrev no_slot : Option Approver → Failure
no_slot none = forbidden Message.approve_forbidden
no_slot (some a) =
    if is_some a.decision
    then conflict Message.already_decided
    else forbidden Message.approve_forbidden

-- `priorByActor`: another slot of the change request that the actor has filled already.
unfoldable pub acted_before : Db → Key → Key → Key → Bool
acted_before db id slot_id user =
    any
      (λ a.
        (a.change_request_id == id)
        && (not (a.id == slot_id)
            && (((a.user_id == user) && is_some a.decision) || is_key a.decided_by_id user)))
      db.approvers

abbrev decider : Bool → Key → Option Key
decider true user = some user
decider false user = none

abbrev pub write_decision : Context → Key → Bool → DecisionDto → Approver → Approver
write_decision ctx user for_other dto a = record a {
  decision = some dto.decision;
  comment = dto.comment;
  decided_at = some ctx.now;
  decided_by_id = decider for_other user;
}

unfoldable pub decide_slot : Context → Key → Choice → DecisionDto → Db → Db
decide_slot ctx user choice dto db = record db {
  approvers =
      update_where (λ a. a.id == choice.slot.id) (write_decision ctx user choice.for_other dto)
        db.approvers;
}

-- A rejection ends the approval; the last approval completes it.
unfoldable pub final_action : Decision → List Approver → Option TransitionAction
final_action Decision.reject slots = some TransitionAction.final_reject
final_action Decision.approve slots =
    if length (filter (λ a. is_approve a.decision) slots) == length slots
    then some TransitionAction.final_approve
    else none

-- The status update, if the decision ends the approval.
unfoldable pub finish_approval :
    Context → Key → Status → Option TransitionAction → Key → Option String → Db → Result Db
finish_approval ctx id status none user remark db = ok db
finish_approval ctx id status (some action) user remark db = do
  to ← get_next_status status action
  ok (set_status ctx id status to user remark db)

abbrev pub owner_name : Db → Choice → Option String
owner_name db choice = if choice.for_other then name_of db choice.slot.user_id else none

-- `approve`, the transaction.
unfoldable pub approve_db : Context → Db → Actor → Key → DecisionDto → Result Db
approve_db ctx db actor id dto = do
  let delegators = active_delegator_ids db actor.user_id ctx.now
  cr ← or_throw (find_cr id db) (not_found Message.change_request_not_found)
  guard (same_status cr.status Status.review_approved)
      (conflict (Message.approve_invalid_status cr.status))
  choice ←
      or_throw (choose_slot delegators db id actor.user_id) (no_slot (own_slot db id actor.user_id))
  guard (not (acted_before db id choice.slot.id actor.user_id)) (conflict Message.sod_violation)
  let decided = decide_slot ctx actor.user_id choice dto db
  let note = with_delegate_note dto.comment (owner_name db choice)
  after ←
      finish_approval ctx id cr.status (final_action dto.decision (slots_of id decided))
        actor.user_id note decided
  ok (append_log (cr_log actor AuditAction.cr_approved id) after)

-- `approve`: the response is what the author sees.
unfoldable pub approve : Context → Db → Actor → Key → DecisionDto → Db × Result Detail
approve ctx db actor id dto = commit db (approve_db ctx db actor id dto) (λ after. do
  cr ← get_or_throw db id
  find_one ctx after (record { user_id = cr.author_id; role = Role.developer }) id)
