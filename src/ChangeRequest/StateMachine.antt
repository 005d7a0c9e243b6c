-- ===== src/ChangeRequest/StateMachine.antt =====
-- The workflow's transitions: apps/api/src/change-request/change-request.state-machine.ts.
use dbflow.Common.{List, [], ◌∷◌, if◌then◌else◌}
use dbflow.Store.{Status, same_status, conflict, Message, Result, ok, err}

pub data TransitionAction : Type 0 where
  submit review_approve review_reject final_approve final_reject apply : TransitionAction

-- `TRANSITIONS[action].from`.
unfoldable pub from_status : TransitionAction → Status
from_status TransitionAction.submit = Status.draft
from_status TransitionAction.review_approve = Status.submitted
from_status TransitionAction.review_reject = Status.submitted
from_status TransitionAction.final_approve = Status.review_approved
from_status TransitionAction.final_reject = Status.review_approved
from_status TransitionAction.apply = Status.final_approved

-- `TRANSITIONS[action].to`.
unfoldable pub to_status : TransitionAction → Status
to_status TransitionAction.submit = Status.submitted
to_status TransitionAction.review_approve = Status.review_approved
to_status TransitionAction.review_reject = Status.review_rejected
to_status TransitionAction.final_approve = Status.final_approved
to_status TransitionAction.final_reject = Status.final_rejected
to_status TransitionAction.apply = Status.applied

abbrev pub terminal_statuses : List Status
terminal_statuses = Status.review_rejected ∷ Status.final_rejected ∷ Status.applied ∷ []

-- `getNextStatus`.
unfoldable pub get_next_status : Status → TransitionAction → Result Status
unfolding from_status to_status
get_next_status current action =
    if same_status (from_status action) current
    then ok (to_status action)
    else err (conflict (Message.illegal_transition current))
