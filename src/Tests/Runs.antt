-- ===== src/Tests/Runs.antt =====
-- Examples of histories of requests.
use dbflow.Common.{◌≡◌, refl, inl, inr, [], ◌∷◌, none, ◌==◌, Bool-cases, arith}
use dbflow.Store.{History, Status, Db}
use dbflow.ChangeRequest.StateMachine.{TransitionAction, get_next_status}
use dbflow.ChangeRequest.Trace.{Traces, IsTraced}
use dbflow.Apply.Run.{apply}
use dbflow.Apply.Rollback.{rollback}
use dbflow.Http.Runs.{Step, Reach, Reach-IsTraced}
use dbflow.Tests.Accounts.{runtime}
use dbflow.Tests.Fixtures.{approver, request, ctx, zone, server}
use dbflow.Tests.Applies.{ready}

abbrev entry : Status → Status → History
entry from to = record {
  change_request_id = 10;
  from_status = from;
  to_status = to;
  actor_id = 1;
  comment = none;
}

-- The approved request with its history.
abbrev traced_db : Db
traced_db = record ready {
  history =
      entry Status.draft Status.submitted
      ∷ entry Status.submitted Status.review_approved
      ∷ entry Status.review_approved Status.final_approved
      ∷ [];
}

path : Traces Status.draft traced_db.history Status.final_approved
unfolding get_next_status
path = (
  refl,
  (TransitionAction.submit, refl),
  (
    refl,
    (TransitionAction.review_approve, refl),
    (refl, (TransitionAction.final_approve, refl), refl),
  ),
)

traced_db-IsTraced : IsTraced traced_db
traced_db-IsTraced id cr found = elim (Bool-cases (10 == id)) [
  | inr other ↦ absurd (ground arith)
  | inl hit ↦
      let same : 10 ≡ id = ground arith in
      let row : request Status.final_approved ≡ cr = ground arith in rw (← same, ← row) path
]

-- After the apply of it and a rollback of that.
abbrev applied : Db
applied = (apply server zone ctx 5 approver 10 30 traced_db (0, [])).0

abbrev rolled_back : Db
rolled_back = (rollback server ctx approver 100 applied (0, [])).0

Reach-IsTraced_example : IsTraced rolled_back
Reach-IsTraced_example = Reach-IsTraced runtime server traced_db rolled_back traced_db-IsTraced (
    Reach.next (Reach.next Reach.here (Step.applies zone ctx 5 approver 10 30 (0, []) refl))
      (Step.rolls_back ctx approver 100 (0, []) refl))
