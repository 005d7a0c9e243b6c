-- ===== src/ChangeRequest/Workflow.antt =====
-- Laws of the state machine.
use dbflow.Common.{ℕ, ◌<◌, ◌≡◌, refl, ◌↔◌, inl, inr, List, [], ◌∷◌, In, arith}
use dbflow.Store.{Status, Result, ok, ◌>>=◌}
use dbflow.ChangeRequest.StateMachine.{
  TransitionAction, from_status, to_status, get_next_status, terminal_statuses,
}

-- A workflow's actions in a row.
abbrev pub run_actions : Status → List TransitionAction → Result Status
run_actions s [] = ok s
run_actions s (a ∷ as') = get_next_status s a >>= λ t. run_actions t as'

-- How far a status is along the workflow.
abbrev pub stage : Status → ℕ
stage Status.draft = 0
stage Status.submitted = 1
stage Status.review_approved = 2
stage Status.review_rejected = 4
stage Status.final_approved = 3
stage Status.final_rejected = 4
stage Status.applied = 4

pub get_next_status-eq-ok :
    (s t : Status) (a : TransitionAction)
    → get_next_status s a ≡ ok t
    → (from_status a ≡ s) × (to_status a ≡ t)
unfolding get_next_status
get_next_status-eq-ok s t a e = (ground arith, ground arith)

-- Every transition goes forward, so no status is ever come back to.
pub get_next_status_forward :
    (s t : Status) (a : TransitionAction) → get_next_status s a ≡ ok t → stage s < stage t
unfolding get_next_status
get_next_status_forward s t a e = ground arith

-- A status is terminal exactly when every action is refused in it.
pub terminal_iff :
    (s : Status)
    → In s terminal_statuses
      ↔ ((a : TransitionAction) (t : Status) → ¬ (get_next_status s a ≡ ok t))
unfolding get_next_status
terminal_iff s = (λ m a t e. refused s a t m e, λ h. stuck s h)
  where
    refused :
        (s : Status) (a : TransitionAction) (t : Status)
        → In s terminal_statuses
        → get_next_status s a ≡ ok t
        → ⊥
    refused s a t m e = ground arith

    stuck :
        (s : Status)
        → ((a : TransitionAction) (t : Status) → ¬ (get_next_status s a ≡ ok t))
        → In s terminal_statuses
    stuck Status.draft h = absurd (h TransitionAction.submit Status.submitted refl)
    stuck Status.submitted h = absurd (h TransitionAction.review_reject Status.review_rejected refl)
    stuck Status.review_approved h =
        absurd (h TransitionAction.final_reject Status.final_rejected refl)
    stuck Status.final_approved h = absurd (h TransitionAction.apply Status.applied refl)
    stuck Status.review_rejected h = inl refl
    stuck Status.final_rejected h = inr (inl refl)
    stuck Status.applied h = inr (inr (inl refl))

abbrev path_to_applied : Status → List TransitionAction
path_to_applied Status.draft =
    TransitionAction.submit ∷ TransitionAction.review_approve ∷ TransitionAction.final_approve
    ∷ TransitionAction.apply ∷ []
path_to_applied Status.submitted =
    TransitionAction.review_approve ∷ TransitionAction.final_approve ∷ TransitionAction.apply ∷ []
path_to_applied Status.review_approved =
    TransitionAction.final_approve ∷ TransitionAction.apply ∷ []
path_to_applied Status.final_approved = TransitionAction.apply ∷ []
path_to_applied _ = []

path_to_applied_only :
    (as' : List TransitionAction) (s : Status)
    → run_actions s as' ≡ ok Status.applied
    → as' ≡ path_to_applied s
unfolding get_next_status
path_to_applied_only [] s e = ground arith
path_to_applied_only (TransitionAction.submit ∷ as') s e =
    ground (arith, path_to_applied_only as' Status.submitted)
path_to_applied_only (a ∷ as') s e = ground (arith, path_to_applied_only as' (to_status a))

-- The only way from a draft to an applied change request leads through submission, a positive review
-- and a final approval.
pub draft_to_applied :
    (as' : List TransitionAction)
    → run_actions Status.draft as' ≡ ok Status.applied
    → as'
      ≡ TransitionAction.submit ∷ TransitionAction.review_approve ∷ TransitionAction.final_approve
        ∷ TransitionAction.apply ∷ []
draft_to_applied as' e = path_to_applied_only as' Status.draft e
