-- ===== src/ChangeRequest/Detail.antt =====
-- The detail view of one change request: `findOne` and `toDetail` of change-request.service.ts.
use dbflow.Common.{
  ℕ, String, ◌==◌, Bool, not, ◌&&◌, ◌||◌, List, [], ◌∷◌, ◌++◌, map, Option, none, some,
  if◌then◌else◌, find, any, filter, includes, or_else, sort_asc, sort_desc,
}
use text.Mathlib.Text.{◌==◌ as str_eq}
use dbflow.Store.{
  Key, Role, Actor, Db, Context, Status, same_status, Approver, History, Decision, not_found,
  Message, Result, ok, ◌>>=◌, or_throw,
}
use dbflow.Store
use dbflow.Delegation.{is_active}
use dbflow.ChangeRequest.Records.{slots_of}
use dbflow.ChangeRequest.Views.{
  delegator_ids_for, is_visible, is_open, already_acted, name_of, name_of?, by_order,
}

pub record ApproverView : Type 0 where
  pub user_id : Key
  pub name : Option String
  pub order : ℕ
  pub decision : Option Decision
  pub comment : Option String
  pub decided_at : Option ℕ
  pub decided_by : Option String
  pub delegated_to : Option String

pub record Detail : Type 0 where
  pub row : Store.ChangeRequest
  pub author_name : Option String
  pub reviewer_name : Option String
  pub approvers : List ApproverView
  pub i_already_acted : Bool
  pub can_act_as_delegate : Bool
  pub status_history : List (History × Option String)

abbrev lookup_name : Key → List (Key × String) → Option String
lookup_name k [] = none
lookup_name k ((j, name) ∷ m) = if j == k then some name else lookup_name k m

-- The loop that keeps the first named delegate for each delegator.
delegate_names : Db → List (Key × String) → List Store.Delegation → List (Key × String)
delegate_names db m [] = m
delegate_names db m (d ∷ ds) =
    delegate_names db (add (lookup_name d.delegator_id m) (name_of db d.delegate_id)) ds
  where
    add : Option String → Option String → List (Key × String)
    add none (some name) = if str_eq name "" then m else m ++ ((d.delegator_id, name) ∷ [])
    add _ _ = m

-- The active delegations of the approvers: the latest start first, then by key.
active_delegations : Db → List Approver → ℕ → List Store.Delegation
active_delegations db approvers now =
    sort_desc (λ d. d.starts_at)
      (sort_asc (λ d. d.id)
        (filter (λ d. any (λ a. a.user_id == d.delegator_id) approvers && is_active now d)
          db.delegations))

-- `canActAsDelegate`.
unfoldable pub can_act_as_delegate : Store.ChangeRequest → List Approver → Bool → List Key → Bool
can_act_as_delegate cr approvers acted delegators =
    not acted
    && ((same_status cr.status Status.submitted && includes delegators (or_else cr.reviewer_id 0))
        || (same_status cr.status Status.review_approved
            && any (λ a. includes delegators a.user_id && is_open a) approvers))

approver_view : Db → List (Key × String) → Approver → ApproverView
approver_view db names a = record {
  user_id = a.user_id;
  name = name_of db a.user_id;
  order = a.order;
  decision = a.decision;
  comment = a.comment;
  decided_at = a.decided_at;
  decided_by = name_of? db a.decided_by_id;
  delegated_to = lookup_name a.user_id names;
}

-- `toDetail`.
unfoldable pub to_detail :
    Db → Store.ChangeRequest → Option Key → List Key → List (Key × String) → Detail
unfolding can_act_as_delegate approver_view
to_detail db cr user delegators names =
    let approvers = sort_asc by_order (slots_of cr.id db) in
    let acted = already_acted approvers user in
    record {
      row = cr;
      author_name = name_of db cr.author_id;
      reviewer_name = name_of? db cr.reviewer_id;
      approvers = map (approver_view db names) approvers;
      i_already_acted = acted;
      can_act_as_delegate = can_act_as_delegate cr approvers acted delegators;
      status_history =
          map (λ h. (h, name_of db h.actor_id))
            (filter (λ h. h.change_request_id == cr.id) db.history);
    }

-- `{ id, ...visibility }`: the clause of an administrator has a key of its own, which replaces the one
-- asked for.
abbrev pub asked_id : Role → Key → Key
asked_id Role.admin id = 0
asked_id _ id = id

-- `findOne`: a row that the user may not see is not found.
unfoldable pub find_one : Context → Db → Actor → Key → Result Detail
unfolding delegate_names active_delegations
find_one ctx db actor id = do
  let delegators = delegator_ids_for db actor ctx.now
  cr ←
      or_throw
        (find (λ cr. (cr.id == asked_id actor.role id) && is_visible actor delegators db cr)
          db.change_requests)
        (not_found Message.change_request_not_found)
  let names =
      delegate_names db [] (active_delegations db (sort_asc by_order (slots_of cr.id db)) ctx.now)
  ok (to_detail db cr (some actor.user_id) delegators names)
