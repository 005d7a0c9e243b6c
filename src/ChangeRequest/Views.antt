-- ===== src/ChangeRequest/Views.antt =====
-- What a user sees of change requests: visibility, the list, the inbox and the detail view of
-- change-request.service.ts.
use dbflow.Common.{
  ℕ, String, ◌==◌, Bool, false, not, ◌&&◌, ◌||◌, List, [], map, Option, none, some, if◌then◌else◌,
  find, any, filter, length, is_some, is_key, includes, or_else, sort_asc, sort_desc,
}
use dbflow.Store.{
  Key, Role, same_role, User, Actor, Db, Context, Status, same_status, Approver, History,
  is_approve, Decision, not_found, Message, Result, ok, ◌>>=◌, or_throw,
}
use dbflow.Store
use dbflow.Delegation.{active_delegator_ids}
use dbflow.ChangeRequest.Records.{slots_of}

-- `delegatorIdsFor`: only reviewers and approvers act for others.
unfoldable pub delegator_ids_for : Db → Actor → ℕ → List Key
delegator_ids_for db actor now =
    if same_role actor.role Role.reviewer || same_role actor.role Role.approver
    then active_delegator_ids db actor.user_id now
    else []

abbrev pub not_draft : Status → Bool
not_draft s = not (same_status s Status.draft)

abbrev pub is_key_in : List Key → Option Key → Bool
is_key_in ids none = false
is_key_in ids (some k) = includes ids k

-- `visibilityWhere`, as a test of one row.
unfoldable pub visible_to : Role → Key → List Key → Db → Store.ChangeRequest → Bool
visible_to Role.developer user delegators db cr = cr.author_id == user
visible_to Role.reviewer user delegators db cr =
    (is_key cr.reviewer_id user || is_key_in delegators cr.reviewer_id) && not_draft cr.status
visible_to Role.approver user delegators db cr =
    (any (λ a. a.user_id == user) (slots_of cr.id db)
      || any (λ a. includes delegators a.user_id) (slots_of cr.id db))
    && not_draft cr.status
visible_to Role.admin user delegators db cr = cr.id == 0

unfoldable pub is_visible : Actor → List Key → Db → Store.ChangeRequest → Bool
unfolding visible_to
is_visible actor = visible_to actor.role actor.user_id

abbrev pub is_open : Approver → Bool
is_open a = not (is_some a.decision)

-- `alreadyActed`: decided directly, or for another. Without a user the first test never holds, and
-- the second holds never either: `null === undefined` is false.
unfoldable pub already_acted : List Approver → Option Key → Bool
already_acted approvers none = false
already_acted approvers (some user) =
    any (λ a. (a.user_id == user) && is_some a.decision) approvers
    || any (λ a. is_key a.decided_by_id user) approvers

abbrev pub name_of : Db → Key → Option String
name_of db k = elim (find (λ u. u.id == k) db.users) [ none ↦ none | some u ↦ some u.name ]

abbrev pub name_of? : Db → Option Key → Option String
name_of? db none = none
name_of? db (some k) = name_of db k

-- `delegatedFromFor`: the delegator through whom alone the row is in the user's hands.
unfoldable pub delegated_from :
    Db → Store.ChangeRequest → List Approver → Key → List Key → Option String
delegated_from db cr approvers user delegators =
    if same_status cr.status Status.submitted
    then (if includes delegators (or_else cr.reviewer_id 0)
        then name_of? db cr.reviewer_id
        else none)
    else if same_status cr.status Status.review_approved
    then (if any (λ a. (a.user_id == user) && is_open a) approvers
        then none
        else elim (find (λ a. includes delegators a.user_id && is_open a) approvers) [
          | none ↦ none
          | some a ↦ name_of db a.user_id
        ])
    else none

pub record Summary : Type 0 where
  pub row : Store.ChangeRequest
  pub author_name : Option String
  pub reviewer_name : Option String
  pub approver_names : List (Option String)
  pub approved : ℕ
  pub required : ℕ
  pub my_approval_pending : Bool
  pub delegated_from : Option String

-- `myApprovalPending`.
unfoldable pub my_approval_pending : Store.ChangeRequest → List Approver → Key → List Key → Bool
my_approval_pending cr approvers user delegators =
    same_status cr.status Status.review_approved
    && any (λ a. (a.user_id == user || includes delegators a.user_id) && is_open a) approvers

abbrev pub by_order : Approver → ℕ
by_order a = a.order

-- `toSummary`.
unfoldable pub to_summary : Db → Key → List Key → Store.ChangeRequest → Summary
unfolding delegated_from my_approval_pending
to_summary db user delegators cr =
    let approvers = sort_asc by_order (slots_of cr.id db) in
    record {
      row = cr;
      author_name = name_of db cr.author_id;
      reviewer_name = name_of? db cr.reviewer_id;
      approver_names = map (λ a. name_of db a.user_id) approvers;
      approved = length (filter (λ a. is_approve a.decision) approvers);
      required = length approvers;
      my_approval_pending = my_approval_pending cr approvers user delegators;
      delegated_from = delegated_from db cr approvers user delegators;
    }

abbrev pub visible_rows : Db → Actor → ℕ → List Store.ChangeRequest
visible_rows db actor now =
    filter (is_visible actor (delegator_ids_for db actor now) db) db.change_requests

-- `list`, newest first.
unfoldable pub list : Context → Db → Actor → List Summary
list ctx db actor =
    map (to_summary db actor.user_id (delegator_ids_for db actor ctx.now))
      (sort_desc (λ cr. cr.created_at) (visible_rows db actor ctx.now))

-- The filter of `inbox` on one row and its summary.
unfoldable pub in_inbox : Db → Actor → Summary → Bool
in_inbox db actor s =
    if same_role actor.role Role.reviewer
    then same_status s.row.status Status.submitted
    else s.my_approval_pending && not (already_acted (slots_of s.row.id db) (some actor.user_id))

-- `inbox`: what the user can decide now, the longest waiting first.
unfoldable pub inbox : Context → Db → Actor → List Summary
unfolding in_inbox
inbox ctx db actor =
    if same_role actor.role Role.reviewer || same_role actor.role Role.approver
    then filter (in_inbox db actor) (
        map (to_summary db actor.user_id (delegator_ids_for db actor ctx.now))
          (sort_asc (λ cr. cr.updated_at) (visible_rows db actor ctx.now)))
    else []
