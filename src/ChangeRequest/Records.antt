-- ===== src/ChangeRequest/Records.antt =====
-- What the operations of change-request.service.ts share: the lookups, the status update with its
-- history entry, and the check of the assignees' roles.
use dbflow.Common.{
  String, ◌==◌, Bool, true, false, not, ◌&&◌, ◌||◌, List, [], ◌∷◌, ◌++◌, Option, none, some, find,
  any, filter, length, includes, update_where,
}
use dbflow.Store.{
  Key, Role, same_role, User, Actor, Db, Context, Status, History, Approver, Failure, bad_request,
  not_found, Message, Result, ok, err, ◌>>=◌, ◌>>◌, guard, or_throw,
}
use dbflow.Store

abbrev pub find_cr : Key → Db → Option Store.ChangeRequest
find_cr id db = find (λ cr. cr.id == id) db.change_requests

-- `getOrThrow`.
unfoldable pub get_or_throw : Db → Key → Result Store.ChangeRequest
get_or_throw db id = or_throw (find_cr id db) (not_found Message.change_request_not_found)

-- The approver slots of one change request.
abbrev pub slots_of : Key → Db → List Approver
slots_of id db = filter (λ a. a.change_request_id == id) db.approvers

abbrev pub write_status : Context → Key → Status → Store.ChangeRequest → Store.ChangeRequest
write_status ctx id to cr = record cr { status = to; updated_at = ctx.now }

-- The update of the status and the `statusHistory` row that goes with it.
unfoldable pub set_status : Context → Key → Status → Status → Key → Option String → Db → Db
set_status ctx id from to actor_id comment db = record db {
  change_requests = update_where (λ cr. cr.id == id) (write_status ctx id to) db.change_requests;
  history = db.history ++ (entry ∷ []);
}
  where
    entry : History
    entry = record {
      change_request_id = id;
      from_status = from;
      to_status = to;
      actor_id = actor_id;
      comment = comment;
    }

-- A key that is given and is not the empty text.
abbrev pub is_given : Option Key → Bool
is_given none = false
is_given (some k) = not (k == 0)

abbrev has_role : Role → Option User → Bool
has_role role none = false
has_role role (some u) = same_role u.role role

unfoldable pub reviewer_ok : Db → Option Key → Bool
reviewer_ok db none = true
reviewer_ok db (some k) = k == 0 || has_role Role.reviewer (find (λ u. u.id == k) db.users)

-- `new Set(ids).size === ids.length`.
unfoldable pub distinct : List Key → Bool
distinct [] = true
distinct (k ∷ ks) = not (includes ks k) && distinct ks

-- The rows of `findMany({ where: { id: { in: ids } } })`.
abbrev pub users_in : List Key → Db → List User
users_in ids db = filter (λ u. includes ids u.id) db.users

unfoldable pub approvers_ok : Db → List Key → Bool
approvers_ok db ids =
    (length (users_in ids db) == length ids)
    && not (any (λ u. not (same_role u.role Role.approver)) (users_in ids db))

-- `assertAssigneeRoles`.
unfoldable pub assert_assignee_roles : Db → Option Key → Option (List Key) → Result (Unit {0})
unfolding reviewer_ok distinct approvers_ok
assert_assignee_roles db reviewer none =
    guard (reviewer_ok db reviewer) (bad_request Message.reviewer_must_be_reviewer_role)
assert_assignee_roles db reviewer (some []) =
    guard (reviewer_ok db reviewer) (bad_request Message.reviewer_must_be_reviewer_role)
assert_assignee_roles db reviewer (some (k ∷ ks)) = do
  guard (reviewer_ok db reviewer) (bad_request Message.reviewer_must_be_reviewer_role)
  guard (distinct (k ∷ ks)) (bad_request Message.duplicate_approvers)
  guard (approvers_ok db (k ∷ ks)) (bad_request Message.approvers_must_be_approver_role)
