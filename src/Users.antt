-- ===== src/Users.antt =====
-- Accounts: apps/api/src/users/users.service.ts. The hash of a password, the order of names and the
-- search of a text within another are the runtime's and the database's.
use text.Mathlib.Text.{◌==◌ as str_eq}
use mathlib.Core.List.{reverse}
use dbflow.Common.{
  page_of, page_rows, Page, ℕ, String, ◌==◌, Bool, true, false, ◌&&◌, ◌||◌, List, [], ◌∷◌, ◌++◌,
  map, Option, none, some, if◌then◌else◌, find, filter, update_where, sort_asc, length, is_some,
}
use dbflow.Store.{
  Key, Role, same_role, User, Actor, Db, Context, AuditAction, AuditTargetType, AuditTarget,
  AuditOutcome, internal, Result, ok, err, ◌>>=◌, or_throw,
}
use dbflow.Audit.{build_data, record_log}

-- `findByEmail`, on a unique column, whose collation compares.
unfoldable pub find_by_email : Db → String → Option User
find_by_email db email = find (λ u. db.same_email u.email email) db.users

-- `findById`.
unfoldable pub find_by_id : Db → Key → Option User
find_by_id db id = find (λ u. u.id == id) db.users

pub record CreateUserDto : Type 0 where
  pub email : String
  pub name : String
  pub department : String
  pub password : String
  pub role : Role

abbrev user_log : Context → Actor → AuditAction → Key → Db → Db
user_log ctx actor action id =
    record_log ctx
      (build_data actor action AuditTargetType.user (AuditTarget.row id) AuditOutcome.success)

abbrev pub new_user : (String → String) → Context → CreateUserDto → User
new_user hash ctx dto = record {
  id = ctx.fresh 0;
  name = dto.name;
  department = dto.department;
  role = dto.role;
  email = dto.email;
  password_hash = hash dto.password;
  telegram_chat_id = none;
}

-- `create`: the database refuses an email that is taken.
unfoldable pub create_user : (String → String) → Context → Db → CreateUserDto → Actor → Result Db
unfolding find_by_email
create_user hash ctx db dto actor =
    if is_some (find_by_email db dto.email)
    then err internal
    else ok (
        user_log ctx actor AuditAction.user_created (ctx.fresh 0)
          (record db { users = db.users ++ (new_user hash ctx dto ∷ []) }))

pub record UserName : Type 0 where
  pub id : Key
  pub name : String
  pub department : String

-- `listByRole`.
unfoldable pub list_by_role : (String → ℕ) → Db → Role → List UserName
list_by_role rank db role =
    map (λ (u : User). record { id = u.id; name = u.name; department = u.department })
      (sort_asc (λ u. rank u.name) (filter (λ u. same_role u.role role) db.users))

pub record UserQuery : Type 0 where
  pub page : Option ℕ
  pub role : Option Role
  pub q : Option String

pub record UserRow : Type 0 where
  pub id : Key
  pub email : String
  pub name : String
  pub department : String
  pub role : Role

abbrev user_row : User → UserRow
user_row u = record {
  id = u.id;
  email = u.email;
  name = u.name;
  department = u.department;
  role = u.role;
}

abbrev has_role : Option Role → User → Bool
has_role none u = true
has_role (some role) u = same_role u.role role

abbrev has_text : (String → String → Bool) → Option String → User → Bool
has_text contains none u = true
has_text contains (some q) u = if str_eq q "" then true else contains u.name q || contains u.email q

-- `adminList`: the newest first.
unfoldable pub admin_list : (String → String → Bool) → Db → UserQuery → Page UserRow
unfolding page_rows
admin_list contains db query =
    let rows = filter (λ u. has_role query.role u && has_text contains query.q u) db.users in
    record {
      items = map user_row (page_rows 20 (page_of query.page) (reverse rows));
      total = length rows;
      page = page_of query.page;
      page_size = 20;
    }

pub record Profile : Type 0 where
  pub user : UserRow
  pub telegram_linked : Bool

-- `!!u.telegramChatId`.
abbrev is_linked : Option String → Bool
is_linked none = false
is_linked (some chat) = if str_eq chat "" then false else true

-- `profile`.
unfoldable pub profile : Db → Key → Result Profile
unfolding find_by_id
profile db id = do
  u ← or_throw (find_by_id db id) internal
  ok (record { user = user_row u; telegram_linked = is_linked u.telegram_chat_id })

pub record UpdateMeDto : Type 0 where
  pub name : Option String
  pub department : Option String
  pub telegram_chat_id : Option String

abbrev or_kept : Option String → String → String
or_kept none old = old
or_kept (some new) old = new

abbrev or_kept? : Option String → Option String → Option String
or_kept? none old = old
or_kept? (some new) old = some new

abbrev pub change_me : UpdateMeDto → User → User
change_me dto u = record u {
  name = or_kept dto.name u.name;
  department = or_kept dto.department u.department;
  telegram_chat_id = or_kept? dto.telegram_chat_id u.telegram_chat_id;
}

-- `updateMe`.
unfoldable pub update_me : Context → Db → Key → UpdateMeDto → Actor → Result Db
unfolding find_by_id
update_me ctx db id dto actor = do
  u ← or_throw (find_by_id db id) internal
  ok (
      user_log ctx actor AuditAction.user_profile_updated id
        (record db { users = update_where (λ u. u.id == id) (change_me dto) db.users }))
