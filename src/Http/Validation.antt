-- ===== src/Http/Validation.antt =====
-- The constraints of the request bodies: the dto folders of apps/api/src. Types and memberships of enums
-- are the types' here; the check of an email address is a library's.
use Prim.Native.String.{count}
use text.Mathlib.Text.{◌==◌ as str_eq}
use dbflow.Common.{
  ℕ, String, ltb, leb, ◌==◌, Bool, true, false, ◌&&◌, List, [], ◌∷◌, Option, none, some, any,
  length, if◌then◌else◌,
}
use dbflow.Store.{Text}
use dbflow.Sql.Regex.{codes}
use dbflow.Sql.Lint.{rules, rule_key}
use dbflow.Users.{CreateUserDto, UpdateMeDto}
use dbflow.TargetDatabases.{CreateTargetDto, UpdateTargetDto}
use dbflow.ApplySchedule.{WindowDto, FreezeDto}
use dbflow.Delegation
use dbflow.ChangeRequest.Submit
use dbflow.ChangeRequest.Submit.{FileInput}
use dbflow.ChangeRequest.Decide.{DecisionDto}

-- `@IsInt() @Min(low) @Max(high)`.
abbrev pub between : ℕ → ℕ → ℕ → Bool
between low high n = leb low n && leb n high

-- `@Length(low, high)`.
abbrev sized : ℕ → ℕ → String → Bool
sized low high s = between low high (count s)

-- `@IsNotEmpty()` on a text.
abbrev filled : Text → Bool
filled t = ltb 0 (length t)

abbrev filled_to : ℕ → Text → Bool
filled_to high t = between 1 high (length t)

-- `@IsOptional()`.
abbrev optional : {A : Type 0} → (A → Bool) → Option A → Bool
optional test none = true
optional test (some a) = test a

-- A shape in which 0 stands for a digit.
abbrev fits : Text → Text → Bool
fits [] [] = true
fits (p ∷ shape) (c ∷ t) = (if p == b'0' then between b'0' b'9' c else p == c) && fits shape t
fits _ _ = false

unfoldable pub is_valid_policy : ℕ → Bool
is_valid_policy required_approvals = between 1 5 required_approvals

unfoldable pub is_valid_rule : String → Bool
is_valid_rule key = any (λ rule. str_eq (rule_key rule) key) rules

unfoldable pub is_valid_window : WindowDto → Bool
is_valid_window dto =
    between 0 6 dto.day_of_week
    && (between 0 1439 dto.start_minute && between 1 1440 dto.end_minute)

-- `@Matches(/^\d{4}-\d{2}-\d{2}T\d{2}:\d{2}$/)`.
abbrev is_local_time : String → Bool
is_local_time s = fits (codes "0000-00-00T00:00") (codes s)

unfoldable pub is_valid_freeze : FreezeDto → Bool
is_valid_freeze dto =
    is_local_time dto.starts_at && (is_local_time dto.ends_at && sized 1 200 dto.reason)

unfoldable pub is_valid_delegation : Delegation.CreateDto → Bool
is_valid_delegation dto =
    is_local_time dto.starts_at && (is_local_time dto.ends_at && optional (sized 1 200) dto.reason)

unfoldable pub is_valid_user : (String → Bool) → CreateUserDto → Bool
is_valid_user is_email dto =
    is_email dto.email
    && (sized 1 50 dto.name && (sized 1 50 dto.department && sized 8 72 dto.password))

unfoldable pub is_valid_me : UpdateMeDto → Bool
is_valid_me dto =
    optional (sized 0 50) dto.name
    && (optional (sized 0 50) dto.department && optional (sized 0 64) dto.telegram_chat_id)

unfoldable pub is_valid_target : CreateTargetDto → Bool
is_valid_target dto =
    sized 1 100 dto.name
    && (sized 1 255 dto.host
        && (between 1 65535 dto.port
            && (sized 1 100 dto.username && (filled dto.password && filled_to 100 dto.database))))

unfoldable pub is_valid_target_update : UpdateTargetDto → Bool
is_valid_target_update dto =
    optional (sized 1 100) dto.name
    && (optional (sized 1 255) dto.host
        && (optional (between 1 65535) dto.port
            && (optional (sized 1 100) dto.username
                && (optional filled dto.password && optional (filled_to 100) dto.database))))

unfoldable pub is_valid_file : FileInput → Bool
is_valid_file f = sized 1 255 f.filename && filled f.content

abbrev all : {A : Type 0} → (A → Bool) → List A → Bool
all test [] = true
all test (a ∷ rest) = test a && all test rest

unfoldable pub is_valid_change_request : Submit.CreateDto → Bool
unfolding is_valid_file
is_valid_change_request dto =
    sized 1 200 dto.title
    && (sized 1 2000 dto.description && (ltb 0 (length dto.files) && all is_valid_file dto.files))

unfoldable pub is_valid_decision : DecisionDto → Bool
is_valid_decision dto = optional (sized 0 2000) dto.comment
