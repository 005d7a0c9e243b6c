-- ===== src/Tests/Policies.antt =====
-- Examples of the lint, and of windows and freezes.
use text.Mathlib.Text.{◌==◌ as str_eq}
use dbflow.Common.{
  String, Option, if◌then◌else◌, ◌≢◌, ℕ, ◌+◌, true, false, ◌≡◌, refl, ◌<◌, ◌↔◌, inl, List, [], ◌∷◌,
  none, some, In, arith,
}
use dbflow.Store.{ok, TargetEnv, Status, SqlReviewLevel, ApplyWindow, FreezePeriod, Db}
use dbflow.Delegation.{CreateDto, create_delegation}
use dbflow.Delegation.Creation.{HaveSameDuty, with_delegation, create_delegation_iff}
use dbflow.Sql.Lint.{LintFile, PolicyMap, lint_files, has_block}
use dbflow.Sql.Lint.Blocking.{IsBlockedFile, has_block_iff}
use dbflow.ApplySchedule.{
  ScheduleStatus, is_frozen, windows_of, find_next_window, check_apply_allowed,
}
use dbflow.ApplySchedule.Laws.{IsOpen, check_apply_allowed_iff}
use dbflow.ApplySchedule.NextWindow.{IsNoLater, find_next_window-soonest}
use dbflow.Apply.Gate.{lint_file}
use dbflow.Tests.Fixtures.{ctx, approver, zone, db_with, drop_file, update_file}

abbrev files : List LintFile
files = lint_file update_file ∷ lint_file drop_file ∷ []

abbrev levels : PolicyMap
levels = ("DROP_TABLE", SqlReviewLevel.block) ∷ []

has_block_iff_example :
    (has_block (lint_files files levels) ≡ true)
    ↔ ((f : LintFile) × In f files × IsBlockedFile levels f)
has_block_iff_example = has_block_iff files levels

abbrev window : ℕ → ℕ → ApplyWindow
window day start = record {
  id = 50;
  env = TargetEnv.staging;
  day_of_week = day;
  start_minute = start;
  end_minute = start + 60;
}

abbrev with_windows : Db
with_windows = record (db_with Status.final_approved none) {
  windows = window 3 60 ∷ window 1 600 ∷ [];
}

check_apply_allowed_iff_example :
    (check_apply_allowed zone with_windows TargetEnv.staging 1000 ≡ ScheduleStatus.allowed) ↔ (
      ((f : FreezePeriod) → In f [] → is_frozen TargetEnv.staging 1000 f ≡ false)
      × IsOpen 1 630 (windows_of TargetEnv.staging with_windows))
check_apply_allowed_iff_example = check_apply_allowed_iff zone with_windows TargetEnv.staging 1000

small : (v : ApplyWindow) → In v with_windows.windows → v.day_of_week < 7
small v m = ground arith

find_next_window-soonest_example :
    (w : ApplyWindow) × (find_next_window with_windows.windows 1 630 ≡ some w)
    × In w with_windows.windows
    × ((u : ApplyWindow) → In u with_windows.windows → IsNoLater 1 630 w u)
find_next_window-soonest_example =
    find_next_window-soonest 1 630 (omega arith) with_windows.windows small (window 3 60) (inl refl)

abbrev parse_date : String → Option ℕ
parse_date text = if str_eq text "2026-01-01T09:00" then some 10 else some 20

abbrev delegation_dto : CreateDto
delegation_dto = record {
  delegator_id = none;
  delegate_id = 5;
  starts_at = "2026-01-01T09:00";
  ends_at = "2026-01-02T09:00";
  reason = none;
}

abbrev delegated : Db
delegated = with_delegation ctx with_windows delegation_dto approver 10 20

create_delegation_iff_example :
    (create_delegation parse_date ctx with_windows delegation_dto approver ≡ ok delegated) ↔ (
      (approver.user_id ≢ delegation_dto.delegate_id)
      × HaveSameDuty with_windows 3 5
      × ((s : ℕ) × (e : ℕ) × (parse_date delegation_dto.starts_at ≡ some s)
          × (parse_date delegation_dto.ends_at ≡ some e)
          × (s < e)
          × (delegated ≡ with_delegation ctx with_windows delegation_dto approver s e)))
create_delegation_iff_example =
    create_delegation_iff parse_date ctx with_windows delegation_dto approver delegated
