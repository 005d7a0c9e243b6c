-- ===== src/Common/Paging.antt =====
-- Pages of a list of rows, as the services that list by page cut them.
use Prim.Native.Nat.{ℕ, ◌-◌, ◌*◌}
use mathlib.Core.Option.{Option, none, some}
use mathlib.Core.List.{List}
use dbflow.Common.Tests.{◌==◌, if◌then◌else◌}
use dbflow.Common.Lists.{take, drop}

-- `q.page && q.page > 0 ? q.page : 1`.
abbrev pub page_of : Option ℕ → ℕ
page_of none = 1
page_of (some page) = if page == 0 then 1 else page

-- `skip: (page - 1) * size, take: size`.
unfoldable pub page_rows : {A : Type 0} → ℕ → ℕ → List A → List A
page_rows size page rows = take size (drop ((page - 1) * size) rows)

pub record Page (A : Type 0) : Type 0 where
  pub items : List A
  pub total : ℕ
  pub page : ℕ
  pub page_size : ℕ
