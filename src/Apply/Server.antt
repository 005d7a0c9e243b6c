-- ===== src/Apply/Server.antt =====
-- The target databases, which the program reaches through mysql2: an interface. `World` is the state
-- of the servers; a query that throws gives `none` and may have changed the world.
use dbflow.Common.{ℕ, Bool, Option, List}
use dbflow.Store.{Text, TargetDatabase}

pub record Server : Type 1 where
  pub World : Type 0
  -- Whether `decryptSecret` accepts the stored credential.
  pub decrypts : TargetDatabase → Bool
  -- Whether a connection can be opened.
  pub connects : World → TargetDatabase → Bool
  -- `connection.query(sql)`: the affected rows, summed over the result headers.
  pub query : World → TargetDatabase → Text → World × Option ℕ
  -- The reads of a snapshot; each may throw.
  pub table_exists : World → TargetDatabase → Text → Option Bool
  pub create_statement : World → TargetDatabase → Text → Option Text
  pub row_count : World → TargetDatabase → Text → Option ℕ
  pub select_all : World → TargetDatabase → Text → Option (List Text × List (List Text))
  -- The writes of a rollback; a `false` is an exception.
  pub drop_table : World → TargetDatabase → Text → World × Bool
  pub begin : World → TargetDatabase → World × Bool
  pub delete_all : World → TargetDatabase → Text → World × Bool
  pub insert_rows : World → TargetDatabase → Text → List Text → List (List Text) → World × Bool
  pub commit : World → TargetDatabase → World × Bool
  pub roll_back : World → TargetDatabase → World
  -- What `JSON.parse(JSON.stringify(rows))` makes of a value.
  pub through_json : Text → Text
