-- ===== src/Store.antt =====
-- The database of the API server (apps/api/prisma/schema.prisma) as an explicit state: enums, rows
-- and one list of rows for each table. A key (a cuid) is a number and 0 is the empty string; times
-- are numbers of milliseconds. The services in apps/api/src read and write this state.
mod Enums
mod Rows
mod Errors
pub use Enums.*
pub use Rows.*
pub use Errors.*
