-- ===== src/Db.antt =====
-- src/octw/db/tables.py: the tables, and the queries and constraints through which the services use
-- them. The children hold the rows, the session, and the invariant.
mod Rows
mod Statements
mod Constraints
mod Changes
mod Queries
mod Invariants
unfoldable pub use Rows.*
unfoldable pub use Statements.*
unfoldable pub use Constraints.*
pub use Changes.*
pub use Queries.*
pub use Invariants.*
