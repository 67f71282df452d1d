-- ===== src/Sql/Hoare.antt =====
-- Reasoning about queries under every schedule of faults: what holds of the rows after a query
-- that succeeds (`Ensures`), what every query keeps, failed or not (`Keeps`), and what holds after
-- one in any case (`Leaves`).
pub mod Success
pub mod Always
pub mod Afterwards
pub mod Quiet
pub mod Failure
pub use Success.*
pub use Always.*
pub use Afterwards.*
pub use Quiet.*
pub use Failure.*
