-- ===== src/Objects.antt =====
-- The API objects that controllers/*.go works with: their fields, zero values and constants.
mod Records
mod Empty
mod Names
pub use Records.*
pub use Empty.*
pub use Names.*
