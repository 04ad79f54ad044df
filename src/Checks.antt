-- ===== src/Checks.antt =====
-- The `compareFunc` and `checkFunc` values of controllers/horreum_controller.go. Each takes values of
-- `interface{}`, and its casts are matches. What they log is left out.
mod Compare
pub mod Services
pub mod ConfigMaps
pub mod Pods
pub mod Routes
pub mod Admission
pub mod Faults
mod Check
unfoldable pub use Compare.*
unfoldable pub use Check.*
