-- ===== src/Entities.antt =====
-- The entities of src/modules/domain/entities.
pub mod Abstract
pub mod UserPreference
pub mod User
pub mod Subscription
mod Tests
