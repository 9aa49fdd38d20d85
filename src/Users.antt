-- ===== src/Users.antt =====
-- The user module, src/modules/app/user: rules, queries, repositories, services and use cases.
pub mod Strategy
pub mod Query
pub mod Mapper
pub mod Repository
pub mod Service
pub mod PreferenceService
pub mod UseCases
pub mod Example
