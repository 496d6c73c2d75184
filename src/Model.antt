-- ===== src/Model.antt =====
-- The data that the components share: statuses, errors, identities and the rows of the database.
pub mod Status
pub mod Errors
pub mod Actors
pub mod Skills
pub mod Tables
pub mod Money
pub mod Samples
