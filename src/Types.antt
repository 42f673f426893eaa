-- ===== src/Types.antt =====
-- The data that the components share, from the package `types`.
pub mod Stage
pub mod Externals
pub mod Resource
pub mod Host
pub mod Deploy
pub mod Answer
pub mod Fault
pub mod Instance
