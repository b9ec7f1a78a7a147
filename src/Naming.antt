-- ===== src/Naming.antt =====
-- internal/controller/naming: the names of resources, and the rules of bucket adoption.
pub mod Text
pub mod Names
pub mod Adoption
