-- ===== src/Status.antt =====
-- internal/controller/status: whether an Application's resources are ready, and the conditions that
-- say so.
pub mod Compute
pub mod Manager
