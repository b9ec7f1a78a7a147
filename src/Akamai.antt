-- ===== src/Akamai.antt =====
-- internal/controller/akamaiobjstr: the Akamai (Linode) bucket and the access key of an Application.
pub mod Session
pub mod Ownership
pub mod Keys
pub mod Bucket
pub mod Cleanup
pub mod Connect
