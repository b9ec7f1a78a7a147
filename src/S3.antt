-- ===== src/S3.antt =====
-- internal/controller/s3: the S3 bucket and the IAM role of an Application.
pub mod Session
pub mod Ownership
pub mod Role
pub mod Bucket
pub mod Cleanup
pub mod Connect
