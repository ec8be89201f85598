-- ===== src/Files.antt =====
-- services/api_go/internal/files and services/api_go/internal/cleanup: the files of jobs, their
-- places below the data root, signed links and the removal of what has expired.
pub mod Repository
pub mod Paths
pub mod Signer
pub mod Storage
pub mod Cleanup
mod Examples
