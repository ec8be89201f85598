-- ===== src/Jobs.antt =====
-- services/api_go/internal/jobs: the job table, its life cycle and the service over it.
pub mod Model
pub mod Repository
pub mod Lifecycle
pub mod Leases
pub mod Service
pub mod Recovery
pub mod Records
pub mod Listing
pub mod Stats
pub mod Worker
pub mod Transcription
pub mod Processing
pub mod Examples
