-- ===== src/Asr.antt =====
-- services/api_go/internal/asr: the texts of overlapping segments put together.
pub mod Merge
mod Examples
