-- ===== src/Media.antt =====
-- services/api_go/internal/media: the cutting of a recording, and the checks of a download.
pub mod Segments
pub mod Download
mod Examples
