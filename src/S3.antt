-- ===== src/S3.antt =====
-- nbd/s3: a read cache for immutable S3 objects.
pub mod Chunk
pub mod Offsets
pub mod Remote
pub mod Waiters
pub mod Scrub
pub mod Persist
pub mod Recovery
pub mod Queue
pub mod Cache
mod Examples
mod Usage
