-- ===== src/StreamWorker.antt =====
-- src/zeebe/lib/ZBStreamWorker.ts: one `streamJobs` call, from the moment it is made.
pub mod Session
pub mod Recovery
pub mod Activation
pub mod Stream
pub mod Step
pub mod SingleActivation
pub mod Deferral
pub mod Stranded
pub mod Watch
mod Tests
