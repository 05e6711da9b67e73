-- ===== src/Core.antt =====
pub mod PendingReads
pub mod EventLoop
mod Examples
mod LoopExamples
