-- ===== src/Util.antt =====
pub mod Logger
pub mod MpscQueue
pub mod TimestampCache
mod Examples
mod QueueExamples
mod ClockExamples
