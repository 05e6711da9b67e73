-- ===== src/Buffer.antt =====
-- src/buffer and include/buffer: the pools of fixed blocks and the buffers over them.
pub mod BufPool
pub mod WriteBuf
pub mod Stream
pub mod BufRing
pub mod ReadBuf
pub mod MsghdrPool
pub mod Dgram
pub mod ReadDgram
pub mod Examples
mod ReadExamples
mod DgramExamples
