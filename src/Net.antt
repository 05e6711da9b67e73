-- ===== src/Net.antt =====
pub mod SendBuffer
pub mod StreamBuffer
pub mod Channel
pub mod TcpChannelPool
pub mod Acceptor
pub mod Processors
pub mod UdpChannel
mod Examples
mod AcceptExamples
mod ProcessorExamples
mod StreamExamples
mod UdpExamples
